-- ===== src/Bridge/Run.antt =====
-- All that can happen to the native module of entry/src/main/cpp/vlc_napi.cpp, in any order: its
-- registration with the platform's component; calls of its functions by JavaScript, with any
-- arguments; the platform's callbacks for a surface; player events and renderer events that libVLC
-- sends, with any handle in their box; turns of the seek threads; and detached threads that run.
pub mod Safety
pub mod Stale
mod Tests
mod Scenes
mod Lives
mod Screens
use vlc_harmony.Base.{ℕ, String, Bool, Option, List, [], ◌∷◌}
use vlc_harmony.Bridge.World.{Host, World}
use vlc_harmony.Bridge.Events.{Event, on_player_event}
use vlc_harmony.Bridge.Player.{turn_worker, run_job}
use vlc_harmony.Bridge.Windows.{surface_created, surface_changed, surface_destroyed}
use vlc_harmony.Bridge.Renderers.{RendererEvent, on_renderer_event}
use vlc_harmony.Bridge.Api.{Api, serve, register_xcomponent_if_present}

pub data Action : Type 0 where
  registers : Option ℕ → Option String → Action
  calls : Api → List ℕ → Action
  creates changes : Option String → Option ℕ → Option (ℕ × ℕ) → Action
  destroys : Option String → Action
  sends : ℕ → Event → Action
  finds : ℕ → RendererEvent → Action
  turns : ℕ → Bool → Action
  runs : ℕ → Action

module _ (host : Host) where
  unfoldable pub act : Action → World → World
  act (registers component id) w = register_xcomponent_if_present component id w
  act (calls f args) w = (serve host f args w).1
  act (creates id win size) w = surface_created host id win size w
  act (changes id win size) w = surface_changed host id win size w
  act (destroys id) w = surface_destroyed host id w
  act (sends handle e) w = on_player_event host handle e w
  act (finds handle e) w = on_renderer_event host handle e w
  act (turns id timed_out) w = turn_worker host id timed_out w
  act (runs id) w = run_job host id w

  unfoldable pub run : List Action → World → World
  unfolding act
  run [] w = w
  run (a ∷ acts) w = run acts (act a w)
