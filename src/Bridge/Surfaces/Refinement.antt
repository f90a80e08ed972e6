-- ===== src/Bridge/Surfaces/Refinement.antt =====
-- entry/src/main/cpp/vlc_napi.cpp with entry/src/main/cpp/xcomponent_manager.cpp implements the screen
-- of its only player in every run of surface callbacks, choices of the output, and starts.
use vlc_harmony.Base.{
  ℕ, ◌≡◌, refl, ap, ◌∙◌, String, false, ◌||◌, Option, some, List, [], ◌∷◌, nat_eq, string_eq, arith,
}
use vlc_harmony.Base.Table.{insert}
use vlc_harmony.Xcomponent.{get_native_window}
use vlc_harmony.Bridge.World.{player, took, Host, World, emit}
use vlc_harmony.Bridge.Calls.{u32_at, string_at}
use vlc_harmony.Bridge.Windows.{surface_created, surface_destroyed}
use vlc_harmony.Bridge.Surfaces.{
  is_there, with_video_out, show, pending, media_player_set_video_out, media_player_play,
}
use vlc_harmony.Bridge.Surfaces.Shown.{set_video_out_as}
use vlc_harmony.Bridge.Surfaces.Play.{renewed, play_as, show-renews, show_osd-quiet}
use vlc_harmony.Bridge.Surfaces.Only.{find_one, put_one, show-IsOnly, show_osd-IsOnly}
use vlc_harmony.Bridge.Surfaces.Screen.{
  Screen, comes, goes, chosen, waits, plays, Refines, surface_created-Refines,
  surface_destroyed-Refines,
}

module _ (host : Host) (h mp : ℕ) (s : Screen) (w : World) (v : Refines h mp s w)
    (args : List ℕ) where
  media_player_set_video_out-Refines :
      u32_at host 2 0 args ≡ some h
      → Refines h mp (chosen (string_at host 1 args) s) (media_player_set_video_out host args w).1
  media_player_set_video_out-Refines given =
      let (e, at, (is, output, flag)) = v.only in
      let id = string_at host 1 args in
      let found = find_one h e w.players at in
      let f = with_video_out id e in
      let w₁ = emit (took (player mp)) (record w { players = insert h f w.players }) in
      let (only, kept) =
        show-IsOnly h (some mp) id false mp (s.windows id) w₁
          (f, put_one h e f w.players at, (is, refl, refl)) in
      rw (set_video_out_as host args h mp e w given found is (s.windows id) (v.windows id))
        (record {
          only = only;
          windows = λ j. ap (get_native_window j) kept ∙ v.windows j;
          shown =
              show-renews h id mp (s.windows id) w₁ ∙ ap (λ o. renewed o (s.windows id)) v.shown;
          ready = ap (λ n. n.ready_set) kept ∙ v.ready;
          destroyed = ap (λ n. n.destroyed_set) kept ∙ v.destroyed;
        })

  media_player_play-Refines :
      u32_at host 1 0 args ≡ some h → Refines h mp (plays s) (media_player_play host args w).1
  unfolding pending
  media_player_play-Refines given =
      let (e, at, (is, output, flag)) = v.only in
      let found = find_one h e w.players at in
      let w₀ = emit (took (player mp)) w in
      let o = pending host e.window_bound e.video_out_id w in
      let same : o ≡ waits s = rw (output, flag) (ground (arith, v.windows s.out)) in
      let w₁ = show h e.video_out_id mp o w₀ in
      let osd = pending host e.osd_window_bound e.osd_out_id w in
      let b = e.window_bound || is_there o in
      let (only₁, kept₁) =
        show-IsOnly h (some mp) e.video_out_id e.window_bound mp o w₀ (e, at, (is, refl, refl)) in
      let (only₂, kept₂) =
        show_osd-IsOnly h (some mp) e.video_out_id b host e.osd_out_id mp osd w₁ only₁ in
      let (f, at₂, (is₂, out₂, flag₂)) = only₂ in
      let kept = kept₂ ∙ kept₁ in
      let both : b ≡ (s.bound || is_there (waits s)) =
        ap (λ c. c || is_there o) flag ∙ ap (λ p. s.bound || is_there p) same in
      rw (play_as host args h mp e w given found is) (record {
        only = (f, at₂, (is₂, out₂ ∙ output, flag₂ ∙ both));
        windows = λ j. ap (get_native_window j) kept ∙ v.windows j;
        shown =
            show_osd-quiet host h e.osd_out_id mp osd w₁
            ∙ show-renews h e.video_out_id mp o w₀
            ∙ ap (λ t. renewed t o) v.shown
            ∙ ap (renewed s.shown) same;
        ready = ap (λ n. n.ready_set) kept ∙ v.ready;
        destroyed = ap (λ n. n.destroyed_set) kept ∙ v.destroyed;
      })

-- What may happen to a screen. A window comes with a size, if the platform knows it; an output is
-- chosen by the arguments that JavaScript gives.
pub data Input : Type 0 where
  window_comes : String → Option ℕ → Option (ℕ × ℕ) → Input
  window_goes : String → Input
  output_chosen : ℕ → Input
  starts : Input

module _ (host : Host) (handle : ℕ) where
  -- The step of the screen, and that of the module, where `handle` is the value that JavaScript has.
  unfoldable pub screen_step : Input → Screen → Screen
  screen_step (window_comes id win size) s = comes id win s
  screen_step (window_goes id) s = goes id s
  screen_step (output_chosen name) s = chosen (string_at host 1 (handle ∷ name ∷ [])) s
  screen_step starts s = plays s

  unfoldable pub module_step : Input → World → World
  module_step (window_comes id win size) w = surface_created host (some id) win size w
  module_step (window_goes id) w = surface_destroyed host (some id) w
  module_step (output_chosen name) w = (media_player_set_video_out host (handle ∷ name ∷ []) w).1
  module_step starts w = (media_player_play host (handle ∷ []) w).1

  unfoldable pub screen_run : List Input → Screen → Screen
  screen_run [] s = s
  screen_run (i ∷ is) s = screen_run is (screen_step i s)

  unfoldable pub module_run : List Input → World → World
  module_run [] w = w
  module_run (i ∷ is) w = module_run is (module_step i w)

  step-Refines :
      (h mp : ℕ) (i : Input) (s : Screen) (w : World)
      → host.get_uint32 handle ≡ some h
      → Refines h mp s w
      → Refines h mp (screen_step i s) (module_step i w)
  unfolding screen_step module_step
  step-Refines h mp (window_comes id win size) s w given v =
      surface_created-Refines host h mp s w v id win size
  step-Refines h mp (window_goes id) s w given v = surface_destroyed-Refines host h mp s w v id
  step-Refines h mp (output_chosen name) s w given v =
      media_player_set_video_out-Refines host h mp s w v (handle ∷ name ∷ []) given
  step-Refines h mp starts s w given v =
      media_player_play-Refines host h mp s w v (handle ∷ []) given

  -- From a world with one player that implements a screen, every run of windows that come and go,
  -- outputs that are chosen and starts ends in a world that implements the screen after the same
  -- run: the output and the mark of being bound are those of the player's entry, the windows those
  -- of the manager, and the window that is shown the last that libVLC got for the picture.
  pub run-Refines :
      (h mp : ℕ) (is : List Input) (s : Screen) (w : World)
      → host.get_uint32 handle ≡ some h
      → Refines h mp s w
      → Refines h mp (screen_run is s) (module_run is w)
  unfolding screen_run module_run
  run-Refines h mp [] s w given v = v
  run-Refines h mp (i ∷ is) s w given v =
      run-Refines h mp is (screen_step i s) (module_step i w) given
        (step-Refines h mp i s w given v)
