-- ===== src/Bridge/Run/Safety.antt =====
-- Whatever happens, the account of references of entry/src/main/cpp/vlc_napi.cpp balances, and no
-- object is used or given back that is not held.
use vlc_harmony.Base.{
  ℕ, ◌+◌, ◌*◌, ◌≤◌, ◌<◌, ◌≡◌, refl, String, Option, none, some, List, [], ◌∷◌, length, arith,
}
use vlc_harmony.Bridge.World.{Ref, Host, World, initial, handle_mod}
use vlc_harmony.Bridge.Ledger.{
  Dead, zero_dead, Inv, initial-Inv, takes, drops, owners, entries, IsSafe,
}
use vlc_harmony.Bridge.Ledger.Moves.{manager-Inv}
use vlc_harmony.Bridge.Calls.Safety.{Good}
use vlc_harmony.Bridge.Events.Safety.{on_player_event-Inv}
use vlc_harmony.Bridge.Player.Seeks.{turn_worker-Inv}
use vlc_harmony.Bridge.Player.Safety.{run_job-Inv}
use vlc_harmony.Bridge.Windows.Safety.{
  Kept, surface_created-Kept, surface_changed-Kept, surface_destroyed-Kept,
}
use vlc_harmony.Bridge.Renderers.Found.{on_renderer_event-Good}
use vlc_harmony.Bridge.Api.{register_xcomponent_if_present}
use vlc_harmony.Bridge.Api.Safety.{serve-Keeps}
use vlc_harmony.Bridge.Run.{
  Action, registers, calls, creates, changes, destroys, sends, finds, turns, runs, act, run,
}

module _ ⦃dead : Dead⦄ where
  register-Kept :
      (component : Option ℕ) (id : Option String) (w : World)
      → Inv w
      → Kept (λ _. 0) w (register_xcomponent_if_present component id w)
  unfolding register_xcomponent_if_present
  register-Kept none id w v = (v, refl)
  register-Kept (some component) none w v = (v, refl)
  register-Kept (some component) (some id) w v = (manager-Inv (λ _. 0) w _ v, refl)

  -- A step that gives out no handle.
  Kept-Good : (w w' : World) → w.next_handle + 3 < handle_mod → Kept (λ _. 0) w w' → Good w w'
  Kept-Good w w' room (v, n) = (v, omega (arith, n))

  module _ (host : Host) where
    act-Good :
        (a : Action) (w : World) → Inv w → w.next_handle + 3 < handle_mod → Good w (act host a w)
    unfolding act
    act-Good (registers component id) w v room = Kept-Good w _ room (register-Kept component id w v)
    act-Good (calls f args) w v room = serve-Keeps host f args w v room
    act-Good (creates id win size) w v room =
        Kept-Good w _ room (surface_created-Kept host id win size w v)
    act-Good (changes id win size) w v room =
        Kept-Good w _ room (surface_changed-Kept host id win size w v)
    act-Good (destroys id) w v room = Kept-Good w _ room (surface_destroyed-Kept host id w v)
    act-Good (sends handle e) w v room = Kept-Good w _ room (on_player_event-Inv host handle e w v)
    act-Good (finds handle e) w v room = on_renderer_event-Good host handle e w room v
    act-Good (turns id timed_out) w v room =
        Kept-Good w _ room (turn_worker-Inv host (λ _. 0) id timed_out w v)
    act-Good (runs id) w v room = Kept-Good w _ room (run_job-Inv host id w v)

    pub run-Good :
        (acts : List Action) (w : World)
        → Inv w
        → w.next_handle + 2 * length acts + 1 < handle_mod
        → Inv (run host acts w) × ((run host acts w).next_handle ≤ w.next_handle + 2 * length acts)
    unfolding run
    run-Good [] w v room = (v, omega arith)
    run-Good (a ∷ acts) w v room =
        let (v₁, n) = act-Good a w v (omega arith) in
        let (v₂, m) = run-Good acts (act host a w) v₁ (omega arith) in (v₂, omega (arith, n, m))

module _ (host : Host) where
  -- The function of an event, if there is one.
  held_in : ℕ → Option ℕ → ℕ
  held_in t none = t
  held_in t (some p) = p

  -- A run from the start.
  abbrev ended : List Action → World
  ended acts = run host acts initial

  pub ended-Inv :
      (acts : List Action)
      → 2 * length acts + 2 < handle_mod
      → Inv ⦃dead = zero_dead⦄ (ended acts) × ((ended acts).next_handle ≤ 2 * length acts + 1)
  ended-Inv acts room =
      let (v, n) = run-Good ⦃dead = zero_dead⦄ host acts initial initial-Inv (omega arith) in
      (v, omega (arith, n))

  module _ (acts : List Action) (room : 2 * length acts + 2 < handle_mod) where
    -- After any fewer than 2^31 - 1 actions, every reference was taken as often as it was
    -- given back and is held by the tables and threads together: nothing leaks that no table or
    -- thread still holds, and a box that an event callback gets counts as one of a table.
    pub run-balances :
        (r : Ref)
        → takes r (run host acts initial).trace
          ≡ drops r (run host acts initial).trace + owners r (run host acts initial)
    run-balances r = omega (arith, (ended-Inv acts room).0.balanced r)

    -- After any fewer than 2^31 - 1 actions, no call was made on an object or handed one (a media, a
    -- descriptor, a renderer, an equalizer, the box of a callback), and none was given back, that was
    -- not held at that moment: no use after release and no double release. The actions are whole
    -- ones: an event of a player or a discoverer reads the function that it calls and acquires it in
    -- one of them. The code gives up its lock between the two, and what may happen there is not
    -- excluded here.
    pub run-IsSafe : IsSafe (run host acts initial).trace
    run-IsSafe = (ended-Inv acts room).0.safe

    -- After any fewer than 2^31 - 1 actions, a handle stands for at most one entry of all
    -- eight tables, 0 for none, and the handle that is given out next for none yet.
    pub run-handles :
        (h : ℕ)
        → (entries h (run host acts initial) ≤ 1)
          × (entries 0 (run host acts initial) ≡ 0)
          × (entries (run host acts initial).next_handle (run host acts initial) ≡ 0)
    run-handles h =
        let v = (ended-Inv acts room).0.handles in
        (v.one h, v.gone, v.new (run host acts initial).next_handle (omega arith))
