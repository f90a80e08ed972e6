-- ===== src/Bridge/Surfaces/Screen.antt =====
-- What the app sees of the picture of a player, and that entry/src/main/cpp/vlc_napi.cpp with
-- entry/src/main/cpp/xcomponent_manager.cpp implements it: an output, the windows of the surfaces, and
-- the window that libVLC shows the picture on.
use vlc_harmony.Base.{
  ℕ, ◌≡◌, refl, ap, ◌∙◌, String, Bool, true, false, ◌&&◌, ◌||◌, not, Option, none, some, nat_eq,
  string_eq, ◌==◌, if◌then◌else◌, Bool-cases, inl, inr, arith,
}
use vlc_harmony.Base.Table.{lookup-insert, lookup-erase}
use vlc_harmony.Xcomponent.{Manager, add_native_window, release_window, get_native_window}
use vlc_harmony.Bridge.World.{Host, World}
use vlc_harmony.Bridge.Windows.{
  gather, shows, ready_bindings, lost_bindings, on_surface_ready, surface_created,
  surface_destroyed,
}
use vlc_harmony.Bridge.Windows.Shown.{window_of, has_picture}
use vlc_harmony.Bridge.Windows.Quiet.{on_surface_ready-quiet, surface_destroyed-quiet}
use vlc_harmony.Bridge.Windows.Bound.{
  on_surface_ready-binds, on_surface_ready-manager, detach_native_window_by_id-unbinds,
  detach_native_window_by_id-manager,
}
use vlc_harmony.Bridge.Windows.Callbacks.{call_of, surface_created_as, surface_destroyed_as}
use vlc_harmony.Bridge.Windows.Single.{
  IsOnly, on_surface_ready-IsOnly, detach_native_window_by_id-IsOnly,
}
use vlc_harmony.Bridge.Surfaces.{is_there}
use vlc_harmony.Bridge.Surfaces.Play.{renewed}
use vlc_harmony.Bridge.Surfaces.Only.{find_one}

-- The screen of a player, as an app thinks of it.
pub record Screen : Type 0 where
  pub out : String
  pub bound : Bool
  pub windows : String → Option ℕ
  pub shown : Option (Option ℕ)

abbrev put : String → Option ℕ → (String → Option ℕ) → String → Option ℕ
put id win windows j = if id == j then win else windows j

-- A window comes to a surface, and goes.
abbrev pub comes : String → Option ℕ → Screen → Screen
comes id win s = record {
  out = s.out;
  bound = s.bound || shows s.out id;
  windows = put id win s.windows;
  shown = if shows s.out id then some win else s.shown;
}

abbrev pub goes : String → Screen → Screen
goes id s = record {
  out = s.out;
  bound = s.bound && not (s.out == id);
  windows = put id none s.windows;
  shown = if s.out == id then some none else s.shown;
}

-- Another surface becomes the output, and the player is to play.
abbrev pub chosen : String → Screen → Screen
chosen id s = record {
  out = id;
  bound = is_there (s.windows id);
  windows = s.windows;
  shown = renewed s.shown (s.windows id);
}

abbrev pub waits : Screen → Option ℕ
waits s = if s.bound || s.out == "" then none else s.windows s.out

abbrev pub plays : Screen → Screen
plays s = record {
  out = s.out;
  bound = s.bound || is_there (waits s);
  windows = s.windows;
  shown = renewed s.shown (waits s);
}

-- The world implements the screen of its only player.
pub record Refines (h mp : ℕ) (s : Screen) (w : World) : Type 0 where
  pub only : IsOnly h (some mp) s.out s.bound w
  pub windows : (id : String) → get_native_window id w.manager ≡ s.windows id
  pub shown : window_of mp w.trace ≡ s.shown
  pub ready : w.manager.ready_set ≡ true
  pub destroyed : w.manager.destroyed_set ≡ true

added :
    (id j : String) (win : Option ℕ) (m : Manager)
    → get_native_window j (add_native_window id win true m).1
      ≡ (if id == j then win else get_native_window j m)
unfolding add_native_window get_native_window
added id j win m =
    rw (lookup-insert id j win m.windows)
      (elim (Bool-cases (id == j)) [ inl c ↦ rw c refl | inr c ↦ rw c refl ])

gone :
    (id j : String) (m : Manager)
    → get_native_window j (release_window id m) ≡ (if id == j then none else get_native_window j m)
unfolding release_window get_native_window
gone id j m =
    rw (lookup-erase id j m.windows)
      (elim (Bool-cases (id == j)) [ inl c ↦ rw c refl | inr c ↦ rw c refl ])

module _ (host : Host) (h mp : ℕ) (s : Screen) (w : World) (v : Refines h mp s w) where
  comes-shown :
      (id : String) (generation : ℕ) (win : Option ℕ) (size : Option (ℕ × ℕ)) (m : Manager)
      → window_of mp
          (on_surface_ready host (call_of id generation win size) (record w { manager = m })).trace
        ≡ (if shows s.out id then some win else s.shown)
  comes-shown id generation win size m =
      let (e, at, (is, output, flag)) = v.only in
      let r = call_of id generation win size in
      elim (Bool-cases (shows s.out id)) [
        | inl c ↦
            rw c
              (on_surface_ready-binds host r h mp e (record w { manager = m })
                (find_one h e w.players at) is (ap (λ o. shows o id) output ∙ c)).0
        | inr c ↦
            let other : shows e.video_out_id id ≡ false = ap (λ o. shows o id) output ∙ c in
            rw c (
              on_surface_ready-quiet host mp r (record w { manager = m })
                (rw at (unfold gather ready_bindings has_picture in ground arith))
              ∙ v.shown)
      ]

  pub surface_created-Refines :
      (id : String) (win : Option ℕ) (size : Option (ℕ × ℕ))
      → Refines h mp (comes id win s) (surface_created host (some id) win size w)
  surface_created-Refines id win size =
      let (g, m) = add_native_window id win true w.manager in
      let r = call_of id g win size in
      let w₁ = record w { manager = m } in
      let kept = on_surface_ready-manager host r w₁ in
      rw (surface_created_as host id win size w v.ready) (record {
        only = on_surface_ready-IsOnly host h mp s.out s.bound w₁ v.only r;
        windows = λ j.
            ap (get_native_window j) kept
            ∙ added id j win w.manager
            ∙ ap (λ o. if id == j then win else o) (v.windows j);
        shown = comes-shown id g win size m;
        ready = ap (λ n. n.ready_set) kept ∙ (unfold add_native_window in v.ready);
        destroyed = ap (λ n. n.destroyed_set) kept ∙ (unfold add_native_window in v.destroyed);
      })

  goes-shown :
      (id : String)
      → window_of mp (surface_destroyed host (some id) w).trace
        ≡ (if s.out == id then some none else s.shown)
  goes-shown id =
      let (e, at, (is, output, flag)) = v.only in
      elim (Bool-cases (s.out == id)) [
        | inl c ↦
            rw (c, surface_destroyed_as host id w v.destroyed)
              (detach_native_window_by_id-unbinds host id h mp e
                (record w { manager = release_window id w.manager }) (find_one h e w.players at) is
                (ap (λ o. o == id) output ∙ c)).0
        | inr c ↦
            let other : (e.video_out_id == id) ≡ false = ap (λ o. o == id) output ∙ c in
            rw c (
              surface_destroyed-quiet host mp id w
                (rw at (unfold gather lost_bindings has_picture in ground arith))
              ∙ v.shown)
      ]

  pub surface_destroyed-Refines :
      (id : String) → Refines h mp (goes id s) (surface_destroyed host (some id) w)
  surface_destroyed-Refines id =
      let w₁ = record w { manager = release_window id w.manager } in
      let kept = detach_native_window_by_id-manager host id w₁ in
      let to = surface_destroyed_as host id w v.destroyed in
      record {
        only = rw to (detach_native_window_by_id-IsOnly host h mp s.out s.bound w₁ v.only id);
        windows = λ j. rw to (
            ap (get_native_window j) kept
            ∙ gone id j w.manager
            ∙ ap (λ o. if id == j then none else o) (v.windows j));
        shown = goes-shown id;
        ready = rw to (ap (λ n. n.ready_set) kept ∙ (unfold release_window in v.ready));
        destroyed = rw to (ap (λ n. n.destroyed_set) kept ∙ (unfold release_window in v.destroyed));
      }
