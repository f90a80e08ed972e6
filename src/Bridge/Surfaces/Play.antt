-- ===== src/Bridge/Surfaces/Play.antt =====
-- `MediaPlayerPlay` of entry/src/main/cpp/vlc_napi.cpp: what libVLC shows the picture on when it starts.
use vlc_harmony.Base.{
  ℕ, ◌≡◌, refl, ap, ◌∙◌, String, Bool, true, false, ◌||◌, Option, none, some, List, [], ◌∷◌,
  if◌then◌else◌, nat_eq, string_eq, ◌==◌, Bool-cases, inl, inr, arith,
}
use vlc_harmony.Base.Table.{lookup, lookup-insert}
use vlc_harmony.Xcomponent.{get_native_window, get_surface_generation}
use vlc_harmony.Bridge.World.{
  player, Fn, Call, did, took, dropped, Host, World, PlayerEntry, undefined, emit, need,
}
use vlc_harmony.Bridge.Calls.{u32_at}
use vlc_harmony.Bridge.Windows.{set_window, set_osd_window}
use vlc_harmony.Bridge.Windows.Shown.{window_of}
use vlc_harmony.Bridge.Windows.Quiet.{set_osd_window-quiet}
use vlc_harmony.Bridge.Windows.Bound.{IsBound, set_osd_window-Same}
use vlc_harmony.Bridge.Surfaces.{
  note_window, note_osd_window, show, show_osd, noted, media_player_play, pending,
}
use vlc_harmony.Bridge.Surfaces.Shown.{show-binds}

-- The window that libVLC has once it may have got another.
abbrev pub renewed : Option (Option ℕ) → Option ℕ → Option (Option ℕ)
renewed old none = old
renewed old (some win) = some (some win)

note_window-trace :
    (h : ℕ) (id : String) (o : Option PlayerEntry) (w : World)
    → (note_window h id o w).trace ≡ w.trace
unfolding note_window
note_window-trace h id none w = refl
note_window-trace h id (some e) w = elim (Bool-cases (e.video_out_id == id)) [
  | inl c ↦ rw c refl
  | inr c ↦ rw c refl
]

note_osd_window-trace :
    (h : ℕ) (id : String) (o : Option PlayerEntry) (w : World)
    → (note_osd_window h id o w).trace ≡ w.trace
unfolding note_osd_window
note_osd_window-trace h id none w = refl
note_osd_window-trace h id (some e) w = elim (Bool-cases (e.osd_out_id == id)) [
  | inl c ↦ rw c refl
  | inr c ↦ rw c refl
]

pub show-renews :
    (h : ℕ) (id : String) (mp : ℕ) (o : Option ℕ) (w : World)
    → window_of mp (show h id mp o w).trace ≡ renewed (window_of mp w.trace) o
unfolding show
show-renews h id mp none w = refl
show-renews h id mp (some win) w =
    rw (note_window-trace h id (lookup h w.players) (set_window mp (some win) w)) (ground arith)

-- An overlay leaves a bound picture as it is.
note_osd_window-IsBound :
    (h g : ℕ) (id : String) (w : World)
    → IsBound h g w
    → IsBound h g (note_osd_window h id (lookup h w.players) w)
unfolding note_osd_window
note_osd_window-IsBound h g id w (e, at, b, n) = rw at (elim (Bool-cases (e.osd_out_id == id)) [
  | inl c ↦
      let f = record e {
        osd_window_bound = true;
        bound_osd_surface_generation = get_surface_generation id w.manager;
      } in
      let same : (h == h) ≡ true = ground (arith, nat_eq.beq_iff h h) in
      rw c (f, rw (lookup-insert h h f w.players, same) refl, b, n)
  | inr c ↦ rw c (e, at, b, n)
])

noted-IsBound :
    (h g : ℕ) (id : String) (d : Bool × World) → IsBound h g d.1 → IsBound h g (noted h id d)
unfolding noted
noted-IsBound h g id (true, w) b = note_osd_window-IsBound h g id w b
noted-IsBound h g id (false, w) b = b

noted-trace : (h : ℕ) (id : String) (d : Bool × World) → (noted h id d).trace ≡ d.1.trace
unfolding noted
noted-trace h id (true, w) = note_osd_window-trace h id (lookup h w.players) w
noted-trace h id (false, w) = refl

module _ (host : Host) where
  pub show_osd-quiet :
      (h : ℕ) (id : String) (mp : ℕ) (o : Option ℕ) (w : World)
      → window_of mp (show_osd host h id mp o w).1.trace ≡ window_of mp w.trace
  unfolding show_osd
  show_osd-quiet h id mp none w = refl
  show_osd-quiet h id mp (some win) w =
      rw (noted-trace h id (set_osd_window host mp (some win) w))
        (set_osd_window-quiet host mp mp (some win) w)

  show_osd-IsBound :
      (h g : ℕ) (id : String) (mp : ℕ) (o : Option ℕ) (w : World)
      → IsBound h g w
      → IsBound h g (show_osd host h id mp o w).1
  unfolding show_osd
  show_osd-IsBound h g id mp none w b = b
  show_osd-IsBound h g id mp (some win) w (e, at, b, n) =
      noted-IsBound h g id (set_osd_window host mp (some win) w)
        (e, ap (λ t. lookup h t) (set_osd_window-Same host mp (some win) w).0 ∙ at, b, n)

  module _ (args : List ℕ) (h mp : ℕ) (e : PlayerEntry) (w : World)
      (given : u32_at host 1 0 args ≡ some h) (at : lookup h w.players ≡ some e)
      (is : e.mp ≡ some mp) where
    -- The world when both windows are set, and libVLC is to play.
    abbrev pub ready : World
    ready =
        (show_osd host h e.osd_out_id mp (pending host e.osd_window_bound e.osd_out_id w) (
          show h e.video_out_id mp (pending host e.window_bound e.video_out_id w)
            (emit (took (player mp)) w))).1

    pub play_as : media_player_play host args w ≡ (
      undefined,
      emit (dropped (player mp)) (emit (did Fn.media_player_play (player mp) []) ready),
    )
    unfolding media_player_play need
    play_as = rw (given, at, is) refl

    -- When `MediaPlayerPlay` lets a player play, the window that libVLC got last for its picture is
    -- the one that the manager has for its output, if the player was not bound and has an output,
    -- and else the one that libVLC had: nothing but the release of the player follows the start.
    pub media_player_play-shows :
        (t : List Call) × ((media_player_play host args w).1.trace
          ≡ dropped (player mp) ∷ did Fn.media_player_play (player mp) [] ∷ t)
        × (window_of mp t
            ≡ renewed (window_of mp w.trace) (
                if e.window_bound || e.video_out_id == ""
                then none
                else get_native_window e.video_out_id w.manager))
    unfolding pending
    media_player_play-shows =
        let out = pending host e.window_bound e.video_out_id w in
        let w₁ = show h e.video_out_id mp out (emit (took (player mp)) w) in
        (
          ready.trace,
          rw play_as refl,
          show_osd-quiet h e.osd_out_id mp (pending host e.osd_window_bound e.osd_out_id w) w₁
              ∙ show-renews h e.video_out_id mp out (emit (took (player mp)) w)
              ∙ ap (renewed (window_of mp w.trace)) (ground arith),
        )

    -- A player that `MediaPlayerPlay` gives a window counts as bound to the generation that the
    -- manager has for its output.
    pub media_player_play-binds :
        (win : ℕ)
        → e.window_bound ≡ false
        → (e.video_out_id == "") ≡ false
        → get_native_window e.video_out_id w.manager ≡ some win
        → IsBound h
            (get_surface_generation e.video_out_id w.manager)
            (media_player_play host args w).1
    unfolding pending
    media_player_play-binds win unbound out there =
        let waits : pending host e.window_bound e.video_out_id w ≡ some win =
          rw (unbound, out, there) refl in
        let (s, b) =
          show-binds h e.video_out_id mp win e (emit (took (player mp)) w) at
            (ground (arith, string_eq.beq_iff e.video_out_id e.video_out_id)) in
        rw play_as (
          show_osd-IsBound h (get_surface_generation e.video_out_id w.manager) e.osd_out_id mp
            (pending host e.osd_window_bound e.osd_out_id w)
            (show h e.video_out_id mp (pending host e.window_bound e.video_out_id w)
              (emit (took (player mp)) w))
            (rw waits b))
