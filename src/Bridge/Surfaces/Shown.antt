-- ===== src/Bridge/Surfaces/Shown.antt =====
-- What the functions of entry/src/main/cpp/vlc_napi.cpp that name the surfaces of a player leave
-- behind, for libVLC and for the player.
use vlc_harmony.Base.{
  ℕ, ◌≡◌, refl, ap, ◌∙◌, String, true, false, Option, none, some, List, [], ◌∷◌, nat_eq, string_eq,
  ◌==◌, arith,
}
use vlc_harmony.Base.Table.{lookup, insert, lookup-insert}
use vlc_harmony.Xcomponent.{get_native_window, get_surface_generation}
use vlc_harmony.Bridge.World.{
  player, flag, took, dropped, Host, World, PlayerEntry, value, emit, need,
}
use vlc_harmony.Bridge.Calls.{u32_at, string_at}
use vlc_harmony.Bridge.Windows.{gather, lost_bindings, surface_destroyed}
use vlc_harmony.Bridge.Windows.Shown.{window_of, has_picture}
use vlc_harmony.Bridge.Windows.Quiet.{surface_destroyed-quiet}
use vlc_harmony.Bridge.Windows.Bound.{IsBound, IsUnbound}
use vlc_harmony.Bridge.Surfaces.{
  with_video_out, is_there, note_window, show, show_held, media_player_set_video_out,
}

-- A window for the picture of a player that is shown on the output.
pub show-binds :
    (h : ℕ) (id : String) (mp win : ℕ) (e : PlayerEntry) (w : World)
    → lookup h w.players ≡ some e
    → (e.video_out_id == id) ≡ true
    → (window_of mp (show h id mp (some win) w).trace ≡ some (some win))
      × IsBound h (get_surface_generation id w.manager) (show h id mp (some win) w)
unfolding show note_window
show-binds h id mp win e w at out =
    let same : (h == h) ≡ true = ground (arith, nat_eq.beq_iff h h) in
    let bound = record e {
      window_bound = true;
      bound_surface_generation = get_surface_generation id w.manager;
    } in
    rw (at, out)
      (ground arith, (bound, rw (lookup-insert h h bound w.players, same) refl, refl, refl))

module _ (host : Host) (args : List ℕ) (h mp : ℕ) (e : PlayerEntry) (w : World)
    (given : u32_at host 2 0 args ≡ some h) (at : lookup h w.players ≡ some e)
    (is : e.mp ≡ some mp) where
  entered :
      (id : String)
      → lookup h (insert h (with_video_out id e) w.players) ≡ some (with_video_out id e)
  entered id =
      let same : (h == h) ≡ true = ground (arith, nat_eq.beq_iff h h) in
      rw (lookup-insert h h (with_video_out id e) w.players, same) refl

  -- The world in which the output of the player is new.
  abbrev pub renamed : String → World
  renamed id = record w { players = insert h (with_video_out id e) w.players }

  pub set_video_out_as :
      (o : Option ℕ)
      → get_native_window (string_at host 1 args) w.manager ≡ o
      → media_player_set_video_out host args w ≡ (
        value (flag (is_there o)),
        emit (dropped (player mp)) (
            show h
              (string_at host 1 args)
              mp
              o
              (emit (took (player mp)) (renamed (string_at host 1 args)))),
      )
  unfolding media_player_set_video_out need show_held
  set_video_out_as o found =
      let id = string_at host 1 args in
      rw given (
        rw at (
          ap (λ p. show_held host h id p (renamed id)) is
          ∙ ap
              (λ o'. (
                value (flag (is_there o')),
                emit (dropped (player mp)) (show h id mp o' (emit (took (player mp)) (renamed id))),
              ))
              found))

  -- Where the manager has a window for the output that a player is given, libVLC gets it at once,
  -- the player counts as bound to the present generation, and the answer is `true`.
  pub media_player_set_video_out-binds :
      (win : ℕ)
      → get_native_window (string_at host 1 args) w.manager ≡ some win
      → ((media_player_set_video_out host args w).0 ≡ value (flag true))
        × (window_of mp (media_player_set_video_out host args w).1.trace ≡ some (some win))
        × IsBound h
            (get_surface_generation (string_at host 1 args) w.manager)
            (media_player_set_video_out host args w).1
  media_player_set_video_out-binds win there =
      let id = string_at host 1 args in
      let (s, bound) =
        show-binds h id mp win (with_video_out id e) (emit (took (player mp)) (renamed id))
          (entered id) (ground (arith, string_eq.beq_iff id id)) in
      rw (set_video_out_as (some win) there) (refl, s, bound)

  -- Where it has none, the player is retained and released, nothing else is called, the answer is
  -- `false`, and the player does not count as bound.
  pub media_player_set_video_out-waits :
      get_native_window (string_at host 1 args) w.manager ≡ none
      → ((media_player_set_video_out host args w).0 ≡ value (flag false))
        × ((media_player_set_video_out host args w).1.trace
            ≡ dropped (player mp) ∷ took (player mp) ∷ w.trace)
        × IsUnbound h (media_player_set_video_out host args w).1
  unfolding show
  media_player_set_video_out-waits missing =
      let id = string_at host 1 args in
      rw (set_video_out_as none missing) (refl, refl, (with_video_out id e, entered id, refl))

  -- A surface that is destroyed while the only player has another output, given while the manager had
  -- no window for it: libVLC keeps the window that it got before, of whatever surface that was.
  pub destroyed_surface_keeps_window :
      (id : String)
      → w.players ≡ (h, e) ∷ []
      → get_native_window (string_at host 1 args) w.manager ≡ none
      → (string_at host 1 args == id) ≡ false
      → window_of mp
          (surface_destroyed host (some id) (media_player_set_video_out host args w).1).trace
        ≡ window_of mp w.trace
  unfolding show
  destroyed_surface_keeps_window id only missing other =
      let out = string_at host 1 args in
      rw (set_video_out_as none missing) (
        surface_destroyed-quiet host mp id
          (emit (dropped (player mp)) (emit (took (player mp)) (renamed out)))
          (rw only
            (unfold insert gather lost_bindings has_picture in ground (arith, nat_eq.beq_iff h h))))
