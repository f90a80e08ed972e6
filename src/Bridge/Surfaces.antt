-- ===== src/Bridge/Surfaces.antt =====
-- The functions of entry/src/main/cpp/vlc_napi.cpp that name the surfaces of a player, for the picture
-- and for the overlay (OSD), that take them away, and that start the player on them.
pub mod Safety
pub mod Shown
pub mod Play
pub mod Only
pub mod Screen
pub mod Refinement
use vlc_harmony.Base.{
  ℕ, String, Bool, true, false, ◌&&◌, not, Option, none, some, List, [], ◌∷◌, get_elem?,
  if◌then◌else◌, ◌==◌, string_eq, nat_eq,
}
use vlc_harmony.Base.Table.{lookup, insert}
use vlc_harmony.Xcomponent.{get_native_window, get_surface_generation, has_native_window}
use vlc_harmony.Bridge.World.{
  player, Fn, flag, did, took, dropped, Host, World, PlayerEntry, Ret, undefined, value, emit, need,
}
use vlc_harmony.Bridge.Calls.{u32_at, string_at}
use vlc_harmony.Bridge.Windows.{set_window, set_osd_window}

-- An entry whose picture has a new output, and one whose overlay has.
abbrev pub with_video_out : String → PlayerEntry → PlayerEntry
with_video_out id e = record e {
  video_out_id = id;
  window_bound = false;
  bound_surface_generation = 0;
}

abbrev pub with_osd_out : String → PlayerEntry → PlayerEntry
with_osd_out id e = record e {
  osd_out_id = id;
  osd_window_bound = false;
  bound_osd_surface_generation = 0;
}

-- The second locked section: the player is looked up again, and is bound if it still has that output.
unfoldable pub note_window : ℕ → String → Option PlayerEntry → World → World
note_window h id none w = w
note_window h id (some e) w =
    if e.video_out_id == id
    then record w {
      players =
          insert h
            (record e {
              window_bound = true;
              bound_surface_generation = get_surface_generation id w.manager;
            })
            w.players;
    }
    else w

unfoldable pub note_osd_window : ℕ → String → Option PlayerEntry → World → World
note_osd_window h id none w = w
note_osd_window h id (some e) w =
    if e.osd_out_id == id
    then record w {
      players =
          insert h
            (record e {
              osd_window_bound = true;
              bound_osd_surface_generation = get_surface_generation id w.manager;
            })
            w.players;
    }
    else w

-- The picture of a player on a window that is there.
unfoldable pub show : ℕ → String → ℕ → Option ℕ → World → World
unfolding note_window
show h id mp none w = w
show h id mp (some win) w =
    let w₁ = set_window mp (some win) w in note_window h id (lookup h w₁.players) w₁

-- The overlay, where libVLC has the function.
noted : ℕ → String → Bool × World → World
unfolding note_osd_window
noted h id (done, w) = if done then note_osd_window h id (lookup h w.players) w else w

abbrev pub is_there : Option ℕ → Bool
is_there none = false
is_there (some win) = true

module _ (host : Host) where
  unfoldable pub show_osd : ℕ → String → ℕ → Option ℕ → World → Bool × World
  unfolding noted set_osd_window
  show_osd h id mp none w = (false, w)
  show_osd h id mp (some win) w = let r = set_osd_window host mp (some win) w in (r.0, noted h id r)

  -- The player is retained across the calls; the answer says whether there was a window.
  unfoldable pub show_held : ℕ → String → Option ℕ → World → Ret × World
  unfolding show
  show_held h id none w = (value (flag false), w)
  show_held h id (some mp) w =
      let win = get_native_window id w.manager in
      (
        value (flag (is_there win)),
        emit (dropped (player mp)) (show h id mp win (emit (took (player mp)) w)),
      )

  unfoldable pub show_osd_held : ℕ → String → Option ℕ → World → Ret × World
  unfolding show_osd
  show_osd_held h id none w = (value (flag false), w)
  show_osd_held h id (some mp) w =
      let (done, w₁) =
        show_osd h id mp (get_native_window id w.manager) (emit (took (player mp)) w) in
      (value (flag done), emit (dropped (player mp)) w₁)

  unfoldable pub media_player_set_video_out : List ℕ → World → Ret × World
  unfolding show_held
  media_player_set_video_out args w =
      need (u32_at host 2 0 args) (value (flag false), w)
        λ h.
          need (lookup h w.players) (value (flag false), w)
            λ e.
              let id = string_at host 1 args in
              show_held h id e.mp (record w { players = insert h (with_video_out id e) w.players })

  unfoldable pub media_player_set_osd_video_out : List ℕ → World → Ret × World
  unfolding show_osd_held
  media_player_set_osd_video_out args w =
      need (u32_at host 2 0 args) (value (flag false), w)
        λ h.
          need (lookup h w.players) (value (flag false), w)
            λ e.
              let id = string_at host 1 args in
              show_osd_held h id e.mp
                (record w { players = insert h (with_osd_out id e) w.players })

  -- Both outputs are forgotten, and libVLC gets a null window for each.
  unfoldable pub media_player_detach_views : List ℕ → World → Ret × World
  unfolding set_osd_window
  media_player_detach_views args w =
      need (u32_at host 1 0 args) (undefined, w)
        λ h.
          need (lookup h w.players) (undefined, w)
            λ e.
              need e.mp (undefined, w)
                λ mp.
                  let w₁ = emit (took (player mp)) w in
                  let w₂ = record w₁ {
                    players = insert h (with_osd_out "" (with_video_out "" e)) w₁.players;
                  } in
                  (
                    undefined,
                    emit (dropped (player mp))
                        (set_osd_window host mp none (set_window mp none w₂)).1,
                  )

  unfoldable pub has_native_window_of : List ℕ → World → Ret × World
  has_native_window_of args w = (
    value (
        flag (elim (get_elem? args 0) [
          | none ↦ false
          | some v ↦ has_native_window (host.get_string v) w.manager
        ])),
    w,
  )

  -- The window that an output waits for.
  unfoldable pub pending : Bool → String → World → Option ℕ
  pending bound out w =
      if not bound && not (out == "") then get_native_window out w.manager else none

  -- Both are read before the first call; the player is retained until it plays.
  unfoldable pub media_player_play : List ℕ → World → Ret × World
  unfolding show show_osd pending
  media_player_play args w =
      need (u32_at host 1 0 args) (undefined, w)
        λ h.
          need (lookup h w.players) (undefined, w)
            λ e.
              need e.mp (undefined, w)
                λ mp.
                  let win = pending e.window_bound e.video_out_id w in
                  let osd_win = pending e.osd_window_bound e.osd_out_id w in
                  let w₁ = show h e.video_out_id mp win (emit (took (player mp)) w) in
                  let w₂ = (show_osd h e.osd_out_id mp osd_win w₁).1 in
                  (
                    undefined,
                    emit (dropped (player mp)) (emit (did Fn.media_player_play (player mp) []) w₂),
                  )
