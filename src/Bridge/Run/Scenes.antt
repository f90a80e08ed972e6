-- ===== src/Bridge/Run/Scenes.antt =====
-- Short runs of the native module of entry/src/main/cpp/vlc_napi.cpp with a surface, a listener and
-- handles that stand for nothing.
use vlc_harmony.Base.{
  ◌≡◌, ◌↔◌, refl, true, false, none, some, List, [], ◌∷◌, nat_beq, ltb, ◌||◌, ◌&&◌, ◌==◌, string_eq,
  if◌then◌else◌, nat_eq, arith,
}
use vlc_harmony.Base.Table.{lookup, uses}
use vlc_harmony.Bridge.World.{
  took, js_ref, ptr, value, flag, Call, Fn, did, dropped, player, tsfn, World, initial, PlayerEntry,
}
use vlc_harmony.Bridge.Ledger.{hits, IsSafe}
use vlc_harmony.Bridge.Api.{Api, serve, exports}
use vlc_harmony.Bridge.Run.Tests.{host}
use vlc_harmony.Xcomponent.{get_native_window, get_surface_generation, has_native_window}
use vlc_harmony.Bridge.Windows.{surface_created, surface_destroyed}
use vlc_harmony.Bridge.Windows.Shown.{window_of}
use vlc_harmony.Bridge.Windows.Bound.{IsBound, IsUnbound}
use vlc_harmony.Bridge.Windows.Callbacks.{surface_created-binds, surface_destroyed-unbinds}
use vlc_harmony.Bridge.Surfaces.{media_player_set_video_out, media_player_play}
use vlc_harmony.Bridge.Surfaces.Shown.{
  media_player_set_video_out-binds, media_player_set_video_out-waits,
  destroyed_surface_keeps_window,
}
use vlc_harmony.Bridge.Surfaces.Play.{renewed, media_player_play-shows, media_player_play-binds}
use vlc_harmony.Bridge.Events.{emit_player_event}
use vlc_harmony.Bridge.Player.{media_player_stop}
use vlc_harmony.Bridge.Player.Race.{stop_races_event}
use vlc_harmony.Bridge.Api.Errors.{takes_handle, stale_handle}
use vlc_harmony.Bridge.Api.Names.{js_name, names_of, lookup-names}
use vlc_harmony.Bridge.Logs.{
  passed_over, submitted, logged, contains, begins, sink_level, on_libvlc_log, warning_level,
  debug_level,
}
use vlc_harmony.Bridge.Logs.Filter.{on_libvlc_log-filters}

-- A player (2) with a listener that is to be shown on the surface "text".
abbrev pub waiting : PlayerEntry
waiting = record {
  mp = some 5;
  lib_handle = 1;
  media_handle = 0;
  video_out_id = "text";
  osd_out_id = "";
  window_bound = false;
  osd_window_bound = false;
  bound_surface_generation = 0;
  bound_osd_surface_generation = 0;
  seek_worker = some 0;
  tsfn = some 23;
  js_callback_ref = some 22;
}

abbrev pub placed : World
placed = record initial {
  next_handle = 3;
  players = (2, waiting) ∷ [];
  manager = record {
    components = ("text", 5) ∷ [];
    windows = [];
    generations = [];
    ready_set = true;
    destroyed_set = true;
  };
  trace = took (tsfn 23) ∷ took (js_ref 22) ∷ took (player 5) ∷ [];
}

-- Its surface has come.
abbrev bound : PlayerEntry
bound = record waiting { window_bound = true; bound_surface_generation = 1 }

abbrev shown : World
shown = record placed {
  players = (2, bound) ∷ [];
  manager = record placed.manager {
    windows = ("text", some 77) ∷ [];
    generations = ("text", 1) ∷ [];
  };
  trace =
      did Fn.media_player_set_ohos_nativewindow_ptr (player 5) (ptr (some 77) ∷ []) ∷ placed.trace;
}

surface_created-binds_example :
    (window_of 5 (surface_created host (some "text") (some 77) none placed).trace ≡ some (some 77))
    × IsBound 2
        (get_surface_generation "text"
          (surface_created host (some "text") (some 77) none placed).manager)
        (surface_created host (some "text") (some 77) none placed)
    × (get_native_window "text" (surface_created host (some "text") (some 77) none placed).manager
        ≡ some 77)
unfolding lookup
surface_created-binds_example =
    surface_created-binds host "text" 2 5 waiting placed refl refl (some 77) none refl refl

surface_destroyed-unbinds_example :
    (window_of 5 (surface_destroyed host (some "text") shown).trace ≡ some none)
    × IsUnbound 2 (surface_destroyed host (some "text") shown)
    × (has_native_window "text" (surface_destroyed host (some "text") shown).manager ≡ false)
unfolding lookup
surface_destroyed-unbinds_example =
    surface_destroyed-unbinds host "text" 2 5 bound shown refl refl refl refl

media_player_set_video_out-binds_example :
    ((media_player_set_video_out host (2 ∷ 9 ∷ []) shown).0 ≡ value (flag true))
    × (window_of 5 (media_player_set_video_out host (2 ∷ 9 ∷ []) shown).1.trace ≡ some (some 77))
    × IsBound 2
        (get_surface_generation "text" shown.manager)
        (media_player_set_video_out host (2 ∷ 9 ∷ []) shown).1
unfolding lookup get_native_window
media_player_set_video_out-binds_example =
    media_player_set_video_out-binds host (2 ∷ 9 ∷ []) 2 5 bound shown refl refl refl 77 refl

media_player_set_video_out-waits_example :
    ((media_player_set_video_out host (2 ∷ 8 ∷ []) shown).0 ≡ value (flag false))
    × ((media_player_set_video_out host (2 ∷ 8 ∷ []) shown).1.trace
        ≡ dropped (player 5) ∷ took (player 5) ∷ shown.trace)
    × IsUnbound 2 (media_player_set_video_out host (2 ∷ 8 ∷ []) shown).1
unfolding lookup get_native_window
media_player_set_video_out-waits_example =
    media_player_set_video_out-waits host (2 ∷ 8 ∷ []) 2 5 bound shown refl refl refl refl

destroyed_surface_keeps_window_example :
    window_of 5
      (surface_destroyed host
        (some "text")
        (media_player_set_video_out host (2 ∷ 8 ∷ []) shown).1).trace
    ≡ window_of 5 shown.trace
unfolding lookup get_native_window
destroyed_surface_keeps_window_example =
    destroyed_surface_keeps_window host (2 ∷ 8 ∷ []) 2 5 bound shown refl refl refl "text" refl refl
      refl

-- A window is there, and the player is not bound to it.
abbrev late : World
late = record shown { players = (2, waiting) ∷ [] }

media_player_play-shows_example :
    (t : List Call) × ((media_player_play host (2 ∷ []) late).1.trace
      ≡ dropped (player 5) ∷ did Fn.media_player_play (player 5) [] ∷ t)
    × (window_of 5 t
        ≡ renewed (window_of 5 late.trace) (
            if waiting.window_bound || waiting.video_out_id == ""
            then none
            else get_native_window waiting.video_out_id late.manager))
unfolding lookup
media_player_play-shows_example =
    media_player_play-shows host (2 ∷ []) 2 5 waiting late refl refl refl

media_player_play-binds_example :
    IsBound 2 (get_surface_generation "text" late.manager) (media_player_play host (2 ∷ []) late).1
unfolding lookup get_native_window
media_player_play-binds_example =
    media_player_play-binds host (2 ∷ []) 2 5 waiting late refl refl refl 77 refl refl refl

stop_races_event_example :
    ¬ IsSafe
      (emit_player_event waiting.tsfn 2 "playing" 0
        (media_player_stop host (2 ∷ []) placed).1).trace
unfolding lookup hits
stop_races_event_example =
    stop_races_event host (2 ∷ []) 2 23 waiting "playing" 0 placed refl refl refl refl

stale_handle_example : (serve host Api.media_player_play (9 ∷ []) placed).1 ≡ placed
unfolding takes_handle uses
stale_handle_example =
    stale_handle host Api.media_player_play (9 ∷ []) placed refl (λ k e. ground (arith, e))

lookup-names_example :
    (names_of Api.media_parse exports ≡ js_name Api.media_parse ∷ [])
    × ((lookup "parse" exports ≡ some Api.media_parse) ↔ ("parse" ≡ js_name Api.media_parse))
lookup-names_example = lookup-names "parse" Api.media_parse

on_libvlc_log-filters_example :
    (on_libvlc_log false 4 (some "lost %d frames") "lost 3 frames" ≡ (
      if ltb 4 warning_level || contains (some "lost %d frames") "[OHSurfaceTiming]"
      then passed_over
      else logged (sink_level 4) "lost 3 frames"))
    × (on_libvlc_log true 4 (some "lost %d frames") "lost 3 frames" ≡ (
        if nat_beq 4 debug_level && begins (some "lost %d frames") "[OHOS-DBG]"
        then passed_over
        else submitted 4 "lost 3 frames"))
on_libvlc_log-filters_example = on_libvlc_log-filters 4 (some "lost %d frames") "lost 3 frames"
