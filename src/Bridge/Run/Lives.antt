-- ===== src/Bridge/Run/Lives.antt =====
-- Runs of the native module of entry/src/main/cpp/vlc_napi.cpp in which a handle is used after its
-- object has gone.
use vlc_harmony.Base.{◌≡◌, refl, false, none, some, List, [], ◌∷◌, nat_eq, arith}
use vlc_harmony.Base.Table.{lookup, insert, erase, uses}
use vlc_harmony.Bridge.World.{
  PlayerEntry, World, initial, need, inst_of, store_lib, store_media, store_player, store_worker,
}
use vlc_harmony.Bridge.Ledger.{entries}
use vlc_harmony.Bridge.Logs.{configure_ffmpeg_trace}
use vlc_harmony.Bridge.Media.{libvlc_create, media_create_path, media_create, media_release}
use vlc_harmony.Bridge.Player.{media_player_create, enter_player}
use vlc_harmony.Bridge.Events.{attach_player_events, for_all_types, attached_types, event_manager}
use vlc_harmony.Bridge.Api.{Api, serve}
use vlc_harmony.Bridge.Api.Errors.{takes_handle}
use vlc_harmony.Bridge.Run.{Action, calls, creates, act, run}
use vlc_harmony.Bridge.Run.Stale.{ends_player, run-keeps_dead, ended_player-refused}
use vlc_harmony.Bridge.Run.Tests.{host}

-- An instance (1) and a player (2).
abbrev start : List Action
start = calls Api.libvlc_create [] ∷ calls Api.media_player_create (1 ∷ []) ∷ []

abbrev created : PlayerEntry
created = record {
  mp = some 5;
  lib_handle = 1;
  media_handle = 0;
  video_out_id = "";
  osd_out_id = "";
  window_bound = false;
  osd_window_bound = false;
  bound_surface_generation = 0;
  bound_osd_surface_generation = 0;
  seek_worker = some 0;
  tsfn = none;
  js_callback_ref = none;
}

-- What comes later: another player (3), and a surface.
abbrev later : List Action
later = calls Api.media_player_create (1 ∷ []) ∷ creates (some "text") (some 77) none ∷ []

created_player : lookup 2 (run host start initial).players ≡ some created
unfolding lookup run act serve libvlc_create configure_ffmpeg_trace store_lib media_player_create
    enter_player need inst_of store_player store_worker attach_player_events insert for_all_types
    attached_types event_manager
created_player = refl

abbrev onward : World
onward = run host later (serve host Api.media_player_stop (2 ∷ []) (run host start initial)).1

ended_player-refused_example : (serve host Api.media_player_play (2 ∷ []) onward).1 ≡ onward
unfolding takes_handle ends_player
ended_player-refused_example =
    ended_player-refused host start later Api.media_player_stop (2 ∷ []) 2 created (omega arith)
      refl refl created_player Api.media_player_play (2 ∷ []) refl refl

-- An instance (1), and a media (2) that is released again.
abbrev short : List Action
short =
    calls Api.libvlc_create []
    ∷ calls Api.media_create_path (1 ∷ 9 ∷ [])
    ∷ calls Api.media_release (2 ∷ [])
    ∷ []

short-entries : entries 2 (run host short initial) ≡ 0
unfolding lookup run act serve libvlc_create configure_ffmpeg_trace store_lib need inst_of
    store_media media_create_path media_create media_release insert erase uses
short-entries = refl

short-next : (run host short initial).next_handle ≡ 3
unfolding lookup run act serve libvlc_create configure_ffmpeg_trace store_lib need inst_of
    store_media media_create_path media_create media_release insert erase
short-next = refl

run-keeps_dead_example : entries 2 (run host later (run host short initial)) ≡ 0
run-keeps_dead_example =
    run-keeps_dead host short later 2 (omega arith) (omega (arith, short-next)) short-entries
