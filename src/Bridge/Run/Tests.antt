-- ===== src/Bridge/Run/Tests.antt =====
-- Runs of the native module of entry/src/main/cpp/vlc_napi.cpp against a host that gives every object
-- a new address.
use vlc_harmony.Base.{
  ◌+◌, ◌*◌, ◌≤◌, ◌≡◌, refl, Bool, true, false, none, some, List, [], ◌∷◌, ℤ, length, nat_beq,
  if◌then◌else◌, nat_eq, arith,
}
use vlc_harmony.Base.Table.{lookup}
use vlc_harmony.Bridge.World.{player, Host, World, initial, playing}
use vlc_harmony.Bridge.Ledger.{takes, drops, owners, entries, IsSafe}
use vlc_harmony.Bridge.Events.{
  event_name, event_manager, attach_player_events, detach_player_events,
}
use vlc_harmony.Bridge.Events.Names.{attaches, detaches, named, IsReadAs, player_events-paired}
use vlc_harmony.Bridge.Media.{polls, parse_wait}
use vlc_harmony.Bridge.Media.Parse.{parse_wait_ends}
use vlc_harmony.Bridge.Player.{media_player_release, media_player_release_async, media_player_stop}
use vlc_harmony.Bridge.Player.Ends.{released-player}
use vlc_harmony.Bridge.Api.{Api}
use vlc_harmony.Bridge.Renderers.{added}
use vlc_harmony.Bridge.Run.{
  Action, registers, calls, creates, changes, destroys, sends, finds, turns, runs, run,
}
use vlc_harmony.Bridge.Run.Safety.{run-balances, run-IsSafe, run-handles}

abbrev pub host : Host
host = record {
  get_uint32 = λ v. some v;
  get_int32 = λ v. some (ℤ.pos v);
  get_int64 = λ v. some (ℤ.pos v);
  get_double = λ v. some v;
  get_bool = λ v. some (nat_beq v 1);
  get_string = λ v. if nat_beq v 8 then "other" else "text";
  is_function = λ v. true;
  get_array = λ v. none;
  to_float = λ v. v;
  to_double = λ v. v;
  double_of_int = λ v. 0;
  near = nat_beq;
  make = λ t f args. some (length t);
  ask = λ t f r args. ℤ.pos 0;
  ask_real = λ t f r args. 0;
  ask_rows = λ t f r args. [];
  ask_text = λ t f r. none;
  ask_names = λ t f r. [];
  free_num = λ t f args. 0;
  free_real = λ t f args. 0;
  free_text = λ t f args. none;
  video_size = λ t m. none;
  now = λ t. length t;
  elapsed = λ t n. 20 * n;
  tracks = λ t m. none;
  meta = λ t m s. none;
  stats = λ t m. none;
  resolves = λ f. true;
  plugin_path = "/plugins";
  stat_line = λ t. none;
  status_lines = λ t. [];
  scan_ticks = λ s. none;
  scan_number = λ s. none;
  clk_tck = ℤ.pos 100;
}

-- An instance (1), a player (2) with a listener, a media (3), a surface that the player is shown on,
-- a seek that the thread applies, an event, a list of renderers (4) that finds one (5), and the end of
-- all, the player's by a detached thread.
abbrev life : List Action
life =
    registers (some 5) (some "text")
    ∷ calls Api.libvlc_create []
    ∷ calls Api.media_player_create (1 ∷ [])
    ∷ calls Api.media_player_set_event_listener (2 ∷ 7 ∷ [])
    ∷ calls Api.media_create_path (1 ∷ 9 ∷ [])
    ∷ calls Api.media_player_set_media (2 ∷ 3 ∷ [])
    ∷ calls Api.media_player_set_time (2 ∷ 5000 ∷ [])
    ∷ calls Api.media_player_set_video_out (2 ∷ 9 ∷ [])
    ∷ creates (some "text") (some 77) (some (1920, 1080))
    ∷ calls Api.media_player_play (2 ∷ [])
    ∷ changes (some "text") (some 77) (some (1280, 720))
    ∷ turns 0 false
    ∷ turns 0 true
    ∷ turns 0 false
    ∷ sends 2 (record { type = playing; number = ℤ.pos 0; real = 0 })
    ∷ calls Api.renderer_discoverer_create (1 ∷ 9 ∷ [])
    ∷ calls Api.renderer_discoverer_start (4 ∷ [])
    ∷ finds 4 (added (some 900))
    ∷ destroys (some "text")
    ∷ calls Api.renderer_discoverer_release (4 ∷ [])
    ∷ calls Api.media_release (3 ∷ [])
    ∷ calls Api.media_player_stop (2 ∷ [])
    ∷ runs 0
    ∷ calls Api.libvlc_release (1 ∷ [])
    ∷ []

abbrev ended : World
ended = run host life initial

run-balances_example :
    takes (player 3) ended.trace ≡ drops (player 3) ended.trace + owners (player 3) ended
run-balances_example = run-balances host life (omega arith) (player 3)

run-IsSafe_example : IsSafe ended.trace
run-IsSafe_example = run-IsSafe host life (omega arith)

-- A player (2) with a listener, which has the function 24.
abbrev heard : List Action
heard =
    calls Api.libvlc_create []
    ∷ calls Api.media_player_create (1 ∷ [])
    ∷ calls Api.media_player_set_event_listener (2 ∷ 7 ∷ [])
    ∷ []

abbrev listening : World
listening = run host heard initial

run-handles_example :
    (entries 2 ended ≤ 1) × (entries 0 ended ≡ 0) × (entries ended.next_handle ended ≡ 0)
run-handles_example = run-handles host life (omega arith) 2

parse_wait_ends_example :
    (b : Bool) × ((parse_wait host (polls (ℤ.pos 40)) 0 (ℤ.pos 40) 6 initial).0 ≡ some b)
parse_wait_ends_example = parse_wait_ends host (λ t n. omega arith) (ℤ.pos 40) 6 initial

player_events-paired_example :
    let w₁ = attach_player_events host 2 5 initial in
    let w₂ = detach_player_events host 2 (some 5) w₁ in
    (attaches 5 playing w₁.trace ≡ named (event_name playing) + attaches 5 playing initial.trace)
    × (detaches 5 playing w₂.trace ≡ named (event_name playing) + detaches 5 playing initial.trace)
    × IsReadAs playing (event_name playing)
unfolding event_manager
player_events-paired_example = player_events-paired host 2 5 _ _ playing initial refl refl

abbrev two : World
two = run host (calls Api.libvlc_create [] ∷ calls Api.media_player_create (1 ∷ []) ∷ []) initial

released-player_example :
    (lookup 2 (media_player_release host (2 ∷ []) two).1.players ≡ none)
    × (lookup 2 (media_player_release_async host (2 ∷ []) two).1.players ≡ none)
    × (lookup 2 (media_player_stop host (2 ∷ []) two).1.players ≡ none)
released-player_example = released-player host (2 ∷ []) 2 two refl
