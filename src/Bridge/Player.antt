-- ===== src/Bridge/Player.antt =====
-- The life of a player in entry/src/main/cpp/vlc_napi.cpp: its creation with its seek worker, the ways
-- to end it, its event listener, its media, and its seeks. The detached threads of
-- `MediaPlayerReleaseAsync` and `MediaPlayerStop` are jobs that run at some later time.
pub mod Seeks
pub mod Safety
pub mod Listener
pub mod Ends
pub mod Freed
pub mod Race
use vlc_harmony.Base.{
  ℕ, zero, String, Bool, true, false, Option, none, some, List, [], ◌∷◌, ◌++◌, map, ℤ,
  if◌then◌else◌, get_elem?, nat_eq,
}
use vlc_harmony.Base.Table.{lookup, insert, erase}
use vlc_harmony.Seek
use vlc_harmony.Seek.{SeekKind, SeekWorker, Output}
use vlc_harmony.Bridge.World.{
  Ref, inst, media, player, tsfn, js_ref, Fn, Arg, num, int, bits, flag, ptr, text, Call, Host,
  World, PlayerEntry, StopJob, Ret, undefined, value, did, took, dropped, emit, need, from, inst_of,
  player_of, media_of, store_player, store_worker, store_job,
}
use vlc_harmony.Bridge.Calls.{both, u32_at, i64_at, f64_at, call, call_with, drop}
use vlc_harmony.Bridge.Events.{attach_player_events, detach_player_events}

output_call : Output → Call
output_call (Output.set_time mp t n) = did Fn.media_player_set_time (player mp) (int t ∷ [])
output_call (Output.set_position mp p n) =
    did Fn.media_player_set_position (player mp) (bits p ∷ [])
output_call (Output.release mp) = dropped (player mp)

-- A worker and its calls after a turn.
put_worker : ℕ → SeekWorker × List Output → World → World
unfolding output_call
put_worker id (s, out) w = record w {
  workers = insert id s w.workers;
  trace = map output_call out ++ w.trace;
}

module _ (host : Host) where
  turn_of : ℕ → Bool → Option SeekWorker → World → World
  unfolding put_worker
  turn_of id timed_out none w = w
  turn_of id timed_out (some s) w = put_worker id (Seek.turn timed_out (host.now w.trace) s) w

  -- One turn of a worker's thread.
  unfoldable pub turn_worker : ℕ → Bool → World → World
  unfolding turn_of
  turn_worker id timed_out w = turn_of id timed_out (lookup id w.workers) w

  stop_of : ℕ → Option SeekWorker → World → World
  stop_of id none w = w
  stop_of id (some s) w = record w { workers = insert id (Seek.stop s) w.workers }

  -- `ShutdownSeekWorker`: the thread is told to stop and joined, for which three turns are enough
  -- (`Seek.Shutdown`).
  unfoldable pub shutdown_worker : Option ℕ → World → World
  unfolding turn_worker stop_of
  shutdown_worker none w = w
  shutdown_worker (some id) w =
      turn_worker id true
        (turn_worker id true (turn_worker id true (stop_of id (lookup id w.workers) w)))

  queue_of : SeekKind → ℤ → ℕ → ℕ → Option SeekWorker → World → World
  queue_of k t p id none w = w
  queue_of k t p id (some s) w = record w {
    workers = insert id (Seek.queue_seek host.near (host.now w.trace) k t p s) w.workers;
  }

  unfoldable pub queue_worker : SeekKind → ℤ → ℕ → Option ℕ → World → World
  unfolding queue_of
  queue_worker k t p none w = w
  queue_worker k t p (some id) w = queue_of k t p id (lookup id w.workers) w

abbrev pub new_player : ℕ → ℕ → ℕ → PlayerEntry
new_player mp lib worker = record {
  mp = some mp;
  lib_handle = lib;
  media_handle = 0;
  video_out_id = "";
  osd_out_id = "";
  window_bound = false;
  osd_window_bound = false;
  bound_surface_generation = 0;
  bound_osd_surface_generation = 0;
  seek_worker = some worker;
  tsfn = none;
  js_callback_ref = none;
}

module _ (host : Host) where
  -- The player, its worker, which retains it, its entry, and its events.
  unfoldable pub enter_player : ℕ → ℕ → World → World
  enter_player lib mp w =
      let w₁ = store_worker (Seek.create mp) (emit (took (player mp)) w) in
      let w₂ = store_player (new_player mp lib w.next_worker) w₁ in
      attach_player_events host w.next_handle mp w₂

  unfoldable pub media_player_create : List ℕ → World → Ret × World
  unfolding enter_player
  media_player_create args w =
      need (u32_at host 1 0 args) (value (num 0), w)
        λ lib.
          need (inst_of lib w) (value (num 0), w)
            λ i.
              let w₁ = emit (did Fn.media_player_new (inst i) []) w in
              need (host.make w.trace Fn.media_player_new []) (value (num 0), w₁)
                λ mp. (value (num w.next_handle), enter_player lib mp (emit (took (player mp)) w₁))

-- The entry goes, and its two references to JavaScript with it.
unfoldable pub remove_player : ℕ → PlayerEntry → World → World
remove_player h e w =
    drop js_ref e.js_callback_ref (drop tsfn e.tsfn (record w { players = erase h w.players }))

module _ (host : Host) where
  unfoldable pub media_player_release : List ℕ → World → Ret × World
  media_player_release args w =
      need (u32_at host 1 0 args) (undefined, w)
        λ h.
          need (lookup h w.players) (undefined, w)
            λ e.
              let w₁ = remove_player h e (detach_player_events host h e.mp w) in
              (undefined, drop player e.mp (shutdown_worker host e.seek_worker w₁))

-- The thread that is to stop the player, where there is one.
abbrev pub start_job : Option ℕ → Option ℕ → World → World
start_job none worker w = w
start_job (some mp) worker w = store_job (record { mp = mp; seek_worker = worker }) w

module _ (host : Host) where
  -- `MediaPlayerReleaseAsync` and `MediaPlayerStop`: no callback is detached, the box stays.
  unfoldable pub retire : List ℕ → World → Ret × World
  retire args w =
      need (u32_at host 1 0 args) (undefined, w)
        λ h.
          need (lookup h w.players) (undefined, w)
            λ e. (undefined, start_job e.mp e.seek_worker (remove_player h e w))

  unfoldable pub media_player_release_async : List ℕ → World → Ret × World
  unfolding retire
  media_player_release_async = retire

  unfoldable pub media_player_stop : List ℕ → World → Ret × World
  unfolding retire
  media_player_stop = retire

  job_of : ℕ → Option StopJob → World → World
  job_of id none w = w
  job_of id (some j) w =
      let w₁ = shutdown_worker host j.seek_worker (record w { jobs = erase id w.jobs }) in
      emit (dropped (player j.mp)) (emit (did Fn.media_player_stop (player j.mp) []) w₁)

  -- The body of the detached thread.
  unfoldable pub run_job : ℕ → World → World
  unfolding job_of
  run_job id w = job_of id (lookup id w.jobs) w

abbrev pub take : (ℕ → Ref) → Option ℕ → World → World
take kind none w = w
take kind (some p) w = emit (took (kind p)) w

abbrev silent : PlayerEntry → PlayerEntry
silent e = record e { tsfn = none; js_callback_ref = none }

-- The old listener goes.
forget_listener : ℕ → PlayerEntry → World → World
forget_listener h e w =
    drop tsfn e.tsfn
      (drop js_ref e.js_callback_ref (record w { players = insert h (silent e) w.players }))

module _ (host : Host) where
  -- A reference to the new one, and a function that calls it from any thread.
  new_listener : ℕ → ℕ → PlayerEntry → World → World
  new_listener h listener e w =
      let js = host.make w.trace Fn.new_reference (num listener ∷ []) in
      let w₁ = take js_ref js w in
      let ts = host.make w₁.trace Fn.new_threadsafe_function (num listener ∷ []) in
      let w₂ = take tsfn ts w₁ in
      record w₂ { players = insert h (record e { tsfn = ts; js_callback_ref = js }) w₂.players }

  -- What is no function leaves the player without a listener.
  set_listener : ℕ → ℕ → PlayerEntry → World → Ret × World
  unfolding forget_listener new_listener
  set_listener h listener e w =
      let w₁ = forget_listener h e w in
      if host.is_function listener
      then (value (flag true), new_listener h listener e w₁)
      else (value (flag false), w₁)

  unfoldable pub media_player_set_event_listener : List ℕ → World → Ret × World
  unfolding set_listener
  media_player_set_event_listener args w =
      need (both (u32_at host 2 0 args) (get_elem? args 1)) (value (flag false), w)
        λ (h, listener).
          need (lookup h w.players) (value (flag false), w) λ e. set_listener h listener e w

  unfoldable pub media_player_set_media : List ℕ → World → Ret × World
  media_player_set_media args w =
      need (both (u32_at host 2 0 args) (u32_at host 2 1 args)) (value (flag false), w)
        λ (ph, mh).
          need (lookup ph w.players) (value (flag false), w)
            λ e.
              need e.mp (value (flag false), w)
                λ mp.
                  need (media_of mh w) (value (flag false), w)
                    λ m.
                      call_with Fn.media_player_set_media (player mp) (media m) []
                        (λ _. value (flag true))
                        (record w {
                          players = insert ph (record e { media_handle = mh }) w.players;
                        })

  -- The worker of a player that has not been released.
  unfoldable pub worker_of : ℕ → World → Option ℕ
  worker_of h w = from (lookup h w.players) λ e. from e.mp λ _. e.seek_worker

  unfoldable pub media_player_set_time : List ℕ → World → Ret × World
  unfolding worker_of
  media_player_set_time args w =
      need (both (u32_at host 2 0 args) (i64_at host 2 1 args)) (undefined, w)
        λ (h, t). (undefined, queue_worker host Seek.time t 0 (worker_of h w) w)

  unfoldable pub media_player_set_position : List ℕ → World → Ret × World
  unfolding worker_of
  media_player_set_position args w =
      need (both (u32_at host 2 0 args) (f64_at host 2 1 args)) (undefined, w)
        λ (h, p).
          (undefined, queue_worker host Seek.position (ℤ.pos 0) (host.to_float p) (worker_of h w) w)
