-- ===== src/Seek/Tests.antt =====
-- The theorems on the seek worker at concrete inputs, and runs of it.
use vlc_harmony.Base.{◌+◌, ◌≤◌, ◌≡◌, refl, true, false, List, [], ◌∷◌, ℤ, nat_beq, arith}
use vlc_harmony.Seek.{
  time, position, idle, exited, Output, set_time, create, request, same_target, is_repeat,
  queue_seek, turn, call, shutdown, System, Step, queues, stops, turns, step, run, start,
}
use vlc_harmony.Seek.Order.{Descends, run-Descends, taken_newest}
use vlc_harmony.Seek.Shutdown.{
  releases, seeks, has_left, has_taken, run-releases, stop-seeks, shutdown-exited,
}
use vlc_harmony.Seek.Latest.{
  Hits, handover, finish, flight, queue_seek-Hits, queue_seek_loses_latest,
}

-- A first seek to 1000 ms, applied at 50 ms.
abbrev first_seek : List Step
first_seek =
    queues time (ℤ.pos 1000) 0 0
    ∷ turns false 1
    ∷ turns true 24_000_000
    ∷ turns false 25_000_000
    ∷ turns false 50_000_000
    ∷ []

-- Then one to 2000 ms, which is still pending.
abbrev second_seek : List Step
second_seek = queues time (ℤ.pos 2000) 0 60_000_000 ∷ []

abbrev settled : System
settled = run nat_beq first_seek (start 7)

abbrev waiting : System
waiting = run nat_beq second_seek settled

seek_once : settled.calls ≡ set_time 7 (ℤ.pos 1000) 1 ∷ []
unfolding run step queue_seek is_repeat same_target turn create
seek_once = refl

run-Descends_example : Descends settled.calls
run-Descends_example = run-Descends nat_beq 7 first_seek (omega arith)

abbrev quiet : System
quiet = run nat_beq (queues time (ℤ.pos 1000) 0 0 ∷ turns false 1 ∷ []) (start 7)

taken_newest_example :
    (request time (ℤ.pos 1000) 0 1 ≡ quiet.worker.pending)
    × ((request time (ℤ.pos 1000) 0 1).serial ≡ quiet.worker.next_serial)
    × ((turn true 24_000_000 quiet.worker).0.has_pending ≡ false)
unfolding run step queue_seek is_repeat same_target turn create
taken_newest_example =
    taken_newest nat_beq 7 (queues time (ℤ.pos 1000) 0 0 ∷ turns false 1 ∷ []) true 24_000_000 1
      (request time (ℤ.pos 1000) 0 1) (omega arith) refl refl

run-releases_example :
    releases (run nat_beq (stops ∷ turns false 1 ∷ turns false 2 ∷ []) (start 7)).calls
    ≡ has_left (run nat_beq (stops ∷ turns false 1 ∷ turns false 2 ∷ []) (start 7)).worker.phase
run-releases_example = run-releases nat_beq 7 (stops ∷ turns false 1 ∷ turns false 2 ∷ [])

stop-seeks_example :
    seeks (run nat_beq (turns true 1 ∷ turns true 2 ∷ []) (step nat_beq stops waiting)).calls
    ≤ seeks waiting.calls + has_taken waiting.worker.phase
stop-seeks_example = stop-seeks nat_beq (turns true 1 ∷ turns true 2 ∷ []) waiting

shutdown-exited_example :
    ((shutdown 9 waiting.worker).0.phase ≡ exited)
    × (releases (shutdown 9 waiting.worker).1 + has_left idle ≡ 1)
    × (seeks (shutdown 9 waiting.worker).1 ≡ has_taken idle)
unfolding run step queue_seek is_repeat same_target turn create
shutdown-exited_example = shutdown-exited 9 waiting.worker idle refl

queue_seek-Hits_example :
    let s' =
      run nat_beq (queues position (ℤ.pos 0) 5 70_000_000 ∷ handover false 1 true 2 3) waiting in
    (out : Output) × (s'.calls ≡ out ∷ waiting.calls) × Hits nat_beq position (ℤ.pos 0) 5 s'.calls
unfolding run step queue_seek is_repeat same_target turn create
queue_seek-Hits_example =
    queue_seek-Hits nat_beq 70_000_000 1 2 3 false true position (ℤ.pos 0) 5 waiting refl refl refl
      refl

-- The call for 1000 ms is under way, and one to 2000 ms is pending.
abbrev under_way : System
under_way =
    run nat_beq
      (queues time (ℤ.pos 1000) 0 0
        ∷ turns false 1
        ∷ turns true 24_000_000
        ∷ queues time (ℤ.pos 2000) 0 30_000_000
        ∷ [])
      (start 7)

-- Back to 1000 ms: the worker goes to 2000 ms.
queue_seek_loses_latest_example :
    let w = under_way.worker in
    let s' =
      run nat_beq
        (queues time (ℤ.pos 1000) 0 40_000_000
          ∷ finish w.phase 50_000_000 (handover false 60_000_000 true 90_000_000 99_000_000))
        under_way in
    (queue_seek nat_beq 40_000_000 time (ℤ.pos 1000) 0 w ≡ w)
    × (s'.calls ≡ call w.mp w.pending w.pending.kind ∷ flight w.phase w.mp under_way.calls)
    × (¬ Hits nat_beq time (ℤ.pos 1000) 0 s'.calls)
unfolding run step queue_seek is_repeat same_target turn create
queue_seek_loses_latest_example =
    queue_seek_loses_latest nat_beq 40_000_000 50_000_000 60_000_000 90_000_000 99_000_000 true time
      (ℤ.pos 1000) 0 under_way refl refl refl refl refl

-- The same within 250 ms after the call for 1000 ms, while the one to 2000 ms waits.
repeat_after_call :
    (run nat_beq
      (queues time (ℤ.pos 1000) 0 70_000_000
        ∷ finish waiting.worker.phase 0 (handover false 70_000_001 true 95_000_000 96_000_000))
      waiting).calls
    ≡ set_time 7 (ℤ.pos 2000) 2 ∷ set_time 7 (ℤ.pos 1000) 1 ∷ []
unfolding run step queue_seek is_repeat same_target turn create
repeat_after_call = refl
