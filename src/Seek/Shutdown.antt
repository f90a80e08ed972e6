-- ===== src/Seek/Shutdown.antt =====
-- How the seek worker of entry/src/main/cpp/vlc_napi.cpp ends: the thread leaves, gives its player
-- back once, and applies nothing that it had not taken before.
use vlc_harmony.Base.{ℕ, ◌+◌, ◌≤◌, ◌≡◌, refl, Bool, true, inl, inr, List, [], ◌∷◌, arith}
use vlc_harmony.Seek.{
  SeekWorker, Phase, idle, coalescing, applying, delivered, exited, Output, release, stop, turn,
  System, Step, queues, stops, turns, after, queue_seek_cases, step, run, start, create, shutdown,
}

-- How often the player was given back.
abbrev pub releases : List Output → ℕ
releases [] = 0
releases (release mp ∷ out) = 1 + releases out
releases (_ ∷ out) = releases out

-- How many seeks reached libVLC.
abbrev pub seeks : List Output → ℕ
seeks [] = 0
seeks (release mp ∷ out) = seeks out
seeks (_ ∷ out) = 1 + seeks out

abbrev pub has_left : Phase → ℕ
has_left exited = 1
has_left _ = 0

abbrev pub has_taken : Phase → ℕ
has_taken (applying r) = 1
has_taken _ = 0

-- What the thread still may do once it is told to stop.
pub record Stopped (n : ℕ) (s : System) : Type 0 where
  pub told : s.worker.stopping ≡ true
  pub spent : seeks s.calls + has_taken s.worker.phase ≤ n

turn-releases :
    (timed_out : Bool) (now : ℕ) (s : System) (p : Phase)
    → s.worker.phase ≡ p
    → releases s.calls ≡ has_left p
    → releases (after s (turn timed_out now s.worker)).calls
      ≡ has_left (turn timed_out now s.worker).0.phase
unfolding turn
turn-releases timed_out now s idle e v = ground arith
turn-releases timed_out now s (coalescing o) e v = ground arith
turn-releases timed_out now s (applying r) e v = ground arith
turn-releases timed_out now s (delivered r) e v = ground arith
turn-releases timed_out now s exited e v = ground arith

turn-Stopped :
    (n : ℕ) (timed_out : Bool) (now : ℕ) (s : System) (p : Phase)
    → s.worker.phase ≡ p
    → Stopped n s
    → Stopped n (after s (turn timed_out now s.worker))
unfolding turn
turn-Stopped n timed_out now s idle e v = ground arith
turn-Stopped n timed_out now s (coalescing o) e v = ground arith
turn-Stopped n timed_out now s (applying r) e v = ground arith
turn-Stopped n timed_out now s (delivered r) e v = ground arith
turn-Stopped n timed_out now s exited e v = ground arith

module _ (near : ℕ → ℕ → Bool) where
  step-releases :
      (x : Step) (s : System)
      → releases s.calls ≡ has_left s.worker.phase
      → releases (step near x s).calls ≡ has_left (step near x s).worker.phase
  unfolding step stop
  step-releases (queues k t p now) s v = elim (queue_seek_cases near now k t p s.worker) [
    | inl e ↦ rw e v
    | inr (going, e) ↦ rw e v
  ]
  step-releases stops s v = v
  step-releases (turns timed_out now) s v = turn-releases timed_out now s s.worker.phase refl v

  run-releases_of :
      (xs : List Step) (s : System)
      → releases s.calls ≡ has_left s.worker.phase
      → releases (run near xs s).calls ≡ has_left (run near xs s).worker.phase
  unfolding run
  run-releases_of [] s v = v
  run-releases_of (x ∷ xs) s v = run-releases_of xs (step near x s) (step-releases x s v)

  -- In any run of the two threads the player reference of the worker is given back exactly once if
  -- the thread has left its loop, and not at all before.
  pub run-releases :
      (mp : ℕ) (xs : List Step)
      → releases (run near xs (start mp)).calls ≡ has_left (run near xs (start mp)).worker.phase
  unfolding create
  run-releases mp xs = run-releases_of xs (start mp) refl

  step-Stopped : (n : ℕ) (x : Step) (s : System) → Stopped n s → Stopped n (step near x s)
  unfolding step stop
  step-Stopped n (queues k t p now) s v = elim (queue_seek_cases near now k t p s.worker) [
    | inl e ↦ rw e v
    | inr (going, e) ↦ ground arith
  ]
  step-Stopped n stops s v = ground arith
  step-Stopped n (turns timed_out now) s v = turn-Stopped n timed_out now s s.worker.phase refl v

  run-Stopped : (n : ℕ) (xs : List Step) (s : System) → Stopped n s → Stopped n (run near xs s)
  unfolding run
  run-Stopped n [] s v = v
  run-Stopped n (x ∷ xs) s v = run-Stopped n xs (step near x s) (step-Stopped n x s v)

  -- Once the worker is told to stop, at most the one request that the thread had already taken
  -- still reaches libVLC, whatever is queued and however the threads go on.
  pub stop-seeks :
      (xs : List Step) (s : System)
      → seeks (run near xs (step near stops s)).calls ≤ seeks s.calls + has_taken s.worker.phase
  stop-seeks xs s =
      let v : Stopped (seeks s.calls + has_taken s.worker.phase) (step near stops s) =
        unfold step stop in record { told = refl; spent = omega arith } in
      omega (arith, (run-Stopped _ xs (step near stops s) v).spent)

-- `ShutdownSeekWorker` ends: from every phase the thread leaves its loop within the three turns
-- that the join is given, and in them it applies at most the request that it had taken.
pub shutdown-exited :
    (now : ℕ) (w : SeekWorker) (p : Phase)
    → w.phase ≡ p
    → ((shutdown now w).0.phase ≡ exited)
      × (releases (shutdown now w).1 + has_left p ≡ 1)
      × (seeks (shutdown now w).1 ≡ has_taken p)
unfolding shutdown turn
shutdown-exited now w idle e = ground arith
shutdown-exited now w (coalescing o) e = ground arith
shutdown-exited now w (applying r) e = ground arith
shutdown-exited now w (delivered r) e = ground arith
shutdown-exited now w exited e = ground arith
