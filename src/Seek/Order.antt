-- ===== src/Seek/Order.antt =====
-- In what order the seek worker of entry/src/main/cpp/vlc_napi.cpp hands requests to libVLC.
use vlc_harmony.Base.{
  ℕ, ◌+◌, ◌≤◌, ◌<◌, ◌≡◌, refl, Bool, true, false, ◌⊎◌, inl, inr, List, [], ◌∷◌, length, arith,
}
use vlc_harmony.Seek.{
  SeekRequest, SeekWorker, Phase, idle, coalescing, applying, delivered, exited, Output, set_time,
  set_position, release, serial_mod, stop, turn, System, Step, queues, stops, turns, after,
  queue_seek_cases, step, run, start, create,
}

-- The serial of the newest seek call.
abbrev pub top : List Output → ℕ
top [] = 0
top (set_time mp t n ∷ out) = n
top (set_position mp p n ∷ out) = n
top (release mp ∷ out) = top out

-- Serials fall strictly from the newest call to the oldest.
abbrev pub Descends : List Output → Type 0
Descends [] = Unit {0}
Descends (set_time mp t n ∷ out) = (top out < n) × Descends out
Descends (set_position mp p n ∷ out) = (top out < n) × Descends out
Descends (release mp ∷ out) = Descends out

-- What holds of the request that the thread has taken and not yet handed over.
abbrev InFlight : Phase → SeekWorker → ℕ → Type 0
InFlight (applying r) w n =
    (n < r.serial) × (r.serial ≤ w.next_serial) × (w.has_pending ≡ true → r.serial < w.next_serial)
InFlight (coalescing o) w n = (w.stopping ≡ true) ⊎ (w.has_pending ≡ true)
InFlight _ w n = Unit {0}

pub record Ordered (s : System) : Type 0 where
  pub descends : Descends s.calls
  pub bounded : top s.calls ≤ s.worker.next_serial
  pub newest : s.worker.has_pending ≡ true → s.worker.pending.serial ≡ s.worker.next_serial
  pub later : s.worker.has_pending ≡ true → top s.calls < s.worker.next_serial
  pub flight : InFlight s.worker.phase s.worker (top s.calls)

start-Ordered : (mp : ℕ) → Ordered (start mp)
unfolding create
start-Ordered mp = ground arith

turn-Ordered :
    (timed_out : Bool) (now : ℕ) (s : System) (p : Phase)
    → s.worker.phase ≡ p
    → Ordered s
    → Ordered (after s (turn timed_out now s.worker))
unfolding turn
turn-Ordered timed_out now s idle e v = ground arith
turn-Ordered timed_out now s (coalescing o) e v = ground arith
turn-Ordered timed_out now s (applying r) e v = ground arith
turn-Ordered timed_out now s (delivered r) e v = ground arith
turn-Ordered timed_out now s exited e v = ground arith

turn-next_serial :
    (timed_out : Bool) (now : ℕ) (s : System) (p : Phase)
    → s.worker.phase ≡ p
    → (after s (turn timed_out now s.worker)).worker.next_serial ≤ s.worker.next_serial + 1
unfolding turn
turn-next_serial timed_out now s idle e = ground arith
turn-next_serial timed_out now s (coalescing o) e = ground arith
turn-next_serial timed_out now s (applying r) e = ground arith
turn-next_serial timed_out now s (delivered r) e = ground arith
turn-next_serial timed_out now s exited e = ground arith

taken_newest_of :
    (timed_out : Bool) (now o : ℕ) (r : SeekRequest) (s : System)
    → Ordered s
    → s.worker.phase ≡ coalescing o
    → (turn timed_out now s.worker).0.phase ≡ applying r
    → (r ≡ s.worker.pending)
      × (r.serial ≡ s.worker.next_serial)
      × ((turn timed_out now s.worker).0.has_pending ≡ false)
unfolding turn
taken_newest_of timed_out now o r s v e t = ground arith

module _ (near : ℕ → ℕ → Bool) where
  step-Ordered :
      (x : Step) (s : System)
      → s.worker.next_serial + 1 < serial_mod
      → Ordered s
      → Ordered (step near x s)
  unfolding step stop
  step-Ordered (queues k t p now) s room v = elim (queue_seek_cases near now k t p s.worker) [
    | inl e ↦ rw e v
    | inr (going, e) ↦ rw e (ground arith)
  ]
  step-Ordered stops s room v = ground arith
  step-Ordered (turns timed_out now) s room v = turn-Ordered timed_out now s s.worker.phase refl v

  step-next_serial :
      (x : Step) (s : System) → (step near x s).worker.next_serial ≤ s.worker.next_serial + 1
  unfolding step stop
  step-next_serial (queues k t p now) s = elim (queue_seek_cases near now k t p s.worker) [
    | inl e ↦ rw e (omega arith)
    | inr (going, e) ↦ rw e (omega arith)
  ]
  step-next_serial stops s = omega arith
  step-next_serial (turns timed_out now) s = turn-next_serial timed_out now s s.worker.phase refl

  pub run-Ordered :
      (xs : List Step) (s : System)
      → s.worker.next_serial + length xs < serial_mod
      → Ordered s
      → Ordered (run near xs s)
  unfolding run
  run-Ordered [] s room v = v
  run-Ordered (x ∷ xs) s room v =
      run-Ordered xs (step near x s) (omega (arith, step-next_serial x s))
        (step-Ordered x s (omega arith) v)

  -- Whatever the two threads do, and in whatever order, the seek calls that reach libVLC carry
  -- serials that rise strictly: no request is applied twice, and none after a newer one. The
  -- serials must not wrap, so the run has fewer than 2^64 steps.
  pub run-Descends :
      (mp : ℕ) (xs : List Step) → length xs < serial_mod → Descends (run near xs (start mp)).calls
  unfolding create
  run-Descends mp xs room = (run-Ordered xs (start mp) (omega arith) (start-Ordered mp)).descends

  -- After any run of fewer than 2^64 steps: when the quiet period ends and the thread takes a
  -- request, that is the pending one, it has the newest serial given out, and nothing pends then.
  pub taken_newest :
      (mp : ℕ) (xs : List Step) (timed_out : Bool) (now o : ℕ) (r : SeekRequest)
      → length xs < serial_mod
      → (run near xs (start mp)).worker.phase ≡ coalescing o
      → (turn timed_out now (run near xs (start mp)).worker).0.phase ≡ applying r
      → let w = (run near xs (start mp)).worker in
        (r ≡ w.pending)
        × (r.serial ≡ w.next_serial)
        × ((turn timed_out now w).0.has_pending ≡ false)
  unfolding create
  taken_newest mp xs timed_out now o r room e t =
      taken_newest_of timed_out now o r (run near xs (start mp))
        (run-Ordered xs (start mp) (omega arith) (start-Ordered mp)) e t
