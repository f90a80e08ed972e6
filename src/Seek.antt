-- ===== src/Seek.antt =====
-- The seek worker of entry/src/main/cpp/vlc_napi.cpp: one thread for each player, to which the
-- JavaScript thread hands seek requests. The mutex makes each function below one step; a run is a
-- sequence of such steps in any order. `condition.wait` is the phase `idle`, the quiet period with
-- its `wait_for` is `coalescing`, the time from the unlock to the libVLC call is `applying`, and
-- from the call to the second lock `delivered`. A `float` is its bit pattern, and `near` is the
-- test `fabs(a - b) < 0.000001f`. Times are nanoseconds of the steady clock.
pub mod Order
pub mod Shutdown
pub mod Latest
pub mod Turns
mod Tests
--M
use vlc_harmony.Base.{
  ℕ, ◌+◌, ◌-◌, ◌%◌, ◌^◌, Bool, true, false, ◌&&◌, ◌||◌, not, List, [], ◌∷◌, ◌++◌, ℤ, ltb, nat_beq,
  int_beq, if◌then◌else◌, ◌≡◌, refl, ◌⊎◌, inl, inr, Bool-cases, arith,
}

pub data SeekKind : Type 0 where
  time position : SeekKind

pub record SeekRequest : Type 0 where
  pub kind : SeekKind
  pub time_ms : ℤ
  pub pos_bits : ℕ
  pub serial : ℕ

pub data Phase : Type 0 where
  idle : Phase
  coalescing : ℕ → Phase
  applying delivered : SeekRequest → Phase
  exited : Phase

pub record SeekWorker : Type 0 where
  pub mp : ℕ
  pub stopping : Bool
  pub has_pending : Bool
  pub next_serial : ℕ
  pub pending : SeekRequest
  pub in_flight : SeekRequest
  pub has_in_flight : Bool
  pub last_applied : SeekRequest
  pub has_last_applied : Bool
  pub last_applied_at : ℕ
  pub phase : Phase

-- What the thread calls in libVLC; a request goes out with its serial.
pub data Output : Type 0 where
  set_time : ℕ → ℤ → ℕ → Output
  set_position : ℕ → ℕ → ℕ → Output
  release : ℕ → Output

abbrev pub no_request : SeekRequest
no_request = record { kind = time; time_ms = ℤ.pos 0; pos_bits = 0; serial = 0 }

unfoldable pub create : ℕ → SeekWorker
create mp = record {
  mp = mp;
  stopping = false;
  has_pending = false;
  next_serial = 0;
  pending = no_request;
  in_flight = no_request;
  has_in_flight = false;
  last_applied = no_request;
  has_last_applied = false;
  last_applied_at = 0;
  phase = idle;
}

abbrev pub serial_mod : ℕ
serial_mod = 2 ^ 64

abbrev pub repeat_window : ℕ
repeat_window = 250_000_000

abbrev pub next : ℕ → ℕ
next n = (n + 1) % serial_mod

abbrev same_kind : SeekKind → SeekKind → Bool
same_kind time time = true
same_kind position position = true
same_kind _ _ = false

-- The lambda `sameTarget`.
pub same_target : (ℕ → ℕ → Bool) → SeekKind → ℤ → ℕ → SeekRequest → Bool
same_target near time t p r = same_kind r.kind time && int_beq r.time_ms t
same_target near position t p r = same_kind r.kind position && near r.pos_bits p

abbrev pub request : SeekKind → ℤ → ℕ → ℕ → SeekRequest
request k t p n = record { kind = k; time_ms = t; pos_bits = p; serial = n }

-- Whether `QueueSeek` drops a request.
pub is_repeat : (ℕ → ℕ → Bool) → ℕ → SeekKind → ℤ → ℕ → SeekWorker → Bool
is_repeat near now k t p w =
    (w.has_pending && same_target near k t p w.pending)
    || (w.has_in_flight && same_target near k t p w.in_flight)
    || (w.has_last_applied
        && same_target near k t p w.last_applied
        && ltb (now - w.last_applied_at) repeat_window)

unfoldable pub queue_seek : (ℕ → ℕ → Bool) → ℕ → SeekKind → ℤ → ℕ → SeekWorker → SeekWorker
queue_seek near now k t p w = if w.stopping || is_repeat near now k t p w then w else record w {
  next_serial = next w.next_serial;
  pending = request k t p (next w.next_serial);
  has_pending = true;
}

-- A request is dropped, or becomes the pending one under the next serial.
pub queue_seek_cases :
    (near : ℕ → ℕ → Bool) (now : ℕ) (k : SeekKind) (t : ℤ) (p : ℕ) (w : SeekWorker)
    → (queue_seek near now k t p w ≡ w)
      ⊎ ((w.stopping ≡ false)
          × (queue_seek near now k t p w ≡ record w {
            next_serial = next w.next_serial;
            pending = request k t p (next w.next_serial);
            has_pending = true;
          }))
unfolding queue_seek
queue_seek_cases near now k t p w = elim (Bool-cases (w.stopping || is_repeat near now k t p w)) [
  | inl e ↦ inl (rw e)
  | inr e ↦ inr (ground arith, rw e)
]

-- The first half of `ShutdownSeekWorker`; the join is `Shutdown.join`.
unfoldable pub stop : SeekWorker → SeekWorker
stop w = record w { stopping = true; has_pending = false }

-- `break` out of the loop, and the release behind it.
abbrev leave : SeekWorker → SeekWorker × List Output
leave w = (record w { phase = exited }, release w.mp ∷ [])

-- `condition.wait` returns, or goes on waiting.
wake : SeekWorker → SeekWorker × List Output
wake w =
    if w.stopping
    then leave w
    else (if w.has_pending then record w { phase = coalescing w.pending.serial } else w, [])

-- `wait_for` returns: at once if a newer request is there, else when the window has passed.
settle : ℕ → Bool → SeekWorker → SeekWorker × List Output
settle observed timed_out w =
    if w.stopping
    then leave w
    else if w.has_pending && not (nat_beq w.pending.serial observed)
    then (record w { phase = coalescing w.pending.serial }, [])
    else if timed_out
    then (
      record w {
        has_pending = false;
        in_flight = w.pending;
        has_in_flight = true;
        phase = applying w.pending;
      },
      [],
    )
    else (w, [])

pub call : ℕ → SeekRequest → SeekKind → Output
call mp r time = set_time mp r.time_ms r.serial
call mp r position = set_position mp r.pos_bits r.serial

deliver : SeekRequest → SeekWorker → SeekWorker × List Output
unfolding call
deliver r w = (record w { phase = delivered r }, call w.mp r r.kind ∷ [])

note_applied : SeekRequest → ℕ → SeekWorker → SeekWorker × List Output
note_applied r now w = (
  record w {
    last_applied = r;
    has_last_applied = true;
    last_applied_at = now;
    has_in_flight = false;
    phase = idle;
  },
  [],
)

-- One turn of the thread in `RunSeekWorker`, from the phase that it stands in.
turn_at : Phase → Bool → ℕ → SeekWorker → SeekWorker × List Output
unfolding wake settle deliver note_applied
turn_at idle timed_out now w = wake w
turn_at (coalescing observed) timed_out now w = settle observed timed_out w
turn_at (applying r) timed_out now w = deliver r w
turn_at (delivered r) timed_out now w = note_applied r now w
turn_at exited timed_out now w = (w, [])

unfoldable pub turn : Bool → ℕ → SeekWorker → SeekWorker × List Output
unfolding turn_at
turn timed_out now w = turn_at w.phase timed_out now w

-- `thread.join()`: the thread runs until it leaves. Three turns are enough (`Shutdown`).
unfoldable pub join : ℕ → SeekWorker → SeekWorker × List Output
join now w =
    let (w₁, out₁) = turn true now w in
    let (w₂, out₂) = turn true now w₁ in
    let (w₃, out₃) = turn true now w₂ in (w₃, out₃ ++ (out₂ ++ out₁))

-- `ShutdownSeekWorker`, for a thread that is joined once.
unfoldable pub shutdown : ℕ → SeekWorker → SeekWorker × List Output
unfolding stop join
shutdown now w = join now (stop w)

-- What the two threads do, in any order.
pub data Step : Type 0 where
  queues : SeekKind → ℤ → ℕ → ℕ → Step
  stops : Step
  turns : Bool → ℕ → Step

-- The worker, and its calls so far, newest first.
pub record System : Type 0 where
  pub worker : SeekWorker
  pub calls : List Output

abbrev pub after : System → SeekWorker × List Output → System
after s (w, out) = record { worker = w; calls = out ++ s.calls }

module _ (near : ℕ → ℕ → Bool) where
  pub step : Step → System → System
  step (queues k t p now) s = record s { worker = queue_seek near now k t p s.worker }
  step stops s = record s { worker = stop s.worker }
  step (turns timed_out now) s = after s (turn timed_out now s.worker)

  pub run : List Step → System → System
  run [] s = s
  run (x ∷ xs) s = run xs (step x s)

abbrev pub start : ℕ → System
start mp = record { worker = create mp; calls = [] }
