-- ===== src/Diagnostics.antt =====
-- entry/src/main/cpp/playback_diagnostics.h: a bounded log queue between the threads that play and
-- one thread that writes the system log. The mutex makes each function below one step; a run is a
-- sequence of steps in any order. An unlocked read of `enabled_` is an argument where another
-- thread may have changed the flag since. Times are nanoseconds; `render` is the `snprintf` of time,
-- thread and message; counters are `unsigned`.
pub mod Bounds
pub mod Fifo
mod Tests
use vlc_harmony.Base.{
  ℕ, ◌+◌, ◌-◌, ◌%◌, ◌^◌, String, Bool, true, false, ◌&&◌, ◌||◌, Option, none, some, List, [], ◌∷◌,
  ◌++◌, leb, nat_beq, not, length, if◌then◌else◌,
}

pub record Entry : Type 0 where
  pub level : ℕ
  pub text : String

pub record PlaybackDiagnostics : Type 0 where
  pub enabled : Bool
  pub dropped : ℕ
  pub queue : List Entry
  pub stopping : Bool
  pub budget : ℕ
  pub window : ℕ

abbrev pub second : ℕ
second = 1_000_000_000

abbrev pub max_queue : ℕ
max_queue = 256

abbrev pub max_budget : ℕ
max_budget = 400

abbrev count_up : ℕ → ℕ
count_up n = (n + 1) % 2 ^ 32

abbrev pub new : PlaybackDiagnostics
new = record { enabled = false; dropped = 0; queue = []; stopping = false; budget = 0; window = 0 }

unfoldable pub set_enabled : Bool → ℕ → PlaybackDiagnostics → PlaybackDiagnostics
set_enabled on now d = record d { enabled = on; queue = []; dropped = 0; budget = 0; window = now }

abbrev pub drop_one : PlaybackDiagnostics → PlaybackDiagnostics
drop_one d = record d { dropped = count_up d.dropped }

-- A new window begins once the second is over.
unfoldable pub renew : ℕ → PlaybackDiagnostics → PlaybackDiagnostics
renew now d = if leb second (now - d.window) then record d { window = now; budget = 0 } else d

unfoldable pub is_full : PlaybackDiagnostics → Bool
is_full d = leb max_queue (length d.queue) || leb max_budget d.budget

abbrev push : Entry → PlaybackDiagnostics → PlaybackDiagnostics
push entry d = record d { budget = d.budget + 1; queue = d.queue ++ entry ∷ [] }

-- `seen` is the flag at the first test, `owns_lock` the result of `try_to_lock`.
unfoldable pub submit :
    (ℕ → String → String) → Bool → Bool → ℕ → ℕ → String → PlaybackDiagnostics → PlaybackDiagnostics
submit render seen owns_lock now level message d =
    if not seen
    then d
    else if not owns_lock
    then drop_one d
    else if not d.enabled
    then d
    else if is_full (renew now d)
    then drop_one (renew now d)
    else push (record { level = level; text = render now message }) (renew now d)

abbrev split : List Entry → Option Entry × List Entry
split [] = (none, [])
split (entry ∷ rest) = (some entry, rest)

-- The locked part of a round of `Run`, once `wait_for` has returned: `none` leaves the loop.
unfoldable pub take_entry : PlaybackDiagnostics → Option (Option Entry × PlaybackDiagnostics)
take_entry d =
    let (entry, rest) = split d.queue in
    if d.stopping then none else some (entry, record d { queue = rest })

-- The line that a round writes for its entry.
abbrev write_entry : Bool → Option Entry → List Entry
write_entry on none = []
write_entry on (some entry) = if on then entry ∷ [] else []

-- The end of a round: at most once a second the count of dropped lines is taken and, if there are
-- any, reported.
unfoldable pub report_dropped :
    (ℕ → String) → Bool → ℕ → ℕ → PlaybackDiagnostics → ℕ × PlaybackDiagnostics × List Entry
report_dropped render_omitted on now report d =
    if leb second (now - report)
    then (
      now,
      record d { dropped = 0 },
      if not (nat_beq d.dropped 0) && on
          then record { level = 3; text = render_omitted d.dropped } ∷ []
          else [],
    )
    else (report, d, [])

-- The object; of the worker, what it holds between its locked part and its write, whether it stands
-- there, the time of its last report, whether it has returned; and what it wrote, oldest first.
pub record System : Type 0 where
  pub shared : PlaybackDiagnostics
  pub held : Option Entry
  pub in_round : Bool
  pub report : ℕ
  pub has_left : Bool
  pub sink : List Entry
  pub reports : List Entry

pub data Step : Type 0 where
  sets : Bool → ℕ → Step
  submits : Bool → Bool → ℕ → ℕ → String → Step
  stops : Step
  takes : Step
  writes : Bool → ℕ → Step

abbrev pub start : System
start = record {
  shared = new;
  held = none;
  in_round = false;
  report = 0;
  has_left = false;
  sink = [];
  reports = [];
}

abbrev taken : System → Option (Option Entry × PlaybackDiagnostics) → System
taken s none = record s { has_left = true }
taken s (some (entry, d)) = record s { shared = d; held = entry; in_round = true }

abbrev written : Bool → System → ℕ × PlaybackDiagnostics × List Entry → System
written on s (report, d, lines) = record s {
  shared = d;
  held = none;
  in_round = false;
  report = report;
  sink = s.sink ++ write_entry on s.held;
  reports = s.reports ++ lines;
}

module _ (render : ℕ → String → String) (render_omitted : ℕ → String) where
  -- `takes` and `writes` are the two halves of a round: each waits for the other.
  pub step : Step → System → System
  step (sets on now) s = record s { shared = set_enabled on now s.shared }
  step (submits seen owns now level message) s = record s {
    shared = submit render seen owns now level message s.shared;
  }
  step stops s = record s { shared = record (s.shared) { stopping = true } }
  step takes s = if s.has_left || s.in_round then s else taken s (take_entry s.shared)
  step (writes on now) s =
      if s.has_left || not s.in_round
      then s
      else written on s (report_dropped render_omitted on now s.report s.shared)

  pub run : List Step → System → System
  run [] s = s
  run (x ∷ xs) s = run xs (step x s)
