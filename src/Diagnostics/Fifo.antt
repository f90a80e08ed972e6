-- ===== src/Diagnostics/Fifo.antt =====
-- What becomes of the lines that entry/src/main/cpp/playback_diagnostics.h accepts.
use vlc_harmony.Base.{
  ℕ, ◌+◌, ◌-◌, ◌≤◌, ◌<◌, ◌≡◌, ◌∙◌, refl, String, Bool, true, false, ◌&&◌, ◌||◌, not, Option, none,
  some, List, [], ◌∷◌, ◌++◌, length, length-append, if◌then◌else◌, Bool-cases, inl, inr, arith,
}
use mathlib.Core.List.{append_assoc, append-nil}
use vlc_harmony.Diagnostics.{
  Entry, PlaybackDiagnostics, System, Step, sets, submits, stops, takes, writes, second, max_budget,
  submit, take_entry, report_dropped, renew, is_full, step, run, taken, written, write_entry,
}
use vlc_harmony.Diagnostics.Bounds.{Bounded, run-Bounded_of}

-- The entry that a step puts into the queue, if any.
abbrev pub accepts : (ℕ → String → String) → Step → System → List Entry
accepts render (submits seen owns now level message) s =
    if seen && owns && s.shared.enabled && not (is_full (renew now s.shared))
    then record { level = level; text = render now message } ∷ []
    else []
accepts render _ s = []

-- A step that neither switches the log nor writes with the log switched off.
abbrev pub KeepsOn : Step → Type 0
KeepsOn (sets on now) = ⊥
KeepsOn (writes on now) = on ≡ true
KeepsOn _ = Unit {0}

abbrev pub All {ℓ} : {A : Type ℓ} → (A → Type 0) → List A → Type 0
All P [] = Unit {0}
All P (x ∷ xs) = P x × All P xs

-- A step whose submission falls into the second that began at `w`.
abbrev pub Within : ℕ → Step → Type 0
Within w (sets on now) = ⊥
Within w (submits seen owns now level message) = now - w < second
Within w _ = Unit {0}

abbrev pub holding : Option Entry → List Entry
holding none = []
holding (some e) = e ∷ []

-- The lines on their way, oldest first.
abbrev pub lines : System → List Entry
lines s = s.sink ++ (holding s.held ++ s.shared.queue)

queue-renew : (now : ℕ) (d : PlaybackDiagnostics) → (renew now d).queue ≡ d.queue
unfolding renew
queue-renew now d = ground arith

enabled-renew : (now : ℕ) (d : PlaybackDiagnostics) → (renew now d).enabled ≡ d.enabled
unfolding renew
enabled-renew now d = ground arith

renew_within : (now : ℕ) (d : PlaybackDiagnostics) → now - d.window < second → renew now d ≡ d
unfolding renew
renew_within now d h = ground arith

-- The worker holds an entry only between the two halves of a round.
abbrev pub IsTidy : System → Type 0
IsTidy s = s.in_round ≡ false → s.held ≡ none

module _ (render : ℕ → String → String) where
  queue-submit :
      (seen owns : Bool) (now level : ℕ) (message : String) (s : System)
      → (submit render seen owns now level message s.shared).queue
        ≡ s.shared.queue ++ accepts render (submits seen owns now level message) s
  unfolding submit
  queue-submit false owns now level message s = rw append-nil
  queue-submit true false now level message s = rw append-nil
  queue-submit true true now level message s =
      ground (arith, append-nil s.shared.queue, queue-renew now s.shared)

  budget-submit :
      (seen owns : Bool) (now level : ℕ) (message : String) (s : System)
      → now - s.shared.window < second
      → ((submit render seen owns now level message s.shared).budget
          ≡ s.shared.budget + length (accepts render (submits seen owns now level message) s))
        × ((submit render seen owns now level message s.shared).window ≡ s.shared.window)
  unfolding submit
  budget-submit false owns now level message s h = (omega arith, refl)
  budget-submit true false now level message s h = (omega arith, refl)
  budget-submit true true now level message s h = ground (arith, renew_within now s.shared h)

take-lines :
    (s : System) (q : List Entry)
    → s.shared.queue ≡ q
    → s.held ≡ none
    → lines (taken s (take_entry s.shared)) ≡ lines s
unfolding take_entry
take-lines s [] e h = ground arith
take-lines s (x ∷ q) e h = ground arith

queue-report_dropped :
    (render_omitted : ℕ → String) (on : Bool) (now report : ℕ) (d : PlaybackDiagnostics)
    → (report_dropped render_omitted on now report d).1.queue ≡ d.queue
unfolding report_dropped
queue-report_dropped render_omitted on now report d = ground arith

write_entry-holding : (o : Option Entry) → write_entry true o ≡ holding o
write_entry-holding none = refl
write_entry-holding (some e) = refl

write-lines :
    (render_omitted : ℕ → String) (now : ℕ) (s : System)
    → lines (written true s (report_dropped render_omitted true now s.report s.shared)) ≡ lines s
write-lines render_omitted now s =
    rw (queue-report_dropped render_omitted true now s.report s.shared, write_entry-holding s.held)
      (append_assoc s.sink (holding s.held) s.shared.queue)

taken-IsTidy : (s : System) → s.in_round ≡ false → IsTidy s → IsTidy (taken s (take_entry s.shared))
unfolding take_entry
taken-IsTidy s h tidy = ground arith

module _ (render : ℕ → String → String) (render_omitted : ℕ → String) where
  pub accepted : List Step → System → List Entry
  accepted [] s = []
  accepted (x ∷ xs) s = accepts render x s ++ accepted xs (step render render_omitted x s)

  step-lines :
      (x : Step) (s : System)
      → KeepsOn x
      → IsTidy s
      → (lines (step render render_omitted x s) ≡ lines s ++ accepts render x s)
        × IsTidy (step render render_omitted x s)
  unfolding step
  step-lines (sets on now) s keeps tidy = absurd keeps
  step-lines (submits seen owns now level message) s keeps tidy =
      (rw (queue-submit render seen owns now level message s) (simp append_assoc), tidy)
  step-lines stops s keeps tidy = (rw append-nil, tidy)
  step-lines takes s keeps tidy = elim (Bool-cases (s.has_left || s.in_round)) [
    | inl e ↦ simp (e, append-nil) (refl, tidy)
    | inr e ↦
        let out : s.in_round ≡ false = ground arith in
        simp (e, append-nil) (take-lines s s.shared.queue refl (tidy out), taken-IsTidy s out tidy)
  ]
  step-lines (writes on now) s keeps tidy = elim (Bool-cases (s.has_left || not s.in_round)) [
    | inl e ↦ simp (e, append-nil) (refl, tidy)
    | inr e ↦ simp (e, append-nil, keeps) (write-lines render_omitted now s, λ _. refl)
  ]

  run-lines_of :
      (xs : List Step) (s : System)
      → All KeepsOn xs
      → IsTidy s
      → lines (run render render_omitted xs s) ≡ lines s ++ accepted xs s
  unfolding run accepted
  run-lines_of [] s keeps tidy = rw append-nil
  run-lines_of (x ∷ xs) s keeps tidy =
      let (here, tidy') = step-lines x s keeps.0 tidy in
      run-lines_of xs (step render render_omitted x s) keeps.1 tidy'
      ∙ rw here (append_assoc (lines s) (accepts render x s) _)

  -- While the log stays switched on, what the worker has written, what it holds and what is queued
  -- are together exactly the accepted lines behind those there before, in the order in which they
  -- were accepted: no accepted line is lost, doubled or overtaken.
  pub run-lines :
      (xs : List Step) (s : System)
      → All KeepsOn xs
      → IsTidy s
      → let s' = run render render_omitted xs s in
        s'.sink ++ (holding s'.held ++ s'.shared.queue)
        ≡ (s.sink ++ (holding s.held ++ s.shared.queue)) ++ accepted xs s
  run-lines xs s = run-lines_of xs s

  step-budget :
      (x : Step) (s : System)
      → Within s.shared.window x
      → ((step render render_omitted x s).shared.budget
          ≡ s.shared.budget + length (accepts render x s))
        × ((step render render_omitted x s).shared.window ≡ s.shared.window)
  unfolding step
  step-budget (sets on now) s h = absurd h
  step-budget (submits seen owns now level message) s h =
      budget-submit render seen owns now level message s h
  step-budget stops s h = (omega arith, refl)
  step-budget takes s h = unfold take_entry in (ground arith, ground arith)
  step-budget (writes on now) s h = unfold report_dropped in (ground arith, ground arith)

  run-budget :
      (w : ℕ) (xs : List Step) (s : System)
      → s.shared.window ≡ w
      → All (Within w) xs
      → (run render render_omitted xs s).shared.budget ≡ s.shared.budget + length (accepted xs s)
  unfolding run accepted
  run-budget w [] s e h = omega arith
  run-budget w (x ∷ xs) s e h =
      let (b, v) = step-budget x s (rw e h.0) in
      let rest = run-budget w xs (step render render_omitted x s) (v ∙ e) h.1 in
      omega
        (arith, length-append (accepts render x s) (accepted xs (step render render_omitted x s)))

  -- Within the second that the current window covers, the lines that are accepted are at most the
  -- 400 of the budget less those already counted.
  pub accepted_rate :
      (xs : List Step) (s : System)
      → Bounded s.shared
      → All (Within s.shared.window) xs
      → s.shared.budget + length (accepted xs s) ≤ max_budget
  accepted_rate xs s v h = omega (
    arith,
    run-budget s.shared.window xs s refl h,
    (run-Bounded_of render render_omitted xs s v).budget,
  )
