-- ===== src/Diagnostics/Bounds.antt =====
-- The limits of the log queue of entry/src/main/cpp/playback_diagnostics.h.
use vlc_harmony.Base.{
  ℕ, ◌≤◌, ◌≡◌, refl, String, Bool, true, false, List, [], ◌∷◌, inl, inr, length, length-append,
  Bool-cases, arith,
}
use vlc_harmony.Diagnostics.{
  Entry, PlaybackDiagnostics, System, Step, sets, submits, stops, takes, writes, start, max_queue,
  max_budget, set_enabled, submit, take_entry, split, report_dropped, renew, is_full, drop_one,
  push, step, run,
}

pub record Bounded (d : PlaybackDiagnostics) : Type 0 where
  pub queue : length d.queue ≤ max_queue
  pub budget : d.budget ≤ max_budget

abbrev pub entry_of : (ℕ → String → String) → ℕ → ℕ → String → Entry
entry_of render now level message = record { level = level; text = render now message }

-- What a submission does: nothing, one more dropped, or one more entry behind the others, and
-- then there was room for it.
pub data Submitted (d : PlaybackDiagnostics) (now : ℕ) (e : Entry) (d' : PlaybackDiagnostics)
    : Type 0 where
  ignored : d' ≡ d → Submitted d now e d'
  contended : d' ≡ drop_one d → Submitted d now e d'
  overflowed : is_full (renew now d) ≡ true → d' ≡ drop_one (renew now d) → Submitted d now e d'
  queued :
      d.enabled ≡ true
      → is_full (renew now d) ≡ false
      → d' ≡ push e (renew now d)
      → Submitted d now e d'

module _ (render : ℕ → String → String) where
  pub submit-Submitted :
      (seen owns : Bool) (now level : ℕ) (message : String) (d : PlaybackDiagnostics)
      → Submitted d now
          (entry_of render now level message)
          (submit render seen owns now level message d)
  unfolding submit
  submit-Submitted false owns now level message d = ignored refl
  submit-Submitted true false now level message d = contended refl
  submit-Submitted true true now level message d = elim (Bool-cases d.enabled) [
    | inl on ↦ elim (Bool-cases (is_full (renew now d))) [
      | inl full ↦ overflowed full (simp (on, full))
      | inr room ↦ queued on room (simp (on, room))
    ]
    | inr off ↦ ignored (simp off)
  ]

renew-Bounded : (now : ℕ) (d : PlaybackDiagnostics) → Bounded d → Bounded (renew now d)
unfolding renew
renew-Bounded now d v = ground arith

Submitted-Bounded :
    (d : PlaybackDiagnostics) (now : ℕ) (e : Entry) (d' : PlaybackDiagnostics)
    → Submitted d now e d'
    → Bounded d
    → Bounded d'
unfolding is_full
Submitted-Bounded d now e d' (ignored p) v = ground arith
Submitted-Bounded d now e d' (contended p) v = ground arith
Submitted-Bounded d now e d' (overflowed full p) v =
    let b = renew-Bounded now d v in rw p (ground arith)
Submitted-Bounded d now e d' (queued on room p) v =
    let b = renew-Bounded now d v in
    rw p (ground (arith, length-append (renew now d).queue (e ∷ [])))

split-le : (q : List Entry) → length (split q).1 ≤ length q
split-le [] = omega arith
split-le (e ∷ q) = omega arith

module _ (render : ℕ → String → String) (render_omitted : ℕ → String) where
  pub step-Bounded :
      (x : Step) (s : System) → Bounded s.shared → Bounded (step render render_omitted x s).shared
  unfolding step
  step-Bounded (sets on now) s v = unfold set_enabled in ground arith
  step-Bounded (submits seen owns now level message) s v =
      Submitted-Bounded s.shared now (entry_of render now level message) _
        (submit-Submitted render seen owns now level message s.shared) v
  step-Bounded stops s v = ground arith
  step-Bounded takes s v = unfold take_entry in ground (arith, split-le s.shared.queue)
  step-Bounded (writes on now) s v = unfold report_dropped in ground arith

  pub run-Bounded_of :
      (xs : List Step) (s : System)
      → Bounded s.shared
      → Bounded (run render render_omitted xs s).shared
  unfolding run
  run-Bounded_of [] s v = v
  run-Bounded_of (x ∷ xs) s v =
      run-Bounded_of xs (step render render_omitted x s) (step-Bounded x s v)

  -- Whatever the threads do, the queue never holds more than 256 entries, and the budget of the
  -- current second never exceeds 400.
  pub run-Bounded : (xs : List Step) → Bounded (run render render_omitted xs start).shared
  run-Bounded xs = run-Bounded_of xs start (omega arith)
