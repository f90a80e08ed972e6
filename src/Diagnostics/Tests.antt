-- ===== src/Diagnostics/Tests.antt =====
-- The theorems on the log queue at concrete inputs.
use vlc_harmony.Base.{
  ℕ, ◌+◌, ◌≤◌, ◌≡◌, refl, String, true, false, List, [], ◌∷◌, ◌++◌, length, arith,
}
use vlc_harmony.Diagnostics.{
  System, Step, sets, submits, takes, writes, start, new, max_budget, set_enabled, submit,
  take_entry, report_dropped, renew, is_full, step, run,
}
use vlc_harmony.Diagnostics.Bounds.{Bounded, run-Bounded}
use vlc_harmony.Diagnostics.Fifo.{accepted, holding, run-lines, accepted_rate}

abbrev plain : ℕ → String → String
plain now message = message

abbrev omitted : ℕ → String
omitted n = "omitted"

abbrev switched_on : System
switched_on = record start { shared = set_enabled true 5 new }

abbrev traffic : List Step
traffic =
    submits true true 6 4 "a"
    ∷ takes
    ∷ submits true true 7 2 "b"
    ∷ submits true false 8 2 "c"
    ∷ writes true 9
    ∷ takes
    ∷ []

abbrev flowing : System
flowing = run plain omitted traffic switched_on

-- `a` is written, `b` is held, `c` met a taken lock.
first_written : flowing.sink ≡ record { level = 4; text = "a" } ∷ []
unfolding run step set_enabled submit take_entry report_dropped renew is_full
first_written = refl

run-Bounded_example : Bounded (run plain omitted (sets true 5 ∷ traffic) start).shared
run-Bounded_example = run-Bounded plain omitted (sets true 5 ∷ traffic)

run-lines_example :
    flowing.sink ++ (holding flowing.held ++ flowing.shared.queue)
    ≡ (switched_on.sink ++ (holding switched_on.held ++ switched_on.shared.queue))
      ++ accepted plain omitted traffic switched_on
run-lines_example =
    run-lines plain omitted traffic switched_on (tt, (tt, (tt, (tt, (refl, (tt, tt)))))) (λ _. refl)

accepted_rate_example :
    switched_on.shared.budget + length (accepted plain omitted traffic switched_on) ≤ max_budget
unfolding set_enabled
accepted_rate_example = accepted_rate plain omitted traffic switched_on (omega arith) (omega arith)
