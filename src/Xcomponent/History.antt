-- ===== src/Xcomponent/History.antt =====
-- What the manager of entry/src/main/cpp/xcomponent_manager.cpp knows of a surface, against the
-- history of the platform's callbacks.
use vlc_harmony.Base.{
  ℕ, ◌+◌, ◌<◌, ◌≡◌, ◌≤◌, ap, ◌∙◌, refl, String, true, Option, none, some, List, [], ◌∷◌, ◌==◌,
  string_eq, if◌then◌else◌, length, arith,
}
use vlc_harmony.Base.Table.{lookup, lookup-insert, lookup-erase}
use text.Mathlib.TextEquality.{eq_iff}
use vlc_harmony.Xcomponent.{
  Manager, empty, generation_mod, next_generation, get_surface_generation, get_native_window,
  has_native_window, add_native_window, release_window, on_surface_created, on_surface_changed,
  on_surface_destroyed, or_zero, or_null, is_found,
}

pub data Callback : Type 0 where
  created changed : Option String → Option ℕ → Option (ℕ × ℕ) → Callback
  destroyed : Option String → Callback

unfoldable pub step : Callback → Manager → Manager
step (created id win size) m = (on_surface_created id win size m).0
step (changed id win size) m = (on_surface_changed id win size m).0
step (destroyed id) m = (on_surface_destroyed id m).0

-- The newest callback stands first.
unfoldable pub run : List Callback → Manager
run [] = empty
run (c ∷ cs) = step c (run cs)

-- How often the platform reported a surface for the id.
abbrev pub reports : String → List Callback → ℕ
reports j [] = 0
reports j (created (some id) win size ∷ cs) = (if id == j then 1 else 0) + reports j cs
reports j (changed (some id) (some win) size ∷ cs) = (if id == j then 1 else 0) + reports j cs
reports j (_ ∷ cs) = reports j cs

-- The window of the newest report for the id, if no destruction came after it.
abbrev pub newest : String → List Callback → Option (Option ℕ)
newest j [] = none
newest j (created (some id) win size ∷ cs) = if id == j then some win else newest j cs
newest j (changed (some id) (some win) size ∷ cs) = if id == j then some (some win) else newest j cs
newest j (destroyed (some id) ∷ cs) = if id == j then none else newest j cs
newest j (_ ∷ cs) = newest j cs

generation_added :
    (j id : String) (win : Option ℕ) (m : Manager)
    → get_surface_generation id m + 1 < generation_mod
    → get_surface_generation j (add_native_window id win true m).1
      ≡ (if id == j then 1 else 0) + get_surface_generation j m
unfolding get_surface_generation add_native_window
generation_added j id win m room =
    rw (lookup-insert id j (next_generation true (or_zero (lookup id m.generations))) m.generations)
      (ground (arith, eq_iff id j))

generation_released :
    (j id : String) (m : Manager)
    → get_surface_generation j (release_window id m) ≡ get_surface_generation j m
unfolding get_surface_generation release_window
generation_released j id m = refl

reports-le : (j : String) (cs : List Callback) → reports j cs ≤ length cs
reports-le j [] = omega arith
reports-le j (created (some id) win size ∷ cs) = ground (arith, reports-le j cs)
reports-le j (created none win size ∷ cs) = omega (arith, reports-le j cs)
reports-le j (changed (some id) (some win) size ∷ cs) = ground (arith, reports-le j cs)
reports-le j (changed (some id) none size ∷ cs) = omega (arith, reports-le j cs)
reports-le j (changed none win size ∷ cs) = omega (arith, reports-le j cs)
reports-le j (destroyed id ∷ cs) = omega (arith, reports-le j cs)

-- As long as fewer than 2^64 - 1 callbacks came, the generation of an id is the number of surfaces
-- that the platform reported for it: every report raises the generation of its id by one, the
-- destruction of a surface keeps it, and so a surface that comes again has a new one.
pub run-generation :
    (j : String) (cs : List Callback)
    → length cs + 1 < generation_mod
    → get_surface_generation j (run cs) ≡ reports j cs
unfolding run step on_surface_created on_surface_changed on_surface_destroyed
run-generation j [] room = unfold get_surface_generation lookup in refl
run-generation j (created (some id) win size ∷ cs) room =
    let here = run-generation id cs (omega arith) in
    generation_added j id win (run cs) (omega (arith, here, reports-le id cs))
    ∙ ap (λ (n : ℕ). (if id == j then 1 else 0) + n) (run-generation j cs (omega arith))
run-generation j (created none win size ∷ cs) room = run-generation j cs (omega arith)
run-generation j (changed (some id) (some win) size ∷ cs) room =
    let here = run-generation id cs (omega arith) in
    generation_added j id (some win) (run cs) (omega (arith, here, reports-le id cs))
    ∙ ap (λ (n : ℕ). (if id == j then 1 else 0) + n) (run-generation j cs (omega arith))
run-generation j (changed (some id) none size ∷ cs) room = run-generation j cs (omega arith)
run-generation j (changed none win size ∷ cs) room = run-generation j cs (omega arith)
run-generation j (destroyed (some id) ∷ cs) room =
    generation_released j id (run cs) ∙ run-generation j cs (omega arith)
run-generation j (destroyed none ∷ cs) room = run-generation j cs (omega arith)

run-windows : (j : String) (cs : List Callback) → lookup j (run cs).windows ≡ newest j cs
unfolding run step on_surface_created on_surface_changed on_surface_destroyed add_native_window
    release_window
run-windows j [] = unfold lookup in refl
run-windows j (created (some id) win size ∷ cs) =
    rw (lookup-insert id j win (run cs).windows, run-windows j cs)
run-windows j (created none win size ∷ cs) = run-windows j cs
run-windows j (changed (some id) (some win) size ∷ cs) =
    rw (lookup-insert id j (some win) (run cs).windows, run-windows j cs)
run-windows j (changed (some id) none size ∷ cs) = run-windows j cs
run-windows j (changed none win size ∷ cs) = run-windows j cs
run-windows j (destroyed (some id) ∷ cs) = rw (lookup-erase id j (run cs).windows, run-windows j cs)
run-windows j (destroyed none ∷ cs) = run-windows j cs

-- After any callbacks the manager has a window for an id exactly if the newest surface reported for
-- it was not destroyed since, and then it gives out that surface's window.
pub run-window :
    (j : String) (cs : List Callback)
    → (get_native_window j (run cs) ≡ or_null (newest j cs))
      × (has_native_window j (run cs) ≡ is_found (newest j cs))
unfolding get_native_window has_native_window
run-window j cs = (ap or_null (run-windows j cs), ap is_found (run-windows j cs))
