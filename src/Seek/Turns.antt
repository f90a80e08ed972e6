-- ===== src/Seek/Turns.antt =====
-- What one turn of the seek thread of entry/src/main/cpp/vlc_napi.cpp can do.
use vlc_harmony.Base.{
  ℕ, ◌≡◌, refl, Bool, ◌&&◌, not, nat_beq, Bool-cases, ◌⊎◌, inl, inr, List, [], ◌∷◌,
}
use vlc_harmony.Seek.{
  SeekKind, SeekRequest, time, position, SeekWorker, Phase, idle, coalescing, applying, delivered,
  exited, Output, set_time, set_position, release, turn,
}
use vlc_harmony.Seek.Shutdown.{has_left}

-- The call is a seek of that player.
abbrev pub IsSeekOf : ℕ → Output → Type 0
IsSeekOf mp (set_time m t n) = m ≡ mp
IsSeekOf mp (set_position m p n) = m ≡ mp
IsSeekOf mp (release m) = ⊥

abbrev pub IsQuiet : SeekWorker → SeekWorker × List Output → Type 0
IsQuiet s r = (r.1 ≡ []) × (has_left r.0.phase ≡ has_left s.phase)

abbrev pub HasLeft : SeekWorker → SeekWorker × List Output → Type 0
HasLeft s r = (r.1 ≡ release s.mp ∷ []) × (has_left s.phase ≡ 0) × (has_left r.0.phase ≡ 1)

abbrev pub HasSought : SeekWorker → SeekWorker × List Output → Type 0
HasSought s r =
    (o : Output) × (r.1 ≡ o ∷ [])
    × IsSeekOf s.mp o
    × (has_left s.phase ≡ 0)
    × (has_left r.0.phase ≡ 0)

abbrev pub Shape : SeekWorker → SeekWorker × List Output → Type 0
Shape s r = (r.0.mp ≡ s.mp) × (IsQuiet s r ⊎ (HasLeft s r ⊎ HasSought s r))

deliver-Shape :
    (r : SeekRequest) (timed_out : Bool) (now : ℕ) (s : SeekWorker) (k : SeekKind)
    → s.phase ≡ applying r
    → r.kind ≡ k
    → Shape s (turn timed_out now s)
unfolding turn
deliver-Shape r timed_out now s time e k =
    rw (e, k) (refl, inr (inr (set_time s.mp r.time_ms r.serial, refl, refl, refl, refl)))
deliver-Shape r timed_out now s position e k =
    rw (e, k) (refl, inr (inr (set_position s.mp r.pos_bits r.serial, refl, refl, refl, refl)))

phase-Shape :
    (p : Phase) (timed_out : Bool) (now : ℕ) (s : SeekWorker)
    → s.phase ≡ p
    → Shape s (turn timed_out now s)
unfolding turn
phase-Shape idle timed_out now s e = elim (Bool-cases s.stopping) [
  | inl h ↦ rw (e, h) (refl, inr (inl (refl, refl, refl)))
  | inr h ↦ elim (Bool-cases s.has_pending) [
    | inl g ↦ rw (e, h, g) (refl, inl (refl, refl))
    | inr g ↦ rw (e, h, g) (refl, inl (refl, refl))
  ]
]
phase-Shape (coalescing o) timed_out now s e = elim (Bool-cases s.stopping) [
  | inl h ↦ rw (e, h) (refl, inr (inl (refl, refl, refl)))
  | inr h ↦ elim (Bool-cases (s.has_pending && not (nat_beq s.pending.serial o))) [
    | inl g ↦ rw (e, h, g) (refl, inl (refl, refl))
    | inr g ↦ elim (Bool-cases timed_out) [
      | inl t ↦ rw (e, h, g, t) (refl, inl (refl, refl))
      | inr t ↦ rw (e, h, g, t) (refl, inl (refl, refl))
    ]
  ]
]
phase-Shape (applying r) timed_out now s e = deliver-Shape r timed_out now s r.kind e refl
phase-Shape (delivered r) timed_out now s e = rw e (refl, inl (refl, refl))
phase-Shape exited timed_out now s e = rw e (refl, inl (refl, refl))

pub turn-Shape : (timed_out : Bool) (now : ℕ) (s : SeekWorker) → Shape s (turn timed_out now s)
turn-Shape timed_out now s = phase-Shape s.phase timed_out now s refl
