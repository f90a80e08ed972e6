-- ===== src/Seek/Latest.antt =====
-- Which request wins. (`QueueSeek` and `RunSeekWorker` of entry/src/main/cpp/vlc_napi.cpp.)
use vlc_harmony.Base.{
  ℕ, ◌-◌, ◌≡◌, ◌∙◌, refl, ap, ◌↔◌, Bool, true, false, ◌&&◌, ◌||◌, List, [], ◌∷◌, ℤ, int_beq,
  int_beq_refl, ltb, arith,
}
use mathlib.Core.Path.{subst}
use vlc_harmony.Seek.{
  SeekKind, time, position, SeekRequest, SeekWorker, Phase, idle, coalescing, applying, delivered,
  exited, Output, set_time, set_position, repeat_window, same_target, is_repeat, queue_seek, turn,
  System, Step, queues, turns, step, run, request, next, call,
}

-- Whether a request is dropped for the sake of one that is in flight or was applied just now.
abbrev pub is_recent : (ℕ → ℕ → Bool) → ℕ → SeekKind → ℤ → ℕ → SeekWorker → Bool
is_recent near now k t p w =
    (w.has_in_flight && same_target near k t p w.in_flight)
    || (w.has_last_applied
        && same_target near k t p w.last_applied
        && ltb (now - w.last_applied_at) repeat_window)

-- The call hands this target to libVLC.
abbrev pub Hits : (ℕ → ℕ → Bool) → SeekKind → ℤ → ℕ → List Output → Type 0
Hits near time t p (set_time mp t' n ∷ out) = int_beq t' t ≡ true
Hits near position t p (set_position mp p' n ∷ out) = near p' p ≡ true
Hits near k t p out = ⊥

Hits-call :
    (near : ℕ → ℕ → Bool) (k : SeekKind) (t : ℤ) (p mp : ℕ) (r : SeekRequest) (j : SeekKind)
    (out : List Output)
    → r.kind ≡ j
    → Hits near k t p (call mp r j ∷ out) ↔ (same_target near k t p r ≡ true)
unfolding call same_target
Hits-call near time t p mp r time out e = (λ h. ground arith, λ h. ground arith)
Hits-call near time t p mp r position out e = (λ h. absurd h, λ h. ground arith)
Hits-call near position t p mp r time out e = (λ h. absurd h, λ h. ground arith)
Hits-call near position t p mp r position out e = (λ h. ground arith, λ h. ground arith)

same_target_self :
    (near : ℕ → ℕ → Bool) (k : SeekKind) (t : ℤ) (p n : ℕ)
    → near p p ≡ true
    → same_target near k t p (request k t p n) ≡ true
unfolding same_target
same_target_self near time t p n h = int_beq_refl t
same_target_self near position t p n h = h

-- From the wait to the call, with no other request and no stop in between.
abbrev pub handover : Bool → ℕ → Bool → ℕ → ℕ → List Step
handover b₁ now₁ b₃ now₂ now₃ = turns b₁ now₁ ∷ turns true now₂ ∷ turns b₃ now₃ ∷ []

handover-calls :
    (near : ℕ → ℕ → Bool) (b₁ b₃ : Bool) (now₁ now₂ now₃ : ℕ) (s : System)
    → s.worker.phase ≡ idle
    → s.worker.stopping ≡ false
    → s.worker.has_pending ≡ true
    → (run near (handover b₁ now₁ b₃ now₂ now₃) s).calls
      ≡ call s.worker.mp s.worker.pending s.worker.pending.kind ∷ s.calls
unfolding run step turn
handover-calls near b₁ b₃ now₁ now₂ now₃ s e going more = ground arith

-- What `QueueSeek` leaves pending when the request was not dropped for a recent one.
queue_seek-pending :
    (near : ℕ → ℕ → Bool) (now : ℕ) (k : SeekKind) (t : ℤ) (p : ℕ) (w : SeekWorker)
    → near p p ≡ true
    → w.stopping ≡ false
    → is_recent near now k t p w ≡ false
    → let w' = queue_seek near now k t p w in
      (same_target near k t p w'.pending ≡ true)
      × (w'.has_pending ≡ true)
      × (w'.phase ≡ w.phase)
      × (w'.stopping ≡ false)
unfolding queue_seek is_repeat
queue_seek-pending near now k t p w self going fresh =
    ground (arith, same_target_self near k t p (next w.next_serial) self)

queue_seek_recent :
    (near : ℕ → ℕ → Bool) (now : ℕ) (k : SeekKind) (t : ℤ) (p : ℕ) (w : SeekWorker)
    → w.has_pending ≡ true
    → is_recent near now k t p w ≡ true
    → queue_seek near now k t p w ≡ w
unfolding queue_seek is_repeat
queue_seek_recent near now k t p w more recent = ground arith

-- A request that a waiting worker accepts, or drops as a repeat of the pending one, is the target
-- of exactly one call when the quiet period ends with no newer request and no stop. The worker must
-- not drop it as recent, and the float test must hold of equal positions.
pub queue_seek-Hits :
    (near : ℕ → ℕ → Bool) (now now₁ now₂ now₃ : ℕ) (b₁ b₃ : Bool) (k : SeekKind) (t : ℤ) (p : ℕ)
    (s : System)
    → near p p ≡ true
    → s.worker.phase ≡ idle
    → s.worker.stopping ≡ false
    → is_recent near now k t p s.worker ≡ false
    → let s' = run near (queues k t p now ∷ handover b₁ now₁ b₃ now₂ now₃) s in
      (out : Output) × (s'.calls ≡ out ∷ s.calls) × Hits near k t p s'.calls
queue_seek-Hits near now now₁ now₂ now₃ b₁ b₃ k t p s self e going fresh =
    let w' = queue_seek near now k t p s.worker in
    let (hit, more, ph, go) = queue_seek-pending near now k t p s.worker self going fresh in
    let calls =
      handover-calls near b₁ b₃ now₁ now₂ now₃ (record s { worker = w' }) (ph ∙ e) go more in
    unfold run step in
    (
      call w'.mp w'.pending w'.pending.kind,
      calls,
      rw calls ((Hits-call near k t p w'.mp w'.pending w'.pending.kind s.calls refl).1 hit),
    )

-- The turns that come before `rest`: the worker ends the call that it is in the middle of.
abbrev pub finish : Phase → ℕ → List Step → List Step
finish (applying r) now rest = turns true now ∷ turns true now ∷ rest
finish (delivered r) now rest = turns true now ∷ rest
finish _ now rest = rest

-- The call that is made by them.
abbrev pub flight : Phase → ℕ → List Output → List Output
flight (applying r) mp out = call mp r r.kind ∷ out
flight _ mp out = out

abbrev pub is_running : Phase → Bool
is_running exited = false
is_running _ = true

finish-calls :
    (near : ℕ → ℕ → Bool) (b₃ : Bool) (now₀ now₁ now₂ now₃ : ℕ) (s : System) (phase : Phase)
    → s.worker.phase ≡ phase
    → is_running phase ≡ true
    → s.worker.stopping ≡ false
    → s.worker.has_pending ≡ true
    → (run near (finish phase now₀ (handover false now₁ b₃ now₂ now₃)) s).calls
      ≡ call s.worker.mp s.worker.pending s.worker.pending.kind ∷ flight phase s.worker.mp s.calls
unfolding run step turn
finish-calls near b₃ now₀ now₁ now₂ now₃ s idle e on going more = ground arith
finish-calls near b₃ now₀ now₁ now₂ now₃ s (coalescing o) e on going more = ground arith
finish-calls near b₃ now₀ now₁ now₂ now₃ s (applying r) e on going more = ground arith
finish-calls near b₃ now₀ now₁ now₂ now₃ s (delivered r) e on going more = ground arith
finish-calls near b₃ now₀ now₁ now₂ now₃ s exited e on going more = cc

-- The other requests are lost, in whatever phase the worker runs: while an older request for another
-- target is pending, one that repeats the request in flight, or the one applied within the last
-- 250 ms, changes nothing of the worker. It ends the call that it is in the middle of, and its next
-- one, when the quiet period ends with no newer request and no stop, is that of the older request,
-- which does not hit the newest target asked for.
pub queue_seek_loses_latest :
    (near : ℕ → ℕ → Bool) (now now₀ now₁ now₂ now₃ : ℕ) (b₃ : Bool) (k : SeekKind) (t : ℤ) (p : ℕ)
    (s : System)
    → is_running s.worker.phase ≡ true
    → s.worker.stopping ≡ false
    → s.worker.has_pending ≡ true
    → same_target near k t p s.worker.pending ≡ false
    → is_recent near now k t p s.worker ≡ true
    → let w = s.worker in
      let s' =
        run near (queues k t p now ∷ finish w.phase now₀ (handover false now₁ b₃ now₂ now₃)) s in
      (queue_seek near now k t p w ≡ w)
      × (s'.calls ≡ call w.mp w.pending w.pending.kind ∷ flight w.phase w.mp s.calls)
      × (¬ Hits near k t p s'.calls)
unfolding run step
queue_seek_loses_latest near now now₀ now₁ now₂ now₃ b₃ k t p s on going more other recent =
    let w = s.worker in
    let drop = queue_seek_recent near now k t p w more recent in
    let rest = finish w.phase now₀ (handover false now₁ b₃ now₂ now₃) in
    let out = flight w.phase w.mp s.calls in
    let calls =
      ap (λ u. (run near rest (record s { worker = u })).calls) drop
      ∙ finish-calls near b₃ now₀ now₁ now₂ now₃ s w.phase refl on going more in
    let hit = Hits-call near k t p w.mp w.pending w.pending.kind out refl in
    (drop, calls, λ h. cc (hit.0 (subst (Hits near k t p) calls h)))
