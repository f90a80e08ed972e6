-- ===== src/Bridge/Player/Seeks.antt =====
-- The seek workers of entry/src/main/cpp/vlc_napi.cpp keep the account of references: a turn of a
-- thread, a request, and the shutdown.
use vlc_harmony.Base.{
  ℕ, ◌+◌, ◌≡◌, refl, ap, ◌∙◌, Bool, true, Option, none, some, inl, inr, List, [], ◌∷◌, ℤ, nat_eq,
  arith,
}
use vlc_harmony.Base.Table.{lookup, insert, total_found, lookup-insert, total-overwrite}
use vlc_harmony.Seek
use vlc_harmony.Seek.{
  SeekKind, SeekWorker, Phase, idle, coalescing, applying, delivered, exited, Output, set_time,
  set_position, release, queue_seek_cases,
}
use vlc_harmony.Seek.Shutdown.{has_left}
use vlc_harmony.Seek.Turns.{IsSeekOf, Shape, turn-Shape}
use vlc_harmony.Bridge.World.{Ref, player, Fn, Arg, Host, World, did, emit}
use vlc_harmony.Bridge.Ledger.{
  Dead, Handles-same, InvOf, hits, hits_self, phase_holds, worker_holds, did-Inv, Once-overwrite,
}
use vlc_harmony.Bridge.Ledger.Moves.{dropped-Inv}
use vlc_harmony.Bridge.Player.{
  output_call, put_worker, turn_of, turn_worker, stop_of, shutdown_worker, queue_of, queue_worker,
}

module _ ⦃dead : Dead⦄ where
  phase_holds_left : (r : Ref) (mp : ℕ) (p : Phase) → has_left p ≡ 1 → phase_holds r mp p ≡ 0
  phase_holds_left r mp idle e = ground arith
  phase_holds_left r mp (coalescing n) e = ground arith
  phase_holds_left r mp (applying q) e = ground arith
  phase_holds_left r mp (delivered q) e = ground arith
  phase_holds_left r mp exited e = refl

  phase_holds_on :
      (r : Ref) (mp : ℕ) (p : Phase) → has_left p ≡ 0 → phase_holds r mp p ≡ hits r (player mp)
  phase_holds_on r mp idle e = refl
  phase_holds_on r mp (coalescing n) e = refl
  phase_holds_on r mp (applying q) e = refl
  phase_holds_on r mp (delivered q) e = refl
  phase_holds_on r mp exited e = ground arith

  phase_holds_same :
      (r : Ref) (mp : ℕ) (p q : Phase)
      → has_left p ≡ has_left q
      → phase_holds r mp p ≡ phase_holds r mp q
  phase_holds_same r mp idle q e = rw (phase_holds_on r mp q (omega arith)) refl
  phase_holds_same r mp (coalescing n) q e = rw (phase_holds_on r mp q (omega arith)) refl
  phase_holds_same r mp (applying n) q e = rw (phase_holds_on r mp q (omega arith)) refl
  phase_holds_same r mp (delivered n) q e = rw (phase_holds_on r mp q (omega arith)) refl
  phase_holds_same r mp exited q e = rw (phase_holds_left r mp q (omega arith)) refl

  lookup_same :
      (k : ℕ) (s : SeekWorker) (m : List (ℕ × SeekWorker)) → lookup k (insert k s m) ≡ some s
  lookup_same k s m = ground (arith, lookup-insert k k s m)

  -- A worker is written over, and what it held more goes to the running function.
  move_worker-Inv :
      (x y : Ref → ℕ) (w : World) (h : ℕ) (e old : SeekWorker)
      → lookup h w.workers ≡ some old
      → ((r : Ref) → worker_holds r e + y r ≡ worker_holds r old + x r)
      → InvOf x w
      → InvOf y (record w { workers = insert h e w.workers })
  move_worker-Inv x y w h e old found same v = record {
    handles = Handles-same w _ refl (λ h. refl) v.handles;
    users = v.users;
    rd_users = v.rd_users;
    seekers = Once-overwrite w.next_worker h e old w.workers found v.seekers;
    stops = v.stops;
    balanced = λ r.
        omega
          (arith, v.balanced r, same r, total-overwrite (worker_holds r) h e old w.workers found);
    safe = v.safe;
  }

  module _ (x : Ref → ℕ) (id : ℕ) (s : SeekWorker) (w : World)
      (found : lookup id w.workers ≡ some s) (v : InvOf x w) where
    on_holds :
        (r : Ref) (t : SeekWorker)
        → t.mp ≡ s.mp
        → has_left t.phase ≡ 0
        → worker_holds r t ≡ hits r (player s.mp)
    on_holds r t e a = rw (phase_holds_on r t.mp t.phase a, e) refl

    kept-Inv :
        (s' : SeekWorker)
        → s'.mp ≡ s.mp
        → has_left s.phase ≡ 0
        → has_left s'.phase ≡ 0
        → InvOf x (record w { workers = insert id s' w.workers })
    kept-Inv s' e a b =
        move_worker-Inv x x w id s' s found
          (λ r. omega (arith, on_holds r s' e b, on_holds r s refl a)) v

    called-Inv :
        (s' : SeekWorker) (f : Fn) (m : ℕ) (args : List Arg)
        → s'.mp ≡ s.mp
        → m ≡ s.mp
        → has_left s.phase ≡ 0
        → has_left s'.phase ≡ 0
        → InvOf x (emit (did f (player m) args) (record w { workers = insert id s' w.workers }))
    called-Inv s' f m args e is a b =
        let w' : World = record w { workers = insert id s' w.workers } in
        rw is (
          did-Inv x w' (kept-Inv s' e a b) f (player s.mp) args (
            omega (
              arith,
              total_found (worker_holds (player s.mp)) id s' w'.workers
                  (lookup_same id s' w.workers),
              on_holds (player s.mp) s' e b,
              hits_self (player s.mp),
            )))

    sought-Inv :
        (s' : SeekWorker) (o : Output)
        → s'.mp ≡ s.mp
        → IsSeekOf s.mp o
        → has_left s.phase ≡ 0
        → has_left s'.phase ≡ 0
        → InvOf x (put_worker id (s', o ∷ []) w)
    unfolding put_worker output_call
    sought-Inv s' (set_time m t n) e is a b = called-Inv s' _ m _ e is a b
    sought-Inv s' (set_position m p n) e is a b = called-Inv s' _ m _ e is a b
    sought-Inv s' (release m) e is a b = absurd is

    left-Inv :
        (s' : SeekWorker)
        → has_left s.phase ≡ 0
        → has_left s'.phase ≡ 1
        → InvOf x (put_worker id (s', release s.mp ∷ []) w)
    unfolding put_worker output_call
    left-Inv s' a b =
        dropped-Inv x (record w { workers = insert id s' w.workers }) (player s.mp)
          (move_worker-Inv x (λ r. hits r (player s.mp) + x r) w id s' s found
            (λ r. omega (arith, on_holds r s refl a, phase_holds_left r s'.mp s'.phase b)) v)

    quiet-Inv :
        (s' : SeekWorker)
        → s'.mp ≡ s.mp
        → has_left s'.phase ≡ has_left s.phase
        → InvOf x (put_worker id (s', []) w)
    unfolding put_worker
    quiet-Inv s' e l =
        move_worker-Inv x x w id s' s found
          (λ r. omega (
            arith,
            phase_holds_same r s.mp s'.phase s.phase l,
            ap (λ m. phase_holds r m s'.phase) e,
          ))
          v

    put-Inv : (r : SeekWorker × List Output) → Shape s r → InvOf x (put_worker id r w)
    put-Inv (s', out) (e, inl (o, l)) = rw o (quiet-Inv s' e l)
    put-Inv (s', out) (e, inr (inl (o, l, l'))) = rw o (left-Inv s' l l')
    put-Inv (s', out) (e, inr (inr (c, o, is, l, l'))) = rw o (sought-Inv s' c e is l l')

  module _ (host : Host) (x : Ref → ℕ) where
    turn_of-Inv :
        (id : ℕ) (timed_out : Bool) (o : Option SeekWorker) (w : World)
        → lookup id w.workers ≡ o
        → InvOf x w
        → InvOf x (turn_of host id timed_out o w)
          × ((turn_of host id timed_out o w).next_handle ≡ w.next_handle)
    unfolding turn_of put_worker
    turn_of-Inv id timed_out none w at v = (v, refl)
    turn_of-Inv id timed_out (some s) w at v =
        (put-Inv x id s w at v _ (turn-Shape timed_out (host.now w.trace) s), refl)

    pub turn_worker-Inv :
        (id : ℕ) (timed_out : Bool) (w : World)
        → InvOf x w
        → InvOf x (turn_worker host id timed_out w)
          × ((turn_worker host id timed_out w).next_handle ≡ w.next_handle)
    unfolding turn_worker
    turn_worker-Inv id timed_out w v = turn_of-Inv id timed_out (lookup id w.workers) w refl v

    stop_of-Inv :
        (id : ℕ) (o : Option SeekWorker) (w : World)
        → lookup id w.workers ≡ o
        → InvOf x w
        → InvOf x (stop_of host id o w) × ((stop_of host id o w).next_handle ≡ w.next_handle)
    unfolding stop_of Seek.stop
    stop_of-Inv id none w at v = (v, refl)
    stop_of-Inv id (some s) w at v =
        (move_worker-Inv x x w id (Seek.stop s) s at (λ r. refl) v, refl)

    pub shutdown_worker-Inv :
        (o : Option ℕ) (w : World)
        → InvOf x w
        → InvOf x (shutdown_worker host o w)
          × ((shutdown_worker host o w).next_handle ≡ w.next_handle)
    unfolding shutdown_worker
    shutdown_worker-Inv none w v = (v, refl)
    shutdown_worker-Inv (some id) w v =
        let (v₀, n₀) = stop_of-Inv id (lookup id w.workers) w refl v in
        let (v₁, n₁) = turn_worker-Inv id true _ v₀ in
        let (v₂, n₂) = turn_worker-Inv id true _ v₁ in
        let (v₃, n₃) = turn_worker-Inv id true _ v₂ in (v₃, n₃ ∙ (n₂ ∙ (n₁ ∙ n₀)))

    queued_holds :
        (r : Ref) (k : SeekKind) (t : ℤ) (p : ℕ) (now : ℕ) (s : SeekWorker)
        → worker_holds r (Seek.queue_seek host.near now k t p s) + x r ≡ worker_holds r s + x r
    queued_holds r k t p now s = elim (queue_seek_cases host.near now k t p s) [
      | inl e ↦ rw e refl
      | inr (going, e) ↦ rw e refl
    ]

    queue_of-Inv :
        (k : SeekKind) (t : ℤ) (p id : ℕ) (o : Option SeekWorker) (w : World)
        → lookup id w.workers ≡ o
        → InvOf x w
        → InvOf x (queue_of host k t p id o w)
          × ((queue_of host k t p id o w).next_handle ≡ w.next_handle)
    unfolding queue_of
    queue_of-Inv k t p id none w at v = (v, refl)
    queue_of-Inv k t p id (some s) w at v =
        (move_worker-Inv x x w id _ s at (λ r. queued_holds r k t p (host.now w.trace) s) v, refl)

    pub queue_worker-Inv :
        (k : SeekKind) (t : ℤ) (p : ℕ) (o : Option ℕ) (w : World)
        → InvOf x w
        → InvOf x (queue_worker host k t p o w)
          × ((queue_worker host k t p o w).next_handle ≡ w.next_handle)
    unfolding queue_worker
    queue_worker-Inv k t p none w v = (v, refl)
    queue_worker-Inv k t p (some id) w v = queue_of-Inv k t p id (lookup id w.workers) w refl v
