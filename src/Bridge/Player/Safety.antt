-- ===== src/Bridge/Player/Safety.antt =====
-- The player functions of entry/src/main/cpp/vlc_napi.cpp that create, end, watch and seek keep the
-- account of references.
use vlc_harmony.Base.{
  ℕ, ◌+◌, ◌≤◌, ◌<◌, ◌≡◌, refl, ap, ◌∙◌, Option, none, some, List, [], nat_eq, arith,
}
use vlc_harmony.Base.Table.{lookup, erase, total_found, lookup-insert}
use vlc_harmony.Seek
use vlc_harmony.Bridge.World.{
  Ref, inst, player, tsfn, js_ref, Fn, took, Host, World, PlayerEntry, StopJob, handle_mod, emit,
  store_player, store_worker, store_job,
}
use vlc_harmony.Bridge.Ledger.{
  Dead, Inv, InvOf, hits, hits_self, held, owners, player_holds, did-Inv,
}
use vlc_harmony.Bridge.Ledger.Moves.{took-Inv, dropped-Inv, hand-Inv}
use vlc_harmony.Bridge.Ledger.Tables.{store_player-Inv, erase_player-Inv}
use vlc_harmony.Bridge.Ledger.Threads.{store_worker-Inv, store_job-Inv, erase_job-Inv}
use vlc_harmony.Bridge.Ledger.Owned.{inst_of-owned}
use vlc_harmony.Bridge.Calls.{drop}
use vlc_harmony.Bridge.Calls.Safety.{Good, Keeps, need-Good, unchanged}
use vlc_harmony.Bridge.Calls.Stored.{drop-Inv, next_handle-drop, drop-Good}
use vlc_harmony.Bridge.Events.Safety.{attach_player_events-Inv, detach_player_events-Inv}
use vlc_harmony.Bridge.Player.Seeks.{shutdown_worker-Inv}
use vlc_harmony.Bridge.Player.{
  new_player, enter_player, media_player_create, remove_player, media_player_release, start_job,
  retire, media_player_release_async, media_player_stop, run_job, job_of,
}

module _ ⦃dead : Dead⦄ where
  pub entry_owned :
      (h : ℕ) (e : PlayerEntry) (w : World) (p : ℕ)
      → lookup h w.players ≡ some e
      → e.mp ≡ some p
      → 1 ≤ owners (player p) w
  entry_owned h e w p at is = omega (
    arith,
    total_found (player_holds (player p)) h e w.players at,
    ap (held (player p) player) is,
    hits_self (player p),
  )

  module _ (host : Host) where
    enter_player-Good :
        (lib mp : ℕ) (w : World)
        → w.next_handle + 3 < handle_mod
        → InvOf (λ r. hits r (player mp) + 0) w
        → Good w (enter_player host lib mp w)
    unfolding enter_player store_worker store_player Seek.create
    enter_player-Good lib mp w room v =
        let e = new_player mp lib w.next_worker in
        let v₁ =
          store_worker-Inv (λ r. hits r (player mp) + 0) (emit (took (player mp)) w)
            (Seek.create mp) (took-Inv (λ r. hits r (player mp) + 0) w (player mp) v) in
        let w₁ = store_worker (Seek.create mp) (emit (took (player mp)) w) in
        let v₂ =
          store_player-Inv (λ _. 0) w₁ e (omega arith)
            (hand-Inv {y = λ r. player_holds r e + 0} (λ r. omega arith) v₁) in
        let (v₃, n) =
          attach_player_events-Inv host (λ _. 0) w.next_handle mp (store_player e w₁) (omega arith)
            (v.users.new w.next_handle (omega arith))
            (omega (
              arith,
              entry_owned w.next_handle e (store_player e w₁) mp
                  (ground (arith, lookup-insert w.next_handle w.next_handle e w.players)) refl,
            ))
            v₂ in
        (v₃, omega (arith, n))

    pub media_player_create-Keeps : (args : List ℕ) → Keeps (media_player_create host args)
    unfolding media_player_create
    media_player_create-Keeps args w v room = need-Good w _ _ _ (unchanged w v) λ lib e.
        need-Good w _ _ _ (unchanged w v) λ i at.
          let v₁ =
            did-Inv (λ _. 0) w v Fn.media_player_new (inst i) []
              (omega (arith, inst_of-owned lib w at)) in
          need-Good w _ _ _ (v₁, omega arith)
            λ mp made. enter_player-Good lib mp _ room (took-Inv (λ _. 0) _ (player mp) v₁)

  remove_player-Inv :
      (h : ℕ) (e : PlayerEntry) (w : World)
      → lookup h w.players ≡ some e
      → Inv w
      → InvOf (λ r. held r player e.mp + 0) (remove_player h e w)
        × ((remove_player h e w).next_handle ≡ w.next_handle)
  unfolding remove_player
  remove_player-Inv h e w at v =
      let w₀ : World = record w { players = erase h w.players } in
      let v₁ = erase_player-Inv (λ _. 0) w h e at v in
      let x : Ref → ℕ = λ r. held r player e.mp + 0 in
      let y : Ref → ℕ = λ r. held r js_ref e.js_callback_ref + x r in
      (
        drop-Inv x js_ref e.js_callback_ref (drop tsfn e.tsfn w₀)
            (drop-Inv y tsfn e.tsfn w₀ (hand-Inv (λ r. omega arith) v₁)),
        next_handle-drop js_ref e.js_callback_ref (drop tsfn e.tsfn w₀)
            ∙ next_handle-drop tsfn e.tsfn w₀,
      )

  module _ (host : Host) where
    pub media_player_release-Keeps : (args : List ℕ) → Keeps (media_player_release host args)
    unfolding media_player_release
    media_player_release-Keeps args w v room = need-Good w _ _ _ (unchanged w v) λ h c.
        need-Good w _ _ _ (unchanged w v) λ e at.
          let (v₁, n₁, p₁) =
            detach_player_events-Inv host (λ _. 0) h e.mp w
              (λ p is. omega (arith, entry_owned h e w p at is)) v in
          let (v₂, n₂) = remove_player-Inv h e _ (ap (lookup h) p₁ ∙ at) v₁ in
          let (v₃, n₃) = shutdown_worker-Inv host _ e.seek_worker _ v₂ in
          drop-Good w player e.mp _ (omega (arith, n₁, n₂, n₃)) v₃

  start_job-Inv :
      (mp worker : Option ℕ) (w : World)
      → InvOf (λ r. held r player mp + 0) w
      → Inv (start_job mp worker w) × ((start_job mp worker w).next_handle ≡ w.next_handle)
  unfolding store_job
  start_job-Inv none worker w v = (hand-Inv (λ r. refl) v, refl)
  start_job-Inv (some mp) worker w v =
      (store_job-Inv (λ _. 0) w (record { mp = mp; seek_worker = worker }) v, refl)

  module _ (host : Host) where
    retire-Keeps : (args : List ℕ) → Keeps (retire host args)
    unfolding retire
    retire-Keeps args w v room = need-Good w _ _ _ (unchanged w v) λ h c.
        need-Good w _ _ _ (unchanged w v) λ e at.
          let (v₁, n₁) = remove_player-Inv h e w at v in
          let (v₂, n₂) = start_job-Inv e.mp e.seek_worker _ v₁ in (v₂, omega (arith, n₁, n₂))

    pub media_player_release_async-Keeps :
        (args : List ℕ) → Keeps (media_player_release_async host args)
    unfolding media_player_release_async
    media_player_release_async-Keeps = retire-Keeps

    pub media_player_stop-Keeps : (args : List ℕ) → Keeps (media_player_stop host args)
    unfolding media_player_stop
    media_player_stop-Keeps = retire-Keeps

    job_of-Inv :
        (id : ℕ) (o : Option StopJob) (w : World)
        → lookup id w.jobs ≡ o
        → Inv w
        → Inv (job_of host id o w) × ((job_of host id o w).next_handle ≡ w.next_handle)
    unfolding job_of
    job_of-Inv id none w at v = (v, refl)
    job_of-Inv id (some j) w at v =
        let x : Ref → ℕ = λ r. hits r (player j.mp) + 0 in
        let (v₁, n₁) =
          shutdown_worker-Inv host x j.seek_worker (record w { jobs = erase id w.jobs })
            (erase_job-Inv (λ _. 0) w id j at v) in
        (
          dropped-Inv (λ _. 0) _ (player j.mp)
              (did-Inv x _ v₁ Fn.media_player_stop (player j.mp) []
                (omega (arith, hits_self (player j.mp)))),
          n₁,
        )

    pub run_job-Inv :
        (id : ℕ) (w : World)
        → Inv w
        → Inv (run_job host id w) × ((run_job host id w).next_handle ≡ w.next_handle)
    unfolding run_job
    run_job-Inv id w v = job_of-Inv id (lookup id w.jobs) w refl v
