-- ===== src/Bridge/Ledger/Threads.antt =====
-- What the threads and the boxes of entry/src/main/cpp/vlc_napi.cpp hold, entries that are written
-- over, and that an object found through its handle is held.
use vlc_harmony.Base.{ℕ, ◌+◌, ◌<◌, ◌≡◌, refl, some, List, nat_eq, arith}
use vlc_harmony.Base.Table.{
  lookup, insert, erase, uses, lookup_unused, uses-insert, uses-overwrite, total-insert,
  total-erase, total-overwrite,
}
use vlc_harmony.Seek.{SeekWorker}
use vlc_harmony.Bridge.World.{
  Ref, user, rd_user, World, PlayerEntry, RendererDiscovererEntry, StopJob, store_worker, store_job,
}
use vlc_harmony.Bridge.Ledger.{
  Dead, Handles-same, hits, player_holds, rd_holds, worker_holds, job_holds, Once, InvOf,
  Once-insert, Once-erase,
}
use vlc_harmony.Bridge.Ledger.Moves.{Handles-less}

module _ ⦃dead : Dead⦄ where
  Once-below :
      {V : Type 0} (n k : ℕ) (v : V) (m : List (ℕ × V))
      → k < n
      → uses k m ≡ 0
      → Once n m
      → Once n (insert k v m)
  Once-below n k v m l free o =
      let missing = lookup_unused k m free in
      record {
        one = λ h. ground (arith, uses-insert k h v m missing, o.one h);
        new = λ h g. ground (arith, uses-insert k h v m missing, o.new h);
      }

  module _ (x : Ref → ℕ) (w : World) where
    pub store_user-Inv :
        (h : ℕ)
        → h < w.next_handle
        → uses h w.event_users ≡ 0
        → InvOf (λ r. hits r (user h) + x r) w
        → InvOf x (record w { event_users = insert h h w.event_users })
    store_user-Inv h below free v = record {
      handles = Handles-same w _ refl (λ h. refl) v.handles;
      users = Once-below w.next_handle h h w.event_users below free v.users;
      rd_users = v.rd_users;
      seekers = v.seekers;
      stops = v.stops;
      balanced = λ r. omega (
        arith,
        v.balanced r,
        total-insert (λ k. hits r (user k)) h h w.event_users (lookup_unused h w.event_users free),
      );
      safe = v.safe;
    }

    pub erase_user-Inv :
        (h u : ℕ)
        → lookup h w.event_users ≡ some u
        → InvOf x w
        → InvOf (λ r. hits r (user u) + x r) (record w { event_users = erase h w.event_users })
    erase_user-Inv h u found v = record {
      handles = Handles-same w _ refl (λ h. refl) v.handles;
      users = Once-erase w.next_handle h w.event_users v.users;
      rd_users = v.rd_users;
      seekers = v.seekers;
      stops = v.stops;
      balanced = λ r. omega (
        arith,
        v.balanced r,
        total-erase (λ k. hits r (user k)) h u w.event_users found (v.users.one h),
      );
      safe = v.safe;
    }

    pub store_rd_user-Inv :
        (h : ℕ)
        → h < w.next_handle
        → uses h w.rd_event_users ≡ 0
        → InvOf (λ r. hits r (rd_user h) + x r) w
        → InvOf x (record w { rd_event_users = insert h h w.rd_event_users })
    store_rd_user-Inv h below free v = record {
      handles = Handles-same w _ refl (λ h. refl) v.handles;
      users = v.users;
      rd_users = Once-below w.next_handle h h w.rd_event_users below free v.rd_users;
      seekers = v.seekers;
      stops = v.stops;
      balanced = λ r. omega (
        arith,
        v.balanced r,
        total-insert (λ k. hits r (rd_user k)) h h w.rd_event_users
            (lookup_unused h w.rd_event_users free),
      );
      safe = v.safe;
    }

    pub erase_rd_user-Inv :
        (h u : ℕ)
        → lookup h w.rd_event_users ≡ some u
        → InvOf x w
        → InvOf
            (λ r. hits r (rd_user u) + x r)
            (record w { rd_event_users = erase h w.rd_event_users })
    erase_rd_user-Inv h u found v = record {
      handles = Handles-same w _ refl (λ h. refl) v.handles;
      users = v.users;
      rd_users = Once-erase w.next_handle h w.rd_event_users v.rd_users;
      seekers = v.seekers;
      stops = v.stops;
      balanced = λ r. omega (
        arith,
        v.balanced r,
        total-erase (λ k. hits r (rd_user k)) h u w.rd_event_users found (v.rd_users.one h),
      );
      safe = v.safe;
    }

    pub store_worker-Inv :
        (e : SeekWorker) → InvOf (λ r. worker_holds r e + x r) w → InvOf x (store_worker e w)
    unfolding store_worker
    store_worker-Inv e v =
        let n = w.next_worker in
        let fresh = lookup_unused n w.workers (v.seekers.new n (omega arith)) in
        record {
          handles = Handles-same w _ refl (λ h. refl) v.handles;
          users = v.users;
          rd_users = v.rd_users;
          seekers = Once-insert n e w.workers v.seekers;
          stops = v.stops;
          balanced =
              λ r. omega (arith, v.balanced r, total-insert (worker_holds r) n e w.workers fresh);
          safe = v.safe;
        }

    pub store_job-Inv : (e : StopJob) → InvOf (λ r. job_holds r e + x r) w → InvOf x (store_job e w)
    unfolding store_job
    store_job-Inv e v =
        let n = w.next_job in
        let fresh = lookup_unused n w.jobs (v.stops.new n (omega arith)) in
        record {
          handles = Handles-same w _ refl (λ h. refl) v.handles;
          users = v.users;
          rd_users = v.rd_users;
          seekers = v.seekers;
          stops = Once-insert n e w.jobs v.stops;
          balanced = λ r. omega (arith, v.balanced r, total-insert (job_holds r) n e w.jobs fresh);
          safe = v.safe;
        }

    pub erase_job-Inv :
        (h : ℕ) (e : StopJob)
        → lookup h w.jobs ≡ some e
        → InvOf x w
        → InvOf (λ r. job_holds r e + x r) (record w { jobs = erase h w.jobs })
    erase_job-Inv h e found v = record {
      handles = Handles-same w _ refl (λ h. refl) v.handles;
      users = v.users;
      rd_users = v.rd_users;
      seekers = v.seekers;
      stops = Once-erase w.next_job h w.jobs v.stops;
      balanced = λ r.
          omega (arith, v.balanced r, total-erase (job_holds r) h e w.jobs found (v.stops.one h));
      safe = v.safe;
    }

  -- A player's entry is written over, and what it held more goes to the running function.
  pub move_player-Inv :
      (x y : Ref → ℕ) (w : World) (h : ℕ) (e old : PlayerEntry)
      → lookup h w.players ≡ some old
      → ((r : Ref) → player_holds r e + y r ≡ player_holds r old + x r)
      → InvOf x w
      → InvOf y (record w { players = insert h e w.players })
  move_player-Inv x y w h e old found same v = record {
    handles =
        Handles-less w _ refl (λ k. omega (arith, uses-overwrite h k e old w.players found))
          v.handles;
    users = v.users;
    rd_users = v.rd_users;
    seekers = v.seekers;
    stops = v.stops;
    balanced = λ r.
        omega
          (arith, v.balanced r, same r, total-overwrite (player_holds r) h e old w.players found);
    safe = v.safe;
  }

  pub move_rd-Inv :
      (x y : Ref → ℕ) (w : World) (h : ℕ) (e old : RendererDiscovererEntry)
      → lookup h w.rds ≡ some old
      → ((r : Ref) → rd_holds r e + y r ≡ rd_holds r old + x r)
      → InvOf x w
      → InvOf y (record w { rds = insert h e w.rds })
  move_rd-Inv x y w h e old found same v = record {
    handles =
        Handles-less w _ refl (λ k. omega (arith, uses-overwrite h k e old w.rds found)) v.handles;
    users = v.users;
    rd_users = v.rd_users;
    seekers = v.seekers;
    stops = v.stops;
    balanced =
        λ r. omega (arith, v.balanced r, same r, total-overwrite (rd_holds r) h e old w.rds found);
    safe = v.safe;
  }
