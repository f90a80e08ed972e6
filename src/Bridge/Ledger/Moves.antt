-- ===== src/Bridge/Ledger/Moves.antt =====
-- Steps of the account of references of entry/src/main/cpp/vlc_napi.cpp that touch no table, and the
-- handles of a table that gains or loses an entry.
use vlc_harmony.Base.{refl, ℕ, ◌+◌, ◌≤◌, ◌<◌, ◌≡◌, List, ◌∷◌, nat_beq, nat_eq, if◌then◌else◌, arith}
use vlc_harmony.Xcomponent.{Manager}
use vlc_harmony.Diagnostics.{PlaybackDiagnostics}
use vlc_harmony.Bridge.World.{Ref, Call, took, dropped, World, emit, bump, handle_mod}
use vlc_harmony.Bridge.Ledger.{
  Dead, Handles-same, hits, hits_self, takes, drops, IsSafe, owners, entries, Handles, InvOf,
}

module _ ⦃dead : Dead⦄ where
  -- The same references in hand, counted in another way.
  pub hand-Inv : {x y : Ref → ℕ} {w : World} → ((r : Ref) → x r ≡ y r) → InvOf x w → InvOf y w
  hand-Inv e v = record {
    handles = v.handles;
    users = v.users;
    rd_users = v.rd_users;
    seekers = v.seekers;
    stops = v.stops;
    balanced = λ r. omega (arith, v.balanced r, e r);
    safe = v.safe;
  }

  module _ (x : Ref → ℕ) (w : World) where
    -- The trace alone changes, and the surface manager, of which the account knows nothing.
    pub trace-Inv :
        (y : Ref → ℕ) (t : List Call) (m : Manager)
        → InvOf x w
        → ((r : Ref) → takes r t ≡ drops r t + owners r w + y r)
        → IsSafe t
        → InvOf y (record w { trace = t; manager = m })
    trace-Inv y t m v b s = record {
      handles = Handles-same w _ refl (λ h. refl) v.handles;
      users = v.users;
      rd_users = v.rd_users;
      seekers = v.seekers;
      stops = v.stops;
      balanced = b;
      safe = s;
    }

    pub manager-Inv : (m : Manager) → InvOf x w → InvOf x (record w { manager = m })
    manager-Inv m v = trace-Inv x w.trace m v v.balanced v.safe

    -- The log queue is no part of the account.
    pub diagnostics-Inv :
        (d : PlaybackDiagnostics) → InvOf x w → InvOf x (record w { diagnostics = d })
    diagnostics-Inv d v = record {
      handles = Handles-same w _ refl (λ h. refl) v.handles;
      users = v.users;
      rd_users = v.rd_users;
      seekers = v.seekers;
      stops = v.stops;
      balanced = v.balanced;
      safe = v.safe;
    }

    pub took-Inv : (s : Ref) → InvOf x w → InvOf (λ r. hits r s + x r) (emit (took s) w)
    took-Inv s v =
        trace-Inv (λ r. hits r s + x r) (took s ∷ w.trace) w.manager v
          (λ r. omega (arith, v.balanced r)) v.safe

    pub dropped-Inv : (s : Ref) → InvOf (λ r. hits r s + x r) w → InvOf x (emit (dropped s) w)
    dropped-Inv s v = record {
      handles = Handles-same w _ refl (λ h. refl) v.handles;
      users = v.users;
      rd_users = v.rd_users;
      seekers = v.seekers;
      stops = v.stops;
      balanced = λ r. omega (arith, v.balanced r);
      safe = (omega (arith, v.balanced s, hits_self s), v.safe);
    }

  -- A new entry in one of the eight tables.
  pub Handles-add :
      (w w' : World)
      → w.next_handle + 2 < handle_mod
      → w'.next_handle ≡ bump w.next_handle
      → ((h : ℕ) → entries h w' ≡ (if nat_beq w.next_handle h then 1 else 0) + entries h w)
      → Handles w
      → Handles w'
  Handles-add w w' room n e v = record {
    given = omega (arith, v.given);
    one = λ h. ground (arith, e h, v.one h, v.new h);
    new = λ h l. ground (arith, e h, v.new h);
    gone = ground (arith, e dead.handle, v.gone, v.given);
  }

  pub Handles-less :
      (w w' : World)
      → w'.next_handle ≡ w.next_handle
      → ((h : ℕ) → entries h w' ≤ entries h w)
      → Handles w
      → Handles w'
  Handles-less w w' n e v = record {
    given = omega (arith, v.given);
    one = λ h. omega (arith, e h, v.one h);
    new = λ h l. omega (arith, e h, v.new h);
    gone = omega (arith, e dead.handle, v.gone);
  }
