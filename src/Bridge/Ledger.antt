-- ===== src/Bridge/Ledger.antt =====
-- The account of references that entry/src/main/cpp/vlc_napi.cpp keeps: what was taken, what was
-- given back, and what its tables and threads hold.
pub mod Moves
pub mod Tables
pub mod Lists
pub mod Threads
pub mod Owned
use vlc_harmony.Base.{
  ℕ, ◌+◌, ◌≤◌, ◌<◌, ◌≡◌, refl, Bool, true, false, ◌&&◌, Option, none, some, List, [], ◌∷◌, nat_beq,
  nat_eq, if◌then◌else◌, arith,
}
use vlc_harmony.Base.Table.{
  lookup, insert, erase, total, uses, lookup_unused, uses-insert, uses-erase, uses-overwrite,
  total-insert, total-erase, total-overwrite,
}
use vlc_harmony.Seek.{SeekWorker, Phase, exited}
use vlc_harmony.Bridge.World.{
  Ref, inst, media, fd, player, equalizer, media_list, discoverer, renderer, renderer_discoverer,
  tsfn, js_ref, user, rd_user, Fn, Arg, Call, took, dropped, did, did_with, free_call, World,
  initial, LibEntry, MediaEntry, PlayerEntry, EqEntry, MediaListEntry, MediaDiscovererEntry,
  RendererItemEntry, RendererDiscovererEntry, StopJob, emit, handle_mod, from,
}

tag : Ref → ℕ
tag (inst p) = 0
tag (media p) = 1
tag (fd p) = 2
tag (player p) = 3
tag (equalizer p) = 4
tag (media_list p) = 5
tag (discoverer p) = 6
tag (renderer p) = 7
tag (renderer_discoverer p) = 8
tag (tsfn p) = 9
tag (js_ref p) = 10
tag (user p) = 11
tag (rd_user p) = 12

address : Ref → ℕ
address (inst p) = p
address (media p) = p
address (fd p) = p
address (player p) = p
address (equalizer p) = p
address (media_list p) = p
address (discoverer p) = p
address (renderer p) = p
address (renderer_discoverer p) = p
address (tsfn p) = p
address (js_ref p) = p
address (user p) = p
address (rd_user p) = p

-- One if the two references are the same, else none.
unfoldable pub hits : Ref → Ref → ℕ
unfolding tag address
hits r s = if nat_beq (tag r) (tag s) && nat_beq (address r) (address s) then 1 else 0

pub hits_self : (r : Ref) → hits r r ≡ 1
unfolding hits
hits_self r = ground arith

-- How often a reference was taken, and given back.
abbrev pub takes : Ref → List Call → ℕ
takes r [] = 0
takes r (took s ∷ t) = hits r s + takes r t
takes r (dropped s ∷ t) = takes r t
takes r (did f s args ∷ t) = takes r t
takes r (did_with f s o args ∷ t) = takes r t
takes r (free_call f args ∷ t) = takes r t

abbrev pub drops : Ref → List Call → ℕ
drops r [] = 0
drops r (took s ∷ t) = drops r t
drops r (dropped s ∷ t) = hits r s + drops r t
drops r (did f s args ∷ t) = drops r t
drops r (did_with f s o args ∷ t) = drops r t
drops r (free_call f args ∷ t) = drops r t

-- The reference is held: it was taken more often than given back.
abbrev pub IsHeld : Ref → List Call → Type 0
IsHeld r t = drops r t < takes r t

-- Each counted object that a call was made on, and each that a call was handed, was held then, and so was
-- each that was given back: no use after release, and no double release.
abbrev pub IsSafe : List Call → Type 0
IsSafe [] = Unit {0}
IsSafe (took s ∷ t) = IsSafe t
IsSafe (dropped s ∷ t) = IsHeld s t × IsSafe t
IsSafe (did f s args ∷ t) = IsHeld s t × IsSafe t
IsSafe (did_with f s o args ∷ t) = IsHeld s t × IsHeld o t × IsSafe t
IsSafe (free_call f args ∷ t) = IsSafe t

-- What a pointer that may be null holds.
abbrev pub held : Ref → (ℕ → Ref) → Option ℕ → ℕ
held r kind none = 0
held r kind (some p) = hits r (kind p)

abbrev pub lib_holds : Ref → LibEntry → ℕ
lib_holds r e = held r inst e.inst

abbrev pub media_holds : Ref → MediaEntry → ℕ
media_holds r e = held r media e.media + held r fd e.owned_fd

abbrev pub player_holds : Ref → PlayerEntry → ℕ
player_holds r e = held r player e.mp + held r tsfn e.tsfn + held r js_ref e.js_callback_ref

abbrev pub eq_holds : Ref → EqEntry → ℕ
eq_holds r e = held r equalizer e.eq

abbrev pub list_holds : Ref → MediaListEntry → ℕ
list_holds r e = held r media_list e.list

abbrev pub md_holds : Ref → MediaDiscovererEntry → ℕ
md_holds r e = held r discoverer e.md

abbrev pub renderer_holds : Ref → RendererItemEntry → ℕ
renderer_holds r e = held r renderer e.item

abbrev pub rd_holds : Ref → RendererDiscovererEntry → ℕ
rd_holds r e =
    held r renderer_discoverer e.rd + held r tsfn e.tsfn + held r js_ref e.js_callback_ref

abbrev pub user_holds : Ref → ℕ → ℕ
user_holds r h = hits r (user h)

abbrev pub rd_user_holds : Ref → ℕ → ℕ
rd_user_holds r h = hits r (rd_user h)

-- A seek worker holds its player until its thread leaves.
abbrev pub phase_holds : Ref → ℕ → Phase → ℕ
phase_holds r mp exited = 0
phase_holds r mp _ = hits r (player mp)

abbrev pub worker_holds : Ref → SeekWorker → ℕ
worker_holds r e = phase_holds r e.mp e.phase

abbrev pub job_holds : Ref → StopJob → ℕ
job_holds r j = hits r (player j.mp)

-- How many references to an object the tables and the threads hold in all.
abbrev pub owners : Ref → World → ℕ
owners r w =
    total (lib_holds r) w.libs
    + total (media_holds r) w.medias
    + total (player_holds r) w.players
    + total (eq_holds r) w.eqs
    + total (list_holds r) w.lists
    + total (md_holds r) w.mds
    + total (renderer_holds r) w.renderers
    + total (rd_holds r) w.rds
    + total (user_holds r) w.event_users
    + total (rd_user_holds r) w.rd_event_users
    + total (worker_holds r) w.workers
    + total (job_holds r) w.jobs

-- How many entries of the eight handle tables a handle has.
abbrev pub entries : ℕ → World → ℕ
entries h w =
    uses h w.libs
    + uses h w.medias
    + uses h w.players
    + uses h w.eqs
    + uses h w.lists
    + uses h w.mds
    + uses h w.renderers
    + uses h w.rds

-- A table whose keys are given out in order, `n` being the next.
pub record Once {V : Type 0} (n : ℕ) (m : List (ℕ × V)) : Type 0 where
  pub one : (h : ℕ) → uses h m ≤ 1
  pub new : (h : ℕ) → n ≤ h → uses h m ≡ 0

-- A handle of which is to be shown that it stays without an entry.
pub record Dead : Type 0 where
  pub handle : ℕ

module _ ⦃dead : Dead⦄ where
  -- The handles: no two entries share one, those to come are new, and the dead one, which was given
  -- out or is 0, is none.
  pub record Handles (w : World) : Type 0 where
    pub given : dead.handle < w.next_handle
    pub one : (h : ℕ) → entries h w ≤ 1
    pub new : (h : ℕ) → w.next_handle ≤ h → entries h w ≡ 0
    pub gone : entries dead.handle w ≡ 0

  -- The handles do not change where no handle table does.
  pub Handles-same :
      (w w' : World)
      → w'.next_handle ≡ w.next_handle
      → ((h : ℕ) → entries h w' ≡ entries h w)
      → Handles w
      → Handles w'
  Handles-same w w' n e v = record {
    given = omega (arith, v.given);
    one = λ h. omega (arith, e h, v.one h);
    new = λ h l. omega (arith, e h, v.new h);
    gone = omega (arith, e dead.handle, v.gone);
  }

  -- What holds while the running function has `x r` references of its own to `r`: everything that was
  -- taken and not given back is in a table, with a thread, or in the function's hands.
  pub record InvOf (x : Ref → ℕ) (w : World) : Type 0 where
    pub handles : Handles w
    pub users : Once w.next_handle w.event_users
    pub rd_users : Once w.next_handle w.rd_event_users
    pub seekers : Once w.next_worker w.workers
    pub stops : Once w.next_job w.jobs
    pub balanced : (r : Ref) → takes r w.trace ≡ drops r w.trace + owners r w + x r
    pub safe : IsSafe w.trace

  -- What holds between two calls.
  abbrev pub Inv : World → Type 0
  Inv = InvOf (λ r. 0)

  module _ {V : Type 0} where
    pub Once-insert : (n : ℕ) (v : V) (m : List (ℕ × V)) → Once n m → Once (n + 1) (insert n v m)
    Once-insert n v m o =
        let missing = lookup_unused n m (o.new n (omega arith)) in
        record {
          one = λ h. ground (arith, uses-insert n h v m missing, o.one h, o.new h);
          new = λ h l. ground (arith, uses-insert n h v m missing, o.new h);
        }

    pub Once-erase : (n k : ℕ) (m : List (ℕ × V)) → Once n m → Once n (erase k m)
    Once-erase n k m o = record {
      one = λ h. ground (arith, uses-erase k h m, o.one h);
      new = λ h l. ground (arith, uses-erase k h m, o.new h);
    }

    pub Once-overwrite :
        (n k : ℕ) (v old : V) (m : List (ℕ × V))
        → lookup k m ≡ some old
        → Once n m
        → Once n (insert k v m)
    Once-overwrite n k v old m e o = record {
      one = λ h. omega (arith, uses-overwrite k h v old m e, o.one h);
      new = λ h l. omega (arith, uses-overwrite k h v old m e, o.new h);
    }

    pub Once-mono : (n k : ℕ) (m : List (ℕ × V)) → n ≤ k → Once n m → Once k m
    Once-mono n k m l o = record { one = o.one; new = λ h g. o.new h (omega arith) }

  module _ (x : Ref → ℕ) (w : World) (v : InvOf x w) where
    -- What is in a table, with a thread or in hand is held.
    pub owned-IsHeld : (r : Ref) → 1 ≤ owners r w + x r → IsHeld r w.trace
    owned-IsHeld r h = omega (arith, v.balanced r)

    -- A call on an object that is held.
    pub did-Inv :
        (f : Fn) (r : Ref) (args : List Arg)
        → 1 ≤ owners r w + x r
        → InvOf x (emit (did f r args) w)
    did-Inv f r args h = record {
      handles = Handles-same w _ refl (λ h. refl) v.handles;
      users = v.users;
      rd_users = v.rd_users;
      seekers = v.seekers;
      stops = v.stops;
      balanced = v.balanced;
      safe = (owned-IsHeld r h, v.safe);
    }

    -- A call on an object that is held, and that is handed another one.
    pub did_with-Inv :
        (f : Fn) (r s : Ref) (args : List Arg)
        → 1 ≤ owners r w + x r
        → 1 ≤ owners s w + x s
        → InvOf x (emit (did_with f r s args) w)
    did_with-Inv f r s args h g = record {
      handles = Handles-same w _ refl (λ h. refl) v.handles;
      users = v.users;
      rd_users = v.rd_users;
      seekers = v.seekers;
      stops = v.stops;
      balanced = v.balanced;
      safe = (owned-IsHeld r h, owned-IsHeld s g, v.safe);
    }

-- At the start 0 is such a handle.
abbrev pub zero_dead : Dead
zero_dead = record { handle = 0 }

pub initial-Inv : Inv ⦃dead = zero_dead⦄ initial
unfolding total uses
initial-Inv = record {
  handles = record {
    given = omega arith;
    one = λ h. omega arith;
    new = λ h l. omega arith;
    gone = omega arith;
  };
  users = record { one = λ h. omega arith; new = λ h l. omega arith };
  rd_users = record { one = λ h. omega arith; new = λ h l. omega arith };
  seekers = record { one = λ h. omega arith; new = λ h l. omega arith };
  stops = record { one = λ h. omega arith; new = λ h l. omega arith };
  balanced = λ r. omega arith;
  safe = tt;
}
