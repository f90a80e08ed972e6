-- ===== src/Bridge/Api/Refusal.antt =====
-- How the functions of entry/src/main/cpp/vlc_napi.cpp that get a handle first refuse one that stands
-- for no entry of a table, and an argument that is no handle at all.
pub mod Media
pub mod Player
pub mod Control
pub mod Equalizer
pub mod Lists
pub mod Surfaces
pub mod Renderers
use vlc_harmony.Base.{
  ℕ, ◌≡◌, refl, ap, ltb, if◌then◌else◌, length, get_elem?, Option, none, some, List, [], ◌∷◌,
  nat_eq, arith, inl, inr, Bool-cases,
}
use vlc_harmony.Base.Table.{lookup, lookup_unused}
use vlc_harmony.Bridge.World.{
  Fn, Arg, Host, World, Ret, need, inst_of, media_of, player_of, eq_of, list_of, md_of, renderer_of,
  rd_of, from,
}
use vlc_harmony.Bridge.Ledger.{entries}
use vlc_harmony.Bridge.Calls.{u32_at, both, on_player}
use vlc_harmony.Bridge.Calls.Safety.{need_any}
use vlc_harmony.Bridge.Control.{along, alone}

-- No table has an entry for the handle that the first argument is.
abbrev pub IsStale : Host → List ℕ → World → Type 0
IsStale host args w = (k : ℕ) → from (get_elem? args 0) host.get_uint32 ≡ some k → entries k w ≡ 0

-- A look-up that finds nothing where no table has an entry.
abbrev pub Finds {ℓ} : {A : Type ℓ} → (ℕ → Option A) → World → Type ℓ
Finds look w = (k : ℕ) → entries k w ≡ 0 → look k ≡ none

pub lib-Finds : (w : World) → Finds (λ k. lookup k w.libs) w
lib-Finds w k dead = lookup_unused k w.libs (omega arith)

pub media-Finds : (w : World) → Finds (λ k. lookup k w.medias) w
media-Finds w k dead = lookup_unused k w.medias (omega arith)

pub player-Finds : (w : World) → Finds (λ k. lookup k w.players) w
player-Finds w k dead = lookup_unused k w.players (omega arith)

pub eq-Finds : (w : World) → Finds (λ k. lookup k w.eqs) w
eq-Finds w k dead = lookup_unused k w.eqs (omega arith)

pub list-Finds : (w : World) → Finds (λ k. lookup k w.lists) w
list-Finds w k dead = lookup_unused k w.lists (omega arith)

pub md-Finds : (w : World) → Finds (λ k. lookup k w.mds) w
md-Finds w k dead = lookup_unused k w.mds (omega arith)

pub renderer-Finds : (w : World) → Finds (λ k. lookup k w.renderers) w
renderer-Finds w k dead = lookup_unused k w.renderers (omega arith)

pub rd-Finds : (w : World) → Finds (λ k. lookup k w.rds) w
rd-Finds w k dead = lookup_unused k w.rds (omega arith)

pub inst_of-Finds : (w : World) → Finds (λ k. inst_of k w) w
unfolding inst_of
inst_of-Finds w k dead = rw (lib-Finds w k dead) refl

pub media_of-Finds : (w : World) → Finds (λ k. media_of k w) w
unfolding media_of
media_of-Finds w k dead = rw (media-Finds w k dead) refl

pub player_of-Finds : (w : World) → Finds (λ k. player_of k w) w
unfolding player_of
player_of-Finds w k dead = rw (player-Finds w k dead) refl

pub eq_of-Finds : (w : World) → Finds (λ k. eq_of k w) w
unfolding eq_of
eq_of-Finds w k dead = rw (eq-Finds w k dead) refl

pub list_of-Finds : (w : World) → Finds (λ k. list_of k w) w
unfolding list_of
list_of-Finds w k dead = rw (list-Finds w k dead) refl

pub md_of-Finds : (w : World) → Finds (λ k. md_of k w) w
unfolding md_of
md_of-Finds w k dead = rw (md-Finds w k dead) refl

pub rd_of-Finds : (w : World) → Finds (λ k. rd_of k w) w
unfolding rd_of
rd_of-Finds w k dead = rw (rd-Finds w k dead) refl

-- The handle that is read with more is the one that is read.
pub both-first {ℓ μ} :
    {A : Type ℓ} {B : Type μ} (o : Option A) (p : Option B) (a : A × B)
    → both o p ≡ some a
    → o ≡ some a.0
both-first none p a e = ground (arith, e)
both-first (some k) none a e = ground (arith, e)
both-first (some k) (some b) a e = ap (λ q. from q λ c. some c.0) e

along-first :
    {A : Type 0} (g : A → Arg) (o : Option ℕ) (p : Option A) (a : ℕ × List Arg)
    → along g (both o p) ≡ some a
    → o ≡ some a.0
along-first g none p a e = ground (arith, e)
along-first g (some k) none a e = ground (arith, e)
along-first g (some k) (some b) a e = ap (λ q. from q λ c. some c.0) e

alone-first : (o : Option ℕ) (a : ℕ × List Arg) → alone o ≡ some a → o ≡ some a.0
alone-first none a e = ground (arith, e)
alone-first (some k) a e = ap (λ q. from q λ c. some c.0) e

module _ (host : Host) (args : List ℕ) (w : World) (stale : IsStale host args w) where
  -- However many arguments a function asks for, the first is the same.
  pub u32_at-dead : (n k : ℕ) → u32_at host n 0 args ≡ some k → entries k w ≡ 0
  u32_at-dead n k e = stale k (elim (Bool-cases (ltb (length args) n)) [
    | inl c ↦ ground (arith, rw c at e)
    | inr c ↦ rw c at e
  ])

  -- The first argument alone is read, and the entry behind it is looked up.
  pub refuse {ℓ κ} :
      {A : Type ℓ} {B : Type κ} (n : ℕ) (look : ℕ → Option A) (d d' : B) (k : ℕ → A → B × World)
      → Finds look w
      → (need (u32_at host n 0 args) (d, w) (λ h. need (look h) (d', w) (k h))).1 ≡ w
  unfolding need
  refuse n look d d' k finds =
      need_any (λ u. u ≡ w) (u32_at host n 0 args) (d, w) _ refl
        λ h e. rw (finds h (u32_at-dead n h e)) refl

  -- The first argument is read with another.
  pub refuse_both {ℓ μ κ} :
      {A : Type ℓ} {C : Type μ} {B : Type κ} (n : ℕ) (o : Option C) (look : ℕ → Option A) (d d' : B)
      (k : ℕ × C → A → B × World)
      → Finds look w
      → (need (both (u32_at host n 0 args) o) (d, w) (λ a. need (look a.0) (d', w) (k a))).1 ≡ w
  unfolding need
  refuse_both n o look d d' k finds =
      need_any (λ u. u ≡ w) (both (u32_at host n 0 args) o) (d, w) _ refl
        λ a e. rw (finds a.0 (u32_at-dead n a.0 (both-first (u32_at host n 0 args) o a e))) refl

  -- The object of a player is called.
  pub on_player-refuses :
      (o : Option (ℕ × List Arg)) (d : Ret) (f : Fn) (answer : ℕ → List Arg → World → Ret)
      → ((a : ℕ × List Arg) → o ≡ some a → entries a.0 w ≡ 0)
      → (on_player o d f answer w).1 ≡ w
  unfolding on_player need
  on_player-refuses o d f answer dead =
      need_any (λ u. u ≡ w) o (d, w) _ refl λ a e. rw (player_of-Finds w a.0 (dead a e)) refl

  pub refuse_along :
      {A : Type 0} (n : ℕ) (g : A → Arg) (o : Option A) (d : Ret) (f : Fn)
      (answer : ℕ → List Arg → World → Ret)
      → (on_player (along g (both (u32_at host n 0 args) o)) d f answer w).1 ≡ w
  refuse_along n g o d f answer =
      on_player-refuses (along g (both (u32_at host n 0 args) o)) d f answer
        λ a e. u32_at-dead n a.0 (along-first g (u32_at host n 0 args) o a e)

  pub refuse_alone :
      (n : ℕ) (d : Ret) (f : Fn) (answer : ℕ → List Arg → World → Ret)
      → (on_player (alone (u32_at host n 0 args)) d f answer w).1 ≡ w
  refuse_alone n d f answer =
      on_player-refuses (alone (u32_at host n 0 args)) d f answer
        λ a e. u32_at-dead n a.0 (alone-first (u32_at host n 0 args) a e)
