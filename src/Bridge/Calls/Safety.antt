-- ===== src/Bridge/Calls/Safety.antt =====
-- The invariant of the account of references through the checks and calls of
-- entry/src/main/cpp/vlc_napi.cpp.
use vlc_harmony.Base.{ℕ, ◌+◌, ◌≤◌, ◌<◌, ◌≡◌, refl, Option, none, some, List, arith}
use vlc_harmony.Bridge.World.{
  Ref, player, Fn, Arg, did, did_with, World, Ret, emit, need, player_of, handle_mod,
}
use vlc_harmony.Bridge.Ledger.{Dead, Inv, owners, did-Inv, did_with-Inv}
use vlc_harmony.Bridge.Ledger.Owned.{player_of-owned}
use vlc_harmony.Bridge.Calls.{on_player}

-- A property of the state through a check.
pub need_any {ℓ κ} :
    {A : Type ℓ} {B : Type κ} (P : World → Type 0) (o : Option A) (d : B × World)
    (k : A → B × World)
    → P d.1
    → ((a : A) → o ≡ some a → P (k a).1)
    → P (need o d k).1
unfolding need
need_any P none d k g f = g
need_any P (some a) d k g f = f a refl

module _ ⦃dead : Dead⦄ where
  -- The state after a function that began in `w`: the invariant holds, and at most two handles were
  -- given out.
  abbrev pub Good : World → World → Type 0
  Good w w' = Inv w' × (w'.next_handle ≤ w.next_handle + 2)

  -- A function of the module keeps the invariant as long as handles do not wrap.
  abbrev pub Keeps {ℓ} : {A : Type ℓ} → (World → A × World) → Type 0
  Keeps f = (w : World) → Inv w → w.next_handle + 3 < handle_mod → Good w (f w).1

  pub need-Good {ℓ κ} :
      {A : Type ℓ} {B : Type κ} (w : World) (o : Option A) (d : B × World) (k : A → B × World)
      → Good w d.1
      → ((a : A) → o ≡ some a → Good w (k a).1)
      → Good w (need o d k).1
  unfolding need
  need-Good w none d k g f = g
  need-Good w (some a) d k g f = f a refl

  pub unchanged : (w : World) → Inv w → Good w w
  unchanged w v = (v, omega arith)

  pub call-Good :
      (f : Fn) (r : Ref) (args : List Arg) (w : World)
      → Inv w
      → 1 ≤ owners r w
      → Good w (emit (did f r args) w)
  call-Good f r args w v o = (did-Inv (λ _. 0) w v f r args (omega arith), omega arith)

  pub call_with-Good :
      (f : Fn) (r s : Ref) (args : List Arg) (w : World)
      → Inv w
      → 1 ≤ owners r w
      → 1 ≤ owners s w
      → Good w (emit (did_with f r s args) w)
  call_with-Good f r s args w v o p =
      (did_with-Inv (λ _. 0) w v f r s args (omega arith) (omega arith), omega arith)

  pub on_player-Keeps :
      (o : Option (ℕ × List Arg)) (d : Ret) (f : Fn) (answer : ℕ → List Arg → World → Ret)
      → Keeps (on_player o d f answer)
  unfolding on_player
  on_player-Keeps o d f answer w v room = need-Good w o _ _ (unchanged w v) λ a e.
      need-Good w (player_of a.0 w) _ _ (unchanged w v)
        λ mp p. call-Good f (player mp) a.1 w v (player_of-owned a.0 w p)
