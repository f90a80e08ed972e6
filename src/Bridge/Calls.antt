-- ===== src/Bridge/Calls.antt =====
-- How the functions of entry/src/main/cpp/vlc_napi.cpp read their arguments and reach an object: the
-- checks in front, then one call on the object behind a handle. Most of the functions that set or
-- read something of a player are this and nothing more (`on_player`).
pub mod Safety
pub mod Stored
use vlc_harmony.Base.{ℕ, String, Bool, Option, none, some, List, [], ◌∷◌, ℤ, get_elem?}
use vlc_harmony.Bridge.World.{
  Ref, player, Fn, Arg, did, did_with, dropped, Host, World, Ret, emit, need, from, arg, player_of,
}

abbrev pub both {ℓ κ} : {A : Type ℓ} {B : Type κ} → Option A → Option B → Option (A × B)
both none o = none
both (some a) none = none
both (some a) (some b) = some (a, b)

module _ (host : Host) where
  -- `argc >= n && GetU32(argv[i])`, and so for the other types.
  abbrev pub u32_at : ℕ → ℕ → List ℕ → Option ℕ
  u32_at = arg host.get_uint32

  abbrev pub i32_at : ℕ → ℕ → List ℕ → Option ℤ
  i32_at = arg host.get_int32

  abbrev pub i64_at : ℕ → ℕ → List ℕ → Option ℤ
  i64_at = arg host.get_int64

  abbrev pub f64_at : ℕ → ℕ → List ℕ → Option ℕ
  f64_at = arg host.get_double

  abbrev pub bool_at : ℕ → ℕ → List ℕ → Option Bool
  bool_at = arg host.get_bool

  -- `GetString(argv[i])`, behind a check that the argument is there.
  abbrev pub string_at : ℕ → List ℕ → String
  string_at i args = elim (get_elem? args i) [ none ↦ "" | some v ↦ host.get_string v ]

  -- An argument with a default: absent, or of another type, it is the default.
  abbrev pub or_else {ℓ} : {A : Type ℓ} → Option A → A → A
  or_else none d = d
  or_else (some a) d = a

-- A call on an object, and what it answers; the answer may depend on all that came before.
abbrev pub call : Fn → Ref → List Arg → (World → Ret) → World → Ret × World
call f r args answer w = (answer w, emit (did f r args) w)

-- The same where the call is handed another object.
abbrev pub call_with : Fn → Ref → Ref → List Arg → (World → Ret) → World → Ret × World
call_with f r s args answer w = (answer w, emit (did_with f r s args) w)

-- The checks of the arguments have given a handle and the arguments of the call, or nothing; then
-- the handle may be that of a player, or not. In both other cases the answer is `d`.
unfoldable pub on_player :
    Option (ℕ × List Arg) → Ret → Fn → (ℕ → List Arg → World → Ret) → World → Ret × World
on_player o d f answer w =
    need o (d, w)
      λ (h, args). need (player_of h w) (d, w) λ mp. call f (player mp) args (answer mp args) w

-- What the entry of a table gives back when it goes. Under the lock an entry is erased, and what it
-- holds is given back, in one step; the order of the two is not seen.
abbrev pub drop : (ℕ → Ref) → Option ℕ → World → World
drop kind none w = w
drop kind (some p) w = emit (dropped (kind p)) w
