-- ===== src/Base/Table.antt =====
-- `std::unordered_map` as an association list: `lookup` is `find`, `insert` is `m[k] = v`,
-- `erase` is `erase`. A table that code walks is walked in the list's order.
use vlc_harmony.Base.Tests.{Eq, ◌==◌, if◌then◌else◌}
use Prim.Native.Nat.{ℕ, ◌+◌, ◌≤◌}
use mathlib.Core.Path.{◌≡◌, refl}
use mathlib.Core.Option.{Option, none, some}
use mathlib.Core.List.{List, [], ◌∷◌}
use native.Mathlib.Omega.{arith}

module _ {ℓ} {K : Type 0} {V : Type ℓ} ⦃e : Eq K⦄ where
  unfoldable pub lookup : K → List (K × V) → Option V
  lookup k [] = none
  lookup k ((j, v) ∷ m) = if j == k then some v else lookup k m

  unfoldable pub erase : K → List (K × V) → List (K × V)
  erase k [] = []
  erase k ((j, w) ∷ m) = if j == k then erase k m else (j, w) ∷ erase k m

  -- How often a key stands in a table.
  unfoldable pub uses : K → List (K × V) → ℕ
  uses k [] = 0
  uses k ((j, w) ∷ m) = (if j == k then 1 else 0) + uses k m

  unfoldable pub insert : K → V → List (K × V) → List (K × V)
  insert k v [] = (k, v) ∷ []
  insert k v (entry ∷ m) = if entry.0 == k then (k, v) ∷ m else entry ∷ insert k v m

  -- A loop over a table that changes its entries in place.
  unfoldable pub map_values : (V → V) → List (K × V) → List (K × V)
  map_values f [] = []
  map_values f ((j, v) ∷ m) = (j, f v) ∷ map_values f m

  -- What the entries of a table hold in all, by a weight for each.
  unfoldable pub total : (V → ℕ) → List (K × V) → ℕ
  total f [] = 0
  total f ((j, w) ∷ m) = f w + total f m

  pub lookup-insert :
      (k j : K) (v : V) (m : List (K × V))
      → lookup j (insert k v m) ≡ (if k == j then some v else lookup j m)
  unfolding insert lookup
  lookup-insert k j v [] = refl
  lookup-insert k j v ((i, w) ∷ m) =
      ground (lookup-insert k j v m, arith, e.beq_iff i k, e.beq_iff k j, e.beq_iff i j)

  pub lookup-erase :
      (k j : K) (m : List (K × V)) → lookup j (erase k m) ≡ (if k == j then none else lookup j m)
  unfolding lookup erase
  lookup-erase k j [] = ground arith
  lookup-erase k j ((i, w) ∷ m) =
      ground (arith, e.beq_iff k j, e.beq_iff i k, e.beq_iff i j, lookup-erase k j m)

  pub uses-insert :
      (k j : K) (v : V) (m : List (K × V))
      → lookup k m ≡ none
      → uses j (insert k v m) ≡ (if k == j then 1 else 0) + uses j m
  unfolding lookup insert uses
  uses-insert k j v [] h = refl
  uses-insert k j v ((i, w) ∷ m) h = ground (arith, uses-insert k j v m)

  pub uses-erase :
      (k j : K) (m : List (K × V)) → uses j (erase k m) ≡ (if k == j then 0 else uses j m)
  unfolding erase uses
  uses-erase k j [] = ground arith
  uses-erase k j ((i, w) ∷ m) =
      ground (arith, e.beq_iff k j, e.beq_iff i k, e.beq_iff i j, uses-erase k j m)

  pub lookup_unused : (k : K) (m : List (K × V)) → uses k m ≡ 0 → lookup k m ≡ none
  unfolding lookup uses
  lookup_unused k [] h = refl
  lookup_unused k ((i, w) ∷ m) h = ground (arith, lookup_unused k m)

  pub uses_found : (k : K) (m : List (K × V)) (v : V) → lookup k m ≡ some v → 1 ≤ uses k m
  unfolding lookup uses
  uses_found k [] v h = ground arith
  uses_found k ((i, w) ∷ m) v h = ground (arith, uses_found k m v)

  pub erase_unused : (k : K) (m : List (K × V)) → uses k m ≡ 0 → erase k m ≡ m
  unfolding erase uses
  erase_unused k [] h = refl
  erase_unused k ((i, w) ∷ m) h = ground (arith, erase_unused k m)

  pub total-insert :
      (f : V → ℕ) (k : K) (v : V) (m : List (K × V))
      → lookup k m ≡ none
      → total f (insert k v m) ≡ f v + total f m
  unfolding lookup insert total
  total-insert f k v [] h = refl
  total-insert f k v ((i, w) ∷ m) h = ground (arith, total-insert f k v m)

  -- Writing over an entry: the old weight goes, the new one comes.
  pub total-overwrite :
      (f : V → ℕ) (k : K) (v old : V) (m : List (K × V))
      → lookup k m ≡ some old
      → total f (insert k v m) + f old ≡ f v + total f m
  unfolding lookup insert total
  total-overwrite f k v old [] h = ground arith
  total-overwrite f k v old ((i, w) ∷ m) h = ground (arith, total-overwrite f k v old m)

  pub uses-overwrite :
      (k j : K) (v old : V) (m : List (K × V))
      → lookup k m ≡ some old
      → uses j (insert k v m) ≡ uses j m
  unfolding lookup insert uses
  uses-overwrite k j v old [] h = ground arith
  uses-overwrite k j v old ((i, w) ∷ m) h =
      ground (arith, e.beq_iff i k, e.beq_iff i j, e.beq_iff k j, uses-overwrite k j v old m)

  -- Where a key stands once, erasing it takes away the weight of its entry and no other.
  pub total-erase :
      (f : V → ℕ) (k : K) (v : V) (m : List (K × V))
      → lookup k m ≡ some v
      → uses k m ≤ 1
      → total f m ≡ f v + total f (erase k m)
  unfolding lookup erase uses total
  total-erase f k v [] h u = ground arith
  total-erase f k v ((i, w) ∷ m) h u = ground (arith, erase_unused k m, total-erase f k v m)

  -- An entry weighs no more than its table.
  pub total_found :
      (f : V → ℕ) (k : K) (v : V) (m : List (K × V)) → lookup k m ≡ some v → f v ≤ total f m
  unfolding lookup total
  total_found f k v [] h = ground arith
  total_found f k v ((i, w) ∷ m) h = ground (arith, total_found f k v m)

  pub uses-map_values : (f : V → V) (k : K) (m : List (K × V)) → uses k (map_values f m) ≡ uses k m
  unfolding uses map_values
  uses-map_values f k [] = refl
  uses-map_values f k ((i, w) ∷ m) = omega (arith, uses-map_values f k m)

  pub total-map_values :
      (g : V → ℕ) (f : V → V) (m : List (K × V))
      → ((v : V) → g (f v) ≡ g v)
      → total g (map_values f m) ≡ total g m
  unfolding total map_values
  total-map_values g f [] h = refl
  total-map_values g f ((i, w) ∷ m) h = omega (arith, h w, total-map_values g f m h)

  pub lookup-map_values :
      (f : V → V) (k : K) (m : List (K × V)) (v : V)
      → lookup k m ≡ some v
      → lookup k (map_values f m) ≡ some (f v)
  unfolding lookup map_values
  lookup-map_values f k [] v h = ground arith
  lookup-map_values f k ((i, w) ∷ m) v h = ground (arith, lookup-map_values f k m v)
