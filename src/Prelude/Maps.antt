-- ===== src/Prelude/Maps.antt =====
-- Go's maps as association lists. The order of the list is an order of iteration, which Go leaves
-- open: what is proved holds for every list, so for every order.
use km_resolv.Prelude.Tests.{Eq, ◌==◌, if◌then◌else◌, Bool-cases}
use km_resolv.Prelude.Lists.{length, select}
use Prim.Native.Nat.{◌+◌, ◌≤◌}
use mathlib.Core.Path.{◌≡◌, refl}
use mathlib.Core.Logic.{◌≢◌, inl, inr}
use mathlib.Core.Bool.{Bool, true, false}
use mathlib.Core.Option.{Option, none, some}
use mathlib.Core.List.{List, [], ◌∷◌, map}
use native.Mathlib.Omega.{arith}

abbrev pub Map {ℓ} : Type ℓ → Type ℓ → Type ℓ
Map K V = List (K × V)

module _ {ℓ} {K V : Type ℓ} where
  abbrev pub keys : Map K V → List K
  keys = map (λ e. e.0)

module _ {ℓ} {K : Type ℓ} ⦃e : Eq K⦄ where
  pub beq_refl : (k : K) → (k == k) ≡ true
  beq_refl k = (e.beq_iff k k).1 refl

  pub beq_ne : (k j : K) → k ≢ j → (k == j) ≡ false
  beq_ne k j h = ground (arith, e.beq_iff k j)

module _ {ℓ} {K V : Type ℓ} ⦃e : Eq K⦄ where
  -- m[k], with the comma-ok result
  unfoldable pub lookup : K → Map K V → Option V
  lookup k [] = none
  lookup k ((i, found) ∷ m) = if i == k then some found else lookup k m

  -- m[k] = v
  unfoldable pub insert : K → V → Map K V → Map K V
  insert k v [] = (k, v) ∷ []
  insert k v ((i, old) ∷ m) = if i == k then (k, v) ∷ m else (i, old) ∷ insert k v m

  -- delete(m, k)
  unfoldable pub remove : K → Map K V → Map K V
  remove k [] = []
  remove k ((j, w) ∷ m) = let rest = remove k m in if j == k then rest else (j, w) ∷ rest

  -- _, ok := m[k]
  unfoldable pub has : K → Map K V → Bool
  has k [] = false
  has k ((j, v) ∷ m) = if j == k then true else has k m

  -- No key stands twice: what a Go map guarantees.
  abbrev pub Distinct : Map K V → Type 0
  Distinct [] = Unit
  Distinct ((k, v) ∷ m) = (has k m ≡ false) × Distinct m

  pub lookup-insert :
      (k j : K) (v : V) (m : Map K V)
      → lookup j (insert k v m) ≡ (if k == j then some v else lookup j m)
  unfolding lookup insert
  lookup-insert k j v [] = refl
  lookup-insert k j v ((a, old) ∷ m) =
      ground (arith, lookup-insert k j v m, e.beq_iff a j, e.beq_iff a k, e.beq_iff k j)

  pub lookup-remove :
      (k j : K) (m : Map K V) → lookup j (remove k m) ≡ (if k == j then none else lookup j m)
  unfolding lookup remove
  lookup-remove k j [] = ground arith
  lookup-remove k j ((i, w) ∷ m) =
      ground (arith, e.beq_iff k j, e.beq_iff i k, e.beq_iff i j, lookup-remove k j m)

  pub lookup-insert_self : (k : K) (v : V) (m : Map K V) → lookup k (insert k v m) ≡ some v
  lookup-insert_self k v m = simp (lookup-insert, beq_refl)

  pub lookup-insert_ne :
      (k j : K) (v : V) (m : Map K V) → k ≢ j → lookup j (insert k v m) ≡ lookup j m
  lookup-insert_ne k j v m h = rw (lookup-insert k j v m, beq_ne k j h)

  pub has-eq-lookup : (k : K) (m : Map K V) → has k m ≡ false → lookup k m ≡ none
  unfolding has lookup
  has-eq-lookup k [] h = refl
  has-eq-lookup k ((j, v) ∷ m) h = ground (arith, has-eq-lookup k m)

  pub has-insert :
      (k j : K) (v : V) (m : Map K V) → has j (insert k v m) ≡ (if k == j then true else has j m)
  unfolding has insert
  has-insert k j v [] = refl
  has-insert k j v ((i, w) ∷ m) =
      ground (arith, e.beq_iff k j, e.beq_iff i k, e.beq_iff i j, has-insert k j v m)

  pub has-remove :
      (k j : K) (m : Map K V) → has j (remove k m) ≡ (if k == j then false else has j m)
  unfolding has remove
  has-remove k j [] = ground arith
  has-remove k j ((i, w) ∷ m) =
      ground (arith, e.beq_iff k j, e.beq_iff i k, e.beq_iff i j, has-remove k j m)

  pub Distinct-insert : (k : K) (v : V) (m : Map K V) → Distinct m → Distinct (insert k v m)
  unfolding insert has
  Distinct-insert k v [] h = (refl, tt)
  Distinct-insert k v ((j, w) ∷ m) h = elim (Bool-cases (j == k)) [
    | inl same ↦ rw same (ground (arith, e.beq_iff j k))
    | inr other ↦ rw other (
      ground (arith, has-insert k j v m, e.beq_iff k j, e.beq_iff j k),
      Distinct-insert k v m h.1,
    )
  ]

  pub Distinct-remove : (k : K) (m : Map K V) → Distinct m → Distinct (remove k m)
  unfolding remove
  Distinct-remove k [] h = tt
  Distinct-remove k ((j, w) ∷ m) h = elim (Bool-cases (j == k)) [
    | inl same ↦ rw same (Distinct-remove k m h.1)
    | inr other ↦
        rw other (ground (arith, has-remove k j m, e.beq_iff k j), Distinct-remove k m h.1)
  ]

  pub length-insert :
      (k : K) (v : V) (m : Map K V)
      → length (insert k v m) ≡ (if has k m then length m else length m + 1)
  unfolding insert has
  length-insert k v [] = omega arith
  length-insert k v ((j, w) ∷ m) = ground (arith, length-insert k v m)

  pub length-remove-le : (k : K) (m : Map K V) → length (remove k m) ≤ length m
  unfolding remove
  length-remove-le k [] = omega arith
  length-remove-le k ((j, w) ∷ m) = ground (arith, length-remove-le k m)

  pub length-remove-has :
      (k : K) (m : Map K V) → has k m ≡ true → length (remove k m) + 1 ≤ length m
  unfolding remove has
  length-remove-has k [] h = cc
  length-remove-has k ((j, w) ∷ m) h = ground (arith, length-remove-le k m, length-remove-has k m)

  pub has-select :
      (p : K × V → Bool) (k : K) (m : Map K V) → has k m ≡ false → has k (select p m) ≡ false
  unfolding has
  has-select p k [] h = refl
  has-select p k ((j, v) ∷ m) h = ground (arith, has-select p k m)

  pub Distinct-select : (p : K × V → Bool) (m : Map K V) → Distinct m → Distinct (select p m)
  Distinct-select p [] h = tt
  Distinct-select p ((j, w) ∷ m) h = elim (Bool-cases (p (j, w))) [
    | inl keep ↦ rw keep (has-select p j m h.0, Distinct-select p m h.1)
    | inr drop ↦ rw drop (Distinct-select p m h.1)
  ]

  -- Deleting during an iteration by a test on the entries is a filter.
  pub lookup-select :
      (p : K × V → Bool) (k : K) (m : Map K V)
      → Distinct m
      → lookup k (select p m)
        ≡ elim (lookup k m) [ none ↦ none | some v ↦ if p (k, v) then some v else none ]
  unfolding lookup
  lookup-select p k [] h = refl
  lookup-select p k ((j, w) ∷ m) h =
      ground (arith, e.beq_iff j k, lookup-select p k m h.1, has-eq-lookup j m h.0)

  pub has_of_lookup : (k : K) (m : Map K V) (v : V) → lookup k m ≡ some v → has k m ≡ true
  unfolding has lookup
  has_of_lookup k [] v h = cc
  has_of_lookup k ((j, w) ∷ m) v h = ground (arith, has_of_lookup k m v)
