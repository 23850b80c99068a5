-- ===== src/Cache/Swept.antt =====
-- What a sweep and a flush leave of a shard.
use km_resolv.Prelude.{
  eqb, ℕ, zero, suc, ◌≤◌, ◌≡◌, refl, Bool, true, false, ◌||◌, Option, none, some, List, [], ◌∷◌,
  ◌++◌, ◌∙◌, sym, ap, arith, ◌==◌, length, take, drop, any, length-drop, take-append-drop,
  if◌then◌else◌, Map, Distinct, lookup, remove, lookup-remove, Distinct-remove, lookup-select,
  length-remove-le,
}
use km_resolv.Cache.Hash.{Key, key_eq}
use km_resolv.Cache.{after}
use km_resolv.Cache.Sweep.{dead_keys, delete_batch, delete_batches, sweep, drop_expired}

suc_not_zero : (n : ℕ) → eqb (suc n) 0 ≡ false
suc_not_zero n = ground arith

module _ {V : Type 0} (expiry : V → ℕ) (now : ℕ) where
  -- What is left of an entry that is swept.
  abbrev pub live : Option V → Option V
  live none = none
  live (some v) = if after now (expiry v) then none else some v

  abbrev mem : Key → List Key → Bool
  mem k ks = any (λ j. j == k) ks

  mem-append : (k : Key) (xs ys : List Key) → mem k (xs ++ ys) ≡ (mem k xs || mem k ys)
  mem-append k [] ys = refl
  mem-append k (x ∷ xs) ys = ground (arith, mem-append k xs ys)

  lookup-delete_batch :
      (k : Key) (ks : List Key) (m : Map Key V)
      → lookup k (delete_batch expiry now ks m)
        ≡ (if mem k ks then live (lookup k m) else lookup k m)
  unfolding delete_batch
  lookup-delete_batch k [] m = refl
  lookup-delete_batch k (j ∷ ks) m = ground (
    arith,
    lookup-delete_batch k ks m,
    lookup-delete_batch k ks (remove j m),
    lookup-remove j k m,
    key_eq.beq_iff j k,
  )

  delete_batch-Distinct :
      (ks : List Key) (m : Map Key V) → Distinct m → Distinct (delete_batch expiry now ks m)
  unfolding delete_batch
  delete_batch-Distinct [] m d = d
  delete_batch-Distinct (j ∷ ks) m d =
      delete_batch-Distinct ks _
        (elim (lookup j m)
          as (λ o.
            Distinct {K = Key} {V = V}
              (elim o [ none ↦ m | some v ↦ if after now (expiry v) then remove j m else m ])) [
                | none ↦ d
                | some v ↦
                    elim (after now (expiry v))
                      as (λ b. Distinct {K = Key} {V = V} (if b then remove j m else m)) [
                        | true ↦ Distinct-remove j m d
                        | false ↦ d
                      ]
              ])

  length-delete_batch-le :
      (ks : List Key) (m : Map Key V) → length (delete_batch expiry now ks m) ≤ length m
  unfolding delete_batch
  length-delete_batch-le [] m = omega arith
  length-delete_batch-le (j ∷ ks) m = ground (
    arith,
    length-delete_batch-le ks m,
    length-delete_batch-le ks (remove j m),
    length-remove-le j m,
  )

  -- The batches, one after the other, are one deletion of all the keys.
  delete_batch-append :
      (xs ys : List Key) (m : Map Key V)
      → delete_batch expiry now (xs ++ ys) m
        ≡ delete_batch expiry now ys (delete_batch expiry now xs m)
  unfolding delete_batch
  delete_batch-append [] ys m = refl
  delete_batch-append (x ∷ xs) ys m = delete_batch-append xs ys _

  delete_batches-eq :
      (fuel : ℕ) (dead : List Key) (m : Map Key V)
      → length dead ≤ fuel
      → delete_batches expiry now fuel dead m ≡ delete_batch expiry now dead m
  unfolding delete_batches delete_batch
  delete_batches-eq zero [] m h = refl
  delete_batches-eq (suc fuel) [] m h = refl
  delete_batches-eq zero (k ∷ ks) m h = absurd (omega arith)
  delete_batches-eq (suc fuel) (k ∷ ks) m h = rw (suc_not_zero (length ks)) (
      delete_batches-eq fuel (drop 63 ks) (delete_batch expiry now (k ∷ take 63 ks) m)
        (omega (arith, length-drop 63 ks))
      ∙ sym (delete_batch-append (k ∷ take 63 ks) (drop 63 ks) m)
      ∙ ap (λ l. delete_batch expiry now (k ∷ l) m) (take-append-drop 63 ks))

  -- A key that the scan has not collected has no expired entry.
  lookup_of_not_dead :
      (k : Key) (m : Map Key V)
      → mem k (dead_keys expiry now m) ≡ false
      → live (lookup k m) ≡ lookup k m
  unfolding dead_keys lookup
  lookup_of_not_dead k [] h = refl
  lookup_of_not_dead k ((j, v) ∷ m) h = ground (arith, lookup_of_not_dead k m)

  -- The scan and the batches of evictShard are together one filter: a key is found after the
  -- sweep exactly if it was found before with an entry that has not expired, which is unchanged.
  pub lookup-sweep : (k : Key) (m : Map Key V) → lookup k (sweep expiry now m) ≡ live (lookup k m)
  unfolding sweep
  lookup-sweep k m =
      rw
        (
          delete_batches-eq (length (dead_keys expiry now m)) (dead_keys expiry now m) m
              (omega arith),
          lookup-delete_batch k (dead_keys expiry now m) m,
        )
        (ground (arith, lookup_of_not_dead k m))

  pub Distinct-sweep : (m : Map Key V) → Distinct m → Distinct (sweep expiry now m)
  unfolding sweep
  Distinct-sweep m d =
      rw
        (delete_batches-eq (length (dead_keys expiry now m)) (dead_keys expiry now m) m
          (omega arith))
        (delete_batch-Distinct (dead_keys expiry now m) m d)

  pub length-sweep-le : (m : Map Key V) → length (sweep expiry now m) ≤ length m
  unfolding sweep
  length-sweep-le m =
      rw
        (delete_batches-eq (length (dead_keys expiry now m)) (dead_keys expiry now m) m
          (omega arith))
        (length-delete_batch-le (dead_keys expiry now m) m)

  -- Flush("expired") leaves the same entries as the sweep.
  pub lookup-drop_expired :
      (k : Key) (m : Map Key V)
      → Distinct m
      → lookup k (drop_expired expiry now m) ≡ live (lookup k m)
  unfolding drop_expired
  lookup-drop_expired k m d = rw (lookup-select _ k m d) (ground arith)
