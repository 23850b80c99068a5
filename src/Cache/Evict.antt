-- ===== src/Cache/Evict.antt =====
-- Which entry a full shard gives up for a new one.
use km_resolv.Prelude.{
  ℕ, ◌≤◌, ◌<◌, ◌≡◌, ◌≢◌, refl, true, false, Bool-cases, inl, inr, none, some, [], ◌∷◌, arith, ◌⊎◌,
  length, All, Map, Distinct, lookup, insert, remove, has, has_of_lookup, sym, ap, subst,
  length-insert, length-remove-has, ltb, leb,
}
use km_resolv.Cache.{Entry, soonest, make_room}
use km_resolv.Cache.Hash.{Key, key_eq}

-- No entry of the map expires before `t`.
abbrev pub Below : ℕ → Map Key Entry → Type 0
Below t m = All (λ e. t ≤ e.1.expires) m

abbrev Holds : Key → ℕ → Map Key Entry → Type 0
Holds k t m = (e : Entry) × (lookup k m ≡ some e) × (e.expires ≡ t)

-- A key of the map's tail is not the key at its head.
Holds-cons :
    (k j : Key) (t : ℕ) (e : Entry) (m : Map Key Entry)
    → has j m ≡ false
    → Holds k t m
    → Holds k t ((j, e) ∷ m)
unfolding lookup
Holds-cons k j t e m new (e', found, at) =
    (e', ground (arith, key_eq.beq_iff j k, has_of_lookup k m e' found), at)

-- What the search for the key to evict returns, from the best key so far on.
soonest-some :
    (bk : Key) (b : ℕ) (m : Map Key Entry)
    → Distinct m
    → (k : Key) × (t : ℕ) × (soonest (some (bk, b)) m ≡ some (k, t))
      × (t ≤ b)
      × Below t m
      × (((k ≡ bk) × (t ≡ b)) ⊎ Holds k t m)
unfolding soonest lookup
soonest-some bk b [] d = (bk, b, refl, omega arith, tt, inl (refl, refl))
soonest-some bk b ((j, e) ∷ m) d = elim (Bool-cases (ltb e.expires b)) [
  | inl less ↦
      let (k, t, found, le, below, from) = soonest-some j e.expires m d.1 in
      let here : Holds k t ((j, e) ∷ m) = elim from [
        | inl (same, at) ↦ (e, ground (arith, key_eq.beq_iff j k), sym at)
        | inr later ↦ Holds-cons k j t e m d.0 later
      ] in
      (k, t, rw less found, ground arith, (le, below), inr here)
  | inr more ↦
      let (k, t, found, le, below, from) = soonest-some bk b m d.1 in
      let here : ((k ≡ bk) × (t ≡ b)) ⊎ Holds k t ((j, e) ∷ m) = elim from [
        | inl old ↦ inl old
        | inr later ↦ inr (Holds-cons k j t e m d.0 later)
      ] in
      (k, t, rw more found, le, (ground arith, below), here)
]

-- In a shard with an entry the search finds the key of one that expires no later than any other.
soonest_lem :
    (m : Map Key Entry)
    → Distinct m
    → m ≢ []
    → (k : Key) × (t : ℕ) × (soonest none m ≡ some (k, t)) × Below t m × Holds k t m
unfolding soonest lookup
soonest_lem [] d h = absurd (h refl)
soonest_lem ((j, e) ∷ m) d h =
    let (k, t, found, le, below, from) = soonest-some j e.expires m d.1 in
    let here : Holds k t ((j, e) ∷ m) = elim from [
      | inl (same, at) ↦ (e, ground (arith, key_eq.beq_iff j k), sym at)
      | inr later ↦ Holds-cons k j t e m d.0 later
    ] in
    (k, t, found, (le, below), here)

-- Set makes room where the shard is full and the key is new, by dropping one entry that expires
-- no later than any other.
pub make_room-full :
    (k : Key) (limit : ℕ) (m : Map Key Entry)
    → Distinct m
    → 0 < limit
    → limit ≤ length m
    → has k m ≡ false
    → (victim : Key) × (e : Entry) × (make_room k limit m ≡ remove victim m)
      × (lookup victim m ≡ some e)
      × Below e.expires m
unfolding make_room
make_room-full k limit m d pos full new =
    let (victim, t, found, below, here) =
      soonest_lem m d (λ (p : m ≡ []). absurd (omega (arith, ap length p))) in
    let (e, at, same) = here in
    (victim, e, ground arith, at, subst (λ x. Below x m) (sym same) below)

-- In every other case it leaves the shard's entries alone.
pub make_room-rest :
    (k : Key) (limit : ℕ) (m : Map Key Entry)
    → (limit ≡ 0) ⊎ (length m < limit) ⊎ (has k m ≡ true)
    → make_room k limit m ≡ m
unfolding make_room
make_room-rest k limit m h = ground arith

pub make_room-fits :
    (k : Key) (limit : ℕ) (m : Map Key Entry) (e : Entry)
    → Distinct m
    → (0 < limit → length m ≤ limit)
    → 0 < limit
    → length (insert k e (make_room k limit m)) ≤ limit
make_room-fits k limit m e d fits pos = elim (Bool-cases (has k m)) [
  | inl old ↦ rw (make_room-rest k limit m (inr (inr old)), length-insert k e m, old) (fits pos)
  | inr new ↦ elim (Bool-cases (leb limit (length m))) [
    | inl full ↦
        let (victim, _, out, at, _) = make_room-full k limit m d pos (ground arith) new in
        rw out (
          ground (
            arith,
            length-insert k e (remove victim m),
            length-remove-has victim m,
            has_of_lookup victim m _ at,
          ))
    | inr room ↦
        rw (make_room-rest k limit m (inr (inl (ground arith))), length-insert k e m, new)
          (ground arith)
  ]
]
