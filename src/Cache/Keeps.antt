-- ===== src/Cache/Keeps.antt =====
-- Each call keeps a cache well formed, and its limit.
use native.Mathlib.Nat.{le_trans}
use km_resolv.Prelude.{
  not, ◌||◌, ◌⊎◌, length-map, codes, list_eq, subst, sym, ℕ, ◌≤◌, ◌≡◌, refl, Bool, true, Bool-cases,
  Option-cases, inl, inr, some, List, [], ◌∷◌, ◌∙◌, map, arith, ◌==◌, nat_eq, Text, All, Map,
  Distinct, insert, has, length-insert, Distinct-insert, Distinct-select, length-select-le, lookup,
  has_of_lookup, ltb,
}
use km_resolv.Dns.{Message}
use km_resolv.Cache.Hash.{Key, key_eq}
use km_resolv.Cache.{
  Entry, Shard, Cache, shard, put_shard, get, put, set_negative, wants_prefetch, settled,
}
use km_resolv.Cache.Bounds.{IsBounded, IsValid, IsBounded-shard, IsValid-put_shard, put-IsValid}
use km_resolv.Cache.Sweep.{drop_expired, evict_shard, flush_shard}
use km_resolv.Cache.Swept.{Distinct-sweep, length-sweep-le}

-- The limit is the one that SetMaxSize has set: no call changes it.
pub record Keeps (c c' : Cache) : Type 0 where
  pub valid : IsValid c'
  pub limit : c'.max_per_shard ≡ c.max_per_shard

-- Get changes at most the flag of the entry that it has found.
get-state :
    (k : Key) (enabled : Bool) (now : ℕ) (c : Cache)
    → ((get k enabled now c).0 ≡ c)
      ⊎ ((e : Entry) × (lookup k (shard k c).entries ≡ some e)
          × ((get k enabled now c).0
              ≡ put_shard k
                  (record (shard k c) {
                    entries = insert k (record e { prefetching = true }) (shard k c).entries;
                  })
                  c))
unfolding get
get-state k enabled now c = elim (Option-cases (lookup k (shard k c).entries)) [
  | inl miss ↦ inl (ground arith)
  | inr (e, found) ↦ elim (Bool-cases (ltb e.expires now || not (wants_prefetch enabled now c e))) [
    | inl still ↦ inl (ground arith)
    | inr starts ↦ inr (e, found, ground arith)
  ]
]

pub get-Keeps :
    (k : Key) (enabled : Bool) (now : ℕ) (c : Cache) → IsValid c → Keeps c (get k enabled now c).0
get-Keeps k enabled now c v = elim (get-state k enabled now c) [
  | inl same ↦ rw same (record { valid = v; limit = refl })
  | inr (e, found, changed) ↦
      let b = IsBounded-shard k c v in
      rw changed (record {
        valid = IsValid-put_shard k _ c v (record {
          entries_distinct = Distinct-insert k _ _ b.entries_distinct;
          negative_distinct = b.negative_distinct;
          fits = λ pos. ground (
            arith,
            b.fits pos,
            length-insert k (record e { prefetching = true }) (shard k c).entries,
            has_of_lookup k (shard k c).entries e found,
          );
        });
        limit = unfold put_shard in refl;
      })
]

pub put-Keeps : (k : Key) (m : Message) (now : ℕ) (c : Cache) → IsValid c → Keeps c (put k m now c)
unfolding put put_shard
put-Keeps k m now c v = record { valid = put-IsValid k m now c v; limit = ground arith }

pub set_negative-Keeps :
    (k : Key) (ttl now : ℕ) (c : Cache) → IsValid c → Keeps c (set_negative k ttl now c)
unfolding set_negative
set_negative-Keeps k ttl now c v = record {
  valid = IsValid-put_shard k _ c v (record {
    entries_distinct = b.entries_distinct;
    negative_distinct = Distinct-insert k _ _ b.negative_distinct;
    fits = b.fits;
  });
  limit = unfold put_shard in refl;
}
  where
    b : IsBounded c.max_per_shard (shard k c)
    b = IsBounded-shard k c v

-- A change of each shard that keeps the bounds of each.
map-IsBounded :
    (limit : ℕ) (f : Shard → Shard) (shards : List Shard)
    → ((s : Shard) → IsBounded limit s → IsBounded limit (f s))
    → All (IsBounded limit) shards
    → All (IsBounded limit) (map f shards)
map-IsBounded limit f [] keep b = tt
map-IsBounded limit f (s ∷ shards) keep b = (keep s b.0, map-IsBounded limit f shards keep b.1)

pub evict_shard-IsBounded :
    (limit now : ℕ) (s : Shard) → IsBounded limit s → IsBounded limit (evict_shard now s)
unfolding evict_shard
evict_shard-IsBounded limit now s b = record {
  entries_distinct = Distinct-sweep (λ e. e.expires) now s.entries b.entries_distinct;
  negative_distinct = Distinct-sweep (λ t. t) now s.negative b.negative_distinct;
  fits = λ pos. omega (arith, b.fits pos, length-sweep-le (λ (e : Entry). e.expires) now s.entries);
}

pub drop_expired-IsBounded :
    (limit : ℕ) (mode : Text) (now : ℕ) (s : Shard)
    → IsBounded limit s
    → IsBounded limit (flush_shard mode now s)
unfolding flush_shard drop_expired
drop_expired-IsBounded limit mode now s b = elim (Bool-cases (mode == codes "negative")) [
  | inl negative ↦
      rw negative
        (record { entries_distinct = b.entries_distinct; negative_distinct = tt; fits = b.fits })
  | inr other ↦ elim (Bool-cases (mode == codes "expired")) [
    | inl expired ↦
        rw (other, expired)
          (record {
            entries_distinct = Distinct-select _ s.entries b.entries_distinct;
            negative_distinct = Distinct-select _ s.negative b.negative_distinct;
            fits = λ pos. le_trans (length-select-le _ s.entries) (b.fits pos);
          })
    | inr all ↦
        rw (other, all)
          (record { entries_distinct = tt; negative_distinct = tt; fits = λ pos. omega arith })
  ]
]

pub map_shards-Keeps :
    (f : Shard → Shard) (c : Cache)
    → ((s : Shard) → IsBounded c.max_per_shard s → IsBounded c.max_per_shard (f s))
    → IsValid c
    → Keeps c (record c { shards = map f c.shards })
map_shards-Keeps f c keep v = record {
  valid = record {
    shards = length-map f c.shards ∙ v.shards;
    bounded = map-IsBounded c.max_per_shard f c.shards keep v.bounded;
  };
  limit = refl;
}

-- Clearing flags changes no key.
has-settled : (id : ℕ) (k : Key) (m : Map Key Entry) → has k (map (settled id) m) ≡ has k m
unfolding has
has-settled id k [] = refl
has-settled id k ((j, e) ∷ m) = rw (has-settled id k m)

Distinct-settled : (id : ℕ) (m : Map Key Entry) → Distinct m → Distinct (map (settled id) m)
Distinct-settled id [] d = tt
Distinct-settled id ((j, e) ∷ m) d = (has-settled id j m ∙ d.0, Distinct-settled id m d.1)

pub settle-Keeps :
    (k : Key) (id : ℕ) (c : Cache)
    → IsValid c
    → Keeps c
        (put_shard k (record (shard k c) { entries = map (settled id) (shard k c).entries }) c)
settle-Keeps k id c v = record {
  valid = IsValid-put_shard k _ c v (record {
    entries_distinct = Distinct-settled id _ b.entries_distinct;
    negative_distinct = b.negative_distinct;
    fits = λ pos.
        subst (λ n. n ≤ c.max_per_shard) (sym (length-map (settled id) (shard k c).entries))
          (b.fits pos);
  });
  limit = unfold put_shard in refl;
}
  where
    b : IsBounded c.max_per_shard (shard k c)
    b = IsBounded-shard k c v

pub Keeps-trans : {a b c : Cache} → Keeps a b → Keeps b c → Keeps a c
Keeps-trans x y = record { valid = y.valid; limit = y.limit ∙ x.limit }
