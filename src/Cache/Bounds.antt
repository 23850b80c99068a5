-- ===== src/Cache/Bounds.antt =====
-- The invariant of the cache: its shards, no key twice, and the limit on a shard's entries.
use km_resolv.Prelude.{
  nat_eq, length-replicate, All-replicate, ◌&&◌, not, length-set, ℕ, ◌≤◌, ◌<◌, Bool-cases,
  Option-cases, inl, inr, none, arith, ◌==◌, length, All, All-set, All-get_or, Map, Distinct, has,
  Distinct-insert, Distinct-remove, ltb, leb,
}
use km_resolv.Dns.{Message}
use km_resolv.Cache.{
  Entry, Shard, Cache, empty_shard, shard, put_shard, soonest, make_room, life, put, set_max_size,
  new_cache,
}
use km_resolv.Cache.Hash.{Key, key_eq, num_shards, shard_idx}
use km_resolv.Cache.Shards.{HasShards}
use km_resolv.Cache.Evict.{make_room-fits}

-- No key stands twice in a shard, and the entries fit, if there is a limit.
pub record IsBounded (limit : ℕ) (s : Shard) : Type 0 where
  pub entries_distinct : Distinct s.entries
  pub negative_distinct : Distinct s.negative
  pub fits : 0 < limit → length s.entries ≤ limit

pub record IsValid (c : Cache) : Type 0 where
  pub shards : HasShards c
  pub bounded : All (IsBounded c.max_per_shard) c.shards

IsBounded-empty_shard : (limit : ℕ) → IsBounded limit empty_shard
IsBounded-empty_shard limit = record {
  entries_distinct = tt;
  negative_distinct = tt;
  fits = λ h. omega arith;
}

pub IsBounded-shard : (k : Key) (c : Cache) → IsValid c → IsBounded c.max_per_shard (shard k c)
unfolding shard
IsBounded-shard k c v =
    All-get_or (IsBounded c.max_per_shard) c.shards _ empty_shard v.bounded
      (IsBounded-empty_shard c.max_per_shard)

pub IsValid-put_shard :
    (k : Key) (s : Shard) (c : Cache)
    → IsValid c
    → IsBounded c.max_per_shard s
    → IsValid (put_shard k s c)
unfolding put_shard
IsValid-put_shard k s c v b = record {
  shards = omega (arith, v.shards, length-set c.shards (shard_idx k) s);
  bounded = All-set (IsBounded c.max_per_shard) c.shards (shard_idx k) s v.bounded b;
}

Distinct-make_room :
    (k : Key) (limit : ℕ) (m : Map Key Entry) → Distinct m → Distinct (make_room k limit m)
unfolding make_room
Distinct-make_room k limit m d =
    elim (Bool-cases (ltb 0 limit && leb limit (length m) && not (has k m))) [
      | inr stay ↦ rw stay d
      | inl full ↦ elim (Option-cases (soonest none m)) [
        | inl e ↦ rw (full, e) d
        | inr (v, e) ↦ rw (full, e) (Distinct-remove v.0 m d)
      ]
    ]

-- Set keeps the invariant: no key twice, and no shard above its limit.
pub put-IsValid :
    (k : Key) (m : Message) (now : ℕ) (c : Cache) → IsValid c → IsValid (put k m now c)
unfolding put
put-IsValid k m now c v = elim (Bool-cases (life m c == 0)) [
  | inl none_stored ↦ rw none_stored v
  | inr stored ↦
      let s = shard k c in
      let b = IsBounded-shard k c v in
      rw stored (
        IsValid-put_shard k _ _ (record { shards = v.shards; bounded = v.bounded })
          (record {
            entries_distinct =
                Distinct-insert k _ _
                  (Distinct-make_room k c.max_per_shard s.entries b.entries_distinct);
            negative_distinct = b.negative_distinct;
            fits = make_room-fits k c.max_per_shard s.entries _ b.entries_distinct b.fits;
          }))
]

-- A fresh cache is valid, whatever its limit is set to.
pub new_cache-IsValid : (n : ℕ) → IsValid (set_max_size n new_cache)
unfolding set_max_size new_cache
new_cache-IsValid n = record {
  shards = length-replicate num_shards empty_shard;
  bounded = All-replicate (IsBounded limit) num_shards empty_shard (IsBounded-empty_shard limit);
}
  where
    limit : ℕ
    limit = (set_max_size n new_cache).max_per_shard
