-- ===== src/Cache/Shards.antt =====
-- The shards as one map: what is written under a key is read under it, and under no other key.
use km_resolv.Prelude.{
  ◌<◌, ◌≡◌, Bool-cases, inl, inr, arith, length, length-set, get_or-set_self, get_or-set_ne,
  if◌then◌else◌, eqb,
}
use km_resolv.Cache.Hash.{Key, num_shards, shard_idx}
use km_resolv.Cache.{Shard, Cache, empty_shard, shard, put_shard}

-- A cache has its 64 shards.
abbrev pub HasShards : Cache → Type 0
HasShards c = length c.shards ≡ num_shards

shard_idx-lt : (k : Key) → shard_idx k < 64
unfolding shard_idx
shard_idx-lt k = omega arith

pub shard-put_shard_self :
    (k : Key) (s : Shard) (c : Cache) → HasShards c → shard k (put_shard k s c) ≡ s
unfolding shard put_shard
shard-put_shard_self k s c h =
    get_or-set_self c.shards (shard_idx k) s empty_shard (omega (arith, shard_idx-lt k))

-- A write of a shard is seen by the keys of that shard alone.
pub shard-put_shard :
    (k j : Key) (s : Shard) (c : Cache)
    → HasShards c
    → shard j (put_shard k s c) ≡ (if eqb (shard_idx k) (shard_idx j) then s else shard j c)
unfolding shard put_shard
shard-put_shard k j s c h = elim (Bool-cases (eqb (shard_idx k) (shard_idx j))) [
  | inl same ↦ ground (arith, get_or-set_self c.shards (shard_idx k) s empty_shard, shard_idx-lt k)
  | inr other ↦
      rw other (get_or-set_ne c.shards (shard_idx k) (shard_idx j) s empty_shard (ground arith))
]

pub put_shard-HasShards :
    (k : Key) (s : Shard) (c : Cache) → HasShards c → HasShards (put_shard k s c)
unfolding put_shard
put_shard-HasShards k s c h = omega (arith, length-set c.shards (shard_idx k) s)
