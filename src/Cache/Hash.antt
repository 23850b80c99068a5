-- ===== src/Cache/Hash.antt =====
-- cacheKey and the hash that chooses its shard: shardIdx of internal/cache/cache.go.
use km_resolv.Prelude.{
  ℕ, ◌*◌, ◌%◌, ◌^◌, ◌≡◌, refl, [], ◌∷◌, Text, codes, Eq, nat_eq, list_eq, pair_eq,
}
use Prim.Native.Nat.{bit_xor}

-- the name and the query type
abbrev pub Key : Type 0
Key = Text × ℕ

instance unfoldable pub key_eq : Eq Key
key_eq = pair_eq

abbrev pub num_shards : ℕ
num_shards = 64

abbrev pub u32_mod : ℕ
u32_mod = 2 ^ 32

-- h ^= b; h *= 16777619
unfoldable pub fnv_byte : ℕ → ℕ → ℕ
fnv_byte h b = bit_xor h b * 16777619 % u32_mod

unfoldable pub fnv : ℕ → Text → ℕ
unfolding fnv_byte
fnv h [] = h
fnv h (b ∷ s) = fnv (fnv_byte h b) s

-- h & (numShards - 1) is the remainder by 64
unfoldable pub shard_idx : Key → ℕ
unfolding fnv fnv_byte
shard_idx k = fnv_byte (fnv 2166136261 k.0) k.1 % num_shards

test : shard_idx (codes "a.b", 1) ≡ 55
unfolding shard_idx
test = refl
