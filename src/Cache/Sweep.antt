-- ===== src/Cache/Sweep.antt =====
-- evictShard, evictLoop, Size, NegativeSize and Flush of internal/cache/cache.go.
use km_resolv.Prelude.{
  ℕ, zero, suc, ◌+◌, not, none, some, List, [], ◌∷◌, map, Text, codes, ◌==◌, nat_eq, list_eq,
  length, take, drop, select, if◌then◌else◌, Map, lookup, remove,
}
use km_resolv.Cache.Hash.{Key, key_eq}
use km_resolv.Cache.{Shard, Cache, after}

abbrev pub evict_batch : ℕ
evict_batch = 64

-- A map of a shard, and how its values tell when they expire.
module _ {V : Type 0} (expiry : V → ℕ) (now : ℕ) where
  -- The keys that the scan under the read lock collects.
  unfoldable pub dead_keys : Map Key V → List Key
  dead_keys [] = []
  dead_keys ((k, v) ∷ m) = let rest = dead_keys m in if after now (expiry v) then k ∷ rest else rest

  -- One batch under the write lock: each key is looked up and its expiry tested again.
  unfoldable pub delete_batch : List Key → Map Key V → Map Key V
  delete_batch [] m = m
  delete_batch (k ∷ ks) m =
      let m' : Map Key V = elim (lookup k m) [
        | none ↦ m
        | some v ↦ if after now (expiry v) then remove k m else m
      ] in
      delete_batch ks m'

  -- The loop over the batches, a round for each unit of fuel.
  unfoldable pub delete_batches : ℕ → List Key → Map Key V → Map Key V
  delete_batches zero dead m = m
  delete_batches (suc fuel) dead m =
      let rest =
        delete_batches fuel (drop evict_batch dead) (delete_batch (take evict_batch dead) m) in
      if length dead == 0 then m else rest

  -- The scan and the batches. A batch takes a key at least, so the keys are rounds enough.
  unfoldable pub sweep : Map Key V → Map Key V
  sweep m = delete_batches (length (dead_keys m)) (dead_keys m) m

  -- The deletions of Flush("expired"), in the iteration itself.
  unfoldable pub drop_expired : Map Key V → Map Key V
  drop_expired m = select (λ e. not (after now (expiry e.1))) m

unfoldable pub evict_shard : ℕ → Shard → Shard
evict_shard now s = record {
  entries = sweep (λ e. e.expires) now s.entries;
  negative = sweep (λ t. t) now s.negative;
}

-- One tick of evictLoop.
unfoldable pub evict_all : ℕ → Cache → Cache
evict_all now c = record c { shards = map (evict_shard now) c.shards }

unfoldable pub flush_shard : Text → ℕ → Shard → Shard
flush_shard mode now s =
    if mode == codes "negative"
    then record s { negative = [] }
    else if mode == codes "expired"
    then record {
      entries = drop_expired (λ e. e.expires) now s.entries;
      negative = drop_expired (λ t. t) now s.negative;
    }
    else record { entries = []; negative = [] }

unfoldable pub flush : Text → ℕ → Cache → Cache
flush mode now c = record c { shards = map (flush_shard mode now) c.shards }

unfoldable pub total : List Shard → ℕ
total [] = 0
total (s ∷ shards) = length s.entries + total shards

unfoldable pub total_negative : List Shard → ℕ
total_negative [] = 0
total_negative (s ∷ shards) = length s.negative + total_negative shards

unfoldable pub size : Cache → ℕ
size c = total c.shards

unfoldable pub negative_size : Cache → ℕ
negative_size c = total_negative c.shards

-- To run the functions above in a test.
unfoldable pub program : Unit {0}
unfolding lookup remove dead_keys delete_batch delete_batches sweep drop_expired evict_shard
    evict_all flush_shard flush total total_negative size negative_size
program = tt
