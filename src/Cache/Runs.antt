-- ===== src/Cache/Runs.antt =====
-- The cache over any sequence of calls, from a fresh one.
use km_resolv.Prelude.{
  list_eq, ℕ, ◌+◌, ◌*◌, ◌/◌, ◌≤◌, ◌<◌, ◌≡◌, refl, Bool, Option, none, some, List, [], ◌∷◌, ◌∙◌, ap,
  arith, nat_eq, Text, length, All,
}
use km_resolv.Dns.{Message}
use km_resolv.Cache.Hash.{Key, key_eq}
use km_resolv.Cache.{Shard, Cache, get, put, set_negative, finish_prefetch, set_max_size, new_cache}
use km_resolv.Cache.Bounds.{IsBounded, IsValid, new_cache-IsValid}
use km_resolv.Cache.Sweep.{evict_shard, evict_all, flush_shard, flush, total, size}
use km_resolv.Cache.Keeps.{
  Keeps, get-Keeps, put-Keeps, set_negative-Keeps, evict_shard-IsBounded, drop_expired-IsBounded,
  map_shards-Keeps, settle-Keeps, Keeps-trans,
}

-- The calls that change a cache, with the time of each.
pub data Call : Type 0 where
  get_call : Key → Bool → ℕ → Call
  set_call : Key → Message → ℕ → Call
  negative_call : Key → ℕ → ℕ → Call
  prefetched : Key → ℕ → Option Message → ℕ → Call
  tick : ℕ → Call
  flush_call : Text → ℕ → Call

unfoldable pub step : Cache → Call → Cache
step c (get_call k enabled now) = (get k enabled now c).0
step c (set_call k m now) = put k m now c
step c (negative_call k ttl now) = set_negative k ttl now c
step c (prefetched k id result now) = finish_prefetch k id result now c
step c (tick now) = evict_all now c
step c (flush_call mode now) = flush mode now c

unfoldable pub run : List Call → Cache → Cache
run [] c = c
run (call ∷ calls) c = run calls (step c call)

pub step-Keeps : (c : Cache) (call : Call) → IsValid c → Keeps c (step c call)
unfolding step
step-Keeps c (get_call k enabled now) v = get-Keeps k enabled now c v
step-Keeps c (set_call k m now) v = put-Keeps k m now c v
step-Keeps c (negative_call k ttl now) v = set_negative-Keeps k ttl now c v
step-Keeps c (prefetched k id none now) v = unfold finish_prefetch in settle-Keeps k id c v
step-Keeps c (prefetched k id (some m) now) v =
    let stored = put-Keeps k m now c v in
    unfold finish_prefetch in Keeps-trans stored (settle-Keeps k id (put k m now c) stored.valid)
step-Keeps c (tick now) v =
    unfold evict_all in
    map_shards-Keeps (evict_shard now) c (evict_shard-IsBounded c.max_per_shard now) v
step-Keeps c (flush_call mode now) v =
    unfold flush in
    map_shards-Keeps (flush_shard mode now) c (drop_expired-IsBounded c.max_per_shard mode now) v

run-Keeps : (calls : List Call) (c : Cache) → IsValid c → Keeps c (run calls c)
unfolding run
run-Keeps [] c v = record { valid = v; limit = refl }
run-Keeps (call ∷ calls) c v =
    let first = step-Keeps c call v in Keeps-trans first (run-Keeps calls (step c call) first.valid)

total-le :
    (limit : ℕ) (shards : List Shard)
    → 0 < limit
    → All (IsBounded limit) shards
    → total shards ≤ limit * length shards
unfolding total
total-le limit [] pos b = omega arith
total-le limit (s ∷ shards) pos b = grind (arith, b.0.fits pos, total-le limit shards pos b.1)

max_per_shard-set_max_size :
    (n : ℕ) (c : Cache) → 0 < n → (set_max_size n c).max_per_shard ≡ (n + 63) / 64
unfolding set_max_size
max_per_shard-set_max_size n c pos = ground arith

-- Whatever the calls and their times, a cache that SetMaxSize has limited to `n` entries, with `n`
-- above 0, never holds more than `n + 63`, and no key twice in a shard.
pub size-run-le :
    (calls : List Call) (n : ℕ)
    → 0 < n
    → (size (run calls (set_max_size n new_cache)) ≤ n + 63)
      × IsValid (run calls (set_max_size n new_cache))
unfolding size
size-run-le calls n pos =
    let c = set_max_size n new_cache in
    let kept = run-Keeps calls c (new_cache-IsValid n) in
    let at : (run calls c).max_per_shard ≡ (n + 63) / 64 =
      kept.limit ∙ max_per_shard-set_max_size n new_cache pos in
    (
      omega (
        arith,
        at,
        total-le (run calls c).max_per_shard (run calls c).shards (omega (arith, at))
            kept.valid.bounded,
        ap (λ (k : ℕ). (run calls c).max_per_shard * k) kept.valid.shards,
      ),
      kept.valid,
    )
