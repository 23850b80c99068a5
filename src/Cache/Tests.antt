-- ===== src/Cache/Tests.antt =====
-- Runs of the cache's functions, and the theorems about them at concrete caches.
use km_resolv.Prelude.{
  ℕ, ◌+◌, ◌*◌, ◌≤◌, ◌≡◌, ◌⊎◌, refl, true, false, none, some, List, [], ◌∷◌, codes, arith, length,
  has, nat_eq, list_eq, eqb, if◌then◌else◌,
}
use km_resolv.Dns.{Message, empty_message}
use km_resolv.Cache.Hash.{Key, key_eq}
use km_resolv.Cache.{
  program, Entry, Cache, second, after, new_cache, set_max_size, set_prefetch_fn, shard, get, put,
  is_negative, life, elapsed_secs, clone_message_with_decremented_ttl,
}
use km_resolv.Cache.Sweep.{size, evict_all}
use km_resolv.Cache.Bounds.{IsValid, new_cache-IsValid}
use km_resolv.Cache.Evict.{Below}
use km_resolv.Cache.Reads.{entry_of, get-put, get-put_ne}
use km_resolv.Cache.Aged.{starts, starts-get}
use km_resolv.Cache.Runs.{Call, run, size-run-le}
use km_resolv.Cache.Flushed.{evict_invisible}

abbrev k1 : Key
k1 = (codes "a.b", 1)

abbrev k2 : Key
k2 = (codes "c.d", 1)

abbrev answer : ℕ → Message
answer ttl = record empty_message {
  answers =
      record {
        name = codes "a.b";
        type = 1;
        class = 1;
        ttl = ttl;
        rdata = 10 ∷ 0 ∷ 0 ∷ 1 ∷ [];
        offset = 0;
      }
      ∷ [];
}

-- A cache of 64 entries, one for each shard.
abbrev small : Cache
small = set_max_size 64 new_cache

abbrev asked : Cache
asked = put k1 (answer 30) 0 (set_prefetch_fn small)

get-put_example : (get k1 false (31 * second) (put k1 (answer 30) 0 small)).1 ≡ (
    if eqb (life (answer 30) small) 0
    then (get k1 false (31 * second) small).1
    else if after (31 * second) (0 + life (answer 30) small * second)
    then none
    else some (clone_message_with_decremented_ttl (answer 30) (elapsed_secs (31 * second) 0)))
get-put_example = get-put k1 (answer 30) false 0 (31 * second) small (new_cache-IsValid 64).shards

get-put_ne_example :
    ((get k2 false 5 (put k1 (answer 30) 0 small)).1 ≡ (get k2 false 5 small).1)
    ⊎ ((e : Entry) × (entry_of k2 small ≡ some e)
        × (small.max_per_shard ≤ length (shard k1 small).entries)
        × (has k1 (shard k1 small).entries ≡ false)
        × Below e.expires (shard k1 small).entries)
get-put_ne_example =
    get-put_ne k1 k2 (answer 30) false 0 5 small (new_cache-IsValid 64) (λ e. ground (arith, e))

asked-HasShards : length asked.shards ≡ 64
unfolding program
asked-HasShards = refl

started : (get k1 true (28 * second) asked).2 ≡ some 0
unfolding program
started = refl

starts-get_example :
    starts k1
      ((k1, true, 29 * second) ∷ (k2, true, 29 * second) ∷ (k1, true, 29 * second) ∷ [])
      (get k1 true (28 * second) asked).0
    ≡ []
starts-get_example =
    starts-get k1 true (28 * second) 0
      ((k1, true, 29 * second) ∷ (k2, true, 29 * second) ∷ (k1, true, 29 * second) ∷ []) asked
      asked-HasShards started

abbrev calls : List Call
calls =
    Call.set_call k1 (answer 30) 0
    ∷ Call.get_call k1 true (28 * second)
    ∷ Call.negative_call k2 60 4
    ∷ Call.tick (29 * second)
    ∷ Call.flush_call (codes "expired") (40 * second)
    ∷ []

size-run-le_example :
    (size (run calls (set_max_size 64 new_cache)) ≤ 64 + 63)
    × IsValid (run calls (set_max_size 64 new_cache))
size-run-le_example = size-run-le calls 64 (omega arith)

evict_invisible_example :
    ((get k1 false (7 * second) (evict_all second asked)).1 ≡ (get k1 false (7 * second) asked).1)
    × (is_negative k1 (7 * second) (evict_all second asked) ≡ is_negative k1 (7 * second) asked)
evict_invisible_example = evict_invisible k1 false second (7 * second) asked (omega arith)
