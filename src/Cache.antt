-- ===== src/Cache.antt =====
-- internal/cache/cache.go: the sharded response cache. A time is a number of nanoseconds; a call
-- reads the clock once, as its argument `now`. An entry's `id` stands for the pointer to it, which
-- a prefetch in flight still holds after the entry has been replaced.
pub mod Hash
pub mod Shards
pub mod Reads
pub mod Aged
pub mod Evict
pub mod Bounds
pub mod Sweep
pub mod Swept
pub mod Keeps
pub mod Runs
pub mod Flushed
mod Tests
use km_resolv.Prelude.{
  ℕ, zero, suc, ◌+◌, ◌-◌, ◌*◌, ◌/◌, ◌%◌, ◌^◌, ◌≡◌, refl, Bool, true, false, not, ◌&&◌, ◌||◌, Option,
  none, some, List, [], ◌∷◌, ◌++◌, map, Text, codes, ◌==◌, nat_eq, ltb, leb, not_zero, length,
  get_or, set, replicate, select, if◌then◌else◌, Map, keys, lookup, insert, remove, has,
}
use km_resolv.Dns.{Rr, Message}
use Hash.{Key, key_eq, num_shards, u32_mod, shard_idx}

pub record Entry : Type 0 where
  pub id : ℕ
  pub msg : Message
  pub expires : ℕ
  pub cached : ℕ
  pub prefetching : Bool

pub record Shard : Type 0 where
  pub entries : Map Key Entry
  pub negative : Map Key ℕ

pub record Cache : Type 0 where
  pub shards : List Shard
  pub prefetch_fn : Bool
  pub min_ttl : ℕ
  pub max_per_shard : ℕ
  pub next_id : ℕ

abbrev pub second : ℕ
second = 1000000000

abbrev pub empty_shard : Shard
empty_shard = record { entries = []; negative = [] }

-- NewCache; the goroutine of evictLoop is `evict_all` at each tick
unfoldable pub new_cache : Cache
new_cache = record {
  shards = replicate num_shards empty_shard;
  prefetch_fn = false;
  min_ttl = 0;
  max_per_shard = 0;
  next_id = 0;
}

unfoldable pub set_min_ttl : ℕ → Cache → Cache
set_min_ttl n c = record c { min_ttl = n % u32_mod }

-- `n` is the int of the source where that is positive, and 0 where it is not
unfoldable pub set_max_size : ℕ → Cache → Cache
set_max_size n c = record c {
  max_per_shard = if ltb 0 n then (n + num_shards - 1) / num_shards else 0;
}

unfoldable pub set_prefetch_fn : Cache → Cache
set_prefetch_fn c = record c { prefetch_fn = true }

unfoldable pub shard : Key → Cache → Shard
shard k c = get_or c.shards (shard_idx k) empty_shard

-- the write of a shard that an operation has changed
unfoldable pub put_shard : Key → Shard → Cache → Cache
put_shard k s c = record c { shards = set c.shards (shard_idx k) s }

-- now.After(expires)
abbrev pub after : ℕ → ℕ → Bool
after now expires = ltb expires now

-- now.Add(d) for a time.Duration, an int64 by its bits
unfoldable pub add_duration : ℕ → ℕ → ℕ
add_duration now d = if ltb d (2 ^ 63) then now + d else now - (2 ^ 64 - d)

-- SetNegative; the int `ttl` is given by its 64 bits
unfoldable pub set_negative : Key → ℕ → ℕ → Cache → Cache
set_negative k ttl now c =
    let ttl' = if ttl == 0 then 300 else ttl in
    let s = shard k c in
    put_shard k
      (record s { negative = insert k (add_duration now (ttl' * second % 2 ^ 64)) s.negative }) c

unfoldable pub is_negative : Key → ℕ → Cache → Bool
is_negative k now c = elim (lookup k (shard k c).negative) [
  | none ↦ false
  | some expires ↦ ltb now expires
]

unfoldable pub decrement_rr : ℕ → Rr → Rr
decrement_rr elapsed rr = record rr { ttl = if ltb elapsed rr.ttl then rr.ttl - elapsed else 0 }

unfoldable pub decrement_rrs : List Rr → ℕ → List Rr
decrement_rrs rrs elapsed = map (decrement_rr elapsed) rrs

unfoldable pub clone_message_with_decremented_ttl : Message → ℕ → Message
clone_message_with_decremented_ttl m elapsed = if elapsed == 0 then m else record m {
  answers = decrement_rrs m.answers elapsed;
  authority = decrement_rrs m.authority elapsed;
  additional = decrement_rrs m.additional elapsed;
}

-- uint32(time.Since(cached).Seconds())
abbrev pub elapsed_secs : ℕ → ℕ → ℕ
elapsed_secs now cached = (now - cached) / second % u32_mod

-- The guard of a prefetch, the compare-and-swap included: it is asked for, less than a tenth of
-- the entry's life remains, and no other one is under way.
unfoldable pub wants_prefetch : Bool → ℕ → Cache → Entry → Bool
wants_prefetch enabled now c e =
    enabled
    && c.prefetch_fn
    && ltb (e.expires - now) ((e.expires - e.cached) / 10)
    && not e.prefetching

-- Get: the cache, the message, and the id of the entry whose prefetch was started. `enabled` is
-- cfg.Resolver.Cache.Prefetch.
unfoldable pub get : Key → Bool → ℕ → Cache → Cache × Option Message × Option ℕ
get k enabled now c =
    let s = shard k c in
    elim (lookup k s.entries) [
      | none ↦ (c, none, none)
      | some e ↦
          if after now e.expires
          then (c, none, none)
          else (let m = clone_message_with_decremented_ttl e.msg (elapsed_secs now e.cached) in
              if wants_prefetch enabled now c e
              then (
                put_shard k
                    (record s { entries = insert k (record e { prefetching = true }) s.entries }) c,
                some m,
                some e.id,
              )
              else (c, some m, none))
    ]

-- the loop of lowestTTL
unfoldable pub lowest : ℕ → List Rr → ℕ
lowest least [] = least
lowest least (rr ∷ rrs) = lowest (if ltb rr.ttl least then rr.ttl else least) rrs

unfoldable pub lowest_ttl : Message → ℕ
lowest_ttl m =
    let least = lowest (u32_mod - 1) m.answers in if least == u32_mod - 1 then 0 else least

-- The loop that looks for the key to evict: `earliest` and `evictKey`, none before the first
-- entry. (No entry expires at Go's zero time.)
unfoldable pub soonest : Option (Key × ℕ) → Map Key Entry → Option (Key × ℕ)
soonest best [] = best
soonest none ((k, e) ∷ m) = soonest (some (k, e.expires)) m
soonest (some (bk, b)) ((k, e) ∷ m) =
    soonest (if ltb e.expires b then some (k, e.expires) else some (bk, b)) m

-- the room that Set makes in a full shard
unfoldable pub make_room : Key → ℕ → Map Key Entry → Map Key Entry
make_room k limit m =
    if ltb 0 limit && leb limit (length m) && not (has k m)
    then elim (soonest none m) [ none ↦ m | some (victim, _) ↦ remove victim m ]
    else m

-- the life that Set gives an entry: 0 where it stores none
unfoldable pub life : Message → Cache → ℕ
life m c =
    let ttl = lowest_ttl m in
    if ttl == 0 then 0 else if ltb 0 c.min_ttl && ltb ttl c.min_ttl then c.min_ttl else ttl

-- the entry that Set stores
unfoldable pub fresh : Message → ℕ → Cache → Entry
fresh m now c = record {
  id = c.next_id;
  msg = m;
  expires = now + life m c * second;
  cached = now;
  prefetching = false;
}

-- Set
unfoldable pub put : Key → Message → ℕ → Cache → Cache
put k m now c =
    let s = shard k c in
    let entries' = insert k (fresh m now c) (make_room k c.max_per_shard s.entries) in
    if life m c == 0
    then c
    else put_shard k (record s { entries = entries' }) (record c { next_id = c.next_id + 1 })

-- e.prefetching.Store(false), seen by the map where the entry is still there
abbrev pub settled : ℕ → Key × Entry → Key × Entry
settled id (k, e) = (k, if e.id == id then record e { prefetching = false } else e)

-- The end of the goroutine that Get starts: Set where the upstream answered, then the deferred
-- reset of the flag.
unfoldable pub finish_prefetch : Key → ℕ → Option Message → ℕ → Cache → Cache
finish_prefetch k id result now c =
    let c' : Cache = elim result [ none ↦ c | some m ↦ put k m now c ] in
    let s = shard k c' in put_shard k (record s { entries = map (settled id) s.entries }) c'

-- To run the functions above in a test.
unfoldable pub program : Unit {0}
unfolding lookup insert remove has shard_idx key_eq new_cache set_min_ttl set_max_size
    set_prefetch_fn shard put_shard add_duration set_negative is_negative decrement_rr decrement_rrs
    clone_message_with_decremented_ttl wants_prefetch get lowest lowest_ttl soonest make_room life
    fresh put finish_prefetch
program = tt
