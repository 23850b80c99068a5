-- ===== src/Cache/Flushed.antt =====
-- What a reader sees of evictions and flushes.
use km_resolv.Prelude.{
  ◌||◌, ℕ, ◌≤◌, ◌≡◌, ◌∙◌, refl, ap, sym, Bool, false, Bool-cases, inl, inr, Option, none, some, [],
  map, arith, ◌==◌, nat_eq, list_eq, Text, codes, get_or, get_or-map, if◌then◌else◌, lookup, ltb,
}
use km_resolv.Cache.Hash.{Key, key_eq, shard_idx}
use km_resolv.Cache.{Entry, Shard, Cache, empty_shard, shard, is_negative, get}
use km_resolv.Cache.Bounds.{IsValid, IsBounded-shard}
use km_resolv.Cache.Sweep.{
  sweep, drop_expired, evict_shard, evict_all, flush_shard, flush, dead_keys, delete_batches,
}
use km_resolv.Cache.Swept.{live, lookup-sweep, lookup-drop_expired}
use km_resolv.Cache.Reads.{entry_of, served, get-eq-served}

shard-map :
    (f : Shard → Shard) (k : Key) (c : Cache)
    → f empty_shard ≡ empty_shard
    → shard k (record c { shards = map f c.shards }) ≡ f (shard k c)
unfolding shard
shard-map f k c e =
    ap (get_or (map f c.shards) (shard_idx k)) (sym e)
    ∙ get_or-map f c.shards (shard_idx k) empty_shard

evict_shard-empty : (now : ℕ) → evict_shard now empty_shard ≡ empty_shard
unfolding evict_shard sweep dead_keys delete_batches
evict_shard-empty now = refl

-- Entries that had expired before `now` are not served at `now`.
served-live :
    (tick now : ℕ) (o : Option Entry)
    → tick ≤ now
    → served now (live (λ e. e.expires) tick o) ≡ served now o
served-live tick now none le = refl
served-live tick now (some e) le = ground arith

-- The test of IsNegative, on what the map holds.
abbrev is_live : ℕ → Option ℕ → Bool
is_live now none = false
is_live now (some expires) = ltb now expires

is_live-live :
    (tick now : ℕ) (o : Option ℕ) → tick ≤ now → is_live now (live (λ t. t) tick o) ≡ is_live now o
is_live-live tick now none le = refl
is_live-live tick now (some t) le = ground arith

is_negative-eq :
    (k : Key) (now : ℕ) (c : Cache)
    → is_negative k now c ≡ is_live now (lookup k (shard k c).negative)
unfolding is_negative
is_negative-eq k now c = ground arith

entry_of-evict_all :
    (k : Key) (tick : ℕ) (c : Cache)
    → (entry_of k (evict_all tick c) ≡ live (λ e. e.expires) tick (entry_of k c))
      × (lookup k (shard k (evict_all tick c)).negative
          ≡ live (λ t. t) tick (lookup k (shard k c).negative))
unfolding evict_all entry_of
entry_of-evict_all k tick c = rw (shard-map (evict_shard tick) k c (evict_shard-empty tick)) (
    unfold evict_shard in
    (
      lookup-sweep (λ e. e.expires) tick k (shard k c).entries,
      lookup-sweep (λ t. t) tick k (shard k c).negative,
    ))

-- Neither Get nor IsNegative can tell that evictLoop has run: at a time that is not before the
-- tick they return what they would have returned without it.
pub evict_invisible :
    (k : Key) (enabled : Bool) (tick now : ℕ) (c : Cache)
    → tick ≤ now
    → ((get k enabled now (evict_all tick c)).1 ≡ (get k enabled now c).1)
      × (is_negative k now (evict_all tick c) ≡ is_negative k now c)
evict_invisible k enabled tick now c le =
    let (entries, negative) = entry_of-evict_all k tick c in
    (
      get-eq-served k enabled now (evict_all tick c)
          ∙ ap (served now) entries
          ∙ served-live tick now (entry_of k c) le
          ∙ sym (get-eq-served k enabled now c),
      is_negative-eq k now (evict_all tick c)
          ∙ ap (is_live now) negative
          ∙ is_live-live tick now (lookup k (shard k c).negative) le
          ∙ sym (is_negative-eq k now c),
    )

lookup-nil : (V : Type 0) (k : Key) → lookup {V = V} k [] ≡ none
unfolding lookup
lookup-nil V k = refl

entry_of-eq : (k : Key) (c : Cache) → entry_of k c ≡ lookup k (shard k c).entries
unfolding entry_of
entry_of-eq k c = refl

flush_shard-empty : (mode : Text) (now : ℕ) → flush_shard mode now empty_shard ≡ empty_shard
unfolding flush_shard drop_expired
flush_shard-empty mode now = ground arith

entry_of-flush :
    (k : Key) (mode : Text) (tick : ℕ) (c : Cache)
    → (entry_of k (flush mode tick c) ≡ lookup k (flush_shard mode tick (shard k c)).entries)
      × (lookup k (shard k (flush mode tick c)).negative
          ≡ lookup k (flush_shard mode tick (shard k c)).negative)
unfolding flush entry_of
entry_of-flush k mode tick c =
    rw (shard-map (flush_shard mode tick) k c (flush_shard-empty mode tick)) (refl, refl)

-- The three modes of Flush, to a reader at a time that is not before it: `negative` forgets the
-- negative answers alone, `expired` shows nothing, and every other mode forgets everything.
get-flush :
    (k : Key) (mode : Text) (enabled : Bool) (tick now : ℕ) (c : Cache)
    → IsValid c
    → tick ≤ now
    → let c' = flush mode tick c in
      ((get k enabled now c').1 ≡ (
        if mode == codes "negative" || mode == codes "expired"
        then (get k enabled now c).1
        else none))
      × (is_negative k now c' ≡ (
          if mode == codes "negative"
          then false
          else if mode == codes "expired"
          then is_negative k now c
          else false))
unfolding flush_shard
get-flush k mode enabled tick now c v le =
    let b = IsBounded-shard k c v in
    let (entries, negative) = entry_of-flush k mode tick c in
    let s = shard k c in
    let before = get-eq-served k enabled now c ∙ ap (served now) (entry_of-eq k c) in
    let read = get-eq-served k enabled now (flush mode tick c) ∙ ap (served now) entries in
    let read_negative = is_negative-eq k now (flush mode tick c) ∙ ap (is_live now) negative in
    elim (Bool-cases (mode == codes "negative")) [
      | inl e ↦
          rw (read, read_negative, e, flush_shard) (sym before, ap (is_live now) (lookup-nil ℕ k))
      | inr other ↦ elim (Bool-cases (mode == codes "expired")) [
        | inl e ↦
            rw
              (
                read,
                read_negative,
                other,
                e,
                lookup-drop_expired (λ (e : Entry). e.expires) tick k s.entries b.entries_distinct,
                lookup-drop_expired (λ (t : ℕ). t) tick k s.negative b.negative_distinct,
              )
              (
                served-live tick now (lookup k s.entries) le ∙ sym before,
                is_live-live tick now (lookup k s.negative) le ∙ sym (is_negative-eq k now c),
              )
        | inr all ↦
            rw (read, read_negative, other, all)
              (ap (served now) (lookup-nil Entry k), ap (is_live now) (lookup-nil ℕ k))
      ]
    ]
