-- ===== src/Cache/Reads.antt =====
-- What Get returns after Set, SetNegative and the start of a prefetch.
use km_resolv.Prelude.{
  ◌||◌, eqb_iff, ◌⊎◌, ℕ, ◌+◌, ◌*◌, ◌≤◌, ◌<◌, ◌≡◌, ◌≢◌, refl, Bool, true, false, Bool-cases, inl,
  inr, Option, none, some, arith, ◌==◌, nat_eq, eqb, ltb, length, if◌then◌else◌, lookup, insert,
  remove, has, lookup-insert, lookup-remove, beq_ne, beq_refl,
}
use km_resolv.Dns.{Message}
use km_resolv.Cache.Hash.{Key, key_eq, shard_idx}
use km_resolv.Cache.{
  Entry, Shard, Cache, second, after, shard, put_shard, elapsed_secs,
  clone_message_with_decremented_ttl, get, life, fresh, put, make_room,
}
use km_resolv.Cache.Evict.{Below, make_room-full, make_room-rest}
use km_resolv.Cache.Bounds.{IsValid, IsBounded-shard}
use km_resolv.Cache.Shards.{HasShards, shard-put_shard}

-- The entry under a key, in the shard that the key's hash chooses.
unfoldable pub entry_of : Key → Cache → Option Entry
unfolding shard
entry_of k c = lookup k (shard k c).entries

positive : (n : ℕ) → 0 < n → eqb n 0 ≡ false
positive n h = ground arith

-- What Get hands out of an entry.
abbrev pub served : ℕ → Option Entry → Option Message
served now none = none
served now (some e) =
    if after now e.expires
    then none
    else some (clone_message_with_decremented_ttl e.msg (elapsed_secs now e.cached))

pub get-eq-served :
    (k : Key) (enabled : Bool) (now : ℕ) (c : Cache)
    → (get k enabled now c).1 ≡ served now (entry_of k c)
unfolding get entry_of
get-eq-served k enabled now c = ground arith

pub entry_of-put_shard :
    (k j : Key) (s : Shard) (c : Cache)
    → HasShards c
    → entry_of j (put_shard k s c)
      ≡ (if eqb (shard_idx k) (shard_idx j) then lookup j s.entries else entry_of j c)
unfolding entry_of
entry_of-put_shard k j s c h = rw (shard-put_shard k j s c h) (ground arith)

entry_of-next_id :
    (j : Key) (n : ℕ) (c : Cache) → entry_of j (record c { next_id = n }) ≡ entry_of j c
unfolding entry_of shard
entry_of-next_id j n c = refl

-- What Set changes: the entry of its key, and that of the key that had to make room.
pub entry_of-put :
    (k j : Key) (m : Message) (t : ℕ) (c : Cache)
    → HasShards c
    → 0 < life m c
    → entry_of j (put k m t c) ≡ (
        if k == j
        then some (fresh m t c)
        else if eqb (shard_idx k) (shard_idx j)
        then lookup j (make_room k c.max_per_shard (shard k c).entries)
        else entry_of j c)
unfolding put
entry_of-put k j m t c h pos = rw (positive (life m c) pos) (
    ground (
      arith,
      entry_of-put_shard k j
          (record (shard k c) {
            entries = insert k (fresh m t c) (make_room k c.max_per_shard (shard k c).entries);
          })
          (record c { next_id = c.next_id + 1 }) h,
      entry_of-next_id j (c.next_id + 1) c,
      lookup-insert k j (fresh m t c) (make_room k c.max_per_shard (shard k c).entries),
      key_eq.beq_iff k j,
    ))

-- Get after Set, at any time since: the message that was set, its TTLs lowered by the whole
-- seconds that have passed, until its life is over, and nothing from then on. A message of life 0
-- is not stored.
pub get-put :
    (k : Key) (m : Message) (enabled : Bool) (t now : ℕ) (c : Cache)
    → HasShards c
    → (get k enabled now (put k m t c)).1 ≡ (
        if eqb (life m c) 0
        then (get k enabled now c).1
        else if after now (t + life m c * second)
        then none
        else some (clone_message_with_decremented_ttl m (elapsed_secs now t)))
unfolding fresh put
get-put k m enabled t now c h = elim (Bool-cases (eqb (life m c) 0)) [
  | inl zero_life ↦ rw zero_life
  | inr stored ↦ rw (
    get-eq-served k enabled now (put k m t c),
    entry_of-put k k m t c h (ground arith),
    beq_refl k,
    stored,
  )
]

pub same_shard :
    (k j : Key) (c : Cache)
    → eqb (shard_idx k) (shard_idx j) ≡ true
    → entry_of j c ≡ lookup j (shard k c).entries
unfolding entry_of shard
same_shard k j c e = rw ((eqb_iff (shard_idx k) (shard_idx j)).0 e)

-- A shard makes room by giving up one entry, or has none to give up.
room :
    (k : Key) (c : Cache)
    → IsValid c
    → (make_room k c.max_per_shard (shard k c).entries ≡ (shard k c).entries)
      ⊎ ((victim : Key) × (e : Entry) × (c.max_per_shard ≤ length (shard k c).entries)
          × (has k (shard k c).entries ≡ false)
          × (make_room k c.max_per_shard (shard k c).entries ≡ remove victim (shard k c).entries)
          × (lookup victim (shard k c).entries ≡ some e)
          × Below e.expires (shard k c).entries)
room k c v =
    let m = (shard k c).entries in
    let n = c.max_per_shard in
    elim (Bool-cases (has k m)) [
      | inl old ↦ inl (make_room-rest k n m (inr (inr old)))
      | inr new ↦ elim (Bool-cases (eqb n 0 || ltb (length m) n)) [
        | inl fits ↦ inl (make_room-rest k n m (ground arith))
        | inr full ↦
            let d = (IsBounded-shard k c v).entries_distinct in
            let (victim, e, out, found, below) =
              make_room-full k n m d (ground arith) (ground arith) new in
            inr (victim, e, ground arith, new, out, found, below)
      ]
    ]

entry_of-put_ne :
    (k j : Key) (m : Message) (t : ℕ) (c : Cache)
    → IsValid c
    → k ≢ j
    → 0 < life m c
    → (entry_of j (put k m t c) ≡ entry_of j c)
      ⊎ ((e : Entry) × (entry_of j c ≡ some e)
          × (c.max_per_shard ≤ length (shard k c).entries)
          × (has k (shard k c).entries ≡ false)
          × Below e.expires (shard k c).entries)
entry_of-put_ne k j m t c v ne pos =
    let stored = entry_of-put k j m t c v.shards pos in
    elim (Bool-cases (eqb (shard_idx k) (shard_idx j))) [
      | inr apart ↦ inl (ground (arith, stored, beq_ne k j ne))
      | inl same ↦
          let at = same_shard k j c same in
          elim (room k c v) [
            | inl kept ↦ inl (ground (arith, stored, beq_ne k j ne, at, kept))
            | inr (victim, e, full, new, out, found, below) ↦ elim (Bool-cases (victim == j)) [
              | inl hit ↦ inr (e, ground (arith, at, key_eq.beq_iff victim j), full, new, below)
              | inr miss ↦ inl (
                  ground
                    (arith, stored, beq_ne k j ne, at, lookup-remove victim j (shard k c).entries))
            ]
          ]
    ]

-- Set changes what Get returns for another key in one way only: by evicting its entry, from a
-- shard that is full, for a key that the shard does not have, and only if no entry of the shard
-- expires sooner.
pub get-put_ne :
    (k j : Key) (m : Message) (enabled : Bool) (t now : ℕ) (c : Cache)
    → IsValid c
    → k ≢ j
    → ((get j enabled now (put k m t c)).1 ≡ (get j enabled now c).1)
      ⊎ ((e : Entry) × (entry_of j c ≡ some e)
          × (c.max_per_shard ≤ length (shard k c).entries)
          × (has k (shard k c).entries ≡ false)
          × Below e.expires (shard k c).entries)
get-put_ne k j m enabled t now c v ne = elim (Bool-cases (eqb (life m c) 0)) [
  | inl zero_life ↦ inl (unfold put in rw zero_life)
  | inr stored ↦ elim (entry_of-put_ne k j m t c v ne (ground arith)) [
    | inl same ↦
        inl (rw (get-eq-served j enabled now (put k m t c), get-eq-served j enabled now c, same))
    | inr gone ↦ inr gone
  ]
]
