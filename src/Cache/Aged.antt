-- ===== src/Cache/Aged.antt =====
-- The age of what Get hands out, and the prefetch that it starts.
use km_resolv.Prelude.{
  ap, ◌∙◌, ◌⊎◌, ◌==◌, if◌then◌else◌, lookup-insert, map, fun_ext, eqb_iff, ℕ, ◌-◌, ◌≤◌, ◌≡◌, refl,
  Bool, true, Bool-cases, Option-cases, inl, inr, none, some, List, [], ◌∷◌, sym, arith, nat_eq,
  eqb, lookup, insert, lookup-insert_self,
}
use km_resolv.Dns.{Rr, Message}
use km_resolv.Cache.Hash.{Key, key_eq, shard_idx}
use km_resolv.Cache.{
  Entry, Cache, shard, elapsed_secs, clone_message_with_decremented_ttl, decrement_rr,
  decrement_rrs, get, wants_prefetch, after, put_shard,
}
use km_resolv.Cache.Shards.{HasShards, shard-put_shard_self, put_shard-HasShards}
use km_resolv.Cache.Reads.{entry_of, get-eq-served, entry_of-put_shard, same_shard}

-- A record whose TTL is lowered by a number of seconds, and stops at 0.
abbrev pub aged : ℕ → Rr → Rr
aged secs rr = record rr { ttl = rr.ttl - secs }

decrement_rr-aged : (secs : ℕ) (rr : Rr) → decrement_rr secs rr ≡ aged secs rr
unfolding decrement_rr
decrement_rr-aged secs rr = ground arith

decrement_rrs-aged : (secs : ℕ) (rrs : List Rr) → decrement_rrs rrs secs ≡ map (aged secs) rrs
unfolding decrement_rrs
decrement_rrs-aged secs rrs = rw (fun_ext (decrement_rr-aged secs))

aged-zero : (rrs : List Rr) → map (aged 0) rrs ≡ rrs
aged-zero [] = refl
aged-zero (rr ∷ rrs) = ground (arith, aged-zero rrs)

clone_aged :
    (m : Message) (secs : ℕ)
    → ((clone_message_with_decremented_ttl m secs).answers ≡ map (aged secs) m.answers)
      × ((clone_message_with_decremented_ttl m secs).header ≡ m.header)
      × ((clone_message_with_decremented_ttl m secs).questions ≡ m.questions)
unfolding clone_message_with_decremented_ttl
clone_aged m secs = elim (Bool-cases (eqb secs 0)) [
  | inl now ↦ rw ((eqb_iff secs 0).0 now) (sym (aged-zero m.answers), refl, refl)
  | inr later ↦ rw later (decrement_rrs-aged secs m.answers, refl, refl)
]

-- What Get hands out is an entry that has not expired, with the TTL of each answer lowered by the
-- age of the entry in whole seconds and stopped at 0, and its header and questions unchanged.
get-aged :
    (k : Key) (enabled : Bool) (now : ℕ) (c : Cache) (m : Message)
    → (get k enabled now c).1 ≡ some m
    → (e : Entry) × (entry_of k c ≡ some e)
      × (now ≤ e.expires)
      × (m.answers ≡ map (aged (elapsed_secs now e.cached)) e.msg.answers)
      × (m.header ≡ e.msg.header)
      × (m.questions ≡ e.msg.questions)
get-aged k enabled now c m h = elim (Option-cases (entry_of k c)) [
  | inl miss ↦ absurd (ground (arith, get-eq-served k enabled now c))
  | inr (e, found) ↦ (
    e,
    found,
    ground (arith, get-eq-served k enabled now c),
    ground (arith, get-eq-served k enabled now c, clone_aged e.msg (elapsed_secs now e.cached)),
    ground (arith, get-eq-served k enabled now c, clone_aged e.msg (elapsed_secs now e.cached)),
    ground (arith, get-eq-served k enabled now c, clone_aged e.msg (elapsed_secs now e.cached)),
  )
]

-- A Get of some key, with whether prefetching is on, and its time.
abbrev pub GetCall : Type 0
GetCall = Key × Bool × ℕ

-- The ids of the entries that Gets of a key start prefetches of, over a run of Gets of any keys.
unfoldable pub starts : Key → List GetCall → Cache → List ℕ
starts k [] c = []
starts k ((j, enabled, now) ∷ asked) c =
    let (c', found, started) = get j enabled now c in
    let rest = starts k asked c' in
    if j == k then elim started [ none ↦ rest | some id ↦ id ∷ rest ] else rest

-- A prefetch of the key's entry is under way.
abbrev IsUnderWay : Key → Cache → Type 0
IsUnderWay k c = (e : Entry) × (entry_of k c ≡ some e) × (e.prefetching ≡ true)

-- the cache behind a Get that starts the prefetch of an entry
abbrev flagged : Key → Entry → Cache → Cache
flagged k e c =
    put_shard k
      (record (shard k c) {
        entries = insert k (record e { prefetching = true }) (shard k c).entries;
      })
      c

-- A Get changes nothing and starts nothing, or sets the flag of the key's entry.
get-cases :
    (k : Key) (enabled : Bool) (now : ℕ) (c : Cache)
    → (((get k enabled now c).0 ≡ c) × ((get k enabled now c).2 ≡ none))
      ⊎ ((e : Entry) × ((get k enabled now c).0 ≡ flagged k e c))
unfolding get
get-cases k enabled now c = elim (Option-cases (lookup k (shard k c).entries)) [
  | inl miss ↦ inl (rw (get, miss) (refl, refl))
  | inr (e, found) ↦ elim (Bool-cases (after now e.expires)) [
    | inl over ↦ inl (rw (get, found, over) (refl, refl))
    | inr good ↦ elim (Bool-cases (wants_prefetch enabled now c e)) [
      | inl wants ↦ inr (e, rw (get, found, good, wants) refl)
      | inr rests ↦ inl (rw (get, found, good, rests) (refl, refl))
    ]
  ]
]

get-HasShards :
    (k : Key) (enabled : Bool) (now : ℕ) (c : Cache)
    → HasShards c
    → HasShards (get k enabled now c).0
get-HasShards k enabled now c h = elim (get-cases k enabled now c) [
  | inl (same, quiet) ↦ rw same h
  | inr (e, set) ↦ rw set (put_shard-HasShards k _ c h)
]

flagged-UnderWay : (k : Key) (e : Entry) (c : Cache) → HasShards c → IsUnderWay k (flagged k e c)
unfolding entry_of
flagged-UnderWay k e c h =
    let e' : Entry = record e { prefetching = true } in
    (
      e',
      ap (λ s. lookup k s.entries) (shard-put_shard_self k _ c h)
          ∙ lookup-insert_self k e' (shard k c).entries,
      refl,
    )

starting-UnderWay :
    (k : Key) (enabled : Bool) (now id : ℕ) (c : Cache)
    → HasShards c
    → (get k enabled now c).2 ≡ some id
    → IsUnderWay k (get k enabled now c).0
starting-UnderWay k enabled now id c h started = elim (get-cases k enabled now c) [
  | inl (same, quiet) ↦ absurd (ground (arith, started, quiet))
  | inr (e, set) ↦ rw set (flagged-UnderWay k e c h)
]

flagged-keeps :
    (j k : Key) (e : Entry) (c : Cache)
    → HasShards c
    → IsUnderWay k c
    → IsUnderWay k (flagged j e c)
flagged-keeps j k e c h (f, found, busy) = elim (Bool-cases (j == k)) [
  | inl same ↦ rw ((key_eq.beq_iff j k).0 same) (flagged-UnderWay k e c h)
  | inr other ↦ elim (Bool-cases (eqb (shard_idx j) (shard_idx k))) [
    | inr apart ↦ (f, entry_of-put_shard j k _ c h ∙ rw apart found, busy)
    | inl near ↦ (
      f,
      entry_of-put_shard j k _ c h
          ∙ rw
              (near, lookup-insert j k (record e { prefetching = true }) (shard j c).entries, other)
              (sym (same_shard j k c near) ∙ found),
      busy,
    )
  ]
]

get-UnderWay :
    (j k : Key) (enabled : Bool) (now : ℕ) (c : Cache)
    → HasShards c
    → IsUnderWay k c
    → IsUnderWay k (get j enabled now c).0
get-UnderWay j k enabled now c h w = elim (get-cases j enabled now c) [
  | inl (same, quiet) ↦ rw same w
  | inr (e, set) ↦ rw set (flagged-keeps j k e c h w)
]

get-quiet :
    (k : Key) (enabled : Bool) (now : ℕ) (c : Cache)
    → IsUnderWay k c
    → (get k enabled now c).2 ≡ none
unfolding get entry_of wants_prefetch
get-quiet k enabled now c (e, found, busy) = ground (arith, found, busy)

starts-UnderWay :
    (k : Key) (asked : List GetCall) (c : Cache)
    → HasShards c
    → IsUnderWay k c
    → starts k asked c ≡ []
unfolding starts
starts-UnderWay k [] c h w = refl
starts-UnderWay k ((j, enabled, now) ∷ asked) c h w =
    let later =
      starts-UnderWay k asked (get j enabled now c).0 (get-HasShards j enabled now c h)
        (get-UnderWay j k enabled now c h w) in
    elim (Bool-cases (j == k)) [
      | inr other ↦ rw (starts, other) later
      | inl same ↦
          let here : (get j enabled now c).2 ≡ none =
            ap (λ (i : Key). (get i enabled now c).2) ((key_eq.beq_iff j k).0 same)
            ∙ get-quiet k enabled now c w in
          rw (starts, same, here) later
    ]

-- Once a Get has started a prefetch of a key, no Get of the key starts another one over any run of
-- Gets of any keys, at any times, as long as nothing but Gets happens to the cache: the prefetch has
-- not ended and the key has not been set again.
pub starts-get :
    (k : Key) (enabled : Bool) (now id : ℕ) (asked : List GetCall) (c : Cache)
    → HasShards c
    → (get k enabled now c).2 ≡ some id
    → starts k asked (get k enabled now c).0 ≡ []
starts-get k enabled now id asked c h started =
    starts-UnderWay k asked (get k enabled now c).0 (get-HasShards k enabled now c h)
      (starting-UnderWay k enabled now id c h started)
