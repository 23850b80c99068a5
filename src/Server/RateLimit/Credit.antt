-- ===== src/Server/RateLimit/Credit.antt =====
-- The tokens of an address over time, and through a cleanup.
use native.Mathlib.Nat.{add-mul}
use km_resolv.Prelude.{
  ℕ, ◌+◌, ◌-◌, ◌*◌, ◌≤◌, ◌<◌, ◌≡◌, refl, ap, ◌∙◌, Bool, not, Bool-cases, Option-cases, inl, inr,
  Option, none, some, Text, arith, nat_eq, list_eq, ltb, min, Map, Distinct, lookup, lookup-select,
  Distinct-select,
}
use km_resolv.Server.RateLimit.{
  TokenBucket, RateLimiter, token, rate_limit_idle_ttl, cleanup, tidy, bucket, accrued,
}

-- The tokens of a bucket at a time.
abbrev pub credit : ℕ → ℕ → ℕ → Option TokenBucket → ℕ
credit full rate now none = full
credit full rate now (some b) = min full (b.tokens + (now - b.last) * rate)

-- A bucket was written when its address was seen last.
pub record IsSynced (t : ℕ) (m : Map Text TokenBucket) : Type 0 where
  pub distinct : Distinct m
  pub seen :
      (ip : Text) (b : TokenBucket) → lookup ip m ≡ some b → (b.last ≡ b.last_seen) × (b.last ≤ t)

pub accrued-eq-credit :
    (ip : Text) (now : ℕ) (r : RateLimiter)
    → accrued ip now r ≡ credit (r.burst * token) r.rate now (lookup ip r.buckets)
unfolding accrued bucket
accrued-eq-credit ip now r =
    let full = r.burst * token in
    elim (lookup ip r.buckets)
      as (λ o.
        let b = bucket full now o in
        min full (b.tokens + (now - b.last) * r.rate) ≡ credit full r.rate now o) [
          | none ↦ omega arith
          | some b ↦ refl
        ]

pub elapsed-split :
    (rate a b c : ℕ) → a ≤ b → b ≤ c → (c - a) * rate ≡ (b - a) * rate + (c - b) * rate
elapsed-split rate a b c h k =
    ap (λ (x : ℕ). x * rate) {x = c - a} {y = (b - a) + (c - b)} (omega arith)
    ∙ add-mul (b - a) (c - b) rate

pub credit_later :
    (full rate t now : ℕ) (o : Option TokenBucket)
    → t ≤ now
    → ((b : TokenBucket) → o ≡ some b → b.last ≤ t)
    → credit full rate now o ≤ credit full rate t o + (now - t) * rate
credit_later full rate t now none le seen = omega arith
credit_later full rate t now (some b) le seen =
    omega (arith, elapsed-split rate b.last t now (seen b refl) le)

pub credit-le : (full rate now : ℕ) (o : Option TokenBucket) → credit full rate now o ≤ full
credit-le full rate now none = omega arith
credit-le full rate now (some b) = omega arith

-- What is idle for ten minutes is full.
idle-full :
    (full rate now last : ℕ)
    → full ≤ rate_limit_idle_ttl * rate
    → rate_limit_idle_ttl < now - last
    → full ≤ (now - last) * rate
idle-full full rate now last fits idle = omega (
  arith,
  add-mul rate_limit_idle_ttl (now - last - rate_limit_idle_ttl) rate,
  ap (λ (x : ℕ). x * rate) {x = rate_limit_idle_ttl + (now - last - rate_limit_idle_ttl)}
      {y = now - last} (omega arith),
)

credit-cleanup :
    (ip : Text) (full rate t now : ℕ) (m : Map Text TokenBucket)
    → full ≤ rate_limit_idle_ttl * rate
    → IsSynced t m
    → credit full rate now (lookup ip (cleanup now m)) ≡ credit full rate now (lookup ip m)
unfolding cleanup
credit-cleanup ip full rate t now m fits v =
    rw (lookup-select (λ e. not (ltb rate_limit_idle_ttl (now - e.1.last_seen))) ip m v.distinct)
      (elim (Option-cases (lookup ip m)) [
        | inl e ↦ rw e refl
        | inr (b, e) ↦ elim (Bool-cases (ltb rate_limit_idle_ttl (now - b.last_seen))) [
          | inl old ↦
              rw (e, old)
                (omega
                  (arith, idle-full full rate now b.last fits (ground (arith, (v.seen ip b e).0))))
          | inr young ↦ rw (e, young) refl
        ]
      ])

pub record Tidied (t now : ℕ) (r r' : RateLimiter) : Type 0 where
  pub rate : r'.rate ≡ r.rate
  pub burst : r'.burst ≡ r.burst
  pub synced : IsSynced t r'.buckets
  pub same :
      (ip : Text)
      → credit (r.burst * token) r.rate now (lookup ip r'.buckets)
        ≡ credit (r.burst * token) r.rate now (lookup ip r.buckets)

-- The burst is no more than ten minutes refill: then a bucket that is forgotten was full.
abbrev pub RefillsInTime : RateLimiter → Type 0
RefillsInTime r = r.burst ≤ 600 * r.rate

cleanup-IsSynced :
    (t now : ℕ) (m : Map Text TokenBucket) → IsSynced t m → IsSynced t (cleanup now m)
unfolding cleanup
cleanup-IsSynced t now m v = record {
  distinct = Distinct-select keep m v.distinct;
  seen = λ ip b h. v.seen ip b (elim (Option-cases (lookup ip m)) [
    | inl e ↦ absurd (ground (arith, lookup-select keep ip m v.distinct))
    | inr (b', e) ↦ ground (arith, lookup-select keep ip m v.distinct)
  ]);
}
  where
    keep : Text × TokenBucket → Bool
    keep e = not (ltb rate_limit_idle_ttl (now - e.1.last_seen))

pub tidy-Tidied :
    (t now : ℕ) (r : RateLimiter)
    → RefillsInTime r
    → IsSynced t r.buckets
    → Tidied t now r (tidy now r)
unfolding tidy
tidy-Tidied t now r fits v = elim (Option-cases r.next_cleanup) [
  | inl none_yet ↦ rw none_yet (record { rate = refl; burst = refl; synced = v; same = λ ip. refl })
  | inr (due, e) ↦ elim (Bool-cases (ltb due now)) [
    | inl cleans ↦
        rw (e, cleans)
          (record {
            rate = refl;
            burst = refl;
            synced = cleanup-IsSynced t now r.buckets v;
            same = λ ip.
                credit-cleanup ip (r.burst * token) r.rate t now r.buckets (omega (arith, fits)) v;
          })
    | inr waits ↦
        rw (e, waits) (record { rate = refl; burst = refl; synced = v; same = λ ip. refl })
  ]
]
