-- ===== src/Server/RateLimit/Bound.antt =====
-- How many requests of an address the rate limiter lets through.
use km_resolv.Prelude.{
  ℕ, ◌+◌, ◌-◌, ◌*◌, ◌≤◌, ◌≡◌, sym, ap, ap₂, ◌∙◌, Bool, Bool-cases, inl, inr, some, List, [], ◌∷◌,
  Text, arith, ◌==◌, nat_eq, list_eq, list_beq_iff, ltb, if◌then◌else◌, Map, lookup, insert,
  lookup-insert, Distinct-insert,
}
use km_resolv.Server.RateLimit.{
  TokenBucket, RateLimiter, token, new_rate_limiter, tidy, accrued, allow, passed,
}
use km_resolv.Server.RateLimit.Credit.{
  credit, IsSynced, RefillsInTime, accrued-eq-credit, elapsed-split, credit_later, credit-le,
  tidy-Tidied,
}

record Spent (from : Text) (now : ℕ) (r r' : RateLimiter) (through : Bool) : Type 0 where
  rate : r'.rate ≡ r.rate
  burst : r'.burst ≡ r.burst
  synced : IsSynced now r'.buckets
  paid :
      (ip : Text)
      → credit (r.burst * token) r.rate now (lookup ip r'.buckets)
          + (if from == ip then (if through then token else 0) else 0)
        ≡ credit (r.burst * token) r.rate now (lookup ip r.buckets)

insert-IsSynced :
    (from : Text) (tokens t now : ℕ) (m : Map Text TokenBucket)
    → t ≤ now
    → IsSynced t m
    → IsSynced now (insert from (record { tokens = tokens; last = now; last_seen = now }) m)
insert-IsSynced from tokens t now m le v = record {
  distinct = Distinct-insert from fresh m v.distinct;
  seen = λ ip b h. elim (Bool-cases (from == ip)) [
    | inl same ↦
        let at : some fresh ≡ some b = rw (lookup-insert from ip fresh m, same) at h in
        (ground arith, ground arith)
    | inr other ↦
        let old : lookup ip m ≡ some b = rw (lookup-insert from ip fresh m, other) at h in
        ((v.seen ip b old).0, omega (arith, (v.seen ip b old).1))
  ];
}
  where
    fresh : TokenBucket
    fresh = record { tokens = tokens; last = now; last_seen = now }

allow-Spent :
    (from : Text) (t now : ℕ) (r : RateLimiter)
    → t ≤ now
    → RefillsInTime r
    → IsSynced t r.buckets
    → Spent from now r (allow from now r).0 (allow from now r).1
unfolding allow
allow-Spent from t now r le fits v =
    let d = tidy-Tidied t now r fits v in
    let full = r.burst * token in
    let tokens = accrued from now (tidy now r) in
    let left = if ltb tokens token then tokens else tokens - token in
    let fresh : TokenBucket = record { tokens = left; last = now; last_seen = now } in
    let has : tokens ≡ credit full r.rate now (lookup from r.buckets) =
      accrued-eq-credit from now (tidy now r)
      ∙ ap₂ (λ (b rate : ℕ). credit (b * token) rate now (lookup from (tidy now r).buckets)) d.burst
          d.rate
      ∙ d.same from in
    let bounded = credit-le full r.rate now (lookup from r.buckets) in
    record {
      rate = d.rate;
      burst = d.burst;
      synced = insert-IsSynced from _ t now (tidy now r).buckets le d.synced;
      paid = λ ip. elim (Bool-cases (from == ip)) [
        | inl same ↦
            let at : credit full r.rate now (lookup ip r.buckets) ≡ tokens =
              ap (λ x. credit full r.rate now (lookup x r.buckets))
                (sym ((list_beq_iff from ip).0 same))
              ∙ sym has in
            rw (lookup-insert from ip fresh (tidy now r).buckets, same, at)
              (ground (arith, has, bounded))
        | inr other ↦
            rw (lookup-insert from ip fresh (tidy now r).buckets, other) (omega (arith, d.same ip))
      ];
    }

-- The times of the requests do not go back, from `t` on.
abbrev pub Ordered : ℕ → List (Text × ℕ) → Type 0
Ordered t [] = Unit
Ordered t ((from, now) ∷ requests) = (t ≤ now) × Ordered now requests

-- the time of the last request
abbrev pub finish : ℕ → List (Text × ℕ) → ℕ
finish t [] = t
finish t ((from, now) ∷ requests) = finish now requests

finish-le : (t : ℕ) (requests : List (Text × ℕ)) → Ordered t requests → t ≤ finish t requests
finish-le t [] h = omega arith
finish-le t ((from, now) ∷ requests) h = omega (arith, h.0, finish-le now requests h.1)

passed-le :
    (ip : Text) (t : ℕ) (requests : List (Text × ℕ)) (r : RateLimiter)
    → RefillsInTime r
    → IsSynced t r.buckets
    → Ordered t requests
    → passed ip requests r * token
      ≤ credit (r.burst * token) r.rate t (lookup ip r.buckets) + (finish t requests - t) * r.rate
unfolding passed
passed-le ip t [] r fits v h = omega arith
passed-le ip t ((from, now) ∷ requests) r fits v h =
    let s = allow-Spent from t now r h.0 fits v in
    let r' = (allow from now r).0 in
    let fits' : RefillsInTime r' = rw (s.burst, s.rate) fits in
    let rest : passed ip requests r' * token
        ≤ credit (r.burst * token) r.rate now (lookup ip r'.buckets)
          + (finish now requests - now) * r.rate =
      rw (s.burst, s.rate) at (passed-le ip now requests r' fits' s.synced h.1) in
    let later =
      credit_later (r.burst * token) r.rate t now (lookup ip r.buckets) h.0
        (λ b e. (v.seen ip b e).1) in
    let split = elapsed-split r.rate t now (finish now requests) h.0 (finish-le now requests h.1) in
    ground (arith, rest, s.paid ip, later, split)

-- However many requests come from an address, and whatever other addresses do meanwhile, from a
-- fresh limiter at most the burst and what the rate gives in the time between `t` and the last
-- request are let through. The burst is no more than the rate gives in ten minutes, after which
-- an idle address is forgotten, and the times do not go back.
pub passed-new_rate_limiter-le :
    (ip : Text) (qps burst t : ℕ) (requests : List (Text × ℕ))
    → burst ≤ 600 * qps
    → Ordered t requests
    → passed ip requests (new_rate_limiter qps burst) * token
      ≤ burst * token + (finish t requests - t) * qps
unfolding new_rate_limiter lookup
passed-new_rate_limiter-le ip qps burst t requests fits h =
    passed-le ip t requests (new_rate_limiter qps burst) fits
      (record { distinct = tt; seen = λ ip b e. absurd (ground arith) }) h
