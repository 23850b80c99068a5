-- ===== src/Server/RateLimit.antt =====
-- The token buckets of internal/server/ratelimit.go. Tokens are counted in parts of 10 ^ -9, so a
-- rate in tokens a second times a number of nanoseconds is exact; the source rounds to float64. A
-- later reading of the clock is not before an earlier one.
pub mod Credit
pub mod Bound
use km_resolv.Prelude.{
  ℕ, ◌+◌, ◌-◌, ◌*◌, ◌≤◌, ◌<◌, ◌≡◌, ◌≢◌, refl, sym, ap, ◌∙◌, Bool, true, false, not, Bool-cases,
  Option-cases, inl, inr, Option, none, some, List, [], ◌∷◌, Text, arith, ◌==◌, nat_eq, list_eq,
  list_beq_iff, ltb, leb, min, select, if◌then◌else◌, Map, Distinct, lookup, insert, beq_refl,
  lookup-insert, lookup-select, Distinct-insert, Distinct-select,
}

-- one token
abbrev pub token : ℕ
token = 1000000000

abbrev pub second : ℕ
second = 1000000000

abbrev pub rate_limit_idle_ttl : ℕ
rate_limit_idle_ttl = 600 * second

pub record TokenBucket : Type 0 where
  pub tokens : ℕ
  pub last : ℕ
  pub last_seen : ℕ

-- `next_cleanup` is none at Go's zero time
pub record RateLimiter : Type 0 where
  pub buckets : Map Text TokenBucket
  pub rate : ℕ
  pub burst : ℕ
  pub next_cleanup : Option ℕ

-- at settings that are not negative
unfoldable pub new_rate_limiter : ℕ → ℕ → RateLimiter
new_rate_limiter qps burst = record { buckets = []; rate = qps; burst = burst; next_cleanup = none }

unfoldable pub cleanup : ℕ → Map Text TokenBucket → Map Text TokenBucket
cleanup now buckets = select (λ e. not (ltb rate_limit_idle_ttl (now - e.1.last_seen))) buckets

-- The buckets and the time of the next cleanup, once a request has come in.
unfoldable pub tidy : ℕ → RateLimiter → RateLimiter
tidy now r = elim r.next_cleanup [
  | none ↦ record r { next_cleanup = some (now + 60 * second) }
  | some due ↦
      if ltb due now
      then record r { buckets = cleanup now r.buckets; next_cleanup = some (now + 60 * second) }
      else r
]

-- the bucket of an address, a full one if it has none
unfoldable pub bucket : ℕ → ℕ → Option TokenBucket → TokenBucket
bucket full now none = record { tokens = full; last = now; last_seen = 0 }
bucket full now (some b) = b

-- The tokens of an address, with what has accrued since its last request.
unfoldable pub accrued : Text → ℕ → RateLimiter → ℕ
accrued ip now r =
    let b = bucket (r.burst * token) now (lookup ip r.buckets) in
    min (r.burst * token) (b.tokens + (now - b.last) * r.rate)

unfoldable pub allow : Text → ℕ → RateLimiter → RateLimiter × Bool
allow ip now r =
    let r' = tidy now r in
    let tokens = accrued ip now r' in
    let left = if ltb tokens token then tokens else tokens - token in
    (
      record r' {
        buckets = insert ip (record { tokens = left; last = now; last_seen = now }) r'.buckets;
      },
      not (ltb tokens token),
    )

-- Requests, each with its address and its time: how many of an address are let through.
unfoldable pub passed : Text → List (Text × ℕ) → RateLimiter → ℕ
passed ip [] r = 0
passed ip ((from, now) ∷ requests) r =
    let (r', through) = allow from now r in
    let rest = passed ip requests r' in
    if from == ip then (if through then rest + 1 else rest) else rest
