-- ===== src/Server/LimitTests.antt =====
-- The theorem about the rate limiter, at concrete requests.
use km_resolv.Prelude.{ℕ, ◌+◌, ◌-◌, ◌*◌, ◌≤◌, List, [], ◌∷◌, Text, codes, arith, nat_eq, list_eq}
use km_resolv.Server.RateLimit.{token, second, new_rate_limiter, passed}
use km_resolv.Server.RateLimit.Bound.{finish, passed-new_rate_limiter-le}

abbrev ip : Text
ip = codes "10.0.0.1"

abbrev requests : List (Text × ℕ)
requests =
    (ip, 5) ∷ (codes "10.0.0.2", 6) ∷ (ip, second) ∷ (ip, 3 * second) ∷ (ip, 700 * second) ∷ []

passed-new_rate_limiter-le_example :
    passed ip requests (new_rate_limiter 1 2) * token ≤ 2 * token + (finish 5 requests - 5) * 1
passed-new_rate_limiter-le_example =
    passed-new_rate_limiter-le ip 1 2 5 requests (omega arith)
      (omega arith, (omega arith, (omega arith, (omega arith, (omega arith, tt)))))
