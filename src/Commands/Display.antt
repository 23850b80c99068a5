-- ===== src/Commands/Display.antt =====
-- What the commands of cmd/kmresolv/cmd_cli.go print.
use km_resolv.Prelude.{
  ℕ, ◌-◌, ◌/◌, ◌%◌, List, [], ◌∷◌, ◌++◌, Text, codes, ◌==◌, nat_eq, list_eq, length, replicate,
  if◌then◌else◌,
}
use km_resolv.Server.QueryLog.{QueryEntry}
use km_resolv.Server.Verdict.{decimal}

-- %-ks of a text: spaces behind it up to k characters
unfoldable pub pad : ℕ → Text → Text
pad k s = s ++ replicate (k - length s) b' '

-- %0kd of a number
unfoldable pub zeros : ℕ → ℕ → Text
zeros k n = let s = decimal n in replicate (k - length s) b'0' ++ s

abbrev pub escape : Text → Text
escape s = 27 ∷ s

unfoldable pub status_color : Text → Text
status_color status =
    if status == codes "resolved"
    then escape (codes "[32m")
    else if status == codes "cached"
    then escape (codes "[34m")
    else if status == codes "blocked"
    then escape (codes "[31m")
    else if status == codes "error"
    then escape (codes "[33m")
    else []

-- the uptime of `status`
unfoldable pub uptime_text : ℕ → Text
uptime_text seconds =
    zeros 2 (seconds / 3600)
    ++ (codes ":" ++ (zeros 2 (seconds / 60 % 60) ++ (codes ":" ++ zeros 2 (seconds % 60))))

-- A line of `log`; `clock` is Time.Format("15:04:05").
unfoldable pub show_entry : (ℕ → Text) → QueryEntry → Text
show_entry clock e =
    codes "  "
    ++ (clock e.time
        ++ (codes "  "
            ++ (pad 40 e.domain
                ++ (codes "  "
                    ++ (pad 6 e.type
                        ++ (codes "  "
                            ++ (status_color e.status
                                ++ (pad 9 e.status
                                    ++ (escape (codes "[0m")
                                        ++ (codes "  "
                                            ++ (decimal e.latency ++ codes "ms")))))))))))

-- The answer of /api/stats that `status` reads; the two floats are as %.1f prints them.
pub record CliStats : Type 0 where
  pub total_queries : ℕ
  pub blocked : ℕ
  pub hit_rate : Text
  pub avg_latency : Text
  pub uptime_seconds : ℕ
  pub cache_size : ℕ
  pub cache_negative : ℕ

-- a line of `status`
abbrev pub status_line : Text → Text → Text
status_line name value = codes "  " ++ (pad 20 name ++ (codes " " ++ value))

unfoldable pub status_lines : CliStats → List Text
status_lines s =
    []
    ∷ codes "  kmresolv status"
    ∷ []
    ∷ status_line (codes "uptime") (uptime_text s.uptime_seconds)
    ∷ status_line (codes "total queries") (decimal s.total_queries)
    ∷ status_line (codes "cache hit rate") (s.hit_rate ++ codes "%")
    ∷ status_line (codes "cached entries") (
        decimal s.cache_size ++ (codes " (pos) + " ++ (decimal s.cache_negative ++ codes " (neg)")))
    ∷ status_line (codes "blocked") (decimal s.blocked)
    ∷ status_line (codes "avg latency") (s.avg_latency ++ codes "ms")
    ∷ []
    ∷ []
