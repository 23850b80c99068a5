-- ===== src/Server/Tests.antt =====
-- The theorems about the server's records of its queries, at concrete logs.
use km_resolv.Prelude.{
  ℕ, ◌-◌, ◌≡◌, none, some, List, [], ◌∷◌, ◌++◌, codes, arith, min, length, drop, replicate,
}
use km_resolv.Server.QueryLog.{QueryEntry, new_query_log, add_all, recent, recent-add_all}
use km_resolv.Server.History.{
  HistoryBucket, history_window, zero_bucket, new_stats_history, snapshot, sample_all, per_second,
  snapshot-sample_all,
}

abbrev query : ℕ → QueryEntry
query n = record {
  time = n;
  domain = codes "a.de";
  type = codes "A";
  client = codes "10.0.0.1";
  status = codes "hit";
  latency = 0;
}

abbrev queries : List QueryEntry
queries = query 1 ∷ query 2 ∷ query 3 ∷ []

recent-add_all_example :
    recent 5 (add_all (λ e. some e.domain) queries (new_query_log 2 none))
    ≡ drop (length queries - min 5 2) queries
recent-add_all_example = recent-add_all (λ e. some e.domain) queries 2 none 5 (omega arith)

abbrev reading : ℕ → HistoryBucket
reading n = record { queries = n; hits = n; blocked = 0 }

abbrev readings : List HistoryBucket
readings = reading 3 ∷ reading 8 ∷ []

snapshot-sample_all_example :
    snapshot (sample_all zero_bucket readings new_stats_history)
    ≡ drop
        (length readings)
        (replicate history_window zero_bucket ++ per_second zero_bucket readings)
snapshot-sample_all_example = snapshot-sample_all zero_bucket readings (
  omega arith,
  omega arith,
  omega arith,
  omega arith,
  omega arith,
  omega arith,
  (omega arith, omega arith, omega arith, omega arith, omega arith, omega arith, tt),
)
