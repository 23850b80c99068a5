-- ===== src/Dashboard/Tests.antt =====
-- The theorems about the login, at concrete nonces and tokens.
use km_resolv.Prelude.{
  ℕ, ◌==◌, ap, none, some, inl, inr, has_prefix, ◌≡◌, ◌≢◌, refl, true, false, Text, List, [], ◌∷◌,
  ◌++◌, codes, err, arith, nat_eq, list_eq, list_beq_iff,
}
use km_resolv.Cache.{new_cache}
use km_resolv.Filter.{new_filter}
use km_resolv.Config.{pos, defaults, auth_enabled}
use km_resolv.Records.Build.{invalid}
use km_resolv.Server.Admin.{Admin}
use km_resolv.Server.Snapshot.{stats}
use km_resolv.Server.Handle.{Server}
use km_resolv.Server.QueryLog.{new_query_log}
use km_resolv.Server.History.{new_stats_history}
use km_resolv.Server.Acl.{new_compiled_acl}
use km_resolv.Server.Resolve.Bounded.{new_upstream}
use km_resolv.Dashboard.Reads.{
  to_login, serve_stats, serve_history, serve_filter_status, serve_querylog, serve_records,
  serve_settings_get, serve_update, serve_metrics, metrics_text, reads-refused,
}
use km_resolv.Dashboard.{Request, redirect, issue, consume, sign_token}
use km_resolv.Dashboard.Guards.{served, serve_cache_flush}
use km_resolv.Dashboard.Refused.{settings, IsAllowed, serve, serve-refused}
use km_resolv.Dashboard.Nonces.{Call, issue_call, consume_call, cleanup_call, run, consume-issue}

abbrev between : List Call
between = issue_call (codes "b") 20 ∷ cleanup_call 30 ∷ []

abbrev after : List Call
after = consume_call (codes "a") 50 ∷ []

other : codes "b" ≢ codes "a"
other h = ground (arith, (list_beq_iff (codes "b") (codes "a")).1 h)

consume-issue_example :
    ((consume (codes "a") 40 (run between (issue (codes "a") 10 []))).1 ≡ true)
    × ((consume
          (codes "a")
          60
          (run after (consume (codes "a") 40 (run between (issue (codes "a") 10 []))).0)).1
        ≡ false)
consume-issue_example =
    consume-issue (codes "a") 10 40 60 between after [] tt ((other, omega arith), (omega arith, tt))
      (omega arith) (tt, tt)

abbrev mac : Text → Text → Text
mac key text = key ++ text

abbrev locked : Admin
locked = record {
  cfg = record defaults {
    dashboard = record defaults.dashboard {
      auth = record { username = codes "a"; password = codes "b" };
    };
  };
  filter = new_filter (λ source. none) defaults.filtering;
  records = [];
}

-- a request from elsewhere with a cookie that is not the one of a login
abbrev guess : Request
guess = record {
  method = codes "POST";
  remote_addr = codes "10.0.0.9:4000";
  cookie = some (codes "ab.k");
}

guess-IsAllowed : ¬ IsAllowed mac (codes "k") (codes "ab") locked.cfg guess
unfolding auth_enabled has_prefix sign_token
guess-IsAllowed (inl h) = cc
guess-IsAllowed (inr (inl h)) = cc
guess-IsAllowed (inr (inr h)) = absurd (
    ground (
      arith,
      (list_beq_iff (codes "ab.k") (codes "ab.kab")).1
          (ap (λ o. elim o [ none ↦ [] | some x ↦ x ]) h),
    ))

serve-refused_example :
    (serve mac
        (codes "k")
        (codes "ab")
        (λ c. some (codes "y"))
        (λ path text (fs : Text). some fs)
        (λ r. invalid)
        (settings none)
        guess
        locked
        []
      ≡ served locked none (redirect (codes "/login")))
    × (serve_cache_flush mac (codes "k") (codes "ab") locked.cfg guess (codes "all") 7 new_cache
        ≡ (new_cache, redirect (codes "/login")))
serve-refused_example =
    serve-refused mac (codes "k") (codes "ab") (λ c. some (codes "y"))
      (λ path text (fs : Text). some fs) (λ r. invalid) (settings none) guess locked []
      (codes "all") 7 new_cache (refl, (refl, tt)) guess-IsAllowed

abbrev server : Server ℕ Text
server = record {
  filter = locked.filter;
  records = [];
  qlog = new_query_log 2 none;
  limiter = none;
  acl = new_compiled_acl (λ s. some s) (λ s. some s) (λ net ip. net == ip) defaults.resolver.acl;
  upstream = new_upstream defaults 5;
  total_queries = 3;
  cache_hits = 3;
  blocked = 0;
  total_latency_ms = 9;
}

reads-refused_example :
    (serve_stats mac (codes "k") (codes "ab") locked.cfg guess 5 9 server ≡ to_login)
    × (serve_history mac (codes "k") (codes "ab") locked.cfg guess new_stats_history ≡ to_login)
    × (serve_filter_status mac (codes "k") (codes "ab") locked.cfg guess (λ ds. ds) locked.filter
        ≡ to_login)
    × (serve_querylog mac (codes "k") (codes "ab") locked.cfg guess server ≡ to_login)
    × (serve_records mac (codes "k") (codes "ab") locked.cfg guess ≡ to_login)
    × (serve_settings_get mac (codes "k") (codes "ab") locked.cfg guess ≡ to_login)
    × (serve_update mac
          (codes "k")
          (codes "ab")
          locked.cfg
          guess
          (λ s. pos 7)
          (codes "1.0")
          (err [])
          9
          10
          none
        ≡ (none, to_login))
    × (serve_metrics 5 9 server guess ≡ metrics_text (stats 5 9 server))
reads-refused_example =
    reads-refused mac (codes "k") (codes "ab") locked.cfg guess 5 9 10 server new_stats_history
      (λ ds. ds) (λ s. pos 7) (codes "1.0") (err []) none (refl, (refl, tt)) guess-IsAllowed
