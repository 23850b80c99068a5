-- ===== src/Dashboard/Reads.antt =====
-- The handlers of internal/dashboard/dashboard.go that only read, and the logout. What json.Encoder
-- is given stands for the body; a quotient of floats is its numerator and denominator.
use km_resolv.Prelude.{
  ℕ, ◌*◌, ◌≡◌, ◌≢◌, refl, sym, ap, ◌∙◌, inl, inr, arith, Bool-cases, Bool, true, false, not, Option,
  none, List, [], ◌∷◌, ◌++◌, map, Text, codes, Result, ok, err, ltb, if◌then◌else◌,
}
use km_resolv.Config.{ℤ, Config}
use km_resolv.Filter.{Filter}
use km_resolv.Records.Build.{RecordConfig}
use km_resolv.Server.History.{HistoryBucket, StatsHistory, snapshot}
use km_resolv.Server.QueryLog.{QueryEntry, recent}
use km_resolv.Server.Handle.{Server}
use km_resolv.Server.Verdict.{decimal}
use km_resolv.Server.Snapshot.{
  StatsSnapshot, FilterStatus, SettingsSnapshot, stats, filter_status, get_settings, recent_queries,
}
use km_resolv.Updater as Updater
use km_resolv.Dashboard.{Request, Response, redirect, require_auth}
use km_resolv.Dashboard.Refused.{IsAllowed, not_allowed}
use km_resolv.Dashboard.Tokens.{Dotless}

pub data Answer (A : Type 0) : Type 0 where
  to_login : Answer A
  given : A → Answer A

-- the answer, or another value where there is none
abbrev given_or : {A : Type 0} → A → Answer A → A
given_or d to_login = d
given_or d (given a) = a

given-injective : {A : Type 0} {a b : A} → given a ≡ given b → a ≡ b
given-injective {a} h = ap (given_or a) h

abbrev is_given : {A : Type 0} → Answer A → Bool
is_given to_login = false
is_given (given a) = true

login-not-given : {A : Type 0} {a : A} → to_login ≢ given a
login-not-given h = ground (arith, ap is_given h)

pub record Ratio : Type 0 where
  pub numerator : ℕ
  pub denominator : ℕ

pub record StatsResponse : Type 0 where
  pub snapshot : StatsSnapshot
  pub hit_rate : Ratio
  pub avg_latency_ms : Ratio

unfoldable pub stats_response : StatsSnapshot → StatsResponse
stats_response st = record {
  snapshot = st;
  hit_rate =
      if ltb 0 st.total_queries
      then record { numerator = st.cache_hits * 100; denominator = st.total_queries }
      else record { numerator = 0; denominator = 1 };
  avg_latency_ms =
      if ltb 0 st.total_queries
      then record { numerator = st.total_latency_ms; denominator = st.total_queries }
      else record { numerator = 0; denominator = 1 };
}

pub record RecordResponse : Type 0 where
  pub name : Text
  pub type : Text
  pub value : Text
  pub ttl : ℕ

unfoldable pub record_response : RecordConfig → RecordResponse
record_response r = record { name = r.name; type = r.type; value = r.value; ttl = r.ttl }

abbrev pub no_update : Updater.Release
no_update = record { available = false; version = []; url = [] }

abbrev pub newline : Text
newline = 10 ∷ []

-- the three lines of a metric
unfoldable pub metric : Text → Text → Text → ℕ → Text
metric name kind help value =
    codes "# HELP "
    ++ (name
        ++ (codes " "
            ++ (help
                ++ (newline
                    ++ (codes "# TYPE "
                        ++ (name
                            ++ (codes " "
                                ++ (kind
                                    ++ (newline
                                        ++ (name
                                            ++ (codes " " ++ (decimal value ++ newline))))))))))))

abbrev pub counter : Text
counter = codes "counter"

abbrev pub gauge : Text
gauge = codes "gauge"

unfoldable pub metrics_text : StatsSnapshot → Text
metrics_text st =
    metric (codes "kmresolv_queries_total") counter (codes "Total DNS queries received")
      st.total_queries
    ++ (newline
        ++ (metric (codes "kmresolv_cache_hits_total") counter (codes "Queries answered from cache")
              st.cache_hits
            ++ (newline
                ++ (metric (codes "kmresolv_blocked_total") counter
                      (codes "Queries blocked by filter") st.blocked
                    ++ (newline
                        ++ (metric (codes "kmresolv_latency_ms_total") counter
                              (codes "Sum of query latencies in milliseconds") st.total_latency_ms
                            ++ (newline
                                ++ (metric (codes "kmresolv_cache_entries") gauge
                                      (codes "Current number of cached records") st.cache_size
                                    ++ (newline
                                        ++ (metric (codes "kmresolv_cache_negative_entries") gauge
                                              (codes "Current number of cached NXDOMAIN responses")
                                              st.cache_negative
                                            ++ (newline
                                                ++ metric (codes "kmresolv_uptime_seconds") gauge
                                                    (codes "Seconds since the server started")
                                                    st.uptime_seconds)))))))))))

-- the handler of /metrics, which asks nobody for a login
unfoldable pub serve_metrics : {World Net : Type 0} → ℕ → ℕ → Server World Net → Request → Text
serve_metrics started now s r = metrics_text (stats started now s)

-- The handler of /api/logout: the cookie that it sets, which is empty and deleted at once, and
-- the redirect.
unfoldable pub serve_logout : Request → Option Text × Response
serve_logout r = (none, redirect (codes "/login"))

module _ (mac : Text → Text → Text) (secret session : Text) (cfg : Config) (r : Request) where
  abbrev pub behind_login : {A : Type 0} → A → Answer A
  behind_login a = if require_auth mac secret session cfg r then given a else to_login

  -- the handler of /api/stats
  unfoldable pub serve_stats :
      {World Net : Type 0} → ℕ → ℕ → Server World Net → Answer StatsResponse
  serve_stats started now s = behind_login (stats_response (stats started now s))

  -- the handler of /api/stats/history
  unfoldable pub serve_history : StatsHistory → Answer (List HistoryBucket)
  serve_history h = behind_login (snapshot h)

  -- the handler of /api/filter/status
  unfoldable pub serve_filter_status : (List Text → List Text) → Filter → Answer FilterStatus
  serve_filter_status sort f = behind_login (filter_status sort cfg f)

  -- the handler of /api/querylog
  unfoldable pub serve_querylog : {World Net : Type 0} → Server World Net → Answer (List QueryEntry)
  serve_querylog s = behind_login (recent_queries 100 s)

  -- the handler of /api/records
  unfoldable pub serve_records : Answer (List RecordResponse)
  serve_records = behind_login (map record_response cfg.records)

  -- the handler of /api/settings/get
  unfoldable pub serve_settings_get : Answer SettingsSnapshot
  serve_settings_get = behind_login (get_settings cfg)

  abbrev pub release_or_none : Result Updater.Release → Updater.Release
  release_or_none (ok found) = found
  release_or_none (err e) = no_update

  -- the handler of /api/update, with the cache of the updater
  unfoldable pub serve_update :
      (Text → ℤ)
      → Text
      → Updater.Response
      → ℕ
      → ℕ
      → Option Updater.Cached
      → Option Updater.Cached × Answer Updater.Release
  serve_update atoi version response now stored cached =
      let (cached', result) = Updater.check atoi version response now stored cached in
      if not (require_auth mac secret session cfg r)
      then (cached, to_login)
      else if not cfg.updater.check_enabled
      then (cached, given no_update)
      else (cached', given (release_or_none result))

  pub serve_querylog-given :
      {World Net : Type 0} (s : Server World Net) (entries : List QueryEntry)
      → serve_querylog s ≡ given entries
      → entries ≡ recent 100 s.qlog
  unfolding serve_querylog recent_queries
  serve_querylog-given s entries h = elim (Bool-cases (require_auth mac secret session cfg r)) [
    | inl on ↦ given-injective (sym h ∙ rw (serve_querylog, on) refl)
    | inr off ↦ absurd (login-not-given (sym (rw (serve_querylog, off) refl) ∙ h))
  ]

  -- Where a login is set, a request from another machine whose cookie is not the one that a login
  -- sets is sent to the login page by the handlers of /api/stats, /api/stats/history,
  -- /api/filter/status, /api/querylog, /api/records, /api/settings/get and /api/update, and no update
  -- is looked for. /metrics gives it the numbers of the same statistics all the same. The session
  -- token has no dot.
  pub reads-refused :
      {World Net : Type 0} (started now stored : ℕ) (s : Server World Net) (h : StatsHistory)
      (sort : List Text → List Text) (atoi : Text → ℤ) (version : Text)
      (response : Updater.Response) (cached : Option Updater.Cached)
      → Dotless session
      → ¬ IsAllowed mac secret session cfg r
      → (serve_stats started now s ≡ to_login)
        × (serve_history h ≡ to_login)
        × (serve_filter_status sort s.filter ≡ to_login)
        × (serve_querylog s ≡ to_login)
        × (serve_records ≡ to_login)
        × (serve_settings_get ≡ to_login)
        × (serve_update atoi version response now stored cached ≡ (cached, to_login))
        × (serve_metrics started now s r ≡ metrics_text (stats started now s))
  unfolding serve_stats serve_history serve_filter_status serve_querylog serve_records
      serve_settings_get serve_update serve_metrics
  reads-refused started now stored s h sort atoi version response cached d n =
      let off = not_allowed mac secret session cfg r d n in
      rw off (refl, refl, refl, refl, refl, refl, refl, refl)
