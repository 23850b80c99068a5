-- ===== src/Server/Boot.antt =====
-- New of internal/server/server.go, and what happens to a server afterwards: packets, the ends of
-- prefetches, the ticks of the loops that Start leaves running, and changes from the dashboard. A
-- reload reads the configuration and its lists first, and changes the filter when it has the lock, with
-- anything in between. The loops' channels and the sockets are left out.
pub mod Upkeep
pub mod Healthy
pub mod Prefetched
mod Tests
use km_resolv.Prelude.{
  get_elem?, take, drop, ◌+◌, ℕ, ◌+◌, ◌*◌, Bool, true, false, Option, none, some, List, [], ◌∷◌,
  ◌++◌, Text, codes, Result, ok, err, ◌==◌, nat_eq, list_eq, if◌then◌else◌,
}
use km_resolv.Dns.{Message}
use km_resolv.Filter.{FilterState, new_filter, load_for_reload, store_reload}
use km_resolv.Cache.{new_cache, set_max_size, set_min_ttl, set_prefetch_fn, finish_prefetch}
use km_resolv.Cache.Sweep.{evict_all, flush}
use km_resolv.Records.{RecordStore, new_record_store}
use km_resolv.Records.Build.{RecordConfig, Built}
use km_resolv.Config.{Config, natural}
use km_resolv.Dnssec.Verify.{Crypto}
use km_resolv.Dnssec.Zone.{Keys}
use km_resolv.Server.QueryLog.{QueryEntry, new_query_log}
use km_resolv.Server.History.{HistoryBucket, StatsHistory, zero_bucket, new_stats_history, sample}
use km_resolv.Server.RateLimit.{new_rate_limiter}
use km_resolv.Server.Acl.{new_compiled_acl}
use km_resolv.Server.ConnPool.{ConnPool, reap_idle}
use km_resolv.Server.Zones.{lookup_zone}
use km_resolv.Server.Query.{Network, Upstream}
use km_resolv.Server.Forward.{resolve_via_servers}
use km_resolv.Server.Iterate.{resolve_from_root}
use km_resolv.Server.Resolve.{resolve_forwarded}
use km_resolv.Server.Resolve.Bounded.{new_upstream}
use km_resolv.Server.Handle.{Server, Handled, done, crashed, handle_query}
use km_resolv.Server.Handle.Counts.{Packet}
use km_resolv.Server.Admin.{Admin}
use km_resolv.Server.Admin.Sync.{Edit, apply, state_of}
use km_resolv.Server.Minecraft.{Bridge, new_minecraft_server, decimal_int}

pub record Machine (World Net : Type 0) : Type 0 where
  pub cfg : Config
  pub server : Server World Net
  pub history : StatsHistory
  -- the counters at the last tick of sampleHistory
  pub sampled : HistoryBucket
  -- the reloads of the filter that have loaded their lists and wait for its lock
  pub reloads : List FilterState
  -- the game server with the URL of its API, if it is configured
  pub minecraft : Option (Bridge × Text)

-- the part of a machine that the dashboard changes
abbrev pub admin_of : {World Net : Type 0} → Machine World Net → Admin
admin_of m = record { cfg = m.cfg; filter = m.server.filter; records = m.server.records }

-- 500 entries of the query log, 60 seconds of an idle connection
abbrev pub log_size : ℕ
log_size = 500

abbrev pub pool_idle_timeout : ℕ
pool_idle_timeout = 60 * 1000000000

-- The URL by which the game server reaches the dashboard.
unfoldable pub api_url : Config → Text
api_url cfg =
    let host = cfg.dashboard.listen in
    let host' = if host == codes "0.0.0.0" then codes "127.0.0.1" else host in
    codes "http://" ++ (host' ++ (codes ":" ++ decimal_int cfg.dashboard.port))

-- What happens to a running server.
pub data Event (World Files : Type 0) : Type 0 where
  packet : Packet World → Event World Files
  -- the end of a prefetch: its key, the number of its entry, and the world it starts in
  prefetched : Text → ℕ → ℕ → World → Event World Files
  -- the ticks of poolJanitorLoop, filterReloadLoop, evictLoop and sampleHistory
  janitor : ℕ → Event World Files
  reloading : (Text → Option (List Text)) → Event World Files
  -- the end of one of the reloads under way
  reloaded : ℕ → Event World Files
  evicting : ℕ → Event World Files
  sampling : Event World Files
  -- a change from the dashboard, on the files as they are, and its flush of the cache
  editing : Edit → Files → Event World Files
  flushing : Text → ℕ → Event World Files

-- a reload up to the lock of the filter
abbrev pub begin_reload :
    {World Net : Type 0} → (Text → Option (List Text)) → Machine World Net → Machine World Net
begin_reload fetch m = record m {
  reloads = m.reloads ++ load_for_reload fetch m.cfg.filtering ∷ [];
}

-- one of the reloads under way, from the lock on
abbrev pub end_reload : {World Net : Type 0} → ℕ → Machine World Net → Machine World Net
end_reload i m = elim (get_elem? m.reloads i) [
  | none ↦ m
  | some loaded ↦ record m {
    server = record m.server { filter = store_reload loaded m.server.filter };
    reloads = take i m.reloads ++ drop (i + 1) m.reloads;
  }
]

abbrev pub counters : {World Net : Type 0} → Server World Net → HistoryBucket
counters s = record { queries = s.total_queries; hits = s.cache_hits; blocked = s.blocked }

abbrev pub with_upstream :
    {World Net : Type 0} → Upstream World → Machine World Net → Machine World Net
with_upstream u m = record m { server = record m.server { upstream = u } }

-- the server with the configuration and what is derived from it, behind a change of the dashboard
abbrev pub with_admin : {World Net : Type 0} → Admin → Machine World Net → Machine World Net
with_admin a m = record m {
  cfg = a.cfg;
  server = record m.server { filter = a.filter; records = a.records };
}

-- a tick of poolJanitorLoop
unfoldable pub reap_pools : {World : Type 0} → ℕ → Upstream World → Upstream World
reap_pools now u = record u {
  pool = (reap_idle pool_idle_timeout now u.pool).0;
  tcp_pool = (reap_idle pool_idle_timeout now u.tcp_pool).0;
  dot_pool = (reap_idle pool_idle_timeout now u.dot_pool).0;
}

module _ {World Net Ip Files : Type 0} (net : Network World) (crypto : Crypto) (anchors : Keys)
    (entry : QueryEntry → Option Text) (parse_cidr : Text → Option Net)
    (parse_ip : Text → Option Ip) (holds : Net → Ip → Bool) (marshal : Config → Option Text)
    (write_file : Text → Text → Files → Option Files) (build : RecordConfig → Built) where
  -- New: `none` is the panic of a record. `open_log` is os.OpenFile of the query log.
  unfoldable pub new_server :
      (Text → Option (List Text))
      → (Text → Option (List Text))
      → Config
      → World
      → Option (Machine World Net)
  new_server fetch open_log cfg w =
      let limits = cfg.resolver.rate_limit in
      elim (new_record_store build cfg.records) [
        | none ↦ none
        | some store ↦ some (record {
          cfg = cfg;
          server = record {
            filter = new_filter fetch cfg.filtering;
            records = store;
            qlog = new_query_log log_size (open_log cfg.server.query_log_file);
            limiter =
                if limits.enabled
                then some (new_rate_limiter (natural limits.qps) (natural limits.burst))
                else none;
            acl = new_compiled_acl parse_cidr parse_ip holds cfg.resolver.acl;
            upstream = new_upstream cfg w;
            total_queries = 0;
            cache_hits = 0;
            blocked = 0;
            total_latency_ms = 0;
          };
          history = new_stats_history;
          sampled = zero_bucket;
          reloads = [];
          minecraft =
              if cfg.minecraft.enabled then some (new_minecraft_server, api_url cfg) else none;
        })
      ]

  -- the function that New gives to SetPrefetchFn
  unfoldable pub prefetch_answer :
      Config → Text → ℕ → Upstream World → Upstream World × Result Message
  prefetch_answer cfg name qtype s = elim (lookup_zone cfg.resolver.zones name) [
    | some zone ↦ resolve_via_servers net cfg name qtype zone.servers s
    | none ↦
        if cfg.resolver.forwarder.enabled
        then resolve_forwarded net crypto anchors cfg name qtype s
        else resolve_from_root net cfg name qtype s
  ]

  abbrev pub answer_of : Result Message → Option Message
  answer_of (ok m) = some m
  answer_of (err e) = none

  -- a prefetch with what the cache makes of it
  unfoldable pub end_prefetch : Config → Text → ℕ → ℕ → Upstream World → Upstream World
  end_prefetch cfg name qtype id s =
      let (s', r) = prefetch_answer cfg name qtype s in
      record s' {
        cache = finish_prefetch (name, qtype) id (answer_of r) (net.clock s'.world) s'.cache;
      }

  abbrev pub at_world : World → Machine World Net → Machine World Net
  at_world w m = with_upstream (record m.server.upstream { world = w }) m

  -- the machine behind a packet, none at the end of the program
  abbrev pub behind : Machine World Net → Handled World Net → Option (Machine World Net)
  behind m (done s reply) = some (record m { server = s })
  behind m crashed = none

  abbrev pub edited_to : Machine World Net → Option Admin → Option (Machine World Net)
  edited_to m none = none
  edited_to m (some a) = some (with_admin a m)

  unfoldable pub step : Event World Files → Machine World Net → Option (Machine World Net)
  step (packet p) m =
      let m' = at_world p.world m in
      behind m (
        handle_query net crypto anchors m.cfg entry parse_cidr parse_ip holds p.src p.raw p.joined
          m'.server)
  step (prefetched name qtype id w) m =
      let m' = at_world w m in
      some (with_upstream (end_prefetch m.cfg name qtype id m'.server.upstream) m')
  step (janitor now) m = some (with_upstream (reap_pools now m.server.upstream) m)
  step (reloading fetch) m = some (begin_reload fetch m)
  step (reloaded i) m = some (end_reload i m)
  step (evicting now) m =
      let u = m.server.upstream in
      some (with_upstream (record u { cache = evict_all now u.cache }) m)
  step sampling m =
      let now = counters m.server in
      some (record m { history = sample m.sampled now m.history; sampled = now })
  step (editing e files) m =
      let a = admin_of m in
      edited_to m (state_of marshal write_file build a (apply marshal write_file build e a files))
  step (flushing mode now) m =
      let u = m.server.upstream in
      some (with_upstream (record u { cache = flush mode now u.cache }) m)

  unfoldable pub run : List (Event World Files) → Machine World Net → Option (Machine World Net)
  run [] m = some m
  run (e ∷ events) m = elim (step e m) [ none ↦ none | some m' ↦ run events m' ]
