-- ===== src/Server/Snapshot.antt =====
-- What internal/server/server.go tells the dashboard: Stats, FilterStatus, GetSettings and the
-- lists that are passed on, with InlineDomains of internal/filter/filter.go and Addr of
-- internal/config/config.go. `sort` stands for sort.Strings.
use km_resolv.Prelude.{ℕ, ◌-◌, ◌/◌, Bool, List, Text, codes, ◌++◌, keys}
use km_resolv.Filter as Filter
use km_resolv.Cache.Sweep as Sweep
use km_resolv.Config.{ℤ, Config}
use km_resolv.Server.RateLimit.{second}
use km_resolv.Server.Minecraft.{decimal_int}
use km_resolv.Server.QueryLog.{QueryEntry, recent}
use km_resolv.Server.Handle.{Server}

pub record StatsSnapshot : Type 0 where
  pub total_queries : ℕ
  pub cache_hits : ℕ
  pub blocked : ℕ
  pub total_latency_ms : ℕ
  pub cache_size : ℕ
  pub cache_negative : ℕ
  pub uptime_seconds : ℕ

-- Stats at a time, of a server that was started at another
unfoldable pub stats : {World Net : Type 0} → ℕ → ℕ → Server World Net → StatsSnapshot
stats started now s = record {
  total_queries = s.total_queries;
  cache_hits = s.cache_hits;
  blocked = s.blocked;
  total_latency_ms = s.total_latency_ms;
  cache_size = Sweep.size s.upstream.cache;
  cache_negative = Sweep.negative_size s.upstream.cache;
  uptime_seconds = (now - started) / second;
}

-- the domains of f.inline in order
unfoldable pub inline_domains : (List Text → List Text) → Filter.Filter → List Text
inline_domains sort f = sort (keys f.inline)

pub record FilterStatus : Type 0 where
  pub mode : Text
  pub size : ℕ
  pub inline : List Text

unfoldable pub filter_status : (List Text → List Text) → Config → Filter.Filter → FilterStatus
filter_status sort cfg f = record {
  mode = cfg.filtering.mode;
  size = Filter.size f;
  inline = inline_domains sort f;
}

unfoldable pub recent_queries : {World Net : Type 0} → ℕ → Server World Net → List QueryEntry
recent_queries n s = recent n s.qlog

unfoldable pub addr : Config → Text
addr cfg = cfg.server.listen ++ (codes ":" ++ decimal_int cfg.server.port)

pub record SettingsSnapshot : Type 0 where
  pub edns0 : Bool
  pub tcp_fallback : Bool
  pub prefetch : Bool
  pub update_check : Bool
  pub listen : Text
  pub log_level : Text
  pub timeout : ℕ
  pub max_depth : ℤ
  pub negative_ttl : ℤ

unfoldable pub get_settings : Config → SettingsSnapshot
get_settings cfg = record {
  edns0 = cfg.resolver.edns0;
  tcp_fallback = cfg.resolver.tcp_fallback;
  prefetch = cfg.resolver.cache.prefetch;
  update_check = cfg.updater.check_enabled;
  listen = addr cfg;
  log_level = cfg.server.log_level;
  timeout = cfg.resolver.timeout;
  max_depth = cfg.resolver.max_depth;
  negative_ttl = cfg.resolver.cache.negative_ttl;
}
