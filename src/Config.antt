-- ===== src/Config.antt =====
-- internal/config/config.go: the configuration, its defaults and its checks. A Go int is a ℤ where
-- the code tests its sign. `parse_cidr` stands for net.ParseCIDR, of the standard library; what it
-- returns is not looked at here, only whether it is an error.
pub mod Files
pub mod Valid
pub mod Limits
mod Tests
use km_resolv.Prelude.{
  ◌-◌, ◌%◌, ◌^◌, ℕ, suc, zero, ◌+◌, Bool, true, false, not, ◌&&◌, ◌||◌, Option, none, some, List,
  [], ◌∷◌, Text, codes, ◌==◌, nat_eq, list_eq, leb, to_lower, has_prefix, contains, if◌then◌else◌,
}
use km_resolv.Server.Acl.{AclRule, AclConfig}
use km_resolv.Server.Zones.{ZoneConfig}
use km_resolv.Records.Build.{RecordConfig}
use km_resolv.Filter.{FilterConfig}

-- `negsuc n` is -1 - n.
pub data ℤ : Type 0 where
  pos : ℕ → ℤ
  negsuc : ℕ → ℤ

-- the 64 bits of an int
unfoldable pub bits64 : ℤ → ℕ
bits64 (pos n) = n % 2 ^ 64
bits64 (negsuc n) = 2 ^ 64 - 1 - n % 2 ^ 64

-- an int, or 0 where it is negative
abbrev pub natural : ℤ → ℕ
natural (pos n) = n
natural (negsuc n) = 0

pub record ServerConfig : Type 0 where
  pub listen : Text
  pub port : ℤ
  pub log_level : Text
  pub query_log_file : Text

pub record RateLimitConfig : Type 0 where
  pub enabled : Bool
  pub qps : ℤ
  pub burst : ℤ

pub record ForwarderConfig : Type 0 where
  pub enabled : Bool
  pub servers : List Text
  pub fallback_to_iterative : Bool

pub record CacheConfig : Type 0 where
  pub enabled : Bool
  pub negative_ttl : ℤ
  pub prefetch : Bool
  pub min_ttl : ℤ
  pub max_size : ℤ

pub record ResolverConfig : Type 0 where
  pub timeout : ℕ
  pub attempt_timeout_ms : ℤ
  pub max_depth : ℤ
  pub max_concurrent : ℤ
  pub edns0 : Bool
  pub tcp_fallback : Bool
  pub dnssec : Bool
  pub rate_limit : RateLimitConfig
  pub cache : CacheConfig
  pub forwarder : ForwarderConfig
  pub zones : List ZoneConfig
  pub acl : AclConfig

pub record AuthConfig : Type 0 where
  pub username : Text
  pub password : Text

pub record DashboardConfig : Type 0 where
  pub enabled : Bool
  pub listen : Text
  pub port : ℤ
  pub auth : AuthConfig
  pub tls_cert_file : Text
  pub tls_key_file : Text

pub record UpdaterConfig : Type 0 where
  pub check_enabled : Bool

pub record MinecraftConfig : Type 0 where
  pub enabled : Bool
  pub listen : Text
  pub port : ℤ
  pub min_ram : Text
  pub max_ram : Text

pub record Config : Type 0 where
  pub path : Text
  pub server : ServerConfig
  pub resolver : ResolverConfig
  pub records : List RecordConfig
  pub filtering : FilterConfig
  pub dashboard : DashboardConfig
  pub updater : UpdaterConfig
  pub minecraft : MinecraftConfig

abbrev pub defaults : Config
defaults = record {
  path = [];
  server = record {
    listen = codes "0.0.0.0";
    port = pos 53;
    log_level = codes "info";
    query_log_file = [];
  };
  resolver = record {
    timeout = 3;
    attempt_timeout_ms = pos 800;
    max_depth = pos 20;
    max_concurrent = pos 64;
    edns0 = true;
    tcp_fallback = true;
    dnssec = false;
    rate_limit = record { enabled = true; qps = pos 100; burst = pos 200 };
    cache = record {
      enabled = true;
      negative_ttl = pos 300;
      prefetch = true;
      min_ttl = pos 30;
      max_size = pos 0;
    };
    forwarder = record {
      enabled = false;
      servers = codes "1.1.1.1" ∷ codes "8.8.8.8" ∷ [];
      fallback_to_iterative = true;
    };
    zones = [];
    acl = record { default = codes "allow"; rules = [] };
  };
  records = [];
  filtering = record { mode = codes "off"; inline = []; lists = []; reload_interval_hours = 0 };
  dashboard = record {
    enabled = true;
    listen = codes "127.0.0.1";
    port = pos 8080;
    auth = record { username = []; password = [] };
    tls_cert_file = [];
    tls_key_file = [];
  };
  updater = record { check_enabled = true };
  minecraft = record {
    enabled = false;
    listen = codes "0.0.0.0";
    port = pos 25565;
    min_ram = codes "1G";
    max_ram = codes "2G";
  };
}

-- An error of validate, with what its text mentions.
pub data ConfigError : Type 0 where
  port_range : ℤ → ConfigError
  acl_default : ConfigError
  zone_domain : ℕ → ConfigError
  zone_servers : ℕ → Text → ConfigError
  rule_action : ℕ → ConfigError
  rule_subnet : ℕ → Text → ConfigError
  qps_negative : ConfigError
  burst_negative : ConfigError
  qps_zero : ConfigError
  burst_zero : ConfigError
  tls_pair : ConfigError
  filter_mode : ConfigError
  record_empty : ConfigError
  record_wildcard : Text → ConfigError

-- an if that returns, and the statements behind it
abbrev pub or_else : Option ConfigError → Option ConfigError → Option ConfigError
or_else none rest = rest
or_else (some e) rest = some e

abbrev pub fails : Bool → ConfigError → Option ConfigError
fails b e = if b then some e else none

abbrev pub negative : ℤ → Bool
negative (pos n) = false
negative (negsuc n) = true

abbrev pub is_zero : ℤ → Bool
is_zero (pos n) = n == 0
is_zero (negsuc n) = false

abbrev pub port_ok : ℤ → Bool
port_ok (pos n) = leb 1 n && leb n 65535
port_ok (negsuc n) = false

abbrev pub action_ok : Text → Bool
action_ok a = a == codes "allow" || a == codes "deny"

abbrev pub mode_ok : Text → Bool
mode_ok m = m == codes "blacklist" || (m == codes "whitelist" || m == codes "off")

abbrev pub differ : Bool → Bool → Bool
differ a b = if a then not b else b

unfoldable pub check_zones : ℕ → List ZoneConfig → Option ConfigError
check_zones i [] = none
check_zones i (z ∷ zones) =
    or_else (fails (z.domain == []) (zone_domain i))
      (or_else (fails (z.servers == []) (zone_servers i z.domain)) (check_zones (i + 1) zones))

abbrev pub wild_inside : Text → Bool
wild_inside name = contains name (codes "*") && not (has_prefix name (codes "*."))

unfoldable pub check_records : List RecordConfig → Option ConfigError
check_records [] = none
check_records (r ∷ records) =
    or_else (fails (r.name == [] || r.value == []) record_empty)
      (or_else (fails (wild_inside r.name) (record_wildcard r.name)) (check_records records))

unfoldable pub check_limit : RateLimitConfig → Option ConfigError
check_limit r = or_else (fails (negative r.qps) qps_negative) (
    or_else (fails (negative r.burst) burst_negative) (
      or_else (fails (r.enabled && is_zero r.qps) qps_zero)
        (fails (r.enabled && is_zero r.burst) burst_zero)))

module _ {Net : Type 0} (parse_cidr : Text → Option Net) where
  abbrev pub bad_subnet : Text → Bool
  bad_subnet s = elim (parse_cidr s) [ none ↦ true | some net ↦ false ]

  unfoldable pub check_rules : ℕ → List AclRule → Option ConfigError
  check_rules i [] = none
  check_rules i (r ∷ rules) =
      or_else (fails (not (action_ok (to_lower r.action))) (rule_action i))
        (or_else (fails (bad_subnet r.subnet) (rule_subnet i r.subnet)) (check_rules (i + 1) rules))

  -- Config.validate: `none` is no error
  unfoldable pub validate : Config → Option ConfigError
  validate c =
      let d = to_lower c.resolver.acl.default in
      or_else (fails (not (port_ok c.server.port)) (port_range c.server.port)) (
        or_else (fails (not (d == [] || action_ok d)) acl_default) (
          or_else (check_zones 0 c.resolver.zones) (
            or_else (check_rules 0 c.resolver.acl.rules) (
              or_else (check_limit c.resolver.rate_limit) (
                or_else
                  (fails (differ (c.dashboard.tls_cert_file == []) (c.dashboard.tls_key_file == []))
                    tls_pair)
                  (or_else (fails (not (mode_ok (to_lower c.filtering.mode))) filter_mode)
                    (check_records c.records)))))))

unfoldable pub auth_enabled : Config → Bool
auth_enabled c = not (c.dashboard.auth.username == []) && not (c.dashboard.auth.password == [])
