-- ===== src/Server/Boot/Tests.antt =====
-- The theorem about a server from New on, at a server to which some things happen.
use km_resolv.Prelude.{
  ℕ, ◌≤◌, ◌≡◌, refl, true, false, Option, none, some, List, [], ◌∷◌, Text, codes, err, length, ◌==◌,
  nat_eq, list_eq, to_lower, lookup,
}
use km_resolv.Filter as Filter
use km_resolv.Records.{new_record_store, add_records}
use km_resolv.Records.Build.{invalid}
use km_resolv.Config.{defaults}
use km_resolv.Dnssec.Verify.{Crypto}
use km_resolv.Server.ConnPool.{conns}
use km_resolv.Server.Query.{Network}
use km_resolv.Server.Handle as Handle
use km_resolv.Server.QueryLog.{new_query_log}
use km_resolv.Server.RateLimit.{new_rate_limiter, allow, tidy, bucket, accrued}
use km_resolv.Server.History.{zero_bucket, new_stats_history}
use km_resolv.Server.Acl.{new_compiled_acl, compile_rules, allowed, first_match}
use km_resolv.Server.Resolve.Bounded.{new_upstream}
use km_resolv.Dns.Parse.{parse_message}
use km_resolv.Server.Admin.{add_block, set_filter_mode}
use km_resolv.Server.Admin.Sync.{apply, add_block_edit, mode_edit}
use km_resolv.Server.Boot.{
  Machine, Event, packet, janitor, reloading, reloaded, sampling, editing, flushing, new_server,
  step, run,
}
use km_resolv.Server.Boot.Healthy.{IsHealthy, run-IsHealthy}

abbrev crypto : Crypto
crypto = record {
  digest = λ type data'. [];
  rsa = λ hash n e data' signature. false;
  ecdsa = λ curve x y r s data'. false;
  ed25519 = λ key data' signature. false;
}

-- a network that cannot be reached
abbrev network : Network ℕ
network = record {
  clock = λ w. w;
  dial = λ w server. none;
  dial_error = λ w server. codes "refused";
  write = λ server conn packed w. (w, some (codes "closed"));
  read = λ server conn w. (w, err (codes "closed"));
  read_full = λ server conn n w. (w, err (codes "EOF"));
  bad_url = λ url. none;
  post = λ url body w. (w, err (codes "refused"));
  random_id = λ w. 7;
  has_port = λ s. true;
  show_ip = λ ip. [];
  shuffle = λ names w. (w, names);
  a_first = λ name w. true;
}

abbrev events : List (Event ℕ Text)
events =
    editing (add_block_edit (codes "ads")) []
    ∷ reloading (λ source. none)
    ∷ editing (mode_edit (codes "whitelist")) []
    ∷ reloaded 0
    ∷ janitor 9
    ∷ sampling
    ∷ packet (record {
      src = record { ip = codes "10.0.0.1"; client = codes "10.0.0.1:9" };
      raw = 1 ∷ 2 ∷ [];
      joined = none;
      world = 12;
    })
    ∷ flushing (codes "all") 13
    ∷ []

abbrev start : Machine ℕ Text
start = record {
  cfg = defaults;
  server = record {
    filter = Filter.new_filter (λ source. none) defaults.filtering;
    records = [];
    qlog = new_query_log 500 none;
    limiter = some (new_rate_limiter 100 200);
    acl = new_compiled_acl (λ s. some s) (λ s. some s) (λ net ip. net == ip) defaults.resolver.acl;
    upstream = new_upstream defaults 5;
    total_queries = 0;
    cache_hits = 0;
    blocked = 0;
    total_latency_ms = 0;
  };
  history = new_stats_history;
  sampled = zero_bucket;
  reloads = [];
  minecraft = none;
}

abbrev boot : Option (Machine ℕ Text)
boot =
    new_server network crypto [] (λ e. none) (λ s. some s) (λ s. some s) (λ net ip. net == ip)
      (λ c. some (codes "yaml")) (λ path text (fs : Text). some text) (λ r. invalid)
      (λ source. none) (λ path. none) defaults 5

made : boot ≡ some start
unfolding new_server new_record_store add_records
made = refl

abbrev after : Option (Machine ℕ Text)
after =
    run network crypto [] (λ e. none) (λ s. some s) (λ s. some s) (λ net ip. net == ip)
      (λ c. some (codes "yaml")) (λ path text (fs : Text). some text) (λ r. invalid) events start

abbrev behind : Machine ℕ Text
behind = elim after [ none ↦ start | some m ↦ m ]

ran : after ≡ some behind
unfolding run step apply add_block Handle.handle_query Handle.limit Handle.accept allowed
    first_match new_compiled_acl compile_rules parse_message to_lower allow accrued tidy
    new_rate_limiter bucket lookup set_filter_mode
ran = refl

run-IsHealthy_example :
    IsHealthy (λ r. invalid) behind
    × (length (conns (codes "8.8.8.8:53") behind.server.upstream.pool) ≤ 16)
    × (length (conns (codes "8.8.8.8:53") behind.server.upstream.tcp_pool) ≤ 4)
    × (length (conns (codes "8.8.8.8:53") behind.server.upstream.dot_pool) ≤ 4)
run-IsHealthy_example =
    run-IsHealthy network crypto [] (λ e. none) (λ s. some s) (λ s. some s) (λ net ip. net == ip)
      (λ c. some (codes "yaml")) (λ path text (fs : Text). some text) (λ r. invalid)
      (λ source. none) (λ path. none) defaults 5 events start behind (codes "8.8.8.8:53") made ran
