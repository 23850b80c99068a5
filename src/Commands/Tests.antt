-- ===== src/Commands/Tests.antt =====
-- The theorem about `log`, at a resolver that has logged three queries.
use mathlib.Core.List.{reverse}
use km_resolv.Prelude.{
  ℕ, ◌≡◌, refl, Option, none, some, List, [], ◌∷◌, ◌++◌, map, take, Text, codes, ◌==◌, nat_eq,
  list_eq, arith, if◌then◌else◌,
}
use km_resolv.Filter.{new_filter}
use km_resolv.Config.{pos, negsuc, defaults, auth_enabled}
use km_resolv.Config.Files.{Loaded, loaded}
use km_resolv.Server.QueryLog.{QueryEntry, new_query_log, add_all, add, recent}
use km_resolv.Server.Ring.{read_round}
use km_resolv.Server.Acl.{new_compiled_acl}
use km_resolv.Server.Resolve.Bounded.{new_upstream}
use km_resolv.Server.Handle.{Server}
use km_resolv.Server.Boot.{log_size}
use km_resolv.Server.Snapshot.{recent_queries}
use km_resolv.Server.Minecraft.{decimal_int}
use km_resolv.Server.Verdict.{decimal, decimal_from}
use km_resolv.Dashboard.{Request, require_auth}
use km_resolv.Dashboard.Reads.{given, serve_querylog}
use km_resolv.Commands.{
  CliFlags, CliConfig, LogFlags, Reply, decoded, unreachable, printed, panicked, base_url,
  resolve_cli_config, cmd_log, show_entry, configured,
}
use km_resolv.Commands.Newest.{cmd_log-newest}

abbrev entry : Text → QueryEntry
entry domain = record {
  time = 5;
  domain = domain;
  type = codes "A";
  client = codes "10.0.0.1:9";
  status = codes "cached";
  latency = 3;
}

abbrev entries : List QueryEntry
entries = entry (codes "a") ∷ entry (codes "b") ∷ entry (codes "c") ∷ []

abbrev marshal : QueryEntry → Option Text
marshal e = some e.domain

abbrev server : Server ℕ Text
server = record {
  filter = new_filter (λ source. none) defaults.filtering;
  records = [];
  qlog = add_all marshal entries (new_query_log log_size none);
  limiter = none;
  acl = new_compiled_acl (λ s. some s) (λ s. some s) (λ net ip. net == ip) defaults.resolver.acl;
  upstream = new_upstream defaults 5;
  total_queries = 3;
  cache_hits = 3;
  blocked = 0;
  total_latency_ms = 9;
}

abbrev local : Request
local = record { method = codes "GET"; remote_addr = codes "127.0.0.1:4000"; cookie = none }

abbrev mac : Text → Text → Text
mac key text = key ++ text

-- two entries without arguments, and -1 with one
abbrev parse_log : List Text → Option LogFlags
parse_log [] = some (record { n = pos 2; rest = [] })
parse_log (a ∷ args) = some (record { n = negsuc 0; rest = [] })

abbrev parse_cli : List Text → Option CliFlags
parse_cli args = some (record { config = codes "config.yml"; host = []; port = pos 0; rest = args })

abbrev load : Text → Loaded
load path = loaded defaults

abbrev target : CliConfig
target = configured (some defaults)

abbrev url : Text
url = base_url target ++ codes "/api/querylog"

abbrev get : Text → Reply (List QueryEntry)
get u = if u == url then decoded entries else unreachable

abbrev clock : ℕ → Text
clock t = codes "12:00:00"

served_entries : serve_querylog mac (codes "k") (codes "ab") defaults local server ≡ given entries
unfolding serve_querylog require_auth auth_enabled recent_queries recent read_round add_all add
    new_query_log
served_entries = refl

resolved : resolve_cli_config parse_cli load [] ≡ some (target, [])
unfolding resolve_cli_config
resolved = refl

fetched : get url ≡ decoded entries
unfolding base_url decimal_int decimal decimal_from
fetched = refl

cmd_log-newest_example :
    (cmd_log parse_cli load parse_log clock get []
      ≡ printed ([] ∷ (map (show_entry clock) (take 2 (take 100 (reverse entries))) ++ [] ∷ [])))
    × (cmd_log parse_cli load parse_log clock get (codes "--n" ∷ codes "-1" ∷ []) ≡ panicked)
cmd_log-newest_example =
    cmd_log-newest parse_cli load parse_log clock get server marshal entries none mac (codes "k")
      (codes "ab") defaults local [] (codes "--n" ∷ codes "-1" ∷ []) [] [] 2 0 target entries refl
      served_entries fetched resolved refl refl (omega arith)
