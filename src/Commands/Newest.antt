-- ===== src/Commands/Newest.antt =====
-- From the log of the resolver over the dashboard to what cmdLog of cmd/kmresolv/cmd_cli.go prints.
use mathlib.Core.List.{reverse}
use km_resolv.Prelude.{
  ℕ, ◌-◌, ◌^◌, ◌≤◌, ◌<◌, ◌≡◌, refl, sym, ap, subst, ◌∙◌, Option, some, List, [], ◌∷◌, ◌++◌, Text,
  codes, arith, length, take, drop, map, length-drop,
}
use km_resolv.Config.{Config, ℤ, pos, negsuc}
use km_resolv.Config.Files.{Loaded}
use km_resolv.Server.QueryLog.{QueryEntry, new_query_log, add_all, recent, recent-add_all}
use km_resolv.Server.Handle.{Server}
use km_resolv.Server.Boot.{log_size}
use km_resolv.Dashboard.{Request}
use km_resolv.Dashboard.Reads.{given, serve_querylog, serve_querylog-given}
use km_resolv.Commands.{
  CliFlags, CliConfig, LogFlags, Reply, decoded, printed, panicked, base_url, resolve_cli_config,
  cmd_log, show_entry, log_lines,
}
use km_resolv.Commands.Shown.{shown-newest, shown-negative, reverse-drop}

module _ (parse_cli : List Text → Option CliFlags) (load : Text → Loaded)
    (parse_log : List Text → Option LogFlags) (clock : ℕ → Text)
    (get : Text → Reply (List QueryEntry)) where
  -- `log` where the flags and the configuration are read, and the dashboard answers
  cmd_log-lines :
      (args rest left : List Text) (n : ℤ) (target : CliConfig) (entries : List QueryEntry)
      → parse_log args ≡ some (record { n = n; rest = rest })
      → resolve_cli_config parse_cli load rest ≡ some (target, left)
      → get (base_url target ++ codes "/api/querylog") ≡ decoded entries
      → cmd_log parse_cli load parse_log clock get args ≡ log_lines clock n entries
  unfolding cmd_log
  cmd_log-lines args rest left n target entries p q g = rw (cmd_log, p, q, g) refl

  recent-newest :
      (marshal : QueryEntry → Option Text) (es : List QueryEntry) (file : Option (List Text))
      → recent 100 (add_all marshal es (new_query_log log_size file)) ≡ drop (length es - 100) es
  recent-newest marshal es file = recent-add_all marshal es log_size file 100 (omega arith)

  length-newest : (es : List QueryEntry) → length (drop (length es - 100) es) ≤ 100
  length-newest es = omega (arith, length-drop (length es - 100) es)

  -- Whatever the resolver has logged since its start, if the dashboard lets the request through and
  -- its answer arrives: `kmresolv log --n` prints the last n entries, 100 at most, or all where there
  -- are fewer, with the newest first; and with an n below 0 and not below -2^62 it panics.
  pub cmd_log-newest :
      {World Net : Type 0} (s : Server World Net) (marshal : QueryEntry → Option Text)
      (es : List QueryEntry) (file : Option (List Text)) (mac : Text → Text → Text)
      (secret session : Text) (cfg : Config) (r : Request) (args args' rest left : List Text)
      (n k : ℕ) (target : CliConfig) (entries : List QueryEntry)
      → s.qlog ≡ add_all marshal es (new_query_log log_size file)
      → serve_querylog mac secret session cfg r s ≡ given entries
      → get (base_url target ++ codes "/api/querylog") ≡ decoded entries
      → resolve_cli_config parse_cli load rest ≡ some (target, left)
      → parse_log args ≡ some (record { n = pos n; rest = rest })
      → parse_log args' ≡ some (record { n = negsuc k; rest = rest })
      → k < 2 ^ 62
      → (cmd_log parse_cli load parse_log clock get args
          ≡ printed ([] ∷ (map (show_entry clock) (take n (take 100 (reverse es))) ++ [] ∷ [])))
        × (cmd_log parse_cli load parse_log clock get args' ≡ panicked)
  cmd_log-newest s marshal es file mac secret session cfg r args args' rest left n k target entries
        logged served fetched resolved parsed parsed' below =
      let newest : entries ≡ drop (length es - 100) es =
        serve_querylog-given mac secret session cfg r s entries served
        ∙ ap (recent 100) logged
        ∙ recent-newest marshal es file in
      let short : length entries ≤ 100 =
        subst (λ (xs : List QueryEntry). length xs ≤ 100) (sym newest) (length-newest es) in
      let turned : reverse entries ≡ take 100 (reverse es) =
        ap reverse newest ∙ reverse-drop 100 es in
      (
        cmd_log-lines args rest left (pos n) target entries parsed resolved fetched
            ∙ rw (log_lines, shown-newest n entries, turned) refl,
        cmd_log-lines args' rest left (negsuc k) target entries parsed' resolved fetched
            ∙ rw (log_lines, shown-negative k entries (omega (arith, short, below))) refl,
      )
