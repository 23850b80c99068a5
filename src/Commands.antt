-- ===== src/Commands.antt =====
-- cmd/kmresolv/cmd_cli.go: the commands that talk to a running server. flag.Parse is a
-- parameter: what it finds for each flag, with the arguments that are left, or none where it ends
-- the program. So are LoadConfig, and http.Get and http.Post with the decoding of the answer.
mod Display
pub mod Main
pub mod Shown
pub mod Newest
mod Tests
use km_resolv.Prelude.{
  ℕ, zero, suc, ◌+◌, ◌-◌, ◌/◌, ◌%◌, ◌^◌, Bool, true, false, not, ◌||◌, Option, none, some, List, [],
  ◌∷◌, ◌++◌, Text, codes, Result, ok, err, ◌==◌, nat_eq, list_eq, ltb, leb, length, replicate, map,
  drop, get_elem?, set, if◌then◌else◌,
}
pub use Display.{CliStats, status_lines, show_entry}
use km_resolv.Config.{ℤ, pos, negsuc, Config}
use km_resolv.Config.Files.{Loaded, loaded}
use km_resolv.Server.Minecraft.{decimal_int}
use km_resolv.Server.QueryLog.{QueryEntry}
use km_resolv.Server.Verdict.{decimal}

pub record CliConfig : Type 0 where
  pub host : Text
  pub port : ℤ

unfoldable pub base_url : CliConfig → Text
base_url c = codes "http://" ++ (c.host ++ (codes ":" ++ decimal_int c.port))

-- the flags that every command takes, and the arguments behind them
pub record CliFlags : Type 0 where
  pub config : Text
  pub host : Text
  pub port : ℤ
  pub rest : List Text

pub record FlushFlags : Type 0 where
  pub expired : Bool
  pub negative : Bool
  pub rest : List Text

pub record LogFlags : Type 0 where
  pub n : ℤ
  pub rest : List Text

-- What becomes of a command: what it prints on the standard output, the message with which it
-- exits with 1, the end that flag.Parse makes of it, or a panic.
pub data Outcome : Type 0 where
  printed : List Text → Outcome
  failed : Text → Outcome
  bad_flags : Outcome
  panicked : Outcome

-- the answer to a request, decoded
pub data Reply (A : Type 0) : Type 0 where
  unreachable : Reply A
  undecodable : Text → Reply A
  decoded : A → Reply A

-- the body of a POST before json.Marshal: null, or the object with a domain
pub data Body : Type 0 where
  null_body : Body
  domain_body : Text → Body

abbrev pub local_host : Text
local_host = codes "127.0.0.1"

-- the address of the dashboard by the configuration, if it can be read
abbrev pub configured : Option Config → CliConfig
configured none = record { host = local_host; port = pos 8080 }
configured (some cfg) = record {
  host = if cfg.dashboard.listen == codes "0.0.0.0" then local_host else cfg.dashboard.listen;
  port = cfg.dashboard.port;
}

abbrev is_unset : ℤ → Bool
is_unset (pos n) = n == 0
is_unset (negsuc n) = false

abbrev pub over_config : CliFlags → CliConfig → CliConfig
over_config f c = record {
  host = if f.host == [] then c.host else f.host;
  port = if is_unset f.port then c.port else f.port;
}

-- the mode of `flush`
unfoldable pub flush_mode : Bool → Bool → Text
flush_mode expired negative =
    if negative then codes "negative" else if expired then codes "expired" else codes "all"

-- start of `log`: len - n, which wraps at 64 bits, and not below 0
unfoldable pub log_start : ℕ → ℤ → ℕ
log_start len (pos n) = len - n
log_start len (negsuc k) = let start = len + (k + 1) in if ltb start (2 ^ 63) then start else 0

module _ {A : Type 0} where
  -- entries[i], entries[j] = entries[j], entries[i]; none for an index out of range
  abbrev pub swap : ℕ → ℕ → List A → Option (List A)
  swap i j xs = elim (get_elem? xs i) [
    | none ↦ none
    | some a ↦ elim (get_elem? xs j) [ none ↦ none | some b ↦ some (set (set xs i b) j a) ]
  ]

  -- The loop of `log` that turns the entries round in place, with fuel for its rounds. Where there
  -- are no entries j starts at -1 in the source, and at 0 here: no round either way.
  unfoldable pub turn : ℕ → ℕ → ℕ → List A → Option (List A)
  turn zero i j xs = none
  turn (suc fuel) i j xs = elim (ltb i j) [
    | false ↦ some xs
    | true ↦ elim (swap i j xs) [ none ↦ none | some ys ↦ turn fuel (i + 1) (j - 1) ys ]
  ]

  -- The entries that `log` prints: none is the panic of entries[start:].
  unfoldable pub shown : ℤ → List A → Option (List A)
  shown n entries =
      let start = log_start (length entries) n in
      if leb start (length entries)
      then (let tail = drop start entries in turn (length tail + 1) 0 (length tail - 1) tail)
      else none

abbrev pub no_dashboard : CliConfig → Text
no_dashboard target =
    codes "could not reach kmresolv dashboard at "
    ++ (base_url target ++ (226 ∷ 128 ∷ 148 ∷ codes " is the server running?"))

abbrev loaded_or_none : Loaded → Option Config
loaded_or_none (loaded cfg) = some cfg
loaded_or_none other = none

-- What a command prints of an answer; a failed request is its message.
abbrev pub outcome_of : {A : Type 0} → CliConfig → (A → Outcome) → Reply A → Outcome
outcome_of target show unreachable = failed (no_dashboard target)
outcome_of target show (undecodable e) = failed e
outcome_of target show (decoded a) = show a

-- the lines of `log`, between two empty ones
abbrev pub log_lines : (ℕ → Text) → ℤ → List QueryEntry → Outcome
log_lines clock n entries = elim (shown n entries) [
  | none ↦ panicked
  | some es ↦ printed ([] ∷ (map (show_entry clock) es ++ [] ∷ []))
]

module _ (parse_cli : List Text → Option CliFlags) (load : Text → Loaded) where
  unfoldable pub resolve_cli_config : List Text → Option (CliConfig × List Text)
  resolve_cli_config args = elim (parse_cli args) [
    | none ↦ none
    | some f ↦ some (over_config f (configured (loaded_or_none (load f.config))), f.rest)
  ]

  unfoldable pub cmd_status : (Text → Reply CliStats) → List Text → Outcome
  cmd_status get args = elim (resolve_cli_config args) [
    | none ↦ bad_flags
    | some (target, rest) ↦
        outcome_of target (λ s. printed (status_lines s))
          (get (base_url target ++ codes "/api/stats"))
  ]

  unfoldable pub cmd_log :
      (List Text → Option LogFlags)
      → (ℕ → Text)
      → (Text → Reply (List QueryEntry))
      → List Text
      → Outcome
  cmd_log parse_log clock get args = elim (parse_log args) [
    | none ↦ bad_flags
    | some f ↦ elim (resolve_cli_config f.rest) [
      | none ↦ bad_flags
      | some (target, rest) ↦
          outcome_of target (log_lines clock f.n) (get (base_url target ++ codes "/api/querylog"))
    ]
  ]

  module _ {World : Type 0} (post : Text → Body → World → World × Reply Unit) where
    abbrev pub send : CliConfig → Text → Body → Text → World → World × Outcome
    send target path body line w =
        let (w', reply) = post (base_url target ++ path) body w in
        (w', outcome_of target (λ u. printed (line ∷ [])) reply)

    unfoldable pub cmd_flush : (List Text → Option FlushFlags) → List Text → World → World × Outcome
    cmd_flush parse_flush args w = elim (parse_flush args) [
      | none ↦ (w, bad_flags)
      | some f ↦ elim (resolve_cli_config f.rest) [
        | none ↦ (w, bad_flags)
        | some (target, rest) ↦
            let mode = flush_mode f.expired f.negative in
            send target (codes "/api/cache/flush?mode=" ++ mode) null_body
              (codes "cache flushed (" ++ (mode ++ codes ")")) w
      ]
    ]

    -- what `block` and `unblock` share
    abbrev pub send_domain : Text → Text → Text → List Text → World → World × Outcome
    send_domain usage path verb args w = elim (resolve_cli_config args) [
      | none ↦ (w, bad_flags)
      | some (target, []) ↦ (w, failed usage)
      | some (target, domain ∷ rest) ↦ send target path (domain_body domain) (verb ++ domain) w
    ]

    unfoldable pub cmd_block : List Text → World → World × Outcome
    cmd_block =
        send_domain (codes "usage: kmresolv block <domain>") (codes "/api/filter/add")
          (codes "blocked: ")

    unfoldable pub cmd_unblock : List Text → World → World × Outcome
    cmd_unblock =
        send_domain (codes "usage: kmresolv unblock <domain>") (codes "/api/filter/remove")
          (codes "unblocked: ")
