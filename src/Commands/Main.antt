-- ===== src/Commands/Main.antt =====
-- main of cmd/kmresolv/main.go: the choice of a command.
use km_resolv.Prelude.{◌||◌, List, [], ◌∷◌, Text, codes, ◌==◌, nat_eq, list_eq, if◌then◌else◌}

-- What main does with os.Args.
pub data Invocation : Type 0 where
  usage : Invocation
  usage_error : Invocation
  unknown_command : Text → Invocation
  version : Invocation
  serve_command : List Text → Invocation
  status_command : List Text → Invocation
  flush_command : List Text → Invocation
  block_command : List Text → Invocation
  unblock_command : List Text → Invocation
  log_command : List Text → Invocation

unfoldable pub invocation : List Text → Invocation
invocation [] = usage_error
invocation (program ∷ []) = usage_error
invocation (program ∷ c ∷ args) =
    if c == codes "serve"
    then serve_command args
    else if c == codes "status"
    then status_command args
    else if c == codes "flush"
    then flush_command args
    else if c == codes "block"
    then block_command args
    else if c == codes "unblock"
    then unblock_command args
    else if c == codes "log"
    then log_command args
    else if c == codes "version"
    then version
    else if c == codes "help" || (c == codes "--help" || c == codes "-h")
    then usage
    else unknown_command c
