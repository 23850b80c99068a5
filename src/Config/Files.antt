-- ===== src/Config/Files.antt =====
-- LoadConfig and Save of internal/config/config.go. The parameters stand for os.ReadFile,
-- os.WriteFile and the packages of YAML; a field that a file leaves out keeps the value it had.
use km_resolv.Prelude.{Option, none, some, [], Text, ◌==◌, nat_eq, list_eq, if◌then◌else◌}
use km_resolv.Config.{Config, ConfigError, defaults, validate}

-- What os.ReadFile returns: `missing` where os.IsNotExist holds of the error.
pub data Read : Type 0 where
  content : Text → Read
  missing : Read
  unreadable : Read

pub data Loaded : Type 0 where
  loaded : Config → Loaded
  read_error : Loaded
  parse_error : Loaded
  invalid_config : ConfigError → Loaded

pub data Saved (Files : Type 0) : Type 0 where
  saved : Files → Saved Files
  no_path : Saved Files
  marshal_error : Saved Files
  write_error : Saved Files

module _ {Net Files : Type 0} (parse_cidr : Text → Option Net) (read_file : Text → Files → Read)
    (unmarshal : Text → Config → Option Config) where
  abbrev pub accept : Text → Config → Loaded
  accept path c = elim (validate parse_cidr c) [
    | some e ↦ invalid_config e
    | none ↦ loaded (record c { path = path })
  ]

  unfoldable pub load_config : Text → Files → Loaded
  load_config path files = elim (read_file path files) [
    | missing ↦ loaded defaults
    | unreadable ↦ read_error
    | content text ↦ elim (unmarshal text defaults) [ none ↦ parse_error | some c ↦ accept path c ]
  ]

module _ {Files : Type 0} (marshal : Config → Option Text)
    (write_file : Text → Text → Files → Option Files) where
  unfoldable pub save : Config → Files → Saved Files
  save c files = if c.path == [] then no_path else elim (marshal c) [
    | none ↦ marshal_error
    | some text ↦ elim (write_file c.path text files) [
      | none ↦ write_error
      | some files' ↦ saved files'
    ]
  ]
