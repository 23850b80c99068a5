-- ===== src/Config/Tests.antt =====
-- The theorems about the configuration, at concrete ones. A net is a text here, and a file system
-- a map from paths; YAML is a text that stands for one configuration.
use km_resolv.Prelude.{
  ◌≡◌, refl, Option, none, some, [], Text, codes, ◌==◌, nat_eq, list_eq, if◌then◌else◌, Map, lookup,
  insert, ◌↔◌, ◌⊎◌, length, to_lower,
}
use km_resolv.Server.Acl.{compile_rules}
use km_resolv.Config.{
  Config, defaults, validate, check_zones, check_rules, check_limit, check_records,
}
use km_resolv.Config.Valid.{IsValid, validate-IsValid}
use km_resolv.Config.Files.{Read, content, missing, loaded, no_path, save, load_config}
use km_resolv.Config.Limits.{load_config-IsValid}

abbrev Files : Type 0
Files = Map Text Text

abbrev read : Text → Files → Read
read path files = elim (lookup path files) [ none ↦ missing | some text ↦ content text ]

abbrev write : Text → Text → Files → Option Files
write path text files = some (insert path text files)

abbrev cidr : Text → Option Text
cidr s = if s == [] then none else some s

abbrev home : Config
home = record defaults {
  path = codes "config.yml";
  server = record defaults.server { log_level = codes "debug" };
}

home-ok : validate cidr home ≡ none
unfolding validate check_zones check_rules check_limit check_records to_lower
home-ok = refl

validate-IsValid_example : (validate cidr home ≡ none) ↔ IsValid cidr home
validate-IsValid_example = validate-IsValid cidr home

-- what stands for YAML: the level of the log, the rest as in `home`
abbrev marshal : Config → Option Text
marshal c = some c.server.log_level

abbrev unmarshal : Text → Config → Option Config
unmarshal text c = some (record home { path = []; server = record c.server { log_level = text } })

loads_defaults : load_config cidr read unmarshal (codes "config.yml") [] ≡ loaded defaults
unfolding load_config lookup
loads_defaults = refl

load_config-IsValid_example :
    IsValid cidr defaults
    × (length (compile_rules cidr (λ s. some s) (λ net ip. net == ip) defaults.resolver.acl.rules)
        ≡ length defaults.resolver.acl.rules)
    × ((defaults.path ≡ codes "config.yml")
        ⊎ ((read (codes "config.yml") [] ≡ missing)
            × (defaults ≡ defaults)
            × (save marshal write defaults [] ≡ no_path)))
load_config-IsValid_example =
    load_config-IsValid cidr (λ s. some s) (λ net ip. net == ip) read unmarshal marshal write
      (codes "config.yml") [] [] defaults loads_defaults
