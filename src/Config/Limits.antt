-- ===== src/Config/Limits.antt =====
-- What LoadConfig and Save of internal/config/config.go give to each other and to the access list.
use km_resolv.Prelude.{
  ◌≡◌, ◌⊎◌, refl, ap, ◌∙◌, sym, Bool, Option, none, some, List, [], ◌∷◌, Text, arith, length, All,
  Option-cases, inl, inr, nat_eq, list_eq, to_lower, subst,
}
use km_resolv.Server.Acl.{AclRule, compile_rules}
use km_resolv.Config.{
  Config, defaults, validate, check_zones, check_rules, check_limit, check_records,
}
use km_resolv.Config.Valid.{IsRule, IsValid, validate-IsValid}
use km_resolv.Config.Files.{
  Read, content, missing, unreadable, Loaded, loaded, saved, no_path, save, load_config, accept,
}

module _ {Net Ip : Type 0} (parse_cidr : Text → Option Net) (parse_ip : Text → Option Ip)
    (holds : Net → Ip → Bool) where
  compile_rules-all :
      (rules : List AclRule)
      → All (IsRule parse_cidr) rules
      → length (compile_rules parse_cidr parse_ip holds rules) ≡ length rules
  unfolding compile_rules
  compile_rules-all [] h = refl
  compile_rules-all (r ∷ rules) h = ground (arith, h.0.1, compile_rules-all rules h.1)

module _ {Net : Type 0} (parse_cidr : Text → Option Net) where
  defaults-ok : validate parse_cidr defaults ≡ none
  unfolding validate check_zones check_rules check_limit check_records to_lower
  defaults-ok = refl

  path-ok :
      (c : Config) (path : Text)
      → validate parse_cidr (record c { path = path }) ≡ validate parse_cidr c
  unfolding validate
  path-ok c path = refl

abbrev config_of : Loaded → Config
config_of (loaded c) = c
config_of other = defaults

Read-cases : (r : Read) → (r ≡ missing) ⊎ ((r ≡ unreadable) ⊎ ((text : Text) × (r ≡ content text)))
Read-cases (content text) = inr (inr (text, refl))
Read-cases missing = inl refl
Read-cases unreadable = inr (inl refl)

module _ {Net Files : Type 0} (parse_cidr : Text → Option Net) (read_file : Text → Files → Read)
    (unmarshal : Text → Config → Option Config) (marshal : Config → Option Text)
    (write_file : Text → Text → Files → Option Files) where
  -- A file that was written reads as what was written.
  abbrev Reads : Type 0
  Reads =
      (path text : Text) (files files' : Files)
      → write_file path text files ≡ some files'
      → read_file path files' ≡ content text

  -- What Save has written LoadConfig reads back: the same configuration, if it passes the checks,
  -- reading a file that was written gives what was written, and the YAML of the configuration
  -- parses to it, but for the path, which it leaves out.
  load_config-save :
      (c : Config) (text : Text) (files files' : Files)
      → Reads
      → marshal c ≡ some text
      → unmarshal text defaults ≡ some (record c { path = [] })
      → validate parse_cidr c ≡ none
      → save marshal write_file c files ≡ saved files'
      → load_config parse_cidr read_file unmarshal c.path files' ≡ loaded c
  unfolding save load_config
  load_config-save c text files files' reads yaml parsed ok h =
      elim (Option-cases (write_file c.path text files)) [
        | inl w ↦ absurd (ground (arith, yaml, w))
        | inr (out, w) ↦
            let stored : write_file c.path text files ≡ some files' = ground (arith, yaml, w) in
            rw (
              load_config,
              reads c.path text files files' stored,
              parsed,
              accept,
              path-ok parse_cidr c [],
              ok,
            )
      ]

  accept-loaded :
      (path : Text) (c c' : Config)
      → accept parse_cidr read_file unmarshal path c ≡ loaded c'
      → IsValid parse_cidr c' × (c'.path ≡ path)
  accept-loaded path c c' h = elim (Option-cases (validate parse_cidr c)) [
    | inl ok ↦
        let same = (rw (accept, ok) at h) in
        let same' = ap config_of same in
        subst (λ d. IsValid parse_cidr d × (d.path ≡ path)) same'
          (
            (validate-IsValid parse_cidr (record c { path = path })).0
                (path-ok parse_cidr c path ∙ ok),
            refl,
          )
    | inr (e, bad) ↦ absurd (ground (arith, bad))
  ]

  load_config-loaded :
      (path : Text) (files : Files) (c : Config)
      → load_config parse_cidr read_file unmarshal path files ≡ loaded c
      → IsValid parse_cidr c
        × ((c.path ≡ path) ⊎ ((read_file path files ≡ missing) × (c ≡ defaults)))
  unfolding load_config
  load_config-loaded path files c h = elim (Read-cases (read_file path files)) [
    | inl gone ↦
        let same = ap config_of (rw (load_config, gone) at h) in
        (
          subst (IsValid parse_cidr) same
              ((validate-IsValid parse_cidr defaults).0 (defaults-ok parse_cidr)),
          inr (gone, sym same),
        )
    | inr (inl bad) ↦ absurd (ground (arith, bad))
    | inr (inr (text, found)) ↦ elim (Option-cases (unmarshal text defaults)) [
      | inl bad ↦ absurd (ground (arith, found, bad))
      | inr (d, parsed) ↦
          let (valid, at) = accept-loaded path d c (rw (load_config, found, parsed) at h) in
          (valid, inl at)
    ]
  ]

module _ {Net Ip Files : Type 0} (parse_cidr : Text → Option Net) (parse_ip : Text → Option Ip)
    (holds : Net → Ip → Bool) (read_file : Text → Files → Read)
    (unmarshal : Text → Config → Option Config) (marshal : Config → Option Text)
    (write_file : Text → Text → Files → Option Files) where
  -- A configuration that LoadConfig returns passes validate, whatever is in the file or if there is
  -- none; the access list compiled from it has all its rules; and its path is the one it was read
  -- from, or else there was no file, it is the default one, and Save of it is an error.
  pub load_config-IsValid :
      (path : Text) (files files' : Files) (c : Config)
      → load_config parse_cidr read_file unmarshal path files ≡ loaded c
      → IsValid parse_cidr c
        × (length (compile_rules parse_cidr parse_ip holds c.resolver.acl.rules)
            ≡ length c.resolver.acl.rules)
        × ((c.path ≡ path)
            ⊎ ((read_file path files ≡ missing)
                × (c ≡ defaults)
                × (save marshal write_file c files' ≡ no_path)))
  unfolding save
  load_config-IsValid path files files' c h =
      let (valid, at) =
        load_config-loaded parse_cidr read_file unmarshal marshal write_file path files c h in
      (
        valid,
        compile_rules-all parse_cidr parse_ip holds c.resolver.acl.rules valid.rules,
        elim at [
          | inl same ↦ inl same
          | inr (gone, same) ↦ inr (gone, same, ap (λ d. save marshal write_file d files') same)
        ],
      )
