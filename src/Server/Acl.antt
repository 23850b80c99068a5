-- ===== src/Server/Acl.antt =====
-- The access list of internal/server/ratelimit.go. The types `Net` and `Ip` and the functions on
-- them stand for net.IPNet, net.IP, net.ParseCIDR, net.ParseIP and IPNet.Contains.
use km_resolv.Prelude.{
  ◌≡◌, refl, ap, Bool, true, false, not, Option, none, some, List, [], ◌∷◌, ◌++◌, Text, codes,
  arith, ◌==◌, nat_eq, list_eq, to_lower, if◌then◌else◌, All,
}

pub record AclRule : Type 0 where
  pub subnet : Text
  pub action : Text

pub record AclConfig : Type 0 where
  pub default : Text
  pub rules : List AclRule

-- A rule is its net and whether it allows.
pub record CompiledAcl (Net : Type 0) : Type 0 where
  pub rules : List (Net × Bool)
  pub default_allow : Bool

abbrev pub allows : AclRule → Bool
allows r = to_lower r.action == codes "allow"

module _ {Net Ip : Type 0} (parse_cidr : Text → Option Net) (parse_ip : Text → Option Ip)
    (holds : Net → Ip → Bool) where
  -- the loop of newCompiledACL
  unfoldable pub compile_rules : List AclRule → List (Net × Bool)
  compile_rules [] = []
  compile_rules (r ∷ rs) = elim (parse_cidr r.subnet) [
    | none ↦ compile_rules rs
    | some net ↦ (net, allows r) ∷ compile_rules rs
  ]

  unfoldable pub new_compiled_acl : AclConfig → CompiledAcl Net
  new_compiled_acl cfg = record {
    rules = compile_rules cfg.rules;
    default_allow = not (to_lower cfg.default == codes "deny");
  }

  -- the loop of allowed
  unfoldable pub first_match : Ip → List (Net × Bool) → Bool → Bool
  first_match ip [] default = default
  first_match ip ((net, allow) ∷ rules) default =
      if holds net ip then allow else first_match ip rules default

  unfoldable pub allowed : Text → CompiledAcl Net → Bool
  allowed text acl = elim (parse_ip text) [
    | none ↦ acl.default_allow
    | some ip ↦ first_match ip acl.rules acl.default_allow
  ]

  -- whether a configured rule is about an address
  abbrev pub concerns : Ip → AclRule → Bool
  concerns ip r = elim (parse_cidr r.subnet) [ none ↦ false | some net ↦ holds net ip ]

  abbrev pub Passes : Ip → List AclRule → Type 0
  Passes ip rules = All (λ r. concerns ip r ≡ false) rules

  first_match-Passes :
      (ip : Ip) (before after : List AclRule) (default : Bool)
      → Passes ip before
      → first_match ip (compile_rules (before ++ after)) default
        ≡ first_match ip (compile_rules after) default
  unfolding first_match compile_rules
  first_match-Passes ip [] after default h = refl
  first_match-Passes ip (r ∷ before) after default h =
      ground (arith, h.0, first_match-Passes ip before after default h.1)

  first_match-concerns :
      (ip : Ip) (r : AclRule) (after : List AclRule) (default : Bool)
      → concerns ip r ≡ true
      → first_match ip (compile_rules (r ∷ after)) default ≡ allows r
  unfolding first_match compile_rules
  first_match-concerns ip r after default h = ground (arith, h)

  -- The first configured rule about an address decides, whatever stands behind it; the rules
  -- before it may be about other addresses or have a subnet that cannot be read.
  allowed-first :
      (text : Text) (ip : Ip) (cfg : AclConfig) (before after : List AclRule) (r : AclRule)
      → parse_ip text ≡ some ip
      → cfg.rules ≡ before ++ r ∷ after
      → Passes ip before
      → concerns ip r ≡ true
      → allowed text (new_compiled_acl cfg) ≡ allows r
  unfolding allowed new_compiled_acl
  allowed-first text ip cfg before after r parsed rules passes on =
      let d = not (to_lower cfg.default == codes "deny") in
      ground (
        arith,
        ap (λ rs. first_match ip (compile_rules rs) d) rules,
        first_match-Passes ip before (r ∷ after) d passes,
        first_match-concerns ip r after d on,
      )
