-- ===== src/Config/Valid.antt =====
-- What Config.validate of internal/config/config.go lets pass.
use km_resolv.Prelude.{
  Eq, ℕ, ◌+◌, ◌≤◌, ◌<◌, ◌≡◌, ◌≢◌, ◌↔◌, ◌⊎◌, refl, Bool, true, false, not, ◌&&◌, ◌||◌, Option, none,
  some, List, [], ◌∷◌, Text, codes, arith, ◌==◌, nat_eq, list_eq, to_lower, has_prefix, contains,
  All, list_beq_iff,
}
use km_resolv.Server.Acl.{AclRule}
use km_resolv.Server.Zones.{ZoneConfig}
use km_resolv.Records.Build.{RecordConfig}
use km_resolv.Config.{
  ℤ, pos, negsuc, Config, RateLimitConfig, ConfigError, or_else, fails, port_ok, action_ok, mode_ok,
  differ, negative, is_zero, wild_inside, check_zones, check_records, check_limit, bad_subnet,
  check_rules, validate,
}

abbrev pub IsPort : ℤ → Type 0
IsPort (pos n) = (1 ≤ n) × (n ≤ 65535)
IsPort (negsuc n) = ⊥

abbrev pub IsNat : ℤ → Type 0
IsNat (pos n) = Unit
IsNat (negsuc n) = ⊥

abbrev pub IsPositive : ℤ → Type 0
IsPositive (pos n) = 0 < n
IsPositive (negsuc n) = ⊥

abbrev pub IsAction : Text → Type 0
IsAction a = (a ≡ codes "allow") ⊎ (a ≡ codes "deny")

abbrev pub IsMode : Text → Type 0
IsMode m = (m ≡ codes "blacklist") ⊎ ((m ≡ codes "whitelist") ⊎ (m ≡ codes "off"))

abbrev pub IsZone : ZoneConfig → Type 0
IsZone z = (z.domain ≢ []) × (z.servers ≢ [])

-- A name with a star has it as its leftmost label.
abbrev pub IsRecord : RecordConfig → Type 0
IsRecord r =
    (r.name ≢ [])
    × (r.value ≢ [])
    × ((contains r.name (codes "*") ≡ false) ⊎ (has_prefix r.name (codes "*.") ≡ true))

-- Neither number is negative, and where limiting is on neither is 0.
abbrev pub IsLimit : RateLimitConfig → Type 0
IsLimit r =
    IsNat r.qps × IsNat r.burst × ((r.enabled ≡ false) ⊎ (IsPositive r.qps × IsPositive r.burst))

abbrev pub IsTlsPair : Text → Text → Type 0
IsTlsPair cert key = ((cert ≡ []) × (key ≡ [])) ⊎ ((cert ≢ []) × (key ≢ []))

-- Two checks, one behind the other.
both :
    {a b : Option ConfigError} {A B : Type 0}
    → (a ≡ none) ↔ A
    → (b ≡ none) ↔ B
    → (or_else a b ≡ none) ↔ (A × B)
both {a = none} f g = (λ h. (f.0 refl, g.0 h), λ h. g.1 h.1)
both {a = some e} f g = (λ h. absurd (cc), λ h. f.1 h.0)

test : {b : Bool} {A : Type 0} (e : ConfigError) → (b ≡ false) ↔ A → (fails b e ≡ none) ↔ A
test {b = true} e f = (λ h. absurd (cc), λ h. absurd (ground (arith, f.1 h)))
test {b = false} e f = (λ h. f.0 refl, λ h. refl)

same : {b : Bool} → (b ≡ false) ↔ (b ≡ false)
same = (λ h. h, λ h. h)

port_ok_iff : (p : ℤ) → (not (port_ok p) ≡ false) ↔ IsPort p
port_ok_iff (pos n) = ground arith
port_ok_iff (negsuc n) = (λ h. absurd (cc), λ h. absurd h)

empty_iff : {A : Type 0} ⦃e : Eq A⦄ (s : List A) → ((s == []) ≡ false) ↔ (s ≢ [])
empty_iff s = ground (arith, list_beq_iff s [])

IsAction-iff : (a : Text) → (not (action_ok a) ≡ false) ↔ IsAction a
IsAction-iff a = ground (arith, list_beq_iff a (codes "allow"), list_beq_iff a (codes "deny"))

default_iff : (d : Text) → (not (d == [] || action_ok d) ≡ false) ↔ ((d ≡ []) ⊎ IsAction d)
default_iff d =
    ground (arith, list_beq_iff d [], list_beq_iff d (codes "allow"), list_beq_iff d (codes "deny"))

IsMode-iff : (m : Text) → (not (mode_ok m) ≡ false) ↔ IsMode m
IsMode-iff m = ground (
  arith,
  list_beq_iff m (codes "blacklist"),
  list_beq_iff m (codes "whitelist"),
  list_beq_iff m (codes "off"),
)

tls_iff : (c k : Text) → (differ (c == []) (k == []) ≡ false) ↔ IsTlsPair c k
tls_iff c k = ground (arith, list_beq_iff c [], list_beq_iff k [])

zones_iff : (i : ℕ) (zones : List ZoneConfig) → (check_zones i zones ≡ none) ↔ All IsZone zones
unfolding check_zones
zones_iff i [] = (λ h. tt, λ h. refl)
zones_iff i (z ∷ zones) =
    let (to, from) =
      both (test _ (empty_iff z.domain))
        (both (test _ (empty_iff z.servers)) (zones_iff (i + 1) zones)) in
    (λ h. let (a, (b, c)) = to h in ((a, b), c), λ h. from (h.0.0, (h.0.1, h.1)))

pair_iff : (a b : Text) → ((a == [] || b == []) ≡ false) ↔ ((a ≢ []) × (b ≢ []))
pair_iff a b = ground (arith, list_beq_iff a [], list_beq_iff b [])

wild_iff :
    (name : Text)
    → (wild_inside name ≡ false)
      ↔ ((contains name (codes "*") ≡ false) ⊎ (has_prefix name (codes "*.") ≡ true))
wild_iff name = ground arith

records_iff : (records : List RecordConfig) → (check_records records ≡ none) ↔ All IsRecord records
unfolding check_records
records_iff [] = (λ h. tt, λ h. refl)
records_iff (r ∷ records) =
    let (to, from) =
      both (test _ (pair_iff r.name r.value))
        (both (test _ (wild_iff r.name)) (records_iff records)) in
    (λ h. let ((a, b), (c, d)) = to h in ((a, b, c), d), λ h. from ((h.0.0, h.0.1), (h.0.2, h.1)))

sign_iff : (z : ℤ) → (negative z ≡ false) ↔ IsNat z
sign_iff (pos n) = (λ h. tt, λ h. refl)
sign_iff (negsuc n) = (λ h. absurd (cc), λ h. absurd h)

rate_iff : (on : Bool) (z : ℤ) → ((on && is_zero z) ≡ false) ↔ ((on ≡ false) ⊎ (is_zero z ≡ false))
rate_iff true z = ground arith
rate_iff false z = ground arith

positive_iff : (z : ℤ) → IsNat z → (is_zero z ≡ false) ↔ IsPositive z
positive_iff (pos n) h = ground arith
positive_iff (negsuc n) h = absurd h

joined :
    (on : Bool) (q b : ℤ)
    → IsNat q
    → IsNat b
    → (((on ≡ false) ⊎ (is_zero q ≡ false)) × ((on ≡ false) ⊎ (is_zero b ≡ false)))
      ↔ ((on ≡ false) ⊎ (IsPositive q × IsPositive b))
joined on q b h g = ground (arith, positive_iff q h, positive_iff b g)

limit_iff : (r : RateLimitConfig) → (check_limit r ≡ none) ↔ IsLimit r
unfolding check_limit
limit_iff r =
    let (to, from) = both (test _ (sign_iff r.qps)) (
      both (test _ (sign_iff r.burst))
        (both (test _ (rate_iff r.enabled r.qps)) (test _ (rate_iff r.enabled r.burst)))) in
    (
      λ h. let (x, (y, z)) = to h in (x, y, (joined r.enabled r.qps r.burst x y).0 z),
      λ h. from (h.0, (h.1, (joined r.enabled r.qps r.burst h.0 h.1).1 h.2)),
    )

module _ {Net : Type 0} (parse_cidr : Text → Option Net) where
  -- The action is one of the two, and the subnet can be read.
  abbrev pub IsRule : AclRule → Type 0
  IsRule r = IsAction (to_lower r.action) × (bad_subnet parse_cidr r.subnet ≡ false)

  rules_iff :
      (i : ℕ) (rules : List AclRule) → (check_rules parse_cidr i rules ≡ none) ↔ All IsRule rules
  unfolding check_rules
  rules_iff i [] = (λ h. tt, λ h. refl)
  rules_iff i (r ∷ rules) =
      let (to, from) =
        both (test _ (IsAction-iff (to_lower r.action)))
          (both (test _ same) (rules_iff (i + 1) rules)) in
      (λ h. let (a, (b, c)) = to h in ((a, b), c), λ h. from (h.0.0, (h.0.1, h.1)))

  pub record IsValid (c : Config) : Type 0 where
    pub port : IsPort c.server.port
    pub default :
        (to_lower c.resolver.acl.default ≡ []) ⊎ IsAction (to_lower c.resolver.acl.default)
    pub zones : All IsZone c.resolver.zones
    pub rules : All IsRule c.resolver.acl.rules
    pub limit : IsLimit c.resolver.rate_limit
    pub tls : IsTlsPair c.dashboard.tls_cert_file c.dashboard.tls_key_file
    pub mode : IsMode (to_lower c.filtering.mode)
    pub records : All IsRecord c.records

  -- validate returns no error exactly for the configurations that are well formed: the port is one,
  -- the default of the access list is empty or an action, each zone has a domain and a server, each
  -- rule an action and a subnet that can be read, the limits are not negative, nor 0 where limiting
  -- is on, the certificate and the key are both set or neither is, the filter's mode is one, and
  -- each record has a name and a value, and a name that has a star begins with `*.`; further stars
  -- may stand behind that.
  pub validate-IsValid : (c : Config) → (validate parse_cidr c ≡ none) ↔ IsValid c
  unfolding validate
  validate-IsValid c =
      let d = to_lower c.resolver.acl.default in
      let (to, from) = both (test _ (port_ok_iff c.server.port)) (
        both (test _ (default_iff d)) (
          both (zones_iff 0 c.resolver.zones) (
            both (rules_iff 0 c.resolver.acl.rules) (
              both (limit_iff c.resolver.rate_limit) (
                both (test _ (tls_iff c.dashboard.tls_cert_file c.dashboard.tls_key_file)) (
                  both (test _ (IsMode-iff (to_lower c.filtering.mode)))
                    (records_iff c.records))))))) in
      (
        λ h.
            let (p, (d', (z, (r, (l, (t, (m, n))))))) = to h in
            record {
              port = p;
              default = d';
              zones = z;
              rules = r;
              limit = l;
              tls = t;
              mode = m;
              records = n;
            },
        λ v.
            from
              (v.port, (v.default, (v.zones, (v.rules, (v.limit, (v.tls, (v.mode, v.records))))))),
      )
