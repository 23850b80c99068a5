-- ===== src/Server/Secure.antt =====
-- internal/server/resolver.go, the iterative resolution with DNSSEC. The texts of the errors of
-- the package dnssec are left out: each stands as the empty text, behind what the resolver puts in
-- front of it. They hold numbers and fixed words, so none has the word NXDOMAIN.
pub mod Resolve
pub mod Verified
pub mod WalkSafe
pub mod Safe
use km_resolv.Prelude.{
  ℕ, zero, suc, ◌+◌, ◌/◌, ◌%◌, ◌^◌, Bool, true, false, not, ◌&&◌, Option, none, some, List, [], ◌∷◌,
  ◌++◌, Text, codes, Result, ok, err, ◌==◌, nat_eq, list_eq, length, if◌then◌else◌, to_lower,
  trim_dot,
}
use km_resolv.Dns.{Rr, Message, type_cname}
use km_resolv.Dns.Parse.{name_at}
use km_resolv.Dnssec.{
  Ds, Outcome, value, failed, panicked, parse_ds, type_ds, type_rrsig, type_dnskey,
}
use km_resolv.Dnssec.Verify.{Crypto, verify_any_rrsig}
use km_resolv.Dnssec.Zone.{Keys, validate_zone_dnskey}
use km_resolv.Dnssec.KeyCache.{cache_zone_keys, lookup_zone_keys}
use km_resolv.Config.{Config}
use km_resolv.Server.Zones.{is_descendant_zone, zone_chain}
use km_resolv.Server.Answers.{
  sec_delegated_zone, sec_filter_type, sec_filter_type_owner, rrsig_signer, extract_ns,
  has_terminal_records, prepend_cname,
}
use km_resolv.Server.Query.{Network, Upstream, query}
use km_resolv.Server.Verdict.{decimal, prefixed}
use km_resolv.Server.Iterate.{
  Step, levels, root_servers, wrapped, first_cname, extract_glue, recall, resolve_at,
  resolve_ns_parallel,
}

pub data Status : Type 0 where
  secure : Status
  insecure : Status
  bogus : Status

pub record SecCtx : Type 0 where
  pub zone : Text
  pub keys : Keys

-- A value, an error, or the end of the program by a panic.
pub data Sec {ℓ} (A : Type ℓ) : Type ℓ where
  fine : A → Sec A
  broken : Text → Sec A
  panic : Sec A

-- `%w` of an error behind a text
abbrev pub because {ℓ} : {A : Type ℓ} → Text → Sec A → Sec A
because text (fine a) = fine a
because text (broken e) = broken (text ++ e)
because text panic = panic

abbrev pub of_outcome {ℓ} : {A : Type ℓ} → Outcome A → Sec A
of_outcome (value a) = fine a
of_outcome failed = broken []
of_outcome panicked = panic

abbrev pub of_result {ℓ} : {A : Type ℓ} → Result A → Sec A
of_result (ok a) = fine a
of_result (err e) = broken e

-- the DS records that can be parsed
unfoldable pub parsed_ds : List Rr → List Ds
parsed_ds [] = []
parsed_ds (rr ∷ rrs) = elim (parse_ds rr) [ none ↦ parsed_ds rrs | some d ↦ d ∷ parsed_ds rrs ]

-- the time to live of the first record, an hour without one
unfoldable pub keys_ttl : List Rr → ℕ
keys_ttl [] = 3600
keys_ttl (rr ∷ rrs) = rr.ttl

-- the DS records of a zone and their signatures, from the answers or else from the authority
unfoldable pub ds_of : Text → Message → List Rr × List Rr
ds_of zone m =
    let found = sec_filter_type_owner m.answers type_ds zone in
    if length found == 0
    then (sec_filter_type_owner m.authority type_ds zone, sec_filter_type m.authority type_rrsig)
    else (found, sec_filter_type m.answers type_rrsig)

module _ {World : Type 0} (net : Network World) (crypto : Crypto) (anchors : Keys)
    (cfg : Config) where
  -- time.Now().Unix(), as a uint32
  abbrev pub unix : World → ℕ
  unix w = net.clock w / 1000000000 % 2 ^ 32

  unfoldable pub sec_fetch_dnskey :
      List Text → Text → Upstream World → Upstream World × Result Message
  sec_fetch_dnskey [] zone s = (s, err (codes "no DNSKEY records returned for " ++ zone))
  sec_fetch_dnskey (sv ∷ servers) zone s =
      let (s', got) = query net cfg (sv ++ codes ":53") zone type_dnskey s in
      let rest = sec_fetch_dnskey servers zone s' in
      elim got [ err e ↦ rest | ok m ↦ if length m.answers == 0 then rest else (s', ok m) ]

  -- LookupZoneKeys
  unfoldable pub known_keys : Text → Upstream World → Upstream World × Option Keys
  known_keys zone s =
      let (cache, keys) = lookup_zone_keys zone (net.clock s.world) s.zone_keys in
      (record s { zone_keys = cache }, keys)

  -- The keys of a zone, from its DNSKEY records, by its DS records; and CacheZoneKeys of them.
  unfoldable pub establish_keys :
      Text → Text → List Text → Text → List Rr → Upstream World → Upstream World × Sec Keys
  establish_keys fetching chaining servers zone ds_rrs s =
      let (s', got) = sec_fetch_dnskey servers zone s in
      elim got [
        | err e ↦ (s', broken (fetching ++ e))
        | ok m ↦
            let rrs = sec_filter_type m.answers type_dnskey in
            let rrsigs = sec_filter_type m.answers type_rrsig in
            let keys =
              validate_zone_dnskey crypto anchors (unix s'.world) zone rrs rrsigs (parsed_ds ds_rrs)
                m.raw in
            elim keys [
              | failed ↦ (s', broken chaining)
              | panicked ↦ (s', panic)
              | value all ↦ (
                record s' {
                  zone_keys =
                      cache_zone_keys zone all (keys_ttl rrs) (net.clock s'.world) s'.zone_keys;
                },
                fine all,
              )
            ]
      ]

  -- the first answer of the servers about the DS records of a zone, or the last error
  unfoldable pub query_ds :
      List Text → Text → Option Text → Upstream World → Upstream World × Result Message
  query_ds [] zone last s = (s, err (codes "DS query failed: " ++ wrapped last))
  query_ds (sv ∷ servers) zone last s =
      let (s', got) = query net cfg (sv ++ codes ":53") zone type_ds s in
      elim got [ err e ↦ query_ds servers zone (some e) s' | ok m ↦ (s', ok m) ]

  unfoldable pub sec_establish_intermediate_keys :
      List Text → SecCtx → Text → Upstream World → Upstream World × Sec Keys
  sec_establish_intermediate_keys servers ctx zone s =
      let (s', got) = query_ds servers zone none s in
      elim got [
        | err e ↦ (s', broken e)
        | ok m ↦
            let (ds_rrs, rrsigs) = ds_of zone m in
            let signed =
              verify_any_rrsig crypto (unix s'.world) ctx.keys ds_rrs rrsigs type_ds m.raw in
            if length ds_rrs == 0
            then (s', broken (codes "no DS records returned for " ++ zone))
            else elim signed [
              | failed ↦ (s', broken (codes "DS RRSIG: "))
              | panicked ↦ (s', panic)
              | value _ ↦
                  establish_keys (codes "DNSKEY fetch: ") (codes "DNSKEY chain: ") servers zone
                    ds_rrs s'
            ]
      ]

  -- the loop of secWalkToZone
  unfoldable pub walk_zones :
      List Text → List Text → SecCtx → Upstream World → Upstream World × Sec SecCtx
  walk_zones servers [] ctx s = (s, fine ctx)
  walk_zones servers (zone ∷ chain) ctx s =
      let (s1, cached) = known_keys zone s in
      let (s2, found) = sec_establish_intermediate_keys servers ctx zone s1 in
      elim cached [
        | some keys ↦ walk_zones servers chain (record { zone = zone; keys = keys }) s1
        | none ↦ elim found [
          | fine keys ↦ walk_zones servers chain (record { zone = zone; keys = keys }) s2
          | broken e ↦ (s2, broken (zone ++ (codes ": " ++ e)))
          | panic ↦ (s2, panic)
        ]
      ]

  unfoldable pub sec_walk_to_zone :
      List Text → SecCtx → Text → Upstream World → Upstream World × Sec SecCtx
  sec_walk_to_zone servers ctx target s = walk_zones servers (zone_chain ctx.zone target) ctx s

  -- whether the signer is a zone below that of the context
  abbrev pub is_deeper : Text → SecCtx → Bool
  is_deeper signer ctx =
      let here = to_lower (trim_dot ctx.zone) in
      not (signer == []) && (not (signer == here) && is_descendant_zone signer here)

  -- The keys to verify with: those of the context, or of a signer below it. The
  -- arrow is in UTF-8.
  unfoldable pub signing_keys :
      List Text → SecCtx → Text → Upstream World → Upstream World × Sec Keys
  signing_keys servers ctx signer s =
      let (s', walked) = sec_walk_to_zone servers ctx signer s in
      if is_deeper signer ctx
      then (
        s',
        elim walked [
          | fine c ↦ fine c.keys
          | broken e ↦ broken (
              codes "walk "
              ++ (ctx.zone ++ ((226 ∷ 134 ∷ 146 ∷ []) ++ (signer ++ (codes ": " ++ e)))))
          | panic ↦ panic
        ],
      )
      else (s, fine ctx.keys)

  unfoldable pub sec_verify_with_walk :
      List Text
      → SecCtx
      → List Rr
      → List Rr
      → ℕ
      → Text
      → Upstream World
      → Upstream World × Sec (Unit {0})
  sec_verify_with_walk servers ctx rrset rrsigs type raw s =
      let (s', keys) = signing_keys servers ctx (rrsig_signer rrsigs type) s in
      (
        s',
        elim keys [
          | fine k ↦ of_outcome (verify_any_rrsig crypto (unix s'.world) k rrset rrsigs type raw)
          | broken e ↦ broken e
          | panic ↦ panic
        ],
      )
