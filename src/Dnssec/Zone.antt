-- ===== src/Dnssec/Zone.antt =====
-- ValidateZoneDNSKEY and the cache of zone keys of internal/dnssec/dnssec.go.
pub mod Chain
use km_resolv.Prelude.{
  ℕ, ◌+◌, ◌*◌, ◌≡◌, refl, Bool, true, false, not, ◌&&◌, ◌||◌, Option, none, some, List, [], ◌∷◌,
  ◌++◌, Text, codes, ◌==◌, nat_eq, list_eq, length, if◌then◌else◌, to_lower, Map, lookup, insert,
  remove, has,
}
use km_resolv.Dns.{Rr}
use km_resolv.Dnssec.{Dnskey, Ds, Outcome, value, failed, panicked, type_dnskey, parse_dnskey}
use km_resolv.Dnssec.Wire.{key_tag}
use km_resolv.Dnssec.Verify.{Crypto, verify_ds, verify_any_rrsig}

abbrev pub Keys : Type 0
Keys = Map ℕ Dnskey

unfoldable pub is_root_zone : Text → Bool
is_root_zone name = name == codes "." || name == []

-- The keys of the records, by their tags.
unfoldable pub collect_keys : List Rr → Keys → Keys
collect_keys [] keys = keys
collect_keys (rr ∷ rrs) keys = elim (parse_dnskey rr) [
  | none ↦ collect_keys rrs keys
  | some k ↦ collect_keys rrs (insert (key_tag k) k keys)
]

-- for _, k := range allKeys: the keys of a tag, the last of them in the end
unfoldable pub take_tag : ℕ → Keys → Keys → Keys
take_tag tag [] seeds = seeds
take_tag tag ((t, k) ∷ all) seeds =
    take_tag tag all (if key_tag k == tag then insert tag k seeds else seeds)

-- the loop over the anchors, at the root
unfoldable pub root_seeds : Keys → Keys → Keys → Keys
root_seeds [] all seeds = seeds
root_seeds ((tag, anchor) ∷ anchors) all seeds =
    root_seeds anchors all
      (take_tag tag all (if has tag all then insert tag anchor seeds else seeds))

module _ (c : Crypto) where
  -- the loop over the DS records of the parent, below the root
  unfoldable pub ds_seeds : Text → List Ds → Keys → Keys → Keys
  ds_seeds zone [] all seeds = seeds
  ds_seeds zone (ds ∷ parent) all seeds = elim (lookup ds.key_tag all) [
    | none ↦ ds_seeds zone parent all seeds
    | some k ↦
        ds_seeds zone parent all
          (if verify_ds c zone k ds then insert ds.key_tag k seeds else seeds)
  ]

  -- the keys, if one of the seeds has signed their set
  abbrev pub signed_by : ℕ → Keys → List Rr → List Rr → Text → Keys → Outcome Keys
  signed_by now seeds rrs rrsigs raw all =
      if length seeds == 0
      then failed
      else elim (verify_any_rrsig c now seeds rrs rrsigs type_dnskey raw) [
        | value _ ↦ value all
        | failed ↦ failed
        | panicked ↦ panicked
      ]

  unfoldable pub validate_zone_dnskey :
      Keys → ℕ → Text → List Rr → List Rr → List Ds → Text → Outcome Keys
  validate_zone_dnskey anchors now zone [] rrsigs parent raw = failed
  validate_zone_dnskey anchors now zone (rr ∷ rrs) rrsigs parent raw =
      let all = collect_keys (rr ∷ rrs) [] in
      let seeds =
        if is_root_zone zone then root_seeds anchors all [] else ds_seeds zone parent all [] in
      signed_by now seeds (rr ∷ rrs) rrsigs raw all
