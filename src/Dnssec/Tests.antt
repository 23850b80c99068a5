-- ===== src/Dnssec/Tests.antt =====
-- The theorems about the validation of zones, at a concrete zone.
use km_resolv.Prelude.{
  ◌≡◌, refl, true, false, List, [], ◌∷◌, codes, nat_eq, list_eq, lookup, insert, split_dots,
  join_dots, to_lower, trim_dot,
}
use km_resolv.Dns.{Rr}
use km_resolv.Dns.Name as Name
use km_resolv.Dns.Parse as Parse
use km_resolv.Dns.Pack as Pack
use km_resolv.Dnssec.{Dnskey, Ds, value, parse_dnskey, parse_rrsig, parse_signer_name, labels_from}
use km_resolv.Dnssec.Wire as Wire
use km_resolv.Dnssec.Verify as Verify
use km_resolv.Dnssec.Zone.{Keys, is_root_zone, collect_keys, ds_seeds, validate_zone_dnskey}
use km_resolv.Dnssec.Zone.Chain.{Chain, validate_zone_dnskey-Chain}
use km_resolv.Dnssec.Anchors.{validate_zone_dnskey-keys}
use km_resolv.Dnssec.KeyCache.{KeyCache}

-- Every digest is empty, and every signature holds.
abbrev crypto : Verify.Crypto
crypto = record {
  digest = λ type data'. [];
  rsa = λ hash n e data' signature. true;
  ecdsa = λ curve x y r s data'. true;
  ed25519 = λ key data' signature. true;
}

abbrev key : Dnskey
key = record { flags = 257; protocol = 3; algorithm = 8; public_key = 1 ∷ 3 ∷ 7 ∷ [] }

abbrev key_rr : Rr
key_rr = record {
  name = codes "de";
  type = 48;
  class = 1;
  ttl = 60;
  rdata = 1 ∷ 1 ∷ 3 ∷ 8 ∷ 1 ∷ 3 ∷ 7 ∷ [];
  offset = 0;
}

abbrev sig_rr : Rr
sig_rr = record {
  name = codes "de";
  type = 46;
  class = 1;
  ttl = 60;
  rdata =
      0 ∷ 48 ∷ 8 ∷ 1 ∷ 0 ∷ 0 ∷ 0 ∷ 60 ∷ 0 ∷ 0 ∷ 0 ∷ 9 ∷ 0 ∷ 0 ∷ 0 ∷ 1 ∷ 12 ∷ 12 ∷ 2 ∷ b'd' ∷ b'e'
      ∷ 0 ∷ 5 ∷ [];
  offset = 0;
}

abbrev parent : List Ds
parent = record { key_tag = 3084; algorithm = 8; digest_type = 2; digest = [] } ∷ []

abbrev keys : Keys
keys = (3084, key) ∷ []

validated :
    validate_zone_dnskey crypto [] 5 (codes "de") (key_rr ∷ []) (sig_rr ∷ []) parent [] ≡ value keys
unfolding validate_zone_dnskey is_root_zone ds_seeds lookup collect_keys parse_dnskey insert
    Wire.key_tag Wire.tag_sum Wire.dnskey_rdata Pack.put_u16 Name.u16_at Verify.verify_ds
    Verify.verify_any_rrsig parse_rrsig parse_signer_name labels_from Verify.verify_rrsig
    Name.pack_label Pack.put_u32 Parse.u32_at Verify.big Verify.parse_rsa_public_key
    Verify.verify_crypto Verify.verify_rsa Wire.build_signed_data Wire.canon_rdata Wire.concat
    Wire.insert_item Wire.item Wire.items Wire.label_count Wire.signed_owner Wire.sort_items
    Wire.wire_labels Wire.wire_name join_dots split_dots to_lower trim_dot
validated = refl

below : is_root_zone (codes "de") ≡ false
unfolding is_root_zone
below = refl

validate_zone_dnskey-Chain_example :
    (keys ≡ collect_keys (key_rr ∷ []) [])
    × Chain crypto 5 (codes "de") (key_rr ∷ []) (sig_rr ∷ []) parent []
validate_zone_dnskey-Chain_example =
    validate_zone_dnskey-Chain crypto [] 5 (codes "de") (key_rr ∷ []) (sig_rr ∷ []) parent [] keys
      below validated

abbrev forged : Keys
forged = (3084, record key { public_key = 1 ∷ 3 ∷ 9 ∷ [] }) ∷ []

root : is_root_zone (codes ".") ≡ true
unfolding is_root_zone
root = refl

validate_zone_dnskey-keys_example :
    validate_zone_dnskey crypto keys 5 (codes ".") (key_rr ∷ []) (sig_rr ∷ []) [] []
    ≡ validate_zone_dnskey crypto forged 5 (codes ".") (key_rr ∷ []) (sig_rr ∷ []) [] []
validate_zone_dnskey-keys_example =
    validate_zone_dnskey-keys crypto keys forged 5 (codes ".") (key_rr ∷ []) (sig_rr ∷ []) [] []
      root refl

abbrev no_keys : KeyCache
no_keys = []
