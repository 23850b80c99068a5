-- ===== src/Dnssec.antt =====
-- internal/dnssec/dnssec.go: keys, digests and signatures of zones. An error is `failed`, without
-- its text; `panicked` is an index out of range.
pub mod Wire
pub mod Verify
pub mod Zone
pub mod Anchors
pub mod KeyCache
mod Tests
use km_resolv.Prelude.{
  ℕ, zero, suc, ◌+◌, ◌*◌, ◌/◌, ◌%◌, ◌^◌, ◌≡◌, refl, Bool, true, false, ◌&&◌, ◌||◌, Option, none,
  some, List, [], ◌∷◌, ◌++◌, Text, codes, Result, ok, err, ◌==◌, nat_eq, list_eq, ltb, leb,
  not_zero, length, get_or, take, drop, if◌then◌else◌, to_lower, join_dots,
}
use km_resolv.Dns.{Rr}
use km_resolv.Dns.Name.{u16_at, slice}
use km_resolv.Dns.Parse.{u32_at}

abbrev pub type_ds : ℕ
type_ds = 43

abbrev pub type_rrsig : ℕ
type_rrsig = 46

abbrev pub type_dnskey : ℕ
type_dnskey = 48

pub record Dnskey : Type 0 where
  pub flags : ℕ
  pub protocol : ℕ
  pub algorithm : ℕ
  pub public_key : Text

pub record Ds : Type 0 where
  pub key_tag : ℕ
  pub algorithm : ℕ
  pub digest_type : ℕ
  pub digest : Text

pub record Rrsig : Type 0 where
  pub type_covered : ℕ
  pub algorithm : ℕ
  pub labels : ℕ
  pub orig_ttl : ℕ
  pub expiration : ℕ
  pub inception : ℕ
  pub key_tag : ℕ
  pub signer_name : Text
  pub signature : Text

pub data Outcome {ℓ} (A : Type ℓ) : Type ℓ where
  value : A → Outcome A
  failed : Outcome A
  panicked : Outcome A

-- ParseDNSKEY; `none` is an error
unfoldable pub parse_dnskey : Rr → Option Dnskey
parse_dnskey rr =
    if rr.type == type_dnskey && leb 4 (length rr.rdata)
    then some (record {
      flags = u16_at rr.rdata 0;
      protocol = get_or rr.rdata 2 0;
      algorithm = get_or rr.rdata 3 0;
      public_key = drop 4 rr.rdata;
    })
    else none

unfoldable pub parse_ds : Rr → Option Ds
parse_ds rr =
    if rr.type == type_ds && leb 4 (length rr.rdata)
    then some (record {
      key_tag = u16_at rr.rdata 0;
      algorithm = get_or rr.rdata 2 0;
      digest_type = get_or rr.rdata 3 0;
      digest = drop 4 rr.rdata;
    })
    else none

-- The loop of parseUncompressedName of dnssec.go, a round for each unit of fuel: the labels from
-- `i` on and the offset behind them. `none` is an error, and an empty fuel.
unfoldable pub labels_from : ℕ → Text → ℕ → Option (List Text × ℕ)
labels_from zero buf i = none
labels_from (suc fuel) buf i =
    let len = get_or buf i 0 in
    let rest = labels_from fuel buf (i + 1 + len) in
    if leb (length buf) i
    then none
    else if len == 0
    then some ([], i + 1)
    else if not_zero (len / 64 % 4)
    then none
    else if ltb (length buf) (i + 1 + len)
    then none
    else elim rest [
      | none ↦ none
      | some (labels, stop) ↦ some (to_lower (slice buf (i + 1) len) ∷ labels, stop)
    ]

-- A round takes a byte at least.
unfoldable pub parse_signer_name : Text → Option (Text × ℕ)
parse_signer_name buf = elim (labels_from (length buf + 1) buf 0) [
  | none ↦ none
  | some (labels, stop) ↦
      if labels == [] then some (codes ".", stop) else some (join_dots labels, stop)
]

unfoldable pub parse_rrsig : Rr → Option Rrsig
parse_rrsig rr =
    let data' = rr.rdata in
    if rr.type == type_rrsig && leb 18 (length data')
    then elim (parse_signer_name (drop 18 data')) [
      | none ↦ none
      | some (signer, n) ↦ some (record {
        type_covered = u16_at data' 0;
        algorithm = get_or data' 2 0;
        labels = get_or data' 3 0;
        orig_ttl = u32_at data' 4;
        expiration = u32_at data' 8;
        inception = u32_at data' 12;
        key_tag = u16_at data' 16;
        signer_name = signer;
        signature = drop (18 + n) data';
      })
    ]
    else none
