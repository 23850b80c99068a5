-- ===== src/Server/Answers.antt =====
-- The functions of internal/server/resolver.go that take apart what a server has answered.
pub mod Targets
use km_resolv.Prelude.{
  ℕ, ◌+◌, ◌≡◌, refl, Bool, true, false, ◌&&◌, ◌||◌, Option, none, some, List, [], ◌∷◌, ◌++◌, map,
  Text, Result, ok, err, ◌==◌, nat_eq, list_eq, leb, length, take, select, any, to_lower, trim_dot,
  if◌then◌else◌,
}
use km_resolv.Dns.{Rr, Message, empty_message, type_ns, type_cname, type_ptr, type_mx}
use km_resolv.Dns.Name.{parse_name, pack_name}
use km_resolv.Dns.Pack.{name_of}
use km_resolv.Dnssec.{parse_rrsig, type_rrsig}

-- secDelegatedZone
unfoldable pub sec_delegated_zone : List Rr → Text
sec_delegated_zone [] = []
sec_delegated_zone (rr ∷ authority) =
    if rr.type == type_ns then to_lower (trim_dot rr.name) else sec_delegated_zone authority

unfoldable pub sec_filter_type : List Rr → ℕ → List Rr
sec_filter_type rrs t = select (λ rr. rr.type == t) rrs

unfoldable pub sec_filter_type_owner : List Rr → ℕ → Text → List Rr
sec_filter_type_owner rrs t zone =
    select (λ rr. rr.type == t && to_lower (trim_dot rr.name) == to_lower (trim_dot zone)) rrs

unfoldable pub rrsig_signer : List Rr → ℕ → Text
rrsig_signer [] type = []
rrsig_signer (rr ∷ rrsigs) type =
    let rest = rrsig_signer rrsigs type in
    elim (if rr.type == type_rrsig then parse_rrsig rr else none) [
      | none ↦ rest
      | some sig ↦ if sig.type_covered == type then to_lower (trim_dot sig.signer_name) else rest
    ]

-- extractNS, over the authority section
unfoldable pub extract_ns : Text → List Rr → List Text
extract_ns raw [] = []
extract_ns raw (rr ∷ authority) =
    let rest = extract_ns raw authority in
    elim (if rr.type == type_ns then name_of (parse_name raw rr.offset) else none) [
      | none ↦ rest
      | some name ↦ name ∷ rest
    ]

unfoldable pub parse_cname : Message → Rr → Option Text
parse_cname m rr = name_of (parse_name m.raw rr.offset)

-- strings.EqualFold is equality in lower case, on ASCII
unfoldable pub has_terminal_records : List Rr → Text → ℕ → Bool
has_terminal_records answers name qtype =
    any (λ rr. rr.type == qtype && to_lower rr.name == to_lower name) answers

-- The rdata of a record with its name written out, or as it is where the name cannot be read. A
-- packet that is nil is the empty one here: parseName reads no name from either.
unfoldable pub plain_rdata : Rr → Text → Text
plain_rdata rr raw =
    if rr.type == type_cname || rr.type == type_ns || rr.type == type_ptr
    then elim (name_of (parse_name raw rr.offset)) [ none ↦ rr.rdata | some name ↦ pack_name name ]
    else if rr.type == type_mx && leb 2 (length rr.rdata)
    then elim (name_of (parse_name raw (rr.offset + 2))) [
      | none ↦ rr.rdata
      | some name ↦ take 2 rr.rdata ++ pack_name name
    ]
    else rr.rdata

-- materializeRR
unfoldable pub materialize_rr : Text → Rr → Rr
materialize_rr raw rr = record rr {
  rdata = if leb 12 rr.offset then plain_rdata rr raw else rr.rdata;
  offset = 0;
}

-- prependCNAME
unfoldable pub prepend_cname : Message → Rr → Message → Message
prepend_cname cname_msg cname_rr inner = record empty_message {
  header = inner.header;
  answers = materialize_rr cname_msg.raw cname_rr ∷ map (materialize_rr inner.raw) inner.answers;
}
