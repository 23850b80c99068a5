-- ===== src/Dnssec/Wire.antt =====
-- What is hashed and signed: dnskeyRdata, KeyTag, WireName, canonRdata and buildSignedData of
-- internal/dnssec/dnssec.go.
use km_resolv.Prelude.{
  ℕ, zero, suc, ◌+◌, ◌-◌, ◌*◌, ◌/◌, ◌%◌, Bool, true, false, not, ◌||◌, none, some, List, [], ◌∷◌,
  ◌++◌, Text, codes, Result, ok, err, ◌==◌, nat_eq, list_eq, ltb, length, take, drop, if◌then◌else◌,
  to_lower, trim_dot, split_dots, after_dot,
}
use km_resolv.Dns.{Rr, type_ns, type_cname, type_ptr, type_mx, class_in}
use km_resolv.Dns.Name.{u16_at, parse_name, pack_label}
use km_resolv.Dns.Pack.{put_u16, put_u32}
use km_resolv.Dnssec.{Dnskey, Rrsig, Outcome, value, failed, panicked}

unfoldable pub dnskey_rdata : Dnskey → Text
dnskey_rdata k = put_u16 k.flags ++ k.protocol ∷ k.algorithm ∷ k.public_key

-- The loop of KeyTag; `high` says that the index is even. The sum stays below 2 ^ 32 for every
-- rdata, as it is shorter than 65536 bytes.
unfoldable pub tag_sum : Bool → ℕ → Text → ℕ
tag_sum high sum [] = sum
tag_sum high sum (b ∷ s) = tag_sum (not high) (sum + (if high then b * 256 else b)) s

unfoldable pub key_tag : Dnskey → ℕ
key_tag k =
    let n = length k.public_key in
    let sum = tag_sum true 0 (dnskey_rdata k) in
    if k.algorithm == 1
    then (if ltb n 2 then 0 else u16_at k.public_key (n - 2))
    else (sum + sum / 65536) % 65536

unfoldable pub wire_labels : List Text → Text
wire_labels [] = 0 ∷ []
wire_labels (l ∷ ls) = let rest = wire_labels ls in if l == [] then rest else pack_label l ++ rest

-- WireName
unfoldable pub wire_name : Text → Text
wire_name name =
    let name' = to_lower (trim_dot name) in
    if name' == [] then 0 ∷ [] else wire_labels (split_dots name')

unfoldable pub label_count : Text → ℕ
label_count name = let name' = trim_dot name in if name' == [] then 0 else length (split_dots name')

-- the last part of strings.SplitN(s, ".", n + 1)
unfoldable pub last_part : ℕ → Text → Text
last_part zero s = s
last_part (suc n) s = elim (after_dot s) [ none ↦ s | some r ↦ last_part n r ]

abbrev pub type_soa : ℕ
type_soa = 6

abbrev pub type_srv : ℕ
type_srv = 33

-- the rdata from the names in the packet, or as it is where a name cannot be read
abbrev pub named_or : Text → Result (Text × ℕ) → (Text → ℕ → Outcome Text) → Outcome Text
named_or data' (ok (name, stop)) next = next name stop
named_or data' (err _) next = value data'

-- canonRdata
unfoldable pub canon_rdata : Rr → Text → Outcome Text
canon_rdata rr raw =
    let t = rr.type in
    if t == type_ns || t == type_cname || t == type_ptr
    then named_or rr.rdata (parse_name raw rr.offset) (λ name _. value (wire_name name))
    else if t == type_mx
    then (if ltb (length rr.rdata) 2
        then value rr.rdata
        else named_or rr.rdata (parse_name raw (rr.offset + 2))
            (λ name _. value (take 2 rr.rdata ++ wire_name name)))
    else if t == type_soa
    then named_or rr.rdata (parse_name raw rr.offset) (λ mname n1.
      named_or rr.rdata (parse_name raw n1) (λ rname n2.
        if ltb (length rr.rdata) (n2 - rr.offset)
        then panicked
        else value (wire_name mname ++ (wire_name rname ++ drop (n2 - rr.offset) rr.rdata))))
    else if t == type_srv
    then (if ltb (length rr.rdata) 6
        then value rr.rdata
        else named_or rr.rdata (parse_name raw (rr.offset + 6))
            (λ name _. value (take 6 rr.rdata ++ wire_name name)))
    else value rr.rdata

-- bytes.Compare(a, b) < 0
unfoldable pub bytes_less : Text → Text → Bool
bytes_less s [] = false
bytes_less [] (d ∷ t) = true
bytes_less (c ∷ s) (d ∷ t) = if ltb c d then true else if c == d then bytes_less s t else false

-- Sorting by the rdata. sort.Slice leaves the order of equal ones open; in a set of one type
-- those are the same bytes.
unfoldable pub insert_item : Text × Text → List (Text × Text) → List (Text × Text)
insert_item x [] = x ∷ []
insert_item x (y ∷ ys) = if bytes_less y.0 x.0 then y ∷ insert_item x ys else x ∷ y ∷ ys

unfoldable pub sort_items : List (Text × Text) → List (Text × Text)
sort_items [] = []
sort_items (x ∷ xs) = insert_item x (sort_items xs)

unfoldable pub item : Rrsig → Text → Rr → Text → Text × Text
item sig owner rr data' = (
  data',
  owner
      ++ (put_u16 rr.type
          ++ (put_u16 class_in ++ (put_u32 sig.orig_ttl ++ (put_u16 (length data') ++ data')))),
)

unfoldable pub items : Rrsig → Text → Text → List Rr → Outcome (List (Text × Text))
items sig owner raw [] = value []
items sig owner raw (rr ∷ rrset) =
    let rest = items sig owner raw rrset in
    elim (canon_rdata rr raw) [
      | value data' ↦ elim rest [
        | value more ↦ value (item sig owner rr data' ∷ more)
        | failed ↦ failed
        | panicked ↦ panicked
      ]
      | failed ↦ failed
      | panicked ↦ panicked
    ]

unfoldable pub concat : List (Text × Text) → Text
concat [] = []
concat (x ∷ xs) = x.1 ++ concat xs

-- the owner of the set, or the wildcard that it was expanded from
unfoldable pub signed_owner : Rrsig → Text → Text
signed_owner sig name =
    let owner = to_lower name in
    let n = label_count owner in
    if ltb sig.labels n then codes "*." ++ last_part (n - sig.labels) owner else owner

-- buildSignedData; rrset[0] panics where there is no record
unfoldable pub build_signed_data : Rrsig → List Rr → Text → Outcome Text
build_signed_data sig [] raw = panicked
build_signed_data sig (rr ∷ rrset) raw =
    let head =
      put_u16 sig.type_covered
      ++ sig.algorithm
        ∷ sig.labels
        ∷ (put_u32 sig.orig_ttl
            ++ (put_u32 sig.expiration
                ++ (put_u32 sig.inception
                    ++ (put_u16 sig.key_tag ++ wire_name sig.signer_name)))) in
    elim (items sig (wire_name (signed_owner sig rr.name)) raw (rr ∷ rrset)) [
      | value xs ↦ value (head ++ concat (sort_items xs))
      | failed ↦ failed
      | panicked ↦ panicked
    ]
