-- ===== src/Records/Build.antt =====
-- buildRR of internal/records/records.go: the rdata of a configured record.
use km_resolv.Prelude.{
  ℕ, zero, suc, ◌+◌, ◌-◌, ◌*◌, ◌%◌, ◌^◌, ◌&&◌, Option, none, some, List, [], ◌∷◌, ◌++◌, map, Text,
  codes, ◌==◌, nat_eq, list_eq, ltb, leb, length, fields, if◌then◌else◌,
}
use km_resolv.Dns.{Rr, class_in, type_a, type_aaaa, type_cname, type_ptr, type_ns, type_mx}
use km_resolv.Dns.Name.{pack_name}
use km_resolv.Dns.Pack.{put_u16}

pub record RecordConfig : Type 0 where
  pub name : Text
  pub type : Text
  pub ttl : ℕ
  pub value : Text

pub data Built : Type 0 where
  built : Rr → Built
  invalid : Built
  panicked : Built

unfoldable pub upper_byte : ℕ → ℕ
upper_byte c = if leb b'a' c && leb c b'z' then c - 32 else c

-- strings.ToUpper
unfoldable pub to_upper : Text → Text
unfolding upper_byte
to_upper s = map upper_byte s

-- the value of a text of decimal digits, behind those read so far
unfoldable pub digits : ℕ → Text → Option ℕ
digits n [] = some n
digits n (c ∷ s) =
    let rest = digits (n * 10 + (c - b'0')) s in if leb b'0' c && leb c b'9' then rest else none

-- strconv.ParseUint(s, 10, bits)
unfoldable pub parse_uint : ℕ → Text → Option ℕ
parse_uint bits [] = none
parse_uint bits (c ∷ s) = elim (digits 0 (c ∷ s)) [
  | none ↦ none
  | some n ↦ if ltb n (2 ^ bits) then some n else none
]

unfoldable pub parse_uint8 : Text → Option ℕ
parse_uint8 s = parse_uint 8 s

unfoldable pub parse_uint16 : Text → Option ℕ
parse_uint16 s = parse_uint 16 s

-- the text before the first space and the one behind it
unfoldable pub cut_space : Text → Option (Text × Text)
cut_space [] = none
cut_space (c ∷ s) =
    let rest = cut_space s in
    if c == b' ' then some ([], s) else elim rest [ none ↦ none | some (a, b) ↦ some (c ∷ a, b) ]

-- strings.SplitN(s, " ", n + 1)
unfoldable pub split_n : ℕ → Text → List Text
split_n zero s = s ∷ []
split_n (suc n) s = elim (cut_space s) [ none ↦ s ∷ [] | some (a, b) ↦ a ∷ split_n n b ]

-- The type and the rdata, or what went wrong instead.
pub data Rdata : Type 0 where
  rdata : ℕ → Text → Rdata
  bad : Rdata
  out_of_range : Rdata

abbrev pub need {ℓ} : {A : Type ℓ} → Option A → (A → Rdata) → Rdata
need none next = bad
need (some a) next = next a

-- a length byte and the text
abbrev pub counted : Text → Text
counted s = (length s % 256) ∷ s

unfoldable pub build_txt : Text → Rdata
build_txt value = if ltb 255 (length value) then bad else rdata 16 (counted value)

unfoldable pub build_srv : List Text → Rdata
build_srv (a ∷ b ∷ c ∷ target ∷ []) = need (parse_uint16 a) (λ prio.
    need (parse_uint16 b) (λ weight.
      need (parse_uint16 c) (λ port.
        rdata 33 (put_u16 prio ++ (put_u16 weight ++ (put_u16 port ++ pack_name target))))))
build_srv other = bad

unfoldable pub build_caa : List Text → Rdata
build_caa (a ∷ tag ∷ value ∷ []) =
    need (parse_uint 8 a) (λ flags. rdata 257 (flags ∷ (length tag % 256) ∷ (tag ++ value)))
build_caa other = bad

-- HTTPS and SVCB: strings.Fields(parts[1])[0] panics where there is no field
unfoldable pub build_svcb : ℕ → List Text → Rdata
build_svcb type (a ∷ b ∷ []) = need (parse_uint16 a) (λ prio. elim (fields b) [
  | [] ↦ out_of_range
  | target ∷ _ ↦ rdata type (put_u16 prio ++ pack_name target)
])
build_svcb type other = bad

abbrev pub naptr_text : Text → Text
naptr_text s = if s == codes "." then counted [] else counted s

unfoldable pub build_naptr : List Text → Rdata
build_naptr (a ∷ b ∷ flags ∷ service ∷ regexp ∷ target ∷ _) = need (parse_uint16 a) (λ order.
    need (parse_uint16 b) (λ pref. rdata 35 (
      put_u16 order
      ++ (put_u16 pref
          ++ (naptr_text flags
              ++ (naptr_text service ++ (naptr_text regexp ++ pack_name target)))))))
build_naptr other = bad

unfoldable pub build_uri : List Text → Rdata
build_uri (a ∷ b ∷ target ∷ []) = need (parse_uint16 a) (λ prio.
    need (parse_uint16 b) (λ weight. rdata 256 (put_u16 prio ++ (put_u16 weight ++ target))))
build_uri other = bad

-- the record with the type and the rdata
abbrev pub built_of : RecordConfig → Rdata → Built
built_of r (rdata type data') = built (record {
  name = r.name;
  type = type;
  class = class_in;
  ttl = r.ttl;
  rdata = data';
  offset = 0;
})
built_of r bad = invalid
built_of r out_of_range = panicked

module _ (ipv4 ipv6 base64 hex parse_loc : Text → Option Text)
    (scan_mx : Text → Option (ℕ × Text)) where
  unfoldable pub build_cert : List Text → Rdata
  build_cert (a ∷ b ∷ c ∷ d ∷ []) = need (parse_uint16 a) (λ cert_type.
      need (parse_uint16 b) (λ key_tag. need (parse_uint8 c) (λ alg.
        need (base64 d) (λ body. rdata 37 (put_u16 cert_type ++ (put_u16 key_tag ++ alg ∷ body))))))
  build_cert other = bad

  unfoldable pub build_dnskey : List Text → Rdata
  build_dnskey (a ∷ b ∷ c ∷ d ∷ []) = need (parse_uint16 a) (λ flags. need (parse_uint8 b) (λ proto.
      need (parse_uint8 c)
        (λ alg. need (base64 d) (λ key. rdata 48 (put_u16 flags ++ proto ∷ alg ∷ key)))))
  build_dnskey other = bad

  unfoldable pub build_ds : List Text → Rdata
  build_ds (a ∷ b ∷ c ∷ d ∷ []) = need (parse_uint16 a) (λ key_tag. need (parse_uint8 b) (λ alg.
      need (parse_uint8 c) (λ digest_type.
        need (hex d) (λ digest. rdata 43 (put_u16 key_tag ++ alg ∷ digest_type ∷ digest)))))
  build_ds other = bad

  unfoldable pub build_sshfp : List Text → Rdata
  build_sshfp (a ∷ b ∷ c ∷ []) =
      need (parse_uint8 a) (λ alg.
        need (parse_uint8 b) (λ fp_type. need (hex c) (λ fp. rdata 44 (alg ∷ fp_type ∷ fp))))
  build_sshfp other = bad

  -- SMIMEA and TLSA
  unfoldable pub tlsa_like : ℕ → List Text → Rdata
  tlsa_like type (a ∷ b ∷ c ∷ d ∷ []) = need (parse_uint8 a) (λ usage. need (parse_uint8 b) (λ sel.
      need (parse_uint8 c) (λ mt. need (hex d) (λ cert. rdata type (usage ∷ sel ∷ mt ∷ cert)))))
  tlsa_like type other = bad

  abbrev build_mx : Text → Rdata
  build_mx value = need (scan_mx value) (λ p. rdata type_mx (put_u16 p.0 ++ pack_name p.1))

  -- The switch of buildRR, on the type in upper case.
  unfoldable pub build_rdata : Text → Text → Rdata
  build_rdata type value =
      if type == codes "A"
      then need (ipv4 value) (rdata type_a)
      else if type == codes "AAAA"
      then need (ipv6 value) (rdata type_aaaa)
      else if type == codes "CNAME"
      then rdata type_cname (pack_name value)
      else if type == codes "PTR"
      then rdata type_ptr (pack_name value)
      else if type == codes "NS"
      then rdata type_ns (pack_name value)
      else if type == codes "TXT"
      then build_txt value
      else if type == codes "MX"
      then build_mx value
      else if type == codes "SRV"
      then build_srv (fields value)
      else if type == codes "CAA"
      then build_caa (split_n 2 value)
      else if type == codes "CERT"
      then build_cert (fields value)
      else if type == codes "DNSKEY"
      then build_dnskey (fields value)
      else if type == codes "DS"
      then build_ds (fields value)
      else if type == codes "HTTPS"
      then build_svcb 65 (split_n 1 value)
      else if type == codes "SVCB"
      then build_svcb 64 (split_n 1 value)
      else if type == codes "LOC"
      then need (parse_loc value) (rdata 29)
      else if type == codes "NAPTR"
      then build_naptr (fields value)
      else if type == codes "OPENPGPKEY"
      then need (base64 value) (rdata 61)
      else if type == codes "SMIMEA"
      then tlsa_like 53 (fields value)
      else if type == codes "SSHFP"
      then build_sshfp (fields value)
      else if type == codes "TLSA"
      then tlsa_like 52 (fields value)
      else if type == codes "URI"
      then build_uri (split_n 2 value)
      else bad

  -- buildRR
  unfoldable pub build_rr : RecordConfig → Built
  build_rr r = built_of r (build_rdata (to_upper r.type) r.value)
