-- ===== src/Records/Wire.antt =====
-- The rdata that buildRR makes, as a reader of the message takes it.
use km_resolv.Prelude.{
  ℕ, ◌≡◌, refl, sym, ap, ◌∙◌, Option, [], append-nil, Text, codes, ok, arith, nat_eq, list_eq,
  length,
}
use km_resolv.Dns.{Rr, class_in, type_cname, type_ns, type_ptr}
use km_resolv.Dns.Name.{parse_name, pack_name}
use km_resolv.Dns.Name.RoundTrip.{IsName, parse-pack_name}
use km_resolv.Records.Build.{RecordConfig, built, built_of, rdata, to_upper, build_rdata, build_rr}

-- The types whose value is a name, as the configuration spells them.
pub data NameType : Text → ℕ → Type 0 where
  cname : NameType (codes "CNAME") type_cname
  ptr : NameType (codes "PTR") type_ptr
  ns : NameType (codes "NS") type_ns

parse-pack_name-alone :
    (name : Text) → IsName name → parse_name (pack_name name) 0 ≡ ok (name, length (pack_name name))
parse-pack_name-alone name v =
    ap (λ b. parse_name b 0) (sym (append-nil (pack_name name)))
    ∙ parse-pack_name [] [] name v
    ∙ ap (λ (n : ℕ). ok (name, n)) (omega arith)

module _ (ipv4 ipv6 base64 hex parse_loc : Text → Option Text)
    (scan_mx : Text → Option (ℕ × Text)) where
  build_rdata-name :
      {text : Text} {type : ℕ}
      → NameType text type
      → (value : Text)
      → build_rdata ipv4 ipv6 base64 hex parse_loc scan_mx text value ≡ rdata type (pack_name value)
  unfolding build_rdata
  build_rdata-name cname value = refl
  build_rdata-name ptr value = refl
  build_rdata-name ns value = refl

  -- A configured CNAME, PTR or NS record, its type in any case, becomes a record of its name and
  -- TTL whose rdata parseName reads back as the configured value, to its end. The value is a name
  -- of labels of 1 to 63 bytes.
  pub parse-build_rr :
      (r : RecordConfig) (text : Text) (type : ℕ)
      → NameType text type
      → to_upper r.type ≡ text
      → IsName r.value
      → (rr : Rr) × (build_rr ipv4 ipv6 base64 hex parse_loc scan_mx r ≡ built rr)
        × (rr.name ≡ r.name)
        × (rr.ttl ≡ r.ttl)
        × (rr.type ≡ type)
        × (parse_name rr.rdata 0 ≡ ok (r.value, length rr.rdata))
  unfolding build_rr
  parse-build_rr r text type t e v =
      let rr : Rr = record {
        name = r.name;
        type = type;
        class = class_in;
        ttl = r.ttl;
        rdata = pack_name r.value;
        offset = 0;
      } in
      (
        rr,
        ap (built_of r) (
            ap (λ x. build_rdata ipv4 ipv6 base64 hex parse_loc scan_mx x r.value) e
            ∙ build_rdata-name t r.value),
        refl,
        refl,
        refl,
        parse-pack_name-alone r.value v,
      )
