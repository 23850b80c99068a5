-- ===== src/Server/Answers/Targets.antt =====
-- The names in the rdata of an answer that is made up of two messages.
use km_resolv.Prelude.{
  ℕ, ◌≤◌, ◌≡◌, ◌⊎◌, refl, ap, sym, ◌∙◌, some, [], append-nil, Text, ok, arith, nat_eq, length,
}
use km_resolv.Dns.{Rr, type_cname, type_ns, type_ptr}
use km_resolv.Dns.Name.{parse_name, pack_name, parse_uncompressed_name}
use km_resolv.Dns.Name.RoundTrip.{IsName}
use km_resolv.Dns.Name.Uncompressed.{parse_uncompressed-pack_name}
use km_resolv.Dns.Pack.{rdata_name}
use km_resolv.Server.Answers.{plain_rdata, materialize_rr}

-- CNAME, NS and PTR: the rdata is a name alone.
abbrev pub IsNameType : ℕ → Type 0
IsNameType t = (t ≡ type_cname) ⊎ ((t ≡ type_ns) ⊎ (t ≡ type_ptr))

rdata-materialize_rr :
    (raw : Text) (rr : Rr) (name : Text) (stop : ℕ)
    → IsNameType rr.type
    → 12 ≤ rr.offset
    → parse_name raw rr.offset ≡ ok (name, stop)
    → (materialize_rr raw rr).rdata ≡ pack_name name
unfolding materialize_rr plain_rdata
rdata-materialize_rr raw rr name stop t o h = ground (arith, t, o, h)

-- A CNAME, NS or PTR record that materializeRR has taken out of its packet still has the name that
-- its rdata had there, compressed or not: Pack finds it without the packet. The rdata stands
-- behind the header, and its name has labels of 1 to 63 bytes.
pub rdata_name-materialize_rr :
    (raw other : Text) (rr : Rr) (name : Text) (stop : ℕ)
    → IsNameType rr.type
    → 12 ≤ rr.offset
    → parse_name raw rr.offset ≡ ok (name, stop)
    → IsName name
    → rdata_name (materialize_rr raw rr) other ≡ some name
unfolding rdata_name
rdata_name-materialize_rr raw other rr name stop t o h v =
    let read : parse_uncompressed_name (materialize_rr raw rr).rdata
        ≡ ok (name, length (pack_name name)) =
      ap parse_uncompressed_name
        (rdata-materialize_rr raw rr name stop t o h ∙ sym (append-nil (pack_name name)))
      ∙ parse_uncompressed-pack_name name [] v in
    let same : (materialize_rr raw rr).type ≡ rr.type = unfold materialize_rr in refl in
    let zero_offset : (materialize_rr raw rr).offset ≡ 0 = unfold materialize_rr in refl in
    ground (arith, t, read, same, zero_offset)
