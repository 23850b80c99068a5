-- ===== src/Records/Tests.antt =====
-- Runs of the record store, and the theorems about it at a concrete configuration.
use km_resolv.Prelude.{
  ◌≡◌, refl, Option, none, some, [], ◌∷◌, Text, codes, ok, arith, to_lower, trim_dot, length,
  split_dots, fields,
}
use km_resolv.Dns.{Rr, type_cname}
use km_resolv.Dns.Name.{parse_name, pack_name}
use km_resolv.Records.{RecordStore, new_record_store, lookup_records, program}
use km_resolv.Records.Build.{RecordConfig, Built, built, panicked, to_upper, build_rr}
use km_resolv.Records.Build as Build
use km_resolv.Records.Lookup.{configured_answers, lookup_records-new_record_store}
use km_resolv.Records.Wire.{NameType, parse-build_rr}

abbrev unread : Text → Option Text
unread s = none

abbrev build : RecordConfig → Built
build = build_rr unread unread unread unread unread (λ s. none)

abbrev alias : RecordConfig
alias = record { name = codes "*.Lan"; type = codes "cname"; ttl = 60; value = codes "a.de" }

abbrev alias_rr : Rr
alias_rr = record {
  name = codes "*.Lan";
  type = 5;
  class = 1;
  ttl = 60;
  rdata = 1 ∷ b'a' ∷ 2 ∷ b'd' ∷ b'e' ∷ 0 ∷ [];
  offset = 0;
}

abbrev store : RecordStore
store = (codes "*.lan", alias_rr ∷ []) ∷ []

upper : to_upper alias.type ≡ codes "CNAME"
unfolding to_upper
upper = refl

stored : new_record_store build (alias ∷ []) ≡ some store
unfolding program Build.build_rdata to_upper pack_name
stored = refl

found : lookup_records (codes "Pc.LAN.") 5 store ≡ (record alias_rr { name = codes "pc.lan" }) ∷ []
unfolding program
found = refl

-- An HTTPS record whose value ends behind the space.
no_target : build (record alias { type = codes "HTTPS"; value = codes "1 " }) ≡ panicked
unfolding program Build.build_rdata to_upper Build.build_svcb Build.split_n Build.cut_space
    Build.parse_uint16 Build.parse_uint Build.digits fields
no_target = refl

lookup_records-new_record_store_example :
    lookup_records (codes "Pc.LAN.") 5 store
    ≡ configured_answers build (alias ∷ []) (to_lower (trim_dot (codes "Pc.LAN."))) 5
lookup_records-new_record_store_example =
    lookup_records-new_record_store build (alias ∷ []) store (codes "Pc.LAN.") 5 stored

parse-build_rr_example :
    (rr : Rr) × (build alias ≡ built rr)
    × (rr.name ≡ alias.name)
    × (rr.ttl ≡ alias.ttl)
    × (rr.type ≡ type_cname)
    × (parse_name rr.rdata 0 ≡ ok (alias.value, length rr.rdata))
unfolding split_dots
parse-build_rr_example =
    parse-build_rr unread unread unread unread unread (λ s. none) alias (codes "CNAME") type_cname
      NameType.cname upper ((omega arith, omega arith), ((omega arith, omega arith), tt))
