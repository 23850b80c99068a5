-- ===== src/Records.antt =====
-- internal/records/records.go: the records that the configuration lists, which are answered
-- without a query to another server. The parameters are net.ParseIP with To4 and To16, the
-- decoders of base64 and hex, fmt.Sscanf with "%d %s", and parseLOC, which computes on floats. An
-- error is `invalid`, without its text; `panicked` is an index out of range.
pub mod Build
pub mod Lookup
pub mod Wire
mod Tests
use km_resolv.Prelude.{
  ℕ, zero, suc, ◌+◌, ◌-◌, ◌*◌, ◌^◌, ◌<◌, ◌≡◌, refl, Bool, true, false, not, ◌&&◌, ◌||◌, Option,
  none, some, List, [], ◌∷◌, ◌++◌, map, Text, codes, ◌==◌, nat_eq, list_eq, ltb, leb, length,
  select, after_dot, trim_dot, to_lower, if◌then◌else◌, Map, lookup, insert,
}
use km_resolv.Dns.{Rr}
use Build.{RecordConfig, Built, built, invalid, panicked, build_rr}

abbrev pub RecordStore : Type 0
RecordStore = Map Text (List Rr)

-- rs.records[key], the empty list where the key is missing
abbrev pub at_key : Text → RecordStore → List Rr
at_key key rs = elim (lookup key rs) [ none ↦ [] | some rrs ↦ rrs ]

-- A record that was built, at the end of those of its name.
unfoldable pub add_record : RecordConfig → Rr → RecordStore → RecordStore
add_record r rr rs = let key = to_lower r.name in insert key (at_key key rs ++ rr ∷ []) rs

-- The loop of NewRecordStore, over what buildRR makes of each record; `none` is the end of the
-- program by a panic.
unfoldable pub add_records :
    (RecordConfig → Built) → List RecordConfig → RecordStore → Option RecordStore
add_records build [] rs = some rs
add_records build (r ∷ records) rs = elim (build r) [
  | built rr ↦ add_records build records (add_record r rr rs)
  | invalid ↦ add_records build records rs
  | panicked ↦ none
]

unfoldable pub new_record_store : (RecordConfig → Built) → List RecordConfig → Option RecordStore
new_record_store build records = add_records build records []

unfoldable pub filter_by_type : List Rr → ℕ → List Rr
filter_by_type rrs qtype = select (λ rr. rr.type == qtype) rrs

abbrev pub rename : Text → Rr → Rr
rename name rr = record rr { name = name }

-- the records of the wildcard one label up, under the queried name
unfoldable pub wildcard : (Text → Option (List Rr)) → Text → ℕ → List Rr
wildcard find key qtype = elim (after_dot key) [
  | none ↦ []
  | some parent ↦ elim (find (codes "*." ++ parent)) [
    | none ↦ []
    | some rrs ↦ map (rename key) (filter_by_type rrs qtype)
  ]
]

unfoldable pub find_records : (Text → Option (List Rr)) → Text → ℕ → List Rr
find_records find key qtype = elim (find key) [
  | some rrs ↦ filter_by_type rrs qtype
  | none ↦ wildcard find key qtype
]

-- RecordStore.Lookup
unfoldable pub lookup_records : Text → ℕ → RecordStore → List Rr
lookup_records name qtype rs = find_records (λ key. lookup key rs) (to_lower (trim_dot name)) qtype

-- To run the functions above in a test.
unfoldable pub program : Unit {0}
unfolding lookup insert to_lower trim_dot after_dot add_record add_records new_record_store
    filter_by_type wildcard find_records lookup_records build_rr
program = tt
