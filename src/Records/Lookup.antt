-- ===== src/Records/Lookup.antt =====
-- What the record store answers, in terms of the configured list.
use km_resolv.Prelude.{
  ℕ, ◌≡◌, refl, ap, ◌∙◌, Bool-cases, inl, inr, Option, none, some, List, [], ◌∷◌, ◌++◌, append-nil,
  append_assoc, ◌⊎◌, fun_ext, Text, arith, ◌==◌, nat_eq, list_eq, list_beq_iff, trim_dot, to_lower,
  if◌then◌else◌, lookup, lookup-insert, after_dot, codes, select, map, Option-cases,
}
use km_resolv.Dns.{Rr}
use km_resolv.Records.Build.{RecordConfig, Built, built, invalid, panicked}
use km_resolv.Records.{
  RecordStore, at_key, add_record, add_records, new_record_store, find_records, lookup_records,
  wildcard, filter_by_type,
}

-- The valid records that are configured under a name, in the order of the configuration.
abbrev pub named : (RecordConfig → Built) → Text → List RecordConfig → List Rr
named build key [] = []
named build key (r ∷ records) = elim (build r) [
  | built rr ↦
      if to_lower r.name == key then rr ∷ named build key records else named build key records
  | invalid ↦ named build key records
  | panicked ↦ named build key records
]

-- A list of records as the value of a key, which is missing if there is none.
abbrev pub some_or_none : List Rr → Option (List Rr)
some_or_none [] = none
some_or_none (rr ∷ rrs) = some (rr ∷ rrs)

abbrev joined : Option (List Rr) → List Rr → Option (List Rr)
joined none rrs = some_or_none rrs
joined (some old) rrs = some (old ++ rrs)

joined-add :
    (o : Option (List Rr)) (rr : Rr) (rrs : List Rr)
    → joined (some (elim o [ none ↦ [] | some old ↦ old ] ++ rr ∷ [])) rrs ≡ joined o (rr ∷ rrs)
joined-add none rr rrs = refl
joined-add (some old) rr rrs = ap some (append_assoc old (rr ∷ []) rrs)

joined-nil : (o : Option (List Rr)) → joined o [] ≡ o
joined-nil none = refl
joined-nil (some old) = ap some (append-nil old)

lookup-add_record :
    (key : Text) (r : RecordConfig) (rr : Rr) (rs : RecordStore) (rrs : List Rr)
    → joined (lookup key (add_record r rr rs)) rrs
      ≡ joined (lookup key rs) (if to_lower r.name == key then rr ∷ rrs else rrs)
unfolding add_record
lookup-add_record key r rr rs rrs =
    let at = to_lower r.name in
    elim (Bool-cases (at == key)) [
      | inl same ↦
          rw (lookup-insert at key (at_key at rs ++ rr ∷ []) rs, same, (list_beq_iff at key).0 same)
            (joined-add (lookup key rs) rr rrs)
      | inr other ↦ rw (lookup-insert at key (at_key at rs ++ rr ∷ []) rs, other) refl
    ]

Built-cases : (b : Built) → ((rr : Rr) × (b ≡ built rr)) ⊎ ((b ≡ invalid) ⊎ (b ≡ panicked))
Built-cases (built rr) = inl (rr, refl)
Built-cases invalid = inr (inl refl)
Built-cases panicked = inr (inr refl)

lookup-add_records :
    (build : RecordConfig → Built) (key : Text) (records : List RecordConfig) (rs rs' : RecordStore)
    → add_records build records rs ≡ some rs'
    → lookup key rs' ≡ joined (lookup key rs) (named build key records)
unfolding add_records
lookup-add_records build key [] rs rs' h = ground (arith, joined-nil (lookup key rs))
lookup-add_records build key (r ∷ records) rs rs' h = elim (Built-cases (build r)) [
  | inl (rr, e) ↦
      let added : add_records build records (add_record r rr rs) ≡ some rs' = ground (arith, h) in
      rw (e, named)
        (lookup-add_records build key records (add_record r rr rs) rs' added
          ∙ lookup-add_record key r rr rs (named build key records))
  | inr (inl e) ↦
      let added : add_records build records rs ≡ some rs' = ground (arith, h) in
      rw (e, named) (lookup-add_records build key records rs rs' added)
  | inr (inr e) ↦ absurd (ground (arith, h))
]

lookup-new_record_store :
    (build : RecordConfig → Built) (key : Text) (records : List RecordConfig) (rs : RecordStore)
    → new_record_store build records ≡ some rs
    → lookup key rs ≡ some_or_none (named build key records)
unfolding new_record_store lookup
lookup-new_record_store build key records rs h = lookup-add_records build key records [] rs h

-- the name of the wildcard one label up, if there is a label above
abbrev pub star_above : Text → Option Text
star_above key = elim (after_dot key) [ none ↦ none | some parent ↦ some (codes "*." ++ parent) ]

-- What a configuration says of a name and a type: the records of the name and the type in their
-- order; or, if the name has no record of any type, those of the type under the wildcard one label
-- up, each with the name instead of its own.
unfoldable pub configured_answers : (RecordConfig → Built) → List RecordConfig → Text → ℕ → List Rr
configured_answers build records key qtype = elim (named build key records) [
  | rr ∷ rrs ↦ select (λ x. x.type == qtype) (rr ∷ rrs)
  | [] ↦ elim (star_above key) [
    | none ↦ []
    | some star ↦
        map {A = Rr} (λ x. record x { name = key })
          (select (λ x. x.type == qtype) (named build star records))
  ]
]

List-cases : (rrs : List Rr) → (rrs ≡ []) ⊎ ((rr : Rr) × (rest : List Rr) × (rrs ≡ rr ∷ rest))
List-cases [] = inl refl
List-cases (rr ∷ rest) = inr (rr, rest, refl)

find_records-configured :
    (build : RecordConfig → Built) (records : List RecordConfig) (key : Text) (qtype : ℕ)
    → find_records (λ k. some_or_none (named build k records)) key qtype
      ≡ configured_answers build records key qtype
unfolding find_records wildcard filter_by_type configured_answers
find_records-configured build records key qtype = elim (List-cases (named build key records)) [
  | inr (rr, rest, e) ↦ rw (find_records, configured_answers, e) refl
  | inl e ↦ elim (Option-cases (after_dot key)) [
    | inl top ↦ rw (find_records, wildcard, configured_answers, e, top) refl
    | inr (parent, up) ↦ elim (List-cases (named build (codes "*." ++ parent) records)) [
      | inl f ↦ rw (find_records, wildcard, configured_answers, e, up, f) refl
      | inr (rr, rest, f) ↦ rw (find_records, wildcard, configured_answers, e, up, f) refl
    ]
  ]
]

-- Lookup in the store of NewRecordStore answers from the configured list: the records of the
-- name and the type in their order, or, if the name has no record of any type, those of the
-- wildcard one label up, under the queried name. The name is taken in lower case and without a
-- trailing dot.
pub lookup_records-new_record_store :
    (build : RecordConfig → Built) (records : List RecordConfig) (rs : RecordStore) (name : Text)
    (qtype : ℕ)
    → new_record_store build records ≡ some rs
    → lookup_records name qtype rs
      ≡ configured_answers build records (to_lower (trim_dot name)) qtype
unfolding lookup_records
lookup_records-new_record_store build records rs name qtype h =
    ap (λ (find : Text → Option (List Rr)). find_records find (to_lower (trim_dot name)) qtype)
      (fun_ext (λ key. lookup-new_record_store build key records rs h))
    ∙ find_records-configured build records (to_lower (trim_dot name)) qtype
