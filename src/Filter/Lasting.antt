-- ===== src/Filter/Lasting.antt =====
-- What is listed inline stays listed: over a reload, and in the filter that NewFilter makes.
use km_resolv.Prelude.{
  ◌≡◌, inl, inr, refl, sym, ◌∙◌, Bool, true, Bool-cases, Option-cases, Option, none, some, List, [],
  ◌∷◌, ◌++◌, Text, arith, ◌==◌, nat_eq, list_eq, ◌||◌, codes, to_lower, if◌then◌else◌, lookup,
  insert, beq_refl, trim_space, fields, has_prefix,
}
use km_resolv.Filter.{
  Domains, Filter, FilterConfig, member, clean, add_inline, add_keys, add_fields, parse_line,
  parse_list, load_lists, before_hash, blacklist, add, reload, new_filter, blocked,
}
use km_resolv.Filter.Walk.{Within, plain, blocked-blacklist_iff}
use km_resolv.Filter.Edits.{member-insert, member-nil}

-- What is in one set is in another.
abbrev Grows : Domains → Domains → Type 0
Grows m m' = (d : Text) → member d m ≡ true → member d m' ≡ true

member-insert_keeps :
    (d e : Text) (m : Domains) → member e m ≡ true → member e (insert d true m) ≡ true
member-insert_keeps d e m h = ground (arith, member-insert d e m, h)

member-insert_self : (d : Text) (m : Domains) → member d (insert d true m) ≡ true
member-insert_self d m = rw (member-insert, beq_refl) refl

add_inline-Grows : (ds : List Text) (m : Domains) → Grows m (add_inline ds m)
unfolding add_inline
add_inline-Grows [] m d h = h
add_inline-Grows (e ∷ ds) m d h =
    add_inline-Grows ds (insert (clean e) true m) d (member-insert_keeps (clean e) d m h)

add_inline-append :
    (ds : List Text) (d : Text) (m : Domains)
    → member (clean d) (add_inline (ds ++ d ∷ []) m) ≡ true
unfolding add_inline
add_inline-append [] d m = member-insert_self (clean d) m
add_inline-append (e ∷ ds) d m = add_inline-append ds d (insert (clean e) true m)

add_keys-Grows : (from to : Domains) → Grows to (add_keys from to)
unfolding add_keys
add_keys-Grows [] to d h = h
add_keys-Grows ((e, b) ∷ from) to d h =
    add_keys-Grows from (insert e true to) d (member-insert_keeps e d to h)

member-cons :
    (d e : Text) (b : Bool) (m : Domains)
    → member d ((e, b) ∷ m) ≡ (if e == d then b else member d m)
unfolding member lookup
member-cons d e b m = ground arith

add_keys-member :
    (from to : Domains) (d : Text) → member d from ≡ true → member d (add_keys from to) ≡ true
unfolding add_keys
add_keys-member [] to d h = ground (arith, member-nil d, h)
add_keys-member ((e, b) ∷ from) to d h = elim (Bool-cases (e == d)) [
  | inl same ↦ add_keys-Grows from (insert e true to) d (rw (member-insert, same) refl)
  | inr other ↦ add_keys-member from (insert e true to) d (sym (rw (member-cons, other) refl) ∙ h)
]

add_fields-Grows : (fs : List Text) (m : Domains) → Grows m (add_fields fs m)
unfolding add_fields
add_fields-Grows [] m d h = h
add_fields-Grows (e ∷ []) m d h = member-insert_keeps (to_lower e) d m h
add_fields-Grows (host ∷ e ∷ []) m d h = ground (arith, member-insert_keeps (to_lower e) d m h)
add_fields-Grows (a ∷ b ∷ c ∷ fs) m d h = h

parse_line-Grows : (text : Text) (m : Domains) → Grows m (parse_line text m)
unfolding parse_line
parse_line-Grows text m d h =
    let line = trim_space text in
    let fs = fields (elim (before_hash line) [ none ↦ line | some t ↦ trim_space t ]) in
    elim (Bool-cases (line == [] || has_prefix line (codes "#"))) [
      | inl skipped ↦ rw skipped h
      | inr read ↦ rw read (add_fields-Grows fs m d h)
    ]

parse_list-Grows : (lines : List Text) (m : Domains) → Grows m (parse_list lines m)
unfolding parse_list
parse_list-Grows [] m d h = h
parse_list-Grows (l ∷ lines) m d h =
    parse_list-Grows lines (parse_line l m) d (parse_line-Grows l m d h)

-- The domain is listed inline and in force, in blacklist mode.
pub record Lists (d : Text) (f : Filter) : Type 0 where
  pub inline : member d f.inline ≡ true
  pub domains : member d f.state.domains ≡ true
  pub mode : f.state.mode ≡ blacklist

pub blocked-Lists :
    (name d : Text) (f : Filter) → Lists d f → Within d (plain name) → blocked name f ≡ true
blocked-Lists name d f l w = (blocked-blacklist_iff name f l.mode).1 (d, l.domains, w)

pub add-Lists :
    (domain : Text) (f : Filter) → f.state.mode ≡ blacklist → Lists (clean domain) (add domain f)
unfolding add
add-Lists domain f mode = record {
  inline = member-insert_self (clean domain) f.inline;
  domains = member-insert_self (clean domain) f.state.domains;
  mode = mode;
}

-- Reloads, each with what the sources are at its time.
unfoldable pub reload_all : List (Text → Option (List Text)) → FilterConfig → Filter → Filter
reload_all [] cfg f = f
reload_all (fetch ∷ fetches) cfg f = reload_all fetches cfg (reload fetch cfg f)

pub reload_all-Lists :
    (fetches : List (Text → Option (List Text))) (cfg : FilterConfig) (d : Text) (f : Filter)
    → to_lower cfg.mode ≡ blacklist
    → Lists d f
    → Lists d (reload_all fetches cfg f)
unfolding reload_all reload
reload_all-Lists [] cfg d f mode l = l
reload_all-Lists (fetch ∷ fetches) cfg d f mode l =
    reload_all-Lists fetches cfg d (reload fetch cfg f) mode
      (record { inline = l.inline; domains = add_keys-member f.inline _ d l.inline; mode = mode })

module _ (fetch : Text → Option (List Text)) where
  load_lists-Grows : (sources : List Text) (m : Domains) → Grows m (load_lists fetch sources m)
  unfolding load_lists
  load_lists-Grows [] m d h = h
  load_lists-Grows (source ∷ sources) m d h = elim (Option-cases (fetch source)) [
    | inl e ↦ rw (load_lists, e) (load_lists-Grows sources m d h)
    | inr (lines, e) ↦
        rw (load_lists, e)
          (load_lists-Grows sources (parse_list lines m) d (parse_list-Grows lines m d h))
  ]

  pub new_filter-Lists :
      (cfg : FilterConfig) (domains : List Text) (domain : Text)
      → to_lower cfg.mode ≡ blacklist
      → Lists (clean domain) (new_filter fetch (record cfg { inline = domains ++ domain ∷ [] }))
  unfolding new_filter
  new_filter-Lists cfg domains domain mode =
      let listed = add_inline-append domains domain [] in
      rw mode (record {
        inline = listed;
        domains = load_lists-Grows cfg.lists _ (clean domain) listed;
        mode = refl;
      })
