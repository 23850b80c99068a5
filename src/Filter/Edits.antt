-- ===== src/Filter/Edits.antt =====
-- What Add, Remove, SetMode and Reload do to the names that are blocked.
use km_resolv.Prelude.{
  ◌≡◌, ◌≢◌, ◌↔◌, ◌⊎◌, inl, inr, refl, sym, ◌∙◌, true, false, Bool-cases, Option, List, [], Text,
  arith, ◌==◌, nat_eq, list_eq, list_beq_iff, to_lower, if◌then◌else◌, lookup, insert, remove,
  lookup-insert, lookup-remove, beq_refl, subst,
}
use km_resolv.Filter.{
  Domains, Filter, FilterConfig, FilterState, member, listed, blocked, off, blacklist, whitelist,
  add, remove_domain, clean, set_mode, new_filter, reload, load_lists, add_keys,
}
use km_resolv.Filter.Walk.{Within, plain, listed_iff, blocked-blacklist_iff}

pub member-insert :
    (d e : Text) (m : Domains) → member e (insert d true m) ≡ (if d == e then true else member e m)
unfolding member
member-insert d e m = ground (arith, lookup-insert d e true m)

member-remove :
    (d e : Text) (m : Domains) → member e (remove d m) ≡ (if d == e then false else member e m)
unfolding member
member-remove d e m = ground (arith, lookup-remove d e m)

-- In blacklist mode, after Add a name is blocked exactly if the added domain is the name or above
-- it, or if it was blocked before.
pub blocked-add_iff :
    (name domain : Text) (f : Filter)
    → f.state.mode ≡ blacklist
    → (blocked name (add domain f) ≡ true)
      ↔ (Within (clean domain) (plain name) ⊎ (blocked name f ≡ true))
unfolding add
blocked-add_iff name domain f mode =
    let after = blocked-blacklist_iff name (add domain f) mode in
    let before = blocked-blacklist_iff name f mode in
    let at = clean domain in
    (
      λ h.
          let (d, found, w) = after.0 h in
          elim (Bool-cases (at == d)) [
            | inl same ↦
                inl (subst (λ x. Within x (plain name)) (sym ((list_beq_iff at d).0 same)) w)
            | inr other ↦
                inr
                  (before.1 (d, rw other at (sym (member-insert at d f.state.domains) ∙ found), w))
          ],
      λ c. elim c [
        | inl w ↦ after.1 (at, rw (member-insert, beq_refl), w)
        | inr b ↦
            let (d, found, w) = before.0 b in
            after.1 (d, ground (arith, member-insert at d f.state.domains), w)
      ],
    )

-- In blacklist mode, after Remove a name is blocked exactly if a listed domain other than the one
-- that was removed is the name or above it.
blocked-remove_iff :
    (name domain : Text) (f : Filter)
    → f.state.mode ≡ blacklist
    → (blocked name (remove_domain domain f) ≡ true) ↔ (
        (d : Text) × (d ≢ clean domain) × (member d f.state.domains ≡ true) × Within d (plain name))
unfolding remove_domain
blocked-remove_iff name domain f mode =
    let after = blocked-blacklist_iff name (remove_domain domain f) mode in
    let at = clean domain in
    let gone = member-remove at in
    (
      λ h.
          let (d, found, w) = after.0 h in
          (
            d,
            ground (arith, gone d f.state.domains, list_beq_iff at d),
            ground (arith, gone d f.state.domains),
            w,
          ),
      λ c.
          let (d, ne, found, w) = c in
          after.1 (d, ground (arith, gone d f.state.domains, list_beq_iff at d), w),
    )

pub member-nil : (d : Text) → member d [] ≡ false
unfolding member lookup
member-nil d = refl

blocked-nil :
    (name mode : Text) (inline : Domains)
    → mode ≢ whitelist
    → blocked name (record { state = record { domains = []; mode = mode }; inline = inline })
      ≡ false
unfolding blocked
blocked-nil name mode inline h = elim (Bool-cases (listed (plain name) [])) [
  | inl e ↦
      let (d, found, w) = (listed_iff (plain name) []).0 e in absurd (ground (arith, member-nil d))
  | inr e ↦ ground (arith, list_beq_iff mode whitelist)
]

new_filter-off :
    (fetch : Text → Option (List Text)) (cfg : FilterConfig)
    → to_lower cfg.mode ≡ off
    → new_filter fetch cfg
      ≡ record { state = record { domains = []; mode = to_lower cfg.mode }; inline = [] }
unfolding new_filter
new_filter-off fetch cfg h = rw h refl

reload-nil :
    (fetch : Text → Option (List Text)) (cfg : FilterConfig) (st : FilterState)
    → cfg.lists ≡ []
    → reload fetch cfg (record { state = st; inline = [] })
      ≡ record { state = record { domains = []; mode = to_lower cfg.mode }; inline = [] }
unfolding reload load_lists add_keys
reload-nil fetch cfg st h = elim (Bool-cases (to_lower cfg.mode == off)) [
  | inl e ↦ rw e refl
  | inr e ↦ rw (e, h) refl
]

-- A filter that was created in mode off never blocks what the configuration lists inline: not
-- when the mode is set to another one than off or whitelist, and not after a reload in blacklist
-- mode either, when there are no lists.
pub inline_lost :
    (fetch : Text → Option (List Text)) (cfg later : FilterConfig) (mode name : Text)
    → to_lower cfg.mode ≡ off
    → to_lower mode ≢ whitelist
    → to_lower later.mode ≢ whitelist
    → later.lists ≡ []
    → let f = set_mode mode (new_filter fetch cfg) in
      (blocked name f ≡ false) × (blocked name (reload fetch later f) ≡ false)
unfolding set_mode
inline_lost fetch cfg later mode name created set reloaded lists =
    rw (new_filter-off fetch cfg created) (
      blocked-nil name (to_lower mode) [] set,
      rw (reload-nil fetch later (record { domains = []; mode = to_lower mode }) lists)
          (blocked-nil name (to_lower later.mode) [] reloaded),
    )
