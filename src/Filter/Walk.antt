-- ===== src/Filter/Walk.antt =====
-- The loop of Blocked against what it means: a name is listed if it is a listed domain, or is below
-- one.
use mathlib.Core.Bool.{false≢true}
use km_resolv.Prelude.{
  ℕ, zero, suc, ◌+◌, ◌<◌, ◌≡◌, ◌≢◌, ◌↔◌, ◌⊎◌, inl, inr, refl, sym, ap, ◌∙◌, true, Bool-cases,
  Option-cases, none, some, [], ◌∷◌, ◌++◌, Text, arith, ◌==◌, nat_eq, list_eq, length, to_lower,
  trim_dot, after_dot, append_assoc,
}
use km_resolv.Filter.{Domains, Filter, member, walk, listed, blocked, blacklist, whitelist}

-- `d` is the name, or what follows one of its dots.
abbrev pub Within : Text → Text → Type 0
Within d name = (d ≡ name) ⊎ ((pre : Text) × (name ≡ pre ++ b'.' ∷ d))

-- A listed domain is the name or above it.
abbrev pub Covers : Domains → Text → Type 0
Covers domains name = (d : Text) × (member d domains ≡ true) × Within d name

length-after_dot : (s r : Text) → after_dot s ≡ some r → length r < length s
unfolding after_dot
length-after_dot [] r h = cc
length-after_dot (c ∷ s) r h = ground (arith, length-after_dot s r)

after_dot-split : (s r : Text) → after_dot s ≡ some r → (pre : Text) × (s ≡ pre ++ b'.' ∷ r)
unfolding after_dot
after_dot-split [] r h = cc
after_dot-split (c ∷ s) r h = elim (Bool-cases (c == b'.')) [
  | inl dot ↦ ([], ground arith)
  | inr other ↦ let (pre, e) = after_dot-split s r (ground arith) in (c ∷ pre, ap (◌∷◌ c) e)
]

after_dot-append : (pre d : Text) → (r : Text) × (after_dot (pre ++ b'.' ∷ d) ≡ some r) × Within d r
unfolding after_dot
after_dot-append [] d = (d, refl, inl refl)
after_dot-append (c ∷ pre) d = elim (Bool-cases (c == b'.')) [
  | inl dot ↦ (pre ++ b'.' ∷ d, rw dot, inr (pre, refl))
  | inr other ↦ let (r, e, w) = after_dot-append pre d in (r, rw other e, w)
]

-- A parent of a name's parent is above the name.
Within-after_dot : (d s r : Text) → after_dot s ≡ some r → Within d r → Within d s
Within-after_dot d s r h (inl e) =
    let (pre, p) = after_dot-split s r h in inr (pre, p ∙ ap (λ x. pre ++ b'.' ∷ x) (sym e))
Within-after_dot d s r h (inr (pre', e)) =
    let (pre, p) = after_dot-split s r h in
    inr (
      pre ++ b'.' ∷ pre',
      p ∙ ap (λ x. pre ++ b'.' ∷ x) e ∙ sym (append_assoc pre (b'.' ∷ pre') (b'.' ∷ d)),
    )

-- With more rounds than bytes the loop ends, and says whether the name is covered.
walk_sound :
    (fuel : ℕ) (name : Text) (domains : Domains)
    → walk fuel name domains ≡ some true
    → Covers domains name
unfolding walk
walk_sound zero name domains h = cc
walk_sound (suc fuel) name domains h = elim (Bool-cases (member name domains)) [
  | inl found ↦ (name, found, inl refl)
  | inr missed ↦ elim (Option-cases (after_dot name)) [
    | inl top ↦ absurd (ground arith)
    | inr (parent, e) ↦
        let (d, found, w) = walk_sound fuel parent domains (ground arith) in
        (d, found, Within-after_dot d name parent e w)
  ]
]

walk_complete :
    (fuel : ℕ) (name d : Text) (domains : Domains)
    → length name < fuel
    → member d domains ≡ true
    → Within d name
    → walk fuel name domains ≡ some true
unfolding walk
walk_complete zero name d domains h found w = absurd (omega arith)
walk_complete (suc fuel) name d domains h found (inl e) = ground arith
walk_complete (suc fuel) name d domains h found (inr (pre, e)) =
    let (r, step, w) = after_dot-append pre d in
    let at : after_dot name ≡ some r = ap after_dot e ∙ step in
    ground
      (arith, walk_complete fuel r d domains (omega (arith, length-after_dot name r at)) found w)

walk-ends :
    (fuel : ℕ) (name : Text) (domains : Domains)
    → length name < fuel
    → walk fuel name domains ≢ none
unfolding walk
walk-ends zero name domains h = absurd (omega arith)
walk-ends (suc fuel) name domains h = elim (Option-cases (after_dot name)) [
  | inl top ↦ ground arith
  | inr (parent, e) ↦
      ground (arith, walk-ends fuel parent domains (omega (arith, length-after_dot name parent e)))
]

-- The loop ends on every name, and finds a domain exactly where one covers the name.
pub listed_iff :
    (name : Text) (domains : Domains) → (listed name domains ≡ true) ↔ Covers domains name
unfolding listed
listed_iff name domains = elim (Option-cases (walk (length name + 1) name domains)) [
  | inl out ↦ absurd (walk-ends (length name + 1) name domains (omega arith) out)
  | inr (b, e) ↦ (
    λ h. walk_sound (length name + 1) name domains (ground arith),
    λ c. ground (arith, walk_complete (length name + 1) name c.0 domains (omega arith) c.1 c.2),
  )
]

-- The name that the loop starts from: in lower case, without the final dot.
abbrev pub plain : Text → Text
plain name = to_lower (trim_dot name)

-- In blacklist mode the names are blocked that a listed domain covers.
pub blocked-blacklist_iff :
    (name : Text) (f : Filter)
    → f.state.mode ≡ blacklist
    → (blocked name f ≡ true) ↔ Covers f.state.domains (plain name)
unfolding blocked
blocked-blacklist_iff name f mode =
    let iff = listed_iff (plain name) f.state.domains in
    elim (Bool-cases (listed (plain name) f.state.domains)) [
      | inl e ↦ rw (mode, e) (λ _. iff.0 e, λ _. refl)
      | inr e ↦ rw (mode, e) (λ h. cc, λ c. sym e ∙ iff.1 c)
    ]

-- In whitelist mode the names are blocked that no listed domain covers.
blocked-whitelist_iff :
    (name : Text) (f : Filter)
    → f.state.mode ≡ whitelist
    → (blocked name f ≡ true) ↔ (¬ Covers f.state.domains (plain name))
unfolding blocked
blocked-whitelist_iff name f mode =
    let iff = listed_iff (plain name) f.state.domains in
    elim (Bool-cases (listed (plain name) f.state.domains)) [
      | inl e ↦ rw (mode, e) (λ h. cc, λ n. absurd (n (iff.0 e)))
      | inr e ↦ rw (mode, e) (λ _ c. false≢true (sym e ∙ iff.1 c), λ _. refl)
    ]
