-- ===== src/Server/Zones/Longest.antt =====
-- lookupZone finds the zone with the longest domain.
use km_resolv.Prelude.{
  ℕ, suc, ◌≤◌, ◌≡◌, refl, ◌∙◌, true, ◌&&◌, Bool-cases, ◌⊎◌, inl, inr, Option, none, some, List, [],
  ◌∷◌, Text, arith, ltb, All, get_elem?,
}
use km_resolv.Server.Zones.{
  ZoneConfig, plain, is_above, domain_len, best_len, better, longest, lookup_zone,
}

better-cases :
    (name : Text) (z : ZoneConfig) (best : Option ZoneConfig)
    → ((better name z best ≡ some z) × (is_above name z ≡ true)) ⊎ (better name z best ≡ best)
unfolding better
better-cases name z best =
    elim (Bool-cases (is_above name z && ltb (best_len best) (domain_len z))) [
      | inl e ↦ inl (rw e refl, ground (arith, e))
      | inr e ↦ inr (rw e refl)
    ]

better-le :
    (name : Text) (z : ZoneConfig) (best : Option ZoneConfig)
    → (best_len best ≤ best_len (better name z best))
      × (is_above name z ≡ true → domain_len z ≤ best_len (better name z best))
unfolding better
better-le name z best = elim (Bool-cases (is_above name z && ltb (best_len best) (domain_len z))) [
  | inl e ↦ rw e (ground (arith, e), λ _. omega arith)
  | inr e ↦ rw e (omega arith, λ on. ground (arith, e, on))
]

-- No zone that is above the name is longer than the result.
longest-le :
    (name : Text) (zones : List ZoneConfig) (best : Option ZoneConfig)
    → All (λ y. is_above name y ≡ true → domain_len y ≤ best_len (longest name zones best)) zones
      × (best_len best ≤ best_len (longest name zones best))
unfolding longest
longest-le name [] best = (tt, omega arith)
longest-le name (z ∷ zones) best =
    let (rest, up) = longest-le name zones (better name z best) in
    let (kept, on) = better-le name z best in
    ((λ above. omega (arith, on above, up), rest), omega (arith, kept, up))

-- The result was there before, or is a zone of the list above the name.
abbrev Origin : Text → List ZoneConfig → Option ZoneConfig → Option ZoneConfig → Type 0
Origin name zones best o =
    (o ≡ best)
    ⊎ ((i : ℕ) × (z : ZoneConfig) × (get_elem? zones i ≡ some z)
        × (o ≡ some z)
        × (is_above name z ≡ true))

longest-Origin :
    (name : Text) (zones : List ZoneConfig) (best : Option ZoneConfig)
    → Origin name zones best (longest name zones best)
unfolding longest
longest-Origin name [] best = inl refl
longest-Origin name (z ∷ zones) best = elim (longest-Origin name zones (better name z best)) [
  | inr (i, y, at, is, on) ↦ inr (suc i, y, at, is, on)
  | inl same ↦ elim (better-cases name z best) [
    | inl (is, on) ↦ inr (0, z, refl, same ∙ is, on)
    | inr kept ↦ inl (same ∙ kept)
  ]
]

-- What lookupZone returns is a configured zone that is the name or above it, if it returns one,
-- and no configured zone that is so has a longer domain; if it returns none, no zone is so but
-- those of an empty domain.
pub lookup_zone-longest :
    (zones : List ZoneConfig) (name : Text)
    → All
        (λ y. is_above (plain name) y ≡ true → domain_len y ≤ best_len (lookup_zone zones name))
        zones
      × ((lookup_zone zones name ≡ none)
          ⊎ ((i : ℕ) × (z : ZoneConfig) × (get_elem? zones i ≡ some z)
              × (lookup_zone zones name ≡ some z)
              × (is_above (plain name) z ≡ true)))
unfolding lookup_zone
lookup_zone-longest zones name =
    ((longest-le (plain name) zones none).0, longest-Origin (plain name) zones none)
