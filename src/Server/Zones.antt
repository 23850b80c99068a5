-- ===== src/Server/Zones.antt =====
-- The configured zones: lookupZone, isDescendantZone and zoneChain of internal/server/resolver.go.
pub mod Longest
use km_resolv.Prelude.{
  ℕ, zero, suc, ◌+◌, ◌-◌, ◌≤◌, ◌<◌, ◌≡◌, refl, Bool, true, false, ◌&&◌, ◌||◌, Bool-cases, inl, inr,
  Option, none, some, List, [], ◌∷◌, ◌++◌, Text, codes, arith, ◌==◌, nat_eq, list_eq, ltb, length,
  take, All, get_elem?, has_suffix, if◌then◌else◌, trim_dot, to_lower, split_dots,
}
use mathlib.Core.List.{reverse}

pub record ZoneConfig : Type 0 where
  pub domain : Text
  pub servers : List Text

-- strings.ToLower(strings.TrimSuffix(s, "."))
abbrev pub plain : Text → Text
plain s = to_lower (trim_dot s)

-- whether a zone is the name or above it
unfoldable pub is_above : Text → ZoneConfig → Bool
is_above name z = let domain = plain z.domain in name == domain || has_suffix name (b'.' ∷ domain)

abbrev pub domain_len : ZoneConfig → ℕ
domain_len z = length (plain z.domain)

-- bestLen, which is 0 while there is no best zone
abbrev pub best_len : Option ZoneConfig → ℕ
best_len none = 0
best_len (some z) = domain_len z

-- one round of the loop of lookupZone
unfoldable pub better : Text → ZoneConfig → Option ZoneConfig → Option ZoneConfig
better name z best = if is_above name z && ltb (best_len best) (domain_len z) then some z else best

-- the loop of lookupZone
unfoldable pub longest : Text → List ZoneConfig → Option ZoneConfig → Option ZoneConfig
longest name [] best = best
longest name (z ∷ zones) best = longest name zones (better name z best)

unfoldable pub lookup_zone : List ZoneConfig → Text → Option ZoneConfig
lookup_zone zones name = longest (plain name) zones none

unfoldable pub is_descendant_zone : Text → Text → Bool
is_descendant_zone child ancestor =
    let c = plain child in
    let a = plain ancestor in
    if c == [] || c == a then false else if a == [] then true else has_suffix c (b'.' ∷ a)

-- The loop of zoneChain over the labels, the last of them first.
unfoldable pub chain_from : Text → List Text → List Text
chain_from current [] = []
chain_from current (l ∷ labels) =
    let next : Text = if current == [] then l else l ++ b'.' ∷ current in
    next ∷ chain_from next labels

unfoldable pub zone_chain : Text → Text → List Text
zone_chain parent target =
    let p = plain parent in
    let t = plain target in
    let remainder = if p == [] then t else take (length t - suc (length p)) t in
    if is_descendant_zone t p then chain_from p (reverse (split_dots remainder)) else []
