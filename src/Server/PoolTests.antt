-- ===== src/Server/PoolTests.antt =====
-- The theorem about the configured zones, at concrete ones.
use km_resolv.Prelude.{
  ℕ, ◌≤◌, ◌≡◌, true, ◌⊎◌, none, some, List, [], ◌∷◌, Text, codes, All, get_elem?,
}
use km_resolv.Server.Zones.{ZoneConfig, plain, is_above, domain_len, best_len, lookup_zone}
use km_resolv.Server.Zones.Longest.{lookup_zone-longest}

abbrev server : Text
server = codes "8.8.8.8:53"

abbrev zones : List ZoneConfig
zones =
    record { domain = codes "lan"; servers = server ∷ [] }
    ∷ record { domain = codes "Pc.Lan."; servers = server ∷ [] }
    ∷ []

lookup_zone-longest_example :
    All
      (λ y.
        is_above (plain (codes "a.pc.lan.")) y ≡ true
        → domain_len y ≤ best_len (lookup_zone zones (codes "a.pc.lan.")))
      zones
    × ((lookup_zone zones (codes "a.pc.lan.") ≡ none)
        ⊎ ((i : ℕ) × (z : ZoneConfig) × (get_elem? zones i ≡ some z)
            × (lookup_zone zones (codes "a.pc.lan.") ≡ some z)
            × (is_above (plain (codes "a.pc.lan.")) z ≡ true)))
lookup_zone-longest_example = lookup_zone-longest zones (codes "a.pc.lan.")
