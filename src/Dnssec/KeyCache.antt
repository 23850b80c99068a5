-- ===== src/Dnssec/KeyCache.antt =====
-- The cache of zone keys of internal/dnssec/dnssec.go: CacheZoneKeys and LookupZoneKeys.
use km_resolv.Prelude.{
  ℕ, ◌+◌, ◌*◌, ◌≡◌, Option, none, some, ◌++◌, Text, codes, arith, ◌==◌, nat_eq, list_eq, ltb,
  has_suffix, if◌then◌else◌, to_lower, Map, lookup, insert, remove, lookup-insert,
}
use km_resolv.Dnssec.Zone.{Keys}

abbrev pub second : ℕ
second = 1000000000

-- a zone's keys and when they expire
abbrev pub KeyCache : Type 0
KeyCache = Map Text (Keys × ℕ)

unfoldable pub fqdn : Text → Text
fqdn name = if has_suffix name (codes ".") then name else name ++ codes "."

abbrev pub zone_key : Text → Text
zone_key zone = to_lower (fqdn zone)

unfoldable pub cache_zone_keys : Text → Keys → ℕ → ℕ → KeyCache → KeyCache
cache_zone_keys zone keys ttl now cache =
    insert (zone_key zone) (keys, now + (if ttl == 0 then 3600 else ttl) * second) cache

-- LookupZoneKeys: the cache that it leaves, and the keys
unfoldable pub lookup_zone_keys : Text → ℕ → KeyCache → KeyCache × Option Keys
lookup_zone_keys zone now cache = elim (lookup (zone_key zone) cache) [
  | none ↦ (cache, none)
  | some (keys, expires) ↦
      if ltb expires now then (remove (zone_key zone) cache, none) else (cache, some keys)
]

-- After CacheZoneKeys the keys of the zone, however it is spelled, are the stored ones for the
-- time to live, an hour if that is 0, and then none; those of other zones are as before.
lookup-cache_zone_keys :
    (zone other : Text) (keys : Keys) (ttl t now : ℕ) (cache : KeyCache)
    → (lookup_zone_keys other now (cache_zone_keys zone keys ttl t cache)).1 ≡ (
        if zone_key zone == zone_key other
        then (if ltb (t + (if ttl == 0 then 3600 else ttl) * second) now then none else some keys)
        else (lookup_zone_keys other now cache).1)
unfolding lookup_zone_keys cache_zone_keys
lookup-cache_zone_keys zone other keys ttl t now cache = ground (
  arith,
  lookup-insert (zone_key zone) (zone_key other)
      (keys, t + (if ttl == 0 then 3600 else ttl) * second) cache,
)
