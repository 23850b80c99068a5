-- ===== src/Server/Resolve/Known.antt =====
-- What a resolution leaves in the cache for the next one.
use km_resolv.Prelude.{
  ℕ, ◌*◌, ◌≡◌, refl, ap, true, false, Option, some, Text, Result, ok, ◌==◌, nat_eq, if◌then◌else◌,
}
use km_resolv.Dns.{Message}
use km_resolv.Cache.{Cache, second, is_negative, get}
use km_resolv.Cache.Hash.{key_eq}
use km_resolv.Config.{Config}
use km_resolv.Dnssec.Verify.{Crypto}
use km_resolv.Dnssec.Zone.{Keys}
use km_resolv.Server.Query.{Network, Upstream}
use km_resolv.Server.Iterate.{recall}
use km_resolv.Server.Resolve.{resolve}

-- the life of a negative entry, for a time to live in seconds
abbrev pub negative_life : ℕ → ℕ
negative_life ttl = (if ttl == 0 then 300 else ttl) * second

module _ {World : Type 0} (net : Network World) (crypto : Crypto) (anchors : Keys) (cfg : Config)
    (name : Text) (qtype : ℕ) where
  recall-found :
      (s : Upstream World) (m : Message)
      → is_negative (name, qtype) (net.clock s.world) s.cache ≡ false
      → (get (name, qtype) cfg.resolver.cache.prefetch (net.clock s.world) s.cache).1 ≡ some m
      → recall net cfg name qtype s ≡ (
        record s {
          cache = (get (name, qtype) cfg.resolver.cache.prefetch (net.clock s.world) s.cache).0;
        },
        some (ok m),
      )
  unfolding recall
  recall-found s m no_error found = rw (recall, no_error, found) refl

  pub resolve-found :
      (s : Upstream World) (joined : Option (Result Message)) (m : Message)
      → is_negative (name, qtype) (net.clock s.world) s.cache ≡ false
      → (get (name, qtype) cfg.resolver.cache.prefetch (net.clock s.world) s.cache).1 ≡ some m
      → resolve net crypto anchors cfg name qtype joined s ≡ (
        record s {
          cache = (get (name, qtype) cfg.resolver.cache.prefetch (net.clock s.world) s.cache).0;
        },
        some (ok m),
        true,
      )
  unfolding resolve
  resolve-found s joined m no_error found =
      let known = recall-found s m no_error found in
      rw (resolve, ap (λ x. x.1) known, ap (λ x. x.0) known) refl
