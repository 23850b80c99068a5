-- ===== src/Server/Resolve.antt =====
-- internal/server/resolver.go: resolve, in front of the kinds of resolution. The slots of
-- `max_concurrent` only make a call wait. Calls of the same question at the same time share one
-- resolution: `joined` is what the call that is already running comes to, where there is one.
pub mod Known
pub mod Safe
pub mod Bounded
mod Fixture
mod Tests
mod SecureTests
use km_resolv.Prelude.{
  ℕ, Bool, true, false, not, ◌&&◌, Option, none, some, List, [], ◌∷◌, ◌++◌, Text, codes, Result, ok,
  err, if◌then◌else◌,
}
use km_resolv.Dns.{Message, set_ad}
use km_resolv.Cache.{Cache, put, set_negative}
use km_resolv.Config.{Config, bits64}
use km_resolv.Dnssec.Verify.{Crypto}
use km_resolv.Dnssec.Zone.{Keys}
use km_resolv.Server.Zones.{lookup_zone}
use km_resolv.Server.Query.{Network, Upstream}
use km_resolv.Server.Verdict.{is_nxdomain}
use km_resolv.Server.Forward.{resolve_via_servers, resolve_via_forwarder}
use km_resolv.Server.Iterate.{levels, root_servers, recall, resolve_from_root}
use km_resolv.Server.Secure.{Status, secure, insecure, bogus, Sec, fine, broken, panic}
use km_resolv.Server.Secure.Resolve.{Answer, root_ctx, resolve_at_dnssec}

abbrev pub with_ad : Message → Message
with_ad m = record m { header = record m.header { flags = set_ad m.header.flags true } }

-- What resolve makes of an answer of resolveAtDNSSEC: `none` is the end of the program.
unfoldable pub settle_status : Text → Answer → Option (Result Message)
settle_status name (fine (bogus, ok m)) = some (err (codes "DNSSEC validation failed for " ++ name))
settle_status name (fine (secure, ok m)) = some (ok (with_ad m))
settle_status name (fine (insecure, ok m)) = some (ok m)
settle_status name (fine (status, err e)) = some (err e)
settle_status name (broken e) = some (err e)
settle_status name panic = none

module _ {World : Type 0} (net : Network World) (crypto : Crypto) (anchors : Keys)
    (cfg : Config) where
  abbrev pub ResolveOutcome : Type 0
  ResolveOutcome = Upstream World × Option (Result Message)

  -- the branch of the forwarder, with the iterative resolution behind it
  unfoldable pub resolve_forwarded : Text → ℕ → Upstream World → Upstream World × Result Message
  resolve_forwarded name qtype s =
      let (s', answer) = resolve_via_forwarder net cfg name qtype s in
      elim answer [
        | ok m ↦ (s', ok m)
        | err e ↦
            if cfg.resolver.forwarder.fallback_to_iterative
            then resolve_from_root net cfg name qtype s'
            else (s', err e)
      ]

  unfoldable pub resolve_secure : Text → ℕ → Upstream World → ResolveOutcome
  resolve_secure name qtype s =
      let (s1, ctx) = root_ctx net crypto anchors cfg s in
      let (s2, answer) =
        resolve_at_dnssec net crypto anchors cfg (levels cfg.resolver.max_depth) name qtype
          root_servers ctx s1 in
      (s2, settle_status name answer)

  abbrev pub unchecked : Upstream World × Result Message → ResolveOutcome
  unchecked (s, answer) = (s, some answer)

  -- the choice between the kinds of resolution
  unfoldable pub dispatch : Text → ℕ → Upstream World → ResolveOutcome
  dispatch name qtype s = elim (lookup_zone cfg.resolver.zones name) [
    | some zone ↦ unchecked (resolve_via_servers net cfg name qtype zone.servers s)
    | none ↦
        if cfg.resolver.forwarder.enabled
        then unchecked (resolve_forwarded name qtype s)
        else if cfg.resolver.dnssec
        then resolve_secure name qtype s
        else unchecked (resolve_from_root net cfg name qtype s)
  ]

  -- SetNegative after an error that says NXDOMAIN, Set after an answer
  unfoldable pub remember : Text → ℕ → Result Message → Upstream World → Upstream World
  remember name qtype (ok m) s = record s {
    cache = put (name, qtype) m (net.clock s.world) s.cache;
  }
  remember name qtype (err e) s =
      if is_nxdomain e
      then record s {
        cache =
            set_negative (name, qtype) (bits64 cfg.resolver.cache.negative_ttl) (net.clock s.world)
              s.cache;
      }
      else s

  -- the resolution of a question that the cache does not know and no call is resolving
  unfoldable pub resolve_new : Text → ℕ → Upstream World → ResolveOutcome
  resolve_new name qtype s =
      let (s', answer) = dispatch name qtype s in
      elim answer [ none ↦ (s', none) | some r ↦ (remember name qtype r s', some r) ]

  -- resolve: the result, and whether it is from the cache
  unfoldable pub resolve :
      Text
      → ℕ
      → Option (Result Message)
      → Upstream World
      → Upstream World × Option (Result Message) × Bool
  resolve name qtype joined s =
      let (s1, known) = recall net cfg name qtype s in
      let (s2, answer) = resolve_new name qtype s1 in
      elim known [
        | some (err e) ↦ (s1, some (err e), false)
        | some (ok m) ↦ (s1, some (ok m), true)
        | none ↦ elim joined [ some r ↦ (s1, some r, false) | none ↦ (s2, answer, false) ]
      ]
