-- ===== src/Server/Resolve/Tests.antt =====
-- The theorems about resolutions without DNSSEC, on a network where each server gives the same
-- answer.
use km_resolv.Prelude.{
  ℕ, ◌≡◌, ◌↔◌, ◌⊎◌, refl, Bool, Option, none, some, [], ◌∷◌, codes, Result, ok, ◌==◌, nat_eq,
  list_eq, if◌then◌else◌,
}
use km_resolv.Dns.{Message}
use km_resolv.Cache as Cache
use km_resolv.Config.{Config, defaults}
use km_resolv.Server.ConnPool as Pool
use km_resolv.Server.Query.{Network, Upstream, query}
use km_resolv.Server.Query.{build_query, exchange_udp}
use km_resolv.Server.Query.Accepted.{packet, OverUdp, OverTcp, query-Checked}
use km_resolv.Server.Forward.{resolve_via_servers}
use km_resolv.Server.Forward.Fallback.{Answers, resolve_via_servers-Answers}
use km_resolv.Server.Resolve.{resolve}
use km_resolv.Server.Resolve.Fixture.{
  network, crypto, answer, nothing, message, start, exchange, forwarding,
}

-- one server for everything, so that the error is its own
abbrev one_server : Config
one_server = record defaults {
  resolver = record defaults.resolver {
    zones = record { domain = codes "a"; servers = codes "h" ∷ [] } ∷ [];
  };
}

queried : (query (network answer) defaults (codes "h:53") (codes "a") 1 start).1 ≡ ok message
unfolding exchange
queried = refl

query-Checked_example :
    OverUdp (network answer) defaults (codes "h:53") (codes "a") 1 start.pool start.world message
    ⊎ ((conn : Pool.PooledConn) × ((Pool.get
            ((network answer).dial start.world)
            (codes "h:53")
            start.pool).1
          ≡ some conn)
        × OverTcp
            (network answer)
            defaults
            (codes "h:53")
            (codes "a")
            1
            start.tcp_pool
            (exchange_udp
              (network answer)
              (codes "h:53")
              conn
              (packet (network answer) conn (build_query defaults 0 (codes "a") 1))
              start.world).0
            message)
query-Checked_example =
    query-Checked (network answer) defaults (codes "h:53") (codes "a") 1 start message queried

-- the forwarder at h, behind one that cannot be reached
abbrev half : Network ℕ
half = record (network answer) {
  dial = λ w server.
      if server == codes "x" then none else some (record { id = 1; next_id = 7; last_used = 0 });
}

abbrev asked_both : Upstream ℕ × Result Message
asked_both = resolve_via_servers half defaults (codes "a") 1 (codes "x" ∷ codes "h" ∷ []) start

answered_second : asked_both.1 ≡ ok message
unfolding forwarding
answered_second = refl

resolve_via_servers-Answers_example :
    (resolve_via_servers half defaults (codes "a") 1 (codes "x" ∷ codes "h" ∷ []) start
      ≡ (asked_both.0, ok message))
    ↔ Answers half defaults (codes "a") 1 (codes "x" ∷ codes "h" ∷ []) start asked_both.0 message
resolve_via_servers-Answers_example =
    resolve_via_servers-Answers half defaults (codes "a") 1 (codes "x" ∷ codes "h" ∷ []) start
      asked_both.0 message

abbrev first : Upstream ℕ × Option (Result Message) × Bool
first = resolve (network answer) crypto [] defaults (codes "a") 1 none start

-- an answer that the name does not exist
abbrev failed : Upstream ℕ × Option (Result Message) × Bool
failed = resolve (network nothing) crypto [] one_server (codes "a") 1 none start
