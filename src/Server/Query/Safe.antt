-- ===== src/Server/Query/Safe.antt =====
-- What an exchange with a server leaves of the pools and of the cache.
use km_resolv.Prelude.{ℕ, ◌≡◌, ◌∙◌, Bool, false, Option-cases, inl, inr, Text, Result, arith}
use km_resolv.Dns.{Message}
use km_resolv.Cache.Bounds.{IsValid}
use km_resolv.Config.{Config}
use km_resolv.Server.ConnPool.{PooledConn, ConnPool, get, put, set_conns}
use km_resolv.Server.ConnPool.Bound.{IsBounded, get-IsBounded, put-IsBounded, get-max}
use km_resolv.Server.Query.{
  Network, Upstream, concluded, converse, query_tcp, query_dot, query_udp, query, query_forwarder,
  query_doh, build_query, recursive, exchange_tcp, exchange_udp,
}
use km_resolv.Server.Verdict.{
  Wording, Verdict, accepted, truncated, refused, query_wording, forwarder_wording, tcp_wording,
}

-- A pool whose limit is `n`, and which keeps it for each server.
pub record PoolOk (n : ℕ) (p : ConnPool) : Type 0 where
  pub bounded : IsBounded p
  pub limit : p.max_per_server ≡ n

-- The pools keep their limits, and the cache is well formed: each key once, and no shard above its
-- limit.
pub record Holds {World : Type 0} (udp tcp : ℕ) (s : Upstream World) : Type 0 where
  pub pool : PoolOk udp s.pool
  pub tcp_pool : PoolOk tcp s.tcp_pool
  pub dot_pool : PoolOk tcp s.dot_pool
  pub cache : IsValid s.cache

put-max :
    (server : Text) (pc : PooledConn) (broken : Bool) (now : ℕ) (p : ConnPool)
    → (put server pc broken now p).0.max_per_server ≡ p.max_per_server
unfolding put set_conns
put-max server pc broken now p = ground arith

module _ {World : Type 0} (net : Network World) where
  converse-PoolOk :
      (w : Wording) (fallback : Bool) (exchange : PooledConn → Text → World → World × Result Text)
      (request : Message) (server name : Text) (n : ℕ) (pool : ConnPool) (world : World)
      → PoolOk n pool
      → PoolOk n (converse net w fallback exchange request server name pool world).0
  unfolding converse
  converse-PoolOk w fallback exchange request server name n pool world v =
      let dial = net.dial world in
      let taken : PoolOk n (get dial server pool).0 = record {
        bounded = get-IsBounded dial server pool v.bounded;
        limit = get-max dial server pool ∙ v.limit;
      } in
      elim (Option-cases (get dial server pool).1) [
        | inl e ↦ rw (converse, e) taken
        | inr (conn, e) ↦
            rw (converse, e)
              (record {
                bounded = put-IsBounded server _ _ _ (get dial server pool).0 taken.bounded;
                limit = put-max server _ _ _ (get dial server pool).0 ∙ taken.limit;
              })
      ]

  concluded-Holds :
      (udp tcp : ℕ) (retry : Upstream World × Result Message) (s : Upstream World) (v : Verdict)
      → Holds udp tcp retry.0
      → Holds udp tcp s
      → Holds udp tcp (concluded retry s v).0
  concluded-Holds udp tcp retry s (accepted m) r h = h
  concluded-Holds udp tcp retry s truncated r h = r
  concluded-Holds udp tcp retry s (refused b e) r h = h

  module _ (cfg : Config) (udp tcp : ℕ) where
    -- a step that keeps the invariant, whatever it returns
    abbrev pub Safe {ℓ} : {A : Type ℓ} → (Upstream World → Upstream World × A) → Type 0
    Safe f = (s : Upstream World) → Holds udp tcp s → Holds udp tcp (f s).0

    query_tcp-Safe : (server name : Text) (qtype : ℕ) → Safe (query_tcp net cfg server name qtype)
    unfolding query_tcp
    query_tcp-Safe server name qtype s v = record {
      pool = v.pool;
      tcp_pool =
          converse-PoolOk tcp_wording false (exchange_tcp net server) (build_query cfg 0 name qtype)
            server name tcp s.tcp_pool s.world v.tcp_pool;
      dot_pool = v.dot_pool;
      cache = v.cache;
    }

    pub query_dot-Safe :
        (server name : Text) (qtype : ℕ) → Safe (query_dot net cfg server name qtype)
    unfolding query_dot
    query_dot-Safe server name qtype s v = record {
      pool = v.pool;
      tcp_pool = v.tcp_pool;
      dot_pool =
          converse-PoolOk tcp_wording false (exchange_tcp net server) (build_query cfg 0 name qtype)
            server name tcp s.dot_pool s.world v.dot_pool;
      cache = v.cache;
    }

    query_udp-Safe :
        (w : Wording) (request : Message) (server name : Text) (qtype : ℕ)
        → Safe (query_udp net cfg w request server name qtype)
    unfolding query_udp
    query_udp-Safe w request server name qtype s v =
        let exchanged =
          converse net w cfg.resolver.tcp_fallback (exchange_udp net server) request server name
            s.pool s.world in
        let s' : Upstream World = record s { pool = exchanged.0; world = exchanged.1 } in
        let h : Holds udp tcp s' = record {
          pool =
              converse-PoolOk w cfg.resolver.tcp_fallback (exchange_udp net server) request server
                name udp s.pool s.world v.pool;
          tcp_pool = v.tcp_pool;
          dot_pool = v.dot_pool;
          cache = v.cache;
        } in
        concluded-Holds udp tcp (query_tcp net cfg server name qtype s') s' exchanged.2
          (query_tcp-Safe server name qtype s' h) h

    pub query-Safe : (server name : Text) (qtype : ℕ) → Safe (query net cfg server name qtype)
    unfolding query
    query-Safe server name qtype =
        query_udp-Safe query_wording (build_query cfg 0 name qtype) server name qtype

    pub query_forwarder-Safe :
        (server name : Text) (qtype : ℕ) → Safe (query_forwarder net cfg server name qtype)
    unfolding query_forwarder
    query_forwarder-Safe server name qtype =
        query_udp-Safe forwarder_wording (recursive (build_query cfg 0 name qtype)) server name
          qtype

    pub query_doh-Safe : (url name : Text) (qtype : ℕ) → Safe (query_doh net cfg url name qtype)
    unfolding query_doh
    query_doh-Safe url name qtype s v = elim (Option-cases (net.bad_url url)) [
      | inl e ↦
          rw (query_doh, e)
            (record {
              pool = v.pool;
              tcp_pool = v.tcp_pool;
              dot_pool = v.dot_pool;
              cache = v.cache;
            })
      | inr (bad, e) ↦ rw (query_doh, e) v
    ]
