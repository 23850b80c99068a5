-- ===== src/Server/Resolve/Bounded.antt =====
-- The pools and the cache of a server over any sequence of resolutions.
use km_resolv.Prelude.{
  ℕ, ◌≤◌, refl, Bool, true, false, Bool-cases, Option-cases, Result-cases, inl, inr, Option, List,
  [], ◌∷◌, Text, Result, ok, err, arith, if◌then◌else◌, length, All-replicate, All,
}
use km_resolv.Dns.{Message}
use km_resolv.Cache.{Cache, new_cache, set_max_size, set_min_ttl, set_prefetch_fn}
use km_resolv.Cache.Bounds.{IsValid, new_cache-IsValid}
use km_resolv.Cache.Keeps.{put-Keeps, set_negative-Keeps}
use km_resolv.Config.{Config, natural, bits64}
use km_resolv.Dnssec.Verify.{Crypto}
use km_resolv.Dnssec.Zone.{Keys}
use km_resolv.Server.ConnPool.{PoolShard, ConnPool, new_conn_pool, conns, pool_num_shards}
use km_resolv.Server.ConnPool.Bound.{length-conns-le}
use km_resolv.Server.Zones.{lookup_zone}
use km_resolv.Server.Query.{Network, Upstream}
use km_resolv.Server.Verdict.{is_nxdomain}
use km_resolv.Server.Query.Safe.{PoolOk, Holds}
use km_resolv.Server.Forward.{resolve_via_servers, resolve_via_forwarder}
use km_resolv.Server.Iterate.{levels, root_servers, recall, resolve_from_root}
use km_resolv.Server.Resolve.Safe.{
  Keeps, recall-Keeps, resolve_via_servers-Keeps, resolve_at-Keeps, at_world,
}
use km_resolv.Server.Secure.Resolve.{root_ctx}
use km_resolv.Server.Secure.WalkSafe.{root_ctx-Fine}
use km_resolv.Server.Secure.Safe.{resolve_at_dnssec-Fine}
use km_resolv.Server.Resolve.{
  resolve_forwarded, resolve_secure, dispatch, remember, resolve_new, resolve,
}

-- A question, with the call it may join, at a state of the world.
pub record Asked (World : Type 0) : Type 0 where
  pub name : Text
  pub qtype : ℕ
  pub joined : Option (Result Message)
  pub world : World

module _ {World : Type 0} (net : Network World) (crypto : Crypto) (anchors : Keys)
    (cfg : Config) where
  unfoldable pub resolve_all : List (Asked World) → Upstream World → Upstream World
  resolve_all [] s = s
  resolve_all (q ∷ questions) s =
      resolve_all questions
        (resolve net crypto anchors cfg q.name q.qtype q.joined (record s { world = q.world })).0

  module _ (udp tcp : ℕ) where
    abbrev pub Fine {ℓ} : {A : Type ℓ} → (Upstream World → Upstream World × A) → Type 0
    Fine f = Keeps net cfg udp tcp f

    pub if-Holds {ℓ} :
        {A : Type ℓ} (b : Bool) (x y : Upstream World × A)
        → Holds udp tcp x.0
        → Holds udp tcp y.0
        → Holds udp tcp (if b then x else y).0
    if-Holds true x y h g = h
    if-Holds false x y h g = g

    pub resolve_from_root-Fine :
        (name : Text) (qtype : ℕ) → Fine (resolve_from_root net cfg name qtype)
    unfolding resolve_from_root
    resolve_from_root-Fine name qtype =
        resolve_at-Keeps net cfg udp tcp (levels cfg.resolver.max_depth) name qtype root_servers

    pub resolve_forwarded-Fine :
        (name : Text) (qtype : ℕ) → Fine (resolve_forwarded net crypto anchors cfg name qtype)
    unfolding resolve_forwarded resolve_via_forwarder
    resolve_forwarded-Fine name qtype s v =
        let servers = cfg.resolver.forwarder.servers in
        let h = resolve_via_servers-Keeps net cfg udp tcp name qtype servers s v in
        elim (Result-cases (resolve_via_servers net cfg name qtype servers s).1) [
          | inr (m, e) ↦ rw (resolve_forwarded, resolve_via_forwarder, e) h
          | inl (text, e) ↦
              rw (resolve_forwarded, resolve_via_forwarder, e)
                (if-Holds cfg.resolver.forwarder.fallback_to_iterative _ _
                  (resolve_from_root-Fine name qtype _ h) h)
        ]

    resolve_secure-Fine :
        (name : Text) (qtype : ℕ) → Fine (resolve_secure net crypto anchors cfg name qtype)
    unfolding resolve_secure
    resolve_secure-Fine name qtype s v =
        resolve_at_dnssec-Fine net crypto anchors cfg udp tcp (levels cfg.resolver.max_depth) name
          qtype root_servers (root_ctx net crypto anchors cfg s).1
          (root_ctx net crypto anchors cfg s).0 (root_ctx-Fine net crypto anchors cfg udp tcp s v)

    pub dispatch-Fine :
        (name : Text) (qtype : ℕ) → Fine (dispatch net crypto anchors cfg name qtype)
    unfolding dispatch
    dispatch-Fine name qtype s v = elim (Option-cases (lookup_zone cfg.resolver.zones name)) [
      | inr (zone, e) ↦
          rw (dispatch, e) (resolve_via_servers-Keeps net cfg udp tcp name qtype zone.servers s v)
      | inl e ↦
          rw (dispatch, e)
            (if-Holds cfg.resolver.forwarder.enabled _ _ (resolve_forwarded-Fine name qtype s v) (
              if-Holds cfg.resolver.dnssec _ _ (resolve_secure-Fine name qtype s v)
                (resolve_from_root-Fine name qtype s v)))
    ]

    pub at_cache :
        (s : Upstream World) (c : Cache)
        → IsValid c
        → Holds udp tcp s
        → Holds udp tcp (record s { cache = c })
    at_cache s c valid v = record {
      pool = v.pool;
      tcp_pool = v.tcp_pool;
      dot_pool = v.dot_pool;
      cache = valid;
    }

    remember-Holds :
        (name : Text) (qtype : ℕ) (r : Result Message) (s : Upstream World)
        → Holds udp tcp s
        → Holds udp tcp (remember net crypto anchors cfg name qtype r s)
    unfolding remember
    remember-Holds name qtype (ok m) s v =
        at_cache s _ (put-Keeps (name, qtype) m _ s.cache v.cache).valid v
    remember-Holds name qtype (err e) s v = elim (Bool-cases (is_nxdomain e)) [
      | inl f ↦ rw f (at_cache s _ (set_negative-Keeps (name, qtype) _ _ s.cache v.cache).valid v)
      | inr f ↦ rw f v
    ]

    resolve_new-Fine :
        (name : Text) (qtype : ℕ) → Fine (resolve_new net crypto anchors cfg name qtype)
    unfolding resolve_new
    resolve_new-Fine name qtype s v =
        let h = dispatch-Fine name qtype s v in
        elim (Option-cases (dispatch net crypto anchors cfg name qtype s).1) [
          | inl e ↦ rw (resolve_new, e) h
          | inr (r, e) ↦ rw (resolve_new, e) (remember-Holds name qtype r _ h)
        ]

    pub resolve-Fine :
        (name : Text) (qtype : ℕ) (joined : Option (Result Message)) (s : Upstream World)
        → Holds udp tcp s
        → Holds udp tcp (resolve net crypto anchors cfg name qtype joined s).0
    unfolding resolve
    resolve-Fine name qtype joined s v =
        let h = recall-Keeps net cfg udp tcp name qtype s v in
        let g = resolve_new-Fine name qtype _ h in
        elim (Option-cases (recall net cfg name qtype s).1) [
          | inr (err text, e) ↦ rw (resolve, e) h
          | inr (ok m, e) ↦ rw (resolve, e) h
          | inl e ↦ elim (Option-cases joined) [
            | inl f ↦ rw (resolve, e, f) g
            | inr (r, f) ↦ rw (resolve, e, f) h
          ]
        ]

    resolve_all-Holds :
        (questions : List (Asked World)) (s : Upstream World)
        → Holds udp tcp s
        → Holds udp tcp (resolve_all questions s)
    unfolding resolve_all
    resolve_all-Holds [] s v = v
    resolve_all-Holds (q ∷ questions) s v =
        resolve_all-Holds questions _
          (resolve-Fine q.name q.qtype q.joined _ (at_world net cfg udp tcp s q.world v))

abbrev pub pool_size_per_server : ℕ
pool_size_per_server = 16

abbrev pub tcp_pool_size_per_server : ℕ
tcp_pool_size_per_server = 4

-- the pools and the cache that New makes
abbrev pub new_upstream : {World : Type 0} → Config → World → Upstream World
new_upstream cfg w = record {
  pool = new_conn_pool pool_size_per_server;
  tcp_pool = new_conn_pool tcp_pool_size_per_server;
  dot_pool = new_conn_pool tcp_pool_size_per_server;
  cache = set_prefetch_fn (
      set_max_size (natural cfg.resolver.cache.max_size)
        (set_min_ttl (bits64 cfg.resolver.cache.min_ttl) new_cache));
  zone_keys = [];
  world = w;
}

new_conn_pool-PoolOk : (n : ℕ) → PoolOk n (new_conn_pool n)
unfolding new_conn_pool
new_conn_pool-PoolOk n =
    let P : PoolShard → Type 0 = All (λ e. length e.1 ≤ n) in
    record { bounded = All-replicate P pool_num_shards [] tt; limit = refl }

cache-IsValid : (n m : ℕ) → IsValid (set_prefetch_fn (set_max_size n (set_min_ttl m new_cache)))
unfolding set_prefetch_fn set_max_size set_min_ttl
cache-IsValid n m = let v = new_cache-IsValid n in record { shards = v.shards; bounded = v.bounded }

pub new_upstream-Holds :
    {World : Type 0} (cfg : Config) (w : World)
    → Holds pool_size_per_server tcp_pool_size_per_server (new_upstream cfg w)
new_upstream-Holds cfg w = record {
  pool = new_conn_pool-PoolOk pool_size_per_server;
  tcp_pool = new_conn_pool-PoolOk tcp_pool_size_per_server;
  dot_pool = new_conn_pool-PoolOk tcp_pool_size_per_server;
  cache = cache-IsValid (natural cfg.resolver.cache.max_size) (bits64 cfg.resolver.cache.min_ttl);
}

pub length-conns-PoolOk :
    (n : ℕ) (server : Text) (p : ConnPool) → PoolOk n p → length (conns server p) ≤ n
length-conns-PoolOk n server p v = omega (arith, length-conns-le server p v.bounded, v.limit)

-- Whatever is asked of a new server, in whatever order, and whatever the network does: to no server
-- are kept more than 16 idle connections over UDP, 4 over TCP and 4 over TLS, and the cache is well
-- formed, each key once and no shard above its limit.
resolve_all-bounded :
    {World : Type 0} (net : Network World) (crypto : Crypto) (anchors : Keys) (cfg : Config)
    (questions : List (Asked World)) (w : World) (server : Text)
    → (length
          (conns server (resolve_all net crypto anchors cfg questions (new_upstream cfg w)).pool)
        ≤ 16)
      × (length (
            conns server
              (resolve_all net crypto anchors cfg questions (new_upstream cfg w)).tcp_pool)
          ≤ 4)
      × (length (
            conns server
              (resolve_all net crypto anchors cfg questions (new_upstream cfg w)).dot_pool)
          ≤ 4)
      × IsValid (resolve_all net crypto anchors cfg questions (new_upstream cfg w)).cache
resolve_all-bounded net crypto anchors cfg questions w server =
    let v =
      resolve_all-Holds net crypto anchors cfg 16 4 questions (new_upstream cfg w)
        (new_upstream-Holds cfg w) in
    (
      length-conns-PoolOk 16 server _ v.pool,
      length-conns-PoolOk 4 server _ v.tcp_pool,
      length-conns-PoolOk 4 server _ v.dot_pool,
      v.cache,
    )
