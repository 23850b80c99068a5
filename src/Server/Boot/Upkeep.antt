-- ===== src/Server/Boot/Upkeep.antt =====
-- The pools and the cache keep their limits over the ticks of the loops of
-- internal/server/server.go and over the prefetches.
use km_resolv.Prelude.{ℕ, Bool, Option-cases, inl, inr, Option, Text}
use km_resolv.Dns.{Message}
use km_resolv.Cache.{Cache, finish_prefetch}
use km_resolv.Cache.Bounds.{IsValid}
use km_resolv.Cache.Runs as Runs
use km_resolv.Cache.Sweep.{evict_all, flush}
use km_resolv.Records.Build.{RecordConfig, Built}
use km_resolv.Config.{Config}
use km_resolv.Dnssec.Verify.{Crypto}
use km_resolv.Dnssec.Zone.{Keys}
use km_resolv.Server.QueryLog.{QueryEntry}
use km_resolv.Server.ConnPool.{ConnPool, reap_idle}
use km_resolv.Server.ConnPool.Bound.{reap_all-All}
use km_resolv.Server.Zones.{lookup_zone}
use km_resolv.Server.Query.{Network, Upstream}
use km_resolv.Server.Query.Safe.{PoolOk, Holds}
use km_resolv.Server.Resolve.Safe.{resolve_via_servers-Keeps}
use km_resolv.Server.Resolve.Bounded.{
  if-Holds, at_cache, resolve_from_root-Fine, resolve_forwarded-Fine,
}
use km_resolv.Server.Boot.{pool_idle_timeout, reap_pools, prefetch_answer, end_prefetch}

reap_idle-PoolOk :
    (n max_idle now : ℕ) (p : ConnPool) → PoolOk n p → PoolOk n (reap_idle max_idle now p).0
unfolding reap_idle
reap_idle-PoolOk n max_idle now p v = record {
  bounded = reap_all-All p.max_per_server max_idle now p.shards v.bounded;
  limit = v.limit;
}

pub reap_pools-Holds :
    {World : Type 0} (now : ℕ) (u : Upstream World) → Holds 16 4 u → Holds 16 4 (reap_pools now u)
unfolding reap_pools
reap_pools-Holds now u v = record {
  pool = reap_idle-PoolOk 16 pool_idle_timeout now u.pool v.pool;
  tcp_pool = reap_idle-PoolOk 4 pool_idle_timeout now u.tcp_pool v.tcp_pool;
  dot_pool = reap_idle-PoolOk 4 pool_idle_timeout now u.dot_pool v.dot_pool;
  cache = v.cache;
}

pub evict_all-IsValid : (now : ℕ) (c : Cache) → IsValid c → IsValid (evict_all now c)
evict_all-IsValid now c v = unfold Runs.step in (Runs.step-Keeps c (Runs.tick now) v).valid

pub flush-IsValid : (mode : Text) (now : ℕ) (c : Cache) → IsValid c → IsValid (flush mode now c)
flush-IsValid mode now c v =
    unfold Runs.step in (Runs.step-Keeps c (Runs.flush_call mode now) v).valid

finish_prefetch-IsValid :
    (k : Text × ℕ) (id : ℕ) (r : Option Message) (now : ℕ) (c : Cache)
    → IsValid c
    → IsValid (finish_prefetch k id r now c)
finish_prefetch-IsValid k id r now c v =
    unfold Runs.step in (Runs.step-Keeps c (Runs.prefetched k id r now) v).valid

module _ {World Net Ip Files : Type 0} (net : Network World) (crypto : Crypto) (anchors : Keys)
    (entry : QueryEntry → Option Text) (parse_cidr : Text → Option Net)
    (parse_ip : Text → Option Ip) (holds : Net → Ip → Bool) (marshal : Config → Option Text)
    (write_file : Text → Text → Files → Option Files) (build : RecordConfig → Built) where
  pub prefetch_answer-Holds :
      (cfg : Config) (name : Text) (qtype : ℕ) (s : Upstream World)
      → Holds 16 4 s
      → Holds 16 4
          (prefetch_answer net crypto anchors entry parse_cidr parse_ip holds marshal write_file
            build cfg name qtype s).0
  unfolding prefetch_answer
  prefetch_answer-Holds cfg name qtype s v =
      elim (Option-cases (lookup_zone cfg.resolver.zones name)) [
        | inr (zone, e) ↦
            rw (prefetch_answer, e)
              (resolve_via_servers-Keeps net cfg 16 4 name qtype zone.servers s v)
        | inl e ↦
            rw (prefetch_answer, e)
              (if-Holds net crypto anchors cfg 16 4 cfg.resolver.forwarder.enabled _ _
                (resolve_forwarded-Fine net crypto anchors cfg 16 4 name qtype s v)
                (resolve_from_root-Fine net crypto anchors cfg 16 4 name qtype s v))
      ]

  pub end_prefetch-Holds :
      (cfg : Config) (name : Text) (qtype id : ℕ) (s : Upstream World)
      → Holds 16 4 s
      → Holds 16 4 (
          end_prefetch net crypto anchors entry parse_cidr parse_ip holds marshal write_file build
            cfg name qtype id s)
  unfolding end_prefetch
  end_prefetch-Holds cfg name qtype id s v =
      let h = prefetch_answer-Holds cfg name qtype s v in
      at_cache net crypto anchors cfg 16 4 _ _
        (finish_prefetch-IsValid (name, qtype) id _ _ _ h.cache) h
