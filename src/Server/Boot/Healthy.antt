-- ===== src/Server/Boot/Healthy.antt =====
-- What holds of a server from New on, whatever happens to it.
use km_resolv.Prelude.{
  ℕ, ◌≤◌, ◌<◌, ◌≡◌, ◌∙◌, subst, Bool, Option-cases, inl, inr, Option, none, some, List, get_elem?,
  [], ◌∷◌, Text, arith, length, length-set, length-replicate,
}
use km_resolv.Records.{new_record_store}
use km_resolv.Records.Build.{RecordConfig, Built}
use km_resolv.Config.{Config}
use km_resolv.Dnssec.Verify.{Crypto}
use km_resolv.Dnssec.Zone.{Keys}
use km_resolv.Server.QueryLog.{QueryEntry}
use km_resolv.Server.History.{zero_bucket, history_window, new_stats_history, record_bucket, sample}
use km_resolv.Server.ConnPool.{conns}
use km_resolv.Server.Query.{Network, Upstream}
use km_resolv.Server.Query.Safe.{Holds}
use km_resolv.Server.Resolve.Safe.{resolve_via_servers-Keeps}
use km_resolv.Server.Resolve.Safe as Safe
use km_resolv.Server.Resolve.Bounded.{at_cache, new_upstream-Holds, length-conns-PoolOk}
use km_resolv.Server.Handle.{Server, Handled, done, crashed}
use km_resolv.Server.Handle.Safe.{IfKept, handle_query-Kept}
use km_resolv.Server.Admin.{Admin}
use km_resolv.Server.Admin.Sync.{Edit, InSync, apply, state_of, apply-Keeps, started}
use km_resolv.Server.Admin.Sync as Sync
use km_resolv.Server.Boot.{
  Machine, Event, packet, prefetched, janitor, reloading, reloaded, evicting, sampling, editing,
  flushing, admin_of, with_upstream, new_server, behind, edited_to, end_reload, step, run,
}
use km_resolv.Server.Boot.Upkeep.{
  reap_pools-Holds, evict_all-IsValid, flush-IsValid, end_prefetch-Holds,
}

-- The pools and the cache keep their limits, the records in the store are those of the configuration,
-- and the history has its 300 slots.
pub record IsHealthy {World Net : Type 0} (build : RecordConfig → Built) (m : Machine World Net)
    : Type 0 where
  pub upstream : Holds 16 4 m.server.upstream
  pub in_sync : InSync build (admin_of m)
  pub slots : length m.history.buckets ≡ history_window
  pub head : m.history.head < history_window

module _ {World Net Ip Files : Type 0} (net : Network World) (crypto : Crypto) (anchors : Keys)
    (entry : QueryEntry → Option Text) (parse_cidr : Text → Option Net)
    (parse_ip : Text → Option Ip) (holds : Net → Ip → Bool) (marshal : Config → Option Text)
    (write_file : Text → Text → Files → Option Files) (build : RecordConfig → Built) where
  -- A change of the upstream side alone.
  at_upstream :
      (m : Machine World Net) (u : Upstream World)
      → Holds 16 4 u
      → IsHealthy build m
      → IsHealthy build (with_upstream u m)
  at_upstream m u h v = record {
    upstream = h;
    in_sync = record { records = v.in_sync.records };
    slots = v.slots;
    head = v.head;
  }

  abbrev IfHealthy : Option (Machine World Net) → Type 0
  IfHealthy none = Unit
  IfHealthy (some m) = IsHealthy build m

  behind-Healthy :
      (m : Machine World Net) (s : Server World Net) (h : Handled World Net)
      → IsHealthy build (record m { server = s })
      → IfKept net crypto anchors m.cfg entry parse_cidr parse_ip holds 16 4 s h
      → IfHealthy
          (behind net crypto anchors entry parse_cidr parse_ip holds marshal write_file build m h)
  behind-Healthy m s (done s' reply) v k = record {
    upstream = k.upstream v.upstream;
    in_sync = record { records = rw k.records v.in_sync.records };
    slots = v.slots;
    head = v.head;
  }
  behind-Healthy m s crashed v k = tt

  edited-Healthy :
      (m : Machine World Net) (o : Option Admin)
      → IsHealthy build m
      → Sync.Keeps marshal write_file build o
      → IfHealthy (
          edited_to net crypto anchors entry parse_cidr parse_ip holds marshal write_file build m o)
  edited-Healthy m none v k = tt
  edited-Healthy m (some a) v k = record {
    upstream = v.upstream;
    in_sync = record { records = k.records };
    slots = v.slots;
    head = v.head;
  }

  end_reload-Healthy :
      (i : ℕ) (m : Machine World Net) → IsHealthy build m → IsHealthy build (end_reload i m)
  end_reload-Healthy i m v = elim (Option-cases (get_elem? m.reloads i)) [
    | inl missing ↦ rw (end_reload, missing) v
    | inr (loaded, there) ↦
        rw (end_reload, there)
          (record {
            upstream = v.upstream;
            in_sync = record { records = v.in_sync.records };
            slots = v.slots;
            head = v.head;
          })
  ]

  step-Healthy :
      (e : Event World Files) (m : Machine World Net)
      → IsHealthy build m
      → IfHealthy
          (step net crypto anchors entry parse_cidr parse_ip holds marshal write_file build e m)
  unfolding step sample record_bucket
  step-Healthy (packet p) m v =
      let m' = with_upstream (record m.server.upstream { world = p.world }) m in
      let h =
        at_upstream m _ (Safe.at_world net m.cfg 16 4 m.server.upstream p.world v.upstream) v in
      behind-Healthy m m'.server _ h (
        handle_query-Kept net crypto anchors m.cfg entry parse_cidr parse_ip holds 16 4 p.src p.raw
          p.joined m'.server)
  step-Healthy (prefetched name qtype id w) m v =
      let u = record m.server.upstream { world = w } in
      let h = Safe.at_world net m.cfg 16 4 m.server.upstream w v.upstream in
      at_upstream (with_upstream u m) _
        (end_prefetch-Holds net crypto anchors entry parse_cidr parse_ip holds marshal write_file
          build m.cfg name qtype id u h)
        (at_upstream m u h v)
  step-Healthy (janitor now) m v =
      at_upstream m _ (reap_pools-Holds now m.server.upstream v.upstream) v
  step-Healthy (reloading fetch) m v = record {
    upstream = v.upstream;
    in_sync = record { records = v.in_sync.records };
    slots = v.slots;
    head = v.head;
  }
  step-Healthy (reloaded i) m v = end_reload-Healthy i m v
  step-Healthy (evicting now) m v =
      at_upstream m _
        (at_cache net crypto anchors m.cfg 16 4 m.server.upstream _
          (evict_all-IsValid now m.server.upstream.cache v.upstream.cache) v.upstream)
        v
  step-Healthy sampling m v = record {
    upstream = v.upstream;
    in_sync = record { records = v.in_sync.records };
    slots = length-set m.history.buckets m.history.head _ ∙ v.slots;
    head = omega arith;
  }
  step-Healthy (editing e files) m v =
      edited-Healthy m _ v (apply-Keeps marshal write_file build e (admin_of m) files v.in_sync)
  step-Healthy (flushing mode now) m v =
      at_upstream m _
        (at_cache net crypto anchors m.cfg 16 4 m.server.upstream _
          (flush-IsValid mode now m.server.upstream.cache v.upstream.cache) v.upstream)
        v

  run-Healthy :
      (events : List (Event World Files)) (m : Machine World Net)
      → IsHealthy build m
      → IfHealthy
          (run net crypto anchors entry parse_cidr parse_ip holds marshal write_file build events m)
  unfolding run
  run-Healthy [] m v = v
  run-Healthy (e ∷ events) m v =
      let next =
        step net crypto anchors entry parse_cidr parse_ip holds marshal write_file build e m in
      let kept = step-Healthy e m v in
      elim (Option-cases next) [
        | inl gone ↦ rw (run, gone) tt
        | inr (m', same) ↦ rw (run, same) (run-Healthy events m' (subst IfHealthy same kept))
      ]

  new_server-Healthy :
      (fetch open_log : Text → Option (List Text)) (cfg : Config) (w : World)
      → IfHealthy (
          new_server net crypto anchors entry parse_cidr parse_ip holds marshal write_file build
            fetch open_log cfg w)
  unfolding new_server new_stats_history
  new_server-Healthy fetch open_log cfg w =
      elim (Option-cases (new_record_store build cfg.records)) [
        | inl e ↦ rw (new_server, e) tt
        | inr (store, e) ↦
            let sync = started marshal write_file build fetch cfg store e in
            rw (new_server, e)
              (record {
                upstream = new_upstream-Holds cfg w;
                in_sync = record { records = sync.records };
                slots = length-replicate history_window zero_bucket;
                head = omega arith;
              })
      ]

  -- A server that New has made from a configuration, behind any packets, ends of prefetches, ticks of
  -- its loops, beginnings and ends of reloads, and changes and flushes from the dashboard, in any order,
  -- where each change ends before the next begins, and whatever the network, the files and the lists
  -- do: it keeps at most 16 idle connections over UDP, 4 over TCP and 4 over TLS to any server; the
  -- cache is well formed, each key once and no shard above its limit; the records in the store are
  -- those of the configuration as it is then; and the history has its 300 slots.
  pub run-IsHealthy :
      (fetch open_log : Text → Option (List Text)) (cfg : Config) (w : World)
      (events : List (Event World Files)) (m m' : Machine World Net) (server : Text)
      → new_server net crypto anchors entry parse_cidr parse_ip holds marshal write_file build fetch
          open_log cfg w
        ≡ some m
      → run net crypto anchors entry parse_cidr parse_ip holds marshal write_file build events m
        ≡ some m'
      → IsHealthy build m'
        × (length (conns server m'.server.upstream.pool) ≤ 16)
        × (length (conns server m'.server.upstream.tcp_pool) ≤ 4)
        × (length (conns server m'.server.upstream.dot_pool) ≤ 4)
  run-IsHealthy fetch open_log cfg w events m m' server made ran =
      let v = subst IfHealthy made (new_server-Healthy fetch open_log cfg w) in
      let v' = subst IfHealthy ran (run-Healthy events m v) in
      (
        v',
        length-conns-PoolOk 16 server _ v'.upstream.pool,
        length-conns-PoolOk 4 server _ v'.upstream.tcp_pool,
        length-conns-PoolOk 4 server _ v'.upstream.dot_pool,
      )
