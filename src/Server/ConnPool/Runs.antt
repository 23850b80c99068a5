-- ===== src/Server/ConnPool/Runs.antt =====
-- The connection pool over any sequence of calls.
use km_resolv.Prelude.{
  ℕ, ◌≤◌, ◌≡◌, refl, ◌∙◌, Bool, Option, List, [], ◌∷◌, Text, arith, length, All, All-replicate,
}
use km_resolv.Server.ConnPool.{
  PooledConn, PoolShard, ConnPool, pool_num_shards, new_conn_pool, conns, set_conns, get, put,
  reap_idle,
}
use km_resolv.Server.ConnPool.Bound.{
  IsBounded, get-IsBounded, put-IsBounded, reap_all-All, length-conns-le, get-max,
}

-- The calls on a pool.
pub data Call : Type 0 where
  get_call : Text → Call
  put_call : Text → PooledConn → Bool → ℕ → Call
  reap_call : ℕ → ℕ → Call

module _ (dial : Text → Option PooledConn) where
  unfoldable pub step : ConnPool → Call → ConnPool
  step p (get_call server) = (get dial server p).0
  step p (put_call server pc broken now) = (put server pc broken now p).0
  step p (reap_call max_idle now) = (reap_idle max_idle now p).0

  unfoldable pub run : List Call → ConnPool → ConnPool
  run [] p = p
  run (call ∷ calls) p = run calls (step p call)

  step-IsBounded : (p : ConnPool) (call : Call) → IsBounded p → IsBounded (step p call)
  unfolding step
  step-IsBounded p (get_call server) v = get-IsBounded dial server p v
  step-IsBounded p (put_call server pc broken now) v = put-IsBounded server pc broken now p v
  step-IsBounded p (reap_call max_idle now) v =
      unfold reap_idle in reap_all-All p.max_per_server max_idle now p.shards v

  run-IsBounded : (calls : List Call) (p : ConnPool) → IsBounded p → IsBounded (run calls p)
  unfolding run
  run-IsBounded [] p v = v
  run-IsBounded (call ∷ calls) p v = run-IsBounded calls (step p call) (step-IsBounded p call v)

  step-max : (p : ConnPool) (call : Call) → (step p call).max_per_server ≡ p.max_per_server
  unfolding step put set_conns reap_idle
  step-max p (get_call server) = get-max dial server p
  step-max p (put_call server pc broken now) = ground arith
  step-max p (reap_call max_idle now) = refl

  run-max : (calls : List Call) (p : ConnPool) → (run calls p).max_per_server ≡ p.max_per_server
  unfolding run
  run-max [] p = refl
  run-max (call ∷ calls) p = run-max calls (step p call) ∙ step-max p call

  -- Whatever the calls, a pool never keeps more idle connections to a server than its limit.
  length-conns-run-le :
      (max : ℕ) (calls : List Call) (server : Text)
      → length (conns server (run calls (new_conn_pool max))) ≤ max
  unfolding new_conn_pool
  length-conns-run-le max calls server =
      let p = new_conn_pool max in
      let P : PoolShard → Type 0 = All (λ e. length e.1 ≤ max) in
      let bounded = run-IsBounded calls p (All-replicate P pool_num_shards [] tt) in
      omega (arith, length-conns-le server (run calls p) bounded, run-max calls p)
