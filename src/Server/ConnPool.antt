-- ===== src/Server/ConnPool.antt =====
-- internal/server/connpool.go: the idle connections to upstream servers. A connection is an `id`
-- and the fields that the pool adds to it; opening one is the parameter `dial`, whose `none` is an
-- error. Deadlines of a socket are left out.
pub mod Bound
pub mod Runs
use km_resolv.Prelude.{
  ℕ, zero, suc, ◌+◌, ◌-◌, ◌*◌, ◌%◌, ◌≡◌, refl, Bool, true, false, not, Option, none, some, List, [],
  ◌∷◌, ◌++◌, Text, codes, ◌==◌, nat_eq, list_eq, ltb, leb, length, get_or, set, replicate, select,
  if◌then◌else◌, Map, lookup, insert,
}
use km_resolv.Cache.Hash.{fnv}

abbrev pub pool_num_shards : ℕ
pool_num_shards = 16

pub record PooledConn : Type 0 where
  pub id : ℕ
  pub next_id : ℕ
  pub last_used : ℕ

abbrev pub PoolShard : Type 0
PoolShard = Map Text (List PooledConn)

pub record ConnPool : Type 0 where
  pub max_per_server : ℕ
  pub shards : List PoolShard

unfoldable pub new_conn_pool : ℕ → ConnPool
new_conn_pool max = record { max_per_server = max; shards = replicate pool_num_shards [] }

-- h & (poolNumShards - 1) is the remainder by 16
unfoldable pub pool_shard_idx : Text → ℕ
pool_shard_idx server = fnv 2166136261 server % pool_num_shards

-- s.conns[server], of the server's shard
unfoldable pub conns : Text → ConnPool → List PooledConn
conns server p = elim (lookup server (get_or p.shards (pool_shard_idx server) [])) [
  | none ↦ []
  | some list ↦ list
]

-- s.conns[server] = list
unfoldable pub set_conns : Text → List PooledConn → ConnPool → ConnPool
set_conns server list p =
    let i = pool_shard_idx server in
    record p { shards = set p.shards i (insert server list (get_or p.shards i [])) }

-- a list as all but its last element, and the last
unfoldable pub split_last : List PooledConn → Option (List PooledConn × PooledConn)
split_last [] = none
split_last (c ∷ cs) = elim (split_last cs) [
  | none ↦ some ([], c)
  | some (init, last) ↦ some (c ∷ init, last)
]

unfoldable pub get : (Text → Option PooledConn) → Text → ConnPool → ConnPool × Option PooledConn
get dial server p = elim (split_last (conns server p)) [
  | none ↦ (p, dial server)
  | some (init, last) ↦ (set_conns server init p, some last)
]

-- put: the pool, and whether the connection was closed
unfoldable pub put : Text → PooledConn → Bool → ℕ → ConnPool → ConnPool × Bool
put server pc broken now p =
    let list = conns server p in
    if broken
    then (p, true)
    else if ltb (length list) p.max_per_server
    then (set_conns server (list ++ (record pc { last_used = now }) ∷ []) p, false)
    else (p, true)

-- the connections that stay
abbrev pub fresh : ℕ → ℕ → List PooledConn → List PooledConn
fresh max_idle now list = select (λ pc. not (leb max_idle (now - pc.last_used))) list

unfoldable pub reap_shard : ℕ → ℕ → PoolShard → PoolShard
reap_shard max_idle now [] = []
reap_shard max_idle now ((server, list) ∷ m) =
    let kept = fresh max_idle now list in
    let rest = reap_shard max_idle now m in if length kept == 0 then rest else (server, kept) ∷ rest

-- how many connections of a shard reapIdle closes
unfoldable pub reaped : ℕ → ℕ → PoolShard → ℕ
reaped max_idle now [] = 0
reaped max_idle now ((server, list) ∷ m) =
    length list - length (fresh max_idle now list) + reaped max_idle now m

unfoldable pub reap_all : ℕ → ℕ → List PoolShard → List PoolShard × ℕ
reap_all max_idle now [] = ([], 0)
reap_all max_idle now (s ∷ shards) =
    let (rest, closed) = reap_all max_idle now shards in
    (reap_shard max_idle now s ∷ rest, reaped max_idle now s + closed)

-- reapIdle: the pool, and how many connections were closed
unfoldable pub reap_idle : ℕ → ℕ → ConnPool → ConnPool × ℕ
reap_idle max_idle now p =
    let (shards, closed) = reap_all max_idle now p.shards in (record p { shards = shards }, closed)
