-- ===== src/Server/ConnPool/Bound.antt =====
-- The bound of the connection pool, over any sequence of calls, and the order in which it hands
-- connections out.
use km_resolv.Prelude.{
  ℕ, ◌-◌, ◌≤◌, ◌<◌, ◌≡◌, refl, Bool, true, false, Bool-cases, Option-cases, inl, inr, Option, some,
  List, [], ◌∷◌, ◌++◌, Text, arith, ◌==◌, nat_eq, list_eq, ltb, length, get_or, All, All-set,
  All-get_or, length-append, length-select-le, lookup, insert, lookup-insert_self, get_or-set_self,
  not, leb,
}
use km_resolv.Server.ConnPool.{
  PooledConn, PoolShard, ConnPool, pool_num_shards, pool_shard_idx, conns, set_conns, split_last,
  get, put, fresh, reap_shard, reap_all,
}

-- No server has more idle connections than the limit.
abbrev pub IsBounded : ConnPool → Type 0
IsBounded p = All (All (λ e. length e.1 ≤ p.max_per_server)) p.shards

insert-All :
    (n : ℕ) (server : Text) (list : List PooledConn) (m : PoolShard)
    → length list ≤ n
    → All (λ e. length e.1 ≤ n) m
    → All (λ e. length e.1 ≤ n) (insert server list m)
unfolding insert
insert-All n server list [] h v = (h, tt)
insert-All n server list ((s, l) ∷ m) h v = elim (Bool-cases (s == server)) [
  | inl same ↦ rw same (h, v.1)
  | inr other ↦ rw other (v.0, insert-All n server list m h v.1)
]

lookup-All :
    (n : ℕ) (server : Text) (list : List PooledConn) (m : PoolShard)
    → All (λ e. length e.1 ≤ n) m
    → lookup server m ≡ some list
    → length list ≤ n
unfolding lookup
lookup-All n server list [] v h = cc
lookup-All n server list ((s, l) ∷ m) v h = ground (arith, v.0, h, lookup-All n server list m v.1)

set_conns-IsBounded :
    (server : Text) (list : List PooledConn) (p : ConnPool)
    → length list ≤ p.max_per_server
    → IsBounded p
    → IsBounded (set_conns server list p)
unfolding set_conns
set_conns-IsBounded server list p h v =
    let P : PoolShard → Type 0 = All (λ e. length e.1 ≤ p.max_per_server) in
    All-set P p.shards (pool_shard_idx server) _ v (
      insert-All p.max_per_server server list _ h
        (All-get_or P p.shards (pool_shard_idx server) [] v tt))

pub length-conns-le :
    (server : Text) (p : ConnPool) → IsBounded p → length (conns server p) ≤ p.max_per_server
unfolding conns
length-conns-le server p v =
    let P : PoolShard → Type 0 = All (λ e. length e.1 ≤ p.max_per_server) in
    let m = get_or p.shards (pool_shard_idx server) [] in
    let bounded = All-get_or P p.shards (pool_shard_idx server) [] v tt in
    elim (Option-cases (lookup server m)) [
      | inl miss ↦ ground (arith, miss)
      | inr (list, e) ↦ ground (arith, e, lookup-All p.max_per_server server list m bounded e)
    ]

split_last-length :
    (cs init : List PooledConn) (last : PooledConn)
    → split_last cs ≡ some (init, last)
    → length init < length cs
unfolding split_last
split_last-length [] init last h = cc
split_last-length (c ∷ cs) init last h = elim (Option-cases (split_last cs)) [
  | inl e ↦ ground (arith, h, e)
  | inr ((i, l), e) ↦ ground (arith, h, e, split_last-length cs i l e)
]

split_last-append :
    (cs : List PooledConn) (c : PooledConn) → split_last (cs ++ c ∷ []) ≡ some (cs, c)
unfolding split_last
split_last-append [] c = refl
split_last-append (d ∷ cs) c = rw (split_last-append cs c) refl

pub get-IsBounded :
    (dial : Text → Option PooledConn) (server : Text) (p : ConnPool)
    → IsBounded p
    → IsBounded (get dial server p).0
unfolding get
get-IsBounded dial server p v = elim (Option-cases (split_last (conns server p))) [
  | inl e ↦ rw (e, get) v
  | inr ((init, last), e) ↦
      rw (e, get)
        (set_conns-IsBounded server init p
          (omega
            (arith, split_last-length (conns server p) init last e, length-conns-le server p v))
          v)
]

pub put-IsBounded :
    (server : Text) (pc : PooledConn) (broken : Bool) (now : ℕ) (p : ConnPool)
    → IsBounded p
    → IsBounded (put server pc broken now p).0
unfolding put
put-IsBounded server pc true now p v = v
put-IsBounded server pc false now p v =
    elim (Bool-cases (ltb (length (conns server p)) p.max_per_server)) [
      | inl room ↦ rw room (
          set_conns-IsBounded server _ p
            (ground
              (arith, room, length-append (conns server p) (record pc { last_used = now } ∷ [])))
            v)
      | inr full ↦ rw full v
    ]

reap_shard-All :
    (n max_idle now : ℕ) (m : PoolShard)
    → All (λ e. length e.1 ≤ n) m
    → All (λ e. length e.1 ≤ n) (reap_shard max_idle now m)
unfolding reap_shard
reap_shard-All n max_idle now [] v = tt
reap_shard-All n max_idle now ((server, list) ∷ m) v =
    let kept = fresh max_idle now list in
    let rest = reap_shard-All n max_idle now m v.1 in
    elim (Bool-cases (length kept == 0)) [
      | inl empty ↦ rw empty rest
      | inr some_left ↦ rw some_left (
        omega (
          arith,
          v.0,
          length-select-le (λ (pc : PooledConn). not (leb max_idle (now - pc.last_used))) list,
        ),
        rest,
      )
    ]

pub reap_all-All :
    (n max_idle now : ℕ) (shards : List PoolShard)
    → All (All (λ e. length e.1 ≤ n)) shards
    → All (All (λ e. length e.1 ≤ n)) (reap_all max_idle now shards).0
unfolding reap_all
reap_all-All n max_idle now [] v = tt
reap_all-All n max_idle now (s ∷ shards) v =
    (reap_shard-All n max_idle now s v.0, reap_all-All n max_idle now shards v.1)

pub get-max :
    (dial : Text → Option PooledConn) (server : Text) (p : ConnPool)
    → (get dial server p).0.max_per_server ≡ p.max_per_server
unfolding get set_conns
get-max dial server p = elim (Option-cases (split_last (conns server p))) [
  | inl e ↦ rw (e, get) refl
  | inr ((init, last), e) ↦ rw (e, get) refl
]

conns-set_conns :
    (server : Text) (list : List PooledConn) (p : ConnPool)
    → length p.shards ≡ pool_num_shards
    → conns server (set_conns server list p) ≡ list
unfolding conns set_conns pool_shard_idx
conns-set_conns server list p h =
    let m = get_or p.shards (pool_shard_idx server) [] in
    ground (
      arith,
      get_or-set_self p.shards (pool_shard_idx server) (insert server list m) [] (omega (arith, h)),
      lookup-insert_self server list m,
    )

-- A connection that put keeps is the next one that get hands out for the server, with the time of
-- the put, and no connection is opened.
get-put_conn :
    (dial : Text → Option PooledConn) (server : Text) (pc : PooledConn) (now : ℕ) (p : ConnPool)
    → length p.shards ≡ pool_num_shards
    → (put server pc false now p).1 ≡ false
    → (get dial server (put server pc false now p).0).1 ≡ some (record pc { last_used = now })
unfolding put get
get-put_conn dial server pc now p h kept =
    elim (Bool-cases (ltb (length (conns server p)) p.max_per_server)) [
      | inl room ↦ ground (
        arith,
        room,
        conns-set_conns server (conns server p ++ record pc { last_used = now } ∷ []) p h,
        split_last-append (conns server p) (record pc { last_used = now }),
      )
      | inr full ↦ absurd (ground (arith, kept, full))
    ]
