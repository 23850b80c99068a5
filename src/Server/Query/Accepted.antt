-- ===== src/Server/Query/Accepted.antt =====
-- What an answer of query has been checked for.
use km_resolv.Prelude.{
  ℕ, ◌≡◌, ◌⊎◌, ◌++◌, refl, codes, length, inl, inr, Bool, false, none, some, Text, Result, ok, err,
  arith, nat_eq, Option-cases, Result-cases, subst,
}
use km_resolv.Dns.{Message, rcode, rcode_no_error}
use km_resolv.Dns.Parse.{parse_message}
use km_resolv.Dns.Name.{u16_at}
use km_resolv.Dns.Pack.{pack, put_u16}
use km_resolv.Config.{Config}
use km_resolv.Server.ConnPool.{PooledConn, ConnPool, get}
use km_resolv.Server.Query.{
  Network, Upstream, converse, query_udp, query, query_tcp, concluded, exchange_tcp, exchange_udp,
  build_query, with_id,
}
use km_resolv.Server.Verdict.{
  Wording, Verdict, accepted, truncated, refused, judge, judge_bytes, settled, tcp_wording,
  query_wording, prefixed,
}

judge-accepted :
    (w : Wording) (fallback : Bool) (server name : Text) (id : ℕ) (m m' : Message)
    → judge w fallback server name id m ≡ accepted m'
    → (m ≡ m') × (m.header.id ≡ id) × (rcode m.header.flags ≡ rcode_no_error)
unfolding judge
judge-accepted w fallback server name id m m' h = ground (arith, h)

-- An answer by the bytes it was parsed from: it carries the ID of the request, and no error.
pub record Checked (id : ℕ) (bytes : Text) (m : Message) : Type 0 where
  pub parsed : parse_message bytes ≡ ok m
  pub id_kept : m.header.id ≡ id
  pub code : rcode m.header.flags ≡ rcode_no_error

judge_bytes-accepted :
    (w : Wording) (fallback : Bool) (server name : Text) (id : ℕ) (got : Result Text) (m : Message)
    → judge_bytes w fallback server name id got ≡ accepted m
    → (bytes : Text) × (got ≡ ok bytes) × Checked id bytes m
judge_bytes-accepted w fallback server name id (err e) m h = absurd (cc)
judge_bytes-accepted w fallback server name id (ok bytes) m h =
    elim (Result-cases (parse_message bytes)) [
      | inl (e, bad) ↦ absurd (ground (arith, bad))
      | inr (m', parsed) ↦
          let (same, kept, code) =
            judge-accepted w fallback server name id m' m (rw (judge_bytes, parsed) at h) in
          (
            bytes,
            refl,
            subst (Checked id bytes) same (record { parsed = parsed; id_kept = kept; code = code }),
          )
    ]

prefixed-ok :
    (e : Text) (got : Result Text) (bytes : Text) → prefixed e got ≡ ok bytes → got ≡ ok bytes
prefixed-ok e (ok b) bytes h = h
prefixed-ok e (err b) bytes h = absurd (cc)

settled-ok : (v : Verdict) (m : Message) → settled v ≡ ok m → v ≡ accepted m
settled-ok (accepted m') m h = ground (arith, h)
settled-ok truncated m h = absurd (cc)
settled-ok (refused b e) m h = absurd (cc)

concluded-ok {ℓ} :
    {State : Type ℓ} (retry : State × Result Message) (s : State) (v : Verdict) (m : Message)
    → (concluded retry s v).1 ≡ ok m
    → (v ≡ accepted m) ⊎ ((v ≡ truncated) × (retry.1 ≡ ok m))
concluded-ok retry s (accepted m') m h = inl (ground (arith, h))
concluded-ok retry s truncated m h = inr (refl, h)
concluded-ok retry s (refused b e) m h = absurd (cc)

module _ {World : Type 0} (net : Network World) (server : Text) (conn : PooledConn)
    (packed : Text) where
  -- The bytes came from the Read on a connection that follows the Write of a packet on it.
  pub record IsDatagram (w : World) (bytes : Text) : Type 0 where
    pub sent : (net.write server conn packed w).1 ≡ none
    pub got : (net.read server conn (net.write server conn packed w).0).1 ≡ ok bytes

  -- The same over TCP: the packet behind its length is written, then two bytes are read, and then
  -- as many as they say.
  pub record IsStream (w : World) (bytes : Text) : Type 0 where
    pub sent : (net.write server conn (put_u16 (length packed) ++ packed) w).1 ≡ none
    pub size : Text
    pub announced :
        (net.read_full server conn 2
          (net.write server conn (put_u16 (length packed) ++ packed) w).0).1
        ≡ ok size
    pub got :
        (net.read_full server conn
          (u16_at size 0)
          (net.read_full server conn 2
            (net.write server conn (put_u16 (length packed) ++ packed) w).0).0).1
        ≡ ok bytes

  exchange_udp-ok :
      (w : World) (bytes : Text)
      → (exchange_udp net server conn packed w).1 ≡ ok bytes
      → IsDatagram w bytes
  unfolding exchange_udp
  exchange_udp-ok w bytes h = elim (Option-cases (net.write server conn packed w).1) [
    | inl sent ↦ record {
      sent = sent;
      got = prefixed-ok (codes "read: ") _ bytes (rw (exchange_udp, sent) at h);
    }
    | inr (e, failed) ↦ absurd (ground (arith, failed))
  ]

  exchange_tcp-ok :
      (w : World) (bytes : Text)
      → (exchange_tcp net server conn packed w).1 ≡ ok bytes
      → IsStream w bytes
  unfolding exchange_tcp
  exchange_tcp-ok w bytes h =
      let w1 = net.write server conn (put_u16 (length packed) ++ packed) w in
      elim (Option-cases w1.1) [
        | inr (e, failed) ↦ absurd (ground (arith, failed))
        | inl sent ↦ elim (Result-cases (net.read_full server conn 2 w1.0).1) [
          | inl (e, failed) ↦ absurd (ground (arith, sent, failed))
          | inr (size, announced) ↦ record {
            sent = sent;
            size = size;
            announced = announced;
            got =
                prefixed-ok (codes "tcp read body: ") _ bytes
                  (rw (exchange_tcp, sent, announced) at h);
          }
        ]
      ]

module _ {World : Type 0} (net : Network World) where
  -- the exchange of converse on a connection
  abbrev Exchange : Type 0
  Exchange = PooledConn → Text → World → World × Result Text

  -- The bytes that a request is packed to, with the ID that a connection gives it.
  abbrev pub packet : PooledConn → Message → Text
  packet conn request = pack (with_id conn.next_id request)

  converse-accepted :
      (w : Wording) (fallback : Bool) (exchange : Exchange) (request : Message) (server name : Text)
      (pool : ConnPool) (world : World) (m : Message)
      → (converse net w fallback exchange request server name pool world).2 ≡ accepted m
      → (conn : PooledConn) × (bytes : Text) × ((get (net.dial world) server pool).1 ≡ some conn)
        × ((exchange conn (packet conn request) world).1 ≡ ok bytes)
        × Checked conn.next_id bytes m
  unfolding converse
  converse-accepted w fallback exchange request server name pool world m h =
      elim (Option-cases (get (net.dial world) server pool).1) [
        | inl miss ↦ absurd (ground (arith, miss))
        | inr (conn, got) ↦
            let (bytes, read, checked) =
              judge_bytes-accepted w fallback server name conn.next_id
                (exchange conn (packet conn request) world).1 m (rw (converse, got) at h) in
            (conn, bytes, got, read, checked)
      ]

  -- Where an exchange is not over, it has been made on a connection, and the world is the one behind it.
  converse-truncated :
      (w : Wording) (fallback : Bool) (exchange : Exchange) (request : Message) (server name : Text)
      (pool : ConnPool) (world : World)
      → (converse net w fallback exchange request server name pool world).2 ≡ truncated
      → (conn : PooledConn) × ((get (net.dial world) server pool).1 ≡ some conn)
        × ((converse net w fallback exchange request server name pool world).1
            ≡ (exchange conn (packet conn request) world).0)
  unfolding converse
  converse-truncated w fallback exchange request server name pool world h =
      elim (Option-cases (get (net.dial world) server pool).1) [
        | inl miss ↦ absurd (ground (arith, miss))
        | inr (conn, got) ↦ (conn, got, rw (converse, got) refl)
      ]

  module _ (cfg : Config) (server name : Text) (qtype : ℕ) where
    abbrev pub request : Message
    request = build_query cfg 0 name qtype

    -- The answer to the question over UDP, in a world.
    abbrev pub OverUdp : ConnPool → World → Message → Type 0
    OverUdp pool w m =
        (conn : PooledConn) × (bytes : Text) × ((get (net.dial w) server pool).1 ≡ some conn)
        × IsDatagram net server conn (packet conn request) w bytes
        × Checked conn.next_id bytes m

    -- The answer to the question over TCP, in a world.
    abbrev pub OverTcp : ConnPool → World → Message → Type 0
    OverTcp pool w m =
        (conn : PooledConn) × (bytes : Text) × ((get (net.dial w) server pool).1 ≡ some conn)
        × IsStream net server conn (packet conn request) w bytes
        × Checked conn.next_id bytes m

    query_tcp-OverTcp :
        (s : Upstream World) (m : Message)
        → (query_tcp net cfg server name qtype s).1 ≡ ok m
        → OverTcp s.tcp_pool s.world m
    unfolding query_tcp
    query_tcp-OverTcp s m h =
        let (conn, bytes, got, read, checked) =
          converse-accepted tcp_wording false (exchange_tcp net server) request server name
            s.tcp_pool s.world m (settled-ok _ m h) in
        (
          conn,
          bytes,
          got,
          exchange_tcp-ok net server conn (packet conn request) s.world bytes read,
          checked,
        )

    -- An answer of query is parsed from bytes that the Read on a connection has given, behind the
    -- Write of the packed question with the ID of that connection on it, and the pool of UDP has given
    -- the connection out for the server; or, in the world behind such an exchange over UDP, from the
    -- bytes that were read in the same way on a connection of the pool of TCP. In both cases the
    -- answer has the ID that was written, and its response code is no error.
    pub query-Checked :
        (s : Upstream World) (m : Message)
        → (query net cfg server name qtype s).1 ≡ ok m
        → OverUdp s.pool s.world m
          ⊎ ((conn : PooledConn) × ((get (net.dial s.world) server s.pool).1 ≡ some conn)
              × OverTcp s.tcp_pool (exchange_udp net server conn (packet conn request) s.world).0 m)
    unfolding query query_udp
    query-Checked s m h =
        let (pool, w, verdict) =
          converse net query_wording cfg.resolver.tcp_fallback (exchange_udp net server) request
            server name s.pool s.world in
        let s' : Upstream World = record s { pool = pool; world = w } in
        elim (concluded-ok (query_tcp net cfg server name qtype s') s' verdict m h) [
          | inl v ↦
              let (conn, bytes, got, read, checked) =
                converse-accepted query_wording cfg.resolver.tcp_fallback (exchange_udp net server)
                  request server name s.pool s.world m v in
              inl (
                conn,
                bytes,
                got,
                exchange_udp-ok net server conn (packet conn request) s.world bytes read,
                checked,
              )
          | inr (short, retried) ↦
              let (conn, got, after) =
                converse-truncated query_wording cfg.resolver.tcp_fallback (exchange_udp net server)
                  request server name s.pool s.world short in
              inr (
                conn,
                got,
                subst (λ (z : World). OverTcp s.tcp_pool z m) after
                    (query_tcp-OverTcp s' m retried),
              )
        ]
