-- ===== src/Server/Query.antt =====
-- internal/server/resolver.go, the exchange of one question with one server. What is outside of
-- the program is a state `World`, and a record of the calls of the standard library on it:
-- reads and writes of sockets, the clock and random numbers. A call's error is its text.
pub mod Accepted
pub mod Safe
use km_resolv.Prelude.{
  ℕ, zero, suc, ◌+◌, ◌*◌, ◌/◌, ◌%◌, Bool, true, false, not, ◌&&◌, ◌||◌, Option, none, some, List,
  [], ◌∷◌, ◌++◌, Text, codes, Result, ok, err, ◌==◌, nat_eq, list_eq, ltb, length, drop, has_prefix,
  contains, if◌then◌else◌,
}
use km_resolv.Dns.{
  Message, Header, empty_message, empty_header, class_in, set_rd, rcode, bit, rcode_no_error,
  rcode_nx_domain,
}
use km_resolv.Dns.Name.{u16_at}
use km_resolv.Dns.Parse.{parse_message}
use km_resolv.Dns.Pack.{pack, put_u16}
use km_resolv.Cache.{Cache}
use km_resolv.Dnssec.KeyCache.{KeyCache}
use km_resolv.Config.{Config}
use km_resolv.Server.ConnPool.{PooledConn, ConnPool, get, put}
use km_resolv.Server.Verdict.{
  Verdict, Wording, accepted, decimal, decimal_from, forwarder_wording, has_failed, is_nxdomain,
  judge, judge_bytes, judge_doh_message, nxdomain_error, prefixed, query_wording, refused, settled,
  tcp_wording, truncated,
}

pub record Network (World : Type 0) : Type 0 where
  pub clock : World → ℕ
  -- net.DialTimeout or dialTLS, with a random first ID; and the text of the error
  pub dial : World → Text → Option PooledConn
  pub dial_error : World → Text → Text
  -- Write: the error, if there is one
  pub write : Text → PooledConn → Text → World → World × Option Text
  -- Read, and io.ReadFull of so many bytes
  pub read : Text → PooledConn → World → World × Result Text
  pub read_full : Text → PooledConn → ℕ → World → World × Result Text
  -- the error of http.NewRequest, if there is one, for a POST to a URL
  pub bad_url : Text → Option Text
  -- a POST of the DoH client: an error of the request, or the status and what the body reads as
  pub post : Text → Text → World → World × Result (ℕ × Result Text)
  pub random_id : World → ℕ
  -- whether net.SplitHostPort returns no error, and net.IP.String of sixteen bytes
  pub has_port : Text → Bool
  pub show_ip : Text → Text
  pub shuffle : List Text → World → World × List Text
  -- whether the A records of a server's name arrive before its AAAA records
  pub a_first : Text → World → Bool

-- what a resolution changes
pub record Upstream (World : Type 0) : Type 0 where
  pub pool : ConnPool
  pub tcp_pool : ConnPool
  pub dot_pool : ConnPool
  pub cache : Cache
  pub zone_keys : KeyCache
  pub world : World

abbrev pub with_id : ℕ → Message → Message
with_id id m = record m { header = record m.header { id = id } }

unfoldable pub build_query : Config → ℕ → Text → ℕ → Message
build_query cfg id name qtype =
    let ttl : ℕ = if cfg.resolver.dnssec then 32768 else 0 in
    record empty_message {
      header = record empty_header { id = id };
      questions = record { name = name; type = qtype; class = class_in } ∷ [];
      additional =
          if cfg.resolver.edns0 || cfg.resolver.dnssec
          then record { name = []; type = 41; class = 4096; ttl = ttl; rdata = []; offset = 0 } ∷ []
          else [];
    }

-- req.SetRD(true)
abbrev pub recursive : Message → Message
recursive m = record m { header = record m.header { flags = set_rd m.header.flags true } }

-- conn.nextID++, of a uint16
abbrev pub next : PooledConn → PooledConn
next conn = record conn { next_id = (conn.next_id + 1) % 65536 }

-- The result of an exchange over UDP, given the retry over TCP and the state without it.
abbrev pub concluded {ℓ} :
    {State : Type ℓ} → State × Result Message → State → Verdict → State × Result Message
concluded retry s (accepted m) = (s, ok m)
concluded retry s truncated = retry
concluded retry s (refused failed e) = (s, err e)

module _ {World : Type 0} (net : Network World) where
  -- Read into a buffer, behind a Write.
  unfoldable pub exchange_udp : Text → PooledConn → Text → World → World × Result Text
  exchange_udp server conn packed w =
      let (w1, failed) = net.write server conn packed w in
      let (w2, got) = net.read server conn w1 in
      elim failed [
        | some e ↦ (w1, err (codes "write: " ++ e))
        | none ↦ (w2, prefixed (codes "read: ") got)
      ]

  -- The length in two bytes, then so many bytes, behind a Write of the same form.
  unfoldable pub exchange_tcp : Text → PooledConn → Text → World → World × Result Text
  exchange_tcp server conn packed w =
      let (w1, failed) = net.write server conn (put_u16 (length packed) ++ packed) w in
      let (w2, len) = net.read_full server conn 2 w1 in
      elim failed [
        | some e ↦ (w1, err (codes "tcp write: " ++ e))
        | none ↦ elim len [
          | err e ↦ (w2, err (codes "tcp read length: " ++ e))
          | ok bytes ↦
              let (w3, body) = net.read_full server conn (u16_at bytes 0) w2 in
              (w3, prefixed (codes "tcp read body: ") body)
        ]
      ]

  -- One exchange on a connection of a pool: get, the exchange, and the deferred put.
  unfoldable pub converse :
      Wording
      → Bool
      → (PooledConn → Text → World → World × Result Text)
      → Message
      → Text
      → Text
      → ConnPool
      → World
      → ConnPool × World × Verdict
  converse wording fallback exchange request server name pool w =
      let (pool', got) = get (net.dial w) server pool in
      elim got [
        | none ↦ (pool', w, refused true (wording.dial ++ net.dial_error w server))
        | some conn ↦
            let (w', bytes) = exchange conn (pack (with_id conn.next_id request)) w in
            let verdict = judge_bytes wording fallback server name conn.next_id bytes in
            ((put server (next conn) (has_failed verdict) (net.clock w') pool').0, w', verdict)
      ]

  module _ (cfg : Config) where
    -- queryTCPPool of tcpPool, which is queryTCP
    unfoldable pub query_tcp : Text → Text → ℕ → Upstream World → Upstream World × Result Message
    query_tcp server name qtype s =
        let (pool, w, verdict) =
          converse tcp_wording false (exchange_tcp server) (build_query cfg 0 name qtype) server
            name s.tcp_pool s.world in
        (record s { tcp_pool = pool; world = w }, settled verdict)

    -- queryTCPPool of dotPool, which is queryDoT
    unfoldable pub query_dot : Text → Text → ℕ → Upstream World → Upstream World × Result Message
    query_dot server name qtype s =
        let (pool, w, verdict) =
          converse tcp_wording false (exchange_tcp server) (build_query cfg 0 name qtype) server
            name s.dot_pool s.world in
        (record s { dot_pool = pool; world = w }, settled verdict)

    -- what query and queryForwarder share; the put that they defer is done before the retry here,
    -- which is on another pool
    unfoldable pub query_udp :
        Wording → Message → Text → Text → ℕ → Upstream World → Upstream World × Result Message
    query_udp wording request server name qtype s =
        let (pool, w, verdict) =
          converse wording cfg.resolver.tcp_fallback (exchange_udp server) request server name
            s.pool s.world in
        let s' : Upstream World = record s { pool = pool; world = w } in
        concluded (query_tcp server name qtype s') s' verdict

    unfoldable pub query : Text → Text → ℕ → Upstream World → Upstream World × Result Message
    query server name qtype s =
        query_udp query_wording (build_query cfg 0 name qtype) server name qtype s

    unfoldable pub query_forwarder :
        Text → Text → ℕ → Upstream World → Upstream World × Result Message
    query_forwarder server name qtype s =
        query_udp forwarder_wording (recursive (build_query cfg 0 name qtype)) server name qtype s

    -- What queryDoH makes of the body of an answer.
    unfoldable pub judge_doh : Text → Text → Result (ℕ × Result Text) → Result Message
    judge_doh url name (err e) = err (codes "doh http: " ++ e)
    judge_doh url name (ok (status, body)) =
        if not (status == 200)
        then err (codes "doh http status " ++ (decimal status ++ (codes " from " ++ url)))
        else elim body [
          | err e ↦ err (codes "doh read: " ++ e)
          | ok bytes ↦ elim (parse_message bytes) [
            | err e ↦ err (codes "doh parse: " ++ e)
            | ok m ↦ judge_doh_message url name m
          ]
        ]

    unfoldable pub query_doh : Text → Text → ℕ → Upstream World → Upstream World × Result Message
    query_doh url name qtype s =
        let request = recursive (build_query cfg (net.random_id s.world) name qtype) in
        let (w, got) = net.post url (pack request) s.world in
        elim (net.bad_url url) [
          | some e ↦ (s, err (codes "doh request: " ++ e))
          | none ↦ (record s { world = w }, judge_doh url name got)
        ]
