-- ===== src/Server/Resolve/Fixture.antt =====
-- A network where each server gives the same answer, for the tests of the resolutions. Its world
-- is a clock, which moves by one with each write and each read.
use km_resolv.Prelude.{
  ℕ, ◌+◌, true, none, some, [], ◌∷◌, Text, codes, ok, err, nat_eq, list_eq, to_lower, trim_dot,
  has_prefix, contains,
}
use km_resolv.Dns.{Rr, Message, set_rd, rcode, bit, set_bit}
use km_resolv.Dns.Name.{u16_at}
use km_resolv.Dns.Parse.{parse_message, u32_at, parse_questions, parse_rrs, name_at}
use km_resolv.Dns.Pack as Pack
use km_resolv.Cache as Cache
use km_resolv.Config.{defaults, bits64}
use km_resolv.Dnssec.Verify.{Crypto}
use km_resolv.Server.Zones.{lookup_zone, longest, better, is_above}
use km_resolv.Server.ConnPool as Pool
use km_resolv.Server.Query.{
  Network, Upstream, build_query, exchange_udp, converse, query_udp, query, query_forwarder,
}
use km_resolv.Server.Verdict.{decimal, decimal_from, nxdomain_error, judge}
use km_resolv.Server.Forward.{ask_upstream, resolve_via_servers, forwarder_addr}
use km_resolv.Server.Answers.{extract_ns, has_terminal_records, prepend_cname}
use km_resolv.Server.Iterate.{
  levels, first_cname, recall, resolve_ns_addr, follow_cname, answered, digested, try_servers,
  resolve_at, resolve_from_root,
}
use km_resolv.Server.Resolve.{dispatch, remember, resolve_new, resolve}
use km_resolv.Server.Resolve.Bounded.{new_upstream}

-- every server answers with these bytes
abbrev pub network : Text → Network ℕ
network reply = record {
  clock = λ w. w;
  dial = λ w server. some (record { id = 1; next_id = 7; last_used = 0 });
  dial_error = λ w server. codes "refused";
  write = λ server conn packed w. (w + 1, none);
  read = λ server conn w. (w + 1, ok reply);
  read_full = λ server conn n w. (w + 1, err (codes "EOF"));
  bad_url = λ url. none;
  post = λ url body w. (w + 1, err (codes "refused"));
  random_id = λ w. 7;
  has_port = λ s. true;
  show_ip = λ ip. [];
  shuffle = λ names w. (w, names);
  a_first = λ name w. true;
}

abbrev pub crypto : Crypto
crypto = record {
  digest = λ type data'. [];
  rsa = λ hash n e data' signature. true;
  ecdsa = λ curve x y r s data'. true;
  ed25519 = λ key data' signature. true;
}

-- an answer with the ID 7 and one A record, of 60 seconds
abbrev pub answer : Text
answer =
    0 ∷ 7 ∷ 129 ∷ 128 ∷ 0 ∷ 0 ∷ 0 ∷ 1 ∷ 0 ∷ 0 ∷ 0 ∷ 0 ∷ 0 ∷ 0 ∷ 1 ∷ 0 ∷ 1 ∷ 0 ∷ 0 ∷ 0 ∷ 60 ∷ 0 ∷ 4
    ∷ 1 ∷ 2 ∷ 3 ∷ 4 ∷ []

abbrev pub nothing : Text
nothing = 0 ∷ 7 ∷ 129 ∷ 131 ∷ 0 ∷ 0 ∷ 0 ∷ 0 ∷ 0 ∷ 0 ∷ 0 ∷ 0 ∷ []

abbrev pub a_record : Rr
a_record = record {
  name = [];
  type = 1;
  class = 1;
  ttl = 60;
  rdata = 1 ∷ 2 ∷ 3 ∷ 4 ∷ [];
  offset = 23;
}

abbrev pub message : Message
message = record {
  header = record { id = 7; flags = 33152; qd_count = 0; an_count = 1; ns_count = 0; ar_count = 0 };
  questions = [];
  answers = a_record ∷ [];
  authority = [];
  additional = [];
  raw = answer;
}

abbrev pub start : Upstream ℕ
start = new_upstream defaults 5

unfoldable pub exchange : Unit {0}
unfolding Pack.program Cache.program u16_at u32_at parse_questions parse_rrs parse_message name_at
    set_rd rcode bit set_bit Pool.new_conn_pool Pool.get Pool.put Pool.conns Pool.set_conns
    Pool.split_last Pool.pool_shard_idx build_query judge exchange_udp converse query_udp query
    query_forwarder decimal decimal_from nxdomain_error contains has_prefix to_lower trim_dot
exchange = tt

unfoldable pub forwarding : Unit {0}
unfolding exchange bits64 ask_upstream resolve_via_servers forwarder_addr
forwarding = tt

unfoldable pub resolving : Unit {0}
unfolding forwarding lookup_zone longest better is_above levels first_cname recall resolve_ns_addr
    follow_cname has_terminal_records prepend_cname extract_ns answered digested try_servers
    resolve_at resolve_from_root dispatch remember resolve_new resolve
resolving = tt

-- one second later
abbrev pub later : ℕ
later = 1000000009
