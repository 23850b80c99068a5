-- ===== src/Server/Handle.antt =====
-- handleQuery of internal/server/server.go, with the replies it makes. The clock is that of the
-- world, which moves with the exchanges. The messages that the cache and the reply share in the
-- source are separate here.
pub mod Replies
pub mod Counts
pub mod Safe
pub mod Shared
mod Tests
use km_resolv.Prelude.{
  ℕ, ◌+◌, ◌-◌, ◌/◌, ◌%◌, ◌^◌, Bool, true, false, not, Option, none, some, List, [], ◌∷◌, Text,
  codes, Result, ok, err, ◌==◌, nat_eq, length, if◌then◌else◌, Map, lookup,
}
use km_resolv.Dns.{
  Rr, Question, Message, Header, empty_header, empty_message, set_qr, set_ra, set_aa, set_rcode,
  rcode_nx_domain, rcode_refused, rcode_serv_fail,
}
use km_resolv.Dns.Parse.{parse_message}
use km_resolv.Filter.{Filter, blocked}
use km_resolv.Records.{RecordStore, lookup_records}
use km_resolv.Config.{Config}
use km_resolv.Dnssec.Verify.{Crypto}
use km_resolv.Dnssec.Zone.{Keys}
use km_resolv.Server.QueryLog.{QueryEntry, QueryLog, add}
use km_resolv.Server.RateLimit.{RateLimiter, allow}
use km_resolv.Server.Acl.{CompiledAcl, allowed}
use km_resolv.Server.Query.{Network, Upstream}
use km_resolv.Server.Verdict.{decimal}
use km_resolv.Server.Resolve.{resolve}

-- the parts of the server that a query reads or changes
pub record Server (World Net : Type 0) : Type 0 where
  pub filter : Filter
  pub records : RecordStore
  pub qlog : QueryLog
  pub limiter : Option RateLimiter
  pub acl : CompiledAcl Net
  pub upstream : Upstream World
  pub total_queries : ℕ
  pub cache_hits : ℕ
  pub blocked : ℕ
  pub total_latency_ms : ℕ

-- where a packet comes from: sourceIP of its address, and the text of the address
pub record Source : Type 0 where
  pub ip : Text
  pub client : Text

-- The names of the types. The numbers are the constants of internal/dns/message.go.
abbrev pub type_names : Map ℕ Text
type_names =
    (1, codes "A")
    ∷ (2, codes "NS")
    ∷ (5, codes "CNAME")
    ∷ (6, codes "SOA")
    ∷ (12, codes "PTR")
    ∷ (15, codes "MX")
    ∷ (16, codes "TXT")
    ∷ (28, codes "AAAA")
    ∷ (29, codes "LOC")
    ∷ (33, codes "SRV")
    ∷ (35, codes "NAPTR")
    ∷ (37, codes "CERT")
    ∷ (43, codes "DS")
    ∷ (44, codes "SSHFP")
    ∷ (48, codes "DNSKEY")
    ∷ (52, codes "TLSA")
    ∷ (53, codes "SMIMEA")
    ∷ (61, codes "OPENPGPKEY")
    ∷ (64, codes "SVCB")
    ∷ (65, codes "HTTPS")
    ∷ (256, codes "URI")
    ∷ (257, codes "CAA")
    ∷ []

unfoldable pub type_name : ℕ → Text
type_name t = elim (lookup t type_names) [ none ↦ decimal t | some name ↦ name ]

-- the message that nxdomain, refused and servfail make, by its code
abbrev pub error_reply : ℕ → Message → Message
error_reply code req = record empty_message {
  header = record empty_header {
    id = req.header.id;
    flags = set_rcode (set_ra (set_qr 0 true) true) code;
  };
  questions = req.questions;
}

unfoldable pub nxdomain : Message → Message
nxdomain req = error_reply rcode_nx_domain req

unfoldable pub refused : Message → Message
refused req = error_reply rcode_refused req

unfoldable pub servfail : Message → Message
servfail req = error_reply rcode_serv_fail req

-- the reply from the configured records
unfoldable pub record_reply : Message → List Rr → Message
record_reply req rrs = record empty_message {
  header = record empty_header {
    id = req.header.id;
    flags = set_aa (set_ra (set_qr 0 true) true) true;
  };
  questions = req.questions;
  answers = rrs;
}

-- The reply that a resolution ends with, where no other call writes into `resp` before it is packed.
-- The source writes into the message itself, which joined calls share: see Handle/Shared.
unfoldable pub resolved_reply : Message → Message → Message
resolved_reply req resp = record resp {
  header = record resp.header {
    id = req.header.id;
    flags = set_aa (set_ra (set_qr resp.header.flags true) true) false;
  };
  questions = req.questions;
}

-- Add of a counter of 64 bits
abbrev pub add64 : ℕ → ℕ → ℕ
add64 n k = (n + k) % 2 ^ 64

-- msg.Questions[0], where there is one
abbrev pub first_question : List Question → Option Question
first_question [] = none
first_question (q ∷ questions) = some q

-- What a query comes to: the server, and the message that is packed and written to the client,
-- where one is; or the end of the program by a panic.
pub data Handled (World Net : Type 0) : Type 0 where
  done : Server World Net → Option Message → Handled World Net
  crashed : Handled World Net

module _ {World Net Ip : Type 0} (net : Network World) (crypto : Crypto) (anchors : Keys)
    (cfg : Config) (marshal : QueryEntry → Option Text) (parse_cidr : Text → Option Net)
    (parse_ip : Text → Option Ip) (holds : Net → Ip → Bool) where
  -- a query in the log, at the milliseconds since `start`
  unfoldable pub log_query : ℕ → Source → Question → Text → Server World Net → Server World Net
  log_query start src q status s =
      let now = net.clock s.upstream.world in
      record s {
        qlog =
            add marshal
              (record {
                time = now;
                domain = q.name;
                type = type_name q.type;
                client = src.client;
                status = status;
                latency = (now - start) / 1000000;
              })
              s.qlog;
      }

  -- what follows a resolution, with the server as it leaves it
  unfoldable pub conclude :
      ℕ → Source → Message → Question → Bool → Result Message → Server World Net → Handled World Net
  conclude start src msg q was_cached (err e) s =
      done (log_query start src q (codes "error") s) (some (servfail msg))
  conclude start src msg q true (ok resp) s =
      done (log_query start src q (codes "cached") (record s { cache_hits = add64 s.cache_hits 1 }))
        (some (resolved_reply msg resp))
  conclude start src msg q false (ok resp) s =
      done (log_query start src q (codes "resolved") s) (some (resolved_reply msg resp))

  unfoldable pub answer_by_resolving :
      ℕ
      → Source
      → Message
      → Question
      → Option (Result Message)
      → Server World Net
      → Handled World Net
  answer_by_resolving start src msg q joined s =
      let (upstream, result, was_cached) =
        resolve net crypto anchors cfg q.name q.type joined s.upstream in
      let latency = (net.clock upstream.world - start) / 1000000 in
      let s' : Server World Net = record s {
        upstream = upstream;
        total_latency_ms = add64 s.total_latency_ms latency;
      } in
      elim result [ none ↦ crashed | some r ↦ conclude start src msg q was_cached r s' ]

  -- a query behind the checks: the filter, the configured records, the resolution
  unfoldable pub answer_query :
      Source → Message → Question → Option (Result Message) → Server World Net → Handled World Net
  answer_query src msg q joined s =
      let start = net.clock s.upstream.world in
      let rrs = lookup_records q.name q.type s.records in
      if blocked q.name s.filter
      then done (log_query start src q (codes "blocked") (record s { blocked = add64 s.blocked 1 }))
          (some (nxdomain msg))
      else if length rrs == 0
      then answer_by_resolving start src msg q joined s
      else done (log_query start src q (codes "resolved") s) (some (record_reply msg rrs))

  -- a packet that has passed the access list and the limiter
  unfoldable pub accept :
      Source → Text → Option (Result Message) → Server World Net → Handled World Net
  accept src raw joined s = elim (parse_message raw) [
    | err e ↦ done s none
    | ok msg ↦ elim (first_question msg.questions) [
      | none ↦ done s none
      | some q ↦
          answer_query src msg q joined (record s { total_queries = add64 s.total_queries 1 })
    ]
  ]

  abbrev pub deny : Result Message → Option Message
  deny (err e) = none
  deny (ok msg) = some (refused msg)

  -- the check of the limiter, where there is one
  unfoldable pub limit :
      Option RateLimiter
      → Source
      → Text
      → Option (Result Message)
      → Server World Net
      → Handled World Net
  limit none src raw joined s = accept src raw joined s
  limit (some r) src raw joined s =
      let (r', passes) = allow src.ip (net.clock s.upstream.world) r in
      let s' : Server World Net = record s { limiter = some r' } in
      if passes then accept src raw joined s' else done s' none

  -- handleQuery
  unfoldable pub handle_query :
      Source → Text → Option (Result Message) → Server World Net → Handled World Net
  handle_query src raw joined s =
      if allowed parse_cidr parse_ip holds src.ip s.acl
      then limit s.limiter src raw joined s
      else done s (deny (parse_message raw))
