-- ===== src/Server/Handle/Replies.antt =====
-- What handleQuery writes to a client.
use km_resolv.Prelude.{
  ℕ, ◌≡◌, refl, Bool, true, false, Bool-cases, Option-cases, Result-cases, inl, inr, Option, none,
  some, List, Text, Result, ok, err, arith, subst, ◌==◌, nat_eq, length,
}
use km_resolv.Dns.{
  Rr, Question, Message, qr, bit, set_bit, set_qr, set_ra, set_aa, set_rcode, rcode_nx_domain,
  rcode_refused, rcode_serv_fail,
}
use km_resolv.Dns.Parse.{parse_message}
use km_resolv.Filter.{blocked}
use km_resolv.Records.{lookup_records}
use km_resolv.Config.{Config}
use km_resolv.Dnssec.Verify.{Crypto}
use km_resolv.Dnssec.Zone.{Keys}
use km_resolv.Server.QueryLog.{QueryEntry}
use km_resolv.Server.Query.{Network}
use km_resolv.Server.Resolve.{resolve}
use km_resolv.Server.RateLimit.{RateLimiter, allow}
use km_resolv.Server.Acl.{allowed}
use km_resolv.Server.Handle.{
  first_question, deny, limit, handle_query, Server, Source, Handled, done, crashed, nxdomain,
  refused, servfail, record_reply, resolved_reply, conclude, answer_by_resolving, answer_query,
  accept, error_reply,
}

-- A message that answers a request: the ID and the questions of the request, and the flag QR.
pub record IsReply (req m : Message) : Type 0 where
  pub id : m.header.id ≡ req.header.id
  pub questions : m.questions ≡ req.questions
  pub response : qr m.header.flags ≡ true

pub qr-set_qr : (f : ℕ) → qr (set_qr f true) ≡ true
unfolding qr set_qr bit set_bit
qr-set_qr f = ground arith

pub qr-set_ra : (f : ℕ) → qr (set_ra f true) ≡ qr f
unfolding qr set_ra bit set_bit
qr-set_ra f = ground arith

pub qr-set_aa : (f : ℕ) (v : Bool) → qr (set_aa f v) ≡ qr f
unfolding qr set_aa bit set_bit
qr-set_aa f true = ground arith
qr-set_aa f false = ground arith

qr-set_rcode : (f r : ℕ) → qr (set_rcode f r) ≡ qr f
unfolding qr set_rcode bit
qr-set_rcode f r = ground arith

error_reply-IsReply : (code : ℕ) (req : Message) → IsReply req (error_reply code req)
error_reply-IsReply code req = record {
  id = refl;
  questions = refl;
  response =
      rw (qr-set_rcode (set_ra (set_qr 0 true) true) code, qr-set_ra (set_qr 0 true)) (qr-set_qr 0);
}

record_reply-IsReply : (req : Message) (rrs : List Rr) → IsReply req (record_reply req rrs)
unfolding record_reply
record_reply-IsReply req rrs = record {
  id = refl;
  questions = refl;
  response =
      rw (qr-set_aa (set_ra (set_qr 0 true) true) true, qr-set_ra (set_qr 0 true)) (qr-set_qr 0);
}

resolved_reply-IsReply : (req resp : Message) → IsReply req (resolved_reply req resp)
unfolding resolved_reply
resolved_reply-IsReply req resp =
    let f = resp.header.flags in
    record {
      id = refl;
      questions = refl;
      response =
          rw (qr-set_aa (set_ra (set_qr f true) true) false, qr-set_ra (set_qr f true))
            (qr-set_qr f);
    }

module _ {World Net Ip : Type 0} (net : Network World) (crypto : Crypto) (anchors : Keys)
    (cfg : Config) (marshal : QueryEntry → Option Text) (parse_cidr : Text → Option Net)
    (parse_ip : Text → Option Ip) (holds : Net → Ip → Bool) (raw : Text) where
  -- What is written answers the packet.
  abbrev pub Good : Handled World Net → Type 0
  Good (done s none) = Unit
  Good (done s (some m)) = (req : Message) × (parse_message raw ≡ ok req) × IsReply req m
  Good crashed = Unit

  conclude-Good :
      (start : ℕ) (src : Source) (msg : Message) (q : Question) (cached : Bool) (r : Result Message)
      (s : Server World Net)
      → parse_message raw ≡ ok msg
      → Good (
          conclude net crypto anchors cfg marshal parse_cidr parse_ip holds start src msg q cached r
            s)
  unfolding conclude servfail
  conclude-Good start src msg q cached (err e) s h =
      (msg, h, error_reply-IsReply rcode_serv_fail msg)
  conclude-Good start src msg q true (ok resp) s h = (msg, h, resolved_reply-IsReply msg resp)
  conclude-Good start src msg q false (ok resp) s h = (msg, h, resolved_reply-IsReply msg resp)

  resolving-Good :
      (src : Source) (msg : Message) (q : Question) (joined : Option (Result Message)) (start : ℕ)
      (s : Server World Net)
      → parse_message raw ≡ ok msg
      → Good (
          answer_by_resolving net crypto anchors cfg marshal parse_cidr parse_ip holds start src msg
            q joined s)
  unfolding answer_by_resolving
  resolving-Good src msg q joined start s h =
      let got = resolve net crypto anchors cfg q.name q.type joined s.upstream in
      elim (Option-cases got.1) [
        | inl e ↦ rw (answer_by_resolving, e) tt
        | inr (r, e) ↦ rw (answer_by_resolving, e) (conclude-Good start src msg q got.2 r _ h)
      ]

  answer_query-Good :
      (src : Source) (msg : Message) (q : Question) (joined : Option (Result Message))
      (s : Server World Net)
      → parse_message raw ≡ ok msg
      → Good
          (answer_query net crypto anchors cfg marshal parse_cidr parse_ip holds src msg q joined s)
  unfolding answer_query nxdomain
  answer_query-Good src msg q joined s h =
      let rrs = lookup_records q.name q.type s.records in
      elim (Bool-cases (blocked q.name s.filter)) [
        | inl e ↦ rw (answer_query, e) (msg, h, error_reply-IsReply rcode_nx_domain msg)
        | inr e ↦ elim (Bool-cases (length rrs == 0)) [
          | inl f ↦ rw (answer_query, e, f) (resolving-Good src msg q joined _ s h)
          | inr f ↦ rw (answer_query, e, f) (msg, h, record_reply-IsReply msg rrs)
        ]
      ]

  accept-Good :
      (src : Source) (joined : Option (Result Message)) (s : Server World Net)
      → Good (accept net crypto anchors cfg marshal parse_cidr parse_ip holds src raw joined s)
  unfolding accept
  accept-Good src joined s = elim (Result-cases (parse_message raw)) [
    | inl (text, e) ↦ rw (accept, e) tt
    | inr (msg, e) ↦ elim (Option-cases (first_question msg.questions)) [
      | inl f ↦ rw (accept, e, f) tt
      | inr (q, f) ↦ rw (accept, e, f) (answer_query-Good src msg q joined _ e)
    ]
  ]

  deny-Good :
      (s : Server World Net) (r : Result Message)
      → parse_message raw ≡ r
      → Good (done s (deny net crypto anchors cfg marshal parse_cidr parse_ip holds r))
  deny-Good s (err e) h = tt
  deny-Good s (ok msg) h = unfold refused in (msg, h, error_reply-IsReply rcode_refused msg)

  limit-Good :
      (limiter : Option RateLimiter) (src : Source) (joined : Option (Result Message))
      (s : Server World Net)
      → Good
          (limit net crypto anchors cfg marshal parse_cidr parse_ip holds limiter src raw joined s)
  unfolding limit
  limit-Good none src joined s = accept-Good src joined s
  limit-Good (some r) src joined s =
      elim (Bool-cases (allow src.ip (net.clock s.upstream.world) r).1) [
        | inl e ↦ rw (limit, e) (accept-Good src joined _)
        | inr e ↦ rw (limit, e) tt
      ]

  -- Where no other call writes into the message that a resolution ends with, what handleQuery writes
  -- has the ID and the questions of the request in the packet, and the flag of a response.
  handle_query-IsReply :
      (src : Source) (joined : Option (Result Message)) (s s' : Server World Net) (m : Message)
      → handle_query net crypto anchors cfg marshal parse_cidr parse_ip holds src raw joined s
        ≡ done s' (some m)
      → (req : Message) × (parse_message raw ≡ ok req) × IsReply req m
  unfolding handle_query
  handle_query-IsReply src joined s s' m h =
      elim (Bool-cases (allowed parse_cidr parse_ip holds src.ip s.acl)) [
        | inl e ↦ subst Good (rw (handle_query, e) at h) (limit-Good s.limiter src joined s)
        | inr e ↦ subst Good (rw (handle_query, e) at h) (deny-Good s (parse_message raw) refl)
      ]
