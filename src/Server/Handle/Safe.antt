-- ===== src/Server/Handle/Safe.antt =====
-- What handleQuery leaves as it is: the filter and the records, and the limits of the pools and of
-- the cache.
use km_resolv.Prelude.{
  ℕ, ◌≡◌, refl, ◌∙◌, Bool, true, false, Bool-cases, Option-cases, Result-cases, inl, inr, Option,
  none, some, Text, Result, ok, err, ◌==◌, nat_eq, length,
}
use km_resolv.Dns.{Question, Message}
use km_resolv.Dns.Parse.{parse_message}
use km_resolv.Filter.{blocked}
use km_resolv.Records.{lookup_records}
use km_resolv.Config.{Config}
use km_resolv.Dnssec.Verify.{Crypto}
use km_resolv.Dnssec.Zone.{Keys}
use km_resolv.Server.QueryLog.{QueryEntry}
use km_resolv.Server.RateLimit.{RateLimiter, allow}
use km_resolv.Server.Acl.{allowed}
use km_resolv.Server.Query.{Network}
use km_resolv.Server.Query.Safe.{Holds}
use km_resolv.Server.Resolve.{resolve}
use km_resolv.Server.Resolve.Bounded.{resolve-Fine}
use km_resolv.Server.Handle.{
  Server, Source, Handled, done, crashed, log_query, conclude, answer_by_resolving, answer_query,
  accept, limit, handle_query, first_question,
}

module _ {World Net Ip : Type 0} (net : Network World) (crypto : Crypto) (anchors : Keys)
    (cfg : Config) (marshal : QueryEntry → Option Text) (parse_cidr : Text → Option Net)
    (parse_ip : Text → Option Ip) (holds : Net → Ip → Bool) (udp tcp : ℕ) where
  pub record Kept (s s' : Server World Net) : Type 0 where
    pub filter : s'.filter ≡ s.filter
    pub records : s'.records ≡ s.records
    pub upstream : Holds udp tcp s.upstream → Holds udp tcp s'.upstream

  abbrev pub IfKept : Server World Net → Handled World Net → Type 0
  IfKept s (done s' reply) = Kept s s'
  IfKept s crashed = Unit

  same : (s : Server World Net) → Kept s s
  same s = record { filter = refl; records = refl; upstream = λ v. v }

  conclude-Kept :
      (start : ℕ) (src : Source) (msg : Message) (q : Question) (cached : Bool) (r : Result Message)
      (s : Server World Net)
      → IfKept s (
          conclude net crypto anchors cfg marshal parse_cidr parse_ip holds start src msg q cached r
            s)
  unfolding conclude log_query
  conclude-Kept start src msg q cached (err e) s = record {
    filter = refl;
    records = refl;
    upstream = λ v. v;
  }
  conclude-Kept start src msg q true (ok resp) s = record {
    filter = refl;
    records = refl;
    upstream = λ v. v;
  }
  conclude-Kept start src msg q false (ok resp) s = record {
    filter = refl;
    records = refl;
    upstream = λ v. v;
  }

  -- a handler that starts from another server with the same filter and records
  from : (s t : Server World Net) (h : Handled World Net) → Kept s t → IfKept t h → IfKept s h
  from s t (done s' reply) k v = record {
    filter = v.filter ∙ k.filter;
    records = v.records ∙ k.records;
    upstream = λ h. v.upstream (k.upstream h);
  }
  from s t crashed k v = tt

  resolving-Kept :
      (src : Source) (msg : Message) (q : Question) (joined : Option (Result Message)) (start : ℕ)
      (s : Server World Net)
      → IfKept s (
          answer_by_resolving net crypto anchors cfg marshal parse_cidr parse_ip holds start src msg
            q joined s)
  unfolding answer_by_resolving
  resolving-Kept src msg q joined start s =
      let got = resolve net crypto anchors cfg q.name q.type joined s.upstream in
      elim (Option-cases got.1) [
        | inl e ↦ rw (answer_by_resolving, e) tt
        | inr (r, e) ↦
            rw (answer_by_resolving, e)
              (from s _ _
                (record {
                  filter = refl;
                  records = refl;
                  upstream =
                      resolve-Fine net crypto anchors cfg udp tcp q.name q.type joined s.upstream;
                })
                (conclude-Kept start src msg q got.2 r _))
      ]

  answer_query-Kept :
      (src : Source) (msg : Message) (q : Question) (joined : Option (Result Message))
      (s : Server World Net)
      → IfKept s
          (answer_query net crypto anchors cfg marshal parse_cidr parse_ip holds src msg q joined s)
  unfolding answer_query log_query
  answer_query-Kept src msg q joined s =
      let rrs = lookup_records q.name q.type s.records in
      elim (Bool-cases (blocked q.name s.filter)) [
        | inl e ↦ rw (answer_query, e) (record { filter = refl; records = refl; upstream = λ v. v })
        | inr e ↦ elim (Bool-cases (length rrs == 0)) [
          | inl f ↦ rw (answer_query, e, f) (resolving-Kept src msg q joined _ s)
          | inr f ↦
              rw (answer_query, e, f) (record { filter = refl; records = refl; upstream = λ v. v })
        ]
      ]

  accept-Kept :
      (src : Source) (raw : Text) (joined : Option (Result Message)) (s : Server World Net)
      → IfKept s (accept net crypto anchors cfg marshal parse_cidr parse_ip holds src raw joined s)
  unfolding accept
  accept-Kept src raw joined s = elim (Result-cases (parse_message raw)) [
    | inl (text, e) ↦ rw (accept, e) (same s)
    | inr (msg, e) ↦ elim (Option-cases (first_question msg.questions)) [
      | inl f ↦ rw (accept, e, f) (same s)
      | inr (q, f) ↦
          rw (accept, e, f)
            (from s _ _ (record { filter = refl; records = refl; upstream = λ v. v })
              (answer_query-Kept src msg q joined _))
    ]
  ]

  limit-Kept :
      (r : Option RateLimiter) (src : Source) (raw : Text) (joined : Option (Result Message))
      (s : Server World Net)
      → IfKept s (limit net crypto anchors cfg marshal parse_cidr parse_ip holds r src raw joined s)
  unfolding limit
  limit-Kept none src raw joined s = accept-Kept src raw joined s
  limit-Kept (some r) src raw joined s =
      let r' = some (allow src.ip (net.clock s.upstream.world) r).0 in
      let s' : Server World Net = record s { limiter = r' } in
      let held : Kept s s' = record { filter = refl; records = refl; upstream = λ v. v } in
      elim (Bool-cases (allow src.ip (net.clock s.upstream.world) r).1) [
        | inl e ↦ rw (limit, e) (from s s' _ held (accept-Kept src raw joined s'))
        | inr e ↦ rw (limit, e) held
      ]

  pub handle_query-Kept :
      (src : Source) (raw : Text) (joined : Option (Result Message)) (s : Server World Net)
      → IfKept s
          (handle_query net crypto anchors cfg marshal parse_cidr parse_ip holds src raw joined s)
  unfolding handle_query
  handle_query-Kept src raw joined s =
      elim (Bool-cases (allowed parse_cidr parse_ip holds src.ip s.acl)) [
        | inl e ↦ rw (handle_query, e) (limit-Kept s.limiter src raw joined s)
        | inr e ↦ rw (handle_query, e) (same s)
      ]
