-- ===== src/Server/Handle/Counts.antt =====
-- The counters of the server and its log, over any sequence of packets.
use km_resolv.Prelude.{
  ℕ, ◌+◌, ◌%◌, ◌^◌, ◌≡◌, refl, ◌∙◌, ap, Bool, true, false, Bool-cases, Option-cases, Result-cases,
  inl, inr, ◌⊎◌, Option, none, some, List, [], ◌∷◌, ◌++◌, Text, codes, Result, ok, err, arith,
  subst, ◌==◌, nat_eq, list_eq, length, length-append, select,
}
use km_resolv.Dns.{Question, Message}
use km_resolv.Dns.Parse.{parse_message}
use km_resolv.Filter.{blocked}
use km_resolv.Records.{lookup_records}
use km_resolv.Config.{Config}
use km_resolv.Dnssec.Verify.{Crypto}
use km_resolv.Dnssec.Zone.{Keys}
use km_resolv.Server.QueryLog.{QueryEntry, QueryLog, add, add_all}
use km_resolv.Server.RateLimit.{RateLimiter, allow}
use km_resolv.Server.Acl.{allowed}
use km_resolv.Server.Query.{Network, Upstream}
use km_resolv.Server.Resolve.{resolve}
use km_resolv.Server.Handle.{
  Server, Source, Handled, done, crashed, log_query, conclude, answer_by_resolving, answer_query,
  accept, limit, handle_query, first_question, add64,
}

abbrev pub with_status : Text → List QueryEntry → ℕ
with_status status es = length (select (λ e. e.status == status) es)

-- The counter has moved by `k`, in 64 bits.
abbrev pub Moved : ℕ → ℕ → ℕ → Type 0
Moved n k n' = n' % 2 ^ 64 ≡ (n + k) % 2 ^ 64

-- A packet from a source, with the call it may join, at a state of the world.
pub record Packet (World : Type 0) : Type 0 where
  pub src : Source
  pub raw : Text
  pub joined : Option (Result Message)
  pub world : World

module _ {World Net Ip : Type 0} (net : Network World) (crypto : Crypto) (anchors : Keys)
    (cfg : Config) (marshal : QueryEntry → Option Text) (parse_cidr : Text → Option Net)
    (parse_ip : Text → Option Ip) (holds : Net → Ip → Bool) where
  -- The log has grown by some entries, and the counters by as many queries, by those of them that
  -- were blocked and by those that were answered from the cache.
  pub record Logged (s s' : Server World Net) : Type 0 where
    pub entries : List QueryEntry
    pub log : s'.qlog ≡ add_all marshal entries s.qlog
    pub total : Moved s.total_queries (length entries) s'.total_queries
    pub blocked : Moved s.blocked (with_status (codes "blocked") entries) s'.blocked
    pub hits : Moved s.cache_hits (with_status (codes "cached") entries) s'.cache_hits

  -- A query behind the checks: one entry, and no query more.
  record Entered (s s' : Server World Net) : Type 0 where
    entry : QueryEntry
    log : s'.qlog ≡ add marshal entry s.qlog
    total : s'.total_queries ≡ s.total_queries
    blocked : Moved s.blocked (with_status (codes "blocked") (entry ∷ [])) s'.blocked
    hits : Moved s.cache_hits (with_status (codes "cached") (entry ∷ [])) s'.cache_hits

  abbrev IfDone : (Server World Net → Type 0) → Handled World Net → Type 0
  IfDone P (done s reply) = P s
  IfDone P crashed = Unit

  conclude-Entered :
      (start : ℕ) (src : Source) (msg : Message) (q : Question) (cached : Bool) (r : Result Message)
      (s : Server World Net)
      → IfDone (Entered s) (
          conclude net crypto anchors cfg marshal parse_cidr parse_ip holds start src msg q cached r
            s)
  unfolding conclude log_query
  conclude-Entered start src msg q cached (err e) s = record {
    entry = _;
    log = refl;
    total = refl;
    blocked = omega arith;
    hits = omega arith;
  }
  conclude-Entered start src msg q true (ok resp) s = record {
    entry = _;
    log = refl;
    total = refl;
    blocked = omega arith;
    hits = omega arith;
  }
  conclude-Entered start src msg q false (ok resp) s = record {
    entry = _;
    log = refl;
    total = refl;
    blocked = omega arith;
    hits = omega arith;
  }

  -- The upstream side and the latencies are not part of what is counted.
  at_upstream :
      (s : Server World Net) (u : Upstream World) (l : ℕ) (h : Handled World Net)
      → IfDone (Entered (record s { upstream = u; total_latency_ms = l })) h
      → IfDone (Entered s) h
  at_upstream s u l (done s' reply) v = record {
    entry = v.entry;
    log = v.log;
    total = v.total;
    blocked = v.blocked;
    hits = v.hits;
  }
  at_upstream s u l crashed v = tt

  resolving-Entered :
      (src : Source) (msg : Message) (q : Question) (joined : Option (Result Message)) (start : ℕ)
      (s : Server World Net)
      → IfDone (Entered s) (
          answer_by_resolving net crypto anchors cfg marshal parse_cidr parse_ip holds start src msg
            q joined s)
  unfolding answer_by_resolving
  resolving-Entered src msg q joined start s =
      let got = resolve net crypto anchors cfg q.name q.type joined s.upstream in
      elim (Option-cases got.1) [
        | inl e ↦ rw (answer_by_resolving, e) tt
        | inr (r, e) ↦
            rw (answer_by_resolving, e)
              (at_upstream s got.0 _ _ (conclude-Entered start src msg q got.2 r _))
      ]

  answer_query-Entered :
      (src : Source) (msg : Message) (q : Question) (joined : Option (Result Message))
      (s : Server World Net)
      → IfDone
          (Entered s)
          (answer_query net crypto anchors cfg marshal parse_cidr parse_ip holds src msg q joined s)
  unfolding answer_query log_query
  answer_query-Entered src msg q joined s =
      let rrs = lookup_records q.name q.type s.records in
      elim (Bool-cases (blocked q.name s.filter)) [
        | inl e ↦
            rw (answer_query, e)
              (record {
                entry = _;
                log = refl;
                total = refl;
                blocked = omega arith;
                hits = omega arith;
              })
        | inr e ↦ elim (Bool-cases (length rrs == 0)) [
          | inl f ↦ rw (answer_query, e, f) (resolving-Entered src msg q joined _ s)
          | inr f ↦
              rw (answer_query, e, f)
                (record {
                  entry = _;
                  log = refl;
                  total = refl;
                  blocked = omega arith;
                  hits = omega arith;
                })
        ]
      ]

  none_logged : (s : Server World Net) → Logged s s
  unfolding add_all
  none_logged s = record {
    entries = [];
    log = refl;
    total = omega arith;
    blocked = omega arith;
    hits = omega arith;
  }

  counted :
      (s : Server World Net) (h : Handled World Net)
      → IfDone (Entered (record s { total_queries = add64 s.total_queries 1 })) h
      → IfDone (Logged s) h
  unfolding add_all
  counted s (done s' reply) v = record {
    entries = v.entry ∷ [];
    log = v.log;
    total = omega (arith, v.total);
    blocked = v.blocked;
    hits = v.hits;
  }
  counted s crashed v = tt

  accept-Logged :
      (src : Source) (raw : Text) (joined : Option (Result Message)) (s : Server World Net)
      → IfDone
          (Logged s)
          (accept net crypto anchors cfg marshal parse_cidr parse_ip holds src raw joined s)
  unfolding accept
  accept-Logged src raw joined s = elim (Result-cases (parse_message raw)) [
    | inl (text, e) ↦ rw (accept, e) (none_logged s)
    | inr (msg, e) ↦ elim (Option-cases (first_question msg.questions)) [
      | inl f ↦ rw (accept, e, f) (none_logged s)
      | inr (q, f) ↦ rw (accept, e, f) (counted s _ (answer_query-Entered src msg q joined _))
    ]
  ]

  -- the limiter is not part of what is counted
  at_limiter :
      (s : Server World Net) (r : Option RateLimiter) (h : Handled World Net)
      → IfDone (Logged (record s { limiter = r })) h
      → IfDone (Logged s) h
  at_limiter s r (done s' reply) v = record {
    entries = v.entries;
    log = v.log;
    total = v.total;
    blocked = v.blocked;
    hits = v.hits;
  }
  at_limiter s r crashed v = tt

  limit-Logged :
      (limiter : Option RateLimiter) (src : Source) (raw : Text) (joined : Option (Result Message))
      (s : Server World Net)
      → IfDone
          (Logged s)
          (limit net crypto anchors cfg marshal parse_cidr parse_ip holds limiter src raw joined s)
  unfolding limit
  limit-Logged none src raw joined s = accept-Logged src raw joined s
  limit-Logged (some r) src raw joined s =
      let r' = some (allow src.ip (net.clock s.upstream.world) r).0 in
      elim (Bool-cases (allow src.ip (net.clock s.upstream.world) r).1) [
        | inl e ↦
            rw (limit, e)
              (at_limiter s r' _ (accept-Logged src raw joined (record s { limiter = r' })))
        | inr e ↦
            rw (limit, e)
              (at_limiter s r' (done (record s { limiter = r' }) none)
                (none_logged (record s { limiter = r' })))
      ]

  handle_query-Logged :
      (src : Source) (raw : Text) (joined : Option (Result Message)) (s : Server World Net)
      → IfDone
          (Logged s)
          (handle_query net crypto anchors cfg marshal parse_cidr parse_ip holds src raw joined s)
  unfolding handle_query
  handle_query-Logged src raw joined s =
      elim (Bool-cases (allowed parse_cidr parse_ip holds src.ip s.acl)) [
        | inl e ↦ rw (handle_query, e) (limit-Logged s.limiter src raw joined s)
        | inr e ↦ rw (handle_query, e) (none_logged s)
      ]

  abbrev at_packet : Packet World → Server World Net → Server World Net
  at_packet p s = record s { upstream = record s.upstream { world = p.world } }

  -- handleQuery on one packet after another; `none` is the end of the program
  unfoldable pub run_packets : List (Packet World) → Server World Net → Option (Server World Net)
  run_packets [] s = some s
  run_packets (p ∷ packets) s =
      elim (handle_query net crypto anchors cfg marshal parse_cidr parse_ip holds p.src p.raw
        p.joined (at_packet p s)) [ done s' reply ↦ run_packets packets s' | crashed ↦ none ]

  Handled-cases :
      (h : Handled World Net)
      → ((s : Server World Net) × (reply : Option Message) × (h ≡ done s reply)) ⊎ (h ≡ crashed)
  Handled-cases (done s reply) = inl (s, reply, refl)
  Handled-cases crashed = inr refl

  add_all-append :
      (es fs : List QueryEntry) (l : QueryLog)
      → add_all marshal fs (add_all marshal es l) ≡ add_all marshal (es ++ fs) l
  unfolding add_all
  add_all-append [] fs l = refl
  add_all-append (e ∷ es) fs l = add_all-append es fs (add marshal e l)

  with_status-append :
      (status : Text) (es fs : List QueryEntry)
      → with_status status (es ++ fs) ≡ with_status status es + with_status status fs
  with_status-append status [] fs = omega arith
  with_status-append status (e ∷ es) fs = ground (arith, with_status-append status es fs)

  Logged-trans : {a b c : Server World Net} → Logged a b → Logged b c → Logged a c
  Logged-trans {a = a} v w = record {
    entries = v.entries ++ w.entries;
    log = w.log ∙ ap (add_all marshal w.entries) v.log ∙ add_all-append v.entries w.entries a.qlog;
    total = omega (arith, v.total, w.total, length-append v.entries w.entries);
    blocked =
        omega
          (arith, v.blocked, w.blocked, with_status-append (codes "blocked") v.entries w.entries);
    hits = omega (arith, v.hits, w.hits, with_status-append (codes "cached") v.entries w.entries);
  }

  at_world : (s s' : Server World Net) (p : Packet World) → Logged (at_packet p s) s' → Logged s s'
  at_world s s' p v = record {
    entries = v.entries;
    log = v.log;
    total = v.total;
    blocked = v.blocked;
    hits = v.hits;
  }

  -- Over any packets, from anyone, at any times and with whatever the network does: the log grows by
  -- one entry for each query that is counted, and the counters of blocked queries and of answers
  -- from the cache move by the entries of that status. All counters are of 64 bits.
  pub run_packets-Logged :
      (packets : List (Packet World)) (s s' : Server World Net)
      → run_packets packets s ≡ some s'
      → Logged s s'
  unfolding run_packets
  run_packets-Logged [] s s' h = subst (Logged s) (ground (arith, h)) (none_logged s)
  run_packets-Logged (p ∷ packets) s s' h =
      let step =
        handle_query net crypto anchors cfg marshal parse_cidr parse_ip holds p.src p.raw p.joined
          (at_packet p s) in
      let logged = handle_query-Logged p.src p.raw p.joined (at_packet p s) in
      elim (Handled-cases step) [
        | inr e ↦ absurd (ground (arith, h, e))
        | inl (t, reply, e) ↦
            let first : Logged (at_packet p s) t =
              subst (IfDone (Logged (at_packet p s))) e logged in
            Logged-trans (at_world s t p first)
              (run_packets-Logged packets t s' (rw (run_packets, e) at h))
      ]
