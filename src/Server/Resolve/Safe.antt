-- ===== src/Server/Resolve/Safe.antt =====
-- Every resolution keeps the limits of the pools and a well-formed cache.
use km_resolv.Prelude.{
  ℕ, zero, suc, Bool-cases, Option-cases, Result-cases, inl, inr, Option, none, some, List, [], ◌∷◌,
  ◌++◌, Text, codes, if◌then◌else◌, has_prefix, ◌==◌, nat_eq, list_eq, length,
}
use km_resolv.Dns.{Rr, Message, type_a, type_aaaa, type_cname}
use km_resolv.Dns.Parse.{name_at}
use km_resolv.Cache.{is_negative}
use km_resolv.Cache.Keeps.{get-Keeps}
use km_resolv.Config.{Config}
use km_resolv.Server.Answers.{extract_ns, has_terminal_records}
use km_resolv.Server.Query.{Network, Upstream, query}
use km_resolv.Server.Verdict.{is_nxdomain}
use km_resolv.Server.Query.Safe.{
  Holds, Safe, query-Safe, query_dot-Safe, query_forwarder-Safe, query_doh-Safe,
}
use km_resolv.Server.Forward.{ask_upstream, resolve_via_servers, forwarder_addr, dot_addr}
use km_resolv.Server.Iterate.{
  Step, root_servers, first_cname, extract_glue, recall, resolve_ns_addr, resolve_ns, collect_ns,
  resolve_ns_parallel, follow_cname, answered, referred, digested, try_servers, resolve_at,
}

module _ {World : Type 0} (net : Network World) (cfg : Config) (udp tcp : ℕ) where
  abbrev pub Keeps {ℓ} : {A : Type ℓ} → (Upstream World → Upstream World × A) → Type 0
  Keeps f = Safe net cfg udp tcp f

  pub at_world :
      (s : Upstream World) (w : World) → Holds udp tcp s → Holds udp tcp (record s { world = w })
  at_world s w v = record {
    pool = v.pool;
    tcp_pool = v.tcp_pool;
    dot_pool = v.dot_pool;
    cache = v.cache;
  }

  ask_upstream-Keeps :
      (upstream name : Text) (qtype : ℕ) → Keeps (ask_upstream net cfg upstream name qtype)
  unfolding ask_upstream
  ask_upstream-Keeps upstream name qtype s v =
      elim (Bool-cases (has_prefix upstream (codes "https://"))) [
        | inl e ↦ rw (ask_upstream, e) (query_doh-Safe net cfg udp tcp upstream name qtype s v)
        | inr e ↦ elim (Bool-cases (has_prefix upstream (codes "tls://"))) [
          | inl f ↦
              rw (ask_upstream, e, f)
                (query_dot-Safe net cfg udp tcp (dot_addr net upstream) name qtype s v)
          | inr f ↦
              rw (ask_upstream, e, f)
                (query_forwarder-Safe net cfg udp tcp (forwarder_addr net upstream) name qtype s v)
        ]
      ]

  pub resolve_via_servers-Keeps :
      (name : Text) (qtype : ℕ) (servers : List Text)
      → Keeps (resolve_via_servers net cfg name qtype servers)
  unfolding resolve_via_servers
  resolve_via_servers-Keeps name qtype [] s v = v
  resolve_via_servers-Keeps name qtype (upstream ∷ servers) s v =
      let h = ask_upstream-Keeps upstream name qtype s v in
      elim (Result-cases (ask_upstream net cfg upstream name qtype s).1) [
        | inr (m, e) ↦ rw (resolve_via_servers, e) h
        | inl (text, e) ↦ elim (Bool-cases (is_nxdomain text)) [
          | inl f ↦ rw (resolve_via_servers, e, f) h
          | inr f ↦
              rw (resolve_via_servers, e, f) (resolve_via_servers-Keeps name qtype servers _ h)
        ]
      ]

  pub recall-Keeps : (name : Text) (qtype : ℕ) → Keeps (recall net cfg name qtype)
  unfolding recall
  recall-Keeps name qtype s v =
      elim (Bool-cases (is_negative (name, qtype) (net.clock s.world) s.cache)) [
        | inl e ↦ rw (recall, e) v
        | inr e ↦
            rw (recall, e)
              (record {
                pool = v.pool;
                tcp_pool = v.tcp_pool;
                dot_pool = v.dot_pool;
                cache =
                    (get-Keeps (name, qtype) cfg.resolver.cache.prefetch (net.clock s.world) s.cache
                      v.cache).valid;
              })
      ]

  module _ (deeper : Text → ℕ → List Text → Step net)
      (safe : (name : Text) (qtype : ℕ) (servers : List Text)
        → Keeps (deeper name qtype servers)) where
    resolve_ns_addr-Keeps :
        (ns : Text) (qtype : ℕ) → Keeps (resolve_ns_addr net cfg deeper ns qtype)
    unfolding resolve_ns_addr
    resolve_ns_addr-Keeps ns qtype s v =
        let h = recall-Keeps ns qtype s v in
        elim (Option-cases (recall net cfg ns qtype s).1) [
          | inr (answer, e) ↦ rw (resolve_ns_addr, e) h
          | inl e ↦ rw (resolve_ns_addr, e) (safe ns qtype root_servers _ h)
        ]

    resolve_ns-Keeps : (ns : Text) → Keeps (resolve_ns net cfg deeper ns)
    unfolding resolve_ns
    resolve_ns-Keeps ns s v =
        let first : ℕ = if net.a_first ns s.world then type_a else type_aaaa in
        resolve_ns_addr-Keeps ns _ _ (resolve_ns_addr-Keeps ns first s v)

    collect_ns-Keeps :
        (names all : List Text) (last : Option Text) (s : Upstream World)
        → Holds udp tcp s
        → Holds udp tcp (collect_ns net cfg deeper names all last s).0
    unfolding collect_ns
    collect_ns-Keeps [] all last s v = v
    collect_ns-Keeps (ns ∷ names) all last s v =
        let h = resolve_ns-Keeps ns s v in
        elim (Bool-cases ((resolve_ns net cfg deeper ns s).1 == [])) [
          | inl e ↦ rw (collect_ns, e) (collect_ns-Keeps names all _ _ h)
          | inr e ↦ rw (collect_ns, e) (collect_ns-Keeps names _ last _ h)
        ]

    pub resolve_ns_parallel-Keeps :
        (names : List Text) → Keeps (resolve_ns_parallel net cfg deeper names)
    unfolding resolve_ns_parallel
    resolve_ns_parallel-Keeps names s v =
        let (w, order) = net.shuffle names s.world in
        let done = collect_ns net cfg deeper order [] none (record s { world = w }) in
        let h = collect_ns-Keeps order [] none (record s { world = w }) (at_world s w v) in
        elim (Bool-cases (done.1 == [])) [
          | inl e ↦ rw (resolve_ns_parallel, e) h
          | inr e ↦ rw (resolve_ns_parallel, e) h
        ]

    follow_cname-Keeps :
        (resp : Message) (rr : Rr) (qtype : ℕ) → Keeps (follow_cname net cfg deeper resp rr qtype)
    unfolding follow_cname
    follow_cname-Keeps resp rr qtype s v = elim (Result-cases (name_at resp.raw rr.offset)) [
      | inl (text, e) ↦ rw (follow_cname, e) v
      | inr (target, e) ↦ elim (Bool-cases (has_terminal_records resp.answers target qtype)) [
        | inl f ↦ rw (follow_cname, e, f) v
        | inr f ↦ rw (follow_cname, e, f) (resolve_ns_addr-Keeps target qtype s v)
      ]
    ]

    answered-Keeps : (qtype : ℕ) (resp : Message) → Keeps (answered net cfg deeper qtype resp)
    unfolding answered
    answered-Keeps qtype resp s v =
        elim (Option-cases (if qtype == type_cname then none else first_cname resp.answers)) [
          | inl e ↦ rw (answered, e) v
          | inr (rr, e) ↦ rw (answered, e) (follow_cname-Keeps resp rr qtype s v)
        ]

    referred-Keeps :
        (name : Text) (qtype : ℕ) (resp : Message) (continue : Text → Step net)
        → ((e : Text) → Keeps (continue e))
        → Keeps (referred net cfg deeper name qtype resp continue)
    unfolding referred
    referred-Keeps name qtype resp continue next s v =
        let names = extract_ns resp.raw resp.authority in
        let glue = extract_glue net resp.additional names in
        let found = resolve_ns_parallel net cfg deeper names s in
        let h = resolve_ns_parallel-Keeps names s v in
        elim (Bool-cases (names == [])) [
          | inl e ↦ rw (referred, e) v
          | inr e ↦ elim (Bool-cases (glue == [])) [
            | inr f ↦ rw (referred, e, f) (safe name qtype glue s v)
            | inl f ↦ elim (Result-cases found.1) [
              | inl (text, g) ↦ rw (referred, e, f, g) (next text found.0 h)
              | inr (ips, g) ↦ rw (referred, e, f, g) (safe name qtype ips found.0 h)
            ]
          ]
        ]

    try_servers-Keeps :
        (name : Text) (qtype : ℕ) (servers : List Text) (last : Option Text)
        → Keeps (try_servers net cfg deeper name qtype servers last)
    unfolding try_servers digested
    try_servers-Keeps name qtype [] last s v = v
    try_servers-Keeps name qtype (sv ∷ servers) last s v =
        let got = query net cfg (sv ++ codes ":53") name qtype s in
        let h = query-Safe net cfg udp tcp (sv ++ codes ":53") name qtype s v in
        elim (Result-cases got.1) [
          | inl (text, e) ↦
              rw (try_servers, e) (try_servers-Keeps name qtype servers (some text) got.0 h)
          | inr (resp, e) ↦ elim (Bool-cases (length resp.answers == 0)) [
            | inl f ↦
                rw (try_servers, e, digested, f)
                  (referred-Keeps name qtype resp
                    (λ text. try_servers net cfg deeper name qtype servers (some text))
                    (λ text. try_servers-Keeps name qtype servers (some text)) got.0 h)
            | inr f ↦ rw (try_servers, e, digested, f) (answered-Keeps qtype resp got.0 h)
          ]
        ]

  pub resolve_at-Keeps :
      (left : ℕ) (name : Text) (qtype : ℕ) (servers : List Text)
      → Keeps (resolve_at net cfg left name qtype servers)
  unfolding resolve_at
  resolve_at-Keeps zero name qtype servers s v = v
  resolve_at-Keeps (suc left) name qtype servers s v =
      let (w, shuffled) = net.shuffle servers s.world in
      try_servers-Keeps (resolve_at net cfg left) (resolve_at-Keeps left) name qtype shuffled none
        (record s { world = w }) (at_world s w v)
