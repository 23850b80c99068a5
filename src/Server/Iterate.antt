-- ===== src/Server/Iterate.antt =====
-- internal/server/resolver.go, the iterative resolution from the root servers. The lookups that
-- run at the same time in the source run one after another here, in an order that `net` chooses:
-- one of the schedules that the source allows.
use km_resolv.Prelude.{
  ℕ, zero, suc, ◌+◌, not, ◌&&◌, Option, none, some, List, [], ◌∷◌, ◌++◌, Text, codes, Result, ok,
  err, ◌==◌, nat_eq, list_eq, length, any, to_lower, if◌then◌else◌,
}
use km_resolv.Dns.{Rr, Message, type_a, type_aaaa, type_cname}
use km_resolv.Dns.Parse.{name_at}
use km_resolv.Cache.{get, is_negative}
use km_resolv.Config.{ℤ, pos, negsuc, Config}
use km_resolv.Server.Answers.{extract_ns, has_terminal_records, prepend_cname}
use km_resolv.Server.Query.{Network, Upstream, query}
use km_resolv.Server.Verdict.{decimal, nxdomain_error}

abbrev pub root_servers : List Text
root_servers =
    codes "198.41.0.4"
    ∷ codes "170.247.170.2"
    ∷ codes "192.33.4.12"
    ∷ codes "199.7.91.13"
    ∷ codes "192.203.230.10"
    ∷ codes "192.5.5.241"
    ∷ codes "192.112.36.4"
    ∷ codes "198.97.190.53"
    ∷ codes "192.36.148.17"
    ∷ codes "192.58.128.30"
    ∷ codes "193.0.14.129"
    ∷ codes "199.7.83.42"
    ∷ codes "202.12.27.33"
    ∷ []

-- dns.ParseA
unfoldable pub parse_a : Text → Option Text
parse_a (a ∷ b ∷ c ∷ d ∷ []) = some (
    decimal a
    ++ (codes "." ++ (decimal b ++ (codes "." ++ (decimal c ++ (codes "." ++ decimal d))))))
parse_a other = none

-- the address of an A record, or of another record none
abbrev pub a_of : Rr → List Text
a_of rr =
    if rr.type == type_a then elim (parse_a rr.rdata) [ none ↦ [] | some ip ↦ ip ∷ [] ] else []

unfoldable pub a_ips : List Rr → List Text
a_ips [] = []
a_ips (rr ∷ answers) = a_of rr ++ a_ips answers

-- the first CNAME of the answers
unfoldable pub first_cname : List Rr → Option Rr
first_cname [] = none
first_cname (rr ∷ answers) = if rr.type == type_cname then some rr else first_cname answers

-- how many levels of referrals may be entered, the first included
unfoldable pub levels : ℤ → ℕ
levels (pos max_depth) = max_depth + 1
levels (negsuc n) = 0

-- the text of an error that may be nil, under %w
unfoldable pub wrapped : Option Text → Text
wrapped none = codes "%!w(<nil>)"
wrapped (some e) = e

module _ {World : Type 0} (net : Network World) where
  abbrev pub Step : Type 0
  Step = Upstream World → Upstream World × Result Message

  abbrev pub aaaa_of : Rr → List Text
  aaaa_of rr =
      if rr.type == type_aaaa && length rr.rdata == 16
      then (codes "[" ++ (net.show_ip rr.rdata ++ codes "]")) ∷ []
      else []

  unfoldable pub aaaa_ips : List Rr → List Text
  aaaa_ips [] = []
  aaaa_ips (rr ∷ answers) = aaaa_of rr ++ aaaa_ips answers

  -- extractGlue, over the additional section
  unfoldable pub extract_glue : List Rr → List Text → List Text
  extract_glue [] ns_names = []
  extract_glue (rr ∷ additional) ns_names =
      let rest = extract_glue additional ns_names in
      if any (λ n. to_lower n == to_lower rr.name) ns_names
      then a_of rr ++ (aaaa_of rr ++ rest)
      else rest

  -- IsNegative, then Get: an error, a message, or none if the cache knows nothing
  unfoldable pub recall :
      Config → Text → ℕ → Upstream World → Upstream World × Option (Result Message)
  recall cfg name qtype s =
      let now = net.clock s.world in
      let (cache, found, _) = get (name, qtype) cfg.resolver.cache.prefetch now s.cache in
      if is_negative (name, qtype) now s.cache
      then (s, some (err (nxdomain_error name)))
      else (record s { cache = cache }, elim found [ none ↦ none | some m ↦ some (ok m) ])

  -- The addresses in an answer, none if it is an error.
  abbrev pub ips_of : ℕ → Result Message → List Text
  ips_of qtype (err e) = []
  ips_of qtype (ok m) = if qtype == type_a then a_ips m.answers else aaaa_ips m.answers

  module _ (cfg : Config) where
    -- What follows takes resolveAt one level down as `deeper`: a name, a type and servers.
    module _ (deeper : Text → ℕ → List Text → Step) where
      unfoldable pub resolve_ns_addr : Text → ℕ → Step
      resolve_ns_addr ns qtype s =
          let (s', known) = recall cfg ns qtype s in
          elim known [ some answer ↦ (s', answer) | none ↦ deeper ns qtype root_servers s' ]

      -- The addresses of one server: of the kind that arrives first, or of the other if it has none.
      unfoldable pub resolve_ns : Text → Upstream World → Upstream World × List Text
      resolve_ns ns s =
          let first : ℕ = if net.a_first ns s.world then type_a else type_aaaa in
          let second : ℕ = if net.a_first ns s.world then type_aaaa else type_a in
          let (s1, one) = resolve_ns_addr ns first s in
          let (s2, two) = resolve_ns_addr ns second s1 in
          (s2, if ips_of first one == [] then ips_of second two else ips_of first one)

      -- the loop of resolveNSParallel: all the addresses, and the last error
      unfoldable pub collect_ns :
          List Text
          → List Text
          → Option Text
          → Upstream World
          → Upstream World × List Text × Option Text
      collect_ns [] all last s = (s, all, last)
      collect_ns (ns ∷ names) all last s =
          let (s', ips) = resolve_ns ns s in
          if ips == []
          then collect_ns names all (some (codes "no IPs found for NS " ++ ns)) s'
          else collect_ns names (all ++ ips) last s'

      unfoldable pub resolve_ns_parallel :
          List Text → Upstream World → Upstream World × Result (List Text)
      resolve_ns_parallel names s =
          let (w, order) = net.shuffle names s.world in
          let (s', all, last) = collect_ns order [] none (record s { world = w }) in
          if all == []
          then (
            s',
            elim last [
              | some e ↦ err (codes "all NS resolutions failed: " ++ e)
              | none ↦ err (codes "no IPs found for any NS")
            ],
          )
          else (s', ok all)

      -- the rest of a round, once an answer has a CNAME
      unfoldable pub follow_cname : Message → Rr → ℕ → Step
      follow_cname resp rr qtype s = elim (name_at resp.raw rr.offset) [
        | err e ↦ (s, err (codes "cname parse: " ++ e))
        | ok target ↦
            if has_terminal_records resp.answers target qtype
            then (s, ok resp)
            else let (s', inner) = resolve_ns_addr target qtype s in
              (s', elim inner [ err e ↦ err e | ok m ↦ ok (prepend_cname resp rr m) ])
      ]

      -- the round of a server that has given answers
      unfoldable pub answered : ℕ → Message → Step
      answered qtype resp s =
          elim (if qtype == type_cname then none else first_cname resp.answers) [
            | none ↦ (s, ok resp)
            | some rr ↦ follow_cname resp rr qtype s
          ]

      -- the round of a server that has given none; `continue` is the next round
      unfoldable pub referred : Text → ℕ → Message → (Text → Step) → Step
      referred name qtype resp continue s =
          let names = extract_ns resp.raw resp.authority in
          let glue = extract_glue resp.additional names in
          let (s', ips) = resolve_ns_parallel names s in
          if names == []
          then (s, ok resp)
          else if not (glue == [])
          then deeper name qtype glue s
          else elim ips [ err e ↦ continue e s' | ok found ↦ deeper name qtype found s' ]

      unfoldable pub digested : Text → ℕ → Message → (Text → Step) → Step
      digested name qtype resp continue s =
          if length resp.answers == 0
          then referred name qtype resp continue s
          else answered qtype resp s

      -- the loop of resolveAt over the servers, with the last error
      unfoldable pub try_servers : Text → ℕ → List Text → Option Text → Step
      try_servers name qtype [] last s =
          (s, err (codes "all servers failed for " ++ (name ++ (codes ": " ++ wrapped last))))
      try_servers name qtype (sv ∷ servers) last s =
          let continue : Text → Step = λ e. try_servers name qtype servers (some e) in
          let (s', got) = query net cfg (sv ++ codes ":53") name qtype s in
          elim got [ err e ↦ continue e s' | ok resp ↦ digested name qtype resp continue s' ]

    -- resolveAt, by the levels that are left: none where the depth is above the limit
    unfoldable pub resolve_at : ℕ → Text → ℕ → List Text → Step
    resolve_at zero name qtype servers s =
        (s, err (codes "max referral depth exceeded resolving " ++ name))
    resolve_at (suc left) name qtype servers s =
        let (w, shuffled) = net.shuffle servers s.world in
        try_servers (resolve_at left) name qtype shuffled none (record s { world = w })

    -- resolveAt(name, qtype, RootServers, 0)
    unfoldable pub resolve_from_root : Text → ℕ → Step
    resolve_from_root name qtype s =
        resolve_at (levels cfg.resolver.max_depth) name qtype root_servers s
