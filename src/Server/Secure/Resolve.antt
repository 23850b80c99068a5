-- ===== src/Server/Secure/Resolve.antt =====
-- internal/server/resolver.go: resolveAtDNSSEC.
use km_resolv.Prelude.{
  ℕ, zero, suc, not, Option, none, some, List, [], ◌∷◌, ◌++◌, Text, codes, Result, ok, err, ◌==◌,
  nat_eq, list_eq, length, if◌then◌else◌,
}
use km_resolv.Dns.{Rr, Message, type_cname}
use km_resolv.Dns.Parse.{name_at}
use km_resolv.Dnssec.{type_ds, type_rrsig}
use km_resolv.Dnssec.Verify.{Crypto}
use km_resolv.Dnssec.Zone.{Keys}
use km_resolv.Config.{Config}
use km_resolv.Server.Answers.{
  sec_delegated_zone, sec_filter_type, sec_filter_type_owner, extract_ns, has_terminal_records,
  prepend_cname,
}
use km_resolv.Server.Query.{Network, Upstream, query}
use km_resolv.Server.Verdict.{decimal}
use km_resolv.Server.Iterate.{
  Step, root_servers, wrapped, first_cname, extract_glue, recall, resolve_at, resolve_ns_parallel,
}
use km_resolv.Server.Secure.{
  Status, secure, insecure, bogus, SecCtx, Sec, fine, broken, panic, known_keys, establish_keys,
  sec_verify_with_walk,
}

-- The result with its status; `panic` is the end of the program.
abbrev pub Answer : Type 0
Answer = Sec (Status × Result Message)

abbrev pub bogus_error : Text → Answer
bogus_error e = fine (bogus, err e)

-- An error of a check ends the resolution as bogus; else what is behind the check follows.
abbrev pub checked {ℓ κ} :
    {State : Type ℓ} {A : Type κ} → Text → State → Sec A → (A → State × Answer) → State × Answer
checked text s (fine a) next = next a
checked text s (broken e) next = (s, bogus_error (text ++ e))
checked text s panic next = (s, panic)

abbrev pub keys_or_none : Option Keys → Keys
keys_or_none none = []
keys_or_none (some keys) = keys

module _ {World : Type 0} (net : Network World) (crypto : Crypto) (anchors : Keys)
    (cfg : Config) where
  abbrev pub SecStep : Type 0
  SecStep = Upstream World → Upstream World × Answer

  -- the context at the root
  unfoldable pub root_ctx : Upstream World → Upstream World × SecCtx
  root_ctx s =
      let (s', keys) = known_keys net crypto anchors cfg (codes ".") s in
      (s', record { zone = codes "."; keys = keys_or_none keys })

  -- What follows takes resolveAtDNSSEC and resolveAt one level down as parameters.
  module _ (deeper : Text → ℕ → List Text → SecCtx → SecStep)
      (plain : Text → ℕ → List Text → Step net) where
    -- the answer for the target of a CNAME, behind the CNAME
    abbrev pub prepended_answer : Message → Rr → Answer → Answer
    prepended_answer resp rr (fine (status, err e)) = fine (status, err e)
    prepended_answer resp rr (fine (status, ok m)) = fine (status, ok (prepend_cname resp rr m))
    prepended_answer resp rr (broken e) = broken e
    prepended_answer resp rr panic = panic

    -- the target of a CNAME that has been checked
    unfoldable pub sec_target : Message → Rr → Text → ℕ → SecStep
    sec_target resp rr target qtype s =
        let (s1, known) = recall net cfg target qtype s in
        let (s2, ctx) = root_ctx s1 in
        let (s3, inner) = deeper target qtype root_servers ctx s2 in
        if has_terminal_records resp.answers target qtype
        then (s, fine (insecure, ok resp))
        else elim known [
          | some (err e) ↦ (s1, fine (insecure, err e))
          | some (ok m) ↦ (s1, fine (secure, ok (prepend_cname resp rr m)))
          | none ↦ (s3, prepended_answer resp rr inner)
        ]

    -- the check of records, which is left out where the context has no keys
    unfoldable pub check_if_keyed :
        List Text
        → SecCtx
        → List Rr
        → List Rr
        → ℕ
        → Text
        → Upstream World
        → Upstream World × Sec (Unit {0})
    check_if_keyed servers ctx rrset rrsigs type raw s =
        if length ctx.keys == 0
        then (s, fine tt)
        else sec_verify_with_walk net crypto anchors cfg servers ctx rrset rrsigs type raw s

    unfoldable pub sec_follow_cname : List Text → SecCtx → Text → Message → Rr → ℕ → SecStep
    sec_follow_cname servers ctx name resp rr qtype s = elim (name_at resp.raw rr.offset) [
      | err e ↦ (s, bogus_error (codes "cname parse: " ++ e))
      | ok target ↦
          let (s', verified) =
            check_if_keyed servers ctx (sec_filter_type resp.answers type_cname)
              (sec_filter_type resp.answers type_rrsig) type_cname resp.raw s in
          checked (codes "CNAME RRSIG for " ++ (name ++ codes ": ")) s' verified
            (λ _. sec_target resp rr target qtype s')
    ]

    -- the round of a server that has given answers, none of them a CNAME to follow
    unfoldable pub sec_final : List Text → SecCtx → Text → Message → ℕ → SecStep
    sec_final servers ctx name resp qtype s =
        let rrset = sec_filter_type resp.answers qtype in
        let (s', verified) =
          sec_verify_with_walk net crypto anchors cfg servers ctx rrset
            (sec_filter_type resp.answers type_rrsig) qtype resp.raw s in
        if length ctx.keys == 0
        then (s, fine (insecure, ok resp))
        else if length rrset == 0
        then (s, fine (insecure, ok resp))
        else checked
            (codes "RRSIG for " ++ (name ++ (codes " type " ++ (decimal qtype ++ codes ": ")))) s'
            verified (λ _. (s', fine (secure, ok resp)))

    unfoldable pub sec_answered : List Text → SecCtx → Text → ℕ → Message → SecStep
    sec_answered servers ctx name qtype resp s =
        elim (if qtype == type_cname then none else first_cname resp.answers) [
          | none ↦ sec_final servers ctx name resp qtype s
          | some rr ↦ sec_follow_cname servers ctx name resp rr qtype s
        ]

    -- the keys of the child zone: known ones, or those that its DS records vouch for
    unfoldable pub child_keys :
        Text → List Rr → List Text → Upstream World → Upstream World × Sec Keys
    child_keys child ds_rrs servers s =
        let (s', cached) = known_keys net crypto anchors cfg child s in
        elim cached [
          | some keys ↦ (s', fine keys)
          | none ↦
              if length ds_rrs == 0
              then (s', fine [])
              else establish_keys net crypto anchors cfg
                  (codes "DNSKEY fetch for " ++ (child ++ codes ": "))
                  (codes "DNSKEY chain for " ++ (child ++ codes ": ")) servers child ds_rrs s'
        ]

    -- the way down, to the servers of the child zone
    unfoldable pub descend : Text → ℕ → Text → List Rr → List Text → SecStep
    descend name qtype child ds_rrs servers s =
        let (s', keys) = child_keys child ds_rrs servers s in
        checked [] s' keys (λ k. deeper name qtype servers (record { zone = child; keys = k }) s')

    -- the check of the DS records of a referral, where it has some
    unfoldable pub ds_checked :
        List Text → SecCtx → Message → Upstream World → Upstream World × Sec (Unit {0})
    ds_checked servers ctx resp s =
        let ds_rrs =
          sec_filter_type_owner resp.authority type_ds (sec_delegated_zone resp.authority) in
        if length ds_rrs == 0
        then (s, fine tt)
        else check_if_keyed servers ctx ds_rrs (sec_filter_type resp.authority type_rrsig) type_ds
            resp.raw s

    -- the round of a server that has given no answers; `continue` is the next round
    unfoldable pub sec_referred :
        List Text → SecCtx → Text → ℕ → Message → (Text → SecStep) → SecStep
    sec_referred servers ctx name qtype resp continue s =
        let names = extract_ns resp.raw resp.authority in
        let child = sec_delegated_zone resp.authority in
        let ds_rrs = sec_filter_type_owner resp.authority type_ds child in
        let glue = extract_glue net resp.additional names in
        let (s1, verified) = ds_checked servers ctx resp s in
        let (s2, ips) = resolve_ns_parallel net cfg plain names s1 in
        if names == []
        then (s, fine (insecure, ok resp))
        else checked (codes "DS RRSIG for " ++ (child ++ codes ": ")) s1 verified (λ _.
          if not (glue == []) then descend name qtype child ds_rrs glue s1 else elim ips [
            | err e ↦ continue e s2
            | ok found ↦ descend name qtype child ds_rrs found s2
          ])

    unfoldable pub sec_digested :
        List Text → SecCtx → Text → ℕ → Message → (Text → SecStep) → SecStep
    sec_digested servers ctx name qtype resp continue s =
        if length resp.answers == 0
        then sec_referred servers ctx name qtype resp continue s
        else sec_answered servers ctx name qtype resp s

    -- the loop over the servers; `all` are the servers as they were shuffled
    unfoldable pub sec_try_servers :
        List Text → SecCtx → Text → ℕ → List Text → Option Text → SecStep
    sec_try_servers all ctx name qtype [] last s =
        (s, bogus_error (codes "all servers failed for " ++ (name ++ (codes ": " ++ wrapped last))))
    sec_try_servers all ctx name qtype (sv ∷ servers) last s =
        let continue : Text → SecStep = λ e. sec_try_servers all ctx name qtype servers (some e) in
        let (s', got) = query net cfg (sv ++ codes ":53") name qtype s in
        elim got [
          | err e ↦ continue e s'
          | ok resp ↦ sec_digested all ctx name qtype resp continue s'
        ]

  -- resolveAtDNSSEC, by the levels that are left
  unfoldable pub resolve_at_dnssec : ℕ → Text → ℕ → List Text → SecCtx → SecStep
  resolve_at_dnssec zero name qtype servers ctx s =
      (s, bogus_error (codes "max referral depth exceeded resolving " ++ name))
  resolve_at_dnssec (suc left) name qtype servers ctx s =
      let (w, shuffled) = net.shuffle servers s.world in
      sec_try_servers (resolve_at_dnssec left) (resolve_at net cfg left) shuffled ctx name qtype
        shuffled none (record s { world = w })
