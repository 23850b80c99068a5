-- ===== src/Server/Secure/Safe.antt =====
-- The resolution with DNSSEC keeps the limits of the pools and a well-formed cache.
use km_resolv.Prelude.{
  ℕ, zero, suc, Bool-cases, Option-cases, Result-cases, inl, inr, Option, none, some, List, [], ◌∷◌,
  ◌++◌, Text, codes, ok, err, if◌then◌else◌, ◌==◌, nat_eq, list_eq, length,
}
use km_resolv.Dns.{Rr, Message, type_cname}
use km_resolv.Dns.Parse.{name_at}
use km_resolv.Dnssec.{type_ds, type_rrsig}
use km_resolv.Dnssec.Verify.{Crypto}
use km_resolv.Dnssec.Zone.{Keys}
use km_resolv.Config.{Config}
use km_resolv.Server.Answers.{
  sec_delegated_zone, sec_filter_type, sec_filter_type_owner, extract_ns, has_terminal_records,
}
use km_resolv.Server.Query.{Network, Upstream, query}
use km_resolv.Server.Query.Safe.{query-Safe}
use km_resolv.Server.Iterate.{
  Step, root_servers, first_cname, extract_glue, recall, resolve_at, resolve_ns_parallel,
}
use km_resolv.Server.Resolve.Safe.{
  Keeps, recall-Keeps, resolve_ns_parallel-Keeps, resolve_at-Keeps, at_world,
}
use km_resolv.Server.Secure.{SecCtx, known_keys, sec_verify_with_walk}
use km_resolv.Server.Secure.Resolve.{
  SecStep, root_ctx, sec_target, check_if_keyed, sec_follow_cname, sec_final, sec_answered,
  child_keys, descend, ds_checked, sec_referred, sec_digested, sec_try_servers, resolve_at_dnssec,
}
use km_resolv.Server.Secure.WalkSafe.{
  Sec-cases, known_keys-Fine, establish_keys-Fine, verify-Fine, root_ctx-Fine,
}

module _ {World : Type 0} (net : Network World) (crypto : Crypto) (anchors : Keys) (cfg : Config)
    (udp tcp : ℕ) where
  abbrev Fine {ℓ} : {A : Type ℓ} → (Upstream World → Upstream World × A) → Type 0
  Fine f = Keeps net cfg udp tcp f

  module _ (deeper : Text → ℕ → List Text → SecCtx → SecStep net crypto anchors cfg)
      (plain : Text → ℕ → List Text → Step net)
      (safe : (name : Text) (qtype : ℕ) (servers : List Text) (ctx : SecCtx)
        → Fine (deeper name qtype servers ctx))
      (plain_safe : (name : Text) (qtype : ℕ) (servers : List Text)
        → Fine (plain name qtype servers)) where
    sec_target-Fine :
        (resp : Message) (rr : Rr) (target : Text) (qtype : ℕ)
        → Fine (sec_target net crypto anchors cfg deeper plain resp rr target qtype)
    unfolding sec_target
    sec_target-Fine resp rr target qtype s v =
        let one = recall net cfg target qtype s in
        let h = recall-Keeps net cfg udp tcp target qtype s v in
        let two = root_ctx net crypto anchors cfg one.0 in
        let deep =
          safe target qtype root_servers two.1 two.0
            (root_ctx-Fine net crypto anchors cfg udp tcp one.0 h) in
        elim (Bool-cases (has_terminal_records resp.answers target qtype)) [
          | inl e ↦ rw (sec_target, e) v
          | inr e ↦ elim (Option-cases one.1) [
            | inl f ↦ rw (sec_target, e, f) deep
            | inr (ok m, f) ↦ rw (sec_target, e, f) h
            | inr (err text, f) ↦ rw (sec_target, e, f) h
          ]
        ]

    check_if_keyed-Fine :
        (servers : List Text) (ctx : SecCtx) (rrset rrsigs : List Rr) (type : ℕ) (raw : Text)
        → Fine
            (check_if_keyed net crypto anchors cfg deeper plain servers ctx rrset rrsigs type raw)
    unfolding check_if_keyed
    check_if_keyed-Fine servers ctx rrset rrsigs type raw s v =
        elim (Bool-cases (length ctx.keys == 0)) [
          | inl e ↦ rw (check_if_keyed, e) v
          | inr e ↦
              rw (check_if_keyed, e)
                (verify-Fine net crypto anchors cfg udp tcp servers ctx rrset rrsigs type raw s v)
        ]

    sec_follow_cname-Fine :
        (servers : List Text) (ctx : SecCtx) (name : Text) (resp : Message) (rr : Rr) (qtype : ℕ)
        → Fine (sec_follow_cname net crypto anchors cfg deeper plain servers ctx name resp rr qtype)
    unfolding sec_follow_cname
    sec_follow_cname-Fine servers ctx name resp rr qtype s v =
        elim (Result-cases (name_at resp.raw rr.offset)) [
          | inl (text, e) ↦ rw (sec_follow_cname, e) v
          | inr (target, e) ↦
              let aliases = sec_filter_type resp.answers type_cname in
              let rrsigs = sec_filter_type resp.answers type_rrsig in
              let verified =
                check_if_keyed net crypto anchors cfg deeper plain servers ctx aliases rrsigs
                  type_cname resp.raw s in
              let h = check_if_keyed-Fine servers ctx aliases rrsigs type_cname resp.raw s v in
              elim (Sec-cases verified.1) [
                | inl (_, f) ↦
                    rw (sec_follow_cname, e, f) (sec_target-Fine resp rr target qtype verified.0 h)
                | inr (inl (text, f)) ↦ rw (sec_follow_cname, e, f) h
                | inr (inr f) ↦ rw (sec_follow_cname, e, f) h
              ]
        ]

    sec_final-Fine :
        (servers : List Text) (ctx : SecCtx) (name : Text) (resp : Message) (qtype : ℕ)
        → Fine (sec_final net crypto anchors cfg deeper plain servers ctx name resp qtype)
    unfolding sec_final
    sec_final-Fine servers ctx name resp qtype s v = elim (Bool-cases (length ctx.keys == 0)) [
      | inl e ↦ rw (sec_final, e) v
      | inr e ↦ elim (Bool-cases (length (sec_filter_type resp.answers qtype) == 0)) [
        | inl f ↦ rw (sec_final, e, f) v
        | inr f ↦
            let rrset = sec_filter_type resp.answers qtype in
            let rrsigs = sec_filter_type resp.answers type_rrsig in
            let verified =
              sec_verify_with_walk net crypto anchors cfg servers ctx rrset rrsigs qtype resp.raw
                s in
            let h =
              verify-Fine net crypto anchors cfg udp tcp servers ctx rrset rrsigs qtype resp.raw s
                v in
            elim (Sec-cases verified.1) [
              | inl (_, g) ↦ rw (sec_final, e, f, g) h
              | inr (inl (text, g)) ↦ rw (sec_final, e, f, g) h
              | inr (inr g) ↦ rw (sec_final, e, f, g) h
            ]
      ]
    ]

    sec_answered-Fine :
        (servers : List Text) (ctx : SecCtx) (name : Text) (qtype : ℕ) (resp : Message)
        → Fine (sec_answered net crypto anchors cfg deeper plain servers ctx name qtype resp)
    unfolding sec_answered
    sec_answered-Fine servers ctx name qtype resp s v =
        elim (Option-cases (if qtype == type_cname then none else first_cname resp.answers)) [
          | inl e ↦ rw (sec_answered, e) (sec_final-Fine servers ctx name resp qtype s v)
          | inr (rr, e) ↦
              rw (sec_answered, e) (sec_follow_cname-Fine servers ctx name resp rr qtype s v)
        ]

    child_keys-Fine :
        (child : Text) (ds_rrs : List Rr) (servers : List Text)
        → Fine (child_keys net crypto anchors cfg deeper plain child ds_rrs servers)
    unfolding child_keys
    child_keys-Fine child ds_rrs servers s v =
        let one = known_keys net crypto anchors cfg child s in
        let h = known_keys-Fine net crypto anchors cfg udp tcp child s v in
        elim (Option-cases one.1) [
          | inr (keys, e) ↦ rw (child_keys, e) h
          | inl e ↦ elim (Bool-cases (length ds_rrs == 0)) [
            | inl f ↦ rw (child_keys, e, f) h
            | inr f ↦
                rw (child_keys, e, f)
                  (establish_keys-Fine net crypto anchors cfg udp tcp _ _ servers child ds_rrs one.0
                    h)
          ]
        ]

    descend-Fine :
        (name : Text) (qtype : ℕ) (child : Text) (ds_rrs : List Rr) (servers : List Text)
        → Fine (descend net crypto anchors cfg deeper plain name qtype child ds_rrs servers)
    unfolding descend
    descend-Fine name qtype child ds_rrs servers s v =
        let keys = child_keys net crypto anchors cfg deeper plain child ds_rrs servers s in
        let h = child_keys-Fine child ds_rrs servers s v in
        elim (Sec-cases keys.1) [
          | inl (k, e) ↦ rw (descend, e) (safe name qtype servers _ keys.0 h)
          | inr (inl (text, e)) ↦ rw (descend, e) h
          | inr (inr e) ↦ rw (descend, e) h
        ]

    -- the state and the verdict once the DS records of a referral are checked
    ds_checked-Fine :
        (servers : List Text) (ctx : SecCtx) (resp : Message)
        → Fine (ds_checked net crypto anchors cfg deeper plain servers ctx resp)
    unfolding ds_checked
    ds_checked-Fine servers ctx resp s v =
        let ds_rrs =
          sec_filter_type_owner resp.authority type_ds (sec_delegated_zone resp.authority) in
        elim (Bool-cases (length ds_rrs == 0)) [
          | inl e ↦ rw (ds_checked, e) v
          | inr e ↦
              rw (ds_checked, e)
                (check_if_keyed-Fine servers ctx ds_rrs (sec_filter_type resp.authority type_rrsig)
                  type_ds resp.raw s v)
        ]

    sec_referred-Fine :
        (servers : List Text) (ctx : SecCtx) (name : Text) (qtype : ℕ) (resp : Message)
        (continue : Text → SecStep net crypto anchors cfg)
        → ((e : Text) → Fine (continue e))
        → Fine
            (sec_referred net crypto anchors cfg deeper plain servers ctx name qtype resp continue)
    unfolding sec_referred
    sec_referred-Fine servers ctx name qtype resp continue next s v =
        let names = extract_ns resp.raw resp.authority in
        let child = sec_delegated_zone resp.authority in
        let ds_rrs = sec_filter_type_owner resp.authority type_ds child in
        let glue = extract_glue net resp.additional names in
        let one = ds_checked net crypto anchors cfg deeper plain servers ctx resp s in
        let h = ds_checked-Fine servers ctx resp s v in
        let two = resolve_ns_parallel net cfg plain names one.0 in
        let g = resolve_ns_parallel-Keeps net cfg udp tcp plain plain_safe names one.0 h in
        elim (Bool-cases (names == [])) [
          | inl e ↦ rw (sec_referred, e) v
          | inr e ↦ elim (Sec-cases one.1) [
            | inr (inl (text, f)) ↦ rw (sec_referred, e, f) h
            | inr (inr f) ↦ rw (sec_referred, e, f) h
            | inl (_, f) ↦ elim (Bool-cases (glue == [])) [
              | inr k ↦
                  rw (sec_referred, e, f, k) (descend-Fine name qtype child ds_rrs glue one.0 h)
              | inl k ↦ elim (Result-cases two.1) [
                | inl (text, l) ↦ rw (sec_referred, e, f, k, l) (next text two.0 g)
                | inr (ips, l) ↦
                    rw (sec_referred, e, f, k, l) (descend-Fine name qtype child ds_rrs ips two.0 g)
              ]
            ]
          ]
        ]

    sec_try_servers-Fine :
        (all : List Text) (ctx : SecCtx) (name : Text) (qtype : ℕ) (servers : List Text)
        (last : Option Text)
        → Fine (sec_try_servers net crypto anchors cfg deeper plain all ctx name qtype servers last)
    unfolding sec_try_servers sec_digested
    sec_try_servers-Fine all ctx name qtype [] last s v = v
    sec_try_servers-Fine all ctx name qtype (sv ∷ servers) last s v =
        let got = query net cfg (sv ++ codes ":53") name qtype s in
        let h = query-Safe net cfg udp tcp (sv ++ codes ":53") name qtype s v in
        let continue : Text → SecStep net crypto anchors cfg = λ text.
          sec_try_servers net crypto anchors cfg deeper plain all ctx name qtype servers
            (some text) in
        let rest = λ (text : Text). sec_try_servers-Fine all ctx name qtype servers (some text) in
        elim (Result-cases got.1) [
          | inl (text, e) ↦ rw (sec_try_servers, e) (rest text got.0 h)
          | inr (resp, e) ↦ elim (Bool-cases (length resp.answers == 0)) [
            | inl f ↦
                rw (sec_try_servers, e, sec_digested, f)
                  (sec_referred-Fine all ctx name qtype resp continue rest got.0 h)
            | inr f ↦
                rw (sec_try_servers, e, sec_digested, f)
                  (sec_answered-Fine all ctx name qtype resp got.0 h)
          ]
        ]

  pub resolve_at_dnssec-Fine :
      (left : ℕ) (name : Text) (qtype : ℕ) (servers : List Text) (ctx : SecCtx)
      → Fine (resolve_at_dnssec net crypto anchors cfg left name qtype servers ctx)
  unfolding resolve_at_dnssec
  resolve_at_dnssec-Fine zero name qtype servers ctx s v = v
  resolve_at_dnssec-Fine (suc left) name qtype servers ctx s v =
      let (w, shuffled) = net.shuffle servers s.world in
      sec_try_servers-Fine (resolve_at_dnssec net crypto anchors cfg left) (resolve_at net cfg left)
        (resolve_at_dnssec-Fine left) (resolve_at-Keeps net cfg udp tcp left) shuffled ctx name
        qtype shuffled none (record s { world = w }) (at_world net cfg udp tcp s w v)
