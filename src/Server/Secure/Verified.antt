-- ===== src/Server/Secure/Verified.antt =====
-- What stands behind an answer that resolveAtDNSSEC calls secure.
use km_resolv.Prelude.{ℕ, ◌≡◌, ◌⊎◌, some, List, ◌++◌, Text, codes, ok, nat_eq, list_eq}
use km_resolv.Dns.{Rr, Message, type_cname}
use km_resolv.Dns.Parse.{name_at}
use km_resolv.Dnssec.{value, type_rrsig}
use km_resolv.Dnssec.Verify.{Crypto, verify_any_rrsig}
use km_resolv.Dnssec.Zone.{Keys}
use km_resolv.Config.{Config}
use km_resolv.Server.Answers.{sec_filter_type, rrsig_signer, prepend_cname}
use km_resolv.Server.Query.{Network, Upstream, query}
use km_resolv.Server.Iterate.{first_cname, recall}
use km_resolv.Server.Secure.{secure, SecCtx, fine, unix, signing_keys, sec_verify_with_walk}
use km_resolv.Server.Secure.Resolve.{Answer, SecStep, bogus_error}

module _ {World : Type 0} (net : Network World) (crypto : Crypto) (anchors : Keys)
    (cfg : Config) where
  -- A server has given the message in answer to the name and the type, in a state that is left as
  -- another one.
  abbrev pub Gave : Text → ℕ → Message → Upstream World → Type 0
  Gave name qtype resp s =
      (server : Text) × (before : Upstream World) × (query net cfg (server ++ codes ":53") name
          qtype before
        ≡ (s, ok resp))

  -- What follows on an answer that a server gave: the state behind it, or the one behind the check of
  -- the signature of its CNAME.
  abbrev pub Follows : Message → Upstream World → Upstream World → Type 0
  Follows resp s s' =
      (s' ≡ s)
      ⊎ ((servers : List Text) × (ctx : SecCtx) × (s'
            ≡ (sec_verify_with_walk net crypto anchors cfg servers ctx
                (sec_filter_type resp.answers type_cname) (sec_filter_type resp.answers type_rrsig)
                type_cname resp.raw s).0))

  -- The first CNAME of an answer, and the name that it leads to.
  abbrev pub LeadsTo : Message → Rr → Text → Type 0
  LeadsTo resp rr target =
      (first_cname resp.answers ≡ some rr) × (name_at resp.raw rr.offset ≡ ok target)

  -- How an answer to a question can come to be secure. A server has given it, and an RRSIG over its
  -- records of the type that was asked for verifies, at the time of the state behind it, by the keys
  -- that signing_keys finds there for the signer; or a server has given a CNAME, and it is what the
  -- cache then holds for the name that this CNAME leads to, behind the CNAME; or it is a secure answer
  -- for that name, behind it.
  pub data Secured : Text → ℕ → Message → Type 0 where
    signed :
        {name : Text} {qtype : ℕ} {m : Message} (s : Upstream World) (servers : List Text)
        (ctx : SecCtx) (keys : Keys)
        → Gave name qtype m s
        → (signing_keys net crypto anchors cfg servers ctx
            (rrsig_signer (sec_filter_type m.answers type_rrsig) qtype)
            s).1
          ≡ fine keys
        → verify_any_rrsig crypto
            (unix net crypto anchors cfg
              (signing_keys net crypto anchors cfg servers ctx
                (rrsig_signer (sec_filter_type m.answers type_rrsig) qtype)
                s).0.world)
            keys
            (sec_filter_type m.answers qtype)
            (sec_filter_type m.answers type_rrsig)
            qtype
            m.raw
          ≡ value tt
        → Secured name qtype m
    remembered :
        {name : Text} {qtype : ℕ} {resp m : Message} {rr : Rr} {target : Text}
        (s s' : Upstream World)
        → Gave name qtype resp s
        → Follows resp s s'
        → LeadsTo resp rr target
        → (recall net cfg target qtype s').1 ≡ some (ok m)
        → Secured name qtype (prepend_cname resp rr m)
    followed :
        {name : Text} {qtype : ℕ} {resp m : Message} {rr : Rr} {target : Text} (s : Upstream World)
        → Gave name qtype resp s
        → LeadsTo resp rr target
        → Secured target qtype m
        → Secured name qtype (prepend_cname resp rr m)

  -- An answer that is called secure has one of these reasons.
  abbrev pub Justified : Text → ℕ → Answer → Type 0
  Justified name qtype (fine (secure, ok m)) = Secured name qtype m
  Justified name qtype other = Unit

  bogus-Justified : (name : Text) (qtype : ℕ) (e : Text) → Justified name qtype (bogus_error e)
  bogus-Justified name qtype e = tt

  abbrev Just : Text → ℕ → SecStep net crypto anchors cfg → Type 0
  Just name qtype f = (s : Upstream World) → Justified name qtype (f s).1

  -- the same of what a round makes of an answer that a server gave
  abbrev JustFrom : Text → ℕ → Message → SecStep net crypto anchors cfg → Type 0
  JustFrom name qtype resp f =
      (s : Upstream World) → Gave name qtype resp s → Justified name qtype (f s).1
