-- ===== src/Server/Secure/WalkSafe.antt =====
-- The walk of the resolution with DNSSEC to the keys of a zone keeps the limits of the pools and a
-- well-formed cache.
use km_resolv.Prelude.{
  ℕ, ◌≡◌, refl, Bool-cases, Option-cases, Result-cases, inl, inr, ◌⊎◌, Option, none, some, List, [],
  ◌∷◌, ◌++◌, Text, codes, ◌==◌, nat_eq, list_eq, length,
}
use km_resolv.Dns.{Rr}
use km_resolv.Dnssec.{Outcome, value, failed, panicked, type_ds, type_rrsig, type_dnskey}
use km_resolv.Dnssec.Verify.{Crypto, verify_any_rrsig}
use km_resolv.Dnssec.Zone.{Keys, validate_zone_dnskey}
use km_resolv.Config.{Config}
use km_resolv.Server.Zones.{zone_chain}
use km_resolv.Server.Answers.{sec_filter_type, rrsig_signer}
use km_resolv.Server.Query.{Network, Upstream, query}
use km_resolv.Server.Query.Safe.{query-Safe}
use km_resolv.Server.Resolve.Safe.{Keeps}
use km_resolv.Server.Secure.{
  SecCtx, Sec, fine, broken, panic, parsed_ds, ds_of, unix, sec_fetch_dnskey, known_keys,
  establish_keys, query_ds, sec_establish_intermediate_keys, walk_zones, sec_walk_to_zone,
  is_deeper, signing_keys, sec_verify_with_walk,
}
use km_resolv.Server.Secure.Resolve.{root_ctx}

pub Outcome-cases {ℓ} :
    {A : Type ℓ} (o : Outcome A) → ((a : A) × (o ≡ value a)) ⊎ ((o ≡ failed) ⊎ (o ≡ panicked))
Outcome-cases (value a) = inl (a, refl)
Outcome-cases failed = inr (inl refl)
Outcome-cases panicked = inr (inr refl)

pub Sec-cases {ℓ} :
    {A : Type ℓ} (o : Sec A)
    → ((a : A) × (o ≡ fine a)) ⊎ (((e : Text) × (o ≡ broken e)) ⊎ (o ≡ panic))
Sec-cases (fine a) = inl (a, refl)
Sec-cases (broken e) = inr (inl (e, refl))
Sec-cases panic = inr (inr refl)

module _ {World : Type 0} (net : Network World) (crypto : Crypto) (anchors : Keys) (cfg : Config)
    (udp tcp : ℕ) where
  abbrev Fine {ℓ} : {A : Type ℓ} → (Upstream World → Upstream World × A) → Type 0
  Fine f = Keeps net cfg udp tcp f

  sec_fetch_dnskey-Fine :
      (servers : List Text) (zone : Text)
      → Fine (sec_fetch_dnskey net crypto anchors cfg servers zone)
  unfolding sec_fetch_dnskey
  sec_fetch_dnskey-Fine [] zone s v = v
  sec_fetch_dnskey-Fine (sv ∷ servers) zone s v =
      let got = query net cfg (sv ++ codes ":53") zone type_dnskey s in
      let h = query-Safe net cfg udp tcp (sv ++ codes ":53") zone type_dnskey s v in
      let rest = sec_fetch_dnskey-Fine servers zone got.0 h in
      elim (Result-cases got.1) [
        | inl (text, e) ↦ rw (sec_fetch_dnskey, e) rest
        | inr (m, e) ↦ elim (Bool-cases (length m.answers == 0)) [
          | inl f ↦ rw (sec_fetch_dnskey, e, f) rest
          | inr f ↦ rw (sec_fetch_dnskey, e, f) h
        ]
      ]

  pub known_keys-Fine : (zone : Text) → Fine (known_keys net crypto anchors cfg zone)
  unfolding known_keys
  known_keys-Fine zone s v = record {
    pool = v.pool;
    tcp_pool = v.tcp_pool;
    dot_pool = v.dot_pool;
    cache = v.cache;
  }

  pub establish_keys-Fine :
      (fetching chaining : Text) (servers : List Text) (zone : Text) (ds_rrs : List Rr)
      → Fine (establish_keys net crypto anchors cfg fetching chaining servers zone ds_rrs)
  unfolding establish_keys
  establish_keys-Fine fetching chaining servers zone ds_rrs s v =
      let got = sec_fetch_dnskey net crypto anchors cfg servers zone s in
      let h = sec_fetch_dnskey-Fine servers zone s v in
      elim (Result-cases got.1) [
        | inl (text, e) ↦ rw (establish_keys, e) h
        | inr (m, e) ↦
            let keys =
              validate_zone_dnskey crypto anchors (unix net crypto anchors cfg got.0.world) zone
                (sec_filter_type m.answers type_dnskey) (sec_filter_type m.answers type_rrsig)
                (parsed_ds ds_rrs) m.raw in
            elim (Outcome-cases keys) [
              | inl (all, f) ↦
                  rw (establish_keys, e, f)
                    (record {
                      pool = h.pool;
                      tcp_pool = h.tcp_pool;
                      dot_pool = h.dot_pool;
                      cache = h.cache;
                    })
              | inr (inl f) ↦ rw (establish_keys, e, f) h
              | inr (inr f) ↦ rw (establish_keys, e, f) h
            ]
      ]

  query_ds-Fine :
      (servers : List Text) (zone : Text) (last : Option Text)
      → Fine (query_ds net crypto anchors cfg servers zone last)
  unfolding query_ds
  query_ds-Fine [] zone last s v = v
  query_ds-Fine (sv ∷ servers) zone last s v =
      let got = query net cfg (sv ++ codes ":53") zone type_ds s in
      let h = query-Safe net cfg udp tcp (sv ++ codes ":53") zone type_ds s v in
      elim (Result-cases got.1) [
        | inl (text, e) ↦ rw (query_ds, e) (query_ds-Fine servers zone (some text) got.0 h)
        | inr (m, e) ↦ rw (query_ds, e) h
      ]

  establish-Fine :
      (servers : List Text) (ctx : SecCtx) (zone : Text)
      → Fine (sec_establish_intermediate_keys net crypto anchors cfg servers ctx zone)
  unfolding sec_establish_intermediate_keys
  establish-Fine servers ctx zone s v =
      let got = query_ds net crypto anchors cfg servers zone none s in
      let h = query_ds-Fine servers zone none s v in
      elim (Result-cases got.1) [
        | inl (text, e) ↦ rw (sec_establish_intermediate_keys, e) h
        | inr (m, e) ↦ elim (Bool-cases (length (ds_of zone m).0 == 0)) [
          | inl f ↦ rw (sec_establish_intermediate_keys, e, f) h
          | inr f ↦
              let signed =
                verify_any_rrsig crypto (unix net crypto anchors cfg got.0.world) ctx.keys
                  (ds_of zone m).0 (ds_of zone m).1 type_ds m.raw in
              elim (Outcome-cases signed) [
                | inl (_, g) ↦
                    rw (sec_establish_intermediate_keys, e, f, g)
                      (establish_keys-Fine _ _ servers zone _ got.0 h)
                | inr (inl g) ↦ rw (sec_establish_intermediate_keys, e, f, g) h
                | inr (inr g) ↦ rw (sec_establish_intermediate_keys, e, f, g) h
              ]
        ]
      ]

  walk_zones-Fine :
      (servers chain : List Text) (ctx : SecCtx)
      → Fine (walk_zones net crypto anchors cfg servers chain ctx)
  unfolding walk_zones
  walk_zones-Fine servers [] ctx s v = v
  walk_zones-Fine servers (zone ∷ chain) ctx s v =
      let one = known_keys net crypto anchors cfg zone s in
      let h = known_keys-Fine zone s v in
      let two = sec_establish_intermediate_keys net crypto anchors cfg servers ctx zone one.0 in
      let g = establish-Fine servers ctx zone one.0 h in
      elim (Option-cases one.1) [
        | inr (keys, e) ↦ rw (walk_zones, e) (walk_zones-Fine servers chain _ one.0 h)
        | inl e ↦ elim (Sec-cases two.1) [
          | inl (keys, f) ↦ rw (walk_zones, e, f) (walk_zones-Fine servers chain _ two.0 g)
          | inr (inl (text, f)) ↦ rw (walk_zones, e, f) g
          | inr (inr f) ↦ rw (walk_zones, e, f) g
        ]
      ]

  signing_keys-Fine :
      (servers : List Text) (ctx : SecCtx) (signer : Text)
      → Fine (signing_keys net crypto anchors cfg servers ctx signer)
  unfolding signing_keys sec_walk_to_zone
  signing_keys-Fine servers ctx signer s v =
      elim (Bool-cases (is_deeper net crypto anchors cfg signer ctx)) [
        | inl e ↦
            rw (signing_keys, e) (walk_zones-Fine servers (zone_chain ctx.zone signer) ctx s v)
        | inr e ↦ rw (signing_keys, e) v
      ]

  pub verify-Fine :
      (servers : List Text) (ctx : SecCtx) (rrset rrsigs : List Rr) (type : ℕ) (raw : Text)
      → Fine (sec_verify_with_walk net crypto anchors cfg servers ctx rrset rrsigs type raw)
  unfolding sec_verify_with_walk
  verify-Fine servers ctx rrset rrsigs type raw s v =
      signing_keys-Fine servers ctx (rrsig_signer rrsigs type) s v

  pub root_ctx-Fine : Fine (root_ctx net crypto anchors cfg)
  unfolding root_ctx
  root_ctx-Fine s v = known_keys-Fine (codes ".") s v
