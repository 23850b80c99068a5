-- ===== src/Dnssec/Zone/Chain.antt =====
-- What ValidateZoneDNSKEY has checked when it returns keys.
use km_resolv.Prelude.{
  ℕ, suc, ◌≤◌, ◌≡◌, ◌≢◌, refl, sym, ap, subst, true, false, Bool-cases, Option-cases, inl, inr,
  none, some, List, [], ◌∷◌, Text, arith, ◌==◌, nat_eq, eqb_iff, get_elem?, lookup, insert,
  lookup-insert, ◌⊎◌,
}
use km_resolv.Dns.{Rr}
use km_resolv.Dnssec.{Dnskey, Ds, Rrsig, Outcome, value, failed, panicked, type_dnskey}
use km_resolv.Dnssec.Wire.{build_signed_data}
use km_resolv.Dnssec.Verify.{
  Crypto, verify_crypto, verify_ds, verify_rrsig, verify_any_rrsig, covering, signature_holds,
}
use km_resolv.Dnssec.Zone.{
  Keys, is_root_zone, collect_keys, ds_seeds, signed_by, validate_zone_dnskey,
}

module _ (c : Crypto) where
  -- The chain from a DS record of the parent to the signature of the set of keys.
  pub record Chain (now : ℕ) (zone : Text) (rrset rrsigs : List Rr) (parent : List Ds) (raw : Text)
      : Type 0 where
    pub ds : Ds
    pub at : ℕ
    pub published : get_elem? parent at ≡ some ds
    pub key : Dnskey
    pub held : lookup ds.key_tag (collect_keys rrset []) ≡ some key
    pub digested : verify_ds c zone key ds ≡ true
    pub sig : Rrsig
    pub by_key : sig.key_tag ≡ ds.key_tag
    pub record_of_sig : Rr
    pub signed_at : ℕ
    pub sent : get_elem? rrsigs signed_at ≡ some record_of_sig
    pub covers : covering c type_dnskey record_of_sig ≡ some sig
    pub begun : sig.inception ≤ now
    pub not_over : now ≤ sig.expiration
    pub signed : Text
    pub of_the_set : build_signed_data sig rrset raw ≡ value signed
    pub holds : verify_crypto c key signed sig.signature ≡ true

  Outcome-cases {ℓ} :
      {A : Type ℓ} (o : Outcome A) → ((a : A) × (o ≡ value a)) ⊎ ((o ≡ failed) ⊎ (o ≡ panicked))
  Outcome-cases (value a) = inl (a, refl)
  Outcome-cases failed = inr (inl refl)
  Outcome-cases panicked = inr (inr refl)

  record Signed (now : ℕ) (keys : Keys) (rrset : List Rr) (sig : Rrsig) (raw : Text) : Type 0 where
    key : Dnskey
    found : lookup sig.key_tag keys ≡ some key
    begun : sig.inception ≤ now
    not_over : now ≤ sig.expiration
    signed : Text
    of_the_set : build_signed_data sig rrset raw ≡ value signed
    holds : verify_crypto c key signed sig.signature ≡ true

  signature_holds-value :
      (key : Dnskey) (sig : Rrsig) (o : Outcome Text)
      → signature_holds c key sig o ≡ value tt
      → (signed : Text) × (o ≡ value signed) × (verify_crypto c key signed sig.signature ≡ true)
  signature_holds-value key sig (value signed) h = (signed, refl, ground (arith, h))
  signature_holds-value key sig failed h = cc
  signature_holds-value key sig panicked h = cc

  verify_rrsig-Signed :
      (now : ℕ) (keys : Keys) (rrset : List Rr) (sig : Rrsig) (raw : Text)
      → verify_rrsig c now keys rrset sig raw ≡ value tt
      → Signed now keys rrset sig raw
  unfolding verify_rrsig
  verify_rrsig-Signed now keys rrset sig raw h = elim (Option-cases (lookup sig.key_tag keys)) [
    | inl miss ↦ absurd (ground (arith, h, miss))
    | inr (key, e) ↦
        let checked : signature_holds c key sig (build_signed_data sig rrset raw) ≡ value tt =
          ground (arith, h, e) in
        let (signed, built, ok) = signature_holds-value key sig _ checked in
        record {
          key = key;
          found = e;
          begun = ground (arith, h);
          not_over = ground (arith, h);
          signed = signed;
          of_the_set = built;
          holds = ok;
        }
  ]

  verify_any_rrsig-Signed :
      (now : ℕ) (keys : Keys) (rrset rrsigs : List Rr) (type : ℕ) (raw : Text)
      → verify_any_rrsig c now keys rrset rrsigs type raw ≡ value tt
      → (i : ℕ) × (rr : Rr) × (sig : Rrsig) × (get_elem? rrsigs i ≡ some rr)
        × (covering c type rr ≡ some sig)
        × Signed now keys rrset sig raw
  unfolding verify_any_rrsig
  verify_any_rrsig-Signed now keys rrset [] type raw h = cc
  verify_any_rrsig-Signed now keys rrset (rr ∷ rrsigs) type raw h =
      let later : verify_any_rrsig c now keys rrset rrsigs type raw ≡ value tt
          → (i : ℕ) × (r : Rr) × (sig : Rrsig) × (get_elem? (rr ∷ rrsigs) i ≡ some r)
            × (covering c type r ≡ some sig)
            × Signed now keys rrset sig raw =
        λ rest.
          let (i, r, sig, sent, covers, ok) =
            verify_any_rrsig-Signed now keys rrset rrsigs type raw rest in
          (suc i, r, sig, sent, covers, ok) in
      elim (Option-cases (covering c type rr)) [
        | inl other ↦ later (ground (arith, h, other))
        | inr (sig, e) ↦ elim (Outcome-cases (verify_rrsig c now keys rrset sig raw)) [
          | inl (u, ok) ↦ (0, rr, sig, refl, e, verify_rrsig-Signed now keys rrset sig raw ok)
          | inr (inl bad) ↦ later (ground (arith, h, e, bad))
          | inr (inr crash) ↦ absurd (ground (arith, h, e, crash))
        ]
      ]

  insert-all :
      (P : ℕ → Dnskey → Type 0) (at : ℕ) (new : Dnskey) (keys : Keys)
      → P at new
      → ((tag : ℕ) (k : Dnskey) → lookup tag keys ≡ some k → P tag k)
      → (tag : ℕ) (k : Dnskey) → lookup tag (insert at new keys) ≡ some k
      → P tag k
  insert-all P at new keys p before tag k h = elim (Bool-cases (at == tag)) [
    | inl same ↦
        let q : some new ≡ some k = ground (arith, h, lookup-insert at tag new keys) in
        subst (λ t. P t k) ((eqb_iff at tag).0 same)
          (subst (P at) (ap (λ o. elim o [ none ↦ new | some x ↦ x ]) q) p)
    | inr other ↦ before tag k (ground (arith, h, lookup-insert at tag new keys))
  ]

  -- A property of every key that a DS record has vouched for.
  ds_seeds-all :
      (P : ℕ → Dnskey → Type 0) (zone : Text) (parent : List Ds) (all seeds : Keys)
      → ((i : ℕ) (ds : Ds) (k : Dnskey)
          → get_elem? parent i ≡ some ds
          → lookup ds.key_tag all ≡ some k
          → verify_ds c zone k ds ≡ true
          → P ds.key_tag k)
      → ((tag : ℕ) (k : Dnskey) → lookup tag seeds ≡ some k → P tag k)
      → (tag : ℕ) (k : Dnskey) → lookup tag (ds_seeds c zone parent all seeds) ≡ some k
      → P tag k
  unfolding ds_seeds
  ds_seeds-all P zone [] all seeds vouched before tag k h = before tag k h
  ds_seeds-all P zone (ds ∷ parent) all seeds vouched before tag k h =
      let rest = λ (s : Keys) (b : (tag : ℕ) (k : Dnskey) → lookup tag s ≡ some k → P tag k).
        ds_seeds-all P zone parent all s (λ i. vouched (suc i)) b tag k in
      elim (Option-cases (lookup ds.key_tag all)) [
        | inl miss ↦ rest seeds before (ground (arith, h, miss))
        | inr (k', e) ↦ elim (Bool-cases (verify_ds c zone k' ds)) [
          | inl ok ↦
              rest (insert ds.key_tag k' seeds)
                (insert-all P ds.key_tag k' seeds (vouched 0 ds k' refl e ok) before)
                (ground (arith, h, e, ok))
          | inr bad ↦ rest seeds before (ground (arith, h, e, bad))
        ]
      ]

  abbrev Vouched : Text → List Ds → Keys → ℕ → Dnskey → Type 0
  Vouched zone parent all tag k =
      (i : ℕ) × (ds : Ds) × (get_elem? parent i ≡ some ds)
      × (ds.key_tag ≡ tag)
      × (lookup ds.key_tag all ≡ some k)
      × (verify_ds c zone k ds ≡ true)

  nothing : (tag : ℕ) (k : Dnskey) → lookup {K = ℕ} {V = Dnskey} tag [] ≢ some k
  unfolding lookup
  nothing tag k h = cc

  signed_by-value :
      (now : ℕ) (seeds : Keys) (rrset rrsigs : List Rr) (raw : Text) (all keys : Keys)
      → signed_by c now seeds rrset rrsigs raw all ≡ value keys
      → (keys ≡ all) × (verify_any_rrsig c now seeds rrset rrsigs type_dnskey raw ≡ value tt)
  signed_by-value now seeds rrset rrsigs raw all keys h =
      elim (Outcome-cases (verify_any_rrsig c now seeds rrset rrsigs type_dnskey raw)) [
        | inl (u, e) ↦
            let q : value all ≡ value keys = ground (arith, h, e) in
            (sym (ap (λ o. elim o [ value x ↦ x | failed ↦ all | panicked ↦ all ]) q), e)
        | inr (inl bad) ↦ absurd (ground (arith, h, bad))
        | inr (inr crash) ↦ absurd (ground (arith, h, crash))
      ]

  -- Keys are returned for a zone below the root only with a chain from the parent: a DS record of
  -- the parent's that the digest of a key of the set matches, and a signature of the set by that
  -- key, which covers DNSKEY, holds, and has begun and not run out. What is returned are the keys
  -- of the set.
  pub validate_zone_dnskey-Chain :
      (anchors : Keys) (now : ℕ) (zone : Text) (rrset rrsigs : List Rr) (parent : List Ds)
      (raw : Text) (keys : Keys)
      → is_root_zone zone ≡ false
      → validate_zone_dnskey c anchors now zone rrset rrsigs parent raw ≡ value keys
      → (keys ≡ collect_keys rrset []) × Chain now zone rrset rrsigs parent raw
  unfolding validate_zone_dnskey
  validate_zone_dnskey-Chain anchors now zone [] rrsigs parent raw keys below h = cc
  validate_zone_dnskey-Chain anchors now zone (rr ∷ rrs) rrsigs parent raw keys below h =
      let all = collect_keys (rr ∷ rrs) [] in
      let seeds = ds_seeds c zone parent all [] in
      let checked : signed_by c now seeds (rr ∷ rrs) rrsigs raw all ≡ value keys =
        ground (arith, h, below) in
      let (returned, any) = signed_by-value now seeds (rr ∷ rrs) rrsigs raw all keys checked in
      let (j, record_of_sig, sig, sent, covers, s) =
        verify_any_rrsig-Signed now seeds (rr ∷ rrs) rrsigs type_dnskey raw any in
      let (i, ds, published, tag, held, digested) =
        ds_seeds-all (Vouched zone parent all) zone parent all []
          (λ i ds k published held digested. (i, ds, published, refl, held, digested))
          (λ tag k none_yet. absurd (nothing tag k none_yet)) sig.key_tag s.key s.found in
      (
        returned,
        record {
          ds = ds;
          at = i;
          published = published;
          key = s.key;
          held = held;
          digested = digested;
          sig = sig;
          by_key = sym tag;
          record_of_sig = record_of_sig;
          signed_at = j;
          sent = sent;
          covers = covers;
          begun = s.begun;
          not_over = s.not_over;
          signed = s.signed;
          of_the_set = s.of_the_set;
          holds = s.holds;
        },
      )
