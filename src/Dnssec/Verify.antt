-- ===== src/Dnssec/Verify.antt =====
-- The checks of digests and signatures in internal/dnssec/dnssec.go. The parameters are the
-- digests of crypto/sha1, sha256 and sha512 by their DS digest type, and rsa.VerifyPKCS1v15,
-- ecdsa.Verify and ed25519.Verify, each with the hash of the data that the source gives it.
use km_resolv.Prelude.{
  ℕ, ◌+◌, ◌*◌, ◌^◌, Bool, false, ◌&&◌, ◌||◌, Option, none, some, List, [], ◌∷◌, ◌++◌, Text, ◌==◌,
  nat_eq, list_eq, ltb, leb, length, get_or, take, drop, if◌then◌else◌, Map, lookup,
}
use km_resolv.Dns.{Rr}
use km_resolv.Dns.Name.{u16_at, slice}
use km_resolv.Dnssec.{Dnskey, Ds, Rrsig, Outcome, value, failed, panicked, type_rrsig, parse_rrsig}
use km_resolv.Dnssec.Wire.{dnskey_rdata, key_tag, wire_name, build_signed_data}

pub record Crypto : Type 0 where
  pub digest : ℕ → Text → Text
  -- the hash, by the number of its bits, and the modulus, the exponent, the data, the signature
  pub rsa : ℕ → ℕ → ℕ → Text → Text → Bool
  -- the bits of the curve, the point, the signature's numbers, the data
  pub ecdsa : ℕ → ℕ → ℕ → ℕ → ℕ → Text → Bool
  pub ed25519 : Text → Text → Text → Bool

-- big.Int.SetBytes, behind the bytes read so far
unfoldable pub big : ℕ → Text → ℕ
big n [] = n
big n (b ∷ s) = big (n * 256 + b) s

-- parseRSAPublicKey: the exponent and the modulus
unfoldable pub parse_rsa_public_key : Text → Option (ℕ × ℕ)
parse_rsa_public_key data' =
    let long = get_or data' 0 0 == 0 in
    let len = if long then u16_at data' 1 else get_or data' 0 0 in
    let off = if long then 3 else 1 in
    let e = big 0 (slice data' off len) in
    if ltb (length data') 2
    then none
    else if long && ltb (length data') 3
    then none
    else if ltb (length data') (off + len + 1)
    then none
    else if leb (2 ^ 63) e
    then none
    else some (e, big 0 (drop (off + len) data'))

module _ (c : Crypto) where
  unfoldable pub verify_rsa : ℕ → Text → Text → Text → Bool
  verify_rsa hash key data' signature = elim (parse_rsa_public_key key) [
    | none ↦ false
    | some (e, n) ↦ c.rsa hash n e data' signature
  ]

  -- verifyECDSAP256 and verifyECDSAP384, which take 64 and 96 bytes
  unfoldable pub verify_ecdsa : ℕ → ℕ → Text → Text → Text → Bool
  verify_ecdsa curve half key data' signature =
      length key == 2 * half
      && length signature == 2 * half
      && c.ecdsa curve (big 0 (take half key)) (big 0 (drop half key)) (big 0 (take half signature))
          (big 0 (drop half signature)) data'

  unfoldable pub verify_ed25519 : Text → Text → Text → Bool
  verify_ed25519 key data' signature =
      length key == 32 && length signature == 64 && c.ed25519 key data' signature

  unfoldable pub verify_crypto : Dnskey → Text → Text → Bool
  verify_crypto key data' signature =
      let alg = key.algorithm in
      if alg == 5 || alg == 7
      then verify_rsa 160 key.public_key data' signature
      else if alg == 8
      then verify_rsa 256 key.public_key data' signature
      else if alg == 10
      then verify_rsa 512 key.public_key data' signature
      else if alg == 13
      then verify_ecdsa 256 32 key.public_key data' signature
      else if alg == 14
      then verify_ecdsa 384 48 key.public_key data' signature
      else if alg == 15
      then verify_ed25519 key.public_key data' signature
      else false

  -- VerifyDS: whether it returns no error
  unfoldable pub verify_ds : Text → Dnskey → Ds → Bool
  verify_ds zone key ds =
      key_tag key == ds.key_tag
      && key.algorithm == ds.algorithm
      && (ds.digest_type == 1 || ds.digest_type == 2 || ds.digest_type == 4)
      && c.digest ds.digest_type (wire_name zone ++ dnskey_rdata key) == ds.digest

  -- The signature is checked, once its data is built.
  abbrev pub signature_holds : Dnskey → Rrsig → Outcome Text → Outcome (Unit {0})
  signature_holds key sig (value signed) =
      if verify_crypto key signed sig.signature then value tt else failed
  signature_holds key sig failed = failed
  signature_holds key sig panicked = panicked

  -- VerifyRRSIG; `now` is the clock in seconds, by 2 ^ 32
  unfoldable pub verify_rrsig : ℕ → Map ℕ Dnskey → List Rr → Rrsig → Text → Outcome (Unit {0})
  verify_rrsig now keys rrset sig raw =
      if ltb now sig.inception
      then failed
      else if ltb sig.expiration now
      then failed
      else elim (lookup sig.key_tag keys) [
        | none ↦ failed
        | some key ↦
            if key.algorithm == sig.algorithm
            then signature_holds key sig (build_signed_data sig rrset raw)
            else failed
      ]

  -- the signature of a record, if it covers the type
  abbrev pub covering : ℕ → Rr → Option Rrsig
  covering type rr = elim (if rr.type == type_rrsig then parse_rrsig rr else none) [
    | none ↦ none
    | some sig ↦ if sig.type_covered == type then some sig else none
  ]

  -- VerifyAnyRRSIG
  unfoldable pub verify_any_rrsig :
      ℕ → Map ℕ Dnskey → List Rr → List Rr → ℕ → Text → Outcome (Unit {0})
  verify_any_rrsig now keys rrset [] type raw = failed
  verify_any_rrsig now keys rrset (rr ∷ rrsigs) type raw =
      let rest = verify_any_rrsig now keys rrset rrsigs type raw in
      elim (covering type rr) [
        | none ↦ rest
        | some sig ↦ elim (verify_rrsig now keys rrset sig raw) [
          | value _ ↦ value tt
          | failed ↦ rest
          | panicked ↦ panicked
        ]
      ]
