-- ===== src/Dnssec/Anchors.antt =====
-- What the validation of the root zone takes from the trust anchors.
use km_resolv.Prelude.{
  ℕ, ◌≡◌, refl, sym, ap, ◌∙◌, true, Bool-cases, Option-cases, inl, inr, List, [], ◌∷◌, Text, arith,
  ◌==◌, nat_eq, All, if◌then◌else◌, keys, insert, has,
}
use km_resolv.Dns.{Rr}
use km_resolv.Dnssec.{Dnskey, Ds, parse_dnskey}
use km_resolv.Dnssec.Wire.{key_tag}
use km_resolv.Dnssec.Verify.{Crypto}
use km_resolv.Dnssec.Zone.{
  Keys, is_root_zone, collect_keys, take_tag, root_seeds, signed_by, validate_zone_dnskey,
}

-- Each key stands under its tag.
abbrev Tagged : Keys → Type 0
Tagged all = All (λ e. key_tag e.1 ≡ e.0) all

Tagged-insert : (k : Dnskey) (all : Keys) → Tagged all → Tagged (insert (key_tag k) k all)
unfolding insert
Tagged-insert k [] h = (refl, tt)
Tagged-insert k ((t, old) ∷ all) h = elim (Bool-cases (t == key_tag k)) [
  | inl same ↦ rw same (refl, h.1)
  | inr other ↦ rw other (h.0, Tagged-insert k all h.1)
]

collect_keys-Tagged : (rrs : List Rr) (all : Keys) → Tagged all → Tagged (collect_keys rrs all)
unfolding collect_keys
collect_keys-Tagged [] all h = h
collect_keys-Tagged (rr ∷ rrs) all h = elim (Option-cases (parse_dnskey rr)) [
  | inl bad ↦ rw (bad, collect_keys) (collect_keys-Tagged rrs all h)
  | inr (k, e) ↦
      rw (e, collect_keys)
        (collect_keys-Tagged rrs (insert (key_tag k) k all) (Tagged-insert k all h))
]

insert_again : (tag : ℕ) (a b : Dnskey) (m : Keys) → insert tag b (insert tag a m) ≡ insert tag b m
unfolding insert
insert_again tag a b [] = ground arith
insert_again tag a b ((t, old) ∷ m) = elim (Bool-cases (t == tag)) [
  | inl same ↦ ground arith
  | inr other ↦ rw (other, other) (ap (◌∷◌ (t, old)) (insert_again tag a b m))
]

-- A received key of the tag replaces what the seeds held under it.
take_tag-insert :
    (tag : ℕ) (a b : Dnskey) (all seeds : Keys)
    → Tagged all
    → has tag all ≡ true
    → take_tag tag all (insert tag a seeds) ≡ take_tag tag all (insert tag b seeds)
unfolding take_tag has
take_tag-insert tag a b [] seeds h found = cc
take_tag-insert tag a b ((t, k) ∷ all) seeds h found = elim (Bool-cases (key_tag k == tag)) [
  | inl same ↦
      rw same
        (ap (take_tag tag all) (insert_again tag a k seeds ∙ sym (insert_again tag b k seeds)))
  | inr other ↦ rw other (take_tag-insert tag a b all seeds h.1 (ground (arith, h.0, found, other)))
]

root_seeds-keys :
    (anchors others all seeds : Keys)
    → keys anchors ≡ keys others
    → Tagged all
    → root_seeds anchors all seeds ≡ root_seeds others all seeds
unfolding root_seeds
root_seeds-keys [] [] all seeds e h = refl
root_seeds-keys [] (o ∷ others) all seeds e h = cc
root_seeds-keys (a ∷ anchors) [] all seeds e h = cc
root_seeds-keys ((tag, a) ∷ anchors) ((t, b) ∷ others) all seeds e h =
    let same : tag ≡ t = ground (arith, e) in
    let rest : keys anchors ≡ keys others = ground (arith, e) in
    let next : take_tag tag all (if has tag all then insert tag a seeds else seeds)
        ≡ take_tag t all (if has t all then insert t b seeds else seeds) =
      elim (Bool-cases (has tag all)) [
        | inl found ↦ rw (← same, found) (take_tag-insert tag a b all seeds h found)
        | inr missing ↦ rw (← same, missing) refl
      ] in
    ap (root_seeds anchors all) next ∙ root_seeds-keys anchors others all _ rest h

-- At the root the validation depends on the trust anchors by their key tags alone: with anchors
-- of the same tags and any other public keys the result is the same.
pub validate_zone_dnskey-keys :
    (c : Crypto) (anchors others : Keys) (now : ℕ) (zone : Text) (rrset rrsigs : List Rr)
    (parent : List Ds) (raw : Text)
    → is_root_zone zone ≡ true
    → keys anchors ≡ keys others
    → validate_zone_dnskey c anchors now zone rrset rrsigs parent raw
      ≡ validate_zone_dnskey c others now zone rrset rrsigs parent raw
unfolding validate_zone_dnskey
validate_zone_dnskey-keys c anchors others now zone [] rrsigs parent raw root same = refl
validate_zone_dnskey-keys c anchors others now zone (rr ∷ rrs) rrsigs parent raw root same =
    let all = collect_keys (rr ∷ rrs) [] in
    let seeds = root_seeds-keys anchors others all [] same (collect_keys-Tagged (rr ∷ rrs) [] tt) in
    rw root (ap (λ s. signed_by c now s (rr ∷ rrs) rrsigs raw all) seeds)
