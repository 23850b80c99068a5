-- ===== src/Dashboard/Nonces.antt =====
-- The nonces of a login, over any sequence of calls.
use km_resolv.Prelude.{
  ℕ, ◌+◌, ◌≤◌, ◌≡◌, ◌≢◌, refl, ap, ◌∙◌, sym, subst, true, false, not, none, some, List, [], ◌∷◌,
  Text, nat_eq, list_eq, arith, All, ltb, Distinct, lookup, insert, remove, beq_refl, beq_ne,
  lookup-insert_self, lookup-insert_ne, lookup-remove, lookup-select, Distinct-insert,
  Distinct-remove, Distinct-select,
}
use km_resolv.Dashboard.{Nonces, nonce_life, issue, consume, cleanup}

-- The calls on the nonces, with the time of each.
pub data Call : Type 0 where
  issue_call : Text → ℕ → Call
  consume_call : Text → ℕ → Call
  cleanup_call : ℕ → Call

unfoldable pub step : Nonces → Call → Nonces
step n (issue_call nonce now) = issue nonce now n
step n (consume_call nonce now) = (consume nonce now n).0
step n (cleanup_call now) = cleanup now n

unfoldable pub run : List Call → Nonces → Nonces
run [] n = n
run (c ∷ calls) n = run calls (step n c)

-- A call that is about another nonce, or a cleanup; and not after a time.
abbrev pub Apart : Text → ℕ → Call → Type 0
Apart nonce last (issue_call other now) = (other ≢ nonce) × (now ≤ last)
Apart nonce last (consume_call other now) = (other ≢ nonce) × (now ≤ last)
Apart nonce last (cleanup_call now) = now ≤ last

-- A call that does not issue the nonce.
abbrev pub NotIssued : Text → Call → Type 0
NotIssued nonce (issue_call other now) = other ≢ nonce
NotIssued nonce (consume_call other now) = Unit
NotIssued nonce (cleanup_call now) = Unit

consume-state : (nonce : Text) (now : ℕ) (n : Nonces) → (consume nonce now n).0 ≡ remove nonce n
unfolding consume
consume-state nonce now n = ground arith

step-Distinct : (n : Nonces) (c : Call) → Distinct n → Distinct (step n c)
unfolding step issue cleanup
step-Distinct n (issue_call nonce now) d = Distinct-insert nonce (now + nonce_life) n d
step-Distinct n (consume_call nonce now) d =
    subst Distinct (sym (consume-state nonce now n)) (Distinct-remove nonce n d)
step-Distinct n (cleanup_call now) d = Distinct-select (λ e. not (ltb e.1 now)) n d

-- A good nonce stays so through calls about others, and cleanups before its end.
stays :
    (nonce : Text) (expires : ℕ) (n : Nonces) (c : Call)
    → Distinct n
    → Apart nonce expires c
    → lookup nonce n ≡ some expires
    → lookup nonce (step n c) ≡ some expires
unfolding step issue cleanup
stays nonce expires n (issue_call other now) d a h =
    lookup-insert_ne other nonce (now + nonce_life) n a.0 ∙ h
stays nonce expires n (consume_call other now) d a h =
    ap (lookup nonce) (consume-state other now n)
    ∙ lookup-remove other nonce n
    ∙ rw (beq_ne other nonce a.0) h
stays nonce expires n (cleanup_call now) d a h =
    ground (arith, lookup-select (λ e. not (ltb e.1 now)) nonce n d, h)

all_stay :
    (nonce : Text) (expires : ℕ) (calls : List Call) (n : Nonces)
    → Distinct n
    → All (Apart nonce expires) calls
    → lookup nonce n ≡ some expires
    → lookup nonce (run calls n) ≡ some expires
unfolding run
all_stay nonce expires [] n d a h = h
all_stay nonce expires (c ∷ calls) n d a h =
    all_stay nonce expires calls (step n c) (step-Distinct n c d) a.1
      (stays nonce expires n c d a.0 h)

gone :
    (nonce : Text) (n : Nonces) (c : Call)
    → Distinct n
    → NotIssued nonce c
    → lookup nonce n ≡ none
    → lookup nonce (step n c) ≡ none
unfolding step issue cleanup
gone nonce n (issue_call other now) d a h = lookup-insert_ne other nonce (now + nonce_life) n a ∙ h
gone nonce n (consume_call other now) d a h =
    ap (lookup nonce) (consume-state other now n) ∙ lookup-remove other nonce n ∙ ground (arith, h)
gone nonce n (cleanup_call now) d a h =
    ground (arith, lookup-select (λ e. not (ltb e.1 now)) nonce n d, h)

all_gone :
    (nonce : Text) (calls : List Call) (n : Nonces)
    → Distinct n
    → All (NotIssued nonce) calls
    → lookup nonce n ≡ none
    → lookup nonce (run calls n) ≡ none
unfolding run
all_gone nonce [] n d a h = h
all_gone nonce (c ∷ calls) n d a h =
    all_gone nonce calls (step n c) (step-Distinct n c d) a.1 (gone nonce n c d a.0 h)

run-Distinct : (calls : List Call) (n : Nonces) → Distinct n → Distinct (run calls n)
unfolding run
run-Distinct [] n d = d
run-Distinct (c ∷ calls) n d = run-Distinct calls (step n c) (step-Distinct n c d)

consumed :
    (nonce : Text) (expires now : ℕ) (n : Nonces)
    → lookup nonce n ≡ some expires
    → now ≤ expires
    → (consume nonce now n).1 ≡ true
unfolding consume
consumed nonce expires now n h le = ground (arith, h)

refused :
    (nonce : Text) (now : ℕ) (n : Nonces) → lookup nonce n ≡ none → (consume nonce now n).1 ≡ false
unfolding consume
refused nonce now n h = ground (arith, h)

removed : (nonce : Text) (n : Nonces) → lookup nonce (remove nonce n) ≡ none
removed nonce n = lookup-remove nonce nonce n ∙ rw (beq_refl nonce) refl

-- A nonce that has been issued is good for 60 seconds, whatever is issued, consumed or cleaned up
-- besides it; and once it is consumed it is refused, whatever follows, unless it is issued again.
pub consume-issue :
    (nonce : Text) (t now again : ℕ) (between after : List Call) (n : Nonces)
    → Distinct n
    → All (Apart nonce (t + nonce_life)) between
    → now ≤ t + nonce_life
    → All (NotIssued nonce) after
    → ((consume nonce now (run between (issue nonce t n))).1 ≡ true)
      × ((consume nonce again (run after (consume nonce now (run between (issue nonce t n))).0)).1
          ≡ false)
unfolding issue
consume-issue nonce t now again between after n d a le b =
    let issued = insert nonce (t + nonce_life) n in
    let di = Distinct-insert nonce (t + nonce_life) n d in
    let here = run between issued in
    let known =
      all_stay nonce (t + nonce_life) between issued di a
        (lookup-insert_self nonce (t + nonce_life) n) in
    let dh = run-Distinct between issued di in
    let state = consume-state nonce now here in
    (
      consumed nonce (t + nonce_life) now here known le,
      rw state (
          refused nonce again (run after (remove nonce here)) (
            all_gone nonce after (remove nonce here) (Distinct-remove nonce here dh) b
              (removed nonce here))),
    )
