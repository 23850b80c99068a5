-- ===== src/Dashboard/Tokens.antt =====
-- The session cookie of internal/dashboard/dashboard.go.
use km_resolv.Prelude.{
  ◌≡◌, ◌↔◌, refl, sym, ◌∙◌, ap, ap₂, Bool, true, false, ◌&&◌, Option-cases, inl, inr, some, [], ◌∷◌,
  ◌++◌, Text, ◌==◌, nat_eq, list_eq, arith, All, list_beq_iff, beq_refl,
}
use km_resolv.Dashboard.{split_dot, sign_token, verify_token}

-- A text without a dot, as hexadecimal digits are.
abbrev pub Dotless : Text → Type 0
Dotless s = All (λ c. (c == b'.') ≡ false) s

split_dot-append : (s t : Text) → Dotless s → split_dot (s ++ (b'.' ∷ t)) ≡ some (s, t)
unfolding split_dot
split_dot-append [] t h = refl
split_dot-append (c ∷ s) t h = rw (h.0, split_dot-append s t h.1) refl

module _ (mac : Text → Text → Text) (secret session : Text) where
  verify_token-eq :
      (s token signature : Text)
      → split_dot s ≡ some (token, signature)
      → verify_token mac secret session s
        ≡ (s == sign_token mac secret session token && token == session)
  unfolding verify_token
  verify_token-eq s token signature e = rw (verify_token, e) refl

  split-sign :
      Dotless session
      → split_dot (sign_token mac secret session session) ≡ some (session, mac secret session)
  unfolding sign_token
  split-sign h = split_dot-append session (mac secret session) h

  verify-sign :
      Dotless session
      → verify_token mac secret session (sign_token mac secret session session) ≡ true
  verify-sign h =
      verify_token-eq (sign_token mac secret session session) session (mac secret session)
        (split-sign h)
      ∙ ap₂ (λ a b. a && b) (beq_refl (sign_token mac secret session session)) (beq_refl session)

  both_true : (a b : Bool) → (a && b) ≡ true → (a ≡ true) × (b ≡ true)
  both_true a b h = ground (arith, h)

  sign-verify :
      (s : Text)
      → verify_token mac secret session s ≡ true
      → s ≡ sign_token mac secret session session
  unfolding verify_token
  sign-verify s h = elim (Option-cases (split_dot s)) [
    | inl e ↦ absurd (ground (arith, h, e))
    | inr ((token, signature), e) ↦
        let (signed, known) =
          both_true (s == sign_token mac secret session token) (token == session)
            (sym (verify_token-eq s token signature e) ∙ h) in
        (list_beq_iff s (sign_token mac secret session token)).0 signed
        ∙ ap (sign_token mac secret session) ((list_beq_iff token session).0 known)
  ]

  -- The cookie that authenticates is the one that a login sets, and no other: the session token with
  -- its signature, where the token has no dot.
  pub verify_token_iff :
      (s : Text)
      → Dotless session
      → (verify_token mac secret session s ≡ true) ↔ (s ≡ sign_token mac secret session session)
  verify_token_iff s h =
      (sign-verify s, λ e. ap (verify_token mac secret session) e ∙ verify-sign h)
