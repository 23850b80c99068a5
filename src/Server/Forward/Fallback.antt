-- ===== src/Server/Forward/Fallback.antt =====
-- Which server's answer resolveViaServers returns.
use km_resolv.Prelude.{
  ℕ, ◌≡◌, ◌↔◌, refl, sym, ◌∙◌, ap, ◌≢◌, subst, false, Bool-cases, Result-cases, inl, inr, List, [],
  ◌∷◌, ◌++◌, Text, Result, ok, err,
}
use km_resolv.Dns.{Message}
use km_resolv.Config.{Config}
use km_resolv.Server.Query.{Network, Upstream}
use km_resolv.Server.Verdict.{is_nxdomain}
use km_resolv.Server.Forward.{ask_upstream, resolve_via_servers}

ok-ne-err : (e : Text) (m : Message) → err e ≢ ok m
ok-ne-err e m h = cc

module _ {World : Type 0} (net : Network World) (cfg : Config) (name : Text) (qtype : ℕ) where
  -- The servers, asked one after another, all fail, and none says NXDOMAIN; from a state to another.
  pub data Skips : List Text → Upstream World → Upstream World → Type 0 where
    none_left : {s : Upstream World} → Skips [] s s
    skipped :
        {upstream : Text} {servers : List Text} {s s' : Upstream World} (e : Text)
        → (ask_upstream net cfg upstream name qtype s).1 ≡ err e
        → is_nxdomain e ≡ false
        → Skips servers (ask_upstream net cfg upstream name qtype s).0 s'
        → Skips (upstream ∷ servers) s s'

  -- One of the servers answers, and those before it are skipped.
  pub record Answers (servers : List Text) (s s' : Upstream World) (m : Message) : Type 0 where
    pub before : List Text
    pub upstream : Text
    pub after : List Text
    pub split : servers ≡ before ++ upstream ∷ after
    pub middle : Upstream World
    pub skips : Skips before s middle
    pub answer : ask_upstream net cfg upstream name qtype middle ≡ (s', ok m)

  first_answer :
      (before after : List Text) (upstream : Text) (s middle s' : Upstream World) (m : Message)
      → Skips before s middle
      → ask_upstream net cfg upstream name qtype middle ≡ (s', ok m)
      → resolve_via_servers net cfg name qtype (before ++ upstream ∷ after) s ≡ (s', ok m)
  unfolding resolve_via_servers
  first_answer [] after upstream s middle s' m none_left answer =
      rw (resolve_via_servers, ap (λ x. x.1) answer, ap (λ x. x.0) answer) refl
  first_answer (u ∷ before) after upstream s middle s' m (skipped e failed other skips) answer =
      rw (resolve_via_servers, failed, other)
        (first_answer before after upstream (ask_upstream net cfg u name qtype s).0 middle s' m
          skips answer)

  Answers-now :
      (u : Text) (servers : List Text) (s s' : Upstream World) (m m' : Message)
      → (ask_upstream net cfg u name qtype s).1 ≡ ok m'
      → ◌≡◌ {A = Upstream World × Result Message}
          ((ask_upstream net cfg u name qtype s).0, ok m')
          (s', ok m)
      → Answers (u ∷ servers) s s' m
  Answers-now u servers s s' m m' e h = record {
    before = [];
    upstream = u;
    after = servers;
    split = refl;
    middle = s;
    skips = none_left;
    answer = ap (λ r. ((ask_upstream net cfg u name qtype s).0, r)) e ∙ h;
  }

  Answers-later :
      (u : Text) (servers : List Text) (s s' : Upstream World) (m : Message) (e : Text)
      → (ask_upstream net cfg u name qtype s).1 ≡ err e
      → is_nxdomain e ≡ false
      → Answers servers (ask_upstream net cfg u name qtype s).0 s' m
      → Answers (u ∷ servers) s s' m
  Answers-later u servers s s' m e failed other rest = record {
    before = u ∷ rest.before;
    upstream = rest.upstream;
    after = rest.after;
    split = ap (λ l. u ∷ l) rest.split;
    middle = rest.middle;
    skips = skipped e failed other rest.skips;
    answer = rest.answer;
  }

  Answers-of :
      (servers : List Text) (s s' : Upstream World) (m : Message)
      → resolve_via_servers net cfg name qtype servers s ≡ (s', ok m)
      → Answers servers s s' m
  unfolding resolve_via_servers
  Answers-of [] s s' m h = absurd (ok-ne-err _ m (ap (λ x. x.1) h))
  Answers-of (u ∷ servers) s s' m h = elim (Result-cases (ask_upstream net cfg u name qtype s).1) [
    | inr (m', e) ↦ Answers-now u servers s s' m m' e (rw (resolve_via_servers, e) at h)
    | inl (text, e) ↦ elim (Bool-cases (is_nxdomain text)) [
      | inl f ↦ absurd (ok-ne-err text m (ap (λ x. x.1) (rw (resolve_via_servers, e, f) at h)))
      | inr f ↦ Answers-later u servers s s' m text e f (
          Answers-of servers (ask_upstream net cfg u name qtype s).0 s' m
            (rw (resolve_via_servers, e, f) at h))
    ]
  ]

  -- resolveViaServers returns an answer exactly where one of the servers gives it and those before
  -- it, asked one after another, all fail without an error that says NXDOMAIN. So one server that
  -- answers is enough, behind any number of servers that fail.
  pub resolve_via_servers-Answers :
      (servers : List Text) (s s' : Upstream World) (m : Message)
      → (resolve_via_servers net cfg name qtype servers s ≡ (s', ok m)) ↔ Answers servers s s' m
  resolve_via_servers-Answers servers s s' m = (
    Answers-of servers s s' m,
    λ a.
        subst (λ l. resolve_via_servers net cfg name qtype l s ≡ (s', ok m)) (sym a.split)
          (first_answer a.before a.after a.upstream s a.middle s' m a.skips a.answer),
  )
