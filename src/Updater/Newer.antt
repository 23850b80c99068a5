-- ===== src/Updater/Newer.antt =====
-- Which release Check calls available.
use km_resolv.Prelude.{
  ℕ, zero, suc, ◌+◌, ◌-◌, max, ◌≤◌, ◌<◌, ◌≡◌, ◌↔◌, ◌⊎◌, refl, sym, ap, subst, true, false,
  Bool-cases, inl, inr, Option, none, some, List, [], ◌∷◌, Text, Result, ok, err, Result-cases,
  arith, length, ltb,
}
use km_resolv.Config.{ℤ, pos, negsuc}
use km_resolv.Updater.{
  Release, Cached, Response, fetch_latest, trim_v, less, part, newer, parse_semver, is_newer,
  refresh, check, cache_ttl,
}

-- At the first position at which two versions differ, the first one is greater.
abbrev pub Newer : List ℤ → List ℤ → Type 0
Newer lv cv =
    (k : ℕ) × ((j : ℕ) → j < k → part lv j ≡ part cv j) × (less (part cv k) (part lv k) ≡ true)

-- the same among `n` positions from `i` on
abbrev NewerFrom : List ℤ → List ℤ → ℕ → ℕ → Type 0
NewerFrom lv cv n i =
    (k : ℕ) × (i ≤ k)
    × (k < i + n)
    × ((j : ℕ) → i ≤ j → j < k → part lv j ≡ part cv j)
    × (less (part cv k) (part lv k) ≡ true)

less_irrefl : (a : ℤ) → less a a ≡ false
unfolding less
less_irrefl (pos a) = ground arith
less_irrefl (negsuc a) = ground arith

less_total : (a b : ℤ) → less a b ≡ false → less b a ≡ false → a ≡ b
unfolding less
less_total (pos a) (pos b) h g = ap pos (ground arith)
less_total (pos a) (negsuc b) h g = absurd (cc)
less_total (negsuc a) (pos b) h g = absurd (cc)
less_total (negsuc a) (negsuc b) h g = ap negsuc (ground arith)

less_asym : (a b : ℤ) → less a b ≡ true → less b a ≡ false
unfolding less
less_asym (pos a) (pos b) h = ground arith
less_asym (pos a) (negsuc b) h = absurd (cc)
less_asym (negsuc a) (pos b) h = refl
less_asym (negsuc a) (negsuc b) h = ground arith

le_cases : (i j : ℕ) → i ≤ j → (i ≡ j) ⊎ (i + 1 ≤ j)
le_cases i j h = ground arith

newer_to : (lv cv : List ℤ) (n i : ℕ) → newer lv cv n i ≡ true → NewerFrom lv cv n i
unfolding newer
newer_to lv cv zero i h = absurd (cc)
newer_to lv cv (suc n) i h = elim (Bool-cases (less (part cv i) (part lv i))) [
  | inl g ↦ (i, omega arith, omega arith, λ j a b. absurd (omega arith), g)
  | inr g ↦ elim (Bool-cases (less (part lv i) (part cv i))) [
    | inl f ↦ absurd (ground (arith, g, f, h))
    | inr f ↦
        let (k, a, b, c, d) = newer_to lv cv n (i + 1) (ground (arith, g, f, h)) in
        (
          k,
          omega arith,
          omega arith,
          λ j x y. elim (le_cases i j x) [
            | inl e ↦ subst (λ m. part lv m ≡ part cv m) e (less_total (part lv i) (part cv i) f g)
            | inr e ↦ c j e y
          ],
          d,
        )
  ]
]

newer_from : (lv cv : List ℤ) (n i : ℕ) → NewerFrom lv cv n i → newer lv cv n i ≡ true
unfolding newer
newer_from lv cv zero i (k, a, b, c, d) = absurd (omega arith)
newer_from lv cv (suc n) i (k, a, b, c, d) = elim (le_cases i k a) [
  | inl e ↦
      let now : less (part cv i) (part lv i) ≡ true =
        subst (λ m. less (part cv m) (part lv m) ≡ true) (sym e) d in
      rw now refl
  | inr e ↦
      let same = c i (omega arith) (omega arith) in
      rw (same, less_irrefl (part cv i))
        (newer_from lv cv n (i + 1) (k, e, omega arith, λ j x y. c j (omega arith) y, d))
]

part_beyond : (v : List ℤ) (i : ℕ) → length v ≤ i → part v i ≡ pos 0
unfolding part
part_beyond [] i h = refl
part_beyond (x ∷ v) zero h = absurd (omega arith)
part_beyond (x ∷ v) (suc i) h = part_beyond v i (omega arith)

le_or_lt : (a b : ℕ) → (a ≤ b) ⊎ (b < a)
le_or_lt a b = ground arith

differ : {a b : ℤ} → a ≡ pos 0 → b ≡ pos 0 → ¬ (less a b ≡ true)
unfolding less
differ h g d = cc

-- A difference is not behind the end of both.
inside :
    (lv cv : List ℤ) (k : ℕ) → less (part cv k) (part lv k) ≡ true → k < max (length lv) (length cv)
inside lv cv k d = elim (le_or_lt (max (length lv) (length cv)) k) [
  | inr lt ↦ lt
  | inl le ↦ absurd (differ (part_beyond cv k (omega arith)) (part_beyond lv k (omega arith)) d)
]

newer_iff : (lv cv : List ℤ) → (newer lv cv (max (length lv) (length cv)) 0 ≡ true) ↔ Newer lv cv
newer_iff lv cv =
    let n = max (length lv) (length cv) in
    (
      λ h. let (k, a, b, c, d) = newer_to lv cv n 0 h in (k, λ j lt. c j (omega arith) lt, d),
      λ (k, c, d).
          let lt = inside lv cv k d in
          newer_from lv cv n 0 (k, omega arith, omega arith, λ j x y. c j y, d),
    )

-- One call of Check: the answer to its request, the times at which it looks and stores.
pub record Call : Type 0 where
  pub response : Response
  pub now : ℕ
  pub stored : ℕ

module _ (atoi : Text → ℤ) (current : Text) where
  unfoldable pub run : List Call → Option Cached → Option Cached
  run [] cached = cached
  run (c ∷ calls) cached = run calls (check atoi current c.response c.now c.stored cached).0

  -- The release of a tag, available exactly if the tag is newer.
  pub record IsJudged (r : Release) : Type 0 where
    pub tag : Text
    pub version : r.version ≡ trim_v tag
    pub available :
        (r.available ≡ true)
        ↔ Newer (parse_semver atoi (trim_v tag)) (parse_semver atoi (trim_v current))

  abbrev Sound : Option Cached → Type 0
  Sound none = Unit
  Sound (some c) = IsJudged c.result

  abbrev SoundResult : Result Release → Type 0
  SoundResult (err e) = Unit
  SoundResult (ok r) = IsJudged r

  judged :
      (tag url : Text)
      → IsJudged (record { available = is_newer atoi tag current; version = trim_v tag; url = url })
  unfolding is_newer
  judged tag url = record { tag = tag; version = refl; available = newer_iff _ _ }

  refresh-Sound :
      (response : Response) (stored : ℕ) (cached : Option Cached)
      → Sound cached
      → Sound (refresh atoi current response stored cached).0
        × SoundResult (refresh atoi current response stored cached).1
  unfolding refresh
  refresh-Sound response stored cached h = elim (Result-cases (fetch_latest response)) [
    | inl (e, f) ↦ rw (Sound, SoundResult, f) (h, tt)
    | inr ((tag, url), f) ↦ rw (Sound, SoundResult, f) (judged tag url, judged tag url)
  ]

  check-Sound :
      (c : Call) (cached : Option Cached)
      → Sound cached
      → Sound (check atoi current c.response c.now c.stored cached).0
        × SoundResult (check atoi current c.response c.now c.stored cached).1
  unfolding check
  check-Sound c none h = refresh-Sound c.response c.stored none tt
  check-Sound c (some k) h = elim (Bool-cases (ltb (c.now - k.cached_at) cache_ttl)) [
    | inl fresh ↦ rw fresh (h, h)
    | inr old ↦ rw old (refresh-Sound c.response c.stored (some k) h)
  ]

  run-Sound : (calls : List Call) (cached : Option Cached) → Sound cached → Sound (run calls cached)
  unfolding run
  run-Sound [] cached h = h
  run-Sound (c ∷ calls) cached h = run-Sound calls _ (check-Sound c cached h).0

  -- Whatever earlier calls have left in the cache, the release that Check returns is that of a tag,
  -- with its version, and it is called available exactly if at the first number at which the tag's
  -- version and the running one differ, with zeros behind the end of the shorter, the tag's is
  -- greater.
  pub check-IsJudged :
      (calls : List Call) (c : Call) (r : Release)
      → (check atoi current c.response c.now c.stored (run calls none)).1 ≡ ok r
      → IsJudged r
  check-IsJudged calls c r h = subst SoundResult h (check-Sound c _ (run-Sound calls none tt)).1
