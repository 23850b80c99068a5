-- ===== src/Prelude/Texts.antt =====
-- Go's strings as lists of bytes, and the functions of `strings` that the program calls, on the
-- bytes of ASCII: `to_lower` leaves a byte from 128 on alone.
use Prim.Native.Char.{code}
use Prim.Native.String.{String}
use Prim.Native.Nat.{ℕ, ◌+◌}
use mathlib.Core.Path.{◌≡◌, refl, sym, ap, ap₂, ◌∙◌}
use mathlib.Core.Logic.{◌⊎◌, inl, inr}
use mathlib.Core.Bool.{Bool, true, false, ◌&&◌, ◌||◌}
use mathlib.Core.Option.{Option, none, some}
use mathlib.Core.List.{List, [], ◌∷◌, ◌++◌, reverse}
use km_resolv.Prelude.Tests.{◌==◌, leb, eqb_iff, Bool-cases, if◌then◌else◌, nat_eq, list_eq}

abbrev pub Text : Type 0
Text = List ℕ

-- A value with an error beside it: `err` holds the text of the error.
pub data Result {ℓ} (A : Type ℓ) : Type ℓ where
  ok : A → Result A
  err : Text → Result A

pub Result-cases {ℓ} :
    {A : Type ℓ} (r : Result A) → ((e : Text) × (r ≡ err e)) ⊎ ((a : A) × (r ≡ ok a))
Result-cases (ok a) = inr (a, refl)
Result-cases (err e) = inl (e, refl)

infixl 5 ◌>>=◌ ◌>>◌
abbrev pub ◌>>=◌ {ℓ κ} : {A : Type ℓ} {B : Type κ} → Result A → (A → Result B) → Result B
ok value >>= next = next value
err text >>= next = err text

abbrev pub ◌>>◌ {ℓ} : {B : Type ℓ} → Result (Unit {0}) → Result B → Result B
m >> k = m >>= λ _. k

abbrev pub codes : String → Text
codes String.[] = []
codes (String.◌∷◌ c s) = code c ∷ codes s

unfoldable pub lower_byte : ℕ → ℕ
lower_byte c = if leb b'A' c && leb c b'Z' then c + 32 else c

-- strings.ToLower
unfoldable pub to_lower : Text → Text
unfolding lower_byte
to_lower [] = []
to_lower (c ∷ s) = lower_byte c ∷ to_lower s

-- strings.TrimSuffix(s, ".")
unfoldable pub trim_dot : Text → Text
trim_dot [] = []
trim_dot (c ∷ []) = if c == b'.' then [] else c ∷ []
trim_dot (c ∷ d ∷ s) = c ∷ trim_dot (d ∷ s)

-- s[strings.Index(s, ".") + 1:], if there is a dot
unfoldable pub after_dot : Text → Option Text
after_dot [] = none
after_dot (c ∷ s) = if c == b'.' then some s else after_dot s

cons_head : ℕ → List Text → List Text
cons_head c [] = (c ∷ []) ∷ []
cons_head c (l ∷ ls) = (c ∷ l) ∷ ls

-- strings.Split(s, ".")
unfoldable pub split_dots : Text → List Text
unfolding cons_head
split_dots [] = [] ∷ []
split_dots (c ∷ s) = let rest = split_dots s in if c == b'.' then [] ∷ rest else cons_head c rest

-- strings.Join(ls, ".")
unfoldable pub join_dots : List Text → Text
join_dots [] = []
join_dots (l ∷ []) = l
join_dots (l ∷ m ∷ ls) = l ++ b'.' ∷ join_dots (m ∷ ls)

-- strings.HasPrefix(s, t)
unfoldable pub has_prefix : Text → Text → Bool
has_prefix s [] = true
has_prefix [] (d ∷ t) = false
has_prefix (c ∷ s) (d ∷ t) = c == d && has_prefix s t

-- strings.HasSuffix(s, t)
unfoldable pub has_suffix : Text → Text → Bool
has_suffix [] t = [] == t
has_suffix (c ∷ s) t = c ∷ s == t || has_suffix s t

-- strings.Contains(s, t)
unfoldable pub contains : Text → Text → Bool
unfolding has_prefix
contains [] t = has_prefix [] t
contains (c ∷ s) t = has_prefix (c ∷ s) t || contains s t

-- tab, newline, vertical tab, form feed, carriage return, space
unfoldable pub is_space : ℕ → Bool
is_space c = (leb 9 c && leb c 13) || c == 32

unfoldable pub trim_left : Text → Text
unfolding is_space
trim_left [] = []
trim_left (c ∷ s) = let rest = trim_left s in if is_space c then rest else c ∷ s

-- strings.TrimSpace
unfoldable pub trim_space : Text → Text
unfolding trim_left
trim_space s = reverse (trim_left (reverse (trim_left s)))

-- The fields of a text, the one that is being read first: `cur` holds it, last byte first.
fields_from : Text → Text → List Text
unfolding is_space
fields_from cur [] = if cur == [] then [] else reverse cur ∷ []
fields_from cur (c ∷ s) =
    let stop = fields_from [] s in
    let go = fields_from (c ∷ cur) s in
    if is_space c then (if cur == [] then stop else reverse cur ∷ stop) else go

-- strings.Fields
unfoldable pub fields : Text → List Text
unfolding fields_from
fields s = fields_from [] s

tests :
    (split_dots (codes "a.bc.") ≡ codes "a" ∷ codes "bc" ∷ [] ∷ [])
    × (fields (codes " a  bc ") ≡ codes "a" ∷ codes "bc" ∷ [])
    × (trim_space (codes "  a b ") ≡ codes "a b")
    × (has_suffix (codes "www.a.b") (codes ".a.b") ≡ true)
    × (contains (codes "xNXy") (codes "NX") ≡ true)
    × (to_lower (codes "aB.C") ≡ codes "ab.c")
unfolding split_dots fields trim_space has_suffix contains to_lower
tests = (refl, refl, refl, refl, refl, refl)

split_dots_cons : (s : Text) → (l : Text) × (ls : List Text) × (split_dots s ≡ l ∷ ls)
unfolding split_dots
split_dots_cons [] = ([], [], refl)
split_dots_cons (c ∷ s) = elim (Bool-cases (c == b'.')) [
  | inl dot ↦ ([], split_dots s, rw dot)
  | inr other ↦ let (l, ls, e) = split_dots_cons s in (c ∷ l, ls, rw (other, e, cons_head))
]

join-cons_head :
    (c : ℕ) (l : Text) (ls : List Text) → join_dots ((c ∷ l) ∷ ls) ≡ c ∷ join_dots (l ∷ ls)
unfolding join_dots
join-cons_head c l [] = refl
join-cons_head c l (m ∷ ls) = refl

pub join-split_dots : (s : Text) → join_dots (split_dots s) ≡ s
unfolding split_dots join_dots
join-split_dots [] = refl
join-split_dots (c ∷ s) =
    let (l, ls, e) = split_dots_cons s in
    let ih : join_dots (l ∷ ls) ≡ s = ap join_dots (sym e) ∙ join-split_dots s in
    elim (Bool-cases (c == b'.')) [
      | inl dot ↦ rw (dot, e) (ap₂ {A = ℕ} {B = Text} ◌∷◌ (sym ((eqb_iff c b'.').0 dot)) ih)
      | inr other ↦ rw (other, e) (join-cons_head c l ls ∙ ap (◌∷◌ c) ih)
    ]
