-- ===== src/Dns/Name/RoundTrip.antt =====
-- What packName writes, parseName reads back.
use km_resolv.Prelude.{
  Bool-cases, inl, inr, ℕ, zero, suc, ◌+◌, ◌%◌, ◌≤◌, ◌<◌, ◌≡◌, refl, ap, ◌∙◌, Option, none, some,
  List, [], ◌∷◌, ◌++◌, append_assoc, Text, ok, arith, ◌==◌, nat_eq, list_eq, length, get_or, drop,
  All, length-drop, length-append, drop-eq-cons, drop-eq-append, drop-length_append,
  join-split_dots, split_dots, join_dots,
}
use native.Mathlib.Nat.{le_refl}
use km_resolv.Dns.Name.{
  end_or, add_label, slice, name_loop, name_fuel, parse_name, Parsed, pack_labels, pack_name,
}
use km_resolv.Dns.Name.Total.{parse_name-total}

-- What a label may be on the wire: 1 to 63 bytes.
abbrev pub IsLabel : Text → Type 0
IsLabel l = (0 < length l) × (length l < 64)

-- A name none of whose labels is empty or too long.
abbrev pub IsName : Text → Type 0
IsName name = All IsLabel (split_dots name)

unfoldable pub extend : Text → List Text → Text
extend acc [] = acc
extend acc (l ∷ ls) = extend (add_label acc l) ls

-- One round of the loop at the root label, and at a label of `n` bytes.
name_loop-root :
    (fuel : ℕ) (buf : Text) (off : ℕ) (name : Text) (visited : List ℕ) (stop : Option ℕ)
    → off < length buf
    → get_or buf off 0 ≡ 0
    → name_loop (suc fuel) buf off name visited stop ≡ some (ok (name, end_or stop (off + 1)))
unfolding name_loop
name_loop-root fuel buf off name visited stop h e = ground arith

name_loop-label :
    (fuel : ℕ) (buf : Text) (off : ℕ) (name : Text) (visited : List ℕ) (stop : Option ℕ) (n : ℕ)
    → get_or buf off 0 ≡ n
    → 0 < n
    → n < 64
    → off + 1 + n ≤ length buf
    → name_loop (suc fuel) buf off name visited stop
      ≡ name_loop fuel buf (off + 1 + n) (add_label name (slice buf (off + 1) n)) visited stop
unfolding name_loop
name_loop-label fuel buf off name visited stop n e p q r = ground arith

-- The length of a buffer, from a part of it.
pub length_of_drop :
    (buf : Text) (i : ℕ) (l r : Text)
    → i ≤ length buf
    → drop i buf ≡ l ++ r
    → i + length l ≤ length buf
length_of_drop buf i l r h e = omega (arith, length-drop i buf, length-append l r, ap length e)

name_loop-labels :
    (ls : List Text) (fuel : ℕ) (buf : Text) (off : ℕ) (acc post : Text)
    → length ls < fuel
    → All IsLabel ls
    → drop off buf ≡ pack_labels ls ++ post
    → name_loop fuel buf off acc [] none ≡ some (ok (extend acc ls, off + length (pack_labels ls)))
unfolding pack_labels extend
name_loop-labels ls zero buf off acc post f v e = absurd (omega arith)
name_loop-labels [] (suc fuel) buf off acc post f v e =
    let (zero_here, inside, _) = drop-eq-cons buf off 0 0 post e in
    name_loop-root fuel buf off acc [] none inside zero_here
name_loop-labels (l ∷ ls) (suc fuel) buf off acc post f v e =
    let n = length l in
    let (len_here, inside, after) =
      drop-eq-cons buf off 0 (n % 256) (l ++ (pack_labels ls ++ post))
        (e ∙ ap (◌∷◌ (n % 256)) (append_assoc l (pack_labels ls) post)) in
    let (bytes, left) = drop-eq-append buf (off + 1) l (pack_labels ls ++ post) after in
    name_loop-label fuel buf off acc [] none n (len_here ∙ omega arith) v.0.0 v.0.1
      (length_of_drop buf (off + 1) l (pack_labels ls ++ post) (omega arith) after)
    ∙ rw bytes (
        name_loop-labels ls fuel buf (off + 1 + n) (add_label acc l) post (omega arith) v.1 left
        ∙ ap (λ (k : ℕ). let r : Parsed = ok (extend (add_label acc l) ls, k) in some r)
            (omega (arith, length-append l (pack_labels ls))))

extend-cons :
    (c : ℕ) (s l : Text) (ls : List Text)
    → extend (c ∷ s) (l ∷ ls) ≡ (c ∷ s) ++ b'.' ∷ join_dots (l ∷ ls)
unfolding extend join_dots add_label
extend-cons c s l [] = refl
extend-cons c s l (m ∷ ls) =
    extend-cons c (s ++ b'.' ∷ l) m ls ∙ append_assoc (c ∷ s) (b'.' ∷ l) (b'.' ∷ join_dots (m ∷ ls))

pub extend-nil : (ls : List Text) → All IsLabel ls → extend [] ls ≡ join_dots ls
unfolding extend join_dots add_label
extend-nil [] v = refl
extend-nil (l ∷ []) v = refl
extend-nil ([] ∷ m ∷ ls) v = absurd (omega arith)
extend-nil ((c ∷ l) ∷ m ∷ ls) v = extend-cons c l m ls

pub length-pack_labels : (ls : List Text) → length ls < length (pack_labels ls)
unfolding pack_labels
length-pack_labels [] = omega arith
length-pack_labels (l ∷ ls) = omega (arith, length-pack_labels ls, length-append l (pack_labels ls))

pub pack_name-eq-labels :
    (name : Text) → IsName name → pack_name name ≡ pack_labels (split_dots name)
unfolding pack_name
pack_name-eq-labels [] v = absurd (omega arith)
pack_name-eq-labels (c ∷ []) v = elim (Bool-cases (c == b'.')) [
  | inl dot ↦ absurd (omega (arith, (rw dot at v).0.0))
  | inr other ↦ rw other
]
pack_name-eq-labels (c ∷ d ∷ s) v = ground arith

-- parseName reads a name that packName wrote, from wherever it stands in the buffer: it returns
-- the name, and the offset behind it. The name's labels are 1 to 63 bytes long.
pub parse-pack_name :
    (pre post name : Text)
    → IsName name
    → parse_name (pre ++ (pack_name name ++ post)) (length pre)
      ≡ ok (name, length pre + length (pack_name name))
parse-pack_name pre post name v =
    let ls = split_dots name in
    let packed = pack_name-eq-labels name v in
    let buf = pre ++ (pack_labels ls ++ post) in
    let looped =
      name_loop-labels ls (name_fuel buf) buf (length pre) [] post
        (omega (
          arith,
          length-pack_labels ls,
          length-append pre (pack_labels ls ++ post),
          length-append (pack_labels ls) post,
        ))
        v (drop-length_append pre (pack_labels ls ++ post)) in
    let returned = parse_name-total buf (length pre) (name_fuel buf) (le_refl _) in
    let spelled : extend [] ls ≡ name = extend-nil ls v ∙ join-split_dots name in
    rw packed (cc (looped, returned, spelled))
