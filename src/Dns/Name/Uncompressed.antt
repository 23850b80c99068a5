-- ===== src/Dns/Name/Uncompressed.antt =====
-- What packName writes, parseUncompressedName reads back.
use km_resolv.Prelude.{
  ℕ, zero, suc, ◌+◌, ◌%◌, ◌≤◌, ◌<◌, ◌≡◌, refl, ap, ap₂, ◌∙◌, some, List, [], ◌∷◌, ◌++◌,
  append_assoc, Text, ok, arith, length, get_or, drop, All, length-append, drop-eq-cons,
  drop-eq-append, join-split_dots, split_dots,
}
use km_resolv.Dns.Name.{
  Parsed, add_label, slice, pack_labels, pack_name, uncompressed_loop, parse_uncompressed_name,
}
use km_resolv.Dns.Name.RoundTrip.{
  IsLabel, IsName, extend, length_of_drop, extend-nil, length-pack_labels, pack_name-eq-labels,
}

uncompressed_loop-root :
    (fuel : ℕ) (buf : Text) (off : ℕ) (name : Text)
    → off < length buf
    → get_or buf off 0 ≡ 0
    → uncompressed_loop (suc fuel) buf off name ≡ some (ok (name, off + 1))
unfolding uncompressed_loop
uncompressed_loop-root fuel buf off name h e = ground arith

uncompressed_loop-label :
    (fuel : ℕ) (buf : Text) (off : ℕ) (name : Text) (n : ℕ)
    → get_or buf off 0 ≡ n
    → 0 < n
    → n < 64
    → off + 1 + n ≤ length buf
    → uncompressed_loop (suc fuel) buf off name
      ≡ uncompressed_loop fuel buf (off + 1 + n) (add_label name (slice buf (off + 1) n))
unfolding uncompressed_loop
uncompressed_loop-label fuel buf off name n e p q r = ground arith

uncompressed_loop-labels :
    (ls : List Text) (fuel : ℕ) (buf : Text) (off : ℕ) (acc post : Text)
    → length ls < fuel
    → All IsLabel ls
    → drop off buf ≡ pack_labels ls ++ post
    → uncompressed_loop fuel buf off acc ≡ some (ok (extend acc ls, off + length (pack_labels ls)))
unfolding pack_labels extend
uncompressed_loop-labels ls zero buf off acc post f v e = absurd (omega arith)
uncompressed_loop-labels [] (suc fuel) buf off acc post f v e =
    let (zero_here, inside, _) = drop-eq-cons buf off 0 0 post e in
    uncompressed_loop-root fuel buf off acc inside zero_here
uncompressed_loop-labels (l ∷ ls) (suc fuel) buf off acc post f v e =
    let n = length l in
    let more = pack_labels ls ++ post in
    let (len_here, inside, after) =
      drop-eq-cons buf off 0 (n % 256) (l ++ more)
        (e ∙ ap (◌∷◌ (n % 256)) (append_assoc l (pack_labels ls) post)) in
    let (bytes, left) = drop-eq-append buf (off + 1) l more after in
    let room = length_of_drop buf (off + 1) l more (omega arith) after in
    uncompressed_loop-label fuel buf off acc n (len_here ∙ omega arith) v.0.0 v.0.1 room
    ∙ rw bytes (
        uncompressed_loop-labels ls fuel buf (off + 1 + n) (add_label acc l) post (omega arith) v.1
          left
        ∙ ap (λ (k : ℕ). let r : Parsed = ok (extend (add_label acc l) ls, k) in some r)
            (omega (arith, length-append l (pack_labels ls))))

parse_uncompressed_name-loop :
    (buf : Text) (r : Parsed)
    → uncompressed_loop (length buf + 1) buf 0 [] ≡ some r
    → parse_uncompressed_name buf ≡ r
unfolding parse_uncompressed_name
parse_uncompressed_name-loop buf r h = ground (arith, h)

-- parseUncompressedName reads the name that packName wrote, whatever follows it. The name's labels
-- are 1 to 63 bytes long.
pub parse_uncompressed-pack_name :
    (name post : Text)
    → IsName name
    → parse_uncompressed_name (pack_name name ++ post) ≡ ok (name, length (pack_name name))
parse_uncompressed-pack_name name post v =
    let ls = split_dots name in
    let packed = pack_name-eq-labels name v in
    let buf = pack_labels ls ++ post in
    let looped =
      uncompressed_loop-labels ls (length buf + 1) buf 0 [] post
        (omega (arith, length-pack_labels ls, length-append (pack_labels ls) post)) v refl in
    let spelled : extend [] ls ≡ name = extend-nil ls v ∙ join-split_dots name in
    rw packed (
      parse_uncompressed_name-loop buf _ looped
      ∙ ap₂ (λ (t : Text) (k : ℕ). let r : Parsed = ok (t, k) in r) spelled (omega arith))
