-- ===== src/Dns/Name.antt =====
-- Domain names on the wire: parseName, packName and parseUncompressedName of
-- internal/dns/message.go.
pub mod Total
pub mod RoundTrip
pub mod Uncompressed
use km_resolv.Prelude.{
  ℕ, zero, suc, ◌+◌, ◌*◌, ◌/◌, ◌%◌, ◌≡◌, refl, Option, none, some, List, [], ◌∷◌, ◌++◌, Text, codes,
  Result, ok, err, ◌==◌, nat_eq, list_eq, ltb, leb, not_zero, any, length, get_or, take, drop,
  if◌then◌else◌, split_dots,
}

abbrev pub Parsed : Type 0
Parsed = Result (Text × ℕ)

-- binary.BigEndian.Uint16(buf[i : i+2])
unfoldable pub u16_at : Text → ℕ → ℕ
u16_at buf i = get_or buf i 0 * 256 + get_or buf (i + 1) 0

-- buf[i : i+n]
abbrev pub slice : Text → ℕ → ℕ → Text
slice buf i n = take n (drop i buf)

-- the label appended to the name, behind a dot unless it is the first
unfoldable pub add_label : Text → Text → Text
add_label [] label = label
add_label (c ∷ s) label = (c ∷ s) ++ b'.' ∷ label

abbrev pub end_or : Option ℕ → ℕ → ℕ
end_or none e = e
end_or (some e) _ = e

-- The loop of parseName, a round for each unit of fuel; `none` means that the fuel ran out.
-- `stop` is `end`, which is -1 until the first pointer or the root label.
unfoldable pub name_loop : ℕ → Text → ℕ → Text → List ℕ → Option ℕ → Option Parsed
unfolding u16_at add_label
name_loop zero buf offset name visited stop = none
name_loop (suc fuel) buf offset name visited stop =
    let len = get_or buf offset 0 in
    let ptr = u16_at buf offset % 16384 in
    let follow = name_loop fuel buf ptr name (ptr ∷ visited) (some (end_or stop (offset + 2))) in
    let rest =
      name_loop fuel buf (offset + 1 + len) (add_label name (slice buf (offset + 1) len)) visited
        stop in
    if leb (length buf) offset
    then some (err (codes "name parse: offset out of bounds"))
    else if len == 0
    then some (ok (name, end_or stop (offset + 1)))
    else if len / 64 % 4 == 3
    then (if leb (length buf) (offset + 1)
        then some (err (codes "name parse: pointer truncated"))
        else if any (λ v. v == ptr) visited
        then some (err (codes "name parse: compression pointer loop"))
        else follow)
    else if not_zero (len / 64 % 4)
    then some (err (codes "name parse: reserved label type"))
    else if ltb (length buf) (offset + 1 + len)
    then some (err (codes "name parse: label out of bounds"))
    else rest

-- Enough rounds for every buffer: `Name.Total` has the proof.
abbrev pub name_fuel : Text → ℕ
name_fuel buf = 16385 * (length buf + 1)

unfoldable pub parse_name : Text → ℕ → Parsed
unfolding name_loop
parse_name buf offset = elim (name_loop (name_fuel buf) buf offset [] [] none) [
  | none ↦ err (codes "out of fuel")
  | some r ↦ r
]

-- a label behind its length byte
unfoldable pub pack_label : Text → Text
pack_label label = (length label % 256) ∷ label

unfoldable pub pack_labels : List Text → Text
unfolding pack_label
pack_labels [] = 0 ∷ []
pack_labels (l ∷ ls) = pack_label l ++ pack_labels ls

-- packName: the loop cuts the name at each dot and at its end
unfoldable pub pack_name : Text → Text
unfolding pack_labels split_dots
pack_name name =
    if name == []
    then 0 ∷ []
    else if name == codes "."
    then 0 ∷ []
    else pack_labels (split_dots name)

-- parseUncompressedName of message.go, over the bytes from `i` on.
unfoldable pub uncompressed_loop : ℕ → Text → ℕ → Text → Option Parsed
unfolding add_label
uncompressed_loop zero buf i name = none
uncompressed_loop (suc fuel) buf i name =
    let len = get_or buf i 0 in
    let rest = uncompressed_loop fuel buf (i + 1 + len) (add_label name (slice buf (i + 1) len)) in
    if leb (length buf) i
    then some (err (codes "name parse: offset out of bounds"))
    else if len == 0
    then some (ok (name, i + 1))
    else if not_zero (len / 64 % 4)
    then some (err (codes "name parse: compression pointer in uncompressed name"))
    else if ltb (length buf) (i + 1 + len)
    then some (err (codes "name parse: label out of bounds"))
    else rest

unfoldable pub parse_uncompressed_name : Text → Parsed
unfolding uncompressed_loop
parse_uncompressed_name buf = elim (uncompressed_loop (length buf + 1) buf 0 []) [
  | none ↦ err (codes "out of fuel")
  | some r ↦ r
]

abbrev sample : Text
sample = pack_name (codes "www.a.de") ++ 3 ∷ codes "abc" ++ 192 ∷ 4 ∷ []

tests :
    (pack_name (codes "a.bc") ≡ 1 ∷ b'a' ∷ 2 ∷ b'b' ∷ b'c' ∷ 0 ∷ [])
    × (parse_name sample 0 ≡ ok (codes "www.a.de", 10))
    × (parse_name sample 10 ≡ ok (codes "abc.a.de", 16))
unfolding pack_name parse_name
tests = (refl, refl, refl)
