-- ===== src/Dns/Tests.antt =====
-- The theorems about names on the wire, at concrete buffers.
use km_resolv.Prelude.{
  ◌+◌, ◌≡◌, some, none, [], ◌∷◌, ◌++◌, Text, codes, ok, arith, length, split_dots,
}
use native.Mathlib.Nat.{le_refl}
use km_resolv.Dns.Name.{name_loop, name_fuel, parse_name, pack_name}
use km_resolv.Dns.Name.Total.{parse_name-total}
use km_resolv.Dns.Name.RoundTrip.{parse-pack_name}

abbrev before : Text
before = 1 ∷ 2 ∷ []

-- Two pointers that lead to each other.
abbrev knot : Text
knot = 192 ∷ 2 ∷ 192 ∷ 0 ∷ []

parse_name-total_example : name_loop (name_fuel knot) knot 0 [] [] none ≡ some (parse_name knot 0)
parse_name-total_example = parse_name-total knot 0 (name_fuel knot) (le_refl _)

parse-pack_name_example :
    parse_name (before ++ (pack_name (codes "ns.a.de") ++ 7 ∷ [])) (length before)
    ≡ ok (codes "ns.a.de", length before + length (pack_name (codes "ns.a.de")))
unfolding split_dots
parse-pack_name_example =
    parse-pack_name before (7 ∷ []) (codes "ns.a.de")
      ((omega arith, omega arith), ((omega arith, omega arith), ((omega arith, omega arith), tt)))
