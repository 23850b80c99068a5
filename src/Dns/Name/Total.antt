-- ===== src/Dns/Name/Total.antt =====
-- parseName comes to an end on every buffer: a pointer is followed once at most, and between two
-- pointers the offset grows.
use km_resolv.Prelude.{
  ℕ, zero, suc, ◌+◌, ◌-◌, ◌*◌, ◌%◌, ◌≤◌, ◌<◌, ◌≡◌, ◌≢◌, Bool, false, Bool-cases, Option-cases, inl,
  inr, Option, none, some, List, [], ◌∷◌, Text, arith, ◌==◌, nat_eq, any, length, get_or,
  if◌then◌else◌,
}
use km_resolv.Dns.Name.{u16_at, add_label, slice, name_loop, name_fuel, end_or, Parsed, parse_name}

abbrev seen : List ℕ → ℕ → Bool
seen visited p = any (λ v. v == p) visited

-- how many of the offsets below `k` no pointer has led to
unvisited : ℕ → List ℕ → ℕ
unvisited zero visited = 0
unvisited (suc k) visited =
    let rest = unvisited k visited in if seen visited k then rest else rest + 1

unvisited-le : (k : ℕ) (visited : List ℕ) → unvisited k visited ≤ k
unfolding unvisited
unvisited-le zero visited = omega arith
unvisited-le (suc k) visited = ground (arith, unvisited-le k visited)

unvisited-cons-le : (k p : ℕ) (visited : List ℕ) → unvisited k (p ∷ visited) ≤ unvisited k visited
unfolding unvisited
unvisited-cons-le zero p visited = omega arith
unvisited-cons-le (suc k) p visited = ground (arith, unvisited-cons-le k p visited)

unvisited-cons-lt :
    (k p : ℕ) (visited : List ℕ)
    → p < k
    → seen visited p ≡ false
    → unvisited k (p ∷ visited) < unvisited k visited
unfolding unvisited
unvisited-cons-lt zero p visited h new = absurd (omega arith)
unvisited-cons-lt (suc k) p visited h new = elim (Bool-cases (p == k)) [
  | inl same ↦ ground (arith, unvisited-cons-le k p visited)
  | inr other ↦ ground (arith, unvisited-cons-lt k p visited)
]

abbrev measure : Text → ℕ → List ℕ → ℕ
measure buf offset visited = unvisited 16384 visited * (length buf + 1) + (length buf - offset)

measure_pointer : (u w l a b : ℕ) → u < w → u * (l + 1) + (l - a) + 1 ≤ w * (l + 1) + (l - b)
measure_pointer u w l a b h = grind arith

-- The loop needs no more rounds than the measure says, whatever it has read so far.
name_loop-ne-none :
    (fuel : ℕ) (buf : Text) (offset : ℕ) (name : Text) (visited : List ℕ) (stop : Option ℕ)
    → measure buf offset visited < fuel
    → name_loop fuel buf offset name visited stop ≢ none
unfolding name_loop
name_loop-ne-none zero buf offset name visited stop h = absurd (omega arith)
name_loop-ne-none (suc fuel) buf offset name visited stop h = ground (
  arith,
  measure_pointer (unvisited 16384 (ptr ∷ visited)) (unvisited 16384 visited) (length buf) ptr
      offset,
  unvisited-cons-lt 16384 ptr visited,
  name_loop-ne-none fuel buf ptr name (ptr ∷ visited) (some (end_or stop (offset + 2))),
  name_loop-ne-none fuel buf (offset + 1 + len) (add_label name (slice buf (offset + 1) len))
      visited stop,
)
  where
    len : ℕ
    len = get_or buf offset 0

    ptr : ℕ
    ptr = u16_at buf offset % 16384

-- More rounds do not change the result of a loop that has come to an end.
name_loop_mono :
    (fuel more : ℕ) (buf : Text) (offset : ℕ) (name : Text) (visited : List ℕ) (stop : Option ℕ)
    (r : Parsed)
    → fuel ≤ more
    → name_loop fuel buf offset name visited stop ≡ some r
    → name_loop more buf offset name visited stop ≡ some r
unfolding name_loop
name_loop_mono zero more buf offset name visited stop r h e = cc
name_loop_mono (suc fuel) zero buf offset name visited stop r h e = absurd (omega arith)
name_loop_mono (suc fuel) (suc more) buf offset name visited stop r h e = ground (
  arith,
  name_loop_mono fuel more buf ptr name (ptr ∷ visited) (some (end_or stop (offset + 2))) r,
  name_loop_mono fuel more buf (offset + 1 + len) (add_label name (slice buf (offset + 1) len))
      visited stop r,
)
  where
    len : ℕ
    len = get_or buf offset 0

    ptr : ℕ
    ptr = u16_at buf offset % 16384

-- parseName ends on every buffer, at every offset, compression loops included: run for any number
-- of rounds from the bound on, its loop returns, and what it returns is the result of parse_name.
pub parse_name-total :
    (buf : Text) (offset rounds : ℕ)
    → name_fuel buf ≤ rounds
    → name_loop rounds buf offset [] [] none ≡ some (parse_name buf offset)
unfolding parse_name
parse_name-total buf offset rounds h =
    elim (Option-cases (name_loop (name_fuel buf) buf offset [] [] none)) [
      | inl e ↦ absurd (
          name_loop-ne-none (name_fuel buf) buf offset [] [] none
            (grind (arith, unvisited-le 16384 [])) e)
      | inr (r, e) ↦
          rw (e, parse_name) (name_loop_mono (name_fuel buf) rounds buf offset [] [] none r h e)
    ]
