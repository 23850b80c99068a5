-- ===== src/Commands/Shown.antt =====
-- Which entries cmdLog of cmd/kmresolv/cmd_cli.go prints.
use mathlib.Core.List.{reverse, reverse-append, reverse-cons}
use native.Mathlib.Nat.{zero-add}
use km_resolv.Prelude.{
  ℕ, zero, suc, ◌+◌, ◌-◌, ◌^◌, ◌≤◌, ◌<◌, ◌≡◌, ◌⊎◌, refl, sym, ap, ◌∙◌, subst, inl, inr, true, false,
  Bool-cases, none, some, List, [], ◌∷◌, ◌++◌, append-nil, append_assoc, arith, ltb, leb, length,
  get_elem?, set, take, drop, length-append, length-drop, take-append-drop, take-length_append,
}
use km_resolv.Config.{pos, negsuc}
use km_resolv.Commands.{swap, turn, shown, log_start}

module _ {A : Type 0} where
  get_elem-skip :
      (xs ys : List A) (i k : ℕ) → k ≡ length xs + i → get_elem? (xs ++ ys) k ≡ get_elem? ys i
  get_elem-skip [] ys i k e = rw (e, zero-add) refl
  get_elem-skip (x ∷ xs) ys i zero e = absurd (omega arith)
  get_elem-skip (x ∷ xs) ys i (suc k) e = get_elem-skip xs ys i k (omega arith)

  set-skip :
      (xs ys : List A) (i k : ℕ) (v : A) → k ≡ length xs + i → set (xs ++ ys) k v ≡ xs ++ set ys i v
  set-skip [] ys i k v e = rw (e, zero-add) refl
  set-skip (x ∷ xs) ys i zero v e = absurd (omega arith)
  set-skip (x ∷ xs) ys i (suc k) v e = ap (◌∷◌ x) (set-skip xs ys i k v (omega arith))

  swap-ends :
      (i j : ℕ) (pre m post : List A) (x y : A)
      → i ≡ length pre
      → j ≡ length pre + suc (length m)
      → swap i j (pre ++ (x ∷ (m ++ (y ∷ post)))) ≡ some (pre ++ (y ∷ (m ++ (x ∷ post))))
  swap-ends i j pre m post x y at_i at_j =
      let xs = pre ++ (x ∷ (m ++ (y ∷ post))) in
      let ys = pre ++ (y ∷ (m ++ (y ∷ post))) in
      let a : get_elem? xs i ≡ some x =
        get_elem-skip pre (x ∷ (m ++ (y ∷ post))) 0 i (omega arith) in
      let b : get_elem? xs j ≡ some y =
        get_elem-skip pre (x ∷ (m ++ (y ∷ post))) (suc (length m)) j at_j
        ∙ get_elem-skip m (y ∷ post) 0 (length m) (omega arith) in
      let c : set xs i y ≡ ys = set-skip pre (x ∷ (m ++ (y ∷ post))) 0 i y (omega arith) in
      let d : set ys j x ≡ pre ++ (y ∷ (m ++ (x ∷ post))) =
        set-skip pre (y ∷ (m ++ (y ∷ post))) (suc (length m)) j x at_j
        ∙ ap (λ (t : List A). pre ++ (y ∷ t))
            (set-skip m (y ∷ post) 0 (length m) x (omega arith)) in
      rw (swap, a, b, c, d) refl

  -- A list is empty or has a last element.
  ends : (xs : List A) → (xs ≡ []) ⊎ ((m : List A) × (y : A) × (xs ≡ m ++ (y ∷ [])))
  ends [] = inl refl
  ends (x ∷ xs) = elim (ends xs) [
    | inl e ↦ inr ([], x, ap (◌∷◌ x) e)
    | inr (m, y, e) ↦ inr (x ∷ m, y, ap (◌∷◌ x) e)
  ]

  reverse-ends :
      (x y : A) (m : List A) → reverse (x ∷ (m ++ (y ∷ []))) ≡ y ∷ (reverse m ++ (x ∷ []))
  reverse-ends x y m =
      reverse-cons x (m ++ (y ∷ []))
      ∙ ap (λ (t : List A). t ++ (x ∷ [])) (reverse-append m (y ∷ []))

  turn-stop : (fuel i j : ℕ) (xs : List A) → j ≤ i → turn (suc fuel) i j xs ≡ some xs
  unfolding turn
  turn-stop fuel i j xs h = let no : ltb i j ≡ false = ground arith in rw (turn, no) refl

  turn-swap :
      (fuel i j : ℕ) (xs ys : List A)
      → i < j
      → swap i j xs ≡ some ys
      → turn (suc fuel) i j xs ≡ turn fuel (i + 1) (j - 1) ys
  unfolding turn
  turn-swap fuel i j xs ys h e = let yes : ltb i j ≡ true = ground arith in rw (turn, yes, e) refl

  turn-eq :
      (fuel i j : ℕ) (pre mid post : List A)
      → length mid < fuel
      → i ≡ length pre
      → j ≡ length pre + length mid - 1
      → turn fuel i j (pre ++ (mid ++ post)) ≡ some (pre ++ (reverse mid ++ post))
  turn-eq zero i j pre mid post h a b = absurd (omega arith)
  turn-eq (suc fuel) i j pre [] post h a b = turn-stop fuel i j (pre ++ post) (omega arith)
  turn-eq (suc fuel) i j pre (x ∷ rest) post h a b = elim (ends rest) [
    | inl e ↦ rw e (turn-stop fuel i j (pre ++ (x ∷ post)) (omega (arith, ap length e)))
    | inr (m, y, e) ↦
        let size : length rest ≡ length m + 1 = ap length e ∙ length-append m (y ∷ []) in
        let next = pre ++ (y ∷ []) in
        let whole : pre ++ ((x ∷ rest) ++ post) ≡ pre ++ (x ∷ (m ++ (y ∷ post))) =
          ap (λ (t : List A). pre ++ (x ∷ t))
            (ap (λ (t : List A). t ++ post) e ∙ append_assoc m (y ∷ []) post) in
        let swapped : swap i j (pre ++ ((x ∷ rest) ++ post)) ≡ some (next ++ (m ++ (x ∷ post))) =
          ap (swap i j) whole
          ∙ swap-ends i j pre m post x y a (omega (arith, size))
          ∙ ap some (sym (append_assoc pre (y ∷ []) (m ++ (x ∷ post)))) in
        let turned : reverse (x ∷ rest) ++ post ≡ y ∷ (reverse m ++ (x ∷ post)) =
          ap (λ (t : List A). reverse (x ∷ t) ++ post) e
          ∙ ap (λ (t : List A). t ++ post) (reverse-ends x y m)
          ∙ ap (◌∷◌ y) (append_assoc (reverse m) (x ∷ []) post) in
        turn-swap fuel i j _ _ (omega (arith, size)) swapped
        ∙ turn-eq fuel (i + 1) (j - 1) next m (x ∷ post) (omega (arith, size))
            (omega (arith, length-append pre (y ∷ [])))
            (omega (arith, size, length-append pre (y ∷ [])))
        ∙ ap some (
            append_assoc pre (y ∷ []) (reverse m ++ (x ∷ post))
            ∙ ap (λ (t : List A). pre ++ t) (sym turned))
  ]

  pub length-reverse : (xs : List A) → length (reverse xs) ≡ length xs
  length-reverse [] = refl
  length-reverse (x ∷ xs) =
      ap length (reverse-cons x xs)
      ∙ length-append (reverse xs) (x ∷ [])
      ∙ ap (λ (k : ℕ). k + 1) (length-reverse xs)
      ∙ omega arith

  take-all : (n : ℕ) (xs : List A) → length xs ≤ n → take n xs ≡ xs
  take-all zero [] h = refl
  take-all zero (x ∷ xs) h = absurd (omega arith)
  take-all (suc n) [] h = refl
  take-all (suc n) (x ∷ xs) h = ap (◌∷◌ x) (take-all n xs (omega arith))

  pub reverse-drop : (n : ℕ) (xs : List A) → reverse (drop (length xs - n) xs) ≡ take n (reverse xs)
  reverse-drop n xs =
      let k = length xs - n in
      let r = reverse (drop k xs) in
      let split : reverse xs ≡ r ++ reverse (take k xs) =
        ap reverse (sym (take-append-drop k xs)) ∙ reverse-append (take k xs) (drop k xs) in
      let size : length r ≡ length xs - k = length-reverse (drop k xs) ∙ length-drop k xs in
      elim (Bool-cases (leb n (length xs))) [
        | inl fits ↦
            let same : length r ≡ n = ground (arith, size, fits) in
            sym (
              ap (take n) split
              ∙ subst (λ (i : ℕ). take i (r ++ reverse (take k xs)) ≡ r) same
                  (take-length_append r (reverse (take k xs))))
        | inr over ↦
            let none_left : k ≡ 0 = ground (arith, over) in
            ap (λ (i : ℕ). reverse (drop i xs)) none_left
            ∙ sym (take-all n (reverse xs) (ground (arith, over, length-reverse xs)))
      ]

  turn-reverse : (xs : List A) → turn (length xs + 1) 0 (length xs - 1) xs ≡ some (reverse xs)
  turn-reverse xs =
      ap (turn (length xs + 1) 0 (length xs - 1)) (sym (append-nil xs))
      ∙ turn-eq (length xs + 1) 0 (length xs - 1) [] xs [] (omega arith) refl (omega arith)
      ∙ ap some (append-nil (reverse xs))

  pub shown-newest : (n : ℕ) (xs : List A) → shown (pos n) xs ≡ some (take n (reverse xs))
  unfolding shown log_start
  shown-newest n xs =
      let inside : leb (length xs - n) (length xs) ≡ true = ground arith in
      rw (shown, inside) (turn-reverse (drop (length xs - n) xs) ∙ ap some (reverse-drop n xs))

  pub shown-negative :
      (k : ℕ) (xs : List A) → length xs + (k + 1) < 2 ^ 63 → shown (negsuc k) xs ≡ none
  unfolding shown log_start
  shown-negative k xs h = ground (arith, h)
