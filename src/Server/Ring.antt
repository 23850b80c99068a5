-- ===== src/Server/Ring.antt =====
-- A fixed number of slots that is written round and round holds the end of what was written: what
-- the query log and the history of the statistics share.
use native.Mathlib.Nat.{mod-add-mod, mod-eq_of_lt, mod-eq-sub-mod, mod-lt, suc-add}
use native.Mathlib.Decide.{dec_lt}
use km_resolv.Prelude.{
  ℕ, zero, suc, ◌+◌, ◌-◌, ◌%◌, ◌≤◌, ◌<◌, ◌≡◌, ◌≢◌, refl, sym, ap, ap₂, ◌∙◌, List, [], ◌∷◌, ◌++◌,
  arith, length, get_or, set, drop, length-append, length-set, get_or-set_self, get_or-set_ne,
}

-- Fewer than `n` steps round a ring of `n` slots do not come back.
add-mod-ne : (n i k : ℕ) → 0 < k → k < n → (i + k) % n ≢ i % n
add-mod-ne n i k pos h = λ e. elim (dec_lt (i % n + k) n) [
  | yes p ↦ absurd (omega (arith, e, mod-add-mod i n k, mod-eq_of_lt p))
  | no p ↦ absurd (
      omega (
        arith,
        e,
        mod-add-mod i n k,
        mod-lt i {m = n} (omega arith),
        mod-eq-sub-mod {n = i % n + k} {m = n} (omega arith),
        mod-eq_of_lt {n = i % n + k - n} {m = n} (omega (arith, mod-lt i {m = n} (omega arith))),
      ))
]

add-mod-eq : (n x i k : ℕ) → x % n ≡ i % n → (x + k) % n ≡ (i + k) % n
add-mod-eq n x i k e = sym (mod-add-mod x n k) ∙ ap (λ (r : ℕ). (r + k) % n) e ∙ mod-add-mod i n k

module _ {A : Type 0} where
  -- `k` slots from the one of number `x` on, the numbers taken round.
  unfoldable pub read_round : List A → ℕ → A → ℕ → ℕ → List A
  read_round slots n d x zero = []
  read_round slots n d x (suc k) = get_or slots (x % n) d ∷ read_round slots n d (x + 1) k

  -- The slots hold the last `n` of what was written, each at its number taken round.
  pub record Rolled (slots : List A) (n : ℕ) (d : A) (written : List A) : Type 0 where
    pub slots_length : length slots ≡ n
    pub at :
        (i : ℕ)
        → i < length written
        → length written ≤ i + n
        → get_or slots (i % n) d ≡ get_or written i d

  get_or-append_left :
      (xs : List A) (y : A) (i : ℕ) (d : A)
      → i < length xs
      → get_or (xs ++ y ∷ []) i d ≡ get_or xs i d
  get_or-append_left [] y i d h = absurd (omega arith)
  get_or-append_left (x ∷ xs) y zero d h = refl
  get_or-append_left (x ∷ xs) y (suc i) d h = get_or-append_left xs y i d (omega arith)

  get_or-append_last : (xs : List A) (y d : A) → get_or (xs ++ y ∷ []) (length xs) d ≡ y
  get_or-append_last [] y d = refl
  get_or-append_last (x ∷ xs) y d = get_or-append_last xs y d

  pub Rolled-write :
      (slots : List A) (n : ℕ) (d : A) (written : List A) (v : A)
      → 0 < n
      → Rolled slots n d written
      → Rolled (set slots (length written % n) v) n d (written ++ v ∷ [])
  Rolled-write slots n d written v pos r = record {
    slots_length = length-set slots _ v ∙ r.slots_length;
    at = λ i inside recent. elim (dec_lt i (length written)) [
      | yes older ↦
          let steps = length written - i in
          let apart : (i + steps) % n ≢ i % n =
            add-mod-ne n i steps (omega arith) (omega (arith, length-append written (v ∷ []))) in
          let last : length written ≡ i + steps = omega arith in
          get_or-set_ne slots (length written % n) (i % n) v d
            (λ e. apart (ap (λ (k : ℕ). k % n) (sym last) ∙ e))
          ∙ r.at i older (omega (arith, length-append written (v ∷ [])))
          ∙ sym (get_or-append_left written v i d older)
      | no newest ↦
          let last : i ≡ length written = omega (arith, length-append written (v ∷ [])) in
          ap (λ (k : ℕ). get_or (set slots (length written % n) v) (k % n) d) last
          ∙ get_or-set_self slots (length written % n) v d
              (omega (arith, r.slots_length, mod-lt (length written) {m = n} pos))
          ∙ sym
              (ap (λ (k : ℕ). get_or (written ++ v ∷ []) k d) last ∙ get_or-append_last written v d)
    ];
  }

  drop-eq-get_or :
      (xs : List A) (i : ℕ) (d : A) → i < length xs → drop i xs ≡ get_or xs i d ∷ drop (i + 1) xs
  drop-eq-get_or [] i d h = absurd (omega arith)
  drop-eq-get_or (x ∷ xs) zero d h = refl
  drop-eq-get_or (x ∷ xs) (suc i) d h = rw suc-add (drop-eq-get_or xs i d (omega arith))

  drop-length : (xs : List A) → drop (length xs) xs ≡ []
  drop-length [] = refl
  drop-length (x ∷ xs) = drop-length xs

  -- Reading `k` slots up to the next one to be written gives the last `k` that were written.
  pub read_round-eq-drop :
      (slots : List A) (n : ℕ) (d : A) (written : List A) (k i x : ℕ)
      → Rolled slots n d written
      → k ≤ n
      → i + k ≡ length written
      → x % n ≡ i % n
      → read_round slots n d x k ≡ drop i written
  unfolding read_round
  read_round-eq-drop slots n d written zero i x r fits last start =
      sym (ap (λ (j : ℕ). drop j written) (omega arith) ∙ drop-length written)
  read_round-eq-drop slots n d written (suc k) i x r fits last start =
      ap₂ {A = A} {B = List A} ◌∷◌
        (ap (λ (j : ℕ). get_or slots j d) start ∙ r.at i (omega arith) (omega arith))
        (read_round-eq-drop slots n d written k (i + 1) (x + 1) r (omega arith) (omega arith)
          (add-mod-eq n x i 1 start))
      ∙ sym (drop-eq-get_or written i d (omega arith))
