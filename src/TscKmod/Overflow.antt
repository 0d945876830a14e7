-- ===== src/TscKmod/Overflow.antt =====
-- Which overflows `var_calc` and `Filltimes` of src/kmod/tsc_kmod.c notice.
use ai_statefultask_testsuit.Base.{
  ℕ, ◌+◌, ◌-◌, ◌^◌, ◌≤◌, ◌<◌, ◌≡◌, ◌↔◌, refl, true, false, ltb, none, some, List, [], ◌∷◌, arith,
  All, Bool-cases, inl, inr,
}
use ai_statefultask_testsuit.TscKmod.{word, add64, sub64, sum_loop, Reading, join, elapsed}
use ai_statefultask_testsuit.TscKmod.Variance.{sum_of, add64-exact}

-- All items but the last.
abbrev pub init : List ℕ → List ℕ
init [] = []
init (x ∷ []) = []
init (x ∷ y ∷ ys) = x ∷ init (y ∷ ys)

-- A sum that wraps around is smaller than what was added to.
add64-lt : (a b : ℕ) → a < word → b < word → word ≤ a + b → add64 a b < a
unfolding add64
add64-lt a b ha hb h = omega arith

-- The test at the head of the loop.
sum_loop-stops :
    (term : ℕ → ℕ) (x : ℕ) (xs : List ℕ) (acc previous : ℕ)
    → acc < previous
    → sum_loop term (x ∷ xs) acc previous ≡ none
unfolding sum_loop
sum_loop-stops term x xs acc previous h =
    let e : ltb acc previous ≡ true = ground arith in rw e refl

sum_loop-goes_on :
    (term : ℕ → ℕ) (x : ℕ) (xs : List ℕ) (acc previous : ℕ)
    → previous ≤ acc
    → sum_loop term (x ∷ xs) acc previous ≡ sum_loop term xs (add64 acc (term x)) acc
unfolding sum_loop
sum_loop-goes_on term x xs acc previous h =
    let e : ltb acc previous ≡ false = ground arith in rw e refl

sum_loop-nil :
    (term : ℕ → ℕ) (acc previous : ℕ) → sum_loop term [] acc previous ≡ some (acc, previous)
unfolding sum_loop
sum_loop-nil term acc previous = refl

sum_loop_iff :
    (term : ℕ → ℕ) (xs : List ℕ) (acc previous : ℕ)
    → All (λ x. term x < word) xs
    → acc < word
    → previous ≤ acc
    → (sum_loop term xs acc previous ≡ none) ↔ (word ≤ acc + sum_of term (init xs))
sum_loop_iff term [] acc previous h lt le =
    rw (sum_loop-nil term acc previous) (λ e. cc, λ big. absurd (omega arith))
sum_loop_iff term (x ∷ []) acc previous h lt le =
    rw (sum_loop-goes_on term x [] acc previous le, sum_loop-nil term (add64 acc (term x)) acc)
      (λ e. cc, λ big. absurd (omega arith))
sum_loop_iff term (x ∷ y ∷ ys) acc previous h lt le =
    rw (sum_loop-goes_on term x (y ∷ ys) acc previous le)
      (elim (Bool-cases (ltb (acc + term x) word)) [
        | inl fits ↦
            let exact = add64-exact acc (term x) (ground arith) in
            let ih =
              sum_loop_iff term (y ∷ ys) (acc + term x) acc h.1 (ground arith) (omega arith) in
            rw exact (λ e. omega (arith, ih.0 e), λ big. ih.1 (omega arith))
        | inr wraps ↦
            let small = add64-lt acc (term x) lt h.0 (ground arith) in
            (λ e. ground arith, λ big. sum_loop-stops term y ys (add64 acc (term x)) acc small)
      ])

-- For terms below 2^64 a loop of `var_calc` goes to `overflow` exactly if the sum of all terms but
-- the last is 2^64 or more: an overflow in the last addition is not noticed in the loop.
pub sum_loop-none_iff :
    (term : ℕ → ℕ) (inputs : List ℕ)
    → All (λ x. term x < 2 ^ 64) inputs
    → (sum_loop term inputs 0 0 ≡ none) ↔ (2 ^ 64 ≤ sum_of term (init inputs))
sum_loop-none_iff term inputs h =
    let both = sum_loop_iff term inputs 0 0 h (omega arith) (omega arith) in
    (λ e. omega (arith, both.0 e), λ big. both.1 (omega arith))

-- `Filltimes` stores the cycles that passed, where the counter did not go back. Where it did, the
-- test for a negative difference fails and the row gets the difference plus 2^64: no reading
-- leaves 0 but that of a counter that stood still.
pub elapsed_lem :
    (r : Reading)
    → let start = join r.cycles_high r.cycles_low in
      let end = join r.cycles_high1 r.cycles_low1 in
      start < 2 ^ 64
      → end < 2 ^ 64
      → (start ≤ end → elapsed r ≡ end - start) × (end < start → elapsed r ≡ end + 2 ^ 64 - start)
unfolding elapsed sub64
elapsed_lem r hs he = (λ le. ground arith, λ lt. ground arith)
