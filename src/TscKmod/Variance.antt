-- ===== src/TscKmod/Variance.antt =====
-- `var_calc` of src/kmod/tsc_kmod.c where nothing overflows.
use native.Mathlib.Nat.{mul_comm}
use ai_statefultask_testsuit.Base.{
  ℕ, zero, suc, ◌+◌, ◌-◌, ◌*◌, ◌/◌, ◌^◌, ◌≤◌, ◌<◌, ◌≡◌, refl, ap, ap₂, ◌∙◌, inl, inr, false, ltb,
  leb, ◌==◌, some, List, [], ◌∷◌, length, arith, Bool-cases,
}
use ai_statefultask_testsuit.TscKmod.{
  word, add64, sub64, mul64, sum_loop, square, var_calc, quotient, variance,
}

abbrev pub sum_of : (ℕ → ℕ) → List ℕ → ℕ
sum_of f [] = 0
sum_of f (x ∷ xs) = f x + sum_of f xs

abbrev pub sum : List ℕ → ℕ
sum xs = sum_of (λ x. x) xs

abbrev pub sum_squares : List ℕ → ℕ
sum_squares xs = sum_of (λ x. x * x) xs

twice-le : (x y : ℕ) → 2 * (x * y) ≤ x * x + y * y
twice-le x y = elim (Bool-cases (leb x y)) [
  | inl le ↦ let e : y ≡ x + (y - x) = ground arith in rw e (grind arith)
  | inr gt ↦ let e : x ≡ y + (x - y) = ground arith in rw e (grind arith)
]

twice_sum-le : (x : ℕ) (ys : List ℕ) → 2 * (x * sum ys) ≤ length ys * (x * x) + sum_squares ys
twice_sum-le x [] = omega arith
twice_sum-le x (y ∷ ys) = grind (arith, twice-le x y, twice_sum-le x ys)

-- The square of a sum is at most the number of items times the sum of the squares.
pub cauchy_schwarz : (xs : List ℕ) → sum xs * sum xs ≤ length xs * sum_squares xs
cauchy_schwarz [] = omega arith
cauchy_schwarz (x ∷ xs) = grind (arith, twice_sum-le x xs, cauchy_schwarz xs)

pub add64-exact : (a b : ℕ) → a + b < word → add64 a b ≡ a + b
unfolding add64
add64-exact a b h = omega arith

mul64-exact : (a b : ℕ) → a * b < word → mul64 a b ≡ a * b
unfolding mul64
mul64-exact a b h = grind arith

sub64-exact : (a b : ℕ) → b ≤ a → a < word → sub64 a b ≡ a - b
unfolding sub64
sub64-exact a b h lt = omega arith

sum_loop-exact :
    (term : ℕ → ℕ) (xs : List ℕ) (acc previous : ℕ)
    → previous ≤ acc
    → acc + sum_of term xs < word
    → (p : ℕ) × (sum_loop term xs acc previous ≡ some (acc + sum_of term xs, p))
      × (p ≤ acc + sum_of term xs)
unfolding sum_loop
sum_loop-exact term [] acc previous h lt =
    let e : acc + 0 ≡ acc = omega arith in (previous, rw e refl, omega arith)
sum_loop-exact term (x ∷ xs) acc previous h lt =
    let e : acc + term x + sum_of term xs ≡ acc + (term x + sum_of term xs) = omega arith in
    let (p, went, le) = sum_loop-exact term xs (acc + term x) acc (omega arith) (omega arith) in
    let ok : ltb acc previous ≡ false = ground arith in
    (p, rw (ok, add64-exact acc (term x) (omega arith), went, e) refl, omega arith)

sum_of-square : (xs : List ℕ) → sum_squares xs < word → sum_of square xs ≡ sum_squares xs
sum_of-square [] h = refl
sum_of-square (x ∷ xs) h = ap₂ ◌+◌ (mul64-exact x x (omega arith)) (sum_of-square xs (omega arith))

le-square : (a : ℕ) → a ≤ a * a
le-square zero = omega arith
le-square (suc a) = grind arith

le-mul : (n a : ℕ) → 0 < n → a ≤ n * a
le-mul n a h = grind arith

mul-lt : (n b : ℕ) → 0 < b → n < b → n * n < b * b
mul-lt n b p h = grind arith

-- The divisor `size * size` does not wrap around, and is not 0.
size-square : (n : ℕ) → 0 < n → n < 2 ^ 32 → (0 < n * n) × (n * n < word)
size-square n h lt = (omega (arith, le-square n), omega (arith, mul-lt n (2 ^ 32) (omega arith) lt))

quotient-exact :
    (n s q p : ℕ)
    → 0 < n
    → n < 2 ^ 32
    → s ≤ n * q
    → n * q < word
    → p ≤ q
    → quotient n s q p ≡ variance ((n * q - s) / (n * n))
unfolding quotient
quotient-exact n s q p pos small le fits h =
    let e₁ : mul64 q n ≡ n * q = mul64-exact q n (grind arith) ∙ mul_comm q n in
    let e₂ : mul64 n n ≡ n * n = mul64-exact n n (size-square n pos small).1 in
    let kept : ltb (n * q) p ≡ false = ground (arith, le-mul n q pos) in
    let nonzero : (n * n == 0) ≡ false = ground (arith, size-square n pos small) in
    rw (e₁, kept, e₂, nonzero, sub64-exact (n * q) s le fits) refl

sum_loop-start :
    (term : ℕ → ℕ) (xs : List ℕ)
    → sum_of term xs < word
    → (p : ℕ) × (sum_loop term xs 0 0 ≡ some (sum_of term xs, p)) × (p ≤ sum_of term xs)
sum_loop-start term xs h =
    let e : 0 + sum_of term xs ≡ sum_of term xs = omega arith in
    let (p, went, le) = sum_loop-exact term xs 0 0 (omega arith) (omega arith) in
    (p, went ∙ ap (λ s. some (s, p)) e, omega arith)

var_calc-eq-quotient :
    (xs : List ℕ) (acc previous temp_var previous' : ℕ)
    → sum_loop (λ x. x) xs 0 0 ≡ some (acc, previous)
    → ltb (mul64 acc acc) previous ≡ false
    → sum_loop square xs 0 0 ≡ some (temp_var, previous')
    → var_calc xs ≡ quotient (length xs) (mul64 acc acc) temp_var previous'
unfolding var_calc
var_calc-eq-quotient xs acc previous temp_var previous' e kept e' = rw (var_calc, e, kept, e') refl

-- For a row of at least one and less than 2^32 inputs, if the number of inputs times the sum of
-- their squares is below 2^64, then `var_calc` returns their variance: that number less the
-- square of the sum, divided by the square of the number of inputs. The difference is not cut
-- off at 0.
pub var_calc-variance :
    (inputs : List ℕ)
    → 0 < length inputs
    → length inputs < 2 ^ 32
    → length inputs * sum_squares inputs < 2 ^ 64
    → (sum inputs * sum inputs ≤ length inputs * sum_squares inputs)
      × (var_calc inputs
          ≡ variance (
              (length inputs * sum_squares inputs - sum inputs * sum inputs)
              / (length inputs * length inputs)))
var_calc-variance xs pos small fits =
    let cs = cauchy_schwarz xs in
    let square_fits : sum xs * sum xs < word = omega (arith, cs) in
    let fits' : sum_squares xs < word = omega (arith, le-mul (length xs) (sum_squares xs) pos) in
    let (p, went, le) = sum_loop-start (λ x. x) xs (omega (arith, le-square (sum xs))) in
    let eq = sum_of-square xs fits' in
    let (p', went', le') = sum_loop-start square xs (omega (arith, eq)) in
    let exact = mul64-exact (sum xs) (sum xs) square_fits in
    let kept : ltb (mul64 (sum xs) (sum xs)) p ≡ false =
      ground (arith, exact, le-square (sum xs)) in
    (
      cs,
      var_calc-eq-quotient xs (sum xs) p (sum_of square xs) p' went kept went'
          ∙ (ap₂ (λ s q. quotient (length xs) s q p') exact eq
              ∙ quotient-exact (length xs) (sum xs * sum xs) (sum_squares xs) p' pos small cs fits
                  (omega (arith, eq))),
    )
