-- ===== src/TscKmod.antt =====
-- src/kmod/tsc_kmod.c, a kernel module that measures the time stamp counter. A `uint64_t` is a
-- number below 2 to the power 64, with its wrap-around written out. What the inline assembly
-- reads is a parameter.
pub mod Variance
pub mod Overflow
pub mod Start
use ai_statefultask_testsuit.Base.{
  ℕ, zero, suc, ◌+◌, ◌-◌, ◌*◌, ◌/◌, ◌%◌, ◌^◌, ltb, ◌==◌, if◌then◌else◌, Option, none, some, List,
  [], ◌∷◌, length,
}

abbrev pub word : ℕ
word = 2 ^ 64

unfoldable pub add64 : ℕ → ℕ → ℕ
add64 a b = (a + b) % 2 ^ 64

unfoldable pub sub64 : ℕ → ℕ → ℕ
sub64 a b = (a + 2 ^ 64 - b) % 2 ^ 64

unfoldable pub mul64 : ℕ → ℕ → ℕ
mul64 a b = a * b % 2 ^ 64

-- What a pair of `RDTSC` and `RDTSCP` leaves in the four 32-bit variables.
pub record Reading : Type 0 where
  pub cycles_high : ℕ
  pub cycles_low : ℕ
  pub cycles_high1 : ℕ
  pub cycles_low1 : ℕ

-- `((uint64_t)high << 32) | low`, where `low` has 32 bits.
abbrev pub join : ℕ → ℕ → ℕ
join high low = high * 2 ^ 32 + low

-- The entry of `times` for one reading. The comparison is one of unsigned numbers.
unfoldable pub elapsed : Reading → ℕ
unfolding sub64
elapsed r =
    let start = join r.cycles_high r.cycles_low in
    let end = join r.cycles_high1 r.cycles_low1 in
    if ltb (sub64 end start) 0 then 0 else sub64 end start

-- `n` entries of a row from index `i` on.
unfoldable pub fill_row : (ℕ → Reading) → ℕ → ℕ → List ℕ
fill_row read i zero = []
fill_row read i (suc n) = elapsed (read i) ∷ fill_row read (suc i) n

-- `Filltimes`, for `n` rows from row `j` on. The readings are given by row and index.
unfoldable pub filltimes : (ℕ → ℕ → Reading) → ℕ → ℕ → ℕ → List (List ℕ)
unfolding fill_row
filltimes read size j zero = []
filltimes read size j (suc n) = fill_row (read j) 0 size ∷ filltimes read size (suc j) n

-- A loop of `var_calc` that adds up `term` of the inputs: `acc` and `previous` behind it, or
-- `none` for `goto overflow`.
unfoldable pub sum_loop : (ℕ → ℕ) → List ℕ → ℕ → ℕ → Option (ℕ × ℕ)
sum_loop term [] acc previous = some (acc, previous)
sum_loop term (x ∷ xs) acc previous =
    let rest = sum_loop term xs (add64 acc (term x)) acc in if ltb acc previous then none else rest

abbrev pub square : ℕ → ℕ
square x = mul64 x x

-- What `var_calc` ends in: `return temp_var`, the label `overflow`, or a division by zero.
pub data Calculated : Type 0 where
  variance : ℕ → Calculated
  overflow : Calculated
  divide_error : Calculated

-- The part of `var_calc` behind both sums.
unfoldable pub quotient : ℕ → ℕ → ℕ → ℕ → Calculated
quotient size acc temp_var previous =
    let temp_var' = mul64 temp_var size in
    if ltb temp_var' previous
    then overflow
    else if mul64 size size == 0
    then divide_error
    else variance (sub64 temp_var' acc / mul64 size size)

unfoldable pub var_calc : List ℕ → Calculated
var_calc inputs = elim (sum_loop (λ x. x) inputs 0 0) [
  | none ↦ overflow
  | some (acc, previous) ↦
      if ltb (mul64 acc acc) previous then overflow else elim (sum_loop square inputs 0 0) [
        | none ↦ overflow
        | some (temp_var, previous') ↦ quotient (length inputs) (mul64 acc acc) temp_var previous'
      ]
]

-- `-EINVAL`, which `var_calc` returns behind the label.
abbrev pub minus_einval : ℕ
minus_einval = 18446744073709551594

-- The number that `var_calc` returns, if it returns.
abbrev pub returned : Calculated → Option ℕ
returned (variance v) = some v
returned overflow = some minus_einval
returned divide_error = none
