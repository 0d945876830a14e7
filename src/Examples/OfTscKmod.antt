-- ===== src/Examples/OfTscKmod.antt =====
-- src/kmod/tsc_kmod.c at concrete inputs.
use ai_statefultask_testsuit.Base.{
  ℕ, ◌-◌, ◌*◌, ◌/◌, ◌^◌, ◌≤◌, ◌<◌, ◌≡◌, ◌↔◌, refl, Bool, true, false, ltb, none, List, [], ◌∷◌,
  arith, length,
}
use ai_statefultask_testsuit.TscKmod.{
  Reading, sum_loop, var_calc, variance, quotient, mul64, add64, sub64,
}
use ai_statefultask_testsuit.TscKmod.Variance.{sum, sum_of, sum_squares, var_calc-variance}
use ai_statefultask_testsuit.TscKmod.Overflow.{init, sum_loop-none_iff}
use ai_statefultask_testsuit.TscKmod.Start.{hello_start, gave_up, scan, bound_of_loop}
use ai_statefultask_testsuit.TscKmod.Start.Leaks.{leaked, message_of, hello_start-heap}

abbrev times : List ℕ
times = 40 ∷ 44 ∷ 36 ∷ []

var_calc-variance_example :
    (sum times * sum times ≤ length times * sum_squares times)
    × (var_calc times
        ≡ variance (
            (length times * sum_squares times - sum times * sum times)
            / (length times * length times)))
var_calc-variance_example = var_calc-variance times (omega arith) (omega arith) (omega arith)

variance_of_times : var_calc times ≡ variance 10
unfolding var_calc sum_loop quotient mul64 add64 sub64
variance_of_times = refl

abbrev large : List ℕ
large = 2 ^ 63 ∷ 2 ^ 63 ∷ 1 ∷ []

sum_loop-none_iff_example :
    (sum_loop (λ x. x) large 0 0 ≡ none) ↔ (2 ^ 64 ≤ sum_of (λ x. x) (init large))
sum_loop-none_iff_example = sum_loop-none_iff (λ x. x) large (omega arith)

-- The square of the last input is 2^64 and wraps around to 0, and nothing is noticed: the variance
-- of these inputs is 2^62.
abbrev unnoticed : List ℕ
unnoticed = 0 ∷ 2 ^ 32 ∷ []

wrong_variance : var_calc unnoticed ≡ variance 0
unfolding var_calc sum_loop quotient mul64 add64 sub64
wrong_variance = refl

-- A time of 0 makes the loop forget the smaller times in front of it.
forgotten : scan (3 ∷ 0 ∷ 7 ∷ []) 0 0 ≡ (7, 7)
unfolding scan
forgotten = refl

-- Call 50, which is for a row, fails.
abbrev short_of_memory : ℕ → Bool
short_of_memory j = ltb j 50

abbrev still : ℕ → ℕ → Reading
still j i = record { cycles_high = 0; cycles_low = 9; cycles_high1 = 0; cycles_low1 = 9 }

hello_start-heap_example :
    let (printed, h) = hello_start short_of_memory still in
    (((j : ℕ) → j < 103 → short_of_memory j ≡ true)
      → (h.faulty ≡ false) × ((x : ℕ) → h.live x ≡ false))
    × ((k : ℕ)
        → k < 103
        → short_of_memory k ≡ false
        → ((j : ℕ) → j < k → short_of_memory j ≡ true)
        → (printed ≡ gave_up (message_of bound_of_loop k))
          × (h.faulty ≡ false)
          × ((x : ℕ) → h.live x ≡ leaked bound_of_loop k x))
hello_start-heap_example = hello_start-heap short_of_memory still
