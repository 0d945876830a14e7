-- ===== src/Examples/OfFiboquick.antt =====
-- src/fiboquick.cxx at concrete numbers.
use ai_statefultask_testsuit.Base.{ℕ, ◌%◌, ◌^◌, ◌≡◌, ◌⊎◌, refl, inl, some, arith}
use ai_statefultask_testsuit.Fiboquick.{Memo, fibo, add_word}
use ai_statefultask_testsuit.Fiboquick.Correct.{fib, fibo-fib}
use mathlib.Core.Option.{map}

abbrev zeros : Memo
zeros k = 0

fibo-fib_example :
    (f' : Memo) × (fibo 11 10 zeros ≡ some (fib 10 % 2 ^ 64, f'))
    × ((k : ℕ) → (f' k ≡ 0) ⊎ (f' k ≡ fib k % 2 ^ 64))
fibo-fib_example = fibo-fib 11 10 zeros (omega arith) (omega arith) (λ k. inl refl)

fibo_of_10 : map (λ r. r.0) (fibo 11 10 zeros) ≡ some 89
unfolding fibo add_word
fibo_of_10 = refl
