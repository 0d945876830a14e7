-- ===== src/Fiboquick.antt =====
-- src/fiboquick.cxx: the Fibonacci numbers by a recursion with a table. The static array `f` is a
-- function; `none` is an index past its end. An `unsigned long long` has 64 bits. A negative `n`
-- is below 2 and is not modelled.
pub mod Correct
use ai_statefultask_testsuit.Base.{
  ℕ, zero, suc, ◌+◌, ◌-◌, ◌%◌, ◌^◌, Bool, true, false, ltb, ◌==◌, if◌then◌else◌, Option, none, some,
}

abbrev pub Memo : Type 0
Memo = ℕ → ℕ

abbrev pub size : ℕ
size = 10000

-- `f[n] = v`
abbrev pub store : ℕ → ℕ → Memo → Memo
store n v f k = if k == n then v else f k

-- `unsigned long long` addition.
unfoldable pub add_word : ℕ → ℕ → ℕ
add_word a b = (a + b) % 2 ^ 64

-- `if (!f[k]) f[k] = fibo(k);`
abbrev pub fill : (ℕ → Memo → Option (ℕ × Memo)) → ℕ → Memo → Option Memo
fill fibo k f = elim (f k == 0) [
  | true ↦ elim (fibo k f) [ none ↦ none | some (v, f') ↦ some (store k v f') ]
  | false ↦ some f
]

-- The call `fibo(n)`: its result and the array behind it. `n + 1` calls deep is enough.
unfoldable pub fibo : ℕ → ℕ → Memo → Option (ℕ × Memo)
fibo zero n f = none
fibo (suc fuel) n f = elim (ltb n 2) [
  | true ↦ some (1, f)
  | false ↦ elim (ltb n size) [
    | false ↦ none
    | true ↦ elim (f n == 0) [
      | false ↦ some (f n, f)
      | true ↦ elim (fill (fibo fuel) (n - 1) f) [
        | none ↦ none
        | some f₁ ↦ elim (fill (fibo fuel) (n - 2) f₁) [
          | none ↦ none
          | some f₂ ↦ let v = add_word (f₂ (n - 1)) (f₂ (n - 2)) in some (v, store n v f₂)
        ]
      ]
    ]
  ]
]
