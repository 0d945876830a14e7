-- ===== src/Fiboquick/Correct.antt =====
-- The result of src/fiboquick.cxx against the Fibonacci numbers by their recurrence.
use ai_statefultask_testsuit.Base.{
  ℕ, zero, suc, ◌+◌, ◌-◌, ◌%◌, ◌^◌, ◌<◌, ◌≡◌, refl, ◌∙◌, ◌⊎◌, inl, inr, true, false, ltb, ◌==◌,
  Option, some, arith, Bool-cases,
}
use ai_statefultask_testsuit.Fiboquick.{Memo, size, store, add_word, fill, fibo}

unfoldable pub fib : ℕ → ℕ
fib zero = 1
fib (suc zero) = 1
fib (suc (suc n)) = fib (suc n) + fib n

unfoldable fib_word : ℕ → ℕ
fib_word n = fib n % 2 ^ 64

-- What changed holds the right number.
abbrev Keeps : Memo → Memo → Type 0
Keeps f f' = (k : ℕ) → (f' k ≡ f k) ⊎ (f' k ≡ fib_word k)

Keeps-trans : (f g h : Memo) → Keeps f g → Keeps g h → Keeps f h
Keeps-trans f g h p q k = elim (q k) [
  | inr right ↦ inr right
  | inl same ↦ elim (p k) [ inl before ↦ inl (same ∙ before) | inr right ↦ inr (same ∙ right) ]
]

still_right : (f g : Memo) (k : ℕ) → f k ≡ fib_word k → Keeps f g → g k ≡ fib_word k
still_right f g k e p = elim (p k) [ inl same ↦ same ∙ e | inr right ↦ right ]

store-Keeps : (f g : Memo) (n v : ℕ) → Keeps f g → v ≡ fib_word n → Keeps f (store n v g)
store-Keeps f g n v p e k = elim (Bool-cases (k == n)) [
  | inl here ↦ let at_n : k ≡ n = ground arith in inr (rw (here, at_n) e)
  | inr other ↦ rw other (p k)
]

-- An entry that is not 0 is right.
nonzero : (f : Memo) → Keeps (λ k. 0) f → (k : ℕ) → (f k == 0) ≡ false → f k ≡ fib_word k
nonzero f p k h = elim (p k) [ inl z ↦ absurd (ground arith) | inr right ↦ right ]

add_word-fib : (n : ℕ) → add_word (fib_word (suc n)) (fib_word n) ≡ fib_word (suc (suc n))
unfolding add_word fib_word fib
add_word-fib n = omega arith

fib_word-small : (n : ℕ) → ltb n 2 ≡ true → fib_word n ≡ 1
unfolding fib_word fib
fib_word-small zero h = refl
fib_word-small (suc zero) h = refl
fib_word-small (suc (suc n)) h = absurd (ground arith)

-- A call gives the right number.
abbrev Works : (ℕ → Memo → Option (ℕ × Memo)) → ℕ → Type 0
Works call n =
    (f : Memo) → Keeps (λ k. 0) f → (f' : Memo) × (call n f ≡ some (fib_word n, f')) × Keeps f f'

fill-Keeps :
    (call : ℕ → Memo → Option (ℕ × Memo)) (k : ℕ) (f : Memo)
    → Works call k
    → Keeps (λ k. 0) f
    → (f' : Memo) × (fill call k f ≡ some f') × (Keeps f f') × (f' k ≡ fib_word k)
fill-Keeps call k f works p = elim (Bool-cases (f k == 0)) [
  | inr held ↦ (f, rw (fill, held) refl, λ k. inl refl, nonzero f p k held)
  | inl empty ↦
      let (f', e, q) = works f p in
      let here : (k == k) ≡ true = ground arith in
      (store k (fib_word k) f', rw (fill, empty, e) refl, store-Keeps f f' k _ q refl, rw here refl)
]

add_word-below :
    (n : ℕ) → ltb n 2 ≡ false → add_word (fib_word (n - 1)) (fib_word (n - 2)) ≡ fib_word n
add_word-below zero h = absurd (ground arith)
add_word-below (suc zero) h = absurd (ground arith)
add_word-below (suc (suc n)) h =
    let e₁ : suc (suc n) - 1 ≡ suc n = omega arith in
    let e₂ : suc (suc n) - 2 ≡ n = omega arith in rw (e₁, e₂) (add_word-fib n)

fibo-filled :
    (fuel n : ℕ) (f f₁ f₂ : Memo)
    → ltb n 2 ≡ false
    → ltb n size ≡ true
    → (f n == 0) ≡ true
    → fill (fibo fuel) (n - 1) f ≡ some f₁
    → fill (fibo fuel) (n - 2) f₁ ≡ some f₂
    → add_word (f₂ (n - 1)) (f₂ (n - 2)) ≡ fib_word n
    → fibo (suc fuel) n f ≡ some (fib_word n, store n (fib_word n) f₂)
unfolding fibo
fibo-filled fuel n f f₁ f₂ big inside empty e₁ e₂ sum =
    rw (fibo, big, inside, empty, e₁, e₂, sum) refl

fibo-Works : (fuel n : ℕ) → n < fuel → n < size → Works (fibo fuel) n
unfolding fibo
fibo-Works zero n deep inside f p = absurd (omega arith)
fibo-Works (suc fuel) n deep inside f p = elim (Bool-cases (ltb n 2)) [
  | inl small ↦ (f, rw (fibo, small, fib_word-small n small) refl, λ k. inl refl)
  | inr big ↦
      let fits : ltb n size ≡ true = ground arith in
      elim (Bool-cases (f n == 0)) [
        | inr held ↦ (f, rw (fibo, big, fits, held, nonzero f p n held) refl, λ k. inl refl)
        | inl empty ↦
            let (f₁, e₁, q₁, h₁) =
              fill-Keeps (fibo fuel) (n - 1) f
                (fibo-Works fuel (n - 1) (ground arith) (omega arith)) p in
            let (f₂, e₂, q₂, h₂) =
              fill-Keeps (fibo fuel) (n - 2) f₁
                (fibo-Works fuel (n - 2) (ground arith) (omega arith)) (Keeps-trans _ f f₁ p q₁) in
            let h₁' : f₂ (n - 1) ≡ fib_word (n - 1) = still_right f₁ f₂ (n - 1) h₁ q₂ in
            let sum : add_word (f₂ (n - 1)) (f₂ (n - 2)) ≡ fib_word n =
              rw (h₁', h₂) (add_word-below n big) in
            (
              store n (fib_word n) f₂,
              fibo-filled fuel n f f₁ f₂ big fits empty e₁ e₂ sum,
              store-Keeps f f₂ n _ (Keeps-trans f f₁ f₂ q₁ q₂) refl,
            )
      ]
]

-- For an `n` within the array, and an array whose entries are 0 or right, `n + 1` nested calls
-- are enough for `fibo(n)`: it returns the Fibonacci number modulo 2 to the power 64, reads
-- nothing past the end of the array, and an entry that it changes gets the right number.
pub fibo-fib :
    (fuel n : ℕ) (f : Memo)
    → n < fuel
    → n < size
    → ((k : ℕ) → (f k ≡ 0) ⊎ (f k ≡ fib k % 2 ^ 64))
    → (f' : Memo) × (fibo fuel n f ≡ some (fib n % 2 ^ 64, f'))
      × ((k : ℕ) → (f' k ≡ f k) ⊎ (f' k ≡ fib k % 2 ^ 64))
unfolding fib_word
fibo-fib fuel n f deep inside p = fibo-Works fuel n deep inside f p
