-- ===== src/Examples/ListQueues.antt =====
-- A priority queue that is a list, of which `top` is the first of the least items.
use ai_statefultask_testsuit.Base.{
  ℕ, ◌+◌, ◌<◌, ◌≤◌, ◌≡◌, ◌⊎◌, refl, subst, inl, inr, leb, ◌&&◌, ◌==◌, if◌then◌else◌, Option, none,
  some, List, [], ◌∷◌, length, arith, Bool-cases,
}
use ai_statefultask_testsuit.Timers.PriorityQueue.{Queues, IsPriorityQueue}

-- The first of the least items of a list, and the others.
abbrev least_first : ℕ × ℕ → List (ℕ × ℕ) → (ℕ × ℕ) × List (ℕ × ℕ)
least_first x [] = (x, [])
least_first x (y ∷ ys) =
    let (m, rest) = least_first y ys in if leb x.0 m.0 then (x, y ∷ ys) else (m, x ∷ rest)

abbrev top_of : List (ℕ × ℕ) → Option (ℕ × ℕ)
top_of [] = none
top_of (x ∷ xs) = some ((least_first x xs).0)

abbrev pop_of : List (ℕ × ℕ) → List (ℕ × ℕ)
pop_of [] = []
pop_of (x ∷ xs) = (least_first x xs).1

abbrev pub list_queues : Queues
list_queues = record {
  Queue = List (ℕ × ℕ);
  empty_queue = [];
  emplace = λ t i q. (t, i) ∷ q;
  top = top_of;
  pop = pop_of;
  size = length;
}

abbrev times : List (ℕ × ℕ) → ℕ → ℕ → ℕ
times [] t i = 0
times (x ∷ q) t i = (if x.0 == t && x.1 == i then 1 else 0) + times q t i

least_first-times :
    (x : ℕ × ℕ) (xs : List (ℕ × ℕ)) (t i : ℕ)
    → times ((least_first x xs).0 ∷ (least_first x xs).1) t i ≡ times (x ∷ xs) t i
least_first-times x [] t i = refl
least_first-times x (y ∷ ys) t i =
    let rest = least_first-times y ys t i in
    elim (Bool-cases (leb x.0 (least_first y ys).0.0)) [
      | inl low ↦ rw low refl
      | inr high ↦ rw high (omega arith)
    ]

first_or_later :
    (x : ℕ × ℕ) (xs : List (ℕ × ℕ)) (t i : ℕ)
    → 0 < times (x ∷ xs) t i
    → (x.0 ≡ t) ⊎ (0 < times xs t i)
first_or_later x xs t i held = ground arith

least_first-least :
    (x : ℕ × ℕ) (xs : List (ℕ × ℕ)) (t i : ℕ) → 0 < times (x ∷ xs) t i → (least_first x xs).0.0 ≤ t
least_first-least x [] t i held = ground arith
least_first-least x (y ∷ ys) t i held =
    let low_or_first = first_or_later x (y ∷ ys) t i held in
    let rest = least_first-least y ys t i in
    elim (Bool-cases (leb x.0 (least_first y ys).0.0)) [
      | inl low ↦ rw low (elim low_or_first [
        | inl first ↦ omega arith
        | inr later ↦ let r = rest later in ground arith
      ])
      | inr high ↦ rw high (elim low_or_first [ inl first ↦ ground arith | inr later ↦ rest later ])
    ]

least_first-length : (x : ℕ × ℕ) (xs : List (ℕ × ℕ)) → length (least_first x xs).1 ≡ length xs
least_first-length x [] = refl
least_first-length x (y ∷ ys) =
    let rest = least_first-length y ys in
    elim (Bool-cases (leb x.0 (least_first y ys).0.0)) [
      | inl low ↦ rw low refl
      | inr high ↦ rw high (omega arith)
    ]

top_of-none : (q : List (ℕ × ℕ)) → top_of q ≡ none → (t i : ℕ) → times q t i ≡ 0
top_of-none [] e t i = refl
top_of-none (x ∷ q) e t i = absurd (ground arith)

pop_of-times :
    (q : List (ℕ × ℕ)) (t' i' : ℕ)
    → top_of q ≡ some (t', i')
    → (t i : ℕ) → (if t' == t && i' == i then 1 else 0) + times (pop_of q) t i ≡ times q t i
pop_of-times [] t' i' e t i = absurd (ground arith)
pop_of-times (x ∷ q) t' i' e t i =
    let same : (least_first x q).0 ≡ (t', i') = ground arith in
    subst
      (λ m.
        (if m.0 == t && m.1 == i then 1 else 0) + times (least_first x q).1 t i ≡ times (x ∷ q) t i)
      same (least_first-times x q t i)

top_of-held : (q : List (ℕ × ℕ)) (t i : ℕ) → top_of q ≡ some (t, i) → 0 < times q t i
top_of-held q t i e = let x = pop_of-times q t i e t i in ground arith

top_of-least :
    (q : List (ℕ × ℕ)) (t i t' i' : ℕ) → top_of q ≡ some (t, i) → 0 < times q t' i' → t ≤ t'
top_of-least [] t i t' i' e held = absurd (ground arith)
top_of-least (x ∷ q) t i t' i' e held =
    let same : (least_first x q).0 ≡ (t, i) = ground arith in
    subst (λ (m : ℕ × ℕ). m.0 ≤ t') same (least_first-least x q t' i' held)

pop_of-length :
    (q : List (ℕ × ℕ)) (t i : ℕ) → top_of q ≡ some (t, i) → length (pop_of q) + 1 ≡ length q
pop_of-length [] t i e = absurd (ground arith)
pop_of-length (x ∷ q) t i e = let l = least_first-length x q in omega arith

pub list_queues_are : IsPriorityQueue list_queues
list_queues_are = record {
  times = times;
  times_empty = λ t i. refl;
  times-emplace = λ t' i' q t i. refl;
  top_none = λ q. top_of-none q;
  top_held = λ q. top_of-held q;
  top_least = λ q. top_of-least q;
  times-pop = λ q. pop_of-times q;
  size-pop = λ q. pop_of-length q;
}
