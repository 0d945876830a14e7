-- ===== src/Fibonacci/Runs.antt =====
-- The whole of src/fibonacci.cxx, on any base class that follows the diagram and in any interleaving.
use ai_statefultask_testsuit.Base.{
  ℕ, zero, suc, ◌+◌, ◌-◌, ◌^◌, ◌<◌, ◌≤◌, ◌≡◌, refl, sym, ap, subst, ◌∙◌, ◌⊎◌, inl, inr, Bool, true,
  false, ◌==◌, if◌then◌else◌, Option, none, some, List, arith, Bool-cases,
}
use ai_statefultask_testsuit.WaitSignal.{StatefulTask}
use ai_statefultask_testsuit.WaitSignal.Diagram.{on_entry, FollowsDiagram}
use ai_statefultask_testsuit.Fiboquick.Correct.{fib}
use ai_statefultask_testsuit.Fibonacci.{
  Tasks, Child, alone, split, task_of, value, step, start_main, printed,
}
use ai_statefultask_testsuit.Fibonacci.Sound.{
  created, gone, IsValued, IsSound, Advances, has_value_at,
}
use ai_statefultask_testsuit.Fibonacci.Steps.{step-Advances}
use ai_statefultask_testsuit.Fibonacci.Ends.{start_cost, left, Falls, step-Falls}
use ai_statefultask_testsuit.Fibonacci.Progress.{CanStep, sound-CanStep}

-- Runs of `n` steps, each of any one of the tasks.
pub data Runs (T : StatefulTask) (fresh : T.Task) (t : Tasks T.Task)
    : ℕ → Tasks T.Task → Type 0 where
  here : Runs T fresh t 0 t
  next :
      {n : ℕ} {u v : Tasks T.Task} {signals : Bool}
      → (path : List Child) → Runs T fresh t n u
      → step T fresh path u ≡ some (v, signals)
      → Runs T fresh t (suc n) v

fib-positive : (n : ℕ) → 1 ≤ fib n
unfolding fib
fib-positive zero = omega arith
fib-positive (suc zero) = omega arith
fib-positive (suc (suc n)) = omega (arith, fib-positive n)

-- Two neighbours at a time.
fibs : ℕ → ℕ × ℕ
fibs zero = (1, 1)
fibs (suc n) = let (a, b) = fibs n in (b, b + a)

fibs-fib : (n : ℕ) → fibs n ≡ (fib n, fib (suc n))
unfolding fibs fib
fibs-fib zero = refl
fibs-fib (suc n) = rw (fibs-fib n) refl

fib-next : (n : ℕ) → fib n ≤ fib (suc n)
unfolding fib
fib-next zero = omega arith
fib-next (suc n) = omega arith

fib_mono : (n k : ℕ) → fib n ≤ fib (n + k)
fib_mono n zero =
    let same : n ≡ n + 0 = omega arith in subst (λ m. fib n ≤ fib m) same (omega arith)
fib_mono n (suc k) =
    let step : suc (n + k) ≡ n + suc k = omega arith in
    subst (λ m. fib n ≤ fib m) step (omega (arith, fib_mono n k, fib-next (n + k)))

fib_last : fib 45 ≡ 1836311903
unfolding fibs
fib_last = sym (ap (λ (p : ℕ × ℕ). p.0) (fibs-fib 45))

-- Up to index 45 the value fits an `int`.
fib-fits : (n : ℕ) → n ≤ 45 → fib n < 2 ^ 31
fib-fits n h =
    let e : n + (45 - n) ≡ 45 = omega arith in
    omega (arith, subst (λ m. fib n ≤ fib m) e (fib_mono n (45 - n)), fib_last)

print-value :
    {B : Type 0} (number : ℕ) (t : Tasks B) → value t ≡ fib number → printed t ≡ some (fib number)
print-value number t e =
    let p = fib-positive number in
    let nonzero : (fib number == 0) ≡ false = ground arith in rw (e, nonzero) refl

module _ (T : StatefulTask) (F : FollowsDiagram T) (fresh : T.Task)
    (new : F.view fresh ≡ on_entry) where
  -- What is known of `flower` behind `n` steps.
  record After (number n : ℕ) (t : Tasks T.Task) : Type 0 where
    sound : IsSound T F t
    running : created t ≡ false
    index : (task_of t).m_index ≡ number
    bound : n + left T F t ≤ start_cost number + 3

  valued : (t : Tasks T.Task) → IsSound T F t → IsValued (task_of t)
  valued (alone s) h = h.3
  valued (split s l r) h = h.3

  next-After :
      (number n : ℕ) (u v : Tasks T.Task) (signals : Bool) (o : Option (Tasks T.Task × Bool))
      → o ≡ some (v, signals)
      → Advances T F u o
      → Falls T F u o
      → After number n u
      → After number (suc n) v
  next-After number n u v signals o e a f h =
      let (sound, same, _, c, _, _) = subst (Advances T F u) e a in
      let falls : left T F v + (if signals then 3 else 0) < left T F u = subst (Falls T F u) e f in
      record {
        sound = sound;
        running = c;
        index = same ∙ h.index;
        bound = let b = h.bound in omega arith;
      }

  Runs-After :
      (number : ℕ) {n : ℕ} {t : Tasks T.Task}
      → Runs T fresh (start_main fresh number) n t
      → After number n t
  unfolding left
  Runs-After number here = record {
    sound = (refl, ground arith, ground arith, refl);
    running = refl;
    index = refl;
    bound = ground arith;
  }
  Runs-After number (next {n} {u} {v} {signals} path r e) =
      let h = Runs-After number r in
      next-After number n u v signals (step T fresh path u) e
        (step-Advances T F fresh new path u h.sound) (step-Falls T F fresh path u new h.sound) h

  printed-fib :
      (number : ℕ) (t : Tasks T.Task)
      → (task_of t).m_index ≡ number
      → IsValued (task_of t)
      → (printed t ≡ none) ⊎ (printed t ≡ some (fib number))
  printed-fib number t e v = elim (Bool-cases (has_value_at (task_of t).place)) [
    | inl has ↦
        let is_fib : value t ≡ fib number = v ∙ (rw (has, e) refl) in
        inr (print-value number t is_fib)
    | inr lacks ↦ let zero_still : value t ≡ 0 = v ∙ (rw lacks refl) in inl (rw zero_still refl)
  ]

  gone-printed :
      (number : ℕ) (t : Tasks T.Task)
      → (task_of t).m_index ≡ number
      → IsValued (task_of t)
      → gone t ≡ true
      → printed t ≡ some (fib number)
  gone-printed number t e v done =
      let has : has_value_at (task_of t).place ≡ true = ground arith in
      print-value number t (v ∙ (rw (has, e) refl))

  -- For a number up to 45, and however the threads interleave the tasks on a base class that follows
  -- the diagram, `flower` and the tasks below it take at most `start_cost number + 3` steps. All the
  -- way `main` prints nothing yet or the Fibonacci number of `number`, which fits an `int`; and
  -- unless one of the tasks can step, `flower` is done, and `main` prints it: no task waits for a
  -- signal that is lost.
  pub main-fib :
      (number : ℕ) {n : ℕ} {t : Tasks T.Task}
      → Runs T fresh (start_main fresh number) n t
      → number ≤ 45
      → (n ≤ start_cost number + 3)
        × (fib number < 2 ^ 31)
        × ((printed t ≡ none) ⊎ (printed t ≡ some (fib number)))
        × (CanStep T F fresh t ⊎ ((gone t ≡ true) × (printed t ≡ some (fib number))))
  main-fib number {n} {t} r small =
      let h = Runs-After number r in
      let v = valued t h.sound in
      (
        let b = h.bound in omega arith,
        fib-fits number small,
        printed-fib number t h.index v,
        elim (sound-CanStep T F fresh t h.sound h.running) [
          | inl done ↦ inr (done, gone-printed number t h.index v done)
          | inr can ↦ inl can
        ],
      )
