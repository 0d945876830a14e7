-- ===== src/Fibonacci/Ends.antt =====
-- Why the tasks of src/fibonacci.cxx come to an end: each step uses up some of what is left.
use ai_statefultask_testsuit.Base.{
  ℕ, zero, suc, ◌+◌, ◌-◌, ◌<◌, ◌≤◌, ◌≡◌, refl, sym, ◌∙◌, inl, inr, Bool, true, false, ltb,
  if◌then◌else◌, Option, none, some, List, [], ◌∷◌, arith, Bool-cases,
}
use ai_statefultask_testsuit.WaitSignal.{StatefulTask}
use ai_statefultask_testsuit.WaitSignal.Diagram.{Mode, on_entry, is_idle, FollowsDiagram}
use ai_statefultask_testsuit.Fibonacci.{
  Place, Fibonacci, Tasks, Child, alone, split, finished, hear, of_largest, of_smallest,
  multiplex_impl, step_here, step, new_task, run,
}
use ai_statefultask_testsuit.Fibonacci.Modes.{mode, IsPlain, waiting-mode, wait-modes, hear-modes}
use ai_statefultask_testsuit.Fibonacci.Sound.{created, Fits, IsSound}

-- What `Fibonacci_start` has before it for an index, with both tasks that it creates.
unfoldable pub start_cost : ℕ → ℕ
start_cost zero = 6
start_cost (suc zero) = 6
start_cost (suc (suc n)) = 20 + start_cost (suc n) + start_cost n

abbrev place_cost : Place → ℕ → ℕ
place_cost Place.created n = start_cost n + 1
place_cost Place.start n = start_cost n
place_cost Place.run_largest n = 11
place_cost Place.run_smallest n = 10
place_cost Place.test_largest n = 9
place_cost Place.test_smallest n = 8
place_cost Place.call_wait n = 7
place_cost Place.math n = 6
place_cost Place.finishing n = 5
place_cost Place.signalling n = 4
place_cost Place.gone n = 0

-- A signal adds at most 3; the call of `wait` that it was for takes 3 off again.
abbrev mode_cost : Mode → ℕ
mode_cost Mode.idle = 0
mode_cost Mode.running = 3
mode_cost Mode.skip_wait = 6

start_cost-large : (n : ℕ) → 2 ≤ n → start_cost n ≡ 20 + start_cost (n - 1) + start_cost (n - 2)
unfolding start_cost
start_cost-large zero h = absurd (omega arith)
start_cost-large (suc zero) h = absurd (omega arith)
start_cost-large (suc (suc n)) h =
    let a : suc (suc n) - 1 ≡ suc n = omega arith in
    let b : suc (suc n) - 2 ≡ n = omega arith in rw (a, b) refl

start_cost-bound : (n : ℕ) → 6 ≤ start_cost n
unfolding start_cost
start_cost-bound zero = omega arith
start_cost-bound (suc zero) = omega arith
start_cost-bound (suc (suc n)) = omega arith

module _ (T : StatefulTask) (F : FollowsDiagram T) where
  abbrev cost : Fibonacci T.Task → ℕ
  cost s = place_cost s.place s.m_index + mode_cost (mode T F s)

  unfoldable pub left : Tasks T.Task → ℕ
  left (alone s) = cost s
  left (split s l r) = cost s + left l + left r

  abbrev pub Falls : Tasks T.Task → Option (Tasks T.Task × Bool) → Type 0
  Falls t none = Unit {0}
  Falls t (some (t', signals)) = left t' + (if signals then 3 else 0) < left t

  left-new_task :
      (fresh : T.Task) (n : ℕ)
      → F.view fresh ≡ on_entry
      → left (new_task fresh n) ≡ start_cost n + 4
  unfolding left
  left-new_task fresh n new = ground arith

  left-run : (t : Tasks T.Task) → created t ≡ true → left (run t) < left t
  unfolding left
  left-run (alone s) c = ground arith
  left-run (split s l r) c = ground arith

  alone-Falls :
      (fresh : T.Task) (p : Place) (s : Fibonacci T.Task)
      → F.view fresh ≡ on_entry
      → s.place ≡ p
      → Falls (alone s) (multiplex_impl T fresh p (alone s))
  unfolding multiplex_impl left
  alone-Falls fresh Place.start s new e = elim (Bool-cases (ltb s.m_index 2)) [
    | inl small ↦ rw (small, e) (let b = start_cost-bound s.m_index in omega arith)
    | inr large ↦
        let a = left-new_task fresh (s.m_index - 1) new in
        let b = left-new_task fresh (s.m_index - 2) new in
        let c = start_cost-large s.m_index (ground arith) in rw (large, e) (omega arith)
  ]
  alone-Falls fresh Place.finishing s new e = rw e (omega arith)
  alone-Falls fresh Place.signalling s new e = rw e (omega arith)
  alone-Falls fresh _ s new e = tt

  split-Falls :
      (fresh : T.Task) (p : Place) (s : Fibonacci T.Task) (l r : Tasks T.Task)
      → s.place ≡ p
      → is_idle (mode T F s) ≡ false
      → IsPlain T F s
      → Fits p (mode T F s) l r
      → Falls (split s l r) (multiplex_impl T fresh p (split s l r))
  unfolding multiplex_impl left
  split-Falls fresh Place.created s l r e calm plain f = tt
  split-Falls fresh Place.start s l r e calm plain f = tt
  split-Falls fresh Place.run_largest s l r e calm plain f =
      let a = left-run l f.0 in rw e (omega arith)
  split-Falls fresh Place.run_smallest s l r e calm plain f =
      let a = left-run r f.1 in rw e (omega arith)
  split-Falls fresh Place.test_largest s l r e calm plain f = elim (Bool-cases (finished l)) [
    | inl done ↦ rw (done, e) (omega arith)
    | inr more ↦ rw (more, e) (omega arith)
  ]
  split-Falls fresh Place.test_smallest s l r e calm plain f = elim (Bool-cases (finished r)) [
    | inl done ↦ rw (done, e) (omega arith)
    | inr more ↦ rw (more, e) (omega arith)
  ]
  split-Falls fresh Place.call_wait s l r e calm plain f =
      let (m, plain') = wait-modes T F s plain calm in rw e (ground arith)
  split-Falls fresh Place.math s l r e calm plain f = rw e (omega arith)
  split-Falls fresh Place.finishing s l r e calm plain f = rw e (omega arith)
  split-Falls fresh Place.signalling s l r e calm plain f = rw e (omega arith)
  split-Falls fresh Place.gone s l r e calm plain f = tt

  cost-hear :
      (sig : Bool) (s : Fibonacci T.Task)
      → IsPlain T F s
      → cost (hear T sig s) ≤ cost s + (if sig then 3 else 0)
  cost-hear false s plain = omega arith
  cost-hear true s plain = let (m, _) = hear-modes T F s plain in ground arith

  largest-Falls :
      (s : Fibonacci T.Task) (l r : Tasks T.Task) (o : Option (Tasks T.Task × Bool))
      → IsPlain T F s
      → Falls l o
      → Falls (split s l r) (of_largest T s r o)
  unfolding left
  largest-Falls s l r none plain h = tt
  largest-Falls s l r (some (l', sig)) plain h =
      let c = cost-hear sig s plain in omega (arith, c, h)

  smallest-Falls :
      (s : Fibonacci T.Task) (l r : Tasks T.Task) (o : Option (Tasks T.Task × Bool))
      → IsPlain T F s
      → Falls r o
      → Falls (split s l r) (of_smallest T s l o)
  unfolding left
  smallest-Falls s l r none plain h = tt
  smallest-Falls s l r (some (r', sig)) plain h =
      let c = cost-hear sig s plain in omega (arith, c, h)

  step_here-Falls :
      (fresh : T.Task) (t : Tasks T.Task)
      → F.view fresh ≡ on_entry
      → IsSound T F t
      → Falls t (step_here T fresh t)
  unfolding step_here
  step_here-Falls fresh (alone s) new h = elim (Bool-cases (T.waiting s.base)) [
    | inl waits ↦ rw waits tt
    | inr runs ↦ rw runs (alone-Falls fresh s.place s new refl)
  ]
  step_here-Falls fresh (split s l r) new h = elim (Bool-cases (T.waiting s.base)) [
    | inl waits ↦ rw waits tt
    | inr runs ↦
        rw runs (split-Falls fresh s.place s l r refl (sym (waiting-mode T F s h.2) ∙ runs) h.2 h.6)
  ]

  pub step-Falls :
      (fresh : T.Task) (path : List Child) (t : Tasks T.Task)
      → F.view fresh ≡ on_entry
      → IsSound T F t
      → Falls t (step T fresh path t)
  unfolding step
  step-Falls fresh [] t new h = step_here-Falls fresh t new h
  step-Falls fresh (c ∷ cs) (alone s) new h = tt
  step-Falls fresh (Child.largest ∷ cs) (split s l r) new h =
      largest-Falls s l r (step T fresh cs l) h.2 (step-Falls fresh cs l new h.0)
  step-Falls fresh (Child.smallest ∷ cs) (split s l r) new h =
      smallest-Falls s l r (step T fresh cs r) h.2 (step-Falls fresh cs r new h.1)
