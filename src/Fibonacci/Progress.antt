-- ===== src/Fibonacci/Progress.antt =====
-- As long as a task of src/fibonacci.cxx is not done, it or one of those below it can step.
use ai_statefultask_testsuit.Base.{
  ◌≡◌, refl, sym, ◌∙◌, ◌⊎◌, inl, inr, Bool, true, false, ◌&&◌, some, List, [], ◌∷◌, arith, is_some,
  Bool-cases, Option-cases,
}
use ai_statefultask_testsuit.WaitSignal.{StatefulTask}
use ai_statefultask_testsuit.WaitSignal.Diagram.{Mode, is_idle, FollowsDiagram}
use ai_statefultask_testsuit.Fibonacci.{
  Place, Fibonacci, Tasks, Child, alone, split, task_of, hear, multiplex_impl, step_here, step,
}
use ai_statefultask_testsuit.Fibonacci.Modes.{mode, waiting-mode}
use ai_statefultask_testsuit.Fibonacci.Sound.{created, gone, Fits, IsSound}

-- A task that waits has created two, one of which has not signalled it yet.
idle-Fits :
    {B : Type 0} (p : Place) (m : Mode) (l r : Tasks B)
    → is_idle m ≡ true
    → Fits p m l r
    → (created l ≡ false) × (created r ≡ false) × ((gone l && gone r) ≡ false)
idle-Fits Place.created m l r idle f = absurd f
idle-Fits Place.start m l r idle f = absurd f
idle-Fits Place.test_largest m l r idle f = (f.0, f.1, ground arith)
idle-Fits p m l r idle f = absurd (ground arith)

module _ (T : StatefulTask) (F : FollowsDiagram T) where
  -- A task at or below the top can step.
  pub CanStep : T.Task → Tasks T.Task → Type 0
  CanStep fresh t =
      (path : List Child) × (next : Tasks T.Task × Bool) × (step T fresh path t ≡ some next)

  here-CanStep :
      (fresh : T.Task) (p : Place) (t : Tasks T.Task)
      → (task_of t).place ≡ p
      → T.waiting (task_of t).base ≡ false
      → is_some (multiplex_impl T fresh p t) ≡ true
      → CanStep fresh t
  unfolding CanStep step step_here
  here-CanStep fresh p t e runs can = elim (Option-cases (multiplex_impl T fresh p t)) [
    | inl none_left ↦ absurd (ground (arith, none_left))
    | inr (next, found) ↦ ([], next, rw (step, step_here, runs, e) found)
  ]

  alone-CanStep :
      (fresh : T.Task) (p : Place) (s : Fibonacci T.Task)
      → s.place ≡ p
      → IsSound T F (alone s)
      → created (alone s) ≡ false
      → (gone (alone s) ≡ true) ⊎ (is_some (multiplex_impl T fresh p (alone s)) ≡ true)
  unfolding multiplex_impl
  alone-CanStep fresh Place.start s e h c = inr refl
  alone-CanStep fresh Place.finishing s e h c = inr refl
  alone-CanStep fresh Place.signalling s e h c = inr refl
  alone-CanStep fresh Place.gone s e h c = inl (ground arith)
  alone-CanStep fresh p s e h c = absurd (ground arith)

  split-CanStep :
      (fresh : T.Task) (p : Place) (s : Fibonacci T.Task) (l r : Tasks T.Task)
      → s.place ≡ p
      → Fits p (mode T F s) l r
      → (gone (split s l r) ≡ true) ⊎ (is_some (multiplex_impl T fresh p (split s l r)) ≡ true)
  unfolding multiplex_impl
  split-CanStep fresh Place.created s l r e f = absurd f
  split-CanStep fresh Place.start s l r e f = absurd f
  split-CanStep fresh Place.gone s l r e f = inl (ground arith)
  split-CanStep fresh p s l r e f = inr refl

  largest-CanStep :
      (fresh : T.Task) (s : Fibonacci T.Task) (l r : Tasks T.Task)
      → CanStep fresh l
      → CanStep fresh (split s l r)
  unfolding CanStep step
  largest-CanStep fresh s l r (path, next, e) =
      (Child.largest ∷ path, (split (hear T next.1 s) next.0 r, false), rw (step, e) refl)

  smallest-CanStep :
      (fresh : T.Task) (s : Fibonacci T.Task) (l r : Tasks T.Task)
      → CanStep fresh r
      → CanStep fresh (split s l r)
  unfolding CanStep step
  smallest-CanStep fresh s l r (path, next, e) =
      (Child.smallest ∷ path, (split (hear T next.1 s) l next.0, false), rw (step, e) refl)

  -- A task above others that can step, or is done, or waits for one of them.
  pub sound-CanStep :
      (fresh : T.Task) (t : Tasks T.Task)
      → IsSound T F t
      → created t ≡ false
      → (gone t ≡ true) ⊎ CanStep fresh t
  sound-CanStep fresh (alone s) h c = elim (alone-CanStep fresh s.place s refl h c) [
    | inl done ↦ inl done
    | inr can ↦ inr (here-CanStep fresh s.place (alone s) refl (waiting-mode T F s h.1 ∙ h.2) can)
  ]
  sound-CanStep fresh (split s l r) h c = elim (Bool-cases (T.waiting s.base)) [
    | inr runs ↦ elim (split-CanStep fresh s.place s l r refl h.6) [
      | inl done ↦ inl done
      | inr can ↦ inr (here-CanStep fresh s.place (split s l r) refl runs can)
    ]
    | inl waits ↦
        let idle = sym (waiting-mode T F s h.2) ∙ waits in
        let (cl, cr, left_one) = idle-Fits s.place (mode T F s) l r idle h.6 in
        elim (Bool-cases (gone l)) [
          | inr more ↦ elim (sound-CanStep fresh l h.0 cl) [
            | inl done ↦ absurd (ground arith)
            | inr can ↦ inr (largest-CanStep fresh s l r can)
          ]
          | inl over ↦ elim (sound-CanStep fresh r h.1 cr) [
            | inl done ↦ absurd (ground arith)
            | inr can ↦ inr (smallest-CanStep fresh s l r can)
          ]
        ]
  ]
