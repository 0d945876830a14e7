-- ===== src/Fibonacci/Steps.antt =====
-- A step of any of the tasks of src/fibonacci.cxx, and the signal it may send, keep what holds of them.
use ai_statefultask_testsuit.Base.{
  ◌≡◌, refl, sym, ap, subst, ◌∙◌, inl, inr, Bool, true, false, not, ◌||◌, if◌then◌else◌, Option,
  none, some, List, [], ◌∷◌, arith, Bool-cases,
}
use ai_statefultask_testsuit.WaitSignal.{StatefulTask}
use ai_statefultask_testsuit.WaitSignal.Diagram.{Mode, on_entry, FollowsDiagram}
use ai_statefultask_testsuit.Fibonacci.{
  Place, Fibonacci, Tasks, Child, alone, split, finished, is_finished_at, of_largest, of_smallest,
  hear, step_here, step,
}
use ai_statefultask_testsuit.Fibonacci.Modes.{signalled, mode, IsPlain, waiting-mode, hear-modes}
use ai_statefultask_testsuit.Fibonacci.Sound.{
  created, gone, is_created_at, is_gone_at, IsValued, Fits, IsSound, Advances, created-Fits,
  alone-Advances, split-Advances,
}

abbrev heard : Bool → Mode → Mode
heard sig m = if sig then signalled m else m

-- A step of `m_largest`, and of `m_smallest`.
largest-Fits :
    {B : Type 0} (p : Place) (m : Mode) (l l' r : Tasks B) (sig : Bool)
    → created l ≡ false
    → created l' ≡ false
    → (not (finished l) || finished l') ≡ true
    → gone l' ≡ (gone l || sig)
    → Fits p m l r
    → Fits p (heard sig m) l' r
largest-Fits Place.created m l l' r sig c c' f g h = h
largest-Fits Place.start m l l' r sig c c' f g h = h
largest-Fits Place.run_largest m l l' r sig c c' f g h = absurd (ground arith)
largest-Fits Place.run_smallest m l l' r sig c c' f g h = ground arith
largest-Fits Place.test_largest m l l' r sig c c' f g h = ground arith
largest-Fits p m l l' r sig c c' f g h = ground arith

smallest-Fits :
    {B : Type 0} (p : Place) (m : Mode) (l r r' : Tasks B) (sig : Bool)
    → created r ≡ false
    → created r' ≡ false
    → (not (finished r) || finished r') ≡ true
    → gone r' ≡ (gone r || sig)
    → Fits p m l r
    → Fits p (heard sig m) l r'
smallest-Fits Place.created m l r r' sig c c' f g h = h
smallest-Fits Place.start m l r r' sig c c' f g h = h
smallest-Fits Place.run_largest m l r r' sig c c' f g h = absurd (ground arith)
smallest-Fits Place.run_smallest m l r r' sig c c' f g h = absurd (ground arith)
smallest-Fits Place.test_largest m l r r' sig c c' f g h = ground arith
smallest-Fits p m l r r' sig c c' f g h = ground arith

pub not_created :
    {B : Type 0} (p : Place) (m : Mode) (l r : Tasks B) → Fits p m l r → is_created_at p ≡ false
not_created p m l r h = elim (Bool-cases (is_created_at p)) [
  | inl c ↦ absurd (created-Fits p m l r c h)
  | inr c ↦ c
]

or_not : (b : Bool) → (not b || b) ≡ true
or_not b = ground arith

or_false : (b : Bool) → (b || false) ≡ b
or_false b = ground arith

module _ (T : StatefulTask) (F : FollowsDiagram T) where
  -- The task that may hear a signal.
  pub hear-mode :
      (sig : Bool) (s : Fibonacci T.Task)
      → IsPlain T F s
      → (mode T F (hear T sig s) ≡ heard sig (mode T F s)) × IsPlain T F (hear T sig s)
  hear-mode false s plain = (refl, plain)
  hear-mode true s plain = hear-modes T F s plain

  pub hear-rest :
      (sig : Bool) (s : Fibonacci T.Task)
      → ((hear T sig s).place ≡ s.place)
        × ((hear T sig s).m_index ≡ s.m_index)
        × ((hear T sig s).m_value ≡ s.m_value)
  hear-rest false s = (refl, refl, refl)
  hear-rest true s = (refl, refl, refl)

  hear-IsValued : (sig : Bool) (s : Fibonacci T.Task) → IsValued s → IsValued (hear T sig s)
  hear-IsValued false s v = v
  hear-IsValued true s v = v

  largest-Advances :
      (s : Fibonacci T.Task) (l r : Tasks T.Task) (o : Option (Tasks T.Task × Bool))
      → IsSound T F (split s l r)
      → Advances T F l o
      → Advances T F (split s l r) (of_largest T s r o)
  largest-Advances s l r none h a = tt
  largest-Advances s l r (some (l', sig)) (hl, hr, plain, valued, il, ir, fits)
        (sound, same, c, c', f, g) =
      let (m, plain') = hear-mode sig s plain in
      let (p, n, v) = hear-rest sig s in
      let fits' : Fits (hear T sig s).place (mode T F (hear T sig s)) l' r =
        subst (λ q. Fits q (mode T F (hear T sig s)) l' r) (sym p)
          (subst (λ q. Fits s.place q l' r) (sym m)
            (largest-Fits s.place (mode T F s) l l' r sig c c' f g fits)) in
      let up = not_created s.place (mode T F s) l r fits in
      (
        (
          sound,
          hr,
          plain',
          hear-IsValued sig s valued,
          omega (arith, n, same, il),
          omega (arith, n, same, ir),
          fits',
        ),
        n,
        up,
        ap is_created_at p ∙ up,
        rw (ap is_finished_at p) (or_not (is_finished_at s.place)),
        ap is_gone_at p ∙ sym (or_false (is_gone_at s.place)),
      )

  smallest-Advances :
      (s : Fibonacci T.Task) (l r : Tasks T.Task) (o : Option (Tasks T.Task × Bool))
      → IsSound T F (split s l r)
      → Advances T F r o
      → Advances T F (split s l r) (of_smallest T s l o)
  smallest-Advances s l r none h a = tt
  smallest-Advances s l r (some (r', sig)) (hl, hr, plain, valued, il, ir, fits)
        (sound, same, c, c', f, g) =
      let (m, plain') = hear-mode sig s plain in
      let (p, n, v) = hear-rest sig s in
      let fits' : Fits (hear T sig s).place (mode T F (hear T sig s)) l r' =
        subst (λ q. Fits q (mode T F (hear T sig s)) l r') (sym p)
          (subst (λ q. Fits s.place q l r') (sym m)
            (smallest-Fits s.place (mode T F s) l r r' sig c c' f g fits)) in
      let up = not_created s.place (mode T F s) l r fits in
      (
        (
          hl,
          sound,
          plain',
          hear-IsValued sig s valued,
          omega (arith, n, same, il),
          omega (arith, n, same, ir),
          fits',
        ),
        n,
        up,
        ap is_created_at p ∙ up,
        rw (ap is_finished_at p) (or_not (is_finished_at s.place)),
        ap is_gone_at p ∙ sym (or_false (is_gone_at s.place)),
      )

  step_here-Advances :
      (fresh : T.Task)
      → F.view fresh ≡ on_entry
      → (t : Tasks T.Task) → IsSound T F t
      → Advances T F t (step_here T fresh t)
  unfolding step_here
  step_here-Advances fresh new (alone s) h = elim (Bool-cases (T.waiting s.base)) [
    | inl waits ↦ rw waits tt
    | inr runs ↦ rw runs (alone-Advances T F fresh new s.place s refl h)
  ]
  step_here-Advances fresh new (split s l r) h = elim (Bool-cases (T.waiting s.base)) [
    | inl waits ↦ rw waits tt
    | inr runs ↦
        rw runs
          (split-Advances T F fresh s.place s l r refl (sym (waiting-mode T F s h.2) ∙ runs) h h.6)
  ]

  pub step-Advances :
      (fresh : T.Task)
      → F.view fresh ≡ on_entry
      → (path : List Child) (t : Tasks T.Task) → IsSound T F t
      → Advances T F t (step T fresh path t)
  unfolding step
  step-Advances fresh new [] t h = step_here-Advances fresh new t h
  step-Advances fresh new (c ∷ cs) (alone s) h = tt
  step-Advances fresh new (Child.largest ∷ cs) (split s l r) h =
      largest-Advances s l r (step T fresh cs l) h (step-Advances fresh new cs l h.0)
  step-Advances fresh new (Child.smallest ∷ cs) (split s l r) h =
      smallest-Advances s l r (step T fresh cs r) h (step-Advances fresh new cs r h.1)
