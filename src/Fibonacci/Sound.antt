-- ===== src/Fibonacci/Sound.antt =====
-- What holds of the tasks of src/fibonacci.cxx in whatever order they step.
use ai_statefultask_testsuit.Base.{
  ℕ, zero, suc, ◌+◌, ◌<◌, ◌≡◌, refl, sym, Bool, true, false, not, ◌&&◌, ◌||◌, ltb, if◌then◌else◌,
  Option, none, some, arith, Bool-cases, ltb→lt, inl, inr,
}
use ai_statefultask_testsuit.WaitSignal.{StatefulTask}
use ai_statefultask_testsuit.WaitSignal.Diagram.{Mode, on_entry, is_idle, FollowsDiagram}
use ai_statefultask_testsuit.Fiboquick.Correct.{fib}
use ai_statefultask_testsuit.Fibonacci.{
  Place, Fibonacci, Tasks, alone, split, task_of, run, finished, value, multiplex_impl,
}
use ai_statefultask_testsuit.Fibonacci.Modes.{mode, IsPlain, wait-modes}

abbrev pub is_created_at : Place → Bool
is_created_at Place.created = true
is_created_at _ = false

abbrev pub is_gone_at : Place → Bool
is_gone_at Place.gone = true
is_gone_at _ = false

abbrev pub has_value_at : Place → Bool
has_value_at Place.finishing = true
has_value_at Place.signalling = true
has_value_at Place.gone = true
has_value_at _ = false

abbrev is_running : Mode → Bool
is_running Mode.running = true
is_running _ = false

abbrev is_alone_at : Place → Bool
is_alone_at Place.created = true
is_alone_at Place.start = true
is_alone_at p = has_value_at p

module _ {B : Type 0} where
  abbrev pub created : Tasks B → Bool
  created t = is_created_at (task_of t).place

  abbrev pub gone : Tasks B → Bool
  gone t = is_gone_at (task_of t).place

  -- The value is set behind `Fibonacci_math`.
  abbrev pub IsValued : Fibonacci B → Type 0
  IsValued s = s.m_value ≡ (if has_value_at s.place then fib s.m_index else 0)

  -- How far the created tasks are for the place of the one that created them. It is about to wait
  -- only if one of them has not signalled it yet, or the signal lets it skip the wait.
  abbrev pub Fits : Place → Mode → Tasks B → Tasks B → Type 0
  Fits Place.created m l r = ⊥
  Fits Place.start m l r = ⊥
  Fits Place.run_largest m l r = (created l ≡ true) × (created r ≡ true) × (is_idle m ≡ false)
  Fits Place.run_smallest m l r = (created l ≡ false) × (created r ≡ true) × (is_idle m ≡ false)
  Fits Place.test_largest m l r =
      (created l ≡ false) × (created r ≡ false) × ((is_idle m && (gone l && gone r)) ≡ false)
  Fits Place.test_smallest m l r =
      (created l ≡ false) × (created r ≡ false) × (is_idle m ≡ false) × (finished l ≡ true)
  Fits Place.call_wait m l r =
      (created l ≡ false)
      × (created r ≡ false)
      × (is_idle m ≡ false)
      × ((is_running m && (gone l && gone r)) ≡ false)
  Fits _ m l r =
      (created l ≡ false)
      × (created r ≡ false)
      × (is_idle m ≡ false)
      × (finished l ≡ true)
      × (finished r ≡ true)

pub created-Fits :
    {B : Type 0} (p : Place) (m : Mode) (l r : Tasks B) → is_created_at p ≡ true → Fits p m l r → ⊥
created-Fits Place.created m l r c f = f
created-Fits p m l r c f = absurd (ground arith)

fib-small : (n : ℕ) → n < 2 → fib n ≡ 1
unfolding fib
fib-small zero h = refl
fib-small (suc zero) h = refl
fib-small (suc (suc n)) h = absurd (omega arith)

gone-finished : {B : Type 0} (t : Tasks B) → finished t ≡ false → gone t ≡ false
gone-finished t h = ground arith

math-fib :
    {B : Type 0} (n : ℕ) (l r : Tasks B)
    → n ≡ (task_of l).m_index + 1
    → n ≡ (task_of r).m_index + 2
    → value l ≡ fib (task_of l).m_index
    → value r ≡ fib (task_of r).m_index
    → value l + value r ≡ fib n
unfolding fib
math-fib n l r il ir vl vr =
    let k = (task_of r).m_index in
    let large : n ≡ suc (suc k) = omega arith in
    let below : (task_of l).m_index ≡ suc k = omega arith in rw (vl, vr, below, large) refl

module _ (T : StatefulTask) (F : FollowsDiagram T) where
  abbrev pub IsSound : Tasks T.Task → Type 0
  IsSound (alone s) =
      (is_alone_at s.place ≡ true) × IsPlain T F s × (is_idle (mode T F s) ≡ false) × IsValued s
  IsSound (split s l r) =
      IsSound l
      × IsSound r
      × IsPlain T F s
      × IsValued s
      × (s.m_index ≡ (task_of l).m_index + 1)
      × (s.m_index ≡ (task_of r).m_index + 2)
      × Fits s.place (mode T F s) l r

  -- What a step does to the task at the top.
  abbrev pub Advances : Tasks T.Task → Option (Tasks T.Task × Bool) → Type 0
  Advances t none = Unit {0}
  Advances t (some (t', signals)) =
      IsSound t'
      × ((task_of t').m_index ≡ (task_of t).m_index)
      × (created t ≡ false)
      × (created t' ≡ false)
      × ((not (finished t) || finished t') ≡ true)
      × (gone t' ≡ (gone t || signals))

  pub value-finished :
      (t : Tasks T.Task) → IsSound t → finished t ≡ true → value t ≡ fib (task_of t).m_index
  value-finished (alone s) (_, _, _, valued) f = ground arith
  value-finished (split s l r) h f = let valued = h.3 in ground arith

  run-IsSound :
      (t : Tasks T.Task)
      → IsSound t
      → created t ≡ true
      → IsSound (run t)
        × ((task_of (run t)).m_index ≡ (task_of t).m_index)
        × (created (run t) ≡ false)
  run-IsSound (alone s) h c = ((refl, h.1, h.2, ground arith), refl, refl)
  run-IsSound (split s l r) h c = absurd (created-Fits s.place (mode T F s) l r c h.6)

  -- The step of `Fibonacci_start`.
  begin-Advances :
      (fresh : T.Task)
      → F.view fresh ≡ on_entry
      → (s : Fibonacci T.Task) → s.place ≡ Place.start
      → IsSound (alone s)
      → Advances (alone s) (multiplex_impl T fresh Place.start (alone s))
  unfolding multiplex_impl
  begin-Advances fresh new s e (_, plain, calm, valued) = elim (Bool-cases (ltb s.m_index 2)) [
    | inl small ↦ rw small (
      (refl, plain, calm, sym (fib-small s.m_index (ltb→lt s.m_index 2 small))),
      refl,
      ground arith,
      refl,
      ground arith,
      ground arith,
    )
    | inr large ↦ rw large (
      (
        (refl, ground arith, ground arith, refl),
        (refl, ground arith, ground arith, refl),
        plain,
        ground arith,
        ground arith,
        ground arith,
        (refl, refl, calm),
      ),
      refl,
      ground arith,
      refl,
      ground arith,
      ground arith,
    )
  ]

  pub alone-Advances :
      (fresh : T.Task)
      → F.view fresh ≡ on_entry
      → (p : Place) (s : Fibonacci T.Task) → s.place ≡ p
      → IsSound (alone s)
      → Advances (alone s) (multiplex_impl T fresh p (alone s))
  unfolding multiplex_impl
  alone-Advances fresh new Place.start s e h = begin-Advances fresh new s e h
  alone-Advances fresh new Place.finishing s e h = ground arith
  alone-Advances fresh new Place.signalling s e h = ground arith
  alone-Advances fresh new _ s e h = tt

  pub split-Advances :
      (fresh : T.Task) (p : Place) (s : Fibonacci T.Task) (l r : Tasks T.Task)
      → s.place ≡ p
      → is_idle (mode T F s) ≡ false
      → IsSound (split s l r)
      → Fits p (mode T F s) l r
      → Advances (split s l r) (multiplex_impl T fresh p (split s l r))
  unfolding multiplex_impl
  split-Advances fresh Place.created s l r e calm h f = tt
  split-Advances fresh Place.start s l r e calm h f = tt
  split-Advances fresh Place.run_largest s l r e calm h f =
      let (hl, hr, plain, valued, il, ir, _) = h in
      let (cl, cr, _) = f in
      let (gl, jl, dl) = run-IsSound l hl cl in
      (
        (gl, hr, plain, ground arith, ground arith, ir, (dl, cr, calm)),
        refl,
        ground arith,
        refl,
        ground arith,
        ground arith,
      )
  split-Advances fresh Place.run_smallest s l r e calm h f =
      let (hl, hr, plain, valued, il, ir, _) = h in
      let (cl, cr, _) = f in
      let (gr, jr, dr) = run-IsSound r hr cr in
      (
        (hl, gr, plain, ground arith, il, ground arith, (cl, dr, ground arith)),
        refl,
        ground arith,
        refl,
        ground arith,
        ground arith,
      )
  split-Advances fresh Place.test_largest s l r e calm h f =
      let (hl, hr, plain, valued, il, ir, _) = h in
      let (cl, cr, _) = f in
      elim (Bool-cases (finished l)) [
        | inl done ↦ rw done (
          (hl, hr, plain, ground arith, il, ir, (cl, cr, calm, done)),
          refl,
          ground arith,
          refl,
          ground arith,
          ground arith,
        )
        | inr more ↦
            let still : gone l ≡ false = gone-finished l more in
            rw more (
              (hl, hr, plain, ground arith, il, ir, (cl, cr, calm, ground arith)),
              refl,
              ground arith,
              refl,
              ground arith,
              ground arith,
            )
      ]
  split-Advances fresh Place.test_smallest s l r e calm h f =
      let (hl, hr, plain, valued, il, ir, _) = h in
      let (cl, cr, _, dl) = f in
      elim (Bool-cases (finished r)) [
        | inl done ↦ rw done (
          (hl, hr, plain, ground arith, il, ir, (cl, cr, calm, dl, done)),
          refl,
          ground arith,
          refl,
          ground arith,
          ground arith,
        )
        | inr more ↦
            let still : gone r ≡ false = gone-finished r more in
            rw more (
              (hl, hr, plain, ground arith, il, ir, (cl, cr, calm, ground arith)),
              refl,
              ground arith,
              refl,
              ground arith,
              ground arith,
            )
      ]
  split-Advances fresh Place.call_wait s l r e calm h f =
      let (hl, hr, plain, valued, il, ir, _) = h in
      let (cl, cr, _, one) = f in
      let (m, plain') = wait-modes T F s plain calm in
      (
        (hl, hr, plain', ground arith, il, ir, (cl, cr, ground arith)),
        refl,
        ground arith,
        refl,
        ground arith,
        ground arith,
      )
  split-Advances fresh Place.math s l r e calm h f =
      let (hl, hr, plain, valued, il, ir, _) = h in
      let (cl, cr, _, dl, dr) = f in
      let sum : value l + value r ≡ fib s.m_index =
        math-fib s.m_index l r il ir (value-finished l hl dl) (value-finished r hr dr) in
      (
        (hl, hr, plain, sum, il, ir, (cl, cr, calm, dl, dr)),
        refl,
        ground arith,
        refl,
        ground arith,
        ground arith,
      )
  split-Advances fresh Place.finishing s l r e calm h f =
      let (hl, hr, plain, valued, il, ir, _) = h in
      (
        (hl, hr, plain, ground arith, il, ir, f),
        refl,
        ground arith,
        refl,
        ground arith,
        ground arith,
      )
  split-Advances fresh Place.signalling s l r e calm h f =
      let (hl, hr, plain, valued, il, ir, _) = h in
      (
        (hl, hr, plain, ground arith, il, ir, f),
        refl,
        ground arith,
        refl,
        ground arith,
        ground arith,
      )
  split-Advances fresh Place.gone s l r e calm h f = tt
