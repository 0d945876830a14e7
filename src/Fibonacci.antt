-- ===== src/Fibonacci.antt =====
-- src/fibonacci.cxx: a task `Fibonacci` creates two others, for the two numbers before its own, and
-- waits until both have finished. What it uses of its base class `AIStatefulTask` is the parameter
-- `StatefulTask` of WaitSignal; a task that was run by another signals it once it is `finished()`.
-- The threads of the pool interleave between any two accesses to what the tasks share.
pub mod Modes
pub mod Sound
pub mod Steps
pub mod Ends
pub mod Progress
pub mod Runs
use ai_statefultask_testsuit.Base.{
  ℕ, zero, suc, ◌+◌, ◌-◌, Bool, true, false, ltb, ◌==◌, if◌then◌else◌, Option, none, some, List, [],
  ◌∷◌,
}
use ai_statefultask_testsuit.WaitSignal.{StatefulTask}

-- Where a task is: not run yet; in `Fibonacci_start`, at its begin or at one of the calls of `run`;
-- in `Fibonacci_wait`, at one of the calls of `finished()` or at `wait(1)`; in `Fibonacci_math`; in
-- `Fibonacci_done`; behind `finish()`, before and after the task that ran it is signalled.
pub data Place : Type 0 where
  created start run_largest run_smallest test_largest test_smallest call_wait : Place
  math finishing signalling gone : Place

-- The members of a task, with the base class's part `B`. An `int` is a number here; it is large
-- enough up to index 45.
pub record Fibonacci (B : Type 0) : Type 0 where
  pub place : Place
  pub m_index : ℕ
  pub m_value : ℕ
  pub base : B

-- A task with those that it has created, `m_largest` and `m_smallest`.
pub data Tasks (B : Type 0) : Type 0 where
  alone : Fibonacci B → Tasks B
  split : Fibonacci B → Tasks B → Tasks B → Tasks B

pub data Child : Type 0 where
  largest smallest : Child

abbrev pub is_finished_at : Place → Bool
is_finished_at Place.signalling = true
is_finished_at Place.gone = true
is_finished_at _ = false

module _ {B : Type 0} where
  abbrev pub task_of : Tasks B → Fibonacci B
  task_of (alone s) = s
  task_of (split s l r) = s

  abbrev pub with_task : (Fibonacci B → Fibonacci B) → Tasks B → Tasks B
  with_task f (alone s) = alone (f s)
  with_task f (split s l r) = split (f s) l r

  abbrev pub go_to : Place → Fibonacci B → Fibonacci B
  go_to place s = record s { place = place }

  -- `new Fibonacci` and `set_number(n)`
  abbrev pub new_task : B → ℕ → Tasks B
  new_task fresh n =
      alone (record { place = Place.created; m_index = n; m_value = 0; base = fresh })

  -- `run`
  abbrev pub run : Tasks B → Tasks B
  run = with_task (go_to Place.start)

  abbrev pub finished : Tasks B → Bool
  finished t = is_finished_at (task_of t).place

  abbrev pub value : Tasks B → ℕ
  value t = (task_of t).m_value

module _ (T : StatefulTask) where
  open T use {Task, signal}

  -- What a task does as a signal comes, by `run(high_priority_queue, this, 1)`.
  abbrev pub hear : Bool → Fibonacci Task → Fibonacci Task
  hear false s = s
  hear true s = record s { base = (signal 1 s.base).1 }

  -- A step of one that it has created.
  abbrev pub of_largest :
      Fibonacci Task → Tasks Task → Option (Tasks Task × Bool) → Option (Tasks Task × Bool)
  of_largest s r none = none
  of_largest s r (some (l, signals)) = some (split (hear signals s) l r, false)

  abbrev pub of_smallest :
      Fibonacci Task → Tasks Task → Option (Tasks Task × Bool) → Option (Tasks Task × Bool)
  of_smallest s l none = none
  of_smallest s l (some (r, signals)) = some (split (hear signals s) l r, false)

-- A step of a task, and whether it signals the task that ran it.
module _ (T : StatefulTask) (fresh : T.Task) where
  open T use {Task, wait, waiting}

  -- `Fibonacci::multiplex_impl`, from one access to the next.
  unfoldable pub multiplex_impl : Place → Tasks Task → Option (Tasks Task × Bool)
  multiplex_impl Place.start (alone s) = some (
    if ltb s.m_index 2
        then alone (record s { place = Place.finishing; m_value = 1 })
        else split (go_to Place.run_largest s) (new_task fresh (s.m_index - 1))
            (new_task fresh (s.m_index - 2)),
    false,
  )
  multiplex_impl Place.run_largest (split s l r) =
      some (split (go_to Place.run_smallest s) (run l) r, false)
  multiplex_impl Place.run_smallest (split s l r) =
      some (split (go_to Place.test_largest s) l (run r), false)
  multiplex_impl Place.test_largest (split s l r) =
      some
        (split (go_to (if finished l then Place.test_smallest else Place.call_wait) s) l r, false)
  multiplex_impl Place.test_smallest (split s l r) =
      some (split (go_to (if finished r then Place.math else Place.call_wait) s) l r, false)
  multiplex_impl Place.call_wait (split s l r) =
      some (split (record s { place = Place.test_largest; base = wait 1 s.base }) l r, false)
  multiplex_impl Place.math (split s l r) =
      some (split (record s { place = Place.finishing; m_value = value l + value r }) l r, false)
  multiplex_impl Place.finishing t = some (with_task (go_to Place.signalling) t, false)
  multiplex_impl Place.signalling t = some (with_task (go_to Place.gone) t, true)
  multiplex_impl _ t = none

  -- The pool runs a task that is not waiting.
  unfoldable pub step_here : Tasks Task → Option (Tasks Task × Bool)
  unfolding multiplex_impl
  step_here t = if waiting (task_of t).base then none else multiplex_impl (task_of t).place t

  -- A step of the task at the end of the path.
  unfoldable pub step : List Child → Tasks Task → Option (Tasks Task × Bool)
  unfolding step_here
  step [] t = step_here t
  step (c ∷ cs) (alone s) = none
  step (Child.largest ∷ cs) (split s l r) = of_largest T s r (step cs l)
  step (Child.smallest ∷ cs) (split s l r) = of_smallest T s l (step cs r)

-- `main` creates and runs the task `flower`.
abbrev pub start_main : {B : Type 0} → B → ℕ → Tasks B
start_main fresh number = run (new_task fresh number)

-- Its loop goes on while the value is 0; then it prints the value.
abbrev pub printed : {B : Type 0} → Tasks B → Option ℕ
printed flower = if value flower == 0 then none else some (value flower)
