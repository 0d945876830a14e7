-- ===== src/Examples/OfFibonacci.antt =====
-- src/fibonacci.cxx with the diagram itself for the base class.
use ai_statefultask_testsuit.Base.{
  ◌+◌, ◌^◌, ◌<◌, ◌≤◌, ◌≡◌, arith, ◌⊎◌, refl, true, none, some, List, [], ◌∷◌,
}
use ai_statefultask_testsuit.WaitSignal.Diagram.{Modes, on_entry, diagram_task}
use ai_statefultask_testsuit.Fiboquick.Correct.{fib}
use ai_statefultask_testsuit.Fibonacci.{
  Tasks, Child, start_main, printed, step, step_here, multiplex_impl,
}
use ai_statefultask_testsuit.Fibonacci.Sound.{gone}
use ai_statefultask_testsuit.Fibonacci.Ends.{start_cost}
use ai_statefultask_testsuit.Fibonacci.Progress.{CanStep}
use ai_statefultask_testsuit.Fibonacci.Runs.{Runs, here, next, main-fib}
use ai_statefultask_testsuit.Examples.OfWaitSignal.{diagram_follows}

-- The steps along some paths, those that no task can take left out.
abbrev after : List (List Child) → Tasks Modes → Tasks Modes
after [] t = t
after (path ∷ paths) t = elim (step diagram_task on_entry path t) [
  | none ↦ after paths t
  | some (u, signals) ↦ after paths u
]

abbrev flower : Tasks Modes
flower = start_main on_entry 2

-- `flower` waits before one of its two tasks begins.
abbrev asleep : Tasks Modes
asleep = after ([] ∷ [] ∷ [] ∷ [] ∷ [] ∷ []) flower

asleep_run : Runs diagram_task on_entry flower 5 asleep
unfolding step step_here multiplex_impl
asleep_run = next [] (next [] (next [] (next [] (next [] here refl) refl) refl) refl) refl

main-fib_example :
    (5 ≤ start_cost 2 + 3)
    × (fib 2 < 2 ^ 31)
    × ((printed asleep ≡ none) ⊎ (printed asleep ≡ some (fib 2)))
    × (CanStep diagram_task diagram_follows on_entry asleep
        ⊎ ((gone asleep ≡ true) × (printed asleep ≡ some (fib 2))))
main-fib_example = main-fib diagram_task diagram_follows on_entry refl 2 asleep_run (omega arith)

-- `m_largest` runs and wakes `flower`, which waits again; then `m_smallest` runs.
abbrev one_by_one : List (List Child)
one_by_one =
    let l = Child.largest ∷ [] in
    let s = Child.smallest ∷ [] in
    l ∷ l ∷ l ∷ [] ∷ [] ∷ [] ∷ s ∷ s ∷ s ∷ [] ∷ [] ∷ [] ∷ [] ∷ [] ∷ []

prints_two : printed (after one_by_one asleep) ≡ some 2
unfolding step step_here multiplex_impl
prints_two = refl
