-- ===== src/Examples/OfCounters.antt =====
-- src/wait_signal_test2.cxx at concrete tasks.
use ai_statefultask_testsuit.Base.{
  ℕ, ◌<◌, ◌≡◌, ◌≢◌, ◌↔◌, ◌⊎◌, refl, Bool, List, true, false, not, ◌&&◌, none, some, [], ◌∷◌, arith,
  is_some,
}
use ai_statefultask_testsuit.Counters.{
  for_each, reset_or_counters_from, some_idle, set_state_digits, Task, wait, signal, reset,
  reset_or_counters, is_idle, required_is_idle, has_idle_counter, state, set_state,
}
use ai_statefultask_testsuit.Counters.Operations.{
  run_operations, try_operations, run_operations-eq-try_operations,
}
use ai_statefultask_testsuit.Counters.Graph.{try_signal, try_wait, try_operation, graph}
use ai_statefultask_testsuit.Counters.Results.{
  differences, find_result, operations_of, insert_operation, running_behind,
}
use ai_statefultask_testsuit.Counters.Results.Differ.{Difference, differences-iff-Difference}
use ai_statefultask_testsuit.Counters.Wakeup.{has_idle_counter-try_signal}
use ai_statefultask_testsuit.Counters.Reorder.{try_wait-try_signal}
use ai_statefultask_testsuit.Counters.Allowed.{
  is_some-iff-allowed, graph-try_operation, some_masked,
}

-- The initial task of the last part of `main`, state 40.
abbrev running : Task
running = 1 ∷ 1 ∷ 1 ∷ 1 ∷ []

-- It waits for condition 0 and required condition 1.
abbrev waiting : Task
waiting = 0 ∷ 1 ∷ 1 ∷ 0 ∷ []

abbrev half_woken : Task
half_woken = 1 ∷ 1 ∷ 1 ∷ 0 ∷ []

has_idle_counter-try_signal_example :
    has_idle_counter half_woken ≡ (has_idle_counter waiting && not false)
unfolding try_signal signal has_idle_counter required_is_idle reset_or_counters
has_idle_counter-try_signal_example =
    has_idle_counter-try_signal 1 waiting {t' = half_woken} {woken_up = false} refl

try_wait-try_signal_example :
    (t' : Task) × (try_wait 9 running ≡ some (t', false))
    × (has_idle_counter t' ≡ true)
    × (try_signal 9 t' ≡ some (reset running, true))
unfolding has_idle_counter
try_wait-try_signal_example = try_wait-try_signal 9 running refl (omega arith) refl

is_some-iff-allowed_example :
    (is_some (try_wait 1 waiting) ≡ not (some_masked is_idle 1 0 waiting))
    × (is_some (try_signal 1 waiting)
        ≡ not (has_idle_counter waiting && some_masked (λ m. not (is_idle m)) 1 0 waiting))
is_some-iff-allowed_example = is_some-iff-allowed 1 waiting

graph-try_operation_example :
    ((try_operation 17 (set_state 40) ≡ none) × (graph 40 17 ≡ 81))
    ⊎ ((t : Task) × (woken_up : Bool) × (try_operation 17 (set_state 40) ≡ some (t, woken_up))
        × (graph 40 17 < 81)
        × (set_state (graph 40 17) ≡ t))
graph-try_operation_example = graph-try_operation 40 17 (omega arith) (omega arith)

-- A wait for required condition 0 in the state of all ones, and the signal for it.
graph_40 : (graph 40 4 ≡ 31) × (graph 31 20 ≡ 40) × (graph 31 4 ≡ 81)
unfolding graph try_signal try_wait signal wait has_idle_counter required_is_idle reset
    reset_or_counters state set_state
graph_40 = (refl, refl, refl)

-- wait(1), signal(1), wait(2)
run_operations-eq-try_operations_example :
    run_operations (1 ∷ 17 ∷ 2 ∷ []) (set_state 40) true
    ≡ try_operations (1 ∷ 17 ∷ 2 ∷ []) (set_state 40) true
run_operations-eq-try_operations_example =
    run_operations-eq-try_operations (1 ∷ 17 ∷ 2 ∷ []) 40 true
      (omega arith, (omega arith, (omega arith, tt))) (omega arith)

allowed_sequence : try_operations (1 ∷ 17 ∷ 2 ∷ []) (set_state 40) true ≡ some (set_state 37, false)
unfolding try_operations try_wait try_signal wait signal for_each reset reset_or_counters
    reset_or_counters_from required_is_idle has_idle_counter some_idle set_state set_state_digits
allowed_sequence = refl

-- wait(1), signal(1), wait(3), signal(2), and the same with wait(1) as the last.
abbrev two_orders : List (List ℕ)
two_orders = (1 ∷ 17 ∷ 3 ∷ 18 ∷ []) ∷ (3 ∷ 17 ∷ 18 ∷ 1 ∷ []) ∷ []

differences-iff-Difference_example : (differences two_orders [] ≢ []) ↔ Difference two_orders
differences-iff-Difference_example = differences-iff-Difference two_orders

-- The one with wait(1) at the end waits, the other runs.
orders_differ : differences two_orders [] ≡ ((3 ∷ 17 ∷ 18 ∷ 1 ∷ []), (1 ∷ 17 ∷ 3 ∷ 18 ∷ [])) ∷ []
unfolding differences find_result operations_of insert_operation running_behind run_operations graph
    try_wait try_signal wait signal for_each reset reset_or_counters reset_or_counters_from
    required_is_idle has_idle_counter some_idle state set_state set_state_digits
orders_differ = refl
