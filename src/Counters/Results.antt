-- ===== src/Counters/Results.antt =====
-- src/wait_signal_test2.cxx: the map of `main` from the operations of a sequence, in any order, to
-- the first result with them. A later sequence with another result is a difference that `main`
-- prints. The sequences come in as a list, in the order of `MultiLoop`; the text that describes one
-- is the sequence itself.
pub mod Keys
pub mod Differ
use ai_statefultask_testsuit.Base.{
  ℕ, Bool, true, false, not, ◌&&◌, ◌==◌, leb, if◌then◌else◌, Option, none, some, List, [], ◌∷◌,
  ◌++◌,
}
use ai_statefultask_testsuit.Counters.{Task, set_state}
use ai_statefultask_testsuit.Counters.Operations.{running_state, run_operations}

-- `operations.insert(operation)`: a `std::multiset` holds its items in order.
unfoldable pub insert_operation : ℕ → List ℕ → List ℕ
insert_operation operation [] = operation ∷ []
insert_operation operation (o ∷ os) =
    if leb operation o then operation ∷ o ∷ os else o ∷ insert_operation operation os

unfoldable pub operations_of : List ℕ → List ℕ
unfolding insert_operation
operations_of [] = []
operations_of (operation ∷ ops) = insert_operation operation (operations_of ops)

abbrev pub operations_eq : List ℕ → List ℕ → Bool
operations_eq [] [] = true
operations_eq (o ∷ os) (p ∷ ps) = o == p && operations_eq os ps
operations_eq _ _ = false

-- `result_map_type`: a sequence and whether the task runs behind it, by its operations.
abbrev pub ResultMap : Type 0
ResultMap = List (List ℕ × (List ℕ × Bool))

unfoldable pub find_result : List ℕ → ResultMap → Option (List ℕ × Bool)
find_result operations [] = none
find_result operations ((key, value) ∷ results) =
    if operations_eq key operations then some value else find_result operations results

-- Whether the task runs behind a sequence from the state 40, or `none` if `not_allowed`.
unfoldable pub running_behind : List ℕ → Option Bool
running_behind ops = elim (run_operations ops (set_state running_state) true) [
  | none ↦ none
  | some r ↦ some r.1
]

-- What `insert` comes to where the key is there already: a difference is printed.
abbrev pub difference_of : List ℕ → Bool → List ℕ × Bool → List (List ℕ × List ℕ)
difference_of ops running (first, was_running) =
    if running
    then (if was_running then [] else (ops, first) ∷ [])
    else (if was_running then (ops, first) ∷ [] else [])

-- The sequences from a point on: the differences that are printed, each with the first sequence.
unfoldable pub differences : List (List ℕ) → ResultMap → List (List ℕ × List ℕ)
unfolding find_result operations_of running_behind
differences [] results = []
differences (ops ∷ sequences) results = elim (running_behind ops) [
  | none ↦ differences sequences results
  | some running ↦ elim (find_result (operations_of ops) results) [
    | none ↦ differences sequences ((operations_of ops, (ops, running)) ∷ results)
    | some value ↦ difference_of ops running value ++ differences sequences results
  ]
]
