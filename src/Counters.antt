-- ===== src/Counters.antt =====
-- src/wait_signal_test2.cxx: the three-valued counters behind `wait` and `signal`,
-- and the task that has one for each of four conditions. A counter is the int `m_value`, which
-- holds 0, 1 or 2; the array of counters is a list, counter 0 first, and the loops over it carry
-- the index `i`. An exception `NotAllowed` is `none`.
pub mod Encoding
pub mod Graph
pub mod Wakeup
pub mod Reorder
pub mod Allowed
pub mod Operations
pub mod Results
use ai_statefultask_testsuit.Base.{
  ℕ, zero, suc, ◌+◌, ◌-◌, ◌*◌, ◌/◌, ◌%◌, ◌^◌, Bool, true, false, not, ◌&&◌, ◌||◌, ltb, ◌==◌,
  if◌then◌else◌, Option, none, some, List, [], ◌∷◌, map,
}

infixl 5 ◌>>=◌
abbrev pub ◌>>=◌ {ℓ κ} : {A : Type ℓ} {B : Type κ} → Option A → (A → Option B) → Option B
none >>= f = none
some a >>= f = f a

-- `Counter`, an operation of which returns the new value and its own result.
abbrev counter_signal : Bool → ℕ → Option (ℕ × Bool)
counter_signal is_idle m_value =
    if is_idle && not (m_value == 0)
    then none
    else if m_value == 2
    then some (m_value, false)
    else some (m_value + 1, m_value + 1 == 1)

abbrev counter_wait : ℕ → Option (ℕ × Bool)
counter_wait m_value = if m_value == 0 then none else some (m_value - 1, m_value - 1 == 1)

abbrev pub is_idle : ℕ → Bool
is_idle m_value = m_value == 0

abbrev pub is_required : ℕ → Bool
is_required i = ltb 1 i

-- `mask & (1 << i)`
abbrev pub in_mask : ℕ → ℕ → Bool
in_mask mask i = mask / 2 ^ i % 2 == 1

-- The conditions of a task, in the array `m_counters`.
abbrev pub Task : Type 0
Task = List ℕ

-- The loop of `Task::wait` and `Task::signal` from index `i` on, with the counter's operation as
-- an argument.
unfoldable pub for_each : (ℕ → Option (ℕ × Bool)) → ℕ → ℕ → Task → Option (Task × Bool)
for_each operation mask i [] = some ([], false)
for_each operation mask i (m ∷ ms) =
    let rest = for_each operation mask (suc i) ms in
    if in_mask mask i
    then (do
      (m', woke_up) ← operation m
      (ms', OR_counter_woke_up) ← rest
      some (m' ∷ ms', (woke_up && not (is_required i)) || OR_counter_woke_up))
    else (do (ms', OR_counter_woke_up) ← rest; some (m ∷ ms', OR_counter_woke_up))

unfoldable pub wait : ℕ → Task → Option (Task × Bool)
unfolding for_each
wait mask = for_each counter_wait mask 0

unfoldable pub signal : ℕ → Bool → Task → Option (Task × Bool)
unfolding for_each
signal mask idle = for_each (counter_signal idle) mask 0

unfoldable pub reset : Task → Task
reset = map (λ m. 1)

unfoldable pub reset_or_counters_from : ℕ → Task → Task
reset_or_counters_from i [] = []
reset_or_counters_from i (m ∷ ms) =
    (if not (is_required i) && is_idle m then 1 else m) ∷ reset_or_counters_from (suc i) ms

unfoldable pub reset_or_counters : Task → Task
unfolding reset_or_counters_from
reset_or_counters = reset_or_counters_from 0

-- Whether a counter of index `i` or more is idle that `among` picks by its index.
unfoldable pub some_idle : (ℕ → Bool) → ℕ → Task → Bool
some_idle among i [] = false
some_idle among i (m ∷ ms) = (is_idle m && among i) || some_idle among (suc i) ms

unfoldable pub is_waiting : Bool → Task → Bool
unfolding some_idle
is_waiting OR_counter_woke_up t =
    some_idle is_required 0 t
    || (some_idle (λ i. not (is_required i)) 0 t && not OR_counter_woke_up)

-- This loop begins at index 2.
unfoldable pub required_is_idle : Task → Bool
unfolding some_idle
required_is_idle (m₀ ∷ m₁ ∷ ms) = some_idle (λ i. true) 2 ms
required_is_idle _ = false

unfoldable pub has_idle_counter : Task → Bool
unfolding some_idle
has_idle_counter = some_idle (λ i. true) 0

-- `state_type`: the counters as the digits of a number in base 3, counter 0 the lowest.
unfoldable pub state : Task → ℕ
state [] = 0
state (m ∷ ms) = m + 3 * state ms

unfoldable pub set_state_digits : ℕ → ℕ → Task
set_state_digits zero st = []
set_state_digits (suc n) st = st % 3 ∷ set_state_digits n (st / 3)

-- A task has four counters.
unfoldable pub set_state : ℕ → Task
unfolding set_state_digits
set_state = set_state_digits 4
