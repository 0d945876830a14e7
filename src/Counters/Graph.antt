-- ===== src/Counters/Graph.antt =====
-- src/wait_signal_test2.cxx: the table of `main`, which has for each state and
-- operation the next state, or 81 where the operation is not allowed.
use ai_statefultask_testsuit.Base.{
  ℕ, ◌%◌, Bool, not, ◌&&◌, ◌||◌, ◌==◌, leb, if◌then◌else◌, Option, none, some,
}
use ai_statefultask_testsuit.Counters.{
  ◌>>=◌, Task, wait, signal, reset, reset_or_counters, required_is_idle, has_idle_counter, state,
  set_state,
}

abbrev pub not_allowed_magic : ℕ
not_allowed_magic = 81

abbrev pub settle : Bool → Bool → Task → Task
settle woken_up OR_counter_woke_up t =
    if woken_up then reset t else if OR_counter_woke_up then reset_or_counters t else t

-- The body of the loop over masks for a signal, on the copy `counters2`: the task behind it and
-- whether it was woken up.
unfoldable pub try_signal : ℕ → Task → Option (Task × Bool)
try_signal mask counters = do
  (counters2, OR_counter_woke_up) ← signal mask (has_idle_counter counters) counters
  let woken_up =
      has_idle_counter counters
      && (not (required_is_idle counters2)
          && (OR_counter_woke_up || not (has_idle_counter counters2)))
  some (settle woken_up OR_counter_woke_up counters2, woken_up)

-- The same for a wait.
unfoldable pub try_wait : ℕ → Task → Option (Task × Bool)
try_wait mask counters = do
  (counters2, OR_counter_woke_up) ← wait mask counters
  let woken_up = not (required_is_idle counters2) && OR_counter_woke_up
  some (settle woken_up OR_counter_woke_up counters2, woken_up)

abbrev pub entry : Option (Task × Bool) → ℕ
entry none = not_allowed_magic
entry (some (t, woken_up)) = state t

-- An operation is a mask, plus 16 for a signal.
abbrev pub try_operation : ℕ → Task → Option (Task × Bool)
try_operation operation counters =
    if leb 16 operation
    then try_signal (operation % 16) counters
    else try_wait (operation % 16) counters

-- `graph[s][operation]`. The mask 0 is skipped
-- by both loops, and leaves the initial value.
unfoldable pub graph : ℕ → ℕ → ℕ
graph s operation =
    if operation % 16 == 0 then not_allowed_magic else entry (try_operation operation (set_state s))
