-- ===== src/Timers.antt =====
-- src/timer_test.cxx, as it is with TEST_ALL_THREE: timers that are started, stopped and expired by
-- two implementations in turn. A timer is its place in the vector `timers`, and a point in time a
-- number of ticks. Timers/Multimap is implementation 0 and Timers/PriorityQueue implementation 1;
-- implementation 2 is in the submodule threadpool.
pub mod Expiring
pub mod Multimap
pub mod PriorityQueue
pub mod Generate
pub mod Agree
pub mod Generated
pub mod Counted
use ai_statefultask_testsuit.Base.{ℕ, Bool, true, false, ◌==◌, if◌then◌else◌}

-- `m_call_back`: `expire0` or `expire1`, which only write a variable, or `stop()` of a timer.
pub data Callback : Type 0 where
  expires : Callback
  stops : ℕ → Callback

abbrev pub set_at {ℓ} : {A : Type ℓ} → ℕ → A → (ℕ → A) → ℕ → A
set_at k value old i = if i == k then value else old i

-- The numbers of the timers for which `is_running()` holds.
abbrev pub Running : Type 0
Running = ℕ → Bool

abbrev pub is_stopped_by : Callback → ℕ → Bool
is_stopped_by Callback.expires i = false
is_stopped_by (Callback.stops k) i = k == i
