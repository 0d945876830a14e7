-- ===== src/WaitSignal/Diagram.antt =====
-- The comment above `Test::assert_IDLE` in src/wait_signal_test.cxx: for each condition bit a
-- task is IDLE, RUNNING or SKIP_WAIT, and `wait` and `signal` go from one to another. The tests
-- use the conditions 1 and 2, and 3 for both. Where a wait names both, the comments of the
-- cases `0+5+15` and `4+11+40` say what happens.
use ai_statefultask_testsuit.Base.{
  ℕ, ◌/◌, ◌%◌, ◌≡◌, Bool, true, false, ◌&&◌, ◌||◌, ◌==◌, if◌then◌else◌,
}
use ai_statefultask_testsuit.WaitSignal.{StatefulTask}

pub data Mode : Type 0 where
  idle running skip_wait : Mode

pub record Modes : Type 0 where
  pub one : Mode
  pub two : Mode

abbrev pub on_entry : Modes
on_entry = record { one = Mode.running; two = Mode.running }

abbrev pub is_idle : Mode → Bool
is_idle Mode.idle = true
is_idle _ = false

abbrev pub is_skip_wait : Mode → Bool
is_skip_wait Mode.skip_wait = true
is_skip_wait _ = false

-- Whether the mode of a condition of the mask passes `test`.
abbrev pub some_of : (Mode → Bool) → ℕ → Modes → Bool
some_of test mask m = (mask % 2 == 1 && test m.one) || (mask / 2 % 2 == 1 && test m.two)

abbrev each_of : (Mode → Mode) → ℕ → Modes → Modes
each_of f mask m = record {
  one = if mask % 2 == 1 then f m.one else m.one;
  two = if mask / 2 % 2 == 1 then f m.two else m.two;
}

abbrev resume : Mode → Mode
resume Mode.skip_wait = Mode.running
resume m = m

abbrev suspend : Mode → Mode
suspend m = Mode.idle

abbrev wake : Mode → Mode
wake Mode.idle = Mode.running
wake m = m

abbrev skip : Mode → Mode
skip m = Mode.skip_wait

-- A wait uses up a signal that came before it, and else goes to sleep.
abbrev pub wait_modes : ℕ → Modes → Modes
wait_modes mask m =
    if some_of is_skip_wait mask m then each_of resume mask m else each_of suspend mask m

-- A signal wakes up the whole task, or makes the next wait fall through.
abbrev pub signal_modes : ℕ → Modes → Modes
signal_modes mask m = if some_of is_idle mask m then each_of wake 3 m else each_of skip mask m

-- What the tests rely on of `AIStatefulTask`. Nothing is said of a wait for a condition that is
-- IDLE already, which the comment rules out by an assertion.
pub record FollowsDiagram (T : StatefulTask) : Type 0 where
  pub view : T.Task → Modes
  pub waiting_view : (t : T.Task) → T.waiting t ≡ some_of is_idle 3 (view t)
  pub wait_view :
      (mask : ℕ) (t : T.Task)
      → some_of is_idle mask (view t) ≡ false
      → view (T.wait mask t) ≡ wait_modes mask (view t)
  pub signal_result : (mask : ℕ) (t : T.Task) → (T.signal mask t).0 ≡ some_of is_idle mask (view t)
  pub signal_view : (mask : ℕ) (t : T.Task) → view (T.signal mask t).1 ≡ signal_modes mask (view t)

-- The diagram itself, as a base class.
abbrev pub diagram_task : StatefulTask
diagram_task = record {
  Task = Modes;
  wait = wait_modes;
  signal = λ mask m. (some_of is_idle mask m, signal_modes mask m);
  waiting = some_of is_idle 3;
  state_end = 5;
}
