-- ===== src/HelloWorld.antt =====
-- src/helloworld.cxx: two tasks in a thread pool that bump each other. What they use of their base
-- class `AIStatefulTask` is the parameter `StatefulTask` of WaitSignal. The threads interleave
-- between any two accesses to what the tasks share, so that `bump` and the wait for a bump are two
-- steps each.
pub mod Invariant
pub mod Ends
pub mod Refines
use ai_statefultask_testsuit.Base.{
  ℕ, zero, suc, ◌+◌, ◌-◌, Bool, true, false, ◌||◌, if◌then◌else◌, Option, none, some,
}
use ai_statefultask_testsuit.WaitSignal.{StatefulTask}

-- Where `HelloWorld` is: in `HelloWorld_start`; in `HelloWorld_wait`, at the test of `m_bumped` or
-- at `wait(1)`; in `HelloWorld_done`, at one of the two lines of `bumper->bump()` or at `finish()`;
-- or behind its destructor.
pub data HelloWorldState : Type 0 where
  start test_bumped call_wait set_bumped call_signal finishing destructed : HelloWorldState

-- The same for `Bumper`, which bumps in `Bumper_start`.
pub data BumperState : Type 0 where
  set_bumped call_signal test_bumped call_wait finishing destructed : BumperState

-- Both tasks over the base class's part `B` of each, and `number_of_tasks`. `fault` says that a
-- task was used behind its destructor; nothing is known of the run from there on.
pub record System (B : Type 0) : Type 0 where
  pub hello_world : HelloWorldState
  pub hello_world_base : B
  pub hello_world_bumped : Bool
  pub bumper : BumperState
  pub bumper_base : B
  pub bumper_bumped : Bool
  pub number_of_tasks : ℕ
  pub fault : Bool

abbrev pub hello_world_gone : HelloWorldState → Bool
hello_world_gone HelloWorldState.destructed = true
hello_world_gone _ = false

abbrev pub bumper_gone : BumperState → Bool
bumper_gone BumperState.destructed = true
bumper_gone _ = false

-- The globals before `main`, where no task exists.
abbrev pub no_tasks : {B : Type 0} → B → B → System B
no_tasks hello_base bumper_base = record {
  hello_world = HelloWorldState.destructed;
  hello_world_base = hello_base;
  hello_world_bumped = false;
  bumper = BumperState.destructed;
  bumper_base = bumper_base;
  bumper_bumped = false;
  number_of_tasks = 0;
  fault = false;
}

-- The constructors; `run` then enters the first state.
abbrev pub hello_world_new : {B : Type 0} → System B → System B
hello_world_new s = record s {
  hello_world = HelloWorldState.start;
  hello_world_bumped = false;
  number_of_tasks = s.number_of_tasks + 1;
}

abbrev pub bumper_new : {B : Type 0} → System B → System B
bumper_new s = record s {
  bumper = BumperState.set_bumped;
  bumper_bumped = false;
  number_of_tasks = s.number_of_tasks + 1;
}

-- The destructors.
abbrev pub hello_world_delete : {B : Type 0} → System B → System B
hello_world_delete s = record s {
  hello_world = HelloWorldState.destructed;
  number_of_tasks = s.number_of_tasks - 1;
}

abbrev pub bumper_delete : {B : Type 0} → System B → System B
bumper_delete s = record s {
  bumper = BumperState.destructed;
  number_of_tasks = s.number_of_tasks - 1;
}

-- `main` creates both tasks before it runs them.
abbrev pub start_of : {B : Type 0} → B → B → System B
start_of hello_base bumper_base = bumper_new (hello_world_new (no_tasks hello_base bumper_base))

module _ (T : StatefulTask) where
  open T use {Task, wait, signal, waiting}

  -- `HelloWorld::multiplex_impl`, from one access to the next.
  unfoldable pub hello_world_at : HelloWorldState → System Task → Option (System Task)
  hello_world_at HelloWorldState.start s =
      some (record s { hello_world = HelloWorldState.test_bumped })
  hello_world_at HelloWorldState.test_bumped s = some (record s {
    hello_world =
        if s.hello_world_bumped then HelloWorldState.set_bumped else HelloWorldState.call_wait;
  })
  hello_world_at HelloWorldState.call_wait s = some (record s {
    hello_world = HelloWorldState.test_bumped;
    hello_world_base = wait 1 s.hello_world_base;
  })
  hello_world_at HelloWorldState.set_bumped s = some (
      if bumper_gone s.bumper
      then record s { fault = true }
      else record s { hello_world = HelloWorldState.call_signal; bumper_bumped = true })
  hello_world_at HelloWorldState.call_signal s = some (
      if bumper_gone s.bumper then record s { fault = true } else record s {
        hello_world = HelloWorldState.finishing;
        bumper_base = (signal 1 s.bumper_base).1;
      })
  hello_world_at HelloWorldState.finishing s = some (hello_world_delete s)
  hello_world_at HelloWorldState.destructed s = none

  -- `Bumper::multiplex_impl`, from one access to the next.
  unfoldable pub bumper_at : BumperState → System Task → Option (System Task)
  bumper_at BumperState.set_bumped s = some (
      if hello_world_gone s.hello_world
      then record s { fault = true }
      else record s { bumper = BumperState.call_signal; hello_world_bumped = true })
  bumper_at BumperState.call_signal s = some (
      if hello_world_gone s.hello_world then record s { fault = true } else record s {
        bumper = BumperState.test_bumped;
        hello_world_base = (signal 1 s.hello_world_base).1;
      })
  bumper_at BumperState.test_bumped s = some (record s {
    bumper = if s.bumper_bumped then BumperState.finishing else BumperState.call_wait;
  })
  bumper_at BumperState.call_wait s =
      some (record s { bumper = BumperState.test_bumped; bumper_base = wait 1 s.bumper_base })
  bumper_at BumperState.finishing s = some (bumper_delete s)
  bumper_at BumperState.destructed s = none

  -- The pool runs a task that is not waiting.
  unfoldable pub hello_world_step : System Task → Option (System Task)
  unfolding hello_world_at
  hello_world_step s =
      if s.fault || waiting s.hello_world_base then none else hello_world_at s.hello_world s

  unfoldable pub bumper_step : System Task → Option (System Task)
  unfolding bumper_at
  bumper_step s = if s.fault || waiting s.bumper_base then none else bumper_at s.bumper s
