-- ===== src/HelloWorld/Ends.antt =====
-- Why the two tasks of src/helloworld.cxx come to an end, over the diagram.
use ai_statefultask_testsuit.Base.{
  ℕ, ◌+◌, ◌<◌, ◌≡◌, refl, inl, inr, false, ◌||◌, if◌then◌else◌, Option, none, some, arith,
  Bool-cases,
}
use ai_statefultask_testsuit.WaitSignal.Diagram.{Mode, Modes, is_idle, some_of, diagram_task}
use ai_statefultask_testsuit.HelloWorld.{
  HelloWorldState, BumperState, System, hello_world_at, bumper_at, hello_world_step, bumper_step,
}
use ai_statefultask_testsuit.HelloWorld.Invariant.{IsSound}

-- A signal adds at most 3; the call of `wait` that it was for takes 3 off again.
abbrev weight : Mode → ℕ
weight Mode.idle = 0
weight Mode.running = 3
weight Mode.skip_wait = 6

abbrev hello_world_left : HelloWorldState → ℕ
hello_world_left HelloWorldState.start = 9
hello_world_left HelloWorldState.test_bumped = 8
hello_world_left HelloWorldState.call_wait = 7
hello_world_left HelloWorldState.set_bumped = 6
hello_world_left HelloWorldState.call_signal = 5
hello_world_left HelloWorldState.finishing = 1
hello_world_left HelloWorldState.destructed = 0

abbrev bumper_left : BumperState → ℕ
bumper_left BumperState.set_bumped = 8
bumper_left BumperState.call_signal = 7
bumper_left BumperState.test_bumped = 3
bumper_left BumperState.call_wait = 2
bumper_left BumperState.finishing = 1
bumper_left BumperState.destructed = 0

abbrev pub left : System Modes → ℕ
left s =
    hello_world_left s.hello_world
    + bumper_left s.bumper
    + weight s.hello_world_base.one
    + weight s.bumper_base.one
    + (if s.fault then 0 else 1)

abbrev pub Falls : System Modes → Option (System Modes) → Type 0
Falls s none = Unit {0}
Falls s (some t) = left t < left s

hello_world_at-Falls :
    (pc : HelloWorldState) (s : System Modes)
    → s.hello_world ≡ pc
    → some_of is_idle 3 s.hello_world_base ≡ false
    → IsSound s
    → Falls s (hello_world_at diagram_task pc s)
unfolding hello_world_at
hello_world_at-Falls HelloWorldState.start s e runs h = ground arith
hello_world_at-Falls HelloWorldState.test_bumped s e runs h = ground arith
hello_world_at-Falls HelloWorldState.call_wait s e runs h = ground arith
hello_world_at-Falls HelloWorldState.set_bumped s e runs h = ground arith
hello_world_at-Falls HelloWorldState.call_signal s e runs h = ground arith
hello_world_at-Falls HelloWorldState.finishing s e runs h = ground arith
hello_world_at-Falls HelloWorldState.destructed s e runs h = tt

bumper_at-Falls :
    (pc : BumperState) (s : System Modes)
    → s.bumper ≡ pc
    → some_of is_idle 3 s.bumper_base ≡ false
    → IsSound s
    → Falls s (bumper_at diagram_task pc s)
unfolding bumper_at
bumper_at-Falls BumperState.set_bumped s e runs h = ground arith
bumper_at-Falls BumperState.call_signal s e runs h = ground arith
bumper_at-Falls BumperState.test_bumped s e runs h = ground arith
bumper_at-Falls BumperState.call_wait s e runs h = ground arith
bumper_at-Falls BumperState.finishing s e runs h = ground arith
bumper_at-Falls BumperState.destructed s e runs h = tt

pub hello_world_step-Falls :
    (s : System Modes) → IsSound s → Falls s (hello_world_step diagram_task s)
unfolding hello_world_step
hello_world_step-Falls s h = elim (Bool-cases (s.fault || some_of is_idle 3 s.hello_world_base)) [
  | inl stopped ↦ rw stopped tt
  | inr runs ↦ rw runs (hello_world_at-Falls s.hello_world s refl (ground arith) h)
]

pub bumper_step-Falls : (s : System Modes) → IsSound s → Falls s (bumper_step diagram_task s)
unfolding bumper_step
bumper_step-Falls s h = elim (Bool-cases (s.fault || some_of is_idle 3 s.bumper_base)) [
  | inl stopped ↦ rw stopped tt
  | inr runs ↦ rw runs (bumper_at-Falls s.bumper s refl (ground arith) h)
]

hello_world_at-none :
    (pc : HelloWorldState) (s : System Modes)
    → hello_world_at diagram_task pc s ≡ none
    → pc ≡ HelloWorldState.destructed
unfolding hello_world_at
hello_world_at-none HelloWorldState.destructed s e = refl
hello_world_at-none pc s e = cc

bumper_at-none :
    (pc : BumperState) (s : System Modes)
    → bumper_at diagram_task pc s ≡ none
    → pc ≡ BumperState.destructed
unfolding bumper_at
bumper_at-none BumperState.destructed s e = refl
bumper_at-none pc s e = cc

-- Where neither task can go on, both are destructed.
pub stuck-destructed :
    (s : System Modes)
    → IsSound s
    → hello_world_step diagram_task s ≡ none
    → bumper_step diagram_task s ≡ none
    → (s.hello_world ≡ HelloWorldState.destructed)
      × (s.bumper ≡ BumperState.destructed)
      × (s.number_of_tasks ≡ 0)
unfolding hello_world_step bumper_step
stuck-destructed s h e f =
    ground (arith, hello_world_at-none s.hello_world s, bumper_at-none s.bumper s)
