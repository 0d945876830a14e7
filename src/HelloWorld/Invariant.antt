-- ===== src/HelloWorld/Invariant.antt =====
-- What holds of the two tasks of src/helloworld.cxx, over the diagram, as long as none is used
-- behind its destructor.
use ai_statefultask_testsuit.Base.{
  ℕ, ◌+◌, ◌≡◌, refl, ◌⊎◌, inl, inr, Bool, true, false, ◌||◌, if◌then◌else◌, Option, none, some,
  arith, Bool-cases,
}
use ai_statefultask_testsuit.WaitSignal.Diagram.{
  Mode, Modes, on_entry, is_idle, is_skip_wait, some_of, diagram_task,
}
use ai_statefultask_testsuit.HelloWorld.{
  HelloWorldState, BumperState, System, hello_world_gone, bumper_gone, start_of, hello_world_at,
  bumper_at, hello_world_step, bumper_step,
}

-- `Bumper` has set the flag of the other task; it has sent the signal; it has found its own flag.
abbrev pub bumper_set : BumperState → Bool
bumper_set BumperState.set_bumped = false
bumper_set _ = true

abbrev pub bumper_signalled : BumperState → Bool
bumper_signalled BumperState.set_bumped = false
bumper_signalled BumperState.call_signal = false
bumper_signalled _ = true

abbrev pub bumper_found : BumperState → Bool
bumper_found BumperState.finishing = true
bumper_found BumperState.destructed = true
bumper_found _ = false

abbrev pub hello_world_set : HelloWorldState → Bool
hello_world_set HelloWorldState.call_signal = true
hello_world_set HelloWorldState.finishing = true
hello_world_set HelloWorldState.destructed = true
hello_world_set _ = false

abbrev pub hello_world_signalled : HelloWorldState → Bool
hello_world_signalled HelloWorldState.finishing = true
hello_world_signalled HelloWorldState.destructed = true
hello_world_signalled _ = false

abbrev pub hello_world_found : HelloWorldState → Bool
hello_world_found HelloWorldState.set_bumped = true
hello_world_found HelloWorldState.call_signal = true
hello_world_found HelloWorldState.finishing = true
hello_world_found HelloWorldState.destructed = true
hello_world_found _ = false

abbrev pub hello_world_waits : HelloWorldState → Bool
hello_world_waits HelloWorldState.call_wait = true
hello_world_waits _ = false

abbrev pub bumper_waits : BumperState → Bool
bumper_waits BumperState.call_wait = true
bumper_waits _ = false

abbrev pub hello_world_tests : HelloWorldState → Bool
hello_world_tests HelloWorldState.test_bumped = true
hello_world_tests _ = false

abbrev pub bumper_tests : BumperState → Bool
bumper_tests BumperState.test_bumped = true
bumper_tests _ = false

-- A task whose signal was sent is not idle, and falls through a `wait(1)` that it is about to call;
-- before, no signal is pending. It is idle only between a `wait(1)` and its next test.
abbrev pub Wakes : (signalled waits tests : Bool) → Mode → Type 0
Wakes signalled waits tests m =
    (signalled ≡ true → is_idle m ≡ false)
    × (signalled ≡ true → waits ≡ true → is_skip_wait m ≡ true)
    × (signalled ≡ false → is_skip_wait m ≡ false)
    × (is_idle m ≡ true → tests ≡ true)

abbrev pub count : Bool → ℕ
count gone = if gone then 0 else 1

pub record IsSound (s : System Modes) : Type 0 where
  pub no_fault : s.fault ≡ false
  pub hello_world_two : s.hello_world_base.two ≡ Mode.running
  pub bumper_two : s.bumper_base.two ≡ Mode.running
  pub hello_world_flag : s.hello_world_bumped ≡ bumper_set s.bumper
  pub bumper_flag : s.bumper_bumped ≡ hello_world_set s.hello_world
  pub hello_world_bump : hello_world_found s.hello_world ≡ true → s.hello_world_bumped ≡ true
  pub bumper_bump : bumper_found s.bumper ≡ true → s.bumper_bumped ≡ true
  pub hello_world_wakes :
      Wakes
        (bumper_signalled s.bumper)
        (hello_world_waits s.hello_world)
        (hello_world_tests s.hello_world)
        s.hello_world_base.one
  pub bumper_wakes :
      Wakes
        (hello_world_signalled s.hello_world)
        (bumper_waits s.bumper)
        (bumper_tests s.bumper)
        s.bumper_base.one
  pub counted :
      s.number_of_tasks ≡ count (hello_world_gone s.hello_world) + count (bumper_gone s.bumper)

-- A step leaves the state sound, or it is a fault.
abbrev pub Keeps : Option (System Modes) → Type 0
Keeps none = Unit {0}
Keeps (some t) = (t.fault ≡ true) ⊎ IsSound t

pub start-IsSound : IsSound (start_of on_entry on_entry)
start-IsSound = ground arith

hello_world_at-Keeps :
    (pc : HelloWorldState) (s : System Modes)
    → s.hello_world ≡ pc
    → some_of is_idle 3 s.hello_world_base ≡ false
    → IsSound s
    → Keeps (hello_world_at diagram_task pc s)
unfolding hello_world_at
hello_world_at-Keeps HelloWorldState.start s e runs h = inr (ground arith)
hello_world_at-Keeps HelloWorldState.test_bumped s e runs h = inr (ground arith)
hello_world_at-Keeps HelloWorldState.call_wait s e runs h = inr (ground arith)
hello_world_at-Keeps HelloWorldState.set_bumped s e runs h =
    elim (Bool-cases (bumper_gone s.bumper)) [
      | inl gone ↦ absurd (ground arith)
      | inr here ↦ inr (rw here (ground arith))
    ]
hello_world_at-Keeps HelloWorldState.call_signal s e runs h =
    elim (Bool-cases (bumper_gone s.bumper)) [
      | inl gone ↦ inl (rw gone refl)
      | inr here ↦ inr (rw here (ground arith))
    ]
hello_world_at-Keeps HelloWorldState.finishing s e runs h = inr (ground arith)
hello_world_at-Keeps HelloWorldState.destructed s e runs h = tt

bumper_at-Keeps :
    (pc : BumperState) (s : System Modes)
    → s.bumper ≡ pc
    → some_of is_idle 3 s.bumper_base ≡ false
    → IsSound s
    → Keeps (bumper_at diagram_task pc s)
unfolding bumper_at
bumper_at-Keeps BumperState.set_bumped s e runs h =
    elim (Bool-cases (hello_world_gone s.hello_world)) [
      | inl gone ↦ absurd (ground arith)
      | inr here ↦ inr (rw here (ground arith))
    ]
bumper_at-Keeps BumperState.call_signal s e runs h =
    elim (Bool-cases (hello_world_gone s.hello_world)) [
      | inl gone ↦ inl (rw gone refl)
      | inr here ↦ inr (rw here (ground arith))
    ]
bumper_at-Keeps BumperState.test_bumped s e runs h = inr (ground arith)
bumper_at-Keeps BumperState.call_wait s e runs h = inr (ground arith)
bumper_at-Keeps BumperState.finishing s e runs h = inr (ground arith)
bumper_at-Keeps BumperState.destructed s e runs h = tt

pub hello_world_step-Keeps :
    (s : System Modes) → IsSound s → Keeps (hello_world_step diagram_task s)
unfolding hello_world_step
hello_world_step-Keeps s h = elim (Bool-cases (s.fault || some_of is_idle 3 s.hello_world_base)) [
  | inl stopped ↦ rw stopped tt
  | inr runs ↦ rw runs (hello_world_at-Keeps s.hello_world s refl (ground arith) h)
]

pub bumper_step-Keeps : (s : System Modes) → IsSound s → Keeps (bumper_step diagram_task s)
unfolding bumper_step
bumper_step-Keeps s h = elim (Bool-cases (s.fault || some_of is_idle 3 s.bumper_base)) [
  | inl stopped ↦ rw stopped tt
  | inr runs ↦ rw runs (bumper_at-Keeps s.bumper s refl (ground arith) h)
]
