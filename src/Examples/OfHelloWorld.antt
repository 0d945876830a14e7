-- ===== src/Examples/OfHelloWorld.antt =====
-- src/helloworld.cxx with the diagram itself for the base class.
use ai_statefultask_testsuit.Base.{◌+◌, ◌≤◌, ◌≡◌, ◌⊎◌, refl, not, ◌||◌, true}
use ai_statefultask_testsuit.WaitSignal.Diagram.{Modes, on_entry, diagram_task}
use ai_statefultask_testsuit.HelloWorld.{
  HelloWorldState, BumperState, System, hello_world_gone, bumper_gone, start_of, hello_world_step,
  bumper_step, hello_world_at, bumper_at,
}
use ai_statefultask_testsuit.HelloWorld.Invariant.{
  count, hello_world_set, bumper_set, hello_world_found, bumper_found,
}
use ai_statefultask_testsuit.HelloWorld.Refines.{
  Runs, CanStep, here, hello_world_next, bumper_next, tasks-end, reached-ordered,
}
use ai_statefultask_testsuit.Examples.OfWaitSignal.{diagram_follows}

abbrev both : System Modes
both = start_of on_entry on_entry

-- `Bumper` has set the flag, and `HelloWorld` has found it, before the signal.
abbrev overtaken : System Modes
overtaken = record both {
  hello_world = HelloWorldState.set_bumped;
  hello_world_bumped = true;
  bumper = BumperState.call_signal;
}

overtaken_run : Runs diagram_task both 3 overtaken
unfolding hello_world_step bumper_step hello_world_at bumper_at
overtaken_run = hello_world_next (hello_world_next (bumper_next here refl) refl) refl

tasks-end_example :
    (3 ≤ 24)
    × (CanStep diagram_task overtaken
        ⊎ ((overtaken.fault ≡ true)
            ⊎ ((overtaken.hello_world ≡ HelloWorldState.destructed)
                × (overtaken.bumper ≡ BumperState.destructed)
                × (overtaken.number_of_tasks ≡ 0))))
tasks-end_example = tasks-end diagram_task diagram_follows on_entry on_entry refl refl overtaken_run

reached-ordered_example :
    (overtaken.number_of_tasks
      ≡ count (hello_world_gone overtaken.hello_world) + count (bumper_gone overtaken.bumper))
    × ((not (hello_world_found overtaken.hello_world) || bumper_set overtaken.bumper) ≡ true)
    × ((not (bumper_found overtaken.bumper) || hello_world_set overtaken.hello_world) ≡ true)
reached-ordered_example =
    reached-ordered diagram_task diagram_follows on_entry on_entry refl refl overtaken_run refl

-- From there `HelloWorld` finishes, and `Bumper` sends its signal to a destructed task.
signal_to_destructed : (s : System Modes) × Runs diagram_task both 7 s × (s.fault ≡ true)
unfolding hello_world_step bumper_step hello_world_at bumper_at
signal_to_destructed = (
  _,
  bumper_next (hello_world_next (hello_world_next (hello_world_next overtaken_run refl) refl) refl)
      refl,
  refl,
)
