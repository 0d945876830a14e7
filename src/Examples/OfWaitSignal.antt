-- ===== src/Examples/OfWaitSignal.antt =====
-- src/wait_signal_test.cxx with the diagram itself for the base class.
use ai_statefultask_testsuit.Base.{◌<◌, ◌≤◌, ◌≡◌, refl, none, some, List, length}
use ai_statefultask_testsuit.WaitSignal.Diagram.{
  Mode, Modes, on_entry, FollowsDiagram, diagram_task,
}
use ai_statefultask_testsuit.WaitSignal.Cases.{number_of_tests, do_test, main}
use ai_statefultask_testsuit.WaitSignal.Passes.{do_test-passes, main-passes}

abbrev pub diagram_follows : FollowsDiagram diagram_task
diagram_follows = record {
  view = λ m. m;
  waiting_view = λ m. refl;
  wait_view = λ mask m calm. refl;
  signal_result = λ mask m. refl;
  signal_view = λ mask m. refl;
}

do_test-passes_example :
    (27 < number_of_tests → (m : Modes) × (do_test diagram_task 27 on_entry ≡ some m))
    × (number_of_tests ≤ 27 → do_test diagram_task 27 on_entry ≡ none)
do_test-passes_example = do_test-passes diagram_task diagram_follows 27 on_entry refl

main-passes_example :
    (ms : List Modes) × (main diagram_task (λ test. on_entry) ≡ some ms)
    × (length ms ≡ number_of_tests)
main-passes_example = main-passes diagram_task diagram_follows (λ test. on_entry) (λ test. refl)

abbrev signalled : Modes
signalled = record { one = Mode.skip_wait; two = Mode.running }
