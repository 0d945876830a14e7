-- ===== src/Fibonacci/Modes.antt =====
-- What the tasks of src/fibonacci.cxx rely on of their base class: the diagram of WaitSignal for
-- condition 1, while condition 2 is not used.
use ai_statefultask_testsuit.Base.{◌≡◌, true, false, arith}
use ai_statefultask_testsuit.WaitSignal.{StatefulTask}
use ai_statefultask_testsuit.WaitSignal.Diagram.{Mode, is_idle, FollowsDiagram}
use ai_statefultask_testsuit.Fibonacci.{Fibonacci, hear}

-- The modes behind a wait and behind a signal.
abbrev pub waited : Mode → Mode
waited Mode.skip_wait = Mode.running
waited _ = Mode.idle

abbrev pub signalled : Mode → Mode
signalled Mode.idle = Mode.running
signalled _ = Mode.skip_wait

module _ (T : StatefulTask) (F : FollowsDiagram T) where
  abbrev pub mode : Fibonacci T.Task → Mode
  mode s = (F.view s.base).one

  abbrev pub IsPlain : Fibonacci T.Task → Type 0
  IsPlain s = (F.view s.base).two ≡ Mode.running

  pub waiting-mode : (s : Fibonacci T.Task) → IsPlain s → T.waiting s.base ≡ is_idle (mode s)
  waiting-mode s plain = let w = F.waiting_view s.base in ground arith

  pub wait-modes :
      (s : Fibonacci T.Task)
      → IsPlain s
      → is_idle (mode s) ≡ false
      → ((F.view (T.wait 1 s.base)).one ≡ waited (mode s))
        × ((F.view (T.wait 1 s.base)).two ≡ Mode.running)
  wait-modes s plain calm =
      let w = F.wait_view 1 s.base (ground arith) in rw w (ground arith, ground arith)

  pub hear-modes :
      (s : Fibonacci T.Task)
      → IsPlain s
      → (mode (hear T true s) ≡ signalled (mode s)) × IsPlain (hear T true s)
  hear-modes s plain = let w = F.signal_view 1 s.base in rw w (ground arith, ground arith)
