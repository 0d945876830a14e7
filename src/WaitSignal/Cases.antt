-- ===== src/WaitSignal/Cases.antt =====
-- `Test::do_test` of src/wait_signal_test.cxx: the statements of each case, in the order of the
-- case numbers. A label such as `3+9+32` is one number.
use ai_statefultask_testsuit.Base.{
  ℕ, zero, suc, ◌+◌, ◌-◌, true, false, not, ◌&&◌, leb, ltb, if◌then◌else◌, Option, none, some, List,
  [], ◌∷◌, ◌++◌, get_elem?,
}
use ai_statefultask_testsuit.WaitSignal.{
  StatefulTask, Statement, wait, signal, assert_idle, assert_running, assert_skip_wait, run, ◌>>=◌,
}

abbrev pub Test : Type 0
Test = List Statement

-- No signal(2).
abbrev pub no_signal_2 : List Test
no_signal_2 =
    (wait 1 ∷ assert_idle ∷ [])
    ∷ (signal 1 false ∷ assert_skip_wait ∷ [])
    ∷ (signal 1 false ∷ signal 1 false ∷ assert_skip_wait ∷ [])
    ∷ (signal 1 false ∷ wait 1 ∷ assert_running ∷ [])
    ∷ (wait 1 ∷ signal 1 true ∷ assert_running ∷ [])
    ∷ []

-- Just signal(2).
abbrev pub just_signal_2 : List Test
just_signal_2 =
    (signal 2 false ∷ wait 1 ∷ assert_idle ∷ [])
    ∷ (wait 1 ∷ signal 2 false ∷ assert_idle ∷ [])
    ∷ (signal 2 false ∷ signal 1 false ∷ assert_skip_wait ∷ [])
    ∷ (signal 1 false ∷ signal 2 false ∷ assert_skip_wait ∷ [])
    ∷ (signal 2 false ∷ signal 1 false ∷ signal 1 false ∷ assert_skip_wait ∷ [])
    ∷ (signal 1 false ∷ signal 2 false ∷ signal 1 false ∷ assert_skip_wait ∷ [])
    ∷ (signal 1 false ∷ signal 1 false ∷ signal 2 false ∷ assert_skip_wait ∷ [])
    ∷ (signal 2 false ∷ signal 1 false ∷ wait 1 ∷ assert_running ∷ [])
    ∷ (signal 1 false ∷ signal 2 false ∷ wait 1 ∷ assert_running ∷ [])
    ∷ (signal 1 false ∷ wait 1 ∷ signal 2 false ∷ assert_running ∷ [])
    ∷ (signal 2 false ∷ wait 1 ∷ signal 1 true ∷ assert_running ∷ [])
    ∷ (wait 1 ∷ signal 2 false ∷ signal 1 true ∷ assert_running ∷ [])
    ∷ (wait 1 ∷ signal 1 true ∷ signal 2 false ∷ assert_running ∷ [])
    ∷ []

-- signal(2) and wait(2): `case 0+5+13` to `case 1+7+21`.
abbrev pub signal_wait_2_idle : List Test
signal_wait_2_idle =
    (wait 2 ∷ signal 2 true ∷ wait 1 ∷ assert_idle ∷ [])
    ∷ (signal 2 false ∷ wait 2 ∷ wait 1 ∷ assert_idle ∷ [])
    ∷ (signal 2 false ∷ wait 3 ∷ assert_running ∷ [])
    ∷ (wait 3 ∷ signal 2 true ∷ assert_running ∷ [])
    ∷ ([])
    ∷ ([])
    ∷ (wait 2 ∷ signal 2 true ∷ signal 1 false ∷ assert_skip_wait ∷ [])
    ∷ (signal 2 false ∷ wait 2 ∷ signal 1 false ∷ assert_skip_wait ∷ [])
    ∷ (signal 2 false ∷ signal 1 false ∷ wait 2 ∷ assert_skip_wait ∷ [])
    ∷ (wait 2 ∷ signal 1 false ∷ signal 2 true ∷ assert_skip_wait ∷ [])
    ∷ (signal 1 false ∷ wait 2 ∷ signal 2 true ∷ assert_skip_wait ∷ [])
    ∷ (signal 1 false ∷ signal 2 false ∷ wait 2 ∷ assert_skip_wait ∷ [])
    ∷ []

-- `case 2+7+21` to `case 2+9+30`.
abbrev pub signal_wait_2_skip : List Test
signal_wait_2_skip =
    (wait 2 ∷ signal 2 true ∷ signal 1 false ∷ signal 1 false ∷ assert_skip_wait ∷ [])
    ∷ (signal 2 false ∷ wait 2 ∷ signal 1 false ∷ signal 1 false ∷ assert_skip_wait ∷ [])
    ∷ (signal 2 false ∷ signal 1 false ∷ wait 2 ∷ signal 1 false ∷ assert_skip_wait ∷ [])
    ∷ (signal 2 false ∷ signal 1 false ∷ signal 1 false ∷ wait 2 ∷ assert_skip_wait ∷ [])
    ∷ (wait 2 ∷ signal 1 false ∷ signal 2 true ∷ signal 1 false ∷ assert_skip_wait ∷ [])
    ∷ (signal 1 false ∷ wait 2 ∷ signal 2 true ∷ signal 1 false ∷ assert_skip_wait ∷ [])
    ∷ (signal 1 false ∷ signal 2 false ∷ wait 2 ∷ signal 1 false ∷ assert_skip_wait ∷ [])
    ∷ (signal 1 false ∷ signal 2 false ∷ signal 1 false ∷ wait 2 ∷ assert_skip_wait ∷ [])
    ∷ (wait 2 ∷ signal 1 false ∷ signal 1 false ∷ signal 2 true ∷ assert_skip_wait ∷ [])
    ∷ (signal 1 false ∷ wait 2 ∷ signal 1 false ∷ signal 2 true ∷ assert_skip_wait ∷ [])
    ∷ (signal 1 false ∷ signal 1 false ∷ wait 2 ∷ signal 2 true ∷ assert_skip_wait ∷ [])
    ∷ (signal 1 false ∷ signal 1 false ∷ signal 2 false ∷ wait 2 ∷ assert_skip_wait ∷ [])
    ∷ []

-- `case 3+9+30` to `case 3+11+39`.
abbrev pub signal_wait_2_run : List Test
signal_wait_2_run =
    (wait 2 ∷ signal 2 true ∷ signal 1 false ∷ wait 1 ∷ assert_running ∷ [])
    ∷ (signal 2 false ∷ wait 2 ∷ signal 1 false ∷ wait 1 ∷ assert_running ∷ [])
    ∷ (signal 2 false ∷ signal 1 false ∷ wait 3 ∷ assert_running ∷ [])
    ∷ ([])
    ∷ (wait 2 ∷ signal 1 false ∷ signal 2 true ∷ wait 1 ∷ assert_running ∷ [])
    ∷ (signal 1 false ∷ wait 2 ∷ signal 2 true ∷ wait 1 ∷ assert_running ∷ [])
    ∷ (signal 1 false ∷ signal 2 false ∷ wait 3 ∷ assert_running ∷ [])
    ∷ ([])
    ∷ ([])
    ∷ (signal 1 false ∷ wait 3 ∷ signal 2 false ∷ assert_running ∷ [])
    ∷ (signal 1 false ∷ wait 1 ∷ signal 2 false ∷ wait 2 ∷ assert_running ∷ [])
    ∷ ([])
    ∷ []

-- `case 4+11+39` to `case 4+13+48`.
abbrev pub signal_wait_2_wake : List Test
signal_wait_2_wake =
    (wait 2 ∷ signal 2 true ∷ wait 1 ∷ signal 1 true ∷ assert_running ∷ [])
    ∷ (signal 2 false ∷ wait 3 ∷ signal 1 false ∷ assert_skip_wait ∷ [])
    ∷ (signal 2 false ∷ wait 1 ∷ signal 1 true ∷ wait 2 ∷ assert_running ∷ [])
    ∷ ([])
    ∷ (wait 3 ∷ signal 2 true ∷ signal 1 false ∷ assert_skip_wait ∷ [])
    ∷ ([])
    ∷ (wait 1 ∷ signal 2 false ∷ signal 1 true ∷ wait 2 ∷ assert_running ∷ [])
    ∷ ([])
    ∷ (wait 3 ∷ signal 1 true ∷ signal 2 false ∷ assert_running ∷ [])
    ∷ (wait 1 ∷ signal 1 true ∷ wait 2 ∷ signal 2 true ∷ assert_running ∷ [])
    ∷ (wait 1 ∷ signal 1 true ∷ signal 2 false ∷ wait 2 ∷ assert_running ∷ [])
    ∷ ([])
    ∷ []

abbrev pub number_of_tests : ℕ
number_of_tests = 66

abbrev pub cases : List Test
cases =
    no_signal_2
    ++ (just_signal_2
        ++ (signal_wait_2_idle
            ++ (signal_wait_2_skip ++ (signal_wait_2_run ++ signal_wait_2_wake))))

module _ (T : StatefulTask) where
  open T use {Task, waiting, state_end}

  -- The switch of `do_test`; `default` is `ASSERT(false)`.
  unfoldable pub do_test : ℕ → Task → Option Task
  do_test test t = elim (get_elem? cases test) [ none ↦ none | some c ↦ run T c t ]

  -- `initialize_impl` sets the run state to `Test_start + m_test`, and `multiplex_impl` is called
  -- with it. Debug output and the `abort` behind the test are left out.
  unfoldable pub multiplex_impl : ℕ → Task → Option Task
  multiplex_impl run_state t =
      if (leb state_end run_state && ltb run_state (state_end + number_of_tests)) && not (waiting t)
      then do_test (run_state - state_end) t
      else none

  -- The loop of `main`, on the tasks that `create` gives.
  unfoldable pub main_from : (ℕ → Task) → ℕ → ℕ → Option (List Task)
  main_from create zero test = some []
  main_from create (suc left) test = do
    t ← multiplex_impl (state_end + test) (create test)
    ts ← main_from create left (suc test)
    some (t ∷ ts)

  unfoldable pub main : (ℕ → Task) → Option (List Task)
  main create = main_from create number_of_tests 0
