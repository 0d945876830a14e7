-- ===== src/WaitSignal/Passes.antt =====
-- Every test of src/wait_signal_test.cxx passes, on any base class that follows the diagram.
use ai_statefultask_testsuit.Base.{
  ℕ, zero, suc, ◌+◌, ◌-◌, ◌<◌, ◌≤◌, ◌≡◌, refl, ap, ◌∙◌, Bool, true, false, not, ◌&&◌, if◌then◌else◌,
  Option, none, some, List, [], ◌∷◌, length, arith, is_some, every, get_elem?-every,
  get_elem?-length, Option-cases, inl, inr,
}
use ai_statefultask_testsuit.WaitSignal.{
  StatefulTask, Statement, run, execute, ◌>>=◌, assert_idle_now, assert_running_now,
  assert_skip_wait_now, eqb,
}
use ai_statefultask_testsuit.WaitSignal.Diagram.{
  Mode, Modes, on_entry, is_idle, is_skip_wait, some_of, wait_modes, signal_modes, FollowsDiagram,
}
use ai_statefultask_testsuit.WaitSignal.Cases.{
  number_of_tests, cases, do_test, multiplex_impl, main_from, main,
}

-- A statement on the diagram itself; `none` where an assertion fails or the diagram says nothing.
abbrev keep : Bool → Modes → Option Modes
keep b m = if b then some m else none

execute_modes : Statement → Modes → Option Modes
execute_modes (Statement.wait mask) m = keep (not (some_of is_idle mask m)) (wait_modes mask m)
execute_modes (Statement.signal mask expected) m =
    keep (eqb (some_of is_idle mask m) expected) (signal_modes mask m)
execute_modes Statement.assert_idle m = keep (some_of is_idle 3 m) m
execute_modes Statement.assert_running m =
    keep (not (some_of is_idle 3 m) && some_of is_idle 3 (wait_modes 1 m)) (wait_modes 1 m)
execute_modes Statement.assert_skip_wait m =
    keep (not (some_of is_idle 3 m) && not (some_of is_idle 3 (wait_modes 1 m))) (wait_modes 1 m)

run_modes : List Statement → Modes → Option Modes
run_modes [] m = some m
run_modes (s ∷ ss) m = execute_modes s m >>= run_modes ss

keep-some : (b : Bool) (m : Modes) {m' : Modes} → keep b m ≡ some m' → (b ≡ true) × (m ≡ m')
keep-some true m e = (refl, cc)
keep-some false m e = cc

idle-one : (m : Modes) → some_of is_idle 3 m ≡ false → some_of is_idle 1 m ≡ false
idle-one m h = ground arith

abbrev succeeds : List Statement → Bool
succeeds c = is_some (run_modes c on_entry)

all_succeed : every succeeds cases ≡ true
unfolding run_modes execute_modes
all_succeed = refl

some_of_is_some {ℓ} : {A : Type ℓ} (o : Option A) → is_some o ≡ true → (a : A) × (o ≡ some a)
some_of_is_some none h = cc
some_of_is_some (some a) h = (a, refl)

abbrev pub is_running : Mode → Bool
is_running Mode.running = true
is_running _ = false

module _ (T : StatefulTask) (F : FollowsDiagram T) where
  open T use {Task}
  open F use {view, waiting_view, wait_view, signal_result, signal_view}

  -- The task does what the diagram does.
  abbrev Agrees : Option Task → Modes → Type 0
  Agrees r m = (t : Task) × (r ≡ some t) × (view t ≡ m)

  -- A wait for condition 1 behind `ASSERT(!waiting())`.
  quiet_wait :
      (t : Task) → some_of is_idle 3 (view t) ≡ false → view (T.wait 1 t) ≡ wait_modes 1 (view t)
  quiet_wait t h = wait_view 1 t (idle-one (view t) h)

  assert_wait :
      (t : Task) {m : Modes} (sleeps : Bool)
      → some_of is_idle 3 (view t) ≡ false
      → some_of is_idle 3 (wait_modes 1 (view t)) ≡ sleeps
      → wait_modes 1 (view t) ≡ m
      → (T.waiting t ≡ false) × (T.waiting (T.wait 1 t) ≡ sleeps) × (view (T.wait 1 t) ≡ m)
  assert_wait t sleeps calm then_sleeps e = (
    waiting_view t ∙ calm,
    waiting_view (T.wait 1 t) ∙ (ap (some_of is_idle 3) (quiet_wait t calm) ∙ then_sleeps),
    quiet_wait t calm ∙ e,
  )

  execute-Agrees :
      (s : Statement) (t : Task) {m : Modes}
      → execute_modes s (view t) ≡ some m
      → Agrees (execute T s t) m
  unfolding execute execute_modes
  execute-Agrees (Statement.wait mask) t e =
      let (calm, next) = keep-some _ _ e in
      (T.wait mask t, refl, wait_view mask t (ground arith) ∙ next)
  execute-Agrees (Statement.signal mask expected) t e =
      let (res, next) = keep-some _ _ e in
      ((T.signal mask t).1, rw (signal_result mask t, res) refl, signal_view mask t ∙ next)
  execute-Agrees Statement.assert_idle t e =
      let (sleeps, same) = keep-some _ _ e in (t, rw (waiting_view t, sleeps) refl, same)
  execute-Agrees Statement.assert_running t e =
      let (tests, next) = keep-some _ _ e in
      let facts = assert_wait t true (ground arith) (ground arith) next in
      (T.wait 1 t, rw (facts.0, facts.1) refl, facts.2)
  execute-Agrees Statement.assert_skip_wait t e =
      let (tests, next) = keep-some _ _ e in
      let facts = assert_wait t false (ground arith) (ground arith) next in
      (T.wait 1 t, rw (facts.0, facts.1) refl, facts.2)

  run-Agrees :
      (ss : List Statement) (t : Task) {m : Modes}
      → run_modes ss (view t) ≡ some m
      → Agrees (run T ss t) m
  unfolding run run_modes
  run-Agrees [] t e = (t, refl, ground arith)
  run-Agrees (s ∷ ss) t {m = last} e = elim (Option-cases (execute_modes s (view t))) [
    | inl failed ↦ absurd (ground arith)
    | inr (m, went) ↦
        let (t', went', agrees) = execute-Agrees s t went in
        let (t'', rest, result) = run-Agrees ss t' {m = last} (rw agrees (rw went at e)) in
        (t'', rw went' rest, result)
  ]

  -- On a base class that follows the diagram, each of the 66 tests passes on a task that enters
  -- it with both conditions RUNNING; any other number fails an assertion.
  pub do_test-passes :
      (test : ℕ) (t : Task)
      → view t ≡ on_entry
      → (test < number_of_tests → (t' : Task) × (do_test T test t ≡ some t'))
        × (number_of_tests ≤ test → do_test T test t ≡ none)
  unfolding do_test
  do_test-passes test t entry = (
    (λ lt.
        let (c, found, passed) = get_elem?-every succeeds cases test all_succeed lt in
        let (m, went) = some_of_is_some (run_modes c on_entry) passed in
        let (t', done, _) = run-Agrees c t {m = m} (rw entry went) in (t', rw found done)),
    (λ beyond. rw (get_elem?-length cases test beyond) refl),
  )

  multiplex_impl-eq-do_test :
      (test : ℕ) (t : Task)
      → view t ≡ on_entry
      → test < number_of_tests
      → multiplex_impl T (T.state_end + test) t ≡ do_test T test t
  unfolding multiplex_impl
  multiplex_impl-eq-do_test test t entry lt =
      let back : T.state_end + test - T.state_end ≡ test = omega arith in
      rw (back, waiting_view t, entry) (ground arith)

  main_from-length :
      (create : ℕ → Task)
      → ((test : ℕ) → view (create test) ≡ on_entry)
      → (left test : ℕ) → left + test ≡ number_of_tests
      → (ts : List Task) × (main_from T create left test ≡ some ts) × (length ts ≡ left)
  unfolding main_from
  main_from-length create fresh zero test h = ([], refl, refl)
  main_from-length create fresh (suc left) test h =
      let (t, done) = (do_test-passes test (create test) (fresh test)).0 (omega arith) in
      let (ts, rest, len) = main_from-length create fresh left (suc test) (omega arith) in
      (
        t ∷ ts,
        rw (multiplex_impl-eq-do_test test (create test) (fresh test) (omega arith), done, rest)
            refl,
        ap suc len,
      )

  -- So `main` runs all its tests without a failed assertion, if each new task has both conditions
  -- RUNNING.
  pub main-passes :
      (create : ℕ → Task)
      → ((test : ℕ) → view (create test) ≡ on_entry)
      → (ts : List Task) × (main T create ≡ some ts) × (length ts ≡ number_of_tests)
  unfolding main
  main-passes create fresh = main_from-length create fresh number_of_tests 0 refl

  -- While condition 2 is not IDLE, `assert_IDLE`, `assert_RUNNING` and `assert_SKIP_WAIT` pass
  -- exactly if condition 1 is IDLE, RUNNING or SKIP_WAIT: each state passes one of them.
  assertions-tell-mode :
      (t : Task)
      → is_idle (view t).two ≡ false
      → (is_some (assert_idle_now T t) ≡ is_idle (view t).one)
        × (is_some (assert_running_now T t) ≡ is_running (view t).one)
        × (is_some (assert_skip_wait_now T t) ≡ is_skip_wait (view t).one)
  unfolding assert_idle_now assert_running_now assert_skip_wait_now
  assertions-tell-mode t two = (
    ground (arith, waiting_view t),
    ground (arith, waiting_view t, waiting_view (T.wait 1 t), quiet_wait t),
    ground (arith, waiting_view t, waiting_view (T.wait 1 t), quiet_wait t),
  )
