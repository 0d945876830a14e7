-- ===== src/WaitSignal.antt =====
-- src/wait_signal_test.cxx: the class `Test`, which drives the `wait` and `signal` of its base
-- class `AIStatefulTask`. The base class belongs to the submodule `statefultask`: it is a
-- parameter. `none` is a failed `ASSERT`.
pub mod Diagram
pub mod Cases
pub mod Passes
use ai_statefultask_testsuit.Base.{
  ℕ, ◌+◌, ◌-◌, Bool, true, false, not, ◌&&◌, leb, ltb, if◌then◌else◌, Option, none, some, List, [],
  ◌∷◌, get_elem?,
}

-- What `Test` uses of its base class, on the state of a task.
pub record StatefulTask : Type 1 where
  pub Task : Type 0
  pub wait : ℕ → Task → Task
  pub signal : ℕ → Task → Bool × Task
  pub waiting : Task → Bool
  -- `direct_base_type::state_end`
  pub state_end : ℕ

infixl 5 ◌>>=◌
abbrev pub ◌>>=◌ : {A B : Type 0} → Option A → (A → Option B) → Option B
none >>= f = none
some a >>= f = f a

abbrev assert {ℓ} : {A : Type ℓ} → Bool → A → Option A
assert b a = if b then some a else none

-- A statement of `do_test`.
pub data Statement : Type 0 where
  wait : ℕ → Statement
  signal : ℕ → Bool → Statement
  assert_idle assert_running assert_skip_wait : Statement

abbrev pub eqb : Bool → Bool → Bool
eqb true b = b
eqb false b = not b

module _ (T : StatefulTask) where
  open T use {Task, waiting, state_end}

  -- `Test::signal`, with the result that is expected of `AIStatefulTask::signal`.
  unfoldable pub signal_expecting : ℕ → Bool → Task → Option Task
  signal_expecting condition expected t =
      let (res, t') = T.signal condition t in assert (eqb res expected) t'

  unfoldable pub assert_idle_now : Task → Option Task
  assert_idle_now t = assert (waiting t) t

  unfoldable pub assert_running_now : Task → Option Task
  assert_running_now t = do
    t' ← assert (not (waiting t)) t
    let t'' = T.wait 1 t'
    assert (waiting t'') t''

  unfoldable pub assert_skip_wait_now : Task → Option Task
  assert_skip_wait_now t = do
    t' ← assert (not (waiting t)) t
    let t'' = T.wait 1 t'
    assert (not (waiting t'')) t''

  unfoldable pub execute : Statement → Task → Option Task
  unfolding signal_expecting assert_idle_now assert_running_now assert_skip_wait_now
  execute (Statement.wait conditions) t = some (T.wait conditions t)
  execute (Statement.signal condition expected) t = signal_expecting condition expected t
  execute Statement.assert_idle t = assert_idle_now t
  execute Statement.assert_running t = assert_running_now t
  execute Statement.assert_skip_wait t = assert_skip_wait_now t

  unfoldable pub run : List Statement → Task → Option Task
  run [] t = some t
  run (s ∷ ss) t = execute s t >>= run ss
