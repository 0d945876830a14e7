-- ===== src/Counters/Operations.antt =====
-- src/wait_signal_test2.cxx: the end of `main`, which carries out sequences of operations by the
-- table; `MultiLoop`, which makes up the sequences, belongs to the submodule `utils`. The text
-- that describes a sequence is left out.
use ai_statefultask_testsuit.Base.{
  ℕ, ◌/◌, ◌%◌, ◌<◌, ◌≡◌, ◌≢◌, refl, sym, inl, inr, Bool, true, false, not, ◌&&◌, ◌||◌, ◌==◌,
  if◌then◌else◌, Option, none, some, List, [], ◌∷◌, All, arith, Bool-cases,
}
use ai_statefultask_testsuit.Counters.{◌>>=◌, Task, has_idle_counter, state, set_state}
use ai_statefultask_testsuit.Counters.Encoding.{state-set_state}
use ai_statefultask_testsuit.Counters.Graph.{not_allowed_magic, try_operation, graph}
use ai_statefultask_testsuit.Counters.Allowed.{graph-try_operation}

-- All counters at 1.
abbrev pub running_state : ℕ
running_state = 40

-- `(operation & 16) == 0`
abbrev pub is_wait : ℕ → Bool
is_wait operation = operation / 16 % 2 == 0

-- A task that goes on running behind a wait starts anew.
abbrev pub resume : ℕ → Task → Task
resume operation task =
    if is_wait operation && not (has_idle_counter task) then set_state running_state else task

-- The loop over `op`: the task and `running` behind it, or `none` if `not_allowed`.
unfoldable pub run_operations : List ℕ → Task → Bool → Option (Task × Bool)
run_operations [] task running = some (task, running)
run_operations (operation ∷ ops) task running =
    let next_state = graph (state task) operation in
    let next = set_state next_state in
    let rest = run_operations ops (resume operation next) (not (has_idle_counter next)) in
    if next_state == not_allowed_magic || (is_wait operation && not running) then none else rest

-- The same sequence by the operations themselves.
unfoldable pub try_operations : List ℕ → Task → Bool → Option (Task × Bool)
try_operations [] task running = some (task, running)
try_operations (operation ∷ ops) task running =
    if is_wait operation && not running then none else (do
      (next, woken_up) ← try_operation operation task
      try_operations ops (resume operation next) (not (has_idle_counter next)))

-- Both loops agree on every state below 81.
abbrev Agree : List ℕ → Type 0
Agree ops =
    (s : ℕ) (running : Bool)
    → s < 81
    → run_operations ops (set_state s) running ≡ try_operations ops (set_state s) running

Agree-resume :
    (operation : ℕ) (ops : List ℕ) (s : ℕ) (running : Bool)
    → Agree ops
    → s < 81
    → run_operations ops (resume operation (set_state s)) running
      ≡ try_operations ops (resume operation (set_state s)) running
Agree-resume operation ops s running agree h =
    elim (Bool-cases (is_wait operation && not (has_idle_counter (set_state s)))) [
      | inl anew ↦ rw anew (agree running_state running (omega arith))
      | inr same ↦ rw same (agree s running h)
    ]

abbrev nothing : Option (Task × Bool)
nothing = none

if-nothing : (b : Bool) → (if b then nothing else nothing) ≡ nothing
if-nothing true = refl
if-nothing false = refl

Agree-cons :
    (operation : ℕ) (ops : List ℕ) → operation % 16 ≢ 0 → Agree ops → Agree (operation ∷ ops)
unfolding run_operations try_operations
Agree-cons operation ops mask agree s running h = elim (graph-try_operation s operation h mask) [
  | inl (stopped, e) ↦
      rw ((state-set_state s h).0, e, stopped) (sym (if-nothing (is_wait operation && not running)))
  | inr (t, woken_up, went, lt, e) ↦
      let allowed : (graph s operation == not_allowed_magic) ≡ false = ground arith in
      rw
        (
          (state-set_state s h).0,
          allowed,
          went,
          sym e,
          Agree-resume operation ops (graph s operation) _ agree lt,
        )
        refl
]

-- From any state below 81, a sequence of operations with masks other than 0 gives by the table
-- what the operations themselves give, one after the other: the same task, running or waiting,
-- or that the sequence is not allowed.
pub run_operations-eq-try_operations :
    (ops : List ℕ) (s : ℕ) (running : Bool)
    → All (λ operation. operation % 16 ≢ 0) ops
    → s < 81
    → run_operations ops (set_state s) running ≡ try_operations ops (set_state s) running
unfolding run_operations try_operations
run_operations-eq-try_operations [] s running masks h = refl
run_operations-eq-try_operations (operation ∷ ops) s running masks h =
    Agree-cons operation ops masks.0
      (λ s' b h'. run_operations-eq-try_operations ops s' b masks.1 h') s running h
