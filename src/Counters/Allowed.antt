-- ===== src/Counters/Allowed.antt =====
-- src/wait_signal_test2.cxx: which operations are allowed, and where
-- the table leads.
use ai_statefultask_testsuit.Base.{
  ℕ, suc, ◌<◌, ◌≡◌, ◌%◌, refl, ◌∙◌, ◌≢◌, ◌⊎◌, inl, inr, Bool, true, false, not, ◌&&◌, ◌||◌, none,
  some, [], ◌∷◌, arith, Option-cases, is_some, length,
}
use ai_statefultask_testsuit.Counters.{
  Task, for_each, wait, signal, reset, reset_or_counters, reset_or_counters_from, in_mask, is_idle,
  has_idle_counter, counter_signal, counter_wait, set_state,
}
use ai_statefultask_testsuit.Counters.Encoding.{
  AreCounters, state-set_state, length-set_state, set_state-state,
}
use ai_statefultask_testsuit.Counters.Graph.{try_signal, try_wait, settle, graph, try_operation}

-- Whether some counter of the mask passes `test`.
abbrev pub some_masked : (ℕ → Bool) → ℕ → ℕ → Task → Bool
some_masked test mask i [] = false
some_masked test mask i (m ∷ ms) = (in_mask mask i && test m) || some_masked test mask (suc i) ms

for_each-wait-is_some :
    (mask i : ℕ) (t : Task)
    → is_some (for_each counter_wait mask i t) ≡ not (some_masked is_idle mask i t)
unfolding for_each
for_each-wait-is_some mask i [] = refl
for_each-wait-is_some mask i (m ∷ ms) = ground (arith, for_each-wait-is_some mask (suc i) ms)

for_each-signal-is_some :
    (idle : Bool) (mask i : ℕ) (t : Task)
    → is_some (for_each (counter_signal idle) mask i t)
      ≡ not (idle && some_masked (λ m. not (is_idle m)) mask i t)
unfolding for_each
for_each-signal-is_some idle mask i [] = ground arith
for_each-signal-is_some idle mask i (m ∷ ms) =
    ground (arith, for_each-signal-is_some idle mask (suc i) ms)

try_wait-is_some-wait : (mask : ℕ) (t : Task) → is_some (try_wait mask t) ≡ is_some (wait mask t)
unfolding try_wait
try_wait-is_some-wait mask t = ground arith

try_signal-is_some-signal :
    (mask : ℕ) (t : Task)
    → is_some (try_signal mask t) ≡ is_some (signal mask (has_idle_counter t) t)
unfolding try_signal
try_signal-is_some-signal mask t = ground arith

-- A wait is allowed exactly if no counter of its mask is idle, and a signal exactly if the task
-- runs or every counter of the mask is idle.
pub is_some-iff-allowed :
    (mask : ℕ) (t : Task)
    → (is_some (try_wait mask t) ≡ not (some_masked is_idle mask 0 t))
      × (is_some (try_signal mask t)
          ≡ not (has_idle_counter t && some_masked (λ m. not (is_idle m)) mask 0 t))
unfolding wait signal
is_some-iff-allowed mask t = (
  try_wait-is_some-wait mask t ∙ for_each-wait-is_some mask 0 t,
  try_signal-is_some-signal mask t ∙ for_each-signal-is_some (has_idle_counter t) mask 0 t,
)

-- What the operations keep of a task.
abbrev Keeps : Task → Task → Type 0
Keeps t t' = (length t' ≡ length t) × AreCounters t'

for_each-wait-Keeps :
    (mask i : ℕ) (t : Task) {t' : Task} {b : Bool}
    → AreCounters t
    → for_each counter_wait mask i t ≡ some (t', b)
    → Keeps t t'
unfolding for_each
for_each-wait-Keeps mask i [] h e = ground arith
for_each-wait-Keeps mask i (m ∷ ms) h e =
    elim (Option-cases (for_each counter_wait mask (suc i) ms)) [
      | inl stopped ↦ absurd (ground arith)
      | inr ((ms', b), went) ↦
          ground (arith, for_each-wait-Keeps mask (suc i) ms {t' = ms'} {b = b} h.1 went)
    ]

for_each-signal-Keeps :
    (idle : Bool) (mask i : ℕ) (t : Task) {t' : Task} {b : Bool}
    → AreCounters t
    → for_each (counter_signal idle) mask i t ≡ some (t', b)
    → Keeps t t'
unfolding for_each
for_each-signal-Keeps idle mask i [] h e = ground arith
for_each-signal-Keeps idle mask i (m ∷ ms) h e =
    elim (Option-cases (for_each (counter_signal idle) mask (suc i) ms)) [
      | inl stopped ↦ absurd (ground arith)
      | inr ((ms', b), went) ↦
          ground (arith, for_each-signal-Keeps idle mask (suc i) ms {t' = ms'} {b = b} h.1 went)
    ]

reset-Keeps : (t : Task) → Keeps t (reset t)
unfolding reset
reset-Keeps [] = ground arith
reset-Keeps (m ∷ ms) = ground (arith, reset-Keeps ms)

reset_or-Keeps : (i : ℕ) (t : Task) → AreCounters t → Keeps t (reset_or_counters_from i t)
unfolding reset_or_counters_from
reset_or-Keeps i [] h = ground arith
reset_or-Keeps i (m ∷ ms) h = ground (arith, reset_or-Keeps (suc i) ms h.1)

settle-Keeps : (woken OR : Bool) (t : Task) → AreCounters t → Keeps t (settle woken OR t)
unfolding reset_or_counters
settle-Keeps true OR t h = reset-Keeps t
settle-Keeps false true t h = reset_or-Keeps 0 t h
settle-Keeps false false t h = (refl, h)

try_wait-Keeps :
    (mask : ℕ) (t : Task) {t' : Task} {woken : Bool}
    → AreCounters t
    → try_wait mask t ≡ some (t', woken)
    → Keeps t t'
unfolding try_wait wait
try_wait-Keeps mask t {t'} {woken} h e = elim (Option-cases (for_each counter_wait mask 0 t)) [
  | inl stopped ↦ absurd (ground arith)
  | inr ((t₂, OR), went) ↦
      let kept = for_each-wait-Keeps mask 0 t {t' = t₂} {b = OR} h went in
      ground (arith, kept, settle-Keeps woken OR t₂ kept.1)
]

try_signal-Keeps :
    (mask : ℕ) (t : Task) {t' : Task} {woken : Bool}
    → AreCounters t
    → try_signal mask t ≡ some (t', woken)
    → Keeps t t'
unfolding try_signal signal
try_signal-Keeps mask t {t'} {woken} h e =
    elim (Option-cases (for_each (counter_signal (has_idle_counter t)) mask 0 t)) [
      | inl stopped ↦ absurd (ground arith)
      | inr ((t₂, OR), went) ↦
          let kept =
            for_each-signal-Keeps (has_idle_counter t) mask 0 t {t' = t₂} {b = OR} h went in
          ground (arith, kept, settle-Keeps woken OR t₂ kept.1)
    ]

try_operation-Keeps :
    (operation : ℕ) (t : Task) {t' : Task} {woken : Bool}
    → AreCounters t
    → try_operation operation t ≡ some (t', woken)
    → Keeps t t'
try_operation-Keeps operation t {t'} {woken} h e = ground (
  arith,
  try_wait-Keeps (operation % 16) t {t' = t'} {woken = woken} h,
  try_signal-Keeps (operation % 16) t {t' = t'} {woken = woken} h,
)

-- For a state below 81 and an operation with a mask other than 0: if the operation is allowed,
-- the table holds a state below 81, which is that of the task behind the operation; otherwise it
-- holds 81.
pub graph-try_operation :
    (s operation : ℕ)
    → s < 81
    → operation % 16 ≢ 0
    → ((try_operation operation (set_state s) ≡ none) × (graph s operation ≡ 81))
      ⊎ ((t : Task) × (woken_up : Bool) × (try_operation operation (set_state s)
            ≡ some (t, woken_up))
          × (graph s operation < 81)
          × (set_state (graph s operation) ≡ t))
unfolding graph
graph-try_operation s operation h mask =
    elim (Option-cases (try_operation operation (set_state s))) [
      | inl stopped ↦ inl (stopped, ground arith)
      | inr ((t, woken_up), went) ↦
          let kept =
            try_operation-Keeps operation (set_state s) {t' = t} {woken = woken_up}
              (state-set_state s h).1 went in
          let next = set_state-state t (kept.0 ∙ length-set_state s) kept.1 in
          inr (t, woken_up, went, ground (arith, next), ground (arith, next))
    ]
