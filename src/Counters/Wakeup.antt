-- ===== src/Counters/Wakeup.antt =====
-- src/wait_signal_test2.cxx: when a signal makes a task run again.
use ai_statefultask_testsuit.Base.{
  ℕ, suc, ◌<◌, ◌≡◌, refl, inl, inr, Bool, true, false, not, ◌&&◌, ◌||◌, Option, some, [], ◌∷◌,
  arith, Bool-cases, Option-cases,
}
use ai_statefultask_testsuit.Counters.{
  Task, for_each, signal, reset, reset_or_counters, reset_or_counters_from, some_idle, is_required,
  is_waiting, required_is_idle, has_idle_counter, counter_signal,
}
use ai_statefultask_testsuit.Counters.Graph.{try_signal, settle}

abbrev pub any : ℕ → Bool
any i = true

some_idle-reset : (i : ℕ) (t : Task) → some_idle any i (reset t) ≡ false
unfolding some_idle reset
some_idle-reset i [] = refl
some_idle-reset i (m ∷ ms) = some_idle-reset (suc i) ms

some_idle-reset_or :
    (i : ℕ) (t : Task)
    → some_idle any i t ≡ false
    → some_idle any i (reset_or_counters_from i t) ≡ false
unfolding some_idle reset_or_counters_from
some_idle-reset_or i [] h = refl
some_idle-reset_or i (m ∷ ms) h = ground (arith, some_idle-reset_or (suc i) ms)

required-reset_or :
    (i : ℕ) (t : Task)
    → some_idle is_required i t ≡ true
    → some_idle any i (reset_or_counters_from i t) ≡ true
unfolding some_idle reset_or_counters_from
required-reset_or i [] h = h
required-reset_or i (m ∷ ms) h = ground (arith, required-reset_or (suc i) ms)

required-any : (i : ℕ) (t : Task) → 1 < i → some_idle is_required i t ≡ some_idle any i t
unfolding some_idle
required-any i [] h = refl
required-any i (m ∷ ms) h = ground (arith, required-any (suc i) ms)

required_is_idle-eq : (t : Task) → required_is_idle t ≡ some_idle is_required 0 t
unfolding required_is_idle
required_is_idle-eq [] = refl
required_is_idle-eq (m₀ ∷ []) = ground arith
required_is_idle-eq (m₀ ∷ m₁ ∷ ms) = ground (arith, required-any 2 ms)

some_idle-split :
    (i : ℕ) (t : Task)
    → some_idle any i t ≡ (some_idle is_required i t || some_idle (λ j. not (is_required j)) i t)
unfolding some_idle
some_idle-split i [] = refl
some_idle-split i (m ∷ ms) = ground (arith, some_idle-split (suc i) ms)

-- A signal to a running task leaves it running.
signal-running :
    (mask i : ℕ) (t : Task) {t' : Task} {b : Bool}
    → some_idle any i t ≡ false
    → for_each (counter_signal false) mask i t ≡ some (t', b)
    → some_idle any i t' ≡ false
unfolding some_idle for_each
signal-running mask i [] h e = ground arith
signal-running mask i (m ∷ ms) h e =
    elim (Option-cases (for_each (counter_signal false) mask (suc i) ms)) [
      | inl stopped ↦ ground arith
      | inr ((ms', b), went) ↦ ground (arith, signal-running mask (suc i) ms {t' = ms'} {b = b})
    ]

pub reset-for_each :
    (op : ℕ → Option (ℕ × Bool)) (mask i : ℕ) (t : Task) {t' : Task} {b : Bool}
    → for_each op mask i t ≡ some (t', b)
    → reset t' ≡ reset t
unfolding reset for_each
reset-for_each op mask i [] e = ground arith
reset-for_each op mask i (m ∷ ms) e = elim (Option-cases (for_each op mask (suc i) ms)) [
  | inl stopped ↦ ground arith
  | inr ((ms', b), went) ↦ ground (arith, reset-for_each op mask (suc i) ms {t' = ms'} {b = b})
]

has_idle-settle-running :
    (woken OR : Bool) (t : Task)
    → has_idle_counter t ≡ false
    → has_idle_counter (settle woken OR t) ≡ false
unfolding has_idle_counter reset_or_counters
has_idle-settle-running true OR t h = some_idle-reset 0 t
has_idle-settle-running false true t h = some_idle-reset_or 0 t h
has_idle-settle-running false false t h = h

pub required_is_idle-has_idle_counter :
    (t : Task) → required_is_idle t ≡ true → has_idle_counter t ≡ true
unfolding has_idle_counter
required_is_idle-has_idle_counter t h = ground (arith, required_is_idle-eq t, some_idle-split 0 t)

has_idle-settle :
    (woken OR : Bool) (t : Task)
    → woken ≡ (not (required_is_idle t) && (OR || not (has_idle_counter t)))
    → has_idle_counter (settle woken OR t) ≡ not woken
unfolding has_idle_counter reset_or_counters
has_idle-settle true OR t h = some_idle-reset 0 t
has_idle-settle false false t h = ground (arith, required_is_idle-has_idle_counter t)
has_idle-settle false true t h = ground (arith, required-reset_or 0 t, required_is_idle-eq t)

reset-settle : (woken OR : Bool) (t : Task) → woken ≡ true → settle woken OR t ≡ reset t
reset-settle woken OR t h = rw h

-- What `try_signal` did, step by step.
abbrev Signalled : ℕ → Task → Task → Bool → Type 0
Signalled mask t t' woken_up =
    (t₂ : Task) × (OR : Bool) × (signal mask (has_idle_counter t) t ≡ some (t₂, OR))
    × (t' ≡ settle woken_up OR t₂)
    × (woken_up
        ≡ (has_idle_counter t && (not (required_is_idle t₂) && (OR || not (has_idle_counter t₂)))))

signal-has_idle_counter :
    (mask : ℕ) (t : Task) {t₂ : Task} {OR : Bool}
    → has_idle_counter t ≡ false
    → signal mask false t ≡ some (t₂, OR)
    → has_idle_counter t₂ ≡ false
unfolding has_idle_counter signal
signal-has_idle_counter mask t h e = signal-running mask 0 t h e

not_waiting :
    (OR : Bool) (t : Task)
    → (not (required_is_idle t) && (OR || not (has_idle_counter t))) ≡ not (is_waiting OR t)
unfolding has_idle_counter is_waiting
not_waiting OR t = ground (arith, required_is_idle-eq t, some_idle-split 0 t)

module _ (mask : ℕ) (t : Task) {t' : Task} {woken_up : Bool}
    (done : try_signal mask t ≡ some (t', woken_up)) where
  steps : Signalled mask t t' woken_up
  unfolding try_signal
  steps = elim (Option-cases (signal mask (has_idle_counter t) t)) [
    | inl stopped ↦ absurd (ground arith)
    | inr ((t₂, OR), went) ↦ (t₂, OR, went, ground arith, ground arith)
  ]

  -- A signal that is allowed leaves a task waiting exactly if the task was waiting and the
  -- signal does not wake it up; so a running task goes on running, and one that is woken up runs.
  pub has_idle_counter-try_signal : has_idle_counter t' ≡ (has_idle_counter t && not woken_up)
  has_idle_counter-try_signal =
      let (t₂, OR, went, e, w) = steps in
      elim (Bool-cases (has_idle_counter t)) [
        | inl waits ↦ rw (e, has_idle-settle woken_up OR t₂ (rw waits at w), waits) refl
        | inr runs ↦
            rw (e, runs)
              (has_idle-settle-running woken_up OR t₂
                (signal-has_idle_counter mask t runs (rw runs at went)))
      ]

  -- A signal that wakes a task up leaves it with all its counters at 1.
  try_signal-reset : woken_up ≡ true → t' ≡ reset t
  unfolding signal
  try_signal-reset up =
      let (t₂, OR, went, e, w) = steps in
      rw (e, up) (reset-for_each (counter_signal (has_idle_counter t)) mask 0 t went)

-- The test of `main` for waking up is `is_waiting` of the task behind the signal, turned round:
-- whatever the signal returned, a task that was waiting is woken up exactly if it no longer is.
is_waiting-try_signal :
    (mask : ℕ) (t t₂ : Task) (OR : Bool)
    → signal mask (has_idle_counter t) t ≡ some (t₂, OR)
    → has_idle_counter t ≡ true
    → try_signal mask t ≡ some (settle (not (is_waiting OR t₂)) OR t₂, not (is_waiting OR t₂))
unfolding try_signal
is_waiting-try_signal mask t t₂ OR went waits = rw (went, waits, agrees) refl
  where
    agrees :
        (not (required_is_idle t₂) && (OR || not (has_idle_counter t₂))) ≡ not (is_waiting OR t₂)
    agrees = not_waiting OR t₂
