-- ===== src/Counters/Reorder.antt =====
-- src/wait_signal_test2.cxx: signals that arrive in another order, and a signal
-- for what a task waits for.
use ai_statefultask_testsuit.Base.{
  ℕ, suc, ◌+◌, ◌≡◌, refl, Bool, true, false, not, ◌&&◌, ◌||◌, ◌==◌, if◌then◌else◌, some, [], ◌∷◌,
  arith,
}
use ai_statefultask_testsuit.Counters.{
  ◌>>=◌, Task, for_each, wait, signal, reset, some_idle, in_mask, is_required, has_idle_counter,
  counter_signal, counter_wait,
}
use ai_statefultask_testsuit.Counters.Graph.{try_signal, try_wait}
use ai_statefultask_testsuit.Counters.Wakeup.{any, required_is_idle-has_idle_counter}

-- A signal to a running task counts up to 2 in each counter of the mask.
bump_from : ℕ → ℕ → Task → Task
bump_from mask i [] = []
bump_from mask i (m ∷ ms) =
    (if in_mask mask i && not (m == 2) then m + 1 else m) ∷ bump_from mask (suc i) ms

some_idle-bump :
    (mask i : ℕ) (t : Task)
    → some_idle any i t ≡ false
    → some_idle any i (bump_from mask i t) ≡ false
unfolding some_idle bump_from
some_idle-bump mask i [] h = refl
some_idle-bump mask i (m ∷ ms) h = ground (arith, some_idle-bump mask (suc i) ms)

for_each-bump :
    (mask i : ℕ) (t : Task)
    → some_idle any i t ≡ false
    → for_each (counter_signal false) mask i t ≡ some (bump_from mask i t, false)
unfolding some_idle for_each bump_from
for_each-bump mask i [] h = refl
for_each-bump mask i (m ∷ ms) h = ground (arith, for_each-bump mask (suc i) ms)

bump_comm :
    (a b i : ℕ) (t : Task) → bump_from a i (bump_from b i t) ≡ bump_from b i (bump_from a i t)
unfolding bump_from
bump_comm a b i [] = refl
bump_comm a b i (m ∷ ms) = ground (arith, bump_comm a b (suc i) ms)

try_signal-bump :
    (mask : ℕ) (t : Task)
    → has_idle_counter t ≡ false
    → try_signal mask t ≡ some (bump_from mask 0 t, false)
unfolding try_signal signal has_idle_counter
try_signal-bump mask t h = rw (h, for_each-bump mask 0 t h) refl

-- Two signals to a running task are both allowed, wake nothing up, and leave the same task
-- behind in either order.
try_signal_comm :
    (a b : ℕ) (t : Task)
    → has_idle_counter t ≡ false
    → (t' : Task) × ((try_signal a t >>= λ (t₁, _). try_signal b t₁) ≡ some (t', false))
      × ((try_signal b t >>= λ (t₁, _). try_signal a t₁) ≡ some (t', false))
unfolding has_idle_counter
try_signal_comm a b t h = (
  bump_from b 0 (bump_from a 0 t),
  rw (try_signal-bump a t h) (try_signal-bump b _ (some_idle-bump a 0 t h)),
  rw (try_signal-bump b t h)
      (rw (bump_comm b a 0 t) (try_signal-bump a _ (some_idle-bump b 0 t h))),
)

-- Every counter of the mask holds `n`.
abbrev MaskedAre : ℕ → ℕ → ℕ → Task → Type 0
MaskedAre n mask i [] = Unit
MaskedAre n mask i (m ∷ ms) = (in_mask mask i ≡ true → m ≡ n) × MaskedAre n mask (suc i) ms

abbrev in_some_mask : ℕ → ℕ → Task → Bool
in_some_mask mask i [] = false
in_some_mask mask i (m ∷ ms) = in_mask mask i || in_some_mask mask (suc i) ms

-- The counters of the mask set to 0.
clear_from : ℕ → ℕ → Task → Task
clear_from mask i [] = []
clear_from mask i (m ∷ ms) = (if in_mask mask i then 0 else m) ∷ clear_from mask (suc i) ms

for_each-clear :
    (mask i : ℕ) (t : Task)
    → MaskedAre 1 mask i t
    → for_each counter_wait mask i t ≡ some (clear_from mask i t, false)
unfolding for_each clear_from
for_each-clear mask i [] h = refl
for_each-clear mask i (m ∷ ms) h = ground (arith, for_each-clear mask (suc i) ms h.1)

some_idle-clear :
    (mask i : ℕ) (t : Task)
    → some_idle any i (clear_from mask i t) ≡ (in_some_mask mask i t || some_idle any i t)
unfolding some_idle clear_from
some_idle-clear mask i [] = refl
some_idle-clear mask i (m ∷ ms) = ground (arith, some_idle-clear mask (suc i) ms)

clear-has_idle_counter :
    (mask : ℕ) (t : Task)
    → in_some_mask mask 0 t ≡ true
    → has_idle_counter (clear_from mask 0 t) ≡ true
unfolding has_idle_counter
clear-has_idle_counter mask t h = rw (some_idle-clear mask 0 t, h) refl

in_or_mask : ℕ → ℕ → Task → Bool
in_or_mask mask i [] = false
in_or_mask mask i (m ∷ ms) = (in_mask mask i && not (is_required i)) || in_or_mask mask (suc i) ms

for_each-restore :
    (mask i : ℕ) (t : Task)
    → MaskedAre 1 mask i t
    → for_each (counter_signal true) mask i (clear_from mask i t) ≡ some (t, in_or_mask mask i t)
unfolding for_each clear_from in_or_mask
for_each-restore mask i [] h = refl
for_each-restore mask i (m ∷ ms) h = ground (arith, for_each-restore mask (suc i) ms h.1)

-- A running task that waits for conditions whose counters are all at 1, one condition at least,
-- goes to sleep; a signal for just these conditions then wakes it up, with all counters at 1.
pub try_wait-try_signal :
    (mask : ℕ) (t : Task)
    → has_idle_counter t ≡ false
    → MaskedAre 1 mask 0 t
    → in_some_mask mask 0 t ≡ true
    → (t' : Task) × (try_wait mask t ≡ some (t', false))
      × (has_idle_counter t' ≡ true)
      × (try_signal mask t' ≡ some (reset t, true))
unfolding try_wait try_signal wait signal
try_wait-try_signal mask t runs ones some_bit = (
  clear_from mask 0 t,
  rw (for_each-clear mask 0 t ones) (ground arith),
  idle,
  rw (idle, for_each-restore mask 0 t ones, runs)
      (ground (arith, required_is_idle-has_idle_counter t)),
)
  where
    idle : has_idle_counter (clear_from mask 0 t) ≡ true
    idle = clear-has_idle_counter mask t some_bit
