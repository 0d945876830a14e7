-- ===== src/Counters/Encoding.antt =====
-- src/wait_signal_test2.cxx: four counters as one number below 81, and back.
use native.Mathlib.Nat.{pow-suc}
use ai_statefultask_testsuit.Base.{
  ℕ, zero, suc, ◌+◌, ◌*◌, ◌/◌, ◌%◌, ◌^◌, ◌≤◌, ◌<◌, ◌≡◌, refl, [], ◌∷◌, arith, All, length,
}
use ai_statefultask_testsuit.Counters.{Task, state, set_state, set_state_digits}

-- Every counter holds 0, 1 or 2.
abbrev pub AreCounters : Task → Type 0
AreCounters = All (λ m. m ≤ 2)

digits-AreCounters : (n st : ℕ) → AreCounters (set_state_digits n st)
unfolding set_state_digits
digits-AreCounters zero st = tt
digits-AreCounters (suc n) st = (omega arith, digits-AreCounters n (st / 3))

state-digits : (n st : ℕ) → st < 3 ^ n → state (set_state_digits n st) ≡ st
unfolding state set_state_digits
state-digits zero st h = omega arith
state-digits (suc n) st h = omega (arith, state-digits n (st / 3) (omega (arith, pow-suc 3 n)))

digits-state : (t : Task) → AreCounters t → set_state_digits (length t) (state t) ≡ t
unfolding state set_state_digits
digits-state [] h = refl
digits-state (m ∷ ms) h = rw (low, high) (rw (digits-state ms h.1))
  where
    low : (m + 3 * state ms) % 3 ≡ m
    low = omega arith

    high : (m + 3 * state ms) / 3 ≡ state ms
    high = omega arith

state-lt : (t : Task) → AreCounters t → state t < 3 ^ length t
unfolding state
state-lt [] h = omega arith
state-lt (m ∷ ms) h = omega (arith, state-lt ms h.1, pow-suc 3 (length ms))

-- For a number below 81, setting the state and reading it back gives that number, by counters
-- that hold 0, 1 or 2.
pub state-set_state : (st : ℕ) → st < 81 → (state (set_state st) ≡ st) × AreCounters (set_state st)
unfolding set_state
state-set_state st h = (state-digits 4 st h, digits-AreCounters 4 st)

-- Four counters that hold 0, 1 or 2 give a number below 81, and setting that state gives them back.
pub set_state-state :
    (t : Task) → length t ≡ 4 → AreCounters t → (state t < 81) × (set_state (state t) ≡ t)
unfolding set_state
set_state-state t four h = (rw four at (state-lt t h), rw four at (digits-state t h))

pub length-set_state : (st : ℕ) → length (set_state st) ≡ 4
unfolding set_state set_state_digits
length-set_state st = refl
