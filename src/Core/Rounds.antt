-- ===== src/Core/Rounds.antt =====
-- What one round of the loop in `f` of src/core.cc changes.
use ai_statefultask_testsuit.Base.{
  ℕ, ◌+◌, ◌≡◌, refl, Bool, true, inl, inr, ◌&&◌, ◌==◌, if◌then◌else◌, Bool-cases, arith,
}
use ai_statefultask_testsuit.Core.{
  Reading, Loop, less, negative, store, diff, other_index, is_quick, add_diff, lower_diff,
  compare_diff, round,
}

-- The reading is quick and its difference within the limits.
unfoldable pub is_measured : Reading → Bool
is_measured r = is_quick r && (less (diff r) 40000 && less (negative 300) (diff r))

unfoldable pub lowers : Reading → Loop → Bool
unfolding is_measured
lowers r s = is_measured r && less (diff r) (s.my_diff_buffer (other_index r))

pub lowers-is_measured : (r : Reading) (s : Loop) → lowers r s ≡ true → is_measured r ≡ true
unfolding lowers
lowers-is_measured r s e = ground arith

pub round-my_diff_buffer :
    (r : Reading) (s : Loop)
    → (round r s).my_diff_buffer
      ≡ (if lowers r s then store (other_index r) (diff r) s.my_diff_buffer else s.my_diff_buffer)
unfolding round lowers is_measured compare_diff lower_diff add_diff
round-my_diff_buffer r s = ground arith

-- One slot behind the round.
pub round-slot :
    (r : Reading) (s : Loop) (k : ℕ)
    → (round r s).my_diff_buffer k
      ≡ (if lowers r s && (k == other_index r) then diff r else s.my_diff_buffer k)
round-slot r s k =
    rw (round-my_diff_buffer r s)
      (elim (Bool-cases (lowers r s)) [ inl e ↦ rw e refl | inr e ↦ rw e refl ])

pub round-count :
    (r : Reading) (s : Loop)
    → (round r s).count ≡ (if lowers r s then 1 else (if is_quick r then s.count + 1 else s.count))
unfolding round lowers is_measured compare_diff lower_diff add_diff
round-count r s = ground arith
