-- ===== src/Core/Offset.antt =====
-- What `main` of src/core.cc makes of the differences that its threads keep.
use ai_statefultask_testsuit.Base.{
  ℕ, zero, suc, ◌-◌, ◌/◌, ◌^◌, ltb, leb, ◌==◌, if◌then◌else◌, Option, none, some,
}
use ai_statefultask_testsuit.Core.{Buffer, bufsize, rank, less, int64_max}

-- `min[cpu] = std::min(min[cpu], e)` for the first slots.
unfoldable pub least_slot : ℕ → Buffer → ℕ
unfolding less
least_slot zero m_diff = int64_max
least_slot (suc n) m_diff =
    let smallest = least_slot n m_diff in if less (m_diff n) smallest then m_diff n else smallest

-- The offset and `ahead`. Half of a difference is rounded towards 0, so half of -1 is not negative.
-- `none` is a difference that overflows 64 bits.
unfoldable pub offset_of : ℕ → ℕ → Option (ℕ × ℕ)
unfolding rank
offset_of min_0 min_1 =
    if leb (rank min_1) (rank min_0)
    then (let difference = rank min_0 - rank min_1 in
        if ltb difference (2 ^ 63) then some (difference / 2, 0) else none)
    else (let difference = rank min_1 - rank min_0 in
        if leb difference (2 ^ 63)
        then some (difference / 2, (if difference / 2 == 0 then 0 else 1))
        else none)

-- The end of `main`, from the buffers of both threads.
unfoldable pub main_offset : Buffer → Buffer → Option (ℕ × ℕ)
unfolding least_slot offset_of
main_offset m_diff_0 m_diff_1 =
    offset_of (least_slot bufsize m_diff_0) (least_slot bufsize m_diff_1)
