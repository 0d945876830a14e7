-- ===== src/Core/Shift.antt =====
-- What the offset that `main` of src/core.cc prints means.
use mathlib.Core.List.{Memᴰ, append-nil}
use mathlib.Core.List.Memᴰ
use mathlib.Core.Option.{some_inj, none-ne-some}
use ai_statefultask_testsuit.Base.{
  ℕ, zero, suc, ◌+◌, ◌-◌, ◌^◌, ◌<◌, ◌≤◌, ◌≡◌, refl, sym, ap, ◌∙◌, subst, inl, inr, true, ◌==◌,
  if◌then◌else◌, some, List, [], ◌++◌, arith, Bool-cases,
}
use ai_statefultask_testsuit.Core.{
  Reading, Loop, Buffer, bufsize, rank, less, int64_max, init, diff, other_index, loop,
}
use ai_statefultask_testsuit.Core.Offset.{least_slot, offset_of, main_offset}
use ai_statefultask_testsuit.Core.Rounds.{is_measured}
use ai_statefultask_testsuit.Core.Settle.{IsSettled}
use ai_statefultask_testsuit.Core.Ends.{loop-Ended}

-- The least of the differences that are within the limits has a rank.
pub record IsLeast (seen : List Reading) (value : ℕ) : Type 0 where
  pub reading : Reading
  pub read : Memᴰ reading seen
  pub measured : is_measured reading ≡ true
  pub attained : rank (diff reading) ≡ value
  pub bound : (r : Reading) → Memᴰ r seen → is_measured r ≡ true → value ≤ rank (diff r)

rank_max : rank int64_max ≡ 2 ^ 64 - 1
unfolding rank
rank_max = refl

rank_lt : (a : ℕ) → rank a < 2 ^ 64
unfolding rank
rank_lt a = omega arith

least_slot-below : (n k : ℕ) (d : Buffer) → k < n → rank (least_slot n d) ≤ rank (d k)
unfolding least_slot less
least_slot-below zero k d lt = omega arith
least_slot-below (suc n) k d lt = elim (Bool-cases (k == n)) [
  | inl same ↦ let e : k ≡ n = ground arith in rw e (ground arith)
  | inr other ↦ let rest = least_slot-below n k d (ground arith) in ground arith
]

least_slot-above :
    (n value : ℕ) (d : Buffer)
    → value ≤ rank int64_max
    → ((k : ℕ) → value ≤ rank (d k))
    → value ≤ rank (least_slot n d)
unfolding least_slot
least_slot-above zero value d top h = top
least_slot-above (suc n) value d top h =
    let rest = least_slot-above n value d top h in let here = h n in ground arith

-- Every slot keeps a value of at least the least difference.
slot-bound :
    (limit value : ℕ) (s : Loop) (seen : List Reading)
    → IsSettled limit init s seen
    → IsLeast seen value
    → (k : ℕ) → value ≤ rank (s.my_diff_buffer k)
slot-bound limit value s seen p l k = elim (p.found k) [
  | inl same ↦
      let top = rank_max in
      let upper = rank_lt (diff l.reading) in let reached = l.attained in rw same (ground arith)
  | inr (r, m, measured, index, kept) ↦
      let m' = Memᴰ.append_left p.after m in
      subst (λ d. value ≤ rank d) kept
        (l.bound r (subst (λ rs. Memᴰ r rs) (sym p.split) m') measured)
]

-- The thread's minimum is its least difference.
least_slot-IsSettled :
    (limit value : ℕ) (s : Loop) (seen : List Reading)
    → IsSettled limit init s seen
    → IsLeast seen value
    → rank (least_slot bufsize s.my_diff_buffer) ≡ value
unfolding less
least_slot-IsSettled limit value s seen p l =
    let top = rank_max in
    let upper = rank_lt (diff l.reading) in
    let reached = l.attained in
    let slot = least_slot-below bufsize (other_index l.reading) s.my_diff_buffer (omega arith) in
    let kept = p.least l.reading l.read l.measured in
    let above =
      least_slot-above bufsize value s.my_diff_buffer (ground arith)
        (slot-bound limit value s seen p l) in
    ground arith

offset_of-shift :
    (latency shift min_0 min_1 : ℕ)
    → latency < 2 ^ 61
    → shift < 2 ^ 61
    → rank min_0 ≡ 2 ^ 63 + latency + shift
    → rank min_1 ≡ 2 ^ 63 + latency - shift
    → offset_of min_0 min_1 ≡ some (shift, 0)
unfolding offset_of
offset_of-shift latency shift min_0 min_1 l s e_0 e_1 = rw (e_0, e_1) (ground arith)

offset_of-shift_back :
    (latency shift min_0 min_1 : ℕ)
    → latency < 2 ^ 61
    → shift < 2 ^ 61
    → rank min_0 ≡ 2 ^ 63 + latency - shift
    → rank min_1 ≡ 2 ^ 63 + latency + shift
    → offset_of min_0 min_1 ≡ some (shift, (if shift == 0 then 0 else 1))
unfolding offset_of
offset_of-shift_back latency shift min_0 min_1 l s e_0 e_1 = rw (e_0, e_1) (ground arith)

-- The loop has read all there is.
loop-IsSettled :
    (limit : ℕ) (readings : List Reading) (s : Loop)
    → loop limit readings init ≡ some (s, [])
    → IsSettled limit init s readings
loop-IsSettled limit readings s e = elim (loop-Ended limit readings init) [
  | inl runs ↦ absurd (none-ne-some _ (sym runs ∙ e))
  | inr (s', seen, rest, e', split, p) ↦
      let same = some_inj.0 (sym e' ∙ e) in
      let all : seen ≡ readings =
        sym (append-nil seen) ∙ (ap (λ x. seen ++ x) (sym (ap (λ x. x.1) same)) ∙ sym split) in
      subst (λ rs. IsSettled limit init s rs) all
        (subst (λ x. IsSettled limit init x seen) (ap (λ x. x.0) same) p)
]

-- Let the loops of two threads have ended, from `init` on and at their last readings, and let the
-- least differences within the limits be `latency + shift` for the one, whose clock is `shift` ahead,
-- and `latency - shift` for the other. Then `main` finds the offset `shift`, and the thread that is
-- ahead, whichever of the two is CPU 0; with no shift it says CPU 0.
pub main_offset-shift :
    (limit latency shift : ℕ) (readings_0 readings_1 : List Reading) (s_0 s_1 : Loop)
    → loop limit readings_0 init ≡ some (s_0, [])
    → loop limit readings_1 init ≡ some (s_1, [])
    → latency < 2 ^ 61
    → shift < 2 ^ 61
    → IsLeast readings_0 (2 ^ 63 + latency + shift)
    → IsLeast readings_1 (2 ^ 63 + latency - shift)
    → (main_offset s_0.my_diff_buffer s_1.my_diff_buffer ≡ some (shift, 0))
      × (main_offset s_1.my_diff_buffer s_0.my_diff_buffer
          ≡ some (shift, (if shift == 0 then 0 else 1)))
unfolding main_offset
main_offset-shift limit latency shift readings_0 readings_1 s_0 s_1 e_0 e_1 l s least_0 least_1 =
    let m_0 =
      least_slot-IsSettled limit _ s_0 readings_0 (loop-IsSettled limit readings_0 s_0 e_0)
        least_0 in
    let m_1 =
      least_slot-IsSettled limit _ s_1 readings_1 (loop-IsSettled limit readings_1 s_1 e_1)
        least_1 in
    (
      offset_of-shift latency shift _ _ l s m_0 m_1,
      offset_of-shift_back latency shift _ _ l s m_1 m_0,
    )
