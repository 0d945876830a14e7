-- ===== src/Core/Ends.antt =====
-- When the loop in `f` of src/core.cc ends.
use ai_statefultask_testsuit.Base.{
  ℕ, zero, suc, ◌+◌, ◌-◌, ◌*◌, ◌<◌, ◌≤◌, ◌≡◌, refl, sym, ap, ◌∙◌, ◌≢◌, ◌⊎◌, inl, inr, true, false,
  ltb, if◌then◌else◌, none, some, List, [], ◌∷◌, ◌++◌, arith, Bool-cases,
}
use ai_statefultask_testsuit.Core.{Reading, Loop, bufsize, is_quick, round, loop}
use ai_statefultask_testsuit.Core.Rounds.{is_measured, lowers, round-my_diff_buffer, round-count}
use ai_statefultask_testsuit.Core.Room.{room, room-round}
use ai_statefultask_testsuit.Core.Settle.{quick, IsSettled, end-IsSettled, round-IsSettled}

mul-lt : (a x y : ℕ) → x < y → a * x + a ≤ a * y
mul-lt zero x y lt = omega arith
mul-lt (suc a) x y lt = let rest = mul-lt a x y lt in omega arith

lowers-is_quick : (r : Reading) (s : Loop) → lowers r s ≡ true → is_quick r ≡ true
unfolding lowers is_measured
lowers-is_quick r s e = ground arith

-- Every quick reading brings the end nearer.
enough-round :
    (limit : ℕ) (r : Reading) (s : Loop) (quick_left : ℕ)
    → s.count < limit
    → limit * room bufsize s.my_diff_buffer + (limit - s.count)
      ≤ (if is_quick r then 1 else 0) + quick_left
    → limit * room bufsize (round r s).my_diff_buffer + (limit - (round r s).count) ≤ quick_left
enough-round limit r s quick_left goes enough =
    let c = round-count r s in
    elim (Bool-cases (lowers r s)) [
      | inl e ↦
          let products = mul-lt limit _ _ (room-round r s e) in
          let fast = lowers-is_quick r s e in ground arith
      | inr e ↦
          let same : (round r s).my_diff_buffer ≡ s.my_diff_buffer =
            rw (round-my_diff_buffer r s, e) refl in
          rw same (ground arith)
    ]

-- The loop ends in `s'`, having read `seen` and left `rest`.
abbrev pub Ended : ℕ → List Reading → Loop → Type 0
Ended limit readings s =
    (s' : Loop) × (seen rest : List Reading) × (loop limit readings s ≡ some (s', rest))
    × (readings ≡ seen ++ rest)
    × IsSettled limit s s' seen

-- If the loop ends, it ends settled.
pub loop-Ended :
    (limit : ℕ) (readings : List Reading) (s : Loop)
    → (loop limit readings s ≡ none) ⊎ Ended limit readings s
unfolding loop
loop-Ended limit [] s = elim (Bool-cases (ltb s.count limit)) [
  | inl goes ↦ inl (rw goes refl)
  | inr done ↦ inr (rw done (s, [], [], refl, refl, end-IsSettled limit s done))
]
loop-Ended limit (r ∷ readings) s = elim (Bool-cases (ltb s.count limit)) [
  | inr done ↦ inr (rw (loop, done) (s, [], r ∷ readings, refl, refl, end-IsSettled limit s done))
  | inl goes ↦ elim (loop-Ended limit readings (round r s)) [
    | inl runs ↦ inl (rw (loop, goes) runs)
    | inr (s', seen, rest, e, split, p) ↦ inr (
        rw (loop, goes)
          (s', r ∷ seen, rest, e, ap (λ l. r ∷ l) split, round-IsSettled limit r s s' seen p))
  ]
]

loop-round :
    (limit : ℕ) (r : Reading) (readings : List Reading) (s : Loop)
    → ltb s.count limit ≡ true
    → loop limit (r ∷ readings) s ≡ loop limit readings (round r s)
unfolding loop
loop-round limit r readings s goes = rw (loop, goes) refl

loop-not_none :
    (limit : ℕ) (readings : List Reading) (s : Loop)
    → limit * room bufsize s.my_diff_buffer + (limit - s.count) ≤ quick readings
    → loop limit readings s ≢ none
unfolding loop
loop-not_none limit [] s enough e =
    let done : ltb s.count limit ≡ false = ground arith in ground arith
loop-not_none limit (r ∷ readings) s enough e = elim (Bool-cases (ltb s.count limit)) [
  | inr done ↦ ground arith
  | inl goes ↦
      loop-not_none limit readings (round r s)
        (enough-round limit r s (quick readings) (ground arith) enough)
        (sym (loop-round limit r readings s goes) ∙ e)
]

-- The loop ends if there are enough quick readings: `limit` for each time that a difference can still
-- be lowered, and `limit` less `count` for the end. It has then read `seen` and left `rest`. No
-- difference of `seen` that is within the limits is below the one that is kept in its slot, no slot
-- was raised, and each slot has its value from the beginning or the difference of a reading in
-- `before`. Behind `before` there are at least `limit` quick readings, or one less; if `before` is empty,
-- `count` from the beginning makes up for what is missing.
pub loop-ends :
    (limit : ℕ) (readings : List Reading) (s : Loop)
    → limit * room bufsize s.my_diff_buffer + (limit - s.count) ≤ quick readings
    → (s' : Loop) × (seen rest : List Reading) × (loop limit readings s ≡ some (s', rest))
      × (readings ≡ seen ++ rest)
      × IsSettled limit s s' seen
loop-ends limit readings s enough = elim (loop-Ended limit readings s) [
  | inl runs ↦ absurd (loop-not_none limit readings s enough runs)
  | inr ended ↦ ended
]
