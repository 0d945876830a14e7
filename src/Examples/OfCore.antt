-- ===== src/Examples/OfCore.antt =====
-- The loop of Core on a few readings.
use mathlib.Core.List.{Memᴰ}
use ai_statefultask_testsuit.Base.{
  ℕ, ◌+◌, ◌-◌, ◌*◌, ◌^◌, ◌≤◌, ◌≡◌, refl, sym, subst, Bool, true, none, some, List, [], ◌∷◌, ◌++◌,
  arith, ◌==◌, leb, ◌&&◌, if◌then◌else◌, Option,
}
use ai_statefultask_testsuit.Core.{
  Reading, Loop, bufsize, rank, less, negative, sub_word, is_quick, add_diff, lower_diff,
  compare_diff, round, loop, init, diff,
}
use ai_statefultask_testsuit.Core.Room.{room_below, room}
use ai_statefultask_testsuit.Core.Settle.{quick, IsSettled}
use ai_statefultask_testsuit.Core.Ends.{loop-ends}
use ai_statefultask_testsuit.Core.Rounds.{is_measured}
use ai_statefultask_testsuit.Core.Offset.{least_slot, offset_of, main_offset}
use ai_statefultask_testsuit.Core.Shift.{IsLeast, main_offset-shift}

-- A reading 100 cycles behind its increment, at a difference.
abbrev quick_reading : ℕ → ℕ → Reading
quick_reading index other_tsc = record {
  index = index;
  tsc1 = 1000;
  tsc2 = 1100;
  other_tsc = other_tsc;
  tsc3 = 1200;
}

abbrev slow_reading : Reading
slow_reading = record { index = 5; tsc1 = 1000; tsc2 = 1200; other_tsc = 1300; tsc3 = 1300 }

abbrev readings : List Reading
readings =
    quick_reading 3 1000
    ∷ quick_reading 1 1399
    ∷ slow_reading
    ∷ quick_reading 7 1250
    ∷ quick_reading 1 1398
    ∷ []

-- Every slot but the first has the least difference there can be.
abbrev nearly : Loop
nearly = record {
  my_tsc_buffer = λ i. 0;
  my_diff_buffer = λ i. if i == 0 then negative 298 else negative 299;
  added = [];
  count = 0;
}

enough : 2 * room bufsize nearly.my_diff_buffer + (2 - nearly.count) ≤ quick readings
unfolding room room_below rank is_quick less sub_word
enough = omega arith

loop-ends_example :
    (s' : Loop) × (seen rest : List Reading) × (loop 2 readings nearly ≡ some (s', rest))
    × (readings ≡ seen ++ rest)
    × IsSettled 2 nearly s' seen
loop-ends_example = loop-ends 2 readings nearly enough

abbrev slot_behind : Option (Loop × List Reading) → ℕ → Option ℕ
slot_behind none k = none
slot_behind (some (s, rest)) k = some (s.my_diff_buffer k)

-- The second reading lowers the first slot.
lowered : slot_behind (loop 2 readings nearly) 0 ≡ some (negative 299)
unfolding loop round is_quick less rank sub_word compare_diff add_diff lower_diff
lowered = refl

abbrev ahead_readings : List Reading
ahead_readings =
    quick_reading 1 800 ∷ quick_reading 1 850 ∷ quick_reading 3 850 ∷ quick_reading 3 700 ∷ []

abbrev behind_readings : List Reading
behind_readings = quick_reading 2 950 ∷ quick_reading 2 930 ∷ []

abbrev at_least : ℕ → List Reading → Bool
at_least value [] = true
at_least value (r ∷ rs) = leb value (rank (diff r)) && at_least value rs

at_least-bound :
    (value : ℕ) (rs : List Reading)
    → at_least value rs ≡ true
    → (r : Reading) → Memᴰ r rs
    → value ≤ rank (diff r)
at_least-bound value [] e r m = elim m [ ]
at_least-bound value (r' ∷ rs) e r (Memᴰ.head same) =
    subst (λ x. value ≤ rank (diff x)) (sym same) (ground arith)
at_least-bound value (r' ∷ rs) e r (Memᴰ.tail m) = at_least-bound value rs (ground arith) r m

abbrev ended : List Reading → Loop → Loop
ended [] s = s
ended (r ∷ rs) s = ended rs (round r s)

ahead_ends : loop 2 ahead_readings init ≡ some (ended ahead_readings init, [])
unfolding loop round is_quick less rank sub_word compare_diff add_diff lower_diff
ahead_ends = refl

behind_ends : loop 2 behind_readings init ≡ some (ended behind_readings init, [])
unfolding loop round is_quick less rank sub_word compare_diff add_diff lower_diff
behind_ends = refl

ahead_IsLeast : IsLeast ahead_readings (2 ^ 63 + 200 + 50)
unfolding is_measured is_quick less rank sub_word
ahead_IsLeast = record {
  reading = quick_reading 1 850;
  read = Memᴰ.tail (Memᴰ.head refl);
  measured = refl;
  attained = refl;
  bound = λ r m measured. at_least-bound (2 ^ 63 + 200 + 50) ahead_readings refl r m;
}

behind_IsLeast : IsLeast behind_readings (2 ^ 63 + 200 - 50)
unfolding is_measured is_quick less rank sub_word
behind_IsLeast = record {
  reading = quick_reading 2 950;
  read = Memᴰ.head refl;
  measured = refl;
  attained = refl;
  bound = λ r m measured. at_least-bound (2 ^ 63 + 200 - 50) behind_readings refl r m;
}

main_offset-shift_example :
    (main_offset
        (ended ahead_readings init).my_diff_buffer
        (ended behind_readings init).my_diff_buffer
      ≡ some (50, 0))
    × (main_offset
          (ended behind_readings init).my_diff_buffer
          (ended ahead_readings init).my_diff_buffer
        ≡ some (50, 1))
main_offset-shift_example =
    main_offset-shift 2 200 50 ahead_readings behind_readings (ended ahead_readings init)
      (ended behind_readings init) ahead_ends behind_ends (omega arith) (omega arith) ahead_IsLeast
      behind_IsLeast

-- A thread that accepted no difference keeps the largest integer, which a negative difference of the
-- other thread makes overflow.
nothing_accepted : main_offset init.my_diff_buffer nearly.my_diff_buffer ≡ none
unfolding main_offset offset_of least_slot less rank
nothing_accepted = refl
