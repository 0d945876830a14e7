-- ===== src/Core.antt =====
-- src/core.cc: two threads on two cores increment a counter and compare the time
-- stamps behind their increments. Each has the function `f`. What its assembly and the loads of the
-- other thread's buffer read comes in as a list of readings, one for a round of the loop. A 64-bit
-- integer is a number below 2 to the power 64; a signed one stands for itself or, from 2 to the
-- power 63 on, for the number less 2 to the power 64. The statistics that `f` prints, and the
-- assertion on one of them, are left out.
pub mod Rounds
pub mod Room
pub mod Settle
pub mod Ends
pub mod Offset
pub mod Shift
use ai_statefultask_testsuit.Base.{
  ℕ, zero, suc, ◌+◌, ◌-◌, ◌/◌, ◌%◌, ◌^◌, min, Bool, true, false, not, ◌&&◌, ltb, leb, ◌==◌,
  if◌then◌else◌, Option, none, some, List, [], ◌∷◌, ◌++◌,
}

abbrev pub bufsize : ℕ
bufsize = 16

-- Subtraction on 64 bits.
unfoldable pub sub_word : ℕ → ℕ → ℕ
sub_word a b = (a + 2 ^ 64 - b) % 2 ^ 64

-- Signed integers in their order, from 0 on.
unfoldable pub rank : ℕ → ℕ
rank a = (a + 2 ^ 63) % 2 ^ 64

unfoldable pub less : ℕ → ℕ → Bool
unfolding rank
less a b = ltb (rank a) (rank b)

-- The negative number of an absolute value.
abbrev pub negative : ℕ → ℕ
negative n = 2 ^ 64 - n

-- `std::numeric_limits<int64_t>::max()`
abbrev pub int64_max : ℕ
int64_max = 2 ^ 63 - 1

abbrev pub Buffer : Type 0
Buffer = ℕ → ℕ

abbrev pub store : ℕ → ℕ → Buffer → Buffer
store i value buffer k = if k == i then value else buffer k

-- What a round reads: the counter before the increment, the time stamps before and after it, the
-- other thread's time stamp for the increment before, and the time stamp behind that.
pub record Reading : Type 0 where
  pub index : ℕ
  pub tsc1 : ℕ
  pub tsc2 : ℕ
  pub other_tsc : ℕ
  pub tsc3 : ℕ

-- The variables of the loop; `added` is what `fc` was given.
pub record Loop : Type 0 where
  pub my_tsc_buffer : Buffer
  pub my_diff_buffer : Buffer
  pub added : List ℕ
  pub count : ℕ

-- `init`
abbrev pub init : Loop
init = record { my_tsc_buffer = λ i. 0; my_diff_buffer = λ i. int64_max; added = []; count = 0 }

abbrev pub other_index : Reading → ℕ
other_index r = (r.index + (2 ^ 16 - 1)) % 2 ^ 16 % bufsize

abbrev pub delta_2_1 : Reading → ℕ
delta_2_1 r = sub_word r.tsc2 r.tsc1

abbrev pub delta_3_1 : Reading → ℕ
delta_3_1 r = sub_word r.tsc3 r.tsc1

abbrev pub diff : Reading → ℕ
diff r = sub_word r.tsc2 r.other_tsc

-- `delta_3_1_min * bufsize / 2` is 1600.
unfoldable pub is_quick : Reading → Bool
unfolding sub_word less
is_quick r = less (delta_2_1 r) 200 && less (delta_3_1 r) 1600

-- `fc.add(diff)`
unfoldable pub add_diff : Reading → Loop → Loop
unfolding sub_word less
add_diff r s =
    if delta_2_1 r == 34 && (not (less (diff r) (negative 50)) && not (less 50 (diff r)))
    then record s { added = s.added ++ (diff r ∷ []) }
    else s

-- A smaller difference than those before begins the count anew.
unfoldable pub lower_diff : Reading → Loop → Loop
unfolding sub_word less
lower_diff r s =
    if less (diff r) (s.my_diff_buffer (other_index r))
    then record s { my_diff_buffer = store (other_index r) (diff r) s.my_diff_buffer; count = 0 }
    else s

unfoldable pub compare_diff : Reading → Loop → Loop
unfolding add_diff lower_diff
compare_diff r s =
    if less (diff r) 40000
    then (if less (negative 300) (diff r) then lower_diff r (add_diff r s) else s)
    else s

abbrev pub count_on : Loop → Loop
count_on s = record s { count = s.count + 1 }

-- The body of the loop.
unfoldable pub round : Reading → Loop → Loop
unfolding is_quick compare_diff
round r s =
    let s' = record s { my_tsc_buffer = store (r.index % bufsize) r.tsc2 s.my_tsc_buffer } in
    if is_quick r then count_on (compare_diff r s') else s'

-- `while (count < 1000000)`, for any limit: the variables behind it and the readings that are left;
-- `none` says that it still runs behind the last reading.
unfoldable pub loop : ℕ → List Reading → Loop → Option (Loop × List Reading)
unfolding round
loop limit [] s = if ltb s.count limit then none else some (s, [])
loop limit (r ∷ readings) s = elim (ltb s.count limit) [
  | false ↦ some (s, r ∷ readings)
  | true ↦ loop limit readings (round r s)
]

-- The loop of `f`.
unfoldable pub f : List Reading → Option (Loop × List Reading)
unfolding loop
f readings = loop 1000000 readings init
