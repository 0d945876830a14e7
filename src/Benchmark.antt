-- ===== src/Benchmark.antt =====
-- src/benchmark.cxx: the calibration of the class `Benchmark`. What the clock and the stopwatches
-- read comes in as lists of readings; the plots are left out.
pub mod Delta
pub mod NowOffset
pub mod CyclesPerNs
use ai_statefultask_testsuit.Base.{ℕ, ◌+◌, Bool, true, ◌≡◌, ltb, ◌==◌, if◌then◌else◌}

-- What the source uses of `eda::MinAvgMax` for whole numbers.
pub record MinAvgMax : Type 1 where
  pub Values : Type 0
  pub no_values : Values
  pub data_point : ℕ → Values → Values
  pub min : Values → ℕ
  pub max : Values → ℕ

-- Its documented behaviour: `min` is the smallest value so far, `max` the largest.
pub record KeepsExtremes (M : MinAvgMax) : Type 0 where
  pub min_one : (x : ℕ) → M.min (M.data_point x M.no_values) ≡ x
  pub max_one : (x : ℕ) → M.max (M.data_point x M.no_values) ≡ x
  pub min_next :
      (x y : ℕ) (v : M.Values)
      → M.min (M.data_point y (M.data_point x v))
        ≡ (if ltb y (M.min (M.data_point x v)) then y else M.min (M.data_point x v))
  pub max_next :
      (x y : ℕ) (v : M.Values)
      → M.max (M.data_point y (M.data_point x v))
        ≡ (if ltb (M.max (M.data_point x v)) y then y else M.max (M.data_point x v))

-- The items of a `std::vector<int>`.
abbrev pub Counts : Type 0
Counts = ℕ → ℕ

-- `++count[k]`
abbrev pub count_one : ℕ → Counts → Counts
count_one k count i = if i == k then count i + 1 else count i
