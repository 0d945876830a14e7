-- ===== src/Examples/OfBenchmark.antt =====
-- src/benchmark.cxx with a `MinAvgMax` that keeps the two values.
use ai_statefultask_testsuit.Base.{
  arith, ℕ, zero, suc, ◌-◌, ◌<◌, ◌≢◌, ◌*◌, ◌^◌, length, ◌≤◌, ◌≡◌, refl, true, ltb, if◌then◌else◌,
  Option, none, some, List, [], ◌∷◌, ◌++◌, map, is_some,
}
use ai_statefultask_testsuit.Benchmark.{MinAvgMax, KeepsExtremes}
use ai_statefultask_testsuit.Benchmark.Delta.{
  Measurement, Data, Histogram, histogram, data_of, calibrate_delta, samples, attempt, extremes,
  count_bins, count_bin, count_point,
}
use ai_statefultask_testsuit.Benchmark.Delta.Counting.{occurrences}
use ai_statefultask_testsuit.Benchmark.Delta.Lowest.{IsLastLowest, data_of-lowest}
use ai_statefultask_testsuit.Benchmark.CyclesPerNs.{
  Timing, Average, search, deltas_of, timings, is_near, count_delta, count_deltas, is_int_below,
  calibrate_cycles_per_ns,
}
use ai_statefultask_testsuit.Benchmark.CyclesPerNs.Outcome.{
  IsOutcome, calibrate_cycles_per_ns-IsOutcome,
}
use ai_statefultask_testsuit.Benchmark.Delta.Mode.{histogram-mode}
use ai_statefultask_testsuit.Benchmark.Delta.Agrees.{
  Supports, calibrate_delta-Supports, calibrate_delta-same,
}
use ai_statefultask_testsuit.Benchmark.NowOffset.{Round, Measured, measure, calibrate_now_offset}
use ai_statefultask_testsuit.Benchmark.NowOffset.Peak.{
  IsMeasured, below, measure-ends, measure-zero,
}

abbrev two_values : ℕ → Option (ℕ × ℕ) → Option (ℕ × ℕ)
two_values x none = some (x, x)
two_values x (some (a, b)) = some (if ltb x a then x else a, if ltb b x then x else b)

abbrev min_of : Option (ℕ × ℕ) → ℕ
min_of none = 0
min_of (some (a, b)) = a

abbrev max_of : Option (ℕ × ℕ) → ℕ
max_of none = 0
max_of (some (a, b)) = b

abbrev values : MinAvgMax
values = record {
  Values = Option (ℕ × ℕ);
  no_values = none;
  data_point = two_values;
  min = min_of;
  max = max_of;
}

min_next_of_two :
    (x y : ℕ) (v : Option (ℕ × ℕ))
    → min_of (two_values y (two_values x v))
      ≡ (if ltb y (min_of (two_values x v)) then y else min_of (two_values x v))
min_next_of_two x y none = refl
min_next_of_two x y (some (a, b)) = refl

max_next_of_two :
    (x y : ℕ) (v : Option (ℕ × ℕ))
    → max_of (two_values y (two_values x v))
      ≡ (if ltb (max_of (two_values x v)) y then y else max_of (two_values x v))
max_next_of_two x y none = refl
max_next_of_two x y (some (a, b)) = refl

abbrev values_keep : KeepsExtremes values
values_keep = record {
  min_one = λ x. refl;
  max_one = λ x. refl;
  min_next = min_next_of_two;
  max_next = max_next_of_two;
}

-- Three measurements, two of them of 14 nanoseconds.
abbrev fast : Measurement
fast = record { ns = 14; cycles1 = 51; cycles2 = 51 }

abbrev slow : Measurement
slow = record { ns = 16; cycles1 = 60; cycles2 = 58 }

abbrev again : Measurement
again = record { ns = 14; cycles1 = 52; cycles2 = 52 }

data_of-lowest_example :
    IsLastLowest (fast ∷ slow ∷ again ∷ []) (data_of values (fast ∷ slow ∷ again ∷ []))
data_of-lowest_example = data_of-lowest values values_keep fast (slow ∷ again ∷ [])

abbrev points : List Data
points =
    record { min = 14; delta1 = 51; delta2 = 51 }
    ∷ record { min = 16; delta1 = 52; delta2 = 50 }
    ∷ record { min = 14; delta1 = 52; delta2 = 51 }
    ∷ []

histogram-mode_example :
    (h : Histogram) × (histogram values (λ d. d.delta1) (λ d. d.delta1) points ≡ some h)
    × (h.max_count ≡ occurrences (λ d. d.delta1) h.best points)
    × ((k : ℕ) → occurrences (λ d. d.delta1) k points ≤ h.max_count)
histogram-mode_example = histogram-mode values values_keep (λ d. d.delta1) points

-- `delta2` is 50, 50 and 51, but `delta1` is compared: the last one is the best.
abbrev misled : List Data
misled =
    record { min = 14; delta1 = 50; delta2 = 50 }
    ∷ record { min = 14; delta1 = 51; delta2 = 50 }
    ∷ record { min = 14; delta1 = 50; delta2 = 51 }
    ∷ []

best_is_not_mode :
    (h : Histogram) × (histogram values (λ d. d.delta2) (λ d. d.delta1) misled ≡ some h)
    × (h.best ≡ 51)
unfolding histogram extremes count_bins count_bin count_point
best_is_not_mode = (_, refl, refl)

-- The first round has two points that differ, the second one two that are the same.
abbrev rounds : List (List (List Measurement))
rounds = ((slow ∷ []) ∷ (fast ∷ []) ∷ []) ∷ ((again ∷ slow ∷ []) ∷ (again ∷ []) ∷ []) ∷ []

settled : calibrate_delta values 2 2 rounds ≡ some 52
unfolding calibrate_delta attempt data_of samples histogram extremes count_bins count_bin
    count_point
settled = refl

calibrate_delta-Supports_example :
    (before : List (List (List Measurement))) × (round : List (List Measurement)) × (after : List
      (List (List Measurement)))
    × (rounds ≡ before ++ (round ∷ after))
    × Supports values values_keep 2 2 (map (data_of values) round) 52
calibrate_delta-Supports_example = calibrate_delta-Supports values values_keep 2 2 52 rounds settled

abbrev same_round : List (List Measurement)
same_round = (again ∷ slow ∷ []) ∷ (again ∷ []) ∷ []

calibrate_delta-same_example : is_some (calibrate_delta values 2 2 (same_round ∷ [])) ≡ true
unfolding data_of samples
calibrate_delta-same_example =
    calibrate_delta-same values values_keep 2 2 52 same_round [] (refl, (refl, tt)) (omega arith)
      (omega arith)

-- Seven readings for a `stop_count` of 3 and two counts, one of them out of range.
abbrev readings : List ℕ
readings = 1 ∷ 0 ∷ 9 ∷ 1 ∷ 0 ∷ 1 ∷ 0 ∷ []

measure-ends_example :
    let m = measure 3 2 readings (λ i. 0) 0 0 in
    IsMeasured 3 2 readings (λ i. 0) 0 0 m
    × (2 * (3 - 1) < below 2 readings → m ≢ Measured.running)
    × (2 * (3 - 1) < 2 ^ 31 → m ≢ Measured.overflow)
measure-ends_example = measure-ends 3 2 readings (omega arith)

-- Two rounds until the peak stays, with an average of 3 / 2; but a peak of 0 leaves no counts.
settles :
    (r : Round) × (calibrate_now_offset 2 5 1 (2 ∷ 2 ∷ 2 ∷ 1 ∷ 2 ∷ []) ≡ Measured.ended r)
    × (r.sum ≡ 3)
unfolding calibrate_now_offset measure
settles = (_, refl, refl)

hangs : (more : List ℕ) → calibrate_now_offset 2 5 1 (0 ∷ 0 ∷ more) ≡ Measured.running
unfolding calibrate_now_offset measure
hangs more = rw (calibrate_now_offset, measure-zero 2 more (λ i. 0) 0 0) refl

-- A round with one measurement.
abbrev timed : ℕ → ℕ → List Timing
timed cycles1 cycles2 =
    record { ns = 500; cycles1 = cycles1; cycles2 = cycles2; stop1 = 1000; stop2 = 2800 } ∷ []

abbrev repeated : ℕ → List Timing → List (List Timing) → List (List Timing)
repeated zero ts later = later
repeated (suc n) ts later = ts ∷ repeated n ts later

-- Ten rounds for the targets, one that is not near them, and twenty that are.
abbrev timed_rounds : List (List Timing)
timed_rounds = repeated 10 (timed 40 41) (timed 50 41 ∷ repeated 20 (timed 41 40) [])

calibrate_cycles_per_ns-IsOutcome_example :
    IsOutcome 10 20
      (2 * 60)
      (map (deltas_of values) timed_rounds)
      (calibrate_cycles_per_ns values 60 timed_rounds)
calibrate_cycles_per_ns-IsOutcome_example = calibrate_cycles_per_ns-IsOutcome values 60 timed_rounds

abbrev averaged_length : Average → ℕ
averaged_length (Average.averaged quotients) = length quotients
averaged_length other = 0

twenty : averaged_length (calibrate_cycles_per_ns values 60 timed_rounds) ≡ 20
unfolding calibrate_cycles_per_ns search deltas_of timings is_near count_deltas count_delta
    is_int_below
twenty = refl

-- A delta of 2 to the power 31 is negative as an `int`, and an index out of range.
too_large : calibrate_cycles_per_ns values 60 (timed (2 ^ 31) 41 ∷ []) ≡ Average.out_of_range
unfolding calibrate_cycles_per_ns search deltas_of timings is_near count_deltas count_delta
    is_int_below
too_large = refl
