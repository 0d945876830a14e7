-- ===== src/Benchmark/Delta.antt =====
-- `Benchmark::calibrate_delta` of src/benchmark.cxx. The nanoseconds between two readings are whole
-- numbers, taken here before `int_now_offset` is subtracted: that shifts all of them by the same
-- whole number, which neither their order nor their distance `d.min - low` depends on.
pub mod Lowest
pub mod Counting
pub mod Extremes
pub mod Mode
pub mod Agrees
use ai_statefultask_testsuit.Base.{
  ℕ, zero, suc, ◌+◌, ◌-◌, ◌^◌, Bool, true, false, ◌&&◌, ◌||◌, not, ltb, ◌==◌, if◌then◌else◌, Option,
  none, some, List, [], ◌∷◌, map,
}
use ai_statefultask_testsuit.Benchmark.{MinAvgMax, Counts, count_one}

-- The result of one of the 20 measurements: the nanoseconds and the `diff_cycles()` of the two
-- stopwatches.
pub record Measurement : Type 0 where
  pub ns : ℕ
  pub cycles1 : ℕ
  pub cycles2 : ℕ

pub record Data : Type 0 where
  pub min : ℕ
  pub delta1 : ℕ
  pub delta2 : ℕ

-- The variables of a loop that counts.
pub record Histogram : Type 0 where
  pub count : Counts
  pub max_count : ℕ
  pub best : ℕ

abbrev pub no_counts : Histogram
no_counts = record { count = λ i. 0; max_count = 0; best = 0 }

-- A point of the loop for `c`, where `key` is the delta that is counted, and `tested` the one whose
-- count is compared with `max_count`. `none` is an index out of range.
unfoldable pub count_point :
    (Data → ℕ) → (Data → ℕ) → ℕ → ℕ → ℕ → Data → Histogram → Option Histogram
count_point key tested size low c d h =
    let bin = d.min - low in
    if bin == c && ltb (key d) 300
    then (if ltb (key d) size && ltb (tested d) size
        then (let count = count_one (key d) h.count in
            if ltb h.max_count (count (tested d))
            then some (record { count = count; max_count = count (key d); best = key d })
            else some (record h { count = count }))
        else none)
    else some h

-- `for (auto&& d : data)`
unfoldable pub count_bin :
    (Data → ℕ) → (Data → ℕ) → ℕ → ℕ → ℕ → List Data → Histogram → Option Histogram
unfolding count_point
count_bin key tested size low c [] h = some h
count_bin key tested size low c (d ∷ ds) h = elim (count_point key tested size low c d h) [
  | none ↦ none
  | some h' ↦ count_bin key tested size low c ds h'
]

-- `for (int c = 0; c < width; ++c)`, by the rounds that are left.
unfoldable pub count_bins :
    (Data → ℕ) → (Data → ℕ) → ℕ → ℕ → ℕ → ℕ → List Data → Histogram → Option Histogram
unfolding count_bin
count_bins key tested size low zero c ds h = some h
count_bins key tested size low (suc left) c ds h = elim (count_bin key tested size low c ds h) [
  | none ↦ none
  | some h' ↦ count_bins key tested size low left (c + 1) ds h'
]

-- What a round of the outer loop comes to: an index out of range, a retry or a delta.
pub data Calibration : Type 0 where
  out_of_range : Calibration
  retry : Calibration
  calibrated : ℕ → Calibration

module _ (M : MinAvgMax) where
  open M use {Values, no_values, data_point}

  -- The variables of the loop over `mma_count` measurements.
  pub record Sampled : Type 0 where
    pub mma : Values
    pub sampled1 : ℕ
    pub sampled2 : ℕ

  abbrev pub sample : Measurement → Sampled → Sampled
  sample m s =
      let mma = data_point m.ns s.mma in
      if m.ns == M.min mma
      then record { mma = mma; sampled1 = m.cycles1; sampled2 = m.cycles2 }
      else record s { mma = mma }

  unfoldable pub samples : List Measurement → Sampled → Sampled
  samples [] s = s
  samples (m ∷ ms) s = samples ms (sample m s)

  -- The data point that is stored for `mma_count` measurements.
  unfoldable pub data_of : List Measurement → Data
  unfolding samples
  data_of ms =
      let s = samples ms (record { mma = no_values; sampled1 = 0; sampled2 = 0 }) in
      record { min = M.min s.mma; delta1 = s.sampled1; delta2 = s.sampled2 }

  -- One of the `MinAvgMax` over the data.
  unfoldable pub extremes : (Data → ℕ) → List Data → Values → Values
  extremes key [] v = v
  extremes key (d ∷ ds) v = extremes key ds (data_point (key d) v)

  -- One of the two histograms. The deltas are below 2 to the power 31, so that they fit an `int`.
  unfoldable pub histogram : (Data → ℕ) → (Data → ℕ) → List Data → Option Histogram
  unfolding extremes count_bins
  histogram key tested points =
      let mma = extremes (λ (d : Data). d.min) points no_values in
      let low = M.min mma in
      let width = M.max mma - low + 1 in
      let size = M.max (extremes key points no_values) + 1 in
      count_bins key tested size low width 0 points no_counts

  -- The outer loop's body behind the measurements. The source has 40000 for `least1` and 30000 for
  -- `least2`.
  unfoldable pub attempt : ℕ → ℕ → List Data → Calibration
  unfolding histogram
  attempt least1 least2 points = elim (histogram (λ d. d.delta1) (λ d. d.delta1) points) [
    | none ↦ Calibration.out_of_range
    | some h₁ ↦
        if ltb h₁.max_count least1
        then Calibration.retry
        else elim (histogram (λ d. d.delta2) (λ d. d.delta1) points) [
          | none ↦ Calibration.out_of_range
          | some h₂ ↦
              if ltb h₂.max_count least2 || not (h₂.best == h₁.best)
              then Calibration.retry
              else Calibration.calibrated h₁.best
        ]
  ]

  -- `for (;;)` over the measurements of each round, with as many of them as there are; the result
  -- is `m_delta`.
  unfoldable pub calibrate_delta : ℕ → ℕ → List (List (List Measurement)) → Option ℕ
  unfolding attempt data_of
  calibrate_delta least1 least2 [] = none
  calibrate_delta least1 least2 (round ∷ rounds) =
      elim (attempt least1 least2 (map data_of round)) [
        | Calibration.out_of_range ↦ none
        | Calibration.retry ↦ calibrate_delta least1 least2 rounds
        | Calibration.calibrated delta ↦ some delta
      ]
