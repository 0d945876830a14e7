-- ===== src/Benchmark/Delta/Extremes.antt =====
-- What the two passes over the data in `calibrate_delta` of src/benchmark.cxx come to: every point is
-- in one of the bins, and every delta is an index of its counts.
use ai_statefultask_testsuit.Base.{
  ℕ, ◌+◌, ◌-◌, ◌<◌, ◌≤◌, ◌≡◌, true, List, [], ◌∷◌, arith, All, is_some,
}
use ai_statefultask_testsuit.Benchmark.{MinAvgMax, KeepsExtremes}
use ai_statefultask_testsuit.Benchmark.Delta.{Data, Histogram, no_counts, extremes, histogram}
use ai_statefultask_testsuit.Benchmark.Delta.Counting.{
  occurrences, counted, Adds, Adds-congr, count_bins-Adds, count_bins-some, in_bins-occurrences,
}

module _ (M : MinAvgMax) (F : KeepsExtremes M) where
  abbrev Within : (Data → ℕ) → M.Values → Data → Type 0
  Within key v d = (M.min v ≤ key d) × (key d ≤ M.max v)

  extremes-Within :
      (key : Data → ℕ) (ds : List Data) (z : ℕ) (v : M.Values)
      → (M.min (extremes M key ds (M.data_point z v)) ≤ M.min (M.data_point z v))
        × (M.max (M.data_point z v) ≤ M.max (extremes M key ds (M.data_point z v)))
        × All (Within key (extremes M key ds (M.data_point z v))) ds
  unfolding extremes
  extremes-Within key [] z v = (omega arith, omega arith, tt)
  extremes-Within key (d ∷ ds) z v =
      let (low, high, all) = extremes-Within key ds (key d) (M.data_point z v) in
      let least = F.min_next z (key d) v in
      let greatest = F.max_next z (key d) v in
      (ground arith, ground arith, ((ground arith, ground arith), all))

  extremes-All :
      (key : Data → ℕ) (ds : List Data) → All (Within key (extremes M key ds M.no_values)) ds
  unfolding extremes
  extremes-All key [] = tt
  extremes-All key (d ∷ ds) =
      let (low, high, all) = extremes-Within key ds (key d) M.no_values in
      let least = F.min_one (key d) in
      let greatest = F.max_one (key d) in ((omega arith, omega arith), all)

  All-below :
      (key : Data → ℕ) (v : M.Values) (ds : List Data)
      → All (Within key v) ds
      → All (λ d. key d - M.min v < M.max v - M.min v + 1) ds
        × All (λ d. (key d < M.max v + 1) × (key d < M.max v + 1)) ds
  All-below key v [] h = (tt, tt)
  All-below key v (d ∷ ds) h =
      let (bins, sizes) = All-below key v ds h.1 in
      let here = h.0 in ((omega arith, bins), ((omega arith, omega arith), sizes))

  -- A histogram counts the deltas below 300 of all points, whichever bins they are in.
  pub histogram-Adds :
      (key tested : Data → ℕ) (P : Histogram → Type 0)
      → ((d : Data) (h : Histogram) → P h → P (counted (key d) (tested d) h))
      → P no_counts
      → (ds : List Data) → Adds P no_counts (λ k. occurrences key k ds) (histogram M key tested ds)
  unfolding histogram
  histogram-Adds key tested P keeps p ds =
      let mins = extremes M (λ d. d.min) ds M.no_values in
      let width = M.max mins - M.min mins + 1 in
      let size = M.max (extremes M key ds M.no_values) + 1 in
      let (bins, _) = All-below (λ d. d.min) mins ds (extremes-All (λ d. d.min) ds) in
      Adds-congr P no_counts _ _ (histogram M key tested ds)
        (λ k. in_bins-occurrences key k (M.min mins) width ds bins)
        (count_bins-Adds key tested P keeps size (M.min mins) width 0 ds no_counts p)

  pub histogram-some : (key : Data → ℕ) (ds : List Data) → is_some (histogram M key key ds) ≡ true
  unfolding histogram
  histogram-some key ds =
      let mins = extremes M (λ d. d.min) ds M.no_values in
      let deltas = extremes M key ds M.no_values in
      let (_, sizes) = All-below key deltas ds (extremes-All key ds) in
      count_bins-some key key (M.max deltas + 1) (M.min mins) (M.max mins - M.min mins + 1) 0 ds
        no_counts sizes
