-- ===== src/Benchmark/Delta/Mode.antt =====
-- The histogram of `delta1` in `calibrate_delta` of src/benchmark.cxx, whose loop compares the count
-- it has just increased.
use ai_statefultask_testsuit.Base.{
  ℕ, ◌≤◌, ◌≡◌, refl, subst, inl, inr, ltb, some, List, arith, Bool-cases, Option-cases,
}
use ai_statefultask_testsuit.Benchmark.{MinAvgMax, KeepsExtremes, count_one}
use ai_statefultask_testsuit.Benchmark.Delta.{Data, Histogram, no_counts, histogram}
use ai_statefultask_testsuit.Benchmark.Delta.Counting.{occurrences, counted, Adds}
use ai_statefultask_testsuit.Benchmark.Delta.Extremes.{histogram-Adds, histogram-some}

-- `max_count` is the count of `best`, and no count is larger.
record IsTallied (h : Histogram) : Type 0 where
  of_best : h.max_count ≡ h.count h.best
  largest : (k : ℕ) → h.count k ≤ h.max_count

no_counts-IsTallied : IsTallied no_counts
no_counts-IsTallied = record { of_best = refl; largest = λ k. omega arith }

counted-IsTallied : (key : ℕ) (h : Histogram) → IsTallied h → IsTallied (counted key key h)
counted-IsTallied key h t = elim (Bool-cases (ltb h.max_count (count_one key h.count key))) [
  | inl more ↦
      rw more (record { of_best = refl; largest = λ k. let b = t.largest k in ground arith })
  | inr less ↦ rw less (record {
    of_best = let b = t.of_best in let c = t.largest key in ground arith;
    largest = λ k. let b = t.largest k in ground arith;
  })
]

module _ (M : MinAvgMax) (F : KeepsExtremes M) where
  -- The histogram of a delta whose own counts are compared reads no index out of range. Its `best`
  -- is a delta that occurs most often, of those below 300 in all of the points, in whatever order
  -- they come, and `max_count` is how often.
  pub histogram-mode :
      (key : Data → ℕ) (ds : List Data)
      → (h : Histogram) × (histogram M key key ds ≡ some h)
        × (h.max_count ≡ occurrences key h.best ds)
        × ((k : ℕ) → occurrences key k ds ≤ h.max_count)
  histogram-mode key ds = elim (Option-cases (histogram M key key ds)) [
    | inl e ↦ absurd (let s = histogram-some M F key ds in cc)
    | inr (h, e) ↦
        let (t, counts) = subst (Adds IsTallied no_counts _) e (
          histogram-Adds M F key key IsTallied (λ d. counted-IsTallied (key d)) no_counts-IsTallied
            ds) in
        (h, e, omega (arith, t.of_best, counts h.best), λ k. omega (arith, t.largest k, counts k))
  ]
