-- ===== src/Benchmark/Delta/Agrees.antt =====
-- What stands behind the delta that `calibrate_delta` of src/benchmark.cxx settles on.
use ai_statefultask_testsuit.Base.{
  ℕ, zero, suc, ◌+◌, ◌≤◌, ◌≡◌, refl, ap, subst, ◌∙◌, ◌⊎◌, inl, inr, true, false, ltb, ◌==◌, some,
  List, [], ◌∷◌, ◌++◌, map, arith, All, Bool-cases, Option-cases, is_some,
}
use ai_statefultask_testsuit.Benchmark.{MinAvgMax, KeepsExtremes, count_one}
use ai_statefultask_testsuit.Benchmark.Delta.{
  Measurement, Data, Histogram, no_counts, histogram, data_of, attempt, calibrate_delta,
  Calibration, count_point, count_bin, count_bins, extremes,
}
use ai_statefultask_testsuit.Benchmark.Delta.Counting.{occurrences, counted, Adds}
use ai_statefultask_testsuit.Benchmark.Delta.Extremes.{histogram-Adds}
use ai_statefultask_testsuit.Benchmark.Delta.Mode.{histogram-mode}

-- `max_count` is at most the count of `best`.
abbrev IsBacked : Histogram → Type 0
IsBacked h = h.max_count ≤ h.count h.best

counted-IsBacked : (key tested : ℕ) (h : Histogram) → IsBacked h → IsBacked (counted key tested h)
counted-IsBacked key tested h b =
    elim (Bool-cases (ltb h.max_count (count_one key h.count tested))) [
      | inl more ↦ rw more (omega arith)
      | inr less ↦ rw less (ground arith)
    ]

Calibration-cases :
    (c : Calibration)
    → (c ≡ Calibration.out_of_range)
      ⊎ ((c ≡ Calibration.retry) ⊎ ((delta : ℕ) × (c ≡ Calibration.calibrated delta)))
Calibration-cases Calibration.out_of_range = inl refl
Calibration-cases Calibration.retry = inr (inl refl)
Calibration-cases (Calibration.calibrated delta) = inr (inr (delta, refl))

All-map :
    {A : Type 0} (f : A → Data) (xs : List A)
    → All (λ x. (f x).delta2 ≡ (f x).delta1) xs
    → All (λ d. d.delta2 ≡ d.delta1) (map f xs)
All-map f [] h = tt
All-map f (x ∷ xs) h = (h.0, All-map f xs h.1)

-- Where the deltas are the same, so are the histograms.
count_bin-same :
    (size low c : ℕ) (ds : List Data) (h : Histogram)
    → All (λ d. d.delta2 ≡ d.delta1) ds
    → count_bin (λ d. d.delta2) (λ d. d.delta1) size low c ds h
      ≡ count_bin (λ d. d.delta1) (λ d. d.delta1) size low c ds h
unfolding count_bin count_point
count_bin-same size low c [] h same = refl
count_bin-same size low c (d ∷ ds) h same =
    let point : count_point (λ d. d.delta2) (λ d. d.delta1) size low c d h
        ≡ count_point (λ d. d.delta1) (λ d. d.delta1) size low c d h =
      rw same.0 refl in
    elim (Option-cases (count_point (λ d. d.delta1) (λ d. d.delta1) size low c d h)) [
      | inl e ↦ rw (count_bin, point, e) refl
      | inr (h', e) ↦ rw (count_bin, point, e) (count_bin-same size low c ds h' same.1)
    ]

count_bins-same :
    (size low left c : ℕ) (ds : List Data) (h : Histogram)
    → All (λ d. d.delta2 ≡ d.delta1) ds
    → count_bins (λ d. d.delta2) (λ d. d.delta1) size low left c ds h
      ≡ count_bins (λ d. d.delta1) (λ d. d.delta1) size low left c ds h
unfolding count_bins
count_bins-same size low zero c ds h same = refl
count_bins-same size low (suc left) c ds h same =
    let bin = count_bin-same size low c ds h same in
    elim (Option-cases (count_bin (λ d. d.delta1) (λ d. d.delta1) size low c ds h)) [
      | inl e ↦ rw (count_bins, bin, e) refl
      | inr (h', e) ↦ rw (count_bins, bin, e) (count_bins-same size low left (c + 1) ds h' same)
    ]

extremes-same :
    (M : MinAvgMax) (ds : List Data) (v : M.Values)
    → All (λ d. d.delta2 ≡ d.delta1) ds
    → extremes M (λ d. d.delta2) ds v ≡ extremes M (λ d. d.delta1) ds v
unfolding extremes
extremes-same M [] v same = refl
extremes-same M (d ∷ ds) v same = rw same.0 (extremes-same M ds _ same.1)

histogram-same :
    (M : MinAvgMax) (ds : List Data)
    → All (λ d. d.delta2 ≡ d.delta1) ds
    → histogram M (λ d. d.delta2) (λ d. d.delta1) ds
      ≡ histogram M (λ d. d.delta1) (λ d. d.delta1) ds
unfolding histogram
histogram-same M ds same =
    rw (extremes-same M ds M.no_values same) (count_bins-same _ _ _ 0 ds no_counts same)

module _ (M : MinAvgMax) (F : KeepsExtremes M) where
  histogram-backed :
      (key tested : Data → ℕ) (ds : List Data) (h : Histogram)
      → histogram M key tested ds ≡ some h
      → h.max_count ≤ occurrences key h.best ds
  histogram-backed key tested ds h e =
      let (backed, counts) = subst (Adds IsBacked no_counts _) e (
        histogram-Adds M F key tested IsBacked (λ d. counted-IsBacked (key d) (tested d))
          (omega arith) ds) in
      omega (arith, counts h.best)

  -- What the points of a round say for a delta.
  abbrev pub Supports : ℕ → ℕ → List Data → ℕ → Type 0
  Supports least1 least2 ds delta =
      (least1 ≤ occurrences (λ d. d.delta1) delta ds)
      × (least2 ≤ occurrences (λ d. d.delta2) delta ds)
      × ((k : ℕ) → occurrences (λ d. d.delta1) k ds ≤ occurrences (λ d. d.delta1) delta ds)

  attempt-Supports :
      (least1 least2 : ℕ) (ds : List Data) (delta : ℕ)
      → attempt M least1 least2 ds ≡ Calibration.calibrated delta
      → Supports least1 least2 ds delta
  unfolding attempt
  attempt-Supports least1 least2 ds delta e =
      let (h₁, e₁, of_best, largest) = histogram-mode M F (λ d. d.delta1) ds in
      elim (Option-cases (histogram M (λ d. d.delta2) (λ d. d.delta1) ds)) [
        | inl e₂ ↦ absurd (ground arith)
        | inr (h₂, e₂) ↦
            let backed = histogram-backed (λ d. d.delta2) (λ d. d.delta1) ds h₂ e₂ in
            let enough : least1 ≤ h₁.max_count = ground arith in
            let enough₂ : least2 ≤ h₂.max_count = ground arith in
            let same : h₁.best ≡ delta = ground arith in
            let same₂ : h₂.best ≡ delta = ground arith in
            (
              subst (λ k. least1 ≤ occurrences (λ d. d.delta1) k ds) same (omega arith),
              subst (λ k. least2 ≤ occurrences (λ d. d.delta2) k ds) same₂ (omega arith),
              λ k.
                  subst (λ n. occurrences (λ d. d.delta1) k ds ≤ n)
                    (of_best ∙ ap (λ b. occurrences (λ d. d.delta1) b ds) same) (largest k),
            )
      ]

  -- If `calibrate_delta` sets `m_delta`, then to a delta that in one of its rounds occurs, among
  -- those below 300, at least `least1` times as `delta1` and as often as any other, and at least
  -- `least2` times as `delta2`.
  pub calibrate_delta-Supports :
      (least1 least2 delta : ℕ) (rounds : List (List (List Measurement)))
      → calibrate_delta M least1 least2 rounds ≡ some delta
      → (before : List (List (List Measurement))) × (round : List (List Measurement))
        × (after : List (List (List Measurement))) × (rounds ≡ before ++ (round ∷ after))
        × Supports least1 least2 (map (data_of M) round) delta
  unfolding calibrate_delta
  calibrate_delta-Supports least1 least2 delta [] e = absurd (ground arith)
  calibrate_delta-Supports least1 least2 delta (round ∷ rounds) e =
      elim (Calibration-cases (attempt M least1 least2 (map (data_of M) round))) [
        | inl stops ↦ absurd (ground (arith, stops))
        | inr (inl again) ↦
            let (before, found, after, split, supports) =
              calibrate_delta-Supports least1 least2 delta rounds
                (rw (calibrate_delta, again) at e) in
            (round ∷ before, found, after, ap (λ l. round ∷ l) split, supports)
        | inr (inr (delta', done)) ↦
            let same : delta' ≡ delta = ground (arith, done) in
            (
              [],
              round,
              rounds,
              refl,
              subst (Supports least1 least2 (map (data_of M) round)) same
                  (attempt-Supports least1 least2 (map (data_of M) round) delta' done),
            )
      ]

  -- A round in which the two deltas of each point are the same, and one of them is below 300 and
  -- occurs at least `least1` and `least2` times, sets `m_delta`.
  pub calibrate_delta-same :
      (least1 least2 k : ℕ) (round : List (List Measurement))
      (rounds : List (List (List Measurement)))
      → All (λ ms. (data_of M ms).delta2 ≡ (data_of M ms).delta1) round
      → least1 ≤ occurrences (λ d. d.delta1) k (map (data_of M) round)
      → least2 ≤ occurrences (λ d. d.delta1) k (map (data_of M) round)
      → is_some (calibrate_delta M least1 least2 (round ∷ rounds)) ≡ true
  unfolding calibrate_delta attempt
  calibrate_delta-same least1 least2 k round rounds same enough enough₂ =
      let ds = map (data_of M) round in
      let (h, e, of_best, largest) = histogram-mode M F (λ d. d.delta1) ds in
      let e₂ = histogram-same M ds (All-map (data_of M) round same) in
      let one : ltb h.max_count least1 ≡ false = let l = largest k in ground arith in
      let two : ltb h.max_count least2 ≡ false = let l = largest k in ground arith in
      let best : (h.best == h.best) ≡ true = ground arith in
      let done : attempt M least1 least2 ds ≡ Calibration.calibrated h.best =
        rw (attempt, e, one, e₂ ∙ e, two, best) refl in
      rw (calibrate_delta, done) refl
