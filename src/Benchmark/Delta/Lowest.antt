-- ===== src/Benchmark/Delta/Lowest.antt =====
-- The data point that `calibrate_delta` of src/benchmark.cxx stores for 20 measurements.
use ai_statefultask_testsuit.Base.{
  ℕ, ◌<◌, ◌≤◌, ◌≡◌, refl, sym, ap, subst, ◌∙◌, inl, inr, true, false, ltb, leb, ◌==◌, if◌then◌else◌,
  List, [], ◌∷◌, ◌++◌, arith, All, leb→le, Bool-cases, List-cases,
}
use ai_statefultask_testsuit.Benchmark.{MinAvgMax, KeepsExtremes}
use ai_statefultask_testsuit.Benchmark.Delta.{Measurement, Data, Sampled, sample, samples, data_of}

abbrev data_at : Measurement → Data
data_at m = record { min = m.ns; delta1 = m.cycles1; delta2 = m.cycles2 }

-- The last of the lowest items of a list.
pub record IsLastLowest (ms : List Measurement) (d : Data) : Type 0 where
  pub before : List Measurement
  pub found : Measurement
  pub after : List Measurement
  pub split : ms ≡ before ++ (found ∷ after)
  pub is_found : d ≡ data_at found
  pub none_lower : All (λ m. found.ns ≤ m.ns) before
  pub later_higher : All (λ m. found.ns < m.ns) after

-- The list has a head that is not lower than what is found.
abbrev FromHead : Measurement → List Measurement → Data → Type 0
FromHead x ms d = IsLastLowest (x ∷ ms) d × (d.min ≤ x.ns)

-- A new head in front.
push_lower :
    (x y : Measurement) (ms : List Measurement) (d : Data)
    → y.ns ≤ x.ns
    → FromHead y ms d
    → FromHead x (y ∷ ms) d
push_lower x y ms d h (f, low) = (
  record {
    before = x ∷ f.before;
    found = f.found;
    after = f.after;
    split = ap (λ l. x ∷ l) f.split;
    is_found = f.is_found;
    none_lower = (
      let e : d.min ≡ f.found.ns = ap (λ (d : Data). d.min) f.is_found in omega arith,
      f.none_lower,
    );
    later_higher = f.later_higher;
  },
  omega arith,
)

-- A higher item behind the head.
push_higher :
    (x y : Measurement) (ms : List Measurement) (d : Data)
    → x.ns < y.ns
    → FromHead x ms d
    → FromHead x (y ∷ ms) d
push_higher x y ms d h (f, low) = elim (List-cases f.before) [
  | inl none ↦
      let e : x ∷ ms ≡ f.found ∷ f.after = f.split ∙ ap (λ l. l ++ (f.found ∷ f.after)) none in
      let same : f.found ≡ x = cc in
      let rest : f.after ≡ ms = cc in
      (
        record {
          before = [];
          found = x;
          after = y ∷ ms;
          split = refl;
          is_found = f.is_found ∙ ap data_at same;
          none_lower = tt;
          later_higher = (
            h,
            subst (λ n. All (λ (m : Measurement). n < m.ns) ms)
                (ap (λ (m : Measurement). m.ns) same)
                (subst (All (λ (m : Measurement). f.found.ns < m.ns)) rest f.later_higher),
          );
        },
        low,
      )
  | inr (b, bs, cons) ↦
      let e : x ∷ ms ≡ b ∷ (bs ++ (f.found ∷ f.after)) =
        f.split ∙ ap (λ l. l ++ (f.found ∷ f.after)) cons in
      let rest : ms ≡ bs ++ (f.found ∷ f.after) = cc in
      let lows : All (λ (m : Measurement). f.found.ns ≤ m.ns) (b ∷ bs) =
        subst (All (λ (m : Measurement). f.found.ns ≤ m.ns)) cons f.none_lower in
      let e' : d.min ≡ f.found.ns = ap (λ (d : Data). d.min) f.is_found in
      (
        record {
          before = x ∷ y ∷ bs;
          found = f.found;
          after = f.after;
          split = ap (λ l. x ∷ y ∷ l) rest;
          is_found = f.is_found;
          none_lower = (omega arith, (omega arith, lows.1));
          later_higher = f.later_higher;
        },
        low,
      )
]

module _ (M : MinAvgMax) (F : KeepsExtremes M) where
  -- The data point that is taken from the variables behind the loop.
  abbrev taken : Sampled M → Data
  taken s = record { min = M.min s.mma; delta1 = s.sampled1; delta2 = s.sampled2 }

  mma-sample : (y : Measurement) (s : Sampled M) → (sample M y s).mma ≡ M.data_point y.ns s.mma
  mma-sample y s = elim (Bool-cases (y.ns == M.min (M.data_point y.ns s.mma))) [
    | inl b ↦ rw b refl
    | inr b ↦ rw b refl
  ]

  -- The smallest value behind a measurement.
  min-sample :
      (x y : Measurement) (z : ℕ) (v : M.Values) (s : Sampled M)
      → s.mma ≡ M.data_point z v
      → taken s ≡ data_at x
      → M.min (M.data_point y.ns s.mma) ≡ (if ltb y.ns x.ns then y.ns else x.ns)
  min-sample x y z v s e t =
      let same : M.min s.mma ≡ x.ns = ap (λ (d : Data). d.min) t in
      let least = F.min_next z y.ns v in rw (sym same, e) least

  sample-lower :
      (x y : Measurement) (z : ℕ) (v : M.Values) (s : Sampled M)
      → s.mma ≡ M.data_point z v
      → taken s ≡ data_at x
      → y.ns ≤ x.ns
      → taken (sample M y s) ≡ data_at y
  sample-lower x y z v s e t h =
      let least : M.min (M.data_point y.ns s.mma) ≡ y.ns =
        min-sample x y z v s e t ∙ ground arith in
      let b : (y.ns == M.min (M.data_point y.ns s.mma)) ≡ true = ground arith in rw (b, least) refl

  sample-higher :
      (x y : Measurement) (z : ℕ) (v : M.Values) (s : Sampled M)
      → s.mma ≡ M.data_point z v
      → taken s ≡ data_at x
      → x.ns < y.ns
      → taken (sample M y s) ≡ data_at x
  sample-higher x y z v s e t h =
      let least : M.min (M.data_point y.ns s.mma) ≡ x.ns =
        min-sample x y z v s e t ∙ ground arith in
      let b : (y.ns == M.min (M.data_point y.ns s.mma)) ≡ false = ground arith in
      let delta1 : s.sampled1 ≡ x.cycles1 = ap (λ (d : Data). d.delta1) t in
      let delta2 : s.sampled2 ≡ x.cycles2 = ap (λ (d : Data). d.delta2) t in
      rw (b, least, delta1, delta2) refl

  samples-FromHead :
      (x : Measurement) (ms : List Measurement) (z : ℕ) (v : M.Values) (s : Sampled M)
      → s.mma ≡ M.data_point z v
      → taken s ≡ data_at x
      → FromHead x ms (taken (samples M ms s))
  unfolding samples
  samples-FromHead x [] z v s e t = (
    record {
      before = [];
      found = x;
      after = [];
      split = refl;
      is_found = t;
      none_lower = tt;
      later_higher = tt;
    },
    let e : M.min s.mma ≡ x.ns = ap (λ (d : Data). d.min) t in omega arith,
  )
  samples-FromHead x (y ∷ ms) z v s e t = elim (Bool-cases (leb y.ns x.ns)) [
    | inl lower ↦ push_lower x y ms (taken (samples M ms (sample M y s))) (leb→le y.ns x.ns lower) (
        samples-FromHead y ms y.ns s.mma (sample M y s) (mma-sample y s)
          (sample-lower x y z v s e t (ground arith)))
    | inr higher ↦ push_higher x y ms (taken (samples M ms (sample M y s))) (ground arith) (
        samples-FromHead x ms y.ns s.mma (sample M y s) (mma-sample y s)
          (sample-higher x y z v s e t (ground arith)))
  ]

  -- Of at least one measurement the data point is the last of those that took the fewest
  -- nanoseconds, with the cycles that the two stopwatches counted in that one.
  pub data_of-lowest :
      (m : Measurement) (ms : List Measurement) → IsLastLowest (m ∷ ms) (data_of M (m ∷ ms))
  unfolding data_of samples
  data_of-lowest m ms =
      let s : Sampled M = record { mma = M.no_values; sampled1 = 0; sampled2 = 0 } in
      let b : (m.ns == M.min (M.data_point m.ns M.no_values)) ≡ true =
        let least = F.min_one m.ns in ground arith in
      (samples-FromHead m ms m.ns M.no_values (sample M m s) (mma-sample m s)
        (rw (b, F.min_one m.ns) refl)).0
