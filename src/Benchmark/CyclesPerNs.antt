-- ===== src/Benchmark/CyclesPerNs.antt =====
-- `Benchmark::calibrate_cycles_per_ns` of src/benchmark.cxx. The nanoseconds between two readings are
-- whole numbers, taken before `m_now_offset` is subtracted from all of them. The average of the
-- quotients is left out: the result is what `mma_delta` was given.
pub mod Targets
pub mod Progress
pub mod Outcome
use ai_statefultask_testsuit.Base.{
  ℕ, zero, suc, ◌+◌, ◌-◌, ◌*◌, ◌%◌, ◌^◌, Bool, true, false, ◌&&◌, ◌||◌, ltb, leb, ◌==◌,
  if◌then◌else◌, Option, none, some, List, [], ◌∷◌, ◌++◌, map, length,
}
use ai_statefultask_testsuit.Benchmark.{MinAvgMax, Counts, count_one}

-- One of the `mma_count` measurements: the nanoseconds, the `diff_cycles()` of the two stopwatches
-- and their `stop_cycles()`.
pub record Timing : Type 0 where
  pub ns : ℕ
  pub cycles1 : ℕ
  pub cycles2 : ℕ
  pub stop1 : ℕ
  pub stop2 : ℕ

-- The variables that such a measurement sets.
pub record Deltas : Type 0 where
  pub clocks : ℕ
  pub delta1 : ℕ
  pub delta2 : ℕ
  pub delta3 : ℕ

-- The variables of the outer loop; `quotients` has the `delta3` and `clocks` that were divided.
pub record Search : Type 0 where
  pub delta1_count : Counts
  pub delta2_count : Counts
  pub target_delta1 : ℕ
  pub target_delta2 : ℕ
  pub quotients : List (ℕ × ℕ)

abbrev pub start : Search
start = record {
  delta1_count = λ i. 0;
  delta2_count = λ i. 0;
  target_delta1 = 0;
  target_delta2 = 0;
  quotients = [];
}

-- `target - 1 <= delta && delta <= target + 1` on 64 bits
unfoldable pub is_near : ℕ → ℕ → Bool
is_near target delta =
    leb ((target + (2 ^ 64 - 1)) % 2 ^ 64) delta && leb delta ((target + 1) % 2 ^ 64)

-- `(int)delta < bound`
unfoldable pub is_int_below : ℕ → ℕ → Bool
is_int_below bound delta = leb (2 ^ 31) (delta % 2 ^ 32) || ltb (delta % 2 ^ 32) bound

-- One of the two tests that count a delta, with `stable` for 10 and the size of the vector. `none` is
-- an index out of range.
unfoldable pub count_delta : ℕ → ℕ → ℕ → Counts × ℕ → Option (Counts × ℕ)
unfolding is_int_below
count_delta stable size delta (count, target) =
    if is_int_below size delta
    then (if ltb delta size
        then some (
          count_one delta count,
          (if count_one delta count delta == stable then delta else target),
        )
        else none)
    else some (count, target)

unfoldable pub count_deltas : ℕ → ℕ → Deltas → Search → Option Search
unfolding count_delta
count_deltas stable size d s =
    elim (count_delta stable size d.delta1 (s.delta1_count, s.target_delta1)) [
      | none ↦ none
      | some (count1, target1) ↦
          elim (count_delta stable size d.delta2 (s.delta2_count, s.target_delta2)) [
            | none ↦ none
            | some (count2, target2) ↦ some (record {
              delta1_count = count1;
              delta2_count = count2;
              target_delta1 = target1;
              target_delta2 = target2;
              quotients = s.quotients;
            })
          ]
    ]

abbrev pub are_near : Deltas → Search → Bool
are_near d s = is_near s.target_delta1 d.delta1 && is_near s.target_delta2 d.delta2

abbrev pub add_quotient : Deltas → Search → Search
add_quotient d s = record s { quotients = s.quotients ++ ((d.delta3, d.clocks) ∷ []) }

-- What the loop comes to: an index out of range, a loop that still runs behind the last round, or the
-- quotients that are averaged.
pub data Average : Type 0 where
  out_of_range : Average
  running : Search → Average
  averaged : List (ℕ × ℕ) → Average

-- `while (1)`, by what the rounds measure, with `wanted` for 20.
unfoldable pub search : ℕ → ℕ → ℕ → List Deltas → Search → Average
unfolding is_near count_deltas
search stable wanted size [] s = Average.running s
search stable wanted size (d ∷ ds) s = elim (are_near d s) [
  | true ↦ elim (length (add_quotient d s).quotients == wanted) [
    | true ↦ Average.averaged (add_quotient d s).quotients
    | false ↦ search stable wanted size ds (add_quotient d s)
  ]
  | false ↦ elim (s.target_delta1 == 0 || s.target_delta2 == 0) [
    | true ↦ elim (count_deltas stable size d s) [
      | none ↦ Average.out_of_range
      | some s' ↦ search stable wanted size ds s'
    ]
    | false ↦ search stable wanted size ds s
  ]
]

module _ (M : MinAvgMax) where
  open M use {Values, no_values, data_point}

  abbrev timing : Timing → Values × Deltas → Values × Deltas
  timing t (mma, d) =
      let mma' = data_point t.ns mma in
      if t.ns == M.min mma'
      then (
        mma',
        record {
          clocks = t.ns;
          delta1 = t.cycles1;
          delta2 = t.cycles2;
          delta3 = (t.stop2 + 2 ^ 64 - t.stop1) % 2 ^ 64;
        },
      )
      else (mma', d)

  unfoldable pub timings : List Timing → Values × Deltas → Values × Deltas
  timings [] v = v
  timings (t ∷ ts) v = timings ts (timing t v)

  -- The loop over the measurements of a round.
  unfoldable pub deltas_of : List Timing → Deltas
  unfolding timings
  deltas_of ts =
      (timings ts (no_values, record { clocks = 0; delta1 = 0; delta2 = 0; delta3 = 0 })).1

  -- The quotients that are averaged, for an `m_delta`.
  unfoldable pub calibrate_cycles_per_ns : ℕ → List (List Timing) → Average
  unfolding search deltas_of
  calibrate_cycles_per_ns m_delta rounds = search 10 20 (2 * m_delta) (map deltas_of rounds) start
