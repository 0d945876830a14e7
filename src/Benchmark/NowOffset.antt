-- ===== src/Benchmark/NowOffset.antt =====
-- `Benchmark::calibrate_now_offset` of src/benchmark.cxx: how many nanoseconds lie between two
-- readings of the clock. The readings come in as a list; an `unsigned int` has 32 bits. The average
-- is kept as its numerator and denominator.
pub mod Peak
use ai_statefultask_testsuit.Base.{
  ℕ, zero, suc, ◌+◌, ◌*◌, ◌%◌, ◌^◌, Bool, true, false, ltb, ◌==◌, if◌then◌else◌, Option, none, some,
  List, [], ◌∷◌,
}
use ai_statefultask_testsuit.Benchmark.{Counts, count_one}

-- What a round leaves: `peak_nsi`, `sum` and `cnt`, and the readings that come behind it.
pub record Round : Type 0 where
  pub peak_nsi : ℕ
  pub sum : ℕ
  pub cnt : ℕ
  pub rest : List ℕ

-- `4 * peak_nsi`
abbrev pub size_of : ℕ → ℕ
size_of peak_nsi = 4 * peak_nsi % 2 ^ 32

-- What the loop of a round comes to: it still runs behind the last reading; or the `int` `cnt`
-- overflows, which is undefined; or it ends.
pub data Measured : Type 0 where
  running : Measured
  overflow : Measured
  ended : Round → Measured

-- The loop `for (;;)` of a round with `size` counts. The sum is a number; as a `double` it is exact
-- below 2 to the power 53.
unfoldable pub measure : ℕ → ℕ → List ℕ → Counts → ℕ → ℕ → Measured
measure stop_count size [] d sum cnt = Measured.running
measure stop_count size (nsi ∷ readings) d sum cnt =
    let d' = count_one nsi d in
    elim (ltb nsi size) [
      | false ↦ measure stop_count size readings d sum cnt
      | true ↦ elim (d' nsi == stop_count) [
        | true ↦ Measured.ended (record { peak_nsi = nsi; sum = sum; cnt = cnt; rest = readings })
        | false ↦ elim (ltb (cnt + 1) (2 ^ 31)) [
          | false ↦ Measured.overflow
          | true ↦ measure stop_count size readings d' (sum + nsi) (cnt + 1)
        ]
      ]
    ]

-- `while (!done)`, with fuel for the rounds.
unfoldable pub calibrate_now_offset : ℕ → ℕ → ℕ → List ℕ → Measured
unfolding measure
calibrate_now_offset stop_count zero peak_nsi readings = Measured.running
calibrate_now_offset stop_count (suc fuel) peak_nsi readings =
    elim (measure stop_count (size_of peak_nsi) readings (λ i. 0) 0 0) [
      | Measured.running ↦ Measured.running
      | Measured.overflow ↦ Measured.overflow
      | Measured.ended round ↦ elim (peak_nsi == round.peak_nsi) [
        | true ↦ Measured.ended round
        | false ↦ calibrate_now_offset stop_count fuel round.peak_nsi round.rest
      ]
    ]
