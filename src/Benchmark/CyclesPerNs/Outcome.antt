-- ===== src/Benchmark/CyclesPerNs/Outcome.antt =====
-- What the loop of `calibrate_cycles_per_ns` of src/benchmark.cxx comes to.
use mathlib.Core.List.{Memᴰ, append-nil}
use mathlib.Core.List.Memᴰ
use ai_statefultask_testsuit.Base.{
  ℕ, ◌*◌, ◌<◌, ◌≤◌, ◌≡◌, ◌⊎◌, refl, sym, ap, ◌∙◌, subst, inl, inr, true, false, ◌||◌, ◌==◌, none,
  some, List, [], ◌∷◌, ◌++◌, map, length, length-append, arith, Bool-cases,
}
use ai_statefultask_testsuit.Benchmark.{MinAvgMax}
use ai_statefultask_testsuit.Benchmark.CyclesPerNs.{
  Deltas, Search, Average, count_deltas, are_near, add_quotient, search, start, Timing, deltas_of,
  calibrate_cycles_per_ns,
}
use ai_statefultask_testsuit.Benchmark.CyclesPerNs.Targets.{IsCounted}
use ai_statefultask_testsuit.Benchmark.CyclesPerNs.Progress.{
  times, IsProgress, near-IsProgress, far-IsProgress, counts-IsProgress, count_deltas-cases,
  unset-after, next_after, next_before,
}

-- An index is out of range only for a delta that is not below the size. The loop runs on only with
-- fewer than `wanted` rounds near the targets; and otherwise it has `wanted` of them.
abbrev pub IsOutcome : ℕ → ℕ → ℕ → List Deltas → Average → Type 0
IsOutcome stable wanted size all Average.out_of_range =
    (d : Deltas) × Memᴰ d all × ((size ≤ d.delta1) ⊎ (size ≤ d.delta2))
IsOutcome stable wanted size all (Average.running s) =
    (before after : List Deltas) × (all ≡ before ++ after)
    × IsProgress stable size before after s
    × (length s.quotients < wanted)
IsOutcome stable wanted size all (Average.averaged quotients) =
    (before after rest : List Deltas) × (s : Search) × (all ≡ before ++ (after ++ rest))
    × IsProgress stable size before after s
    × (s.quotients ≡ quotients)
    × (length quotients ≡ wanted)

length_of_equal : (n wanted : ℕ) → (n == wanted) ≡ true → n ≡ wanted
length_of_equal n wanted e = ground arith

length_below :
    (quotients : List (ℕ × ℕ)) (q : ℕ × ℕ) (wanted : ℕ)
    → length quotients < wanted
    → (length (quotients ++ (q ∷ [])) == wanted) ≡ false
    → length (quotients ++ (q ∷ [])) < wanted
length_below quotients q wanted few more = let l = length-append quotients (q ∷ []) in ground arith

search-nil :
    (stable wanted size : ℕ) (s : Search) → search stable wanted size [] s ≡ Average.running s
unfolding search
search-nil stable wanted size s = refl

module _ (stable wanted size : ℕ) (d : Deltas) (ds : List Deltas) (s : Search) where
  search-enough :
      are_near d s ≡ true
      → (length (add_quotient d s).quotients == wanted) ≡ true
      → search stable wanted size (d ∷ ds) s ≡ Average.averaged (add_quotient d s).quotients
  unfolding search
  search-enough near enough = rw (search, near, enough) refl

  search-near :
      are_near d s ≡ true
      → (length (add_quotient d s).quotients == wanted) ≡ false
      → search stable wanted size (d ∷ ds) s ≡ search stable wanted size ds (add_quotient d s)
  unfolding search
  search-near near more = rw (search, near, more) refl

  search-far :
      are_near d s ≡ false
      → (s.target_delta1 == 0 || s.target_delta2 == 0) ≡ false
      → search stable wanted size (d ∷ ds) s ≡ search stable wanted size ds s
  unfolding search
  search-far far set = rw (search, far, set) refl

  search-out :
      are_near d s ≡ false
      → (s.target_delta1 == 0 || s.target_delta2 == 0) ≡ true
      → count_deltas stable size d s ≡ none
      → search stable wanted size (d ∷ ds) s ≡ Average.out_of_range
  unfolding search
  search-out far unset out = rw (search, far, unset, out) refl

  search-next :
      {s' : Search}
      → are_near d s ≡ false
      → (s.target_delta1 == 0 || s.target_delta2 == 0) ≡ true
      → count_deltas stable size d s ≡ some s'
      → search stable wanted size (d ∷ ds) s ≡ search stable wanted size ds s'
  unfolding search
  search-next far unset next = rw (search, far, unset, next) refl

module _ (stable wanted size : ℕ) (all : List Deltas) where
  abbrev IsThis : Average → Type 0
  IsThis outcome = IsOutcome stable wanted size all outcome

  search-IsOutcome :
      (before after ds : List Deltas) (s : Search)
      → all ≡ before ++ (after ++ ds)
      → IsProgress stable size before after s
      → length s.quotients < wanted
      → IsThis (search stable wanted size ds s)
  search-IsOutcome before after [] s split p few =
      subst IsThis (sym (search-nil stable wanted size s))
        (before, after, split ∙ ap (λ l. before ++ l) (append-nil after), p, few)
  search-IsOutcome before after (d ∷ ds) s split p few = elim (Bool-cases (are_near d s)) [
    | inl near ↦
        let p' = near-IsProgress stable size before after d s near p in
        let split' = next_after all before after d ds split in
        elim (Bool-cases (length (add_quotient d s).quotients == wanted)) [
          | inl enough ↦ subst IsThis (sym (search-enough stable wanted size d ds s near enough)) (
            before,
            after ++ (d ∷ []),
            ds,
            add_quotient d s,
            split',
            p',
            refl,
            length_of_equal _ wanted enough,
          )
          | inr more ↦ subst IsThis (sym (search-near stable wanted size d ds s near more)) (
              search-IsOutcome before (after ++ (d ∷ [])) ds (add_quotient d s) split' p'
                (length_below s.quotients (d.delta3, d.clocks) wanted few more))
        ]
    | inr far ↦ elim (Bool-cases (s.target_delta1 == 0 || s.target_delta2 == 0)) [
      | inr set ↦ subst IsThis (sym (search-far stable wanted size d ds s far set)) (
          search-IsOutcome before (after ++ (d ∷ [])) ds s (next_after all before after d ds split)
            (far-IsProgress stable size before after d s far set p) few)
      | inl unset ↦
          let e = unset-after stable size before after s unset p in
          let split' : all ≡ before ++ (d ∷ ds) = split ∙ ap (λ l. before ++ (l ++ (d ∷ ds))) e in
          let p' = subst (λ l. IsProgress stable size before l s) e p in
          elim (count_deltas-cases stable size d s) [
            | inl (out, large) ↦
                subst IsThis (sym (search-out stable wanted size d ds s far unset out)) (
                  d,
                  subst (λ l. Memᴰ d l) (sym split') (Memᴰ.append_right before (Memᴰ.head refl)),
                  large,
                )
            | inr (c1, c2, e1, e2, some_next) ↦
                subst IsThis (sym (search-next stable wanted size d ds s far unset some_next)) (
                  search-IsOutcome (before ++ (d ∷ [])) [] ds _ (next_before all before d ds split')
                    (counts-IsProgress stable size before d s c1 c2 e1 e2 p') few)
          ]
    ]
  ]

start-IsCounted :
    (stable size : ℕ) (key : Deltas → ℕ)
    → 0 < stable
    → IsCounted stable size (times key []) (λ i. 0) 0
start-IsCounted stable size key pos = record {
  exact = λ k lt. refl;
  often = inl refl;
  rare = λ none_zero unset k ne lt. pos;
}

-- If `calibrate_cycles_per_ns` comes to the average, it is of exactly 20 quotients: those of the rounds
-- whose deltas are within 1 of the two targets, since both were set; and each target is a delta that
-- at least 10 rounds before had. If the loop still runs, fewer than 20 such rounds were read since; or
-- a target is 0, and then, unless a delta of 0 was read, no delta below `2 * m_delta` but 0 was read 10
-- times. An index is out of range only for a delta of `2 * m_delta` or more.
pub calibrate_cycles_per_ns-IsOutcome :
    (M : MinAvgMax) (m_delta : ℕ) (rounds : List (List Timing))
    → IsOutcome 10 20
        (2 * m_delta)
        (map (deltas_of M) rounds)
        (calibrate_cycles_per_ns M m_delta rounds)
unfolding calibrate_cycles_per_ns
calibrate_cycles_per_ns-IsOutcome M m_delta rounds =
    let ds = map (deltas_of M) rounds in
    search-IsOutcome 10 20 (2 * m_delta) ds [] [] ds start refl
      (record {
        counted1 = start-IsCounted 10 (2 * m_delta) (λ d. d.delta1) (omega arith);
        counted2 = start-IsCounted 10 (2 * m_delta) (λ d. d.delta2) (omega arith);
        chosen = refl;
        settled = inr refl;
      })
      (omega arith)
