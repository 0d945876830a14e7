-- ===== src/Benchmark/CyclesPerNs/Targets.antt =====
-- What a round of `calibrate_cycles_per_ns` of src/benchmark.cxx does to the targets.
use ai_statefultask_testsuit.Base.{
  ℕ, ◌+◌, ◌<◌, ◌≤◌, ◌≡◌, ◌≢◌, ◌⊎◌, inl, inr, Bool, true, ◌==◌, if◌then◌else◌, none, some, arith,
}
use ai_statefultask_testsuit.Benchmark.{Counts, count_one}
use ai_statefultask_testsuit.Benchmark.CyclesPerNs.{is_near, is_int_below, count_delta}

-- Nothing is near a target that is not set.
pub is_near-nonzero : (target delta : ℕ) → is_near target delta ≡ true → target ≢ 0
unfolding is_near
is_near-nonzero target delta near zero_target = ground arith

abbrev pub one_if : Bool → ℕ
one_if b = if b then 1 else 0

-- The counts and the target of a delta, where `times` says how often each value was read: those below
-- `size` are counted, and the target is one that was read often enough. As long as 0 was not read, it
-- is only 0 while no value has been.
pub record IsCounted (stable size : ℕ) (times : ℕ → ℕ) (count : Counts) (target : ℕ) : Type 0 where
  pub exact : (k : ℕ) → k < size → count k ≡ times k
  pub often : (target ≡ 0) ⊎ ((target < size) × (stable ≤ times target))
  pub rare : times 0 ≡ 0 → target ≡ 0 → (k : ℕ) → k ≢ 0 → k < size → times k < stable

count_delta-cases :
    (stable size delta : ℕ) (count count' : Counts) (target target' : ℕ)
    → count_delta stable size delta (count, target) ≡ some (count', target')
    → ((size ≤ delta) × (count' ≡ count) × (target' ≡ target))
      ⊎ ((delta < size)
          × (count' ≡ count_one delta count)
          × (target' ≡ (if count_one delta count delta == stable then delta else target)))
unfolding count_delta is_int_below
count_delta-cases stable size delta count count' target target' e = ground arith

-- A delta that is not counted.
skipped-IsCounted :
    (stable size delta : ℕ) (times : ℕ → ℕ) (count : Counts) (target : ℕ)
    → size ≤ delta
    → IsCounted stable size times count target
    → IsCounted stable size (λ k. times k + one_if (delta == k)) count target
skipped-IsCounted stable size delta times count target large p = record {
  exact = λ k lt. (let e = p.exact k lt in ground arith);
  often = (let o = p.often in ground arith);
  rare = λ none_zero unset k ne lt. (let r = p.rare (ground arith) unset k ne lt in ground arith);
}

count_one-IsCounted :
    (stable size delta : ℕ) (times : ℕ → ℕ) (count : Counts) (target : ℕ)
    → delta < size
    → IsCounted stable size times count target
    → IsCounted stable size
        (λ k. times k + one_if (delta == k))
        (count_one delta count)
        (if count_one delta count delta == stable then delta else target)
count_one-IsCounted stable size delta times count target small p = record {
  exact = λ k lt. (let e = p.exact k lt in ground arith);
  often = (let e = p.exact delta small in let o = p.often in ground arith);
  rare = λ none_zero unset k ne lt.
      (let e = p.exact delta small in
        let none_before : times 0 ≡ 0 = ground arith in
        let unset_before : target ≡ 0 = ground arith in
        let r = p.rare none_before unset_before k ne lt in ground arith);
}

pub count_delta-IsCounted :
    (stable size delta : ℕ) (times : ℕ → ℕ) (count count' : Counts) (target target' : ℕ)
    → IsCounted stable size times count target
    → count_delta stable size delta (count, target) ≡ some (count', target')
    → IsCounted stable size (λ k. times k + one_if (delta == k)) count' target'
count_delta-IsCounted stable size delta times count count' target target' p e =
    elim (count_delta-cases stable size delta count count' target target' e) [
      | inl (large, same, same_target) ↦
          rw (same, same_target) (skipped-IsCounted stable size delta times count target large p)
      | inr (small, one_more, next) ↦
          rw (one_more, next) (count_one-IsCounted stable size delta times count target small p)
    ]

pub count_delta-none :
    (stable size delta : ℕ) (c : Counts × ℕ) → count_delta stable size delta c ≡ none → size ≤ delta
unfolding count_delta
count_delta-none stable size delta (count, target) e = ground arith
