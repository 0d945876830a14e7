-- ===== src/Benchmark/NowOffset/Peak.antt =====
-- What a round of `Benchmark::calibrate_now_offset` of src/benchmark.cxx finds, and when it ends.
use ai_statefultask_testsuit.Base.{
  ℕ, zero, suc, ◌+◌, ◌-◌, ◌*◌, ◌^◌, ◌<◌, ◌≤◌, ◌≡◌, ◌≢◌, refl, ap, subst, inl, inr, true, false, ltb,
  ◌==◌, if◌then◌else◌, List, [], ◌∷◌, ◌++◌, arith, Bool-cases,
}
use ai_statefultask_testsuit.Benchmark.{Counts, count_one}
use ai_statefultask_testsuit.Benchmark.NowOffset.{Round, Measured, measure}

-- How many of the readings are below `size`, their sum, and how often one occurs.
abbrev pub below : ℕ → List ℕ → ℕ
below size [] = 0
below size (x ∷ xs) = (if ltb x size then 1 else 0) + below size xs

abbrev pub sum_below : ℕ → List ℕ → ℕ
sum_below size [] = 0
sum_below size (x ∷ xs) = (if ltb x size then x else 0) + sum_below size xs

abbrev pub times : ℕ → List ℕ → ℕ
times k [] = 0
times k (x ∷ xs) = (if k == x then 1 else 0) + times k xs

-- The sum of the first counts.
abbrev total : ℕ → Counts → ℕ
total zero d = 0
total (suc n) d = d n + total n d

total-count_one :
    (n k : ℕ) (d : Counts) → total n (count_one k d) ≡ total n d + (if ltb k n then 1 else 0)
total-count_one zero k d = ground arith
total-count_one (suc n) k d = let rest = total-count_one n k d in ground arith

total-bound : (n top : ℕ) (d : Counts) → ((k : ℕ) → k < n → d k ≤ top) → total n d ≤ n * top
total-bound zero top d h = omega arith
total-bound (suc n) top d h =
    let rest = total-bound n top d (λ k lt. h k (omega arith)) in
    let here = h n (omega arith) in omega arith

-- The loop goes on from counts `d`, `sum` and `cnt` and ends behind `seen`.
pub record IsPeak (stop_count size : ℕ) (readings : List ℕ) (d : Counts) (sum cnt : ℕ) (r : Round)
    : Type 0 where
  pub seen : List ℕ
  pub split : readings ≡ seen ++ r.rest
  pub in_range : r.peak_nsi < size
  pub reached : d r.peak_nsi + times r.peak_nsi seen ≡ stop_count
  pub first : (k : ℕ) → k < size → k ≢ r.peak_nsi → d k + times k seen < stop_count
  pub all_summed : r.sum + r.peak_nsi ≡ sum + sum_below size seen
  pub all_counted : r.cnt + 1 ≡ cnt + below size seen

skip-IsPeak :
    (stop_count size nsi : ℕ) (readings : List ℕ) (d : Counts) (sum cnt : ℕ) (r : Round)
    → ltb nsi size ≡ false
    → IsPeak stop_count size readings d sum cnt r
    → IsPeak stop_count size (nsi ∷ readings) d sum cnt r
skip-IsPeak stop_count size nsi readings d sum cnt r out p = record {
  seen = nsi ∷ p.seen;
  split = ap (λ l. nsi ∷ l) p.split;
  in_range = p.in_range;
  reached = let i = p.in_range in let e = p.reached in ground arith;
  first = λ k lt ne. let e = p.first k lt ne in ground arith;
  all_summed = let e = p.all_summed in ground arith;
  all_counted = let e = p.all_counted in ground arith;
}

next-IsPeak :
    (stop_count size nsi : ℕ) (readings : List ℕ) (d : Counts) (sum cnt : ℕ) (r : Round)
    → ltb nsi size ≡ true
    → IsPeak stop_count size readings (count_one nsi d) (sum + nsi) (cnt + 1) r
    → IsPeak stop_count size (nsi ∷ readings) d sum cnt r
next-IsPeak stop_count size nsi readings d sum cnt r fits p = record {
  seen = nsi ∷ p.seen;
  split = ap (λ l. nsi ∷ l) p.split;
  in_range = p.in_range;
  reached = let e = p.reached in ground arith;
  first = λ k lt ne. let e = p.first k lt ne in ground arith;
  all_summed = let e = p.all_summed in ground arith;
  all_counted = let e = p.all_counted in ground arith;
}

-- The reading that ends the loop.
last-IsPeak :
    (stop_count size nsi : ℕ) (readings : List ℕ) (d : Counts) (sum cnt : ℕ)
    → ltb nsi size ≡ true
    → (count_one nsi d nsi == stop_count) ≡ true
    → ((k : ℕ) → k < size → d k < stop_count)
    → IsPeak stop_count size
        (nsi ∷ readings)
        d
        sum
        cnt
        (record { peak_nsi = nsi; sum = sum; cnt = cnt; rest = readings })
last-IsPeak stop_count size nsi readings d sum cnt fits ends low = record {
  seen = nsi ∷ [];
  split = refl;
  in_range = ground arith;
  reached = ground arith;
  first = λ k lt ne. let l = low k lt in ground arith;
  all_summed = ground arith;
  all_counted = ground arith;
}

total-zero : (n : ℕ) → total n (λ i. 0) ≡ 0
total-zero zero = refl
total-zero (suc n) = omega (arith, total-zero n)

-- What the loop comes to, from counts below `stop_count`.
abbrev pub IsMeasured : ℕ → ℕ → List ℕ → Counts → ℕ → ℕ → Measured → Type 0
IsMeasured stop_count size readings d sum cnt (Measured.ended r) =
    IsPeak stop_count size readings d sum cnt r × (r.cnt < 2 ^ 31)
IsMeasured stop_count size readings d sum cnt Measured.overflow =
    (seen : List ℕ) × (rest : List ℕ) × (readings ≡ seen ++ rest)
    × (cnt + below size seen ≡ 2 ^ 31)
    × ((k : ℕ) → k < size → d k + times k seen < stop_count)
IsMeasured stop_count size readings d sum cnt Measured.running =
    (cnt + below size readings < 2 ^ 31)
    × ((k : ℕ) → k < size → d k + times k readings < stop_count)

skip-IsMeasured :
    (stop_count size nsi : ℕ) (readings : List ℕ) (d : Counts) (sum cnt : ℕ) (m : Measured)
    → ltb nsi size ≡ false
    → IsMeasured stop_count size readings d sum cnt m
    → IsMeasured stop_count size (nsi ∷ readings) d sum cnt m
skip-IsMeasured stop_count size nsi readings d sum cnt (Measured.ended r) out (p, fits) =
    (skip-IsPeak stop_count size nsi readings d sum cnt r out p, fits)
skip-IsMeasured stop_count size nsi readings d sum cnt Measured.overflow out
      (seen, rest, split, many, low) =
    (
      nsi ∷ seen,
      rest,
      ap (λ l. nsi ∷ l) split,
      ground arith,
      λ k lt. let l = low k lt in ground arith,
    )
skip-IsMeasured stop_count size nsi readings d sum cnt Measured.running out (few, low) =
    (ground arith, λ k lt. let l = low k lt in ground arith)

next-IsMeasured :
    (stop_count size nsi : ℕ) (readings : List ℕ) (d : Counts) (sum cnt : ℕ) (m : Measured)
    → ltb nsi size ≡ true
    → IsMeasured stop_count size readings (count_one nsi d) (sum + nsi) (cnt + 1) m
    → IsMeasured stop_count size (nsi ∷ readings) d sum cnt m
next-IsMeasured stop_count size nsi readings d sum cnt (Measured.ended r) fits (p, small) =
    (next-IsPeak stop_count size nsi readings d sum cnt r fits p, small)
next-IsMeasured stop_count size nsi readings d sum cnt Measured.overflow fits
      (seen, rest, split, many, low) =
    (
      nsi ∷ seen,
      rest,
      ap (λ l. nsi ∷ l) split,
      ground arith,
      λ k lt. let l = low k lt in ground arith,
    )
next-IsMeasured stop_count size nsi readings d sum cnt Measured.running fits (few, low) =
    (ground arith, λ k lt. let l = low k lt in ground arith)

measure-IsMeasured :
    (stop_count size : ℕ) (readings : List ℕ) (d : Counts) (sum cnt : ℕ)
    → ((k : ℕ) → k < size → d k < stop_count)
    → cnt < 2 ^ 31
    → IsMeasured stop_count size readings d sum cnt (measure stop_count size readings d sum cnt)
unfolding measure
measure-IsMeasured stop_count size [] d sum cnt low few =
    (omega arith, λ k lt. let l = low k lt in omega arith)
measure-IsMeasured stop_count size (nsi ∷ readings) d sum cnt low few =
    elim (Bool-cases (ltb nsi size)) [
      | inr out ↦
          rw (measure, out)
            (skip-IsMeasured stop_count size nsi readings d sum cnt
              (measure stop_count size readings d sum cnt) out
              (measure-IsMeasured stop_count size readings d sum cnt low few))
      | inl fits ↦ elim (Bool-cases (count_one nsi d nsi == stop_count)) [
        | inl ends ↦
            rw (measure, fits, ends)
              (last-IsPeak stop_count size nsi readings d sum cnt fits ends low, few)
        | inr goes ↦
            let low' : (k : ℕ) → k < size → count_one nsi d k < stop_count =
              λ k lt. let l = low k lt in ground arith in
            elim (Bool-cases (ltb (cnt + 1) (2 ^ 31))) [
              | inr over ↦
                  rw (measure, fits, goes, over)
                    (
                      nsi ∷ [],
                      readings,
                      refl,
                      ground arith,
                      λ k lt. let l = low' k lt in ground arith,
                    )
              | inl room ↦
                  rw (measure, fits, goes, room)
                    (next-IsMeasured stop_count size nsi readings d sum cnt
                      (measure stop_count size readings (count_one nsi d) (sum + nsi) (cnt + 1))
                      fits
                      (measure-IsMeasured stop_count size readings (count_one nsi d) (sum + nsi)
                        (cnt + 1) low' (ground arith)))
            ]
      ]
    ]

total-same : (n : ℕ) (d d' : Counts) → ((k : ℕ) → d k ≡ d' k) → total n d ≡ total n d'
total-same zero d d' same = refl
total-same (suc n) d d' same = let here = same n in let rest = total-same n d d' same in omega arith

total-times : (n : ℕ) (readings : List ℕ) → total n (λ k. times k readings) ≡ below n readings
total-times n [] = total-zero n
total-times n (x ∷ xs) =
    let one =
      total-same n (λ k. times k (x ∷ xs)) (count_one x (λ k. times k xs)) (λ k. ground arith) in
    let more = total-count_one n x (λ k. times k xs) in let rest = total-times n xs in omega arith

-- Readings of which none was seen `stop_count` times are not many.
few-below :
    (stop_count size : ℕ) (readings : List ℕ)
    → ((k : ℕ) → k < size → times k readings < stop_count)
    → below size readings ≤ size * (stop_count - 1)
few-below stop_count size readings low =
    let bound =
      total-bound size (stop_count - 1) (λ k. times k readings)
        (λ k lt. let l = low k lt in omega arith) in
    let same = total-times size readings in omega arith

-- A round of `calibrate_now_offset` ends, still runs behind the last reading, or overflows `cnt`. If it
-- ends, it has seen `peak_nsi` exactly `stop_count` times and every other reading below `size` less
-- often; `sum` and `cnt` are the sum and the number of all readings below `size` but the last, and
-- `cnt` fits an `int`. In the other cases no reading below `size` was seen `stop_count` times, and there
-- were less than 2 to the power 31 readings below `size`, or exactly as many where `cnt` overflows. So
-- it does not run on behind more than `stop_count - 1` readings for each of the counts, and `cnt` does
-- not overflow if these are less than 2 to the power 31.
pub measure-ends :
    (stop_count size : ℕ) (readings : List ℕ)
    → 0 < stop_count
    → let m = measure stop_count size readings (λ i. 0) 0 0 in
      IsMeasured stop_count size readings (λ i. 0) 0 0 m
      × (size * (stop_count - 1) < below size readings → m ≢ Measured.running)
      × (size * (stop_count - 1) < 2 ^ 31 → m ≢ Measured.overflow)
measure-ends stop_count size readings pos =
    let outcome = IsMeasured stop_count size readings (λ i. 0) 0 0 in
    let found : outcome (measure stop_count size readings (λ i. 0) 0 0) =
      measure-IsMeasured stop_count size readings (λ i. 0) 0 0 (λ k lt. pos) (omega arith) in
    (
      found,
      λ many e.
          (let low = (subst outcome e found).1 in
            let few =
              few-below stop_count size readings (λ k lt. let l = low k lt in omega arith) in
            omega arith),
      λ small e.
          (let (seen, rest, split, many, low) = subst outcome e found in
            let few = few-below stop_count size seen (λ k lt. let l = low k lt in omega arith) in
            omega arith),
    )

-- With no counts a round never ends.
pub measure-zero :
    (stop_count : ℕ) (readings : List ℕ) (d : Counts) (sum cnt : ℕ)
    → measure stop_count 0 readings d sum cnt ≡ Measured.running
unfolding measure
measure-zero stop_count [] d sum cnt = refl
measure-zero stop_count (nsi ∷ readings) d sum cnt =
    let out : ltb nsi 0 ≡ false = ground arith in
    rw (measure, out) (measure-zero stop_count readings d sum cnt)
