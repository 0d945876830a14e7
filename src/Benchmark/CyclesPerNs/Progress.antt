-- ===== src/Benchmark/CyclesPerNs/Progress.antt =====
-- How far the loop of `calibrate_cycles_per_ns` of src/benchmark.cxx has come, and what a round adds.
use mathlib.Core.List.{append_assoc, append-nil}
use ai_statefultask_testsuit.Base.{
  ℕ, ◌+◌, ◌≤◌, ◌≡◌, ◌≢◌, ◌⊎◌, refl, sym, ap, ◌∙◌, inl, inr, true, false, ◌&&◌, ◌||◌, ◌==◌,
  if◌then◌else◌, none, some, List, [], ◌∷◌, ◌++◌, arith, Bool-cases, Option-cases,
}
use ai_statefultask_testsuit.Benchmark.{Counts}
use ai_statefultask_testsuit.Benchmark.CyclesPerNs.{
  Deltas, Search, is_near, count_delta, count_deltas, are_near, add_quotient,
}
use ai_statefultask_testsuit.Benchmark.CyclesPerNs.Targets.{
  one_if, IsCounted, is_near-nonzero, count_delta-IsCounted, count_delta-none,
}

-- How often a delta was read.
abbrev pub times : (Deltas → ℕ) → List Deltas → ℕ → ℕ
times key [] k = 0
times key (d ∷ ds) k = times key ds k + one_if (key d == k)

-- The quotients of the rounds near two targets.
abbrev pub near_quotients : ℕ → ℕ → List Deltas → List (ℕ × ℕ)
near_quotients t1 t2 [] = []
near_quotients t1 t2 (d ∷ ds) =
    if is_near t1 d.delta1 && is_near t2 d.delta2
    then (d.delta3, d.clocks) ∷ near_quotients t1 t2 ds
    else near_quotients t1 t2 ds

-- The loop has read `before` to find the targets, and `after` with them.
pub record IsProgress (stable size : ℕ) (before after : List Deltas) (s : Search) : Type 0 where
  pub counted1 : IsCounted stable size (times (λ d. d.delta1) before) s.delta1_count s.target_delta1
  pub counted2 : IsCounted stable size (times (λ d. d.delta2) before) s.delta2_count s.target_delta2
  pub chosen : s.quotients ≡ near_quotients s.target_delta1 s.target_delta2 after
  pub settled : ((s.target_delta1 ≢ 0) × (s.target_delta2 ≢ 0)) ⊎ (after ≡ [])

near_quotients-append :
    (t1 t2 : ℕ) (ds : List Deltas) (d : Deltas)
    → near_quotients t1 t2 (ds ++ (d ∷ []))
      ≡ near_quotients t1 t2 ds ++ near_quotients t1 t2 (d ∷ [])
near_quotients-append t1 t2 [] d = refl
near_quotients-append t1 t2 (d' ∷ ds) d =
    elim (Bool-cases (is_near t1 d'.delta1 && is_near t2 d'.delta2)) [
      | inl near ↦ rw (near, near_quotients-append t1 t2 ds d) refl
      | inr far ↦ rw (far, near_quotients-append t1 t2 ds d) refl
    ]

pub times-append :
    (key : Deltas → ℕ) (ds : List Deltas) (d : Deltas) (k : ℕ)
    → times key (ds ++ (d ∷ [])) k ≡ times key ds k + one_if (key d == k)
times-append key [] d k = refl
times-append key (d' ∷ ds) d k = let rest = times-append key ds d k in omega arith

pub near-IsProgress :
    (stable size : ℕ) (before after : List Deltas) (d : Deltas) (s : Search)
    → are_near d s ≡ true
    → IsProgress stable size before after s
    → IsProgress stable size before (after ++ (d ∷ [])) (add_quotient d s)
near-IsProgress stable size before after d s near p = record {
  counted1 = p.counted1;
  counted2 = p.counted2;
  chosen = rw (near_quotients-append, near) (ap (λ l. l ++ ((d.delta3, d.clocks) ∷ [])) p.chosen);
  settled = inl (
    is_near-nonzero s.target_delta1 d.delta1 (ground arith),
    is_near-nonzero s.target_delta2 d.delta2 (ground arith),
  );
}

pub far-IsProgress :
    (stable size : ℕ) (before after : List Deltas) (d : Deltas) (s : Search)
    → are_near d s ≡ false
    → (s.target_delta1 == 0 || s.target_delta2 == 0) ≡ false
    → IsProgress stable size before after s
    → IsProgress stable size before (after ++ (d ∷ [])) s
far-IsProgress stable size before after d s far set p = record {
  counted1 = p.counted1;
  counted2 = p.counted2;
  chosen = rw (near_quotients-append, far) (p.chosen ∙ sym (append-nil _));
  settled = inl (ground arith);
}

IsCounted-append :
    (stable size : ℕ) (key : Deltas → ℕ) (before : List Deltas) (d : Deltas) (count : Counts)
    (target : ℕ)
    → IsCounted stable size (λ k. times key before k + one_if (key d == k)) count target
    → IsCounted stable size (times key (before ++ (d ∷ []))) count target
IsCounted-append stable size key before d count target p = record {
  exact = λ k lt. rw times-append (p.exact k lt);
  often = rw times-append p.often;
  rare = λ none_zero unset k ne lt.
      rw times-append (p.rare (sym (times-append key before d 0) ∙ none_zero) unset k ne lt);
}

-- A round that looks for targets: what both tests come to.
pub count_deltas-cases :
    (stable size : ℕ) (d : Deltas) (s : Search)
    → ((count_deltas stable size d s ≡ none) × ((size ≤ d.delta1) ⊎ (size ≤ d.delta2)))
      ⊎ ((c1 c2 : Counts × ℕ) × (count_delta stable size d.delta1 (s.delta1_count, s.target_delta1)
            ≡ some c1)
          × (count_delta stable size d.delta2 (s.delta2_count, s.target_delta2) ≡ some c2)
          × (count_deltas stable size d s
              ≡ some (record {
                delta1_count = c1.0;
                delta2_count = c2.0;
                target_delta1 = c1.1;
                target_delta2 = c2.1;
                quotients = s.quotients;
              })))
unfolding count_deltas
count_deltas-cases stable size d s =
    elim (Option-cases (count_delta stable size d.delta1 (s.delta1_count, s.target_delta1))) [
      | inl out ↦ inl (rw (count_deltas, out) refl, inl (count_delta-none _ _ _ _ out))
      | inr (c1, e1) ↦
          elim (Option-cases (count_delta stable size d.delta2 (s.delta2_count, s.target_delta2))) [
            | inl out ↦ inl (rw (count_deltas, e1, out) refl, inr (count_delta-none _ _ _ _ out))
            | inr (c2, e2) ↦ inr (c1, c2, e1, e2, rw (count_deltas, e1, e2) refl)
          ]
    ]

pub counts-IsProgress :
    (stable size : ℕ) (before : List Deltas) (d : Deltas) (s : Search) (c1 c2 : Counts × ℕ)
    → count_delta stable size d.delta1 (s.delta1_count, s.target_delta1) ≡ some c1
    → count_delta stable size d.delta2 (s.delta2_count, s.target_delta2) ≡ some c2
    → IsProgress stable size before [] s
    → IsProgress stable size (before ++ (d ∷ [])) [] (record {
      delta1_count = c1.0;
      delta2_count = c2.0;
      target_delta1 = c1.1;
      target_delta2 = c2.1;
      quotients = s.quotients;
    })
counts-IsProgress stable size before d s c1 c2 e1 e2 p = record {
  counted1 =
      IsCounted-append stable size (λ d'. d'.delta1) before d c1.0 c1.1
        (count_delta-IsCounted stable size d.delta1 _ _ _ _ _ p.counted1 e1);
  counted2 =
      IsCounted-append stable size (λ d'. d'.delta2) before d c2.0 c2.1
        (count_delta-IsCounted stable size d.delta2 _ _ _ _ _ p.counted2 e2);
  chosen = p.chosen;
  settled = inr refl;
}

pub unset-after :
    (stable size : ℕ) (before after : List Deltas) (s : Search)
    → (s.target_delta1 == 0 || s.target_delta2 == 0) ≡ true
    → IsProgress stable size before after s
    → after ≡ []
unset-after stable size before after s unset p = elim p.settled [
  | inl (set1, set2) ↦ ground arith
  | inr e ↦ e
]

pub next_after :
    (all before after : List Deltas) (d : Deltas) (ds : List Deltas)
    → all ≡ before ++ (after ++ (d ∷ ds))
    → all ≡ before ++ ((after ++ (d ∷ [])) ++ ds)
next_after all before after d ds split =
    split ∙ ap (λ l. before ++ l) (sym (append_assoc after (d ∷ []) ds))

pub next_before :
    (all before : List Deltas) (d : Deltas) (ds : List Deltas)
    → all ≡ before ++ (d ∷ ds)
    → all ≡ (before ++ (d ∷ [])) ++ ds
next_before all before d ds split = split ∙ sym (append_assoc before (d ∷ []) ds)
