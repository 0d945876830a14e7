-- ===== src/Counters/Results/Differ.antt =====
-- When `main` of src/wait_signal_test2.cxx prints a difference.

use mathlib.Core.List.{Permᴰ}
use ai_statefultask_testsuit.Base.{
  ℕ, ◌≡◌, ◌≢◌, ◌↔◌, ◌⊎◌, inl, inr, refl, sym, ap, subst, Bool, true, false, none, some, List, [],
  ◌∷◌, ◌++◌, arith, Bool-cases, Option-cases,
}
use ai_statefultask_testsuit.Counters.Results.Keys.{
  operations-eq, perm_of_operations, operations_eq_sound, operations_eq_refl,
}
use ai_statefultask_testsuit.Counters.Results.{
  operations_of, operations_eq, ResultMap, find_result, running_behind, difference_of, differences,
}

-- One of the items.
abbrev pub IsAmong : List ℕ → List (List ℕ) → Type 0
IsAmong a [] = ⊥
IsAmong a (x ∷ xs) = (a ≡ x) ⊎ IsAmong a xs

-- Two sequences that are allowed and are the same but for the order, with different results.
pub record Difference (sequences : List (List ℕ)) : Type 0 where
  pub first : List ℕ
  pub second : List ℕ
  pub first_among : IsAmong first sequences
  pub second_among : IsAmong second sequences
  pub reordered : Permᴰ first second
  pub first_runs : running_behind first ≡ some true
  pub second_waits : running_behind second ≡ some false

-- What the map holds behind the sequences `seen`, as long as nothing was printed.
record Holds (seen : List (List ℕ)) (results : ResultMap) : Type 0 where
  of_seen :
      (ops : List ℕ) (value : List ℕ × Bool)
      → find_result (operations_of ops) results ≡ some value
      → IsAmong value.0 seen
        × (operations_of value.0 ≡ operations_of ops)
        × (running_behind value.0 ≡ some value.1)
  has_seen :
      (ops : List ℕ) (running : Bool)
      → IsAmong ops seen
      → running_behind ops ≡ some running
      → (first : List ℕ) × (find_result (operations_of ops) results ≡ some (first, running))

-- The sequences seen and to come; the result is the same in whatever order they are listed.
abbrev Both : List (List ℕ) → List (List ℕ) → List ℕ → Type 0
Both seen to_come a = IsAmong a seen ⊎ IsAmong a to_come

abbrev Differs : (List ℕ → Type 0) → Type 0
Differs P =
    (a : List ℕ) × (b : List ℕ) × P a
    × P b
    × Permᴰ a b
    × (running_behind a ≡ some true)
    × (running_behind b ≡ some false)

-- Nothing is printed and there is no difference, or something is and there is one.
abbrev Right : (List ℕ → Type 0) → List (List ℕ × List ℕ) → Type 0
Right P printed = ((printed ≡ []) × (Differs P → ⊥)) ⊎ ((printed ≢ []) × Differs P)

Differs-imp : (P Q : List ℕ → Type 0) → ((a : List ℕ) → P a → Q a) → Differs P → Differs Q
Differs-imp P Q f (a, b, pa, pb, p, ra, rb) = (a, b, f a pa, f b pb, p, ra, rb)

-- The next sequence is seen.
Right-seen :
    (ops : List ℕ) (seen sequences : List (List ℕ)) (printed : List (List ℕ × List ℕ))
    → Right (Both (ops ∷ seen) sequences) printed
    → Right (Both seen (ops ∷ sequences)) printed
Right-seen ops seen sequences printed r =
    let forth : (a : List ℕ) → Both (ops ∷ seen) sequences a → Both seen (ops ∷ sequences) a =
      λ a h. elim h [
        | inl (inl now) ↦ inr (inl now)
        | inl (inr before) ↦ inl before
        | inr after ↦ inr (inr after)
      ] in
    let back : (a : List ℕ) → Both seen (ops ∷ sequences) a → Both (ops ∷ seen) sequences a = λ a h.
      elim h [
        | inr (inl now) ↦ inl (inl now)
        | inl before ↦ inl (inr before)
        | inr (inr after) ↦ inr after
      ] in
    elim r [
      | inl (e, never) ↦ inl (
        e,
        λ d. never (Differs-imp (Both seen (ops ∷ sequences)) (Both (ops ∷ seen) sequences) back d),
      )
      | inr (e, d) ↦
          inr (e, Differs-imp (Both (ops ∷ seen) sequences) (Both seen (ops ∷ sequences)) forth d)
    ]

none_seen :
    (seen : List (List ℕ)) (results : ResultMap) → Holds seen results → Differs (Both seen []) → ⊥
none_seen seen results h (a, b, inl sa, inl sb, p, ra, rb) =
    let (f, e) = h.has_seen a true sa ra in
    let (g, d) = h.has_seen b false sb rb in
    let same = operations-eq a b p in
    let e' : find_result (operations_of b) results ≡ some (f, true) = rw (sym same) e in
    absurd (ground arith)
none_seen seen results h (a, b, inr sa, sb, p, ra, rb) = sa
none_seen seen results h (a, b, inl sa, inr sb, p, ra, rb) = sb

skip-Holds :
    (ops : List ℕ) (seen : List (List ℕ)) (results : ResultMap)
    → running_behind ops ≡ none
    → Holds seen results
    → Holds (ops ∷ seen) results
skip-Holds ops seen results skipped h = record {
  of_seen = λ a value e. let (s, k, r) = h.of_seen a value e in (inr s, k, r);
  has_seen = λ a running s r. elim s [
    | inl now ↦
        let r' : running_behind ops ≡ some running =
          subst (λ x. running_behind x ≡ some running) now r in
        absurd (ground arith)
    | inr before ↦ h.has_seen a running before r
  ];
}

old-Holds :
    (ops first : List ℕ) (running : Bool) (seen : List (List ℕ)) (results : ResultMap)
    → running_behind ops ≡ some running
    → find_result (operations_of ops) results ≡ some (first, running)
    → Holds seen results
    → Holds (ops ∷ seen) results
old-Holds ops first running seen results ran old h = record {
  of_seen = λ a value e. let (s, k, r) = h.of_seen a value e in (inr s, k, r);
  has_seen = λ a running' s r. elim s [
    | inl now ↦
        let r' : running_behind ops ≡ some running' =
          subst (λ x. running_behind x ≡ some running') now r in
        let same : running ≡ running' = ground arith in
        (
          first,
          subst (λ x. find_result (operations_of x) results ≡ some (first, running')) (sym now)
              (subst (λ b. find_result (operations_of ops) results ≡ some (first, b)) same old),
        )
    | inr before ↦ h.has_seen a running' before r
  ];
}

new-Holds :
    (ops : List ℕ) (running : Bool) (seen : List (List ℕ)) (results : ResultMap)
    → running_behind ops ≡ some running
    → find_result (operations_of ops) results ≡ none
    → Holds seen results
    → Holds (ops ∷ seen) ((operations_of ops, (ops, running)) ∷ results)
unfolding find_result
new-Holds ops running seen results ran new h = record {
  of_seen = λ a value e. elim (Bool-cases (operations_eq (operations_of ops) (operations_of a))) [
    | inl same ↦
        let e' : some (ops, running) ≡ some value = rw (find_result, same) at e in
        let v : (ops, running) ≡ value = cc in
        let keys = operations_eq_sound (operations_of ops) (operations_of a) same in
        subst
          (λ (v : List ℕ × Bool).
            IsAmong v.0 (ops ∷ seen)
            × (operations_of v.0 ≡ operations_of a)
            × (running_behind v.0 ≡ some v.1))
          v (inl refl, keys, ran)
    | inr other ↦ let (s, k, r) = h.of_seen a value (rw (find_result, other) at e) in (inr s, k, r)
  ];
  has_seen = λ a running' s r.
      elim (Bool-cases (operations_eq (operations_of ops) (operations_of a))) [
        | inl same ↦
            let keys = operations_eq_sound (operations_of ops) (operations_of a) same in
            elim s [
              | inl now ↦
                  let r' : running_behind ops ≡ some running' =
                    subst (λ x. running_behind x ≡ some running') now r in
                  let agree : running ≡ running' = ground arith in
                  (ops, rw same (ap (λ b. some (ops, b)) agree))
              | inr before ↦
                  let (f, e) = h.has_seen a running' before r in
                  let e' : find_result (operations_of ops) results ≡ some (f, running') =
                    subst (λ k. find_result k results ≡ some (f, running')) (sym keys) e in
                  absurd (ground arith)
            ]
        | inr other ↦ elim s [
          | inl now ↦
              let found : operations_eq (operations_of ops) (operations_of a) ≡ true =
                subst (λ x. operations_eq (operations_of ops) (operations_of x) ≡ true) (sym now)
                  (operations_eq_refl (operations_of ops)) in
              absurd (ground arith)
          | inr before ↦ let (f, e) = h.has_seen a running' before r in (f, rw other e)
        ]
      ];
}

-- The sequence has the key of one that was seen.
old-Right :
    (ops : List ℕ) (value : List ℕ × Bool) (running : Bool) (seen sequences : List (List ℕ))
    (results : ResultMap)
    → running_behind ops ≡ some running
    → find_result (operations_of ops) results ≡ some value
    → Holds seen results
    → (Holds (ops ∷ seen) results
        → Right (Both (ops ∷ seen) sequences) (differences sequences results))
    → Right
        (Both seen (ops ∷ sequences))
        (difference_of ops running value ++ differences sequences results)
old-Right ops (first, true) true seen sequences results ran old h next =
    Right-seen ops seen sequences _ (next (old-Holds ops first true seen results ran old h))
old-Right ops (first, false) false seen sequences results ran old h next =
    Right-seen ops seen sequences _ (next (old-Holds ops first false seen results ran old h))
old-Right ops (first, true) false seen sequences results ran old h next =
    let (s, k, r) = h.of_seen ops (first, true) old in
    inr (
      λ e. ground arith,
      (first, ops, inl s, inr (inl refl), perm_of_operations first ops k, r, ran),
    )
old-Right ops (first, false) true seen sequences results ran old h next =
    let (s, k, r) = h.of_seen ops (first, false) old in
    inr (
      λ e. ground arith,
      (ops, first, inr (inl refl), inl s, perm_of_operations ops first (sym k), ran, r),
    )

differences-Right :
    (sequences seen : List (List ℕ)) (results : ResultMap)
    → Holds seen results
    → Right (Both seen sequences) (differences sequences results)
unfolding differences
differences-Right [] seen results h = inl (refl, none_seen seen results h)
differences-Right (ops ∷ sequences) seen results h = elim (Option-cases (running_behind ops)) [
  | inl skipped ↦
      rw (differences, skipped)
        (Right-seen ops seen sequences (differences sequences results) (
          differences-Right sequences (ops ∷ seen) results (skip-Holds ops seen results skipped h)))
  | inr (running, ran) ↦ elim (Option-cases (find_result (operations_of ops) results)) [
    | inl new ↦
        rw (differences, ran, new)
          (Right-seen ops seen sequences _ (
            differences-Right sequences (ops ∷ seen) ((operations_of ops, (ops, running)) ∷ results)
              (new-Holds ops running seen results ran new h)))
    | inr (value, old) ↦
        rw (differences, ran, old)
          (old-Right ops value running seen sequences results ran old h
            (λ k. differences-Right sequences (ops ∷ seen) results k))
  ]
]

Difference-between :
    (sequences : List (List ℕ)) → Differs (Both [] sequences) → Difference sequences
Difference-between sequences (a, b, inr sa, inr sb, p, ra, rb) = record {
  first = a;
  second = b;
  first_among = sa;
  second_among = sb;
  reordered = p;
  first_runs = ra;
  second_waits = rb;
}
Difference-between sequences (a, b, inl none_seen, sb, p, ra, rb) = absurd none_seen
Difference-between sequences (a, b, inr sa, inl none_seen, p, ra, rb) = absurd none_seen

-- `main` prints a difference exactly if there are two of the sequences which are allowed, and are
-- the same operations in another order, such that the task runs behind one and waits behind the
-- other.
pub differences-iff-Difference :
    (sequences : List (List ℕ)) → (differences sequences [] ≢ []) ↔ Difference sequences
unfolding find_result
differences-iff-Difference sequences =
    elim (differences-Right sequences [] [] (record {
      of_seen = λ ops value e. absurd (ground arith);
      has_seen = λ ops running s r. absurd s;
    })) [
      | inl (silent, never) ↦ (
        λ some_printed. absurd (some_printed silent),
        λ d. absurd (
            never (
              d.first,
              d.second,
              inr d.first_among,
              inr d.second_among,
              d.reordered,
              d.first_runs,
              d.second_waits,
            )),
      )
      | inr (loud, d) ↦ (λ e. Difference-between sequences d, λ e. loud)
    ]
