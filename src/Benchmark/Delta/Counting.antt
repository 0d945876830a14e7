-- ===== src/Benchmark/Delta/Counting.antt =====
-- How the two histograms of `calibrate_delta` of src/benchmark.cxx count, whichever delta's count is
-- compared with `max_count`.
use ai_statefultask_testsuit.Base.{
  ℕ, zero, suc, ◌+◌, ◌-◌, ◌<◌, ◌≡◌, refl, subst, ◌∙◌, inl, inr, Bool, true, false, ◌&&◌, ltb, leb,
  ◌==◌, if◌then◌else◌, Option, none, some, List, [], ◌∷◌, arith, All, Bool-cases, Option-cases,
  is_some,
}
use ai_statefultask_testsuit.Benchmark.{count_one}
use ai_statefultask_testsuit.Benchmark.Delta.{Data, Histogram, count_point, count_bin, count_bins}

abbrev one_if : Bool → ℕ
one_if b = if b then 1 else 0

-- How many of the points have the delta `k`, below 300.
abbrev pub occurrences : (Data → ℕ) → ℕ → List Data → ℕ
occurrences key k [] = 0
occurrences key k (d ∷ ds) = one_if (ltb (key d) 300 && key d == k) + occurrences key k ds

-- The same for the points of a bin, and of the bins from `c` on below `c + left`.
abbrev in_bin : (Data → ℕ) → ℕ → ℕ → ℕ → List Data → ℕ
in_bin key k low c [] = 0
in_bin key k low c (d ∷ ds) =
    one_if ((d.min - low == c && ltb (key d) 300) && key d == k) + in_bin key k low c ds

abbrev pub in_bins : (Data → ℕ) → ℕ → ℕ → ℕ → ℕ → List Data → ℕ
in_bins key k low zero c ds = 0
in_bins key k low (suc left) c ds = in_bin key k low c ds + in_bins key k low left (c + 1) ds

-- The variables behind a point that is counted.
abbrev pub counted : ℕ → ℕ → Histogram → Histogram
counted key tested h =
    if ltb h.max_count (count_one key h.count tested)
    then record { count = count_one key h.count; max_count = count_one key h.count key; best = key }
    else record h { count = count_one key h.count }

count-counted :
    (key tested : ℕ) (h : Histogram) (k : ℕ)
    → (counted key tested h).count k ≡ h.count k + one_if (key == k)
count-counted key tested h k = elim (Bool-cases (ltb h.max_count (count_one key h.count tested))) [
  | inl more ↦ rw more (ground arith)
  | inr less ↦ rw less (ground arith)
]

if-some :
    {A : Type 0} (b : Bool) (x y : A) → (if b then some x else some y) ≡ some (if b then x else y)
if-some true x y = refl
if-some false x y = refl

-- What a loop keeps and counts.
module _ (P : Histogram → Type 0) where
  -- Unless an index is out of range, a loop that is given `h` adds `more k` to the count of `k`.
  abbrev pub Adds : Histogram → (ℕ → ℕ) → Option Histogram → Type 0
  Adds h more none = Unit
  Adds h more (some h') = P h' × ((k : ℕ) → h'.count k ≡ h.count k + more k)

  -- A loop behind a step.
  after_step :
      (h h' : Histogram) (first later : ℕ → ℕ) (o : Option Histogram)
      → ((k : ℕ) → h'.count k ≡ h.count k + first k)
      → Adds h' later o
      → Adds h (λ k. first k + later k) o
  after_step h h' first later none more rest = tt
  after_step h h' first later (some h'') more rest = (rest.0, λ k. omega (arith, more k, rest.1 k))

  pub Adds-congr :
      (h : Histogram) (more more' : ℕ → ℕ) (o : Option Histogram)
      → ((k : ℕ) → more k ≡ more' k)
      → Adds h more o
      → Adds h more' o
  Adds-congr h more more' none e a = tt
  Adds-congr h more more' (some h') e a = (a.0, λ k. omega (arith, e k, a.1 k))

-- A loop over the points: the deltas, and what counting a point keeps.
module _ (key tested : Data → ℕ) (P : Histogram → Type 0)
    (keeps : (d : Data) (h : Histogram) → P h → P (counted (key d) (tested d) h)) where
  count_point-Adds :
      (size low c : ℕ) (d : Data) (h : Histogram)
      → P h
      → Adds P h
          (λ k. one_if ((d.min - low == c && ltb (key d) 300) && key d == k))
          (count_point key tested size low c d h)
  unfolding count_point
  count_point-Adds size low c d h p = elim (Bool-cases (d.min - low == c && ltb (key d) 300)) [
    | inl passes ↦ elim (Bool-cases (ltb (key d) size && ltb (tested d) size)) [
      | inl fits ↦
          rw (passes, fits, if-some (ltb h.max_count (count_one (key d) h.count (tested d))) _ _)
            (keeps d h p, count-counted (key d) (tested d) h)
      | inr out ↦ rw (passes, out) tt
    ]
    | inr skipped ↦ rw skipped (p, λ k. omega arith)
  ]

  count_bin-Adds :
      (size low c : ℕ) (ds : List Data) (h : Histogram)
      → P h
      → Adds P h (λ k. in_bin key k low c ds) (count_bin key tested size low c ds h)
  unfolding count_bin
  count_bin-Adds size low c [] h p = (p, λ k. omega arith)
  count_bin-Adds size low c (d ∷ ds) h p =
      let here = count_point-Adds size low c d h p in
      elim (Option-cases (count_point key tested size low c d h)) [
        | inl e ↦ rw (count_bin, e) tt
        | inr (h', e) ↦
            let (p', more) = subst (Adds P h _) e here in
            rw (count_bin, e)
              (after_step P h h' _ _ (count_bin key tested size low c ds h') more
                (count_bin-Adds size low c ds h' p'))
      ]

  pub count_bins-Adds :
      (size low left c : ℕ) (ds : List Data) (h : Histogram)
      → P h
      → Adds P h (λ k. in_bins key k low left c ds) (count_bins key tested size low left c ds h)
  unfolding count_bins
  count_bins-Adds size low zero c ds h p = (p, λ k. omega arith)
  count_bins-Adds size low (suc left) c ds h p =
      let here = count_bin-Adds size low c ds h p in
      elim (Option-cases (count_bin key tested size low c ds h)) [
        | inl e ↦ rw (count_bins, e) tt
        | inr (h', e) ↦
            let (p', more) = subst (Adds P h _) e here in
            rw (count_bins, e)
              (after_step P h h' _ _ (count_bins key tested size low left (c + 1) ds h') more
                (count_bins-Adds size low left (c + 1) ds h' p'))
      ]

-- In range, a loop does not stop.
count_point-some :
    (key tested : Data → ℕ) (size low c : ℕ) (d : Data) (h : Histogram)
    → (key d < size) × (tested d < size)
    → is_some (count_point key tested size low c d h) ≡ true
unfolding count_point
count_point-some key tested size low c d h lt = ground arith

count_bin-some :
    (key tested : Data → ℕ) (size low c : ℕ) (ds : List Data) (h : Histogram)
    → All (λ d. (key d < size) × (tested d < size)) ds
    → is_some (count_bin key tested size low c ds h) ≡ true
unfolding count_bin
count_bin-some key tested size low c [] h lt = refl
count_bin-some key tested size low c (d ∷ ds) h lt =
    elim (Option-cases (count_point key tested size low c d h)) [
      | inl e ↦ absurd (let s = count_point-some key tested size low c d h lt.0 in cc)
      | inr (h', e) ↦ rw (count_bin, e) (count_bin-some key tested size low c ds h' lt.1)
    ]

pub count_bins-some :
    (key tested : Data → ℕ) (size low left c : ℕ) (ds : List Data) (h : Histogram)
    → All (λ d. (key d < size) × (tested d < size)) ds
    → is_some (count_bins key tested size low left c ds h) ≡ true
unfolding count_bins
count_bins-some key tested size low zero c ds h lt = refl
count_bins-some key tested size low (suc left) c ds h lt =
    elim (Option-cases (count_bin key tested size low c ds h)) [
      | inl e ↦ absurd (let s = count_bin-some key tested size low c ds h lt in cc)
      | inr (h', e) ↦ rw (count_bins, e) (count_bins-some key tested size low left (c + 1) ds h' lt)
    ]

-- A point is in one of the bins that its minimum is among.
in_bins-none : (key : Data → ℕ) (k low left c : ℕ) → in_bins key k low left c [] ≡ 0
in_bins-none key k low zero c = refl
in_bins-none key k low (suc left) c = omega (arith, in_bins-none key k low left (c + 1))

in_bins-cons :
    (key : Data → ℕ) (k low left c : ℕ) (d : Data) (ds : List Data)
    → in_bins key k low left c (d ∷ ds)
      ≡ (if leb c (d.min - low) && ltb (d.min - low) (c + left)
          then one_if (ltb (key d) 300 && key d == k)
          else 0)
        + in_bins key k low left c ds
in_bins-cons key k low zero c d ds = ground arith
in_bins-cons key k low (suc left) c d ds =
    let rest = in_bins-cons key k low left (c + 1) d ds in ground arith

pub in_bins-occurrences :
    (key : Data → ℕ) (k low left : ℕ) (ds : List Data)
    → All (λ d. d.min - low < left) ds
    → in_bins key k low left 0 ds ≡ occurrences key k ds
in_bins-occurrences key k low left [] h = in_bins-none key k low left 0
in_bins-occurrences key k low left (d ∷ ds) h =
    let here = in_bins-cons key k low left 0 d ds in
    let rest = in_bins-occurrences key k low left ds h.1 in
    let inside : (leb 0 (d.min - low) && ltb (d.min - low) (0 + left)) ≡ true =
      ground (arith, h.0) in
    here ∙ (rw (inside, rest) refl)
