-- ===== src/RewriteHeader/Years/Sorted.antt =====
-- `canonicalize` orders the years and drops what stands twice.
use ai_statefultask_testsuit.Base.{
  ℕ, ◌<◌, ◌≤◌, ◌≡◌, ◌≢◌, refl, ap, ◌∙◌, Bool, false, ◌||◌, ◌==◌, List, [], ◌∷◌, arith,
}
use ai_statefultask_testsuit.RewriteHeader.Years.{
  insert, sort, unique_from, unique, canonical_years,
}

-- Every year is greater than the one before it, and the first greater than `low`.
abbrev pub Above : ℕ → List ℕ → Type 0
Above low [] = Unit {0}
Above low (y ∷ ys) = (low < y) × Above y ys

abbrev pub Increasing : List ℕ → Type 0
Increasing [] = Unit {0}
Increasing (y ∷ ys) = Above y ys

abbrev From : ℕ → List ℕ → Type 0
From low [] = Unit {0}
From low (y ∷ ys) = (low ≤ y) × From y ys

abbrev pub contains : ℕ → List ℕ → Bool
contains a [] = false
contains a (y ∷ ys) = a == y || contains a ys

insert-From : (low x : ℕ) (ys : List ℕ) → low ≤ x → From low ys → From low (insert x ys)
unfolding insert
insert-From low x [] h f = (h, tt)
insert-From low x (y ∷ ys) h f = ground (arith, insert-From y x ys)

sort-From : (xs : List ℕ) → From 0 (sort xs)
unfolding sort
sort-From [] = tt
sort-From (x ∷ xs) = insert-From 0 x (sort xs) (omega arith) (sort-From xs)

unique_from-Above : (kept : ℕ) (ys : List ℕ) → From kept ys → Above kept (unique_from kept ys)
unfolding unique_from
unique_from-Above kept [] f = tt
unique_from-Above kept (y ∷ ys) f =
    ground (arith, unique_from-Above kept ys, unique_from-Above y ys)

unique-Increasing : (low : ℕ) (xs : List ℕ) → From low xs → Increasing (unique xs)
unfolding unique
unique-Increasing low [] f = tt
unique-Increasing low (x ∷ xs) f = unique_from-Above x xs f.1

contains-insert : (a x : ℕ) (ys : List ℕ) → contains a (insert x ys) ≡ (a == x || contains a ys)
unfolding insert
contains-insert a x [] = refl
contains-insert a x (y ∷ ys) = ground (arith, contains-insert a x ys)

contains-sort : (a : ℕ) (xs : List ℕ) → contains a (sort xs) ≡ contains a xs
unfolding sort
contains-sort a [] = refl
contains-sort a (x ∷ xs) = ground (arith, contains-insert a x (sort xs), contains-sort a xs)

contains-unique_from :
    (a kept : ℕ) (ys : List ℕ)
    → (a == kept || contains a (unique_from kept ys)) ≡ (a == kept || contains a ys)
unfolding unique_from
contains-unique_from a kept [] = refl
contains-unique_from a kept (y ∷ ys) =
    ground (arith, contains-unique_from a kept ys, contains-unique_from a y ys)

contains-unique : (a : ℕ) (xs : List ℕ) → contains a (unique xs) ≡ contains a xs
unfolding unique
contains-unique a [] = refl
contains-unique a (x ∷ xs) = contains-unique_from a x xs

-- The years of a canonical header are strictly increasing, there is one at least, and they are
-- the years that were found; or the current year, if none were.
pub canonical_years-Increasing :
    (current_year : ℕ) (ys : List ℕ)
    → Increasing (canonical_years current_year ys)
      × (canonical_years current_year ys ≢ [])
      × ((a : ℕ) → ys ≢ [] → contains a (canonical_years current_year ys) ≡ contains a ys)
      × (ys ≡ [] → canonical_years current_year ys ≡ current_year ∷ [])
unfolding canonical_years
canonical_years-Increasing now [] = (tt, λ e. cc, λ a h. absurd (h refl), λ e. refl)
canonical_years-Increasing now (y ∷ ys) = (
  unique-Increasing 0 (sort (y ∷ ys)) (sort-From (y ∷ ys)),
  λ e. ends (ap (contains y) e),
  λ a h. contains-unique a (sort (y ∷ ys)) ∙ contains-sort a (y ∷ ys),
  λ e. cc,
)
  where
    kept : contains y (unique (sort (y ∷ ys))) ≡ contains y (y ∷ ys)
    kept = contains-unique y (sort (y ∷ ys)) ∙ contains-sort y (y ∷ ys)

    ends : contains y (unique (sort (y ∷ ys))) ≡ false → ⊥
    ends f = ground (arith, kept)
