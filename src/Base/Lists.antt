-- ===== src/Base/Lists.antt =====
-- Lists measured and indexed by native numbers, under the library's names.
use Prim.Native.Nat.{ℕ, zero, suc, ◌+◌, ◌<◌, ◌≤◌}
use mathlib.Core.Path.{◌≡◌, refl}
use mathlib.Core.List.{List, [], ◌∷◌, ◌++◌}
use mathlib.Core.Logic.{◌⊎◌, inl, inr}
use mathlib.Core.Bool.{Bool, true, ◌&&◌}
use mathlib.Core.Option.{Option, none, some}
use native.Mathlib.Omega.{arith}

-- A predicate of every item, by recursion, so that the tactics read its parts.
abbrev pub All {ℓ κ} : {A : Type ℓ} → (A → Type κ) → List A → Type κ
All P [] = Unit
All P (x ∷ xs) = P x × All P xs

pub All-append {ℓ κ} :
    {A : Type ℓ} (P : A → Type κ) (xs ys : List A) → All P xs → All P ys → All P (xs ++ ys)
All-append P [] ys hx hy = hy
All-append P (x ∷ xs) ys hx hy = (hx.0, All-append P xs ys hx.1 hy)

module _ {ℓ} {A : Type ℓ} where
  abbrev pub length : List A → ℕ
  length [] = 0
  length (x ∷ xs) = suc (length xs)

  abbrev pub get_elem? : List A → ℕ → Option A
  get_elem? [] i = none
  get_elem? (x ∷ xs) zero = some x
  get_elem? (x ∷ xs) (suc i) = get_elem? xs i

  pub length-append : (xs ys : List A) → length (xs ++ ys) ≡ length xs + length ys
  length-append [] ys = omega arith
  length-append (x ∷ xs) ys = omega (arith, length-append xs ys)

  -- A loop that tests every item.
  abbrev pub every : (A → Bool) → List A → Bool
  every f [] = true
  every f (x ∷ xs) = f x && every f xs

  pub every-eq-true : (f : A → Bool) (xs : List A) → All (λ x. f x ≡ true) xs → every f xs ≡ true
  every-eq-true f [] h = refl
  every-eq-true f (x ∷ xs) h = rw (h.0, every-eq-true f xs h.1) refl

  pub All-of-forall {κ} : (P : A → Type κ) (xs : List A) → ((x : A) → P x) → All P xs
  All-of-forall P [] h = tt
  All-of-forall P (x ∷ xs) h = (h x, All-of-forall P xs h)

  pub All-imp {κ μ} :
      (P : A → Type κ) (Q : A → Type μ) (xs : List A) → ((x : A) → P x → Q x) → All P xs → All Q xs
  All-imp P Q [] f h = tt
  All-imp P Q (x ∷ xs) f h = (f x h.0, All-imp P Q xs f h.1)

  pub get_elem?-every :
      (f : A → Bool) (xs : List A) (i : ℕ)
      → every f xs ≡ true
      → i < length xs
      → (x : A) × (get_elem? xs i ≡ some x) × (f x ≡ true)
  get_elem?-every f [] i h lt = elim lt [ ]
  get_elem?-every f (x ∷ xs) zero h lt = (x, refl, ground arith)
  get_elem?-every f (x ∷ xs) (suc i) h lt = get_elem?-every f xs i (ground arith) (omega arith)

  pub get_elem?-length : (xs : List A) (i : ℕ) → length xs ≤ i → get_elem? xs i ≡ none
  get_elem?-length [] i h = refl
  get_elem?-length (x ∷ xs) zero h = elim h [ ]
  get_elem?-length (x ∷ xs) (suc i) h = get_elem?-length xs i (omega arith)

  pub List-cases : (xs : List A) → (xs ≡ []) ⊎ ((y : A) × (ys : List A) × (xs ≡ y ∷ ys))
  List-cases [] = inl refl
  List-cases (x ∷ xs) = inr (x, xs, refl)
