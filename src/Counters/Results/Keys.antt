-- ===== src/Counters/Results/Keys.antt =====
-- The keys of the map of src/wait_signal_test2.cxx: operations without their order.
use mathlib.Core.List.Permᴰ
use mathlib.Core.List.{Permᴰ}
use ai_statefultask_testsuit.Base.{
  ℕ, ◌≡◌, inl, inr, refl, sym, subst, ◌∙◌, true, leb, List, [], ◌∷◌, arith, Bool-cases,
}
use ai_statefultask_testsuit.Counters.Results.{insert_operation, operations_of, operations_eq}

insert_comm :
    (x y : ℕ) (os : List ℕ)
    → insert_operation x (insert_operation y os) ≡ insert_operation y (insert_operation x os)
unfolding insert_operation
insert_comm x y [] = ground arith
insert_comm x y (o ∷ os) = let rest = insert_comm x y os in ground arith

insert-perm : (x : ℕ) (os : List ℕ) → Permᴰ (insert_operation x os) (x ∷ os)
unfolding insert_operation
insert-perm x [] = Permᴰ.refl _
insert-perm x (o ∷ os) = elim (Bool-cases (leb x o)) [
  | inl here ↦ rw here (Permᴰ.refl _)
  | inr later ↦ rw later (Permᴰ.trans (Permᴰ.cons refl (insert-perm x os)) (Permᴰ.swap refl refl))
]

operations-perm : (ops : List ℕ) → Permᴰ (operations_of ops) ops
unfolding operations_of
operations-perm [] = Permᴰ.nil
operations-perm (x ∷ ops) =
    Permᴰ.trans (insert-perm x (operations_of ops)) (Permᴰ.cons refl (operations-perm ops))

-- Two sequences have the same key exactly if one is the other in another order.
pub operations-eq : (a b : List ℕ) → Permᴰ a b → operations_of a ≡ operations_of b
unfolding operations_of
operations-eq a b Permᴰ.nil = refl
operations-eq a b (Permᴰ.cons {l₁ = xs} {l₂ = ys} e p) = rw (e, operations-eq xs ys p) refl
operations-eq a b (Permᴰ.swap {a' = x'} {b' = y'} {l = l} e f) =
    rw (e, f) (insert_comm y' x' (operations_of l))
operations-eq a b (Permᴰ.trans {l₁ = x} {l₂ = y} {l₃ = z} p q) =
    operations-eq x y p ∙ operations-eq y z q

pub perm_of_operations : (a b : List ℕ) → operations_of a ≡ operations_of b → Permᴰ a b
perm_of_operations a b e =
    Permᴰ.trans (Permᴰ.symm (operations-perm a))
      (subst (λ o. Permᴰ o b) (sym e) (operations-perm b))

pub operations_eq_sound : (a b : List ℕ) → operations_eq a b ≡ true → a ≡ b
operations_eq_sound [] [] h = refl
operations_eq_sound [] (y ∷ b) h = ground arith
operations_eq_sound (x ∷ a) [] h = ground arith
operations_eq_sound (x ∷ a) (y ∷ b) h =
    let rest = operations_eq_sound a b (ground arith) in let head : x ≡ y = ground arith in cc

pub operations_eq_refl : (a : List ℕ) → operations_eq a a ≡ true
operations_eq_refl [] = refl
operations_eq_refl (x ∷ a) = let rest = operations_eq_refl a in ground arith
