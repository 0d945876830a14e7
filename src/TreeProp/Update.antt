-- ===== src/TreeProp/Update.antt =====
-- src/tree_prop.cc: what the program tests for values up to 500, for all values.
use ai_statefultask_testsuit.Base.{
  ℕ, ◌<◌, ◌≤◌, ◌≡◌, inl, inr, refl, sym, subst, Bool, true, false, ◌&&◌, ◌||◌, ltb, leb, ◌==◌,
  if◌then◌else◌, some, min, List, [], ◌∷◌, arith, All, All-append, every-eq-true, All-of-forall,
  All-imp, every, Bool-cases, Option-cases, ltb→lt,
}
use ai_statefultask_testsuit.TreeProp.{
  Cache, Tree, is_sane, passes, change, trees, keep_if, trees_with, trees_above, cache_at, main,
}

-- The trees that `main` builds: whether node 3, node 1 and node 0 follow their left child.
abbrev tree : Bool → Bool → Bool → Tree
tree l3 l1 l0 =
    let t3 = (if l3 then 1 else 2) in
    let t1 = (if l1 then t3 else 3) in
    record { t₀ = if l0 then t1 else 4; t₁ = t1; t₂ = 4; t₃ = t3; t₄ = 3 }

-- What `is_sane` says of the values.
abbrev Least : Cache → Tree → Type 0
Least cache t =
    (cache_at cache t.t₃ ≤ cache.cache₁)
    × (cache_at cache t.t₃ ≤ cache.cache₂)
    × (cache_at cache t.t₁ ≤ cache_at cache t.t₃)
    × (cache_at cache t.t₁ ≤ cache.cache₃)
    × (cache_at cache t.t₀ ≤ cache_at cache t.t₁)
    × (cache_at cache t.t₀ ≤ cache.cache₄)

is_sane-Least :
    (cache : Cache) (l3 l1 l0 : Bool)
    → is_sane cache (tree l3 l1 l0) ≡ true
    → Least cache (tree l3 l1 l0)
unfolding is_sane
is_sane-Least cache true true true h = ground arith
is_sane-Least cache _ _ _ h = ground arith

less-passes :
    (old : Cache) (new_v : ℕ) (l3 l1 l0 : Bool)
    → Least old (tree l3 l1 l0)
    → new_v < old.cache₁
    → passes old new_v (change old (tree l3 l1 l0) new_v) ≡ true
unfolding change is_sane
less-passes old n true true true h l = ground arith
less-passes old n true true false h l = ground arith
less-passes old n true false true h l = ground arith
less-passes old n true false false h l = ground arith
less-passes old n false true true h l = ground arith
less-passes old n false true false h l = ground arith
less-passes old n false false true h l = ground arith
less-passes old n false false false h l = ground arith

greater-passes :
    (old : Cache) (new_v : ℕ) (l3 l1 l0 : Bool)
    → Least old (tree l3 l1 l0)
    → old.cache₁ ≤ new_v
    → passes old new_v (change old (tree l3 l1 l0) new_v) ≡ true
unfolding change is_sane
greater-passes old n true true true h l = ground arith
greater-passes old n _ _ _ h l = ground arith

-- The seven tests of `is_sane`, three of which are about values, fix all five nodes.
sane_nodes :
    (t : Tree) (b3 b1 b0 : Bool)
    → (t.t₄ == 3
        && (t.t₂ == 4
            && ((t.t₃ == 1 || t.t₃ == 2)
                && (b3
                    && ((t.t₁ == t.t₃ || t.t₁ == t.t₄)
                        && (b1 && ((t.t₀ == t.t₁ || t.t₀ == t.t₂) && b0)))))))
      ≡ true
    → t ≡ tree (t.t₃ == 1) (t.t₁ == t.t₃) (t.t₀ == t.t₁)
sane_nodes t b3 b1 b0 h = ground arith

is_sane-tree :
    (cache : Cache) (t : Tree)
    → is_sane cache t ≡ true
    → t ≡ tree (t.t₃ == 1) (t.t₁ == t.t₃) (t.t₀ == t.t₁)
unfolding is_sane
is_sane-tree cache t h = sane_nodes t _ _ _ h

change-tree :
    (old : Cache) (new_v : ℕ) (l3 l1 l0 : Bool)
    → is_sane old (tree l3 l1 l0) ≡ true
    → passes old new_v (change old (tree l3 l1 l0) new_v) ≡ true
change-tree old n l3 l1 l0 h =
    let least = is_sane-Least old l3 l1 l0 h in
    elim (Bool-cases (ltb n old.cache₁)) [
      | inl less ↦ less-passes old n l3 l1 l0 least (ltb→lt n old.cache₁ less)
      | inr more ↦ greater-passes old n l3 l1 l0 least (ground arith)
    ]

change-passes :
    (old : Cache) (t : Tree) (new_v : ℕ)
    → is_sane old t ≡ true
    → passes old new_v (change old t new_v) ≡ true
change-passes old t n h =
    let e = is_sane-tree old t h in
    subst (λ u. passes old n (change old u n) ≡ true) (sym e)
      (change-tree old n _ _ _ (subst (λ u. is_sane old u ≡ true) e h))

-- Whatever the values are: from a sane tree the algorithm for a new value of interval 1 ends, with
-- no assertion failed, in a tree that is sane for the new values.
pub change-is_sane :
    (old : Cache) (t : Tree) (new_v : ℕ)
    → is_sane old t ≡ true
    → (t' : Tree) × (change old t new_v ≡ some t')
      × (is_sane (record old { cache₁ = new_v }) t' ≡ true)
change-is_sane old t n h = elim (Option-cases (change old t n)) [
  | inl e ↦ absurd (ground (arith, change-passes old t n h))
  | inr (t', e) ↦ (t', e, rw e at (change-passes old t n h))
]

keep_if-All {ℓ} :
    {A : Type ℓ} (P : A → Type 0) (b : Bool) (xs : List A)
    → (b ≡ true → All P xs)
    → All P (keep_if b xs)
keep_if-All P true xs h = h refl
keep_if-All P false xs h = tt

keep_one-All {ℓ} :
    {A : Type ℓ} (P : A → Type 0) (b : Bool) (x : A) → (b ≡ true → P x) → All P (keep_if b (x ∷ []))
keep_one-All P true x h = (h refl, tt)
keep_one-All P false x h = tt

Least-is_sane :
    (cache : Cache) (l3 l1 l0 : Bool)
    → Least cache (tree l3 l1 l0)
    → is_sane cache (tree l3 l1 l0) ≡ true
unfolding is_sane
Least-is_sane cache true true true h = ground arith
Least-is_sane cache true true false h = ground arith
Least-is_sane cache true false true h = ground arith
Least-is_sane cache true false false h = ground arith
Least-is_sane cache false true true h = ground arith
Least-is_sane cache false true false h = ground arith
Least-is_sane cache false false true h = ground arith
Least-is_sane cache false false false h = ground arith

-- The test in front of a node's choice.
abbrev Chosen : Cache → ℕ → ℕ → ℕ → Type 0
Chosen cache a b c = leb (cache_at cache a) (min (cache_at cache b) (cache_at cache c)) ≡ true

abbrev Passing : Cache → Tree → Type 0
Passing cache t = is_sane cache t ≡ true

choices-Least :
    (cache : Cache) (l3 l1 l0 : Bool)
    → let t = tree l3 l1 l0 in
      Chosen cache t.t₃ 1 2 → Chosen cache t.t₁ t.t₃ 3 → Chosen cache t.t₀ t.t₁ 4 → Least cache t
choices-Least cache l3 l1 l0 c3 c1 c0 = ground arith

node_0 :
    (cache : Cache) (l3 l1 : Bool)
    → let t = tree l3 l1 true in
      Chosen cache t.t₃ 1 2
      → Chosen cache t.t₁ t.t₃ 3
      → All (Passing cache) (trees_with cache t.t₃ t.t₁)
node_0 cache l3 l1 c3 c1 =
    All-append (Passing cache) _ _
      (keep_one-All (Passing cache) _ (tree l3 l1 true)
        (λ c0. Least-is_sane cache l3 l1 true (choices-Least cache l3 l1 true c3 c1 c0)))
      (keep_one-All (Passing cache) _ (tree l3 l1 false)
        (λ c0. Least-is_sane cache l3 l1 false (choices-Least cache l3 l1 false c3 c1 c0)))

node_1 :
    (cache : Cache) (l3 : Bool)
    → let t = tree l3 true true in
      Chosen cache t.t₃ 1 2 → All (Passing cache) (trees_above cache t.t₃)
node_1 cache l3 c3 =
    All-append (Passing cache) _ _
      (keep_if-All (Passing cache) _ _ (λ c1. node_0 cache l3 true c3 c1))
      (keep_if-All (Passing cache) _ _ (λ c1. node_0 cache l3 false c3 c1))

trees-is_sane : (cache : Cache) → All (Passing cache) (trees cache)
unfolding trees
trees-is_sane cache =
    All-append (Passing cache) _ _ (keep_if-All (Passing cache) _ _ (λ c3. node_1 cache true c3))
      (keep_if-All (Passing cache) _ _ (λ c3. node_1 cache false c3))

trees-pass :
    (cache : Cache) (new_v : ℕ)
    → every (λ t. is_sane cache t && passes cache new_v (change cache t new_v)) (trees cache) ≡ true
trees-pass cache n = every-eq-true _ (trees cache) (
    All-imp (Passing cache) _ (trees cache) (λ t h. rw (h, change-passes cache t n h))
      (trees-is_sane cache))

-- Whatever values the loops run over, the assertion in front of the algorithm and the test behind
-- it never fail.
pub main-eq-true : (values : List ℕ) → main values ≡ true
unfolding main
main-eq-true values = every_value (λ old_v. every_value (λ new_v.
    elim (Bool-cases (new_v == old_v)) [
      | inl same ↦ rw same
      | inr other ↦ rw other (
          every_value (λ c2. every_value (λ c3. every_value (λ c4.
            trees-pass (record { cache₁ = old_v; cache₂ = c2; cache₃ = c3; cache₄ = c4 }) new_v))))
    ]))
  where
    every_value : {f : ℕ → Bool} → ((n : ℕ) → f n ≡ true) → every f values ≡ true
    every_value {f} h = every-eq-true f values (All-of-forall _ values h)
