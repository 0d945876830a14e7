-- ===== src/TreeProp.antt =====
-- src/tree_prop.cc: a tournament tree over the values of four intervals, and the two loops that
-- bring it up to date when the value of interval 1 becomes less or greater. An int of `cache` is
-- a number; only the order of the values matters. `none` is a failed assertion, an access outside
-- an array, or a loop that does not end within its fuel.
pub mod Update
use ai_statefultask_testsuit.Base.{
  ℕ, zero, suc, ◌+◌, ◌-◌, ◌/◌, Bool, true, false, ◌&&◌, ◌||◌, ltb, leb, ◌==◌, if◌then◌else◌, Option,
  none, some, min, List, [], ◌∷◌, ◌++◌, every,
}

-- `std::array<int, 5> cache`, of which entry 0 is not used.
pub record Cache : Type 0 where
  pub cache₁ : ℕ
  pub cache₂ : ℕ
  pub cache₃ : ℕ
  pub cache₄ : ℕ

-- `int t[5]`
pub record Tree : Type 0 where
  pub t₀ : ℕ
  pub t₁ : ℕ
  pub t₂ : ℕ
  pub t₃ : ℕ
  pub t₄ : ℕ

-- `cache[in]`; no index other than 1 to 4 is ever used.
abbrev pub cache_at : Cache → ℕ → ℕ
cache_at cache (suc zero) = cache.cache₁
cache_at cache (suc (suc zero)) = cache.cache₂
cache_at cache (suc (suc (suc zero))) = cache.cache₃
cache_at cache (suc (suc (suc (suc zero)))) = cache.cache₄
cache_at cache _ = 0

-- `t[i]`
abbrev pub tree_at : Tree → ℕ → ℕ
tree_at t zero = t.t₀
tree_at t (suc zero) = t.t₁
tree_at t (suc (suc zero)) = t.t₂
tree_at t (suc (suc (suc zero))) = t.t₃
tree_at t (suc (suc (suc (suc zero)))) = t.t₄
tree_at t _ = 0

-- `t[i] = in`
abbrev pub set_tree : Tree → ℕ → ℕ → Tree
set_tree t zero in' = record t { t₀ = in' }
set_tree t (suc zero) in' = record t { t₁ = in' }
set_tree t (suc (suc zero)) in' = record t { t₂ = in' }
set_tree t (suc (suc (suc zero))) in' = record t { t₃ = in' }
set_tree t (suc (suc (suc (suc zero)))) in' = record t { t₄ = in' }
set_tree t _ in' = t

-- The parent of node `i`, behind its assertion.
unfoldable pub p : ℕ → Option ℕ
p i = if ltb 0 i && ltb i 5 then some ((i + 1) / 2 - 1) else none

-- The sibling of node `i`, behind its assertion.
unfoldable pub s : ℕ → Option ℕ
s i = if i == 1 || (i == 3 || i == 4) then some (if i == 1 then 2 else 7 - i) else none

unfoldable pub interval_to_parent_index : ℕ → Option ℕ
interval_to_parent_index interval = if interval == 1 then some 3 else none

unfoldable pub is_sane : Cache → Tree → Bool
is_sane cache t =
    t.t₄ == 3
    && (t.t₂ == 4
        && ((t.t₃ == 1 || t.t₃ == 2)
            && (min cache.cache₁ cache.cache₂ == cache_at cache t.t₃
                && ((t.t₁ == t.t₃ || t.t₁ == t.t₄)
                    && (min (cache_at cache t.t₃) (cache_at cache t.t₄) == cache_at cache t.t₁
                        && ((t.t₀ == t.t₁ || t.t₀ == t.t₂)
                            && min (cache_at cache t.t₁) (cache_at cache t.t₂)
                              == cache_at cache t.t₀))))))

-- `while (nv <= cache[t[i]])`
unfoldable pub less_loop : ℕ → Cache → ℕ → ℕ → Tree → ℕ → Option Tree
less_loop zero cache interval nv t i = none
less_loop (suc fuel) cache interval nv t i = elim (leb nv (cache_at cache (tree_at t i))) [
  | false ↦ some t
  | true ↦
      let t' = set_tree t i interval in
      elim (i == 0) [
        | true ↦ some t'
        | false ↦ elim (p i) [ none ↦ none | some i' ↦ less_loop fuel cache interval nv t' i' ]
      ]
]

-- The head of the other loop: the new `nv` and `in`, or `none` at the `break`.
abbrev contest : ℕ → ℕ → ℕ → ℕ → ℕ → Option (ℕ × ℕ)
contest sv nv in' t_i si =
    if ltb sv nv then (if t_i == si then none else some (sv, si)) else some (nv, in')

-- `for(;;)`, with the variables `nv`, `in`, `si` and `i`.
unfoldable pub greater_loop : ℕ → Cache → ℕ → ℕ → ℕ → Tree → ℕ → Option Tree
greater_loop zero cache nv in' si t i = none
greater_loop (suc fuel) cache nv in' si t i =
    elim (contest (cache_at cache si) nv in' (tree_at t i) si) [
      | none ↦ some t
      | some (nv', in'') ↦
          let t' = set_tree t i in'' in
          elim (i == 0) [
            | true ↦ some t'
            | false ↦ elim (s i) [
              | none ↦ none
              | some sibling ↦ elim (p i) [
                | none ↦ none
                | some parent ↦ greater_loop fuel cache nv' in'' (tree_at t' sibling) t' parent
              ]
            ]
          ]
    ]

-- From a leaf to the root there are three nodes.
abbrev height : ℕ
height = 3

-- `cache[interval] = new_v`, and the loop for it. `interval` is 1.
unfoldable pub change : Cache → Tree → ℕ → Option Tree
unfolding interval_to_parent_index less_loop greater_loop p s
change old t new_v =
    let interval : ℕ = 1 in
    let cache = record old { cache₁ = new_v } in
    let nv = cache_at cache interval in
    elim (interval_to_parent_index interval) [
      | none ↦ none
      | some i ↦ elim (ltb new_v old.cache₁) [
        | true ↦ less_loop height cache interval nv t i
        | false ↦ greater_loop height cache nv interval (3 - interval) t i
      ]
    ]

-- The three loops that fill `t`: every choice of nodes that refer to a smallest value.
abbrev pub keep_if {ℓ} : {A : Type ℓ} → Bool → List A → List A
keep_if b xs = if b then xs else []

abbrev pub trees_with : Cache → ℕ → ℕ → List Tree
trees_with cache t3 t1 =
    let node = λ (t0 : ℕ).
      (let t : Tree = record { t₀ = t0; t₁ = t1; t₂ = 4; t₃ = t3; t₄ = 3 } in
        keep_if (leb (cache_at cache t0) (min (cache_at cache t1) (cache_at cache 4))) (t ∷ [])) in
    node t1 ++ node 4

abbrev pub trees_above : Cache → ℕ → List Tree
trees_above cache t3 =
    let node = λ (t1 : ℕ).
      keep_if (leb (cache_at cache t1) (min (cache_at cache t3) (cache_at cache 3)))
        (trees_with cache t3 t1) in
    node t3 ++ node 3

unfoldable pub trees : Cache → List Tree
trees cache =
    let node = λ (t3 : ℕ).
      keep_if (leb (cache_at cache t3) (min (cache_at cache 1) (cache_at cache 2)))
        (trees_above cache t3) in
    node 1 ++ node 2

-- Whether the algorithm succeeds and the test behind it passes.
abbrev pub passes : Cache → ℕ → Option Tree → Bool
passes old new_v none = false
passes old new_v (some t) = is_sane (record old { cache₁ = new_v }) t

-- `main`: the loops over the values, with the assertion in front of the algorithm and the test
-- behind it.
unfoldable pub main : List ℕ → Bool
main values =
    let with = λ (old_v new_v c2 c3 c4 : ℕ).
      (let cache : Cache = record { cache₁ = old_v; cache₂ = c2; cache₃ = c3; cache₄ = c4 } in
        every (λ t. is_sane cache t && passes cache new_v (change cache t new_v)) (trees cache)) in
    every
      (λ old_v.
        every
          (λ new_v.
            new_v == old_v
            || every (λ c2. every (λ c3. every (λ c4. with old_v new_v c2 c3 c4) values) values)
                values)
          values)
      values
