-- ===== src/Examples/OfTreeProp.antt =====
-- src/tree_prop.cc at concrete values.
use ai_statefultask_testsuit.Base.{◌≡◌, refl, true, some, [], ◌∷◌}
use ai_statefultask_testsuit.TreeProp.{Cache, Tree, is_sane, change, trees, main}
use ai_statefultask_testsuit.TreeProp.Update.{change-is_sane, main-eq-true}

abbrev cache : Cache
cache = record { cache₁ = 100; cache₂ = 300; cache₃ = 200; cache₄ = 500 }

abbrev tree : Tree
tree = record { t₀ = 1; t₁ = 1; t₂ = 4; t₃ = 1; t₄ = 3 }

trees_of_cache : trees cache ≡ tree ∷ []
unfolding trees
trees_of_cache = refl

change_to_400 : change cache tree 400 ≡ some (record { t₀ = 3; t₁ = 3; t₂ = 4; t₃ = 2; t₄ = 3 })
unfolding change
change_to_400 = refl

change-is_sane_example :
    (t' : Tree) × (change cache tree 400 ≡ some t')
    × (is_sane (record cache { cache₁ = 400 }) t' ≡ true)
unfolding is_sane
change-is_sane_example = change-is_sane cache tree 400 refl

main-eq-true_example : main (100 ∷ 200 ∷ 300 ∷ 400 ∷ 500 ∷ []) ≡ true
main-eq-true_example = main-eq-true (100 ∷ 200 ∷ 300 ∷ 400 ∷ 500 ∷ [])
