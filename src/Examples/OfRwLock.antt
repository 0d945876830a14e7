-- ===== src/Examples/OfRwLock.antt =====
-- src/rwspinlock_test.cxx at concrete states.
use mathlib.Core.Option.{map}
use ai_statefultask_testsuit.RwLock.Nodes.{
  Graph, visit_node, initial_graph, find_node, visit_all, visit, connect, follow, find, add_legal,
  add_node,
}
use ai_statefultask_testsuit.RwLock.Nodes.Sound.{visit_node-IsSound, initial_graph-IsSound}
use ai_statefultask_testsuit.RwLock.Nodes.Find.{IsSound}
use ai_statefultask_testsuit.Base.{length, some, ◌<◌, ◌≤◌, ◌≡◌, ◌↔◌, refl, true, false}
use ai_statefultask_testsuit.RwLock.{State, Transition, apply, follow_up, is_stable, is_illegal}
use ai_statefultask_testsuit.RwLock.Attempt.{IsInitial, attempt, contract, attempt-eq-contract}
use ai_statefultask_testsuit.RwLock.Stable.{
  Row, Unsettles, behind, is_stable-iff-Row, attempt-IsExclusive, attempt-is_stable,
}

-- Two readers, one writer that waits.
abbrev contended : State
contended = record { c = 0; w = 0; v = 1; r = 2 }

-- One reader, one writer that waits.
abbrev last_reader : State
last_reader = record { c = 0; w = 0; v = 1; r = 1 }

attempt-eq-contract_example :
    attempt Transition.rd2wrlock contended ≡ contract Transition.rd2wrlock contended
unfolding is_stable
attempt-eq-contract_example = attempt-eq-contract IsInitial.rd2wrlock contended refl

is_stable-iff-Row_example : (is_stable contended ≡ true) ↔ Row contended
is_stable-iff-Row_example = is_stable-iff-Row contended

abbrev converting : State
converting = record { c = 1; w = 0; v = 2; r = 2 }

abbrev abandoned : State
abandoned = record { c = 0; w = 0; v = 1; r = 0 }

attempt-IsExclusive_example : (converting.w ≤ 1) × (0 < converting.w → converting.r ≡ 0)
unfolding is_stable attempt apply follow_up
attempt-IsExclusive_example =
    attempt-IsExclusive {f = Transition.failed_rd2wrlock} IsInitial.rd2wrlock contended
      {s' = converting} refl refl

attempt-is_stable_example :
    (is_stable (behind converting (attempt Transition.rd2wrlock converting)) ≡ false)
    ↔ Unsettles Transition.rd2wrlock converting
unfolding is_stable
attempt-is_stable_example = attempt-is_stable IsInitial.rd2wrlock converting refl

abbrev one_reader : State
one_reader = record { c = 0; w = 0; v = 0; r = 1 }

visit_node-IsSound_example :
    (g : Graph) × (visit_node one_reader initial_graph ≡ some g) × IsSound g
unfolding is_stable
visit_node-IsSound_example = visit_node-IsSound one_reader initial_graph refl initial_graph-IsSound

-- The number of stable nodes that the loops construct, and that there are behind a visit of one of
-- them: the visit adds nodes to the list that `main` is looping over.
initial_stable_nodes : length (initial_graph.stable_nodes) ≡ 6
unfolding initial_graph add_legal add_node is_illegal is_stable
initial_stable_nodes = refl

visit_adds_stable_nodes :
    map (λ g. length (g.stable_nodes)) (visit_node one_reader initial_graph) ≡ some 7
unfolding visit_all visit connect follow find_node find apply follow_up initial_graph add_legal
    add_node is_illegal is_stable
visit_adds_stable_nodes = refl
