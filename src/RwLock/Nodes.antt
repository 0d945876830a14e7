-- ===== src/RwLock/Nodes.antt =====
-- The graph that `main` of src/rwspinlock_test.cxx builds: the lists of nodes, `find_node`, the
-- loops that fill the lists, and the inner loop over the transitions of one stable node. A
-- `Node*` is the state of the node, and the arrays `transitions` of all nodes are one list of
-- edges. `none` is a failed `ASSERT`, or a call of `apply` that does not return.
pub mod Find
pub mod Sound
use ai_statefultask_testsuit.Base.{
  ℕ, zero, suc, ◌+◌, Bool, true, false, not, ◌&&◌, ◌==◌, if◌then◌else◌, Option, none, some, List,
  [], ◌∷◌, ◌++◌,
}
use ai_statefultask_testsuit.RwLock.{
  State, Transition, is_illegal, is_stable, follow_up, applied, rejected, apply,
}

-- `operator==`
abbrev pub state_eq : State → State → Bool
state_eq s s' = s.c == s'.c && (s.w == s'.w && (s.v == s'.v && s.r == s'.r))

pub record Edge : Type 0 where
  pub from : State
  pub transition : Transition
  pub to : State

pub record Graph : Type 0 where
  pub stable_nodes : List State
  pub unstable_nodes : List State
  pub edges : List Edge

unfoldable pub find : State → List State → Option State
find s [] = none
find s (node ∷ nodes) = let rest = find s nodes in if state_eq node s then some node else rest

-- `emplace_back` on the list that the state belongs to.
unfoldable pub add_node : State → Graph → Graph
add_node s g =
    if is_stable s
    then record g { stable_nodes = g.stable_nodes ++ (s ∷ []) }
    else record g { unstable_nodes = g.unstable_nodes ++ (s ∷ []) }

unfoldable pub find_node : State → Graph → Option (State × Graph)
find_node s g = if is_illegal s then none else elim (find s g.stable_nodes) [
  | some node ↦ some (node, g)
  | none ↦ elim (find s g.unstable_nodes) [
    | some node ↦ some (node, g)
    | none ↦ some (s, add_node s g)
  ]
]

-- `for (int x = 0; x <= last; ++x)`, over the graph.
abbrev pub for_to : ℕ → (ℕ → Graph → Graph) → Graph → Graph
for_to zero body g = body 0 g
for_to (suc last) body g = body (suc last) (for_to last body g)

-- The body of the four loops that construct the lists.
unfoldable pub add_legal : State → Graph → Graph
add_legal s g = if is_illegal s then g else add_node s g

unfoldable pub initial_graph : Graph
initial_graph =
    for_to 2
      (λ c. for_to 2 λ w.
        for_to (c + 1) λ v. for_to (c + 1) λ r. add_legal (record { c = c; w = w; v = v; r = r }))
      (record { stable_nodes = []; unstable_nodes = []; edges = [] })

abbrev pub add_edge : State → Transition → State → Graph → Graph
add_edge from t to g = record g {
  edges = record { from = from; transition = t; to = to } ∷ g.edges;
}

infixl 5 ◌>>=◌
abbrev pub ◌>>=◌ : {A B : Type 0} → Option A → (A → Option B) → Option B
none >>= f = none
some a >>= f = f a

-- `node.transitions[t] = find_node(s)`, which gives the node behind the edge too.
unfoldable pub connect : State → Transition → State → Graph → Option (State × Graph)
unfolding find_node
connect node t s g = do (to, g') ← find_node s g; some (to, add_edge node t to g')

-- The follow-up of a transition that led to the node `via`, with the state `s`.
abbrev pub carry_out : Transition → State → State → Graph → Option Graph
carry_out f s via g = elim (apply f s) [
  | applied s' ↦ elim (connect via f s' g) [ none ↦ none | some (to, g') ↦ some g' ]
  | _ ↦ none
]

unfoldable pub follow : Transition → State → State → Graph → Option Graph
follow Transition.none s via g = some g
follow Transition.must_throw s via g = some g
follow f s via g = carry_out f s via g

-- The body of the inner loop.
unfoldable pub visit : State → Transition → Graph → Option Graph
visit node t g = elim (apply t node) [
  | applied s ↦ elim (connect node t s g) [
    | none ↦ none
    | some (via, g') ↦ follow (follow_up s node) s via g'
  ]
  | rejected ↦ some g
  | _ ↦ none
]

-- `first_transition` to `last_non_followup_transition`.
abbrev pub initial_transitions : List Transition
initial_transitions =
    Transition.rdlock ∷ Transition.rdunlock ∷ Transition.wrlock ∷ Transition.wrunlock
    ∷ Transition.wr2rdlock ∷ Transition.rd2wrlock ∷ []

unfoldable pub visit_all : State → List Transition → Graph → Option Graph
visit_all node [] g = some g
visit_all node (t ∷ ts) g = visit node t g >>= visit_all node ts

abbrev pub visit_node : State → Graph → Option Graph
visit_node node = visit_all node initial_transitions
