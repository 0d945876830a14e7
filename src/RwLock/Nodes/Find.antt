-- ===== src/RwLock/Nodes/Find.antt =====
-- `find_node` of src/rwspinlock_test.cxx, and what the lists of nodes and the edges hold.
use ai_statefultask_testsuit.Base.{
  ◌≡◌, refl, inl, inr, true, false, none, some, List, [], ◌∷◌, ◌++◌, All, All-append, Bool-cases,
  Option-cases, arith,
}
use ai_statefultask_testsuit.RwLock.{State, Transition, is_illegal, is_stable, applied, apply}
use ai_statefultask_testsuit.RwLock.Nodes.{
  state_eq, Edge, Graph, find, add_node, find_node, add_edge, connect,
}

-- The nodes of one list are stable, those of the other are legal and not stable, and each edge is
-- a transition that `apply` carries out.
abbrev pub IsStable : State → Type 0
IsStable s = is_stable s ≡ true

abbrev pub IsUnstable : State → Type 0
IsUnstable s = (is_illegal s ≡ false) × (is_stable s ≡ false)

abbrev pub IsApplied : Edge → Type 0
IsApplied e = apply e.transition e.from ≡ applied e.to

abbrev pub IsSound : Graph → Type 0
IsSound g = All IsStable g.stable_nodes × (All IsUnstable g.unstable_nodes × All IsApplied g.edges)

state_eq→eq : (s s' : State) → state_eq s s' ≡ true → s ≡ s'
state_eq→eq s s' h = ground arith

find-eq : (s : State) (nodes : List State) {n : State} → find s nodes ≡ some n → n ≡ s
unfolding find
find-eq s [] e = cc
find-eq s (node ∷ nodes) e = elim (Bool-cases (state_eq node s)) [
  | inl same ↦ ground (arith, state_eq→eq node s same)
  | inr other ↦ find-eq s nodes (ground arith)
]

pub add_node-IsSound :
    (s : State) (g : Graph) → is_illegal s ≡ false → IsSound g → IsSound (add_node s g)
unfolding add_node
add_node-IsSound s g legal (st, (un, ed)) = elim (Bool-cases (is_stable s)) [
  | inl stable ↦ rw stable (All-append IsStable g.stable_nodes (s ∷ []) st (stable, tt), (un, ed))
  | inr other ↦
      rw other (st, (All-append IsUnstable g.unstable_nodes (s ∷ []) un ((legal, other), tt), ed))
]

-- `find_node` on a legal state gives a node with just this state.
find_node-IsSound :
    (s : State) (g : Graph)
    → is_illegal s ≡ false
    → IsSound g
    → (g' : Graph) × (find_node s g ≡ some (s, g')) × IsSound g'
unfolding find_node
find_node-IsSound s g legal sound = elim (Option-cases (find s g.stable_nodes)) [
  | inr (n, e) ↦ (g, rw (legal, e, find-eq s _ e) refl, sound)
  | inl absent ↦ elim (Option-cases (find s g.unstable_nodes)) [
    | inr (n, e) ↦ (g, rw (legal, absent, e, find-eq s _ e) refl, sound)
    | inl missing ↦
        (add_node s g, rw (legal, absent, missing) refl, add_node-IsSound s g legal sound)
  ]
]

pub connect-IsSound :
    (node s : State) (t : Transition) (g : Graph)
    → is_illegal s ≡ false
    → apply t node ≡ applied s
    → IsSound g
    → (g' : Graph) × (connect node t s g ≡ some (s, g')) × IsSound g'
unfolding connect
connect-IsSound node s t g legal step sound =
    let (g', e, (st, (un, ed))) = find_node-IsSound s g legal sound in
    (add_edge node t s g', rw e refl, (st, (un, (step, ed))))

state_eq_refl : (s : State) → state_eq s s ≡ true
state_eq_refl s = ground arith

find-snoc :
    (s : State) (nodes : List State) → find s nodes ≡ none → find s (nodes ++ (s ∷ [])) ≡ some s
unfolding find
find-snoc s [] e = rw (state_eq_refl s) refl
find-snoc s (node ∷ nodes) e = elim (Bool-cases (state_eq node s)) [
  | inl same ↦ absurd (ground arith)
  | inr other ↦ rw other (find-snoc s nodes (rw other at e))
]

find_node-stable :
    (s : State) (g : Graph)
    → is_illegal s ≡ false
    → find s g.stable_nodes ≡ some s
    → find_node s g ≡ some (s, g)
unfolding find_node
find_node-stable s g legal held = rw (legal, held) refl

find_node-unstable :
    (s : State) (g : Graph)
    → is_illegal s ≡ false
    → find s g.stable_nodes ≡ none
    → find s g.unstable_nodes ≡ some s
    → find_node s g ≡ some (s, g)
unfolding find_node
find_node-unstable s g legal absent held = rw (legal, absent, held) refl

add_node-find_node :
    (s : State) (g : Graph)
    → is_illegal s ≡ false
    → find s g.stable_nodes ≡ none
    → find s g.unstable_nodes ≡ none
    → find_node s (add_node s g) ≡ some (s, add_node s g)
unfolding add_node
add_node-find_node s g legal absent missing = elim (Bool-cases (is_stable s)) [
  | inl stable ↦
      find_node-stable s (add_node s g) legal (rw stable (find-snoc s g.stable_nodes absent))
  | inr other ↦
      find_node-unstable s (add_node s g) legal (rw other absent)
        (rw other (find-snoc s g.unstable_nodes missing))
]

-- On a legal state `find_node` gives a node with this state, whether or not it is new, and asked
-- again it gives the same node and leaves the graph as it is.
find_node-again :
    (s : State) (g : Graph)
    → is_illegal s ≡ false
    → (g' : Graph) × (find_node s g ≡ some (s, g')) × (find_node s g' ≡ some (s, g'))
unfolding find_node
find_node-again s g legal = elim (Option-cases (find s g.stable_nodes)) [
  | inr (n, e) ↦ (g, rw (legal, e, find-eq s _ e) refl, rw (legal, e, find-eq s _ e) refl)
  | inl absent ↦ elim (Option-cases (find s g.unstable_nodes)) [
    | inr (n, e) ↦
        (g, rw (legal, absent, e, find-eq s _ e) refl, rw (legal, absent, e, find-eq s _ e) refl)
    | inl missing ↦ (
      add_node s g,
      rw (legal, absent, missing) refl,
      add_node-find_node s g legal absent missing,
    )
  ]
]
