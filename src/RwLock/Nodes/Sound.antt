-- ===== src/RwLock/Nodes/Sound.antt =====
-- The loops of `main` in src/rwspinlock_test.cxx keep the graph sound.
use ai_statefultask_testsuit.Base.{
  ℕ, zero, suc, ◌+◌, ◌≡◌, refl, sym, ◌∙◌, ◌⊎◌, inl, inr, true, false, Option, some, List, [], ◌∷◌,
  All, Bool-cases, arith,
}
use ai_statefultask_testsuit.RwLock.{
  State, Transition, is_illegal, is_stable, follow_up, applied, rejected, apply, Outcome,
}
use ai_statefultask_testsuit.RwLock.Attempt.{
  IsInitial, attempt, contract, attempt-eq-contract, stuck, settled, skipped, finish, Attempt,
}
use ai_statefultask_testsuit.RwLock.Nodes.{
  Graph, carry_out, follow, visit, initial_transitions, visit_all, visit_node, initial_graph,
  add_legal, for_to,
}
use ai_statefultask_testsuit.RwLock.Nodes.Find.{IsSound, add_node-IsSound, connect-IsSound}

apply-is_illegal :
    (t : Transition) (s : State) {s' : State} → apply t s ≡ applied s' → is_illegal s' ≡ false
unfolding apply
apply-is_illegal Transition.none s e = ground arith
apply-is_illegal Transition.rdlock s e = ground arith
apply-is_illegal Transition.rdunlock s e = ground arith
apply-is_illegal Transition.wrlock s e = ground arith
apply-is_illegal Transition.wrunlock s e = ground arith
apply-is_illegal Transition.wr2rdlock s e = ground arith
apply-is_illegal Transition.rd2wrlock s e = ground arith
apply-is_illegal Transition.failed_rdlock s e = ground arith
apply-is_illegal Transition.failed_wrlock s e = ground arith
apply-is_illegal Transition.failed_rd2wrlock s e = ground arith
apply-is_illegal Transition.successful_rd2wrlock s e = ground arith
apply-is_illegal Transition.must_throw s e = ground arith

contract-never-stuck : {t : Transition} (i : IsInitial t) (s : State) → contract t s ≡ stuck → ⊥
contract-never-stuck IsInitial.rdlock s e = ground arith
contract-never-stuck IsInitial.rdunlock s e = ground arith
contract-never-stuck IsInitial.wrlock s e = ground arith
contract-never-stuck IsInitial.wrunlock s e = ground arith
contract-never-stuck IsInitial.wr2rdlock s e = ground arith
contract-never-stuck IsInitial.rd2wrlock s e = ground arith

abbrev Continues : Option Graph → Type 0
Continues o = (g' : Graph) × (o ≡ some g') × IsSound g'

settles :
    (f : Transition) (o : Outcome)
    → ((elim o [ applied s' ↦ settled f s' | _ ↦ stuck ]) ≡ stuck → ⊥)
    → (s' : State) × (o ≡ applied s')
settles f (Outcome.applied s) h = (s, refl)
settles f Outcome.rejected h = absurd (h refl)
settles f Outcome.assert_failed h = absurd (h refl)
settles f Outcome.fatal h = absurd (h refl)
settles f Outcome.below_zero h = absurd (h refl)

carry_out-applied :
    (f : Transition) (s s' : State) (g : Graph)
    → apply f s ≡ applied s'
    → IsSound g
    → Continues (carry_out f s s g)
carry_out-applied f s s' g step sound =
    let (g', e, sound') = connect-IsSound s s' f g (apply-is_illegal f s step) step sound in
    (g', rw (carry_out, step, e) refl, sound')

carry_out-IsSound :
    (f : Transition) (s : State) (g : Graph)
    → ((elim (apply f s) [ applied s' ↦ settled f s' | _ ↦ stuck ]) ≡ stuck → ⊥)
    → IsSound g
    → Continues (carry_out f s s g)
carry_out-IsSound f s g h sound =
    let (s', step) = settles f (apply f s) h in carry_out-applied f s s' g step sound

follow-IsSound :
    (f : Transition) (s : State) (g : Graph)
    → (finish f s ≡ stuck → ⊥)
    → IsSound g
    → Continues (follow f s s g)
unfolding follow
follow-IsSound Transition.none s g h sound = (g, refl, sound)
follow-IsSound Transition.must_throw s g h sound = (g, refl, sound)
follow-IsSound Transition.rdlock s g h sound = carry_out-IsSound _ s g h sound
follow-IsSound Transition.rdunlock s g h sound = carry_out-IsSound _ s g h sound
follow-IsSound Transition.wrlock s g h sound = carry_out-IsSound _ s g h sound
follow-IsSound Transition.wrunlock s g h sound = carry_out-IsSound _ s g h sound
follow-IsSound Transition.wr2rdlock s g h sound = carry_out-IsSound _ s g h sound
follow-IsSound Transition.rd2wrlock s g h sound = carry_out-IsSound _ s g h sound
follow-IsSound Transition.failed_rdlock s g h sound = carry_out-IsSound _ s g h sound
follow-IsSound Transition.failed_wrlock s g h sound = carry_out-IsSound _ s g h sound
follow-IsSound Transition.failed_rd2wrlock s g h sound = carry_out-IsSound _ s g h sound
follow-IsSound Transition.successful_rd2wrlock s g h sound = carry_out-IsSound _ s g h sound

attempt-never-stuck :
    {t : Transition} (i : IsInitial t) (s : State) → is_stable s ≡ true → attempt t s ≡ stuck → ⊥
attempt-never-stuck i s stable e =
    contract-never-stuck i s (sym (attempt-eq-contract i s stable) ∙ e)

-- What `attempt` goes on with, where it does not get stuck.
goes_on :
    (o : Outcome) (k : State → Attempt)
    → ((elim o [ applied s' ↦ k s' | rejected ↦ skipped | _ ↦ stuck ]) ≡ stuck → ⊥)
    → ((s : State) × (o ≡ applied s) × (k s ≡ stuck → ⊥)) ⊎ (o ≡ rejected)
goes_on (Outcome.applied s) k h = inl (s, refl, h)
goes_on Outcome.rejected k h = inr refl
goes_on Outcome.assert_failed k h = absurd (h refl)
goes_on Outcome.fatal k h = absurd (h refl)
goes_on Outcome.below_zero k h = absurd (h refl)

visit-applied :
    (t : Transition) (node s : State) (g : Graph)
    → apply t node ≡ applied s
    → (finish (follow_up s node) s ≡ stuck → ⊥)
    → IsSound g
    → Continues (visit node t g)
unfolding visit
visit-applied t node s g step h sound =
    let (g', e, sound') = connect-IsSound node s t g (apply-is_illegal t node step) step sound in
    let (g'', e', sound'') = follow-IsSound (follow_up s node) s g' h sound' in
    (g'', rw (visit, step, e, e') refl, sound'')

visit-rejected :
    (t : Transition) (node : State) (g : Graph)
    → apply t node ≡ rejected
    → IsSound g
    → Continues (visit node t g)
unfolding visit
visit-rejected t node g refused sound = (g, rw (visit, refused) refl, sound)

visit-IsSound :
    {t : Transition} (i : IsInitial t) (node : State) (g : Graph)
    → is_stable node ≡ true
    → IsSound g
    → Continues (visit node t g)
unfolding attempt
visit-IsSound {t = t} i node g stable sound =
    elim (goes_on (apply t node) (λ s. finish (follow_up s node) s)
      (attempt-never-stuck i node stable)) [
        | inl (s, step, h) ↦ visit-applied t node s g step h sound
        | inr refused ↦ visit-rejected t node g refused sound
      ]

visit_all-IsSound :
    (node : State) (ts : List Transition) (g : Graph)
    → All IsInitial ts
    → is_stable node ≡ true
    → IsSound g
    → Continues (visit_all node ts g)
unfolding visit_all
visit_all-IsSound node [] g initial stable sound = (g, refl, sound)
visit_all-IsSound node (t ∷ ts) g initial stable sound =
    let (g', e, sound') = visit-IsSound initial.0 node g stable sound in
    let (g'', e', sound'') = visit_all-IsSound node ts g' initial.1 stable sound' in
    (g'', rw (e, e') refl, sound'')

-- In a graph whose lists hold stable states and legal unstable ones, and whose edges are
-- transitions that `apply` carries out, the inner loop of `main` on a stable node meets no failed
-- assertion, and leaves such a graph.
pub visit_node-IsSound :
    (node : State) (g : Graph)
    → is_stable node ≡ true
    → IsSound g
    → (g' : Graph) × (visit_node node g ≡ some g') × IsSound g'
visit_node-IsSound node g stable sound =
    visit_all-IsSound node initial_transitions g
      (
        IsInitial.rdlock,
        (
          IsInitial.rdunlock,
          (
            IsInitial.wrlock,
            (IsInitial.wrunlock, (IsInitial.wr2rdlock, (IsInitial.rd2wrlock, tt))),
          ),
        ),
      )
      stable sound

for_to-IsSound :
    (last : ℕ) (body : ℕ → Graph → Graph)
    → ((n : ℕ) (g : Graph) → IsSound g → IsSound (body n g))
    → (g : Graph) → IsSound g
    → IsSound (for_to last body g)
for_to-IsSound zero body h g sound = h 0 g sound
for_to-IsSound (suc last) body h g sound =
    h (suc last) (for_to last body g) (for_to-IsSound last body h g sound)

add_legal-IsSound : (s : State) (g : Graph) → IsSound g → IsSound (add_legal s g)
unfolding add_legal
add_legal-IsSound s g sound = elim (Bool-cases (is_illegal s)) [
  | inl illegal ↦ rw illegal sound
  | inr legal ↦ rw legal (add_node-IsSound s g legal sound)
]

-- The loops that construct the lists put each state on the list for it.
pub initial_graph-IsSound : IsSound initial_graph
unfolding initial_graph
initial_graph-IsSound =
    for_to-IsSound 2 _
      (λ c. for_to-IsSound 2 _ (λ w. for_to-IsSound (c + 1) _ (λ v.
        for_to-IsSound (c + 1) _ (λ r. add_legal-IsSound (record { c = c; w = w; v = v; r = r })))))
      (record { stable_nodes = []; unstable_nodes = []; edges = [] }) (tt, (tt, tt))
