-- ===== src/Timers/Multimap/Kept.antt =====
-- How the multimap and the handles of implementation 0 of src/timer_test.cxx belong together.
use mathlib.Core.List.{Memᴰ}
use ai_statefultask_testsuit.Base.{
  ℕ, ◌+◌, ◌<◌, ◌≤◌, ◌≡◌, ◌≢◌, sym, ap, ◌∙◌, inl, inr, true, false, ◌==◌, ==_iff, Option, none, some,
  List, ◌∷◌, arith, Bool-cases,
}
use ai_statefultask_testsuit.Timers.{set_at}
use ai_statefultask_testsuit.Timers.Multimap.{Entry, Timers0, set_null, emplace}
use ai_statefultask_testsuit.Timers.Multimap.Nodes.{
  Sorted, set_null-Nulled, Sorted-Nulled, set_null-Memᴰ, Memᴰ-set_null, Memᴰ_behind, emplace-Memᴰ,
  Memᴰ-emplace, Memᴰ-emplace_new, emplace-Sorted,
}

-- The timers from `n` on have never been started.
pub record IsKept (n next : ℕ) (nodes : List Entry) (handle : ℕ → Option ℕ) (points : ℕ → ℕ)
    : Type 0 where
  pub sorted : Sorted nodes
  pub entries :
      (e : Entry) (i : ℕ)
      → Memᴰ e nodes
      → e.second ≡ some i
      → (handle i ≡ some e.iterator) × (points i ≡ e.first)
  pub held :
      (i it : ℕ)
      → handle i ≡ some it
      → (e : Entry) × Memᴰ e nodes × (e.iterator ≡ it) × (e.second ≡ some i)
  pub owned : (e : Entry) (i : ℕ) → Memᴰ e nodes → handle i ≡ some e.iterator → e.second ≡ some i
  pub below : (e : Entry) → Memᴰ e nodes → e.iterator < next
  pub fresh : (i : ℕ) → n ≤ i → handle i ≡ none

abbrev pub Keeps : ℕ → Timers0 → Type 0
Keeps n s = IsKept n s.next_iterator s.m_map s.m_handle s.m_expiration_point

-- No two running timers have one node.
IsKept-injective :
    {n next : ℕ} {nodes : List Entry} {handle : ℕ → Option ℕ} {points : ℕ → ℕ} {i j it : ℕ}
    → IsKept n next nodes handle points
    → handle i ≡ some it
    → handle j ≡ some it
    → i ≡ j
IsKept-injective {i = i} {j = j} {it = it} p hi hj =
    let (e, m, e_it, e_i) = p.held i it hi in
    let e_j = p.owned e j m (hj ∙ ap some (sym e_it)) in ground arith

set_none :
    (i j it : ℕ) (handle : ℕ → Option ℕ)
    → set_at i none handle j ≡ some it
    → (i ≢ j) × (handle j ≡ some it)
set_none i j it handle e = ground arith

other_timer :
    (handle : ℕ → Option ℕ) (i j it it' : ℕ)
    → handle i ≡ some it
    → handle j ≡ some it'
    → it' ≢ it
    → (j == i) ≡ false
other_timer handle i j it it' hi hj ne = elim (Bool-cases (j == i)) [
  | inl same ↦ absurd (let e = sym hj ∙ (ap handle ((==_iff j i).0 same) ∙ hi) in ne (ground arith))
  | inr other ↦ other
]

-- The entry of a timer that is canceled.
module _ {n next : ℕ} {nodes : List Entry} {handle : ℕ → Option ℕ} {points : ℕ → ℕ} {i it : ℕ}
    (p : IsKept n next nodes handle points) (hi : handle i ≡ some it) where
  null_entries :
      (e : Entry) (j : ℕ)
      → Memᴰ e (set_null it nodes)
      → e.second ≡ some j
      → (set_at i none handle j ≡ some e.iterator) × (points j ≡ e.first)
  null_entries e j m e_j =
      let (e', m', same_it, same_first, second) = set_null-Memᴰ it nodes e m in
      elim second [
        | inl (here, gone) ↦ absurd (let c = sym gone ∙ e_j in ground arith)
        | inr (elsewhere, kept) ↦
            let (h, f) = p.entries e' j m' (sym kept ∙ e_j) in
            let other = other_timer handle i j it e'.iterator hi h elsewhere in
            (rw other (h ∙ ap some (sym same_it)), f ∙ sym same_first)
      ]

  null_held :
      (j it' : ℕ)
      → set_at i none handle j ≡ some it'
      → (e : Entry) × Memᴰ e (set_null it nodes) × (e.iterator ≡ it') × (e.second ≡ some j)
  null_held j it' hj =
      let (ne, hj') = set_none i j it' handle hj in
      let (e, m, e_it, e_j) = p.held j it' hj' in
      let elsewhere : e.iterator ≢ it =
        λ same. ne (IsKept-injective p hi (hj' ∙ ap some (sym e_it ∙ same))) in
      (e, Memᴰ-set_null it nodes e m elsewhere, e_it, e_j)

  null_owned :
      (e : Entry) (j : ℕ)
      → Memᴰ e (set_null it nodes)
      → set_at i none handle j ≡ some e.iterator
      → e.second ≡ some j
  null_owned e j m hj =
      let (ne, hj') = set_none i j e.iterator handle hj in
      let (e', m', same_it, same_first, second) = set_null-Memᴰ it nodes e m in
      elim second [
        | inl (here, gone) ↦ absurd (ne (IsKept-injective p hi (hj' ∙ ap some (same_it ∙ here))))
        | inr (elsewhere, kept) ↦ kept ∙ p.owned e' j m' (hj' ∙ ap some same_it)
      ]

  pub set_null-IsKept : IsKept n next (set_null it nodes) (set_at i none handle) points
  set_null-IsKept = record {
    sorted = Sorted-Nulled (set_null-Nulled it nodes) p.sorted;
    entries = null_entries;
    held = null_held;
    owned = null_owned;
    below = λ e m.
        (let (e', m', same_it, same_first, second) = set_null-Memᴰ it nodes e m in
          let b = p.below e' m' in omega arith);
    fresh = λ j le. (let f = p.fresh j le in ground arith);
  }

-- The first node, which is canceled, is erased.
pub erase-IsKept :
    {n next : ℕ} {b : Entry} {es : List Entry} {handle : ℕ → Option ℕ} {points : ℕ → ℕ}
    → b.second ≡ none
    → IsKept n next (b ∷ es) handle points
    → IsKept n next es handle points
erase-IsKept {b = b} {es = es} null p = record {
  sorted = p.sorted.1;
  entries = λ e i m. p.entries e i (Memᴰ.tail m);
  held = λ i it h.
      (let (e, m, e_it, e_i) = p.held i it h in
        (
          e,
          Memᴰ_behind e b es m (λ same.
              (let c = sym null ∙ (sym (ap (λ (x : Entry). x.second) same) ∙ e_i) in ground arith)),
          e_it,
          e_i,
        ));
  owned = λ e i m. p.owned e i (Memᴰ.tail m);
  below = λ e m. p.below e (Memᴰ.tail m);
  fresh = p.fresh;
}

-- `start` of the timer `n`.
module _ {n next : ℕ} {nodes : List Entry} {handle : ℕ → Option ℕ} {points : ℕ → ℕ} (point : ℕ)
    (p : IsKept n next nodes handle points) where
  abbrev pub started : Entry
  started = record { iterator = next; first = point; second = some n }

  not_started : (i it : ℕ) → handle i ≡ some it → (i == n) ≡ false
  not_started i it h = elim (Bool-cases (i == n)) [
    | inl same ↦ absurd (
        let e = sym (p.fresh n (omega arith)) ∙ (sym (ap handle ((==_iff i n).0 same)) ∙ h) in
        ground arith)
    | inr other ↦ other
  ]

  started_entries :
      (e : Entry) (i : ℕ)
      → Memᴰ e (emplace started nodes)
      → e.second ≡ some i
      → (set_at n (some next) handle i ≡ some e.iterator) × (set_at n point points i ≡ e.first)
  started_entries e i m e_i = elim (emplace-Memᴰ started nodes e m) [
    | inl new ↦
        let it = ap (λ (x : Entry). x.iterator) new in
        let at = ap (λ (x : Entry). x.first) new in
        let second = sym e_i ∙ ap (λ (x : Entry). x.second) new in
        let same : (i == n) ≡ true = ground arith in rw same (ap some (sym it), sym at)
    | inr old ↦
        let (h, at) = p.entries e i old e_i in
        let other = not_started i e.iterator h in rw other (h, at)
  ]

  started_held :
      (i it : ℕ)
      → set_at n (some next) handle i ≡ some it
      → (e : Entry) × Memᴰ e (emplace started nodes) × (e.iterator ≡ it) × (e.second ≡ some i)
  started_held i it h = elim (Bool-cases (i == n)) [
    | inl here ↦
        let same : next ≡ it = ground arith in
        (started, Memᴰ-emplace_new started nodes, same, ap some (sym ((==_iff i n).0 here)))
    | inr other ↦
        let (e, m, e_it, e_i) = p.held i it (ground arith) in
        (e, Memᴰ-emplace started nodes e m, e_it, e_i)
  ]

  started_owned :
      (e : Entry) (i : ℕ)
      → Memᴰ e (emplace started nodes)
      → set_at n (some next) handle i ≡ some e.iterator
      → e.second ≡ some i
  started_owned e i m h = elim (emplace-Memᴰ started nodes e m) [
    | inl new ↦
        let it = ap (λ (x : Entry). x.iterator) new in
        let second = ap (λ (x : Entry). x.second) new in
        elim (Bool-cases (i == n)) [
          | inl here ↦ second ∙ ap some (sym ((==_iff i n).0 here))
          | inr other ↦ absurd (
              let (e', m', e_it, e_i) = p.held i e.iterator (ground arith) in
              let b = p.below e' m' in omega arith)
        ]
    | inr old ↦
        let b = p.below e old in
        p.owned e i old (elim (Bool-cases (i == n)) [
          | inl here ↦ absurd (let same : next ≡ e.iterator = ground arith in omega arith)
          | inr other ↦ ground arith
        ])
  ]

  pub emplace-IsKept :
      IsKept
        (n + 1)
        (next + 1)
        (emplace started nodes)
        (set_at n (some next) handle)
        (set_at n point points)
  emplace-IsKept = record {
    sorted = emplace-Sorted started nodes p.sorted;
    entries = started_entries;
    held = started_held;
    owned = started_owned;
    below = λ e m. elim (emplace-Memᴰ started nodes e m) [
      | inl new ↦ (let i = ap (λ (x : Entry). x.iterator) new in omega arith)
      | inr old ↦ (let b = p.below e old in omega arith)
    ];
    fresh = λ i le. (let f = p.fresh i (omega arith) in ground arith);
  }
