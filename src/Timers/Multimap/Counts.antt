-- ===== src/Timers/Multimap/Counts.antt =====
-- How many nodes of the multimap of src/timer_test.cxx have a timer, and how many timers run.
use ai_statefultask_testsuit.Base.{
  ℕ, zero, suc, ◌+◌, ◌<◌, ◌≤◌, ◌≡◌, ◌≢◌, refl, sym, ap, subst, ◌∙◌, inl, inr, true, false, ltb,
  ◌==◌, ==_iff, if◌then◌else◌, Option, none, some, List, [], ◌∷◌, arith, All, Bool-cases, is_some,
}
use ai_statefultask_testsuit.Timers.{Running, set_at}
use ai_statefultask_testsuit.Timers.Multimap.{Entry, emplace, second_of, set_null}
use ai_statefultask_testsuit.Timers.Multimap.Nodes.{Nulled}

abbrev pub one_if_live : Option ℕ → ℕ
one_if_live none = 0
one_if_live (some i) = 1

abbrev pub one_if_null : Option ℕ → ℕ
one_if_null none = 1
one_if_null (some i) = 0

-- How many nodes have a timer, and how many are canceled.
abbrev pub live : List Entry → ℕ
live [] = 0
live (e ∷ es) = one_if_live e.second + live es

abbrev pub nulls : List Entry → ℕ
nulls [] = 0
nulls (e ∷ es) = one_if_null e.second + nulls es

abbrev pub Distinct : List Entry → Type 0
Distinct [] = Unit
Distinct (e ∷ es) = All (λ (e' : Entry). e'.iterator ≢ e.iterator) es × Distinct es

abbrev pub IsBelow : ℕ → List Entry → Type 0
IsBelow next = All (λ (e : Entry). e.iterator < next)

pub set_null_other :
    (it : ℕ) (es : List Entry) → All (λ (e : Entry). e.iterator ≢ it) es → set_null it es ≡ es
unfolding set_null
set_null_other it [] h = refl
set_null_other it (e ∷ es) (h, hs) =
    let other : (e.iterator == it) ≡ false = ground arith in
    rw (set_null_other it es hs, other) refl

pub set_null_counts :
    (it i : ℕ) (es : List Entry)
    → Distinct es
    → second_of it es ≡ some i
    → (live (set_null it es) + 1 ≡ live es) × (nulls (set_null it es) ≡ nulls es + 1)
unfolding set_null second_of
set_null_counts it i [] d found = absurd (ground arith)
set_null_counts it i (e ∷ es) (h, hs) found = elim (Bool-cases (e.iterator == it)) [
  | inl here ↦
      let same = (==_iff e.iterator it).0 here in
      let rest =
        set_null_other it es (subst (λ x. All (λ (e' : Entry). e'.iterator ≢ x) es) same h) in
      let there : e.second ≡ some i = ground arith in
      rw (here, rest, there) (omega arith, omega arith)
  | inr other ↦
      let (l, c) = set_null_counts it i es hs (ground arith) in rw other (omega arith, omega arith)
]

pub All-Nulled_iterator :
    (P : ℕ → Type 0) {es es' : List Entry}
    → Nulled es es'
    → All (λ (e : Entry). P e.iterator) es
    → All (λ (e : Entry). P e.iterator) es'
All-Nulled_iterator P Nulled.nothing h = tt
All-Nulled_iterator P (Nulled.also i f s r) (h, hs) =
    (subst P (sym i) h, All-Nulled_iterator P r hs)

pub Distinct-Nulled : {es es' : List Entry} → Nulled es es' → Distinct es → Distinct es'
Distinct-Nulled Nulled.nothing d = tt
Distinct-Nulled (Nulled.also {es' = es'} i f s r) (h, hs) = (
  subst (λ it. All (λ (e' : Entry). e'.iterator ≢ it) es') (sym i)
      (All-Nulled_iterator (λ x. x ≢ _) r h),
  Distinct-Nulled r hs,
)

-- The number of the first `n` timers that run.
abbrev pub number_of : ℕ → Running → ℕ
number_of zero runs = 0
number_of (suc n) runs = (if runs n then 1 else 0) + number_of n runs

pub number_of_same :
    (n : ℕ) (runs runs' : Running)
    → ((j : ℕ) → j < n → runs j ≡ runs' j)
    → number_of n runs ≡ number_of n runs'
number_of_same zero runs runs' same = refl
number_of_same (suc n) runs runs' same =
    let here = same n (omega arith) in
    let rest = number_of_same n runs runs' (λ j lt. same j (omega arith)) in rw (here, rest) refl

pub number_without :
    (n i : ℕ) (handle : ℕ → Option ℕ)
    → i < n
    → is_some (handle i) ≡ true
    → number_of n (λ j. is_some (set_at i none handle j)) + 1
      ≡ number_of n (λ j. is_some (handle j))
number_without zero i handle lt runs = absurd (omega arith)
number_without (suc n) i handle lt runs = elim (Bool-cases (n == i)) [
  | inl same ↦
      let e = (==_iff n i).0 same in
      let rest =
        number_of_same n (λ j. is_some (set_at i none handle j)) (λ j. is_some (handle j))
          (λ j lt'. (let other : (j == i) ≡ false = ground arith in rw other refl)) in
      let runs' = ap (λ j. is_some (handle j)) e ∙ runs in rw (same, rest, runs') (omega arith)
  | inr other ↦ let rest = number_without n i handle (ground arith) runs in rw other (omega arith)
]

pub number_with :
    (n it : ℕ) (handle : ℕ → Option ℕ)
    → handle n ≡ none
    → number_of (n + 1) (λ j. is_some (set_at n (some it) handle j))
      ≡ number_of n (λ j. is_some (handle j)) + 1
number_with n it handle unused =
    let rest =
      number_of_same n (λ j. is_some (set_at n (some it) handle j)) (λ j. is_some (handle j))
        (λ j lt. (let other : (j == n) ≡ false = ground arith in rw other refl)) in
    let here : (n == n) ≡ true = ground arith in
    let one : n + 1 ≡ suc n = omega arith in
    ap (λ m. number_of m (λ j. is_some (set_at n (some it) handle j))) one
    ∙ (rw (rest, here) (omega arith))

pub emplace_counts :
    (x : Entry) (es : List Entry)
    → (live (emplace x es) ≡ one_if_live x.second + live es)
      × (nulls (emplace x es) ≡ one_if_null x.second + nulls es)
unfolding emplace
emplace_counts x [] = (refl, refl)
emplace_counts x (e ∷ es) =
    let (l, c) = emplace_counts x es in
    elim (Bool-cases (ltb x.first e.first)) [
      | inl before ↦ rw before (refl, refl)
      | inr behind ↦ rw behind (omega arith, omega arith)
    ]

pub All-emplace_iterator :
    (P : ℕ → Type 0) (x : Entry) (es : List Entry)
    → P x.iterator
    → All (λ (e : Entry). P e.iterator) es
    → All (λ (e : Entry). P e.iterator) (emplace x es)
unfolding emplace
All-emplace_iterator P x [] new h = (new, tt)
All-emplace_iterator P x (e ∷ es) new (h, hs) = elim (Bool-cases (ltb x.first e.first)) [
  | inl before ↦ rw before (new, (h, hs))
  | inr behind ↦ rw behind (h, All-emplace_iterator P x es new hs)
]

pub below_other :
    (next it : ℕ) (es : List Entry)
    → next ≤ it
    → IsBelow next es
    → All (λ (e : Entry). e.iterator ≢ it) es
below_other next it [] le h = tt
below_other next it (e ∷ es) le (h, hs) = ((λ same. omega arith), below_other next it es le hs)

pub emplace-Distinct :
    (x : Entry) (es : List Entry) → IsBelow x.iterator es → Distinct es → Distinct (emplace x es)
unfolding emplace
emplace-Distinct x [] b d = (tt, tt)
emplace-Distinct x (e ∷ es) (b, bs) (h, hs) = elim (Bool-cases (ltb x.first e.first)) [
  | inl before ↦
      rw before (below_other x.iterator x.iterator (e ∷ es) (omega arith) (b, bs), (h, hs))
  | inr behind ↦ rw behind (
    All-emplace_iterator (λ i. i ≢ e.iterator) x es (λ same. omega arith) h,
    emplace-Distinct x es bs hs,
  )
]

pub below_suc : (next : ℕ) (es : List Entry) → IsBelow next es → IsBelow (next + 1) es
below_suc next [] h = tt
below_suc next (e ∷ es) (h, hs) = (omega arith, below_suc next es hs)
