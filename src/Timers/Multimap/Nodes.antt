-- ===== src/Timers/Multimap/Nodes.antt =====
-- The lists of nodes of the multimap of src/timer_test.cxx.
use mathlib.Core.List.{Memᴰ}
use ai_statefultask_testsuit.Base.{
  ℕ, suc, ◌≤◌, ◌≡◌, ◌≢◌, ◌⊎◌, refl, sym, ap, subst, ◌∙◌, inl, inr, Bool, true, false, ltb, ◌==◌,
  ==_iff, if◌then◌else◌, Option, none, some, List, [], ◌∷◌, length, arith, All, Bool-cases,
}
use ai_statefultask_testsuit.Timers.Multimap.{Entry, emplace, erase, second_of, set_null}

abbrev pub Sorted : List Entry → Type 0
Sorted [] = Unit
Sorted (e ∷ es) = All (λ (e' : Entry). e.first ≤ e'.first) es × Sorted es

-- The same nodes, of which some are canceled.
pub data Nulled : List Entry → List Entry → Type 0 where
  nothing : Nulled [] []
  also :
      {e e' : Entry} {es es' : List Entry}
      → e'.iterator ≡ e.iterator
      → e'.first ≡ e.first
      → (e'.second ≡ none) ⊎ (e'.second ≡ e.second)
      → Nulled es es'
      → Nulled (e ∷ es) (e' ∷ es')

nulled_second :
    (a b c : Option ℕ) → (b ≡ none) ⊎ (b ≡ a) → (c ≡ none) ⊎ (c ≡ b) → (c ≡ none) ⊎ (c ≡ a)
nulled_second a b c p (inl q) = inl q
nulled_second a b c (inl p) (inr q) = inl (q ∙ p)
nulled_second a b c (inr p) (inr q) = inr (q ∙ p)

pub Nulled_refl : (es : List Entry) → Nulled es es
Nulled_refl [] = nothing
Nulled_refl (e ∷ es) = also refl refl (inr refl) (Nulled_refl es)

pub Nulled_trans : {es es' es'' : List Entry} → Nulled es es' → Nulled es' es'' → Nulled es es''
Nulled_trans nothing nothing = nothing
Nulled_trans (also i f s r) (also i' f' s' r') =
    also (i' ∙ i) (f' ∙ f) (nulled_second _ _ _ s s') (Nulled_trans r r')

pub length-Nulled : {es es' : List Entry} → Nulled es es' → length es' ≡ length es
length-Nulled nothing = refl
length-Nulled (also i f s r) = ap suc (length-Nulled r)

pub set_null-Nulled : (it : ℕ) (es : List Entry) → Nulled es (set_null it es)
unfolding set_null
set_null-Nulled it [] = nothing
set_null-Nulled it (e ∷ es) = elim (Bool-cases (e.iterator == it)) [
  | inl here ↦ rw here (also refl refl (inl refl) (set_null-Nulled it es))
  | inr other ↦ rw other (also refl refl (inr refl) (set_null-Nulled it es))
]

pub Nulled-cons :
    {b : Entry} {es es' : List Entry}
    → Nulled (b ∷ es) es'
    → (b' : Entry) × (rest : List Entry) × (es' ≡ b' ∷ rest)
      × (b'.iterator ≡ b.iterator)
      × ((b'.second ≡ none) ⊎ (b'.second ≡ b.second))
      × (length rest ≡ length es)
Nulled-cons (also {e' = b'} {es' = rest} i f s r) = (b', rest, refl, i, s, length-Nulled r)

pub erase_first : (it : ℕ) (b : Entry) (es : List Entry) → b.iterator ≡ it → erase it (b ∷ es) ≡ es
unfolding erase
erase_first it b es e = let h : (b.iterator == it) ≡ true = ground arith in rw h refl

All-Nulled :
    (low : ℕ) {es es' : List Entry}
    → Nulled es es'
    → All (λ (e : Entry). low ≤ e.first) es
    → All (λ (e : Entry). low ≤ e.first) es'
All-Nulled low nothing h = tt
All-Nulled low (also i f s r) (h, hs) = (omega arith, All-Nulled low r hs)

pub Sorted-Nulled : {es es' : List Entry} → Nulled es es' → Sorted es → Sorted es'
Sorted-Nulled nothing h = tt
Sorted-Nulled (also {es' = es'} i f s r) (h, hs) = (
  subst (λ x. All (λ (x' : Entry). x ≤ x'.first) es') (sym f) (All-Nulled _ r h),
  Sorted-Nulled r hs,
)

-- The entries behind a cancellation, and those that stay.
pub set_null-Memᴰ :
    (it : ℕ) (es : List Entry) (e : Entry)
    → Memᴰ e (set_null it es)
    → (e' : Entry) × Memᴰ e' es
      × (e.iterator ≡ e'.iterator)
      × (e.first ≡ e'.first)
      × (((e'.iterator ≡ it) × (e.second ≡ none)) ⊎ ((e'.iterator ≢ it) × (e.second ≡ e'.second)))
unfolding set_null
set_null-Memᴰ it [] e m = elim m [ ]
set_null-Memᴰ it (e' ∷ es) e (Memᴰ.head same) = elim (Bool-cases (e'.iterator == it)) [
  | inl here ↦
      let same' = subst (λ b. e ≡ (if b then record e' { second = none } else e')) here same in
      (
        e',
        Memᴰ.head refl,
        ap (λ (x : Entry). x.iterator) same',
        ap (λ (x : Entry). x.first) same',
        inl ((==_iff _ _).0 here, ap (λ (x : Entry). x.second) same'),
      )
  | inr other ↦
      let same' = subst (λ b. e ≡ (if b then record e' { second = none } else e')) other same in
      (
        e',
        Memᴰ.head refl,
        ap (λ (x : Entry). x.iterator) same',
        ap (λ (x : Entry). x.first) same',
        inr (ground arith, ap (λ (x : Entry). x.second) same'),
      )
]
set_null-Memᴰ it (e' ∷ es) e (Memᴰ.tail m) =
    let (x, mx, i, f, second) = set_null-Memᴰ it es e m in (x, Memᴰ.tail mx, i, f, second)

pub Memᴰ-set_null :
    (it : ℕ) (es : List Entry) (e : Entry) → Memᴰ e es → e.iterator ≢ it → Memᴰ e (set_null it es)
unfolding set_null
Memᴰ-set_null it [] e m ne = elim m [ ]
Memᴰ-set_null it (e' ∷ es) e (Memᴰ.head same) ne =
    let i = ap (λ (x : Entry). x.iterator) same in
    let other : (e'.iterator == it) ≡ false = ground arith in rw other (Memᴰ.head same)
Memᴰ-set_null it (e' ∷ es) e (Memᴰ.tail m) ne = Memᴰ.tail (Memᴰ-set_null it es e m ne)

pub Memᴰ_behind : (e b : Entry) (es : List Entry) → Memᴰ e (b ∷ es) → e ≢ b → Memᴰ e es
Memᴰ_behind e b es (Memᴰ.head same) ne = absurd (ne same)
Memᴰ_behind e b es (Memᴰ.tail m) ne = m

elsewhere : (e b : Entry) (it : ℕ) → e.iterator ≡ it → (b.iterator == it) ≡ false → e ≢ b
elsewhere e b it e_it other same = let i = ap (λ (x : Entry). x.iterator) same in ground arith

pub second_of-some :
    (it i : ℕ) (es : List Entry) (e : Entry)
    → Memᴰ e es
    → e.iterator ≡ it
    → ((e' : Entry) → Memᴰ e' es → e'.iterator ≡ it → e'.second ≡ some i)
    → second_of it es ≡ some i
unfolding second_of
second_of-some it i [] e m e_it all = elim m [ ]
second_of-some it i (e' ∷ es) e m e_it all = elim (Bool-cases (e'.iterator == it)) [
  | inl here ↦ rw here (all e' (Memᴰ.head refl) ((==_iff _ _).0 here))
  | inr other ↦ rw other (
      second_of-some it i es e (Memᴰ_behind e e' es m (elsewhere e e' it e_it other)) e_it
        (λ x mx. all x (Memᴰ.tail mx)))
]

All_at : (P : Entry → Type 0) (es : List Entry) (e : Entry) → All P es → Memᴰ e es → P e
All_at P [] e h m = elim m [ ]
All_at P (x ∷ es) e (h, hs) (Memᴰ.head same) = subst P (sym same) h
All_at P (x ∷ es) e (h, hs) (Memᴰ.tail m) = All_at P es e hs m

pub Sorted-least :
    (b : Entry) (es : List Entry) (e : Entry)
    → Sorted (b ∷ es)
    → Memᴰ e (b ∷ es)
    → b.first ≤ e.first
Sorted-least b es e (h, hs) (Memᴰ.head same) =
    let f = ap (λ (x : Entry). x.first) same in omega arith
Sorted-least b es e (h, hs) (Memᴰ.tail m) = All_at (λ (x : Entry). b.first ≤ x.first) es e h m

cons-Memᴰ : {e x : Entry} {es : List Entry} → Memᴰ e (x ∷ es) → (e ≡ x) ⊎ Memᴰ e es
cons-Memᴰ (Memᴰ.head same) = inl same
cons-Memᴰ (Memᴰ.tail m) = inr m

pub emplace-Memᴰ :
    (x : Entry) (es : List Entry) (e : Entry) → Memᴰ e (emplace x es) → (e ≡ x) ⊎ Memᴰ e es
unfolding emplace
emplace-Memᴰ x [] e m = cons-Memᴰ m
emplace-Memᴰ x (e' ∷ es) e m =
    let tested = λ (b : Bool). Memᴰ e (if b then x ∷ e' ∷ es else e' ∷ emplace x es) in
    elim (Bool-cases (ltb x.first e'.first)) [
      | inl before ↦ cons-Memᴰ (subst tested before m)
      | inr behind ↦ elim (cons-Memᴰ (subst tested behind m)) [
        | inl same ↦ inr (Memᴰ.head same)
        | inr m' ↦ elim (emplace-Memᴰ x es e m') [
          | inl new ↦ inl new
          | inr old ↦ inr (Memᴰ.tail old)
        ]
      ]
    ]

pub Memᴰ-emplace_new : (x : Entry) (es : List Entry) → Memᴰ x (emplace x es)
unfolding emplace
Memᴰ-emplace_new x [] = Memᴰ.head refl
Memᴰ-emplace_new x (e ∷ es) = elim (Bool-cases (ltb x.first e.first)) [
  | inl before ↦ rw before (Memᴰ.head refl)
  | inr behind ↦ rw behind (Memᴰ.tail (Memᴰ-emplace_new x es))
]

pub Memᴰ-emplace : (x : Entry) (es : List Entry) (e : Entry) → Memᴰ e es → Memᴰ e (emplace x es)
unfolding emplace
Memᴰ-emplace x [] e m = elim m [ ]
Memᴰ-emplace x (e' ∷ es) e m = elim (Bool-cases (ltb x.first e'.first)) [
  | inl before ↦ rw before (Memᴰ.tail m)
  | inr behind ↦ rw behind (elim (cons-Memᴰ m) [
    | inl same ↦ Memᴰ.head same
    | inr m' ↦ Memᴰ.tail (Memᴰ-emplace x es e m')
  ])
]

All-emplace :
    (low : ℕ) (x : Entry) (es : List Entry)
    → low ≤ x.first
    → All (λ (e : Entry). low ≤ e.first) es
    → All (λ (e : Entry). low ≤ e.first) (emplace x es)
unfolding emplace
All-emplace low x [] le h = (le, tt)
All-emplace low x (e' ∷ es) le (h, hs) = elim (Bool-cases (ltb x.first e'.first)) [
  | inl before ↦ rw before (le, (h, hs))
  | inr behind ↦ rw behind (h, All-emplace low x es le hs)
]

lower-All :
    (low high : ℕ) (es : List Entry)
    → low ≤ high
    → All (λ (e : Entry). high ≤ e.first) es
    → All (λ (e : Entry). low ≤ e.first) es
lower-All low high [] le h = tt
lower-All low high (e ∷ es) le (h, hs) = (omega arith, lower-All low high es le hs)

pub emplace-Sorted : (x : Entry) (es : List Entry) → Sorted es → Sorted (emplace x es)
unfolding emplace
emplace-Sorted x [] h = (tt, tt)
emplace-Sorted x (e ∷ es) (h, hs) = elim (Bool-cases (ltb x.first e.first)) [
  | inl before ↦ rw before ((ground arith, lower-All x.first e.first es (ground arith) h), (h, hs))
  | inr behind ↦ rw behind (All-emplace e.first x es (ground arith) h, emplace-Sorted x es hs)
]
