-- ===== src/TscKmod/Start/Extremes.antt =====
-- The smallest and the largest time of a row in src/kmod/tsc_kmod.c.
use ai_statefultask_testsuit.Base.{
  ℕ, ◌≤◌, ◌<◌, ◌≡◌, refl, sym, subst, ◌∙◌, ◌⊎◌, inl, inr, true, ◌||◌, ltb, ◌==◌, if◌then◌else◌,
  List, [], ◌∷◌, arith, All,
}
use ai_statefultask_testsuit.TscKmod.Start.{scan}

-- One of the items.
abbrev pub IsOneOf : ℕ → List ℕ → Type 0
IsOneOf a [] = ⊥
IsOneOf a (x ∷ xs) = (a ≡ x) ⊎ IsOneOf a xs

abbrev AreExtremes : List ℕ → ℕ × ℕ → Type 0
AreExtremes row (a, b) = All (λ t. (a ≤ t) × (t ≤ b)) row × IsOneOf a row × IsOneOf b row

-- What the loop ends in from `lo` and `hi` on.
abbrev Encloses : List ℕ → ℕ → ℕ → ℕ × ℕ → Type 0
Encloses ts lo hi (a, b) =
    (a ≤ lo)
    × (hi ≤ b)
    × All (λ t. (a ≤ t) × (t ≤ b)) ts
    × ((a ≡ lo) ⊎ IsOneOf a ts)
    × ((b ≡ hi) ⊎ IsOneOf b ts)

cons-Encloses :
    (t : ℕ) (ts : List ℕ) (lo hi lo' hi' : ℕ) (r : ℕ × ℕ)
    → (lo' ≤ lo) × (lo' ≤ t) × ((lo' ≡ lo) ⊎ (lo' ≡ t))
    → (hi ≤ hi') × (t ≤ hi') × ((hi' ≡ hi) ⊎ (hi' ≡ t))
    → Encloses ts lo' hi' r
    → Encloses (t ∷ ts) lo hi r
cons-Encloses t ts lo hi lo' hi' (a, b) l h (below, above, all, low, high) = (
  omega arith,
  omega arith,
  ((omega arith, omega arith), all),
  elim low [
    | inl e ↦ elim l.2 [ inl f ↦ inl (e ∙ f) | inr f ↦ inr (inl (e ∙ f)) ]
    | inr m ↦ inr (inr m)
  ],
  elim high [
    | inl e ↦ elim h.2 [ inl f ↦ inl (e ∙ f) | inr f ↦ inr (inl (e ∙ f)) ]
    | inr m ↦ inr (inr m)
  ],
)

scan-Encloses :
    (ts : List ℕ) (lo hi : ℕ) → 0 < lo → All (λ t. 0 < t) ts → Encloses ts lo hi (scan ts lo hi)
unfolding scan
scan-Encloses [] lo hi pos h = (omega arith, omega arith, tt, inl refl, inl refl)
scan-Encloses (t ∷ ts) lo hi pos h =
    let lo' : ℕ = (if lo == 0 || ltb t lo then t else lo) in
    let hi' : ℕ = (if ltb hi t then t else hi) in
    cons-Encloses t ts lo hi lo' hi' (scan ts lo' hi') (ground arith) (ground arith)
      (scan-Encloses ts lo' hi' (ground arith) h.1)

scan-start : (t : ℕ) (ts : List ℕ) → 0 < t → scan (t ∷ ts) 0 0 ≡ scan ts t t
unfolding scan
scan-start t ts h = let e : ltb 0 t ≡ true = ground arith in rw e refl

-- On a row of positive times the loop finds the smallest and the largest of them.
scan-extremes :
    (t : ℕ) (ts : List ℕ)
    → All (λ t. 0 < t) (t ∷ ts)
    → let (min_time, max_time) = scan (t ∷ ts) 0 0 in
      All (λ t. (min_time ≤ t) × (t ≤ max_time)) (t ∷ ts)
      × IsOneOf min_time (t ∷ ts)
      × IsOneOf max_time (t ∷ ts)
scan-extremes t ts h =
    let (below, above, all, low, high) = scan-Encloses ts t t h.0 h.1 in
    subst (AreExtremes (t ∷ ts)) (sym (scan-start t ts h.0)) (((below, above), all), low, high)
