-- ===== src/Core/Settle.antt =====
-- Which differences the loop in `f` of src/core.cc keeps, and how long they stand.
use mathlib.Core.List.{Memᴰ}
use ai_statefultask_testsuit.Base.{
  ℕ, ◌+◌, ◌≤◌, ◌≡◌, refl, sym, ap, subst, ◌∙◌, ◌⊎◌, inl, inr, true, false, ltb, ◌==◌, if◌then◌else◌,
  List, [], ◌∷◌, ◌++◌, arith, Bool-cases,
}
use ai_statefultask_testsuit.Core.{Reading, Loop, less, diff, other_index, is_quick, round}
use ai_statefultask_testsuit.Core.Rounds.{
  is_measured, lowers, lowers-is_measured, round-slot, round-count,
}

-- How many readings are quick.
abbrev pub quick : List Reading → ℕ
quick [] = 0
quick (r ∷ rs) = (if is_quick r then 1 else 0) + quick rs

-- The loop goes from `s` to `s'` on the readings `seen`, with the last new difference in `before`.
pub record IsSettled (limit : ℕ) (s s' : Loop) (seen : List Reading) : Type 0 where
  pub before : List Reading
  pub after : List Reading
  pub split : seen ≡ before ++ after
  pub least :
      (r : Reading)
      → Memᴰ r seen
      → is_measured r ≡ true
      → less (diff r) (s'.my_diff_buffer (other_index r)) ≡ false
  pub never_raised : (k : ℕ) → less (s.my_diff_buffer k) (s'.my_diff_buffer k) ≡ false
  pub found :
      (k : ℕ)
      → (s'.my_diff_buffer k ≡ s.my_diff_buffer k)
        ⊎ ((r : Reading) × Memᴰ r before
            × (is_measured r ≡ true)
            × (other_index r ≡ k)
            × (diff r ≡ s'.my_diff_buffer k))
  pub settled : ((before ≡ []) × (limit ≤ s.count + quick after)) ⊎ (limit ≤ quick after + 1)

not_less_trans : (a b c : ℕ) → less a b ≡ false → less b c ≡ false → less a c ≡ false
unfolding less
not_less_trans a b c p q = ground arith

less_asym : (a b : ℕ) → less a b ≡ true → less b a ≡ false
unfolding less
less_asym a b p = ground arith

less_irrefl : (a : ℕ) → less a a ≡ false
unfolding less
less_irrefl a = ground arith

pub end-IsSettled : (limit : ℕ) (s : Loop) → ltb s.count limit ≡ false → IsSettled limit s s []
end-IsSettled limit s e = record {
  before = [];
  after = [];
  split = refl;
  least = λ r m. elim m [ ];
  never_raised = λ k. less_irrefl (s.my_diff_buffer k);
  found = λ k. inl refl;
  settled = inl (refl, ground arith);
}

round-least :
    (r : Reading) (s : Loop)
    → is_measured r ≡ true
    → less (diff r) ((round r s).my_diff_buffer (other_index r)) ≡ false
unfolding lowers
round-least r s m =
    let irrefl = less_irrefl (diff r) in let slot = round-slot r s (other_index r) in ground arith

round-never_raised :
    (r : Reading) (s : Loop) (k : ℕ)
    → less (s.my_diff_buffer k) ((round r s).my_diff_buffer k) ≡ false
unfolding lowers
round-never_raised r s k =
    let irrefl = less_irrefl (s.my_diff_buffer k) in
    let asym = less_asym (diff r) (s.my_diff_buffer (other_index r)) in
    let slot = round-slot r s k in ground arith

-- What a round adds to `seen`, whatever it changes.
next-least :
    (limit : ℕ) (r : Reading) (s s' : Loop) (seen : List Reading)
    → IsSettled limit (round r s) s' seen
    → (r' : Reading) → Memᴰ r' (r ∷ seen)
    → is_measured r' ≡ true
    → less (diff r') (s'.my_diff_buffer (other_index r')) ≡ false
next-least limit r s s' seen p r' (Memᴰ.head e) m =
    let m' = subst (λ x. is_measured x ≡ true) e m in
    subst (λ x. less (diff x) (s'.my_diff_buffer (other_index x)) ≡ false) (sym e)
      (not_less_trans _ _ _ (round-least r s m') (p.never_raised (other_index r)))
next-least limit r s s' seen p r' (Memᴰ.tail i) m = p.least r' i m

next-never_raised :
    (limit : ℕ) (r : Reading) (s s' : Loop) (seen : List Reading)
    → IsSettled limit (round r s) s' seen
    → (k : ℕ) → less (s.my_diff_buffer k) (s'.my_diff_buffer k) ≡ false
next-never_raised limit r s s' seen p k =
    not_less_trans _ _ _ (round-never_raised r s k) (p.never_raised k)

lowers-found :
    (limit : ℕ) (r : Reading) (s s' : Loop) (seen : List Reading)
    → lowers r s ≡ true
    → (p : IsSettled limit (round r s) s' seen) (k : ℕ)
    → (s'.my_diff_buffer k ≡ s.my_diff_buffer k)
      ⊎ ((r' : Reading) × Memᴰ r' (r ∷ p.before)
          × (is_measured r' ≡ true)
          × (other_index r' ≡ k)
          × (diff r' ≡ s'.my_diff_buffer k))
lowers-found limit r s s' seen e p k =
    let slot = round-slot r s k in
    elim (p.found k) [
      | inr (r', m, measured, index, value) ↦ inr (r', Memᴰ.tail m, measured, index, value)
      | inl same ↦ elim (Bool-cases (k == other_index r)) [
        | inl here ↦ inr (r, Memᴰ.head refl, lowers-is_measured r s e, ground arith, ground arith)
        | inr other ↦ inl (ground arith)
      ]
    ]

lowers-IsSettled :
    (limit : ℕ) (r : Reading) (s s' : Loop) (seen : List Reading)
    → lowers r s ≡ true
    → IsSettled limit (round r s) s' seen
    → IsSettled limit s s' (r ∷ seen)
lowers-IsSettled limit r s s' seen e p = record {
  before = r ∷ p.before;
  after = p.after;
  split = ap (λ l. r ∷ l) p.split;
  least = next-least limit r s s' seen p;
  never_raised = next-never_raised limit r s s' seen p;
  found = lowers-found limit r s s' seen e p;
  settled = let c = round-count r s in let h = p.settled in inr (ground arith);
}

keeps-found :
    (limit : ℕ) (r : Reading) (s s' : Loop) (seen : List Reading)
    → lowers r s ≡ false
    → (p : IsSettled limit (round r s) s' seen) (k : ℕ)
    → (s'.my_diff_buffer k ≡ s.my_diff_buffer k)
      ⊎ ((r' : Reading) × Memᴰ r' p.before
          × (is_measured r' ≡ true)
          × (other_index r' ≡ k)
          × (diff r' ≡ s'.my_diff_buffer k))
keeps-found limit r s s' seen e p k =
    let slot = round-slot r s k in
    elim (p.found k) [ inr x ↦ inr x | inl same ↦ inl (ground arith) ]

keeps-IsSettled :
    (limit : ℕ) (r : Reading) (s s' : Loop) (seen : List Reading)
    → lowers r s ≡ false
    → IsSettled limit (round r s) s' seen
    → IsSettled limit s s' (r ∷ seen)
keeps-IsSettled limit r s s' seen e p = elim p.settled [
  | inl (none_before, long) ↦ record {
    before = p.before;
    after = r ∷ p.after;
    split = ap (λ l. r ∷ l) p.split ∙ rw none_before refl;
    least = next-least limit r s s' seen p;
    never_raised = next-never_raised limit r s s' seen p;
    found = keeps-found limit r s s' seen e p;
    settled = inl (none_before, (let c = round-count r s in ground arith));
  }
  | inr long ↦ record {
    before = r ∷ p.before;
    after = p.after;
    split = ap (λ l. r ∷ l) p.split;
    least = next-least limit r s s' seen p;
    never_raised = next-never_raised limit r s s' seen p;
    found = λ k. elim (keeps-found limit r s s' seen e p k) [
      | inl same ↦ inl same
      | inr (r', m, measured, slot, value) ↦ inr (r', Memᴰ.tail m, measured, slot, value)
    ];
    settled = inr long;
  }
]

pub round-IsSettled :
    (limit : ℕ) (r : Reading) (s s' : Loop) (seen : List Reading)
    → IsSettled limit (round r s) s' seen
    → IsSettled limit s s' (r ∷ seen)
round-IsSettled limit r s s' seen p = elim (Bool-cases (lowers r s)) [
  | inl e ↦ lowers-IsSettled limit r s s' seen e p
  | inr e ↦ keeps-IsSettled limit r s s' seen e p
]
