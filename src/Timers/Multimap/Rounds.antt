-- ===== src/Timers/Multimap/Rounds.antt =====
-- One round of each loop of `expire_next` in implementation 0 of src/timer_test.cxx.

use ai_statefultask_testsuit.Base.{
  ℕ, zero, suc, ◌+◌, ◌≡◌, refl, sym, ap, subst, ◌∙◌, true, false, ltb, ◌==◌, Option, none, some,
  List, [], ◌∷◌,
}
use ai_statefultask_testsuit.Timers.Multimap.{
  Entry, Timers0, expire, erase, expire_first, expire_same,
}
use ai_statefultask_testsuit.Timers.Multimap.Nodes.{erase_first}

-- The timers with the first node written out.
abbrev begin_with : Timers0 → Entry → List Entry → Option ℕ → Timers0
begin_with s b es second = record s { m_map = record b { second = second } ∷ es }

begin_with_lem :
    {s : Timers0} {b : Entry} {es : List Entry} {second : Option ℕ}
    → s.m_map ≡ b ∷ es
    → b.second ≡ second
    → s ≡ begin_with s b es second
begin_with_lem {s = s} {b = b} {es = es} e e_b =
    ap (λ l. record s { m_map = l }) e ∙ ap (λ x. begin_with s b es x) e_b

abbrev pub without_null : Timers0 → List Entry → Timers0
without_null s es = record s { canceled_removed = s.canceled_removed + 1; m_map = es }

-- One round of the second loop.
module _ (now fuel : ℕ) where
  same_end_begin :
      (s : Timers0)
      → expire_same now (suc fuel) (record s { m_map = [] }) ≡ some (record s { m_map = [] })
  unfolding expire_same
  same_end_begin s = refl

  same_null_begin :
      (s : Timers0) (b : Entry) (es : List Entry)
      → expire_same now (suc fuel) (begin_with s b es none)
        ≡ expire_same now fuel (without_null s (erase b.iterator (record b { second = none } ∷ es)))
  unfolding expire_same
  same_null_begin s b es = refl

  same_later_begin :
      (s : Timers0) (b : Entry) (es : List Entry) (i : ℕ)
      → ltb (s.m_expiration_point i) now ≡ false
      → (s.m_expiration_point i == now) ≡ false
      → expire_same now (suc fuel) (begin_with s b es (some i)) ≡ some (begin_with s b es (some i))
  unfolding expire_same
  same_later_begin s b es i early later = rw (expire_same, early, later) refl

  same_now_begin :
      (s s' : Timers0) (b : Entry) (es : List Entry) (i : ℕ)
      → ltb (s.m_expiration_point i) now ≡ false
      → (s.m_expiration_point i == now) ≡ true
      → expire i (begin_with s b es (some i)) ≡ some s'
      → expire_same now (suc fuel) (begin_with s b es (some i))
        ≡ expire_same now fuel (record s' { m_map = erase b.iterator s'.m_map })
  unfolding expire_same
  same_now_begin s s' b es i early due e = rw (expire_same, early, due, e) refl

  module _ (s : Timers0) where
    pub same_end : s.m_map ≡ [] → expire_same now (suc fuel) s ≡ some s
    same_end e =
        subst (λ s'. expire_same now (suc fuel) s' ≡ some s')
          (sym (ap (λ l. record s { m_map = l }) e)) (same_end_begin s)

    module _ {b : Entry} {es : List Entry} (e : s.m_map ≡ b ∷ es) where
      pub same_null :
          b.second ≡ none → expire_same now (suc fuel) s ≡ expire_same now fuel (without_null s es)
      same_null e_b =
          ap (expire_same now (suc fuel)) (begin_with_lem e e_b)
          ∙ (same_null_begin s b es
              ∙ ap (λ l. expire_same now fuel (without_null s l))
                  (erase_first b.iterator (record b { second = none }) es refl))

      pub same_later :
          {i : ℕ}
          → b.second ≡ some i
          → ltb (s.m_expiration_point i) now ≡ false
          → (s.m_expiration_point i == now) ≡ false
          → expire_same now (suc fuel) s ≡ some s
      same_later {i = i} e_b early later =
          subst (λ s'. expire_same now (suc fuel) s' ≡ some s') (sym (begin_with_lem e e_b))
            (same_later_begin s b es i early later)

      pub same_now :
          {i : ℕ} {s' : Timers0}
          → b.second ≡ some i
          → ltb (s.m_expiration_point i) now ≡ false
          → (s.m_expiration_point i == now) ≡ true
          → expire i s ≡ some s'
          → expire_same now (suc fuel) s
            ≡ expire_same now fuel (record s' { m_map = erase b.iterator s'.m_map })
      same_now {i = i} {s' = s'} e_b early due e_i =
          ap (expire_same now (suc fuel)) (begin_with_lem e e_b)
          ∙ same_now_begin s s' b es i early due (ap (expire i) (sym (begin_with_lem e e_b)) ∙ e_i)

pub first_zero : (s : Timers0) → expire_first zero s ≡ none
unfolding expire_first
first_zero s = refl

-- One round of the first loop.
module _ (fuel : ℕ) where
  first_end_begin : (s : Timers0) → expire_first (suc fuel) (record s { m_map = [] }) ≡ none
  unfolding expire_first
  first_end_begin s = refl

  first_null_begin :
      (s : Timers0) (b : Entry) (es : List Entry)
      → expire_first (suc fuel) (begin_with s b es none)
        ≡ expire_first fuel (without_null s (erase b.iterator (record b { second = none } ∷ es)))
  unfolding expire_first
  first_null_begin s b es = refl

  first_now_begin :
      (s s' : Timers0) (b : Entry) (es : List Entry) (i : ℕ)
      → expire i (begin_with s b es (some i)) ≡ some s'
      → expire_first (suc fuel) (begin_with s b es (some i))
        ≡ some (s.m_expiration_point i, record s' { m_map = erase b.iterator s'.m_map })
  unfolding expire_first
  first_now_begin s s' b es i e = rw (expire_first, e) refl

  module _ (s : Timers0) where
    pub first_end : s.m_map ≡ [] → expire_first (suc fuel) s ≡ none
    first_end e =
        subst (λ s'. expire_first (suc fuel) s' ≡ none) (sym (ap (λ l. record s { m_map = l }) e))
          (first_end_begin s)

    module _ {b : Entry} {es : List Entry} (e : s.m_map ≡ b ∷ es) where
      pub first_null :
          b.second ≡ none → expire_first (suc fuel) s ≡ expire_first fuel (without_null s es)
      first_null e_b =
          ap (expire_first (suc fuel)) (begin_with_lem e e_b)
          ∙ (first_null_begin s b es
              ∙ ap (λ l. expire_first fuel (without_null s l))
                  (erase_first b.iterator (record b { second = none }) es refl))

      pub first_now :
          {i : ℕ} {s' : Timers0}
          → b.second ≡ some i
          → expire i s ≡ some s'
          → expire_first (suc fuel) s
            ≡ some (s.m_expiration_point i, record s' { m_map = erase b.iterator s'.m_map })
      first_now {i = i} {s' = s'} e_b e_i =
          ap (expire_first (suc fuel)) (begin_with_lem e e_b)
          ∙ first_now_begin s s' b es i (ap (expire i) (sym (begin_with_lem e e_b)) ∙ e_i)
