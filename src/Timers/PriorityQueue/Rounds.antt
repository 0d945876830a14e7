-- ===== src/Timers/PriorityQueue/Rounds.antt =====
-- One round of each loop of `expire_next` in implementation 1 of src/timer_test.cxx.
use ai_statefultask_testsuit.Base.{
  ℕ, suc, ◌≡◌, refl, ap, ◌∙◌, true, false, ltb, ◌==◌, if◌then◌else◌, none, some,
}
use ai_statefultask_testsuit.Timers.PriorityQueue.{
  Queues, Timers1, expire_1, expire_top, expire_first_1, expire_same_1,
}

module _ (Q : Queues) (last fuel : ℕ) (s : Timers1 Q) where
  abbrev pub popped : Timers1 Q → Timers1 Q
  popped s' = record s' { m_pqueue = Q.pop s'.m_pqueue }

  pub top_canceled : (i : ℕ) → s.m_canceled_1 i ≡ true → expire_top Q last i s ≡ some s
  unfolding expire_top
  top_canceled i off = rw off refl

  pub top_expired : (i : ℕ) → s.m_canceled_1 i ≡ false → expire_top Q last i s ≡ expire_1 Q last i s
  unfolding expire_top
  top_expired i on = ap (λ b. if b then some s else expire_1 Q last i s) on

  pub first_canceled :
      (t i : ℕ)
      → Q.top s.m_pqueue ≡ some (t, i)
      → s.m_canceled_1 i ≡ true
      → expire_first_1 Q last (suc fuel) s ≡ expire_first_1 Q last fuel (popped s)
  unfolding expire_first_1
  first_canceled t i e off = rw (expire_first_1, e, top_canceled i off, off) refl

  pub first_expired :
      (t i : ℕ) (s' : Timers1 Q)
      → Q.top s.m_pqueue ≡ some (t, i)
      → s.m_canceled_1 i ≡ false
      → expire_1 Q last i s ≡ some s'
      → s'.m_canceled_1 i ≡ false
      → expire_first_1 Q last (suc fuel) s ≡ some (s.m_expiration_point i, popped s')
  unfolding expire_first_1
  first_expired t i s' e on e' still =
      let expired : expire_top Q last i s ≡ some s' = top_expired i on ∙ e' in
      rw (expire_first_1, e, expired, still) refl

  module _ (now : ℕ) where
    pub same_end : Q.top s.m_pqueue ≡ none → expire_same_1 Q last now (suc fuel) s ≡ some s
    unfolding expire_same_1
    same_end e = rw (expire_same_1, e) refl

    pub same_canceled :
        (t i : ℕ)
        → Q.top s.m_pqueue ≡ some (t, i)
        → s.m_canceled_1 i ≡ true
        → expire_same_1 Q last now (suc fuel) s ≡ expire_same_1 Q last now fuel (popped s)
    unfolding expire_same_1
    same_canceled t i e off = rw (expire_same_1, e, off) refl

    pub same_later :
        (t i : ℕ)
        → Q.top s.m_pqueue ≡ some (t, i)
        → s.m_canceled_1 i ≡ false
        → ltb (s.m_expiration_point i) now ≡ false
        → (s.m_expiration_point i == now) ≡ false
        → expire_same_1 Q last now (suc fuel) s ≡ some s
    unfolding expire_same_1
    same_later t i e on early later = rw (expire_same_1, e, on, early, later) refl

    pub same_now :
        (t i : ℕ) (s' : Timers1 Q)
        → Q.top s.m_pqueue ≡ some (t, i)
        → s.m_canceled_1 i ≡ false
        → ltb (s.m_expiration_point i) now ≡ false
        → (s.m_expiration_point i == now) ≡ true
        → expire_1 Q last i s ≡ some s'
        → expire_same_1 Q last now (suc fuel) s ≡ expire_same_1 Q last now fuel (popped s')
    unfolding expire_same_1
    same_now t i s' e on early due e' = rw (expire_same_1, e, on, early, due, e') refl
