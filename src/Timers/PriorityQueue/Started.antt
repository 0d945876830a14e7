-- ===== src/Timers/PriorityQueue/Started.antt =====
-- `start` in implementation 1 of src/timer_test.cxx.
use ai_statefultask_testsuit.Base.{
  ℕ, ◌+◌, ◌<◌, ◌≤◌, ◌≡◌, ◌⊎◌, refl, ap, ◌∙◌, inl, inr, true, false, ◌==◌, ==_iff, if◌then◌else◌,
  some, arith, Bool-cases,
}
use ai_statefultask_testsuit.Timers.{Callback, set_at, Running}
use ai_statefultask_testsuit.Timers.PriorityQueue.{Queues, IsPriorityQueue, Timers1, start_1}
use ai_statefultask_testsuit.Timers.PriorityQueue.Queued.{IsQueued}

module _ (Q : Queues) (L : IsPriorityQueue Q) where
  open L use {times}

  module _ {n : ℕ} {queue : Q.Queue} {handle : Running} {points : ℕ → ℕ} {canceled : Running}
      (point : ℕ) (p : IsQueued Q L n queue handle points canceled) where
    unused : (t i : ℕ) → (i == n) ≡ true → times queue t i ≡ 0
    unused t i same = ap (times queue t) ((==_iff i n).0 same) ∙ (p.fresh n (omega arith)).1 t

    emplaced_once : (t i : ℕ) → times (Q.emplace point n queue) t i ≤ 1
    emplaced_once t i =
        let x = L.times-emplace point n queue t i in
        let y = p.once t i in
        elim (Bool-cases (i == n)) [
          | inl same ↦ let z = unused t i same in ground arith
          | inr other ↦ ground arith
        ]

    emplaced_entry :
        (t i : ℕ)
        → 0 < times (Q.emplace point n queue) t i
        → (set_at n point points i ≡ t)
          × ((set_at n true handle i ≡ true) ⊎ (set_at n false canceled i ≡ true))
    emplaced_entry t i held =
        let x = L.times-emplace point n queue t i in
        elim (Bool-cases (i == n)) [
          | inl same ↦ let z = unused t i same in ground arith
          | inr other ↦ let y = p.entry t i (ground arith) in ground arith
        ]

    emplaced_queued :
        (i : ℕ)
        → set_at n true handle i ≡ true
        → (0 < times (Q.emplace point n queue) (set_at n point points i) i)
          × (set_at n false canceled i ≡ false)
    emplaced_queued i r = elim (Bool-cases (i == n)) [
      | inl same ↦ let x = L.times-emplace point n queue point i in rw same (ground arith)
      | inr other ↦
          let (q, c) = p.queued i (ground arith) in
          let x = L.times-emplace point n queue (points i) i in rw other (ground arith)
    ]

    emplace-IsQueued :
        IsQueued Q L
          (n + 1)
          (Q.emplace point n queue)
          (set_at n true handle)
          (set_at n point points)
          (set_at n false canceled)
    emplace-IsQueued = record {
      once = emplaced_once;
      entry = emplaced_entry;
      queued = emplaced_queued;
      fresh = λ i le.
          (let (f, g) = p.fresh i (omega arith) in
            (
              ground arith,
              λ t. (let x = L.times-emplace point n queue t i in let y = g t in ground arith),
            ));
    }

  -- `start` of a timer that was not started before.
  pub start-IsQueued :
      (n point : ℕ) (c : Callback) (s : Timers1 Q)
      → IsQueued Q L n s.m_pqueue s.m_handle s.m_expiration_point s.m_canceled_1
      → (s' : Timers1 Q) × (start_1 Q n point c s ≡ some s')
        × IsQueued Q L (n + 1) s'.m_pqueue s'.m_handle s'.m_expiration_point s'.m_canceled_1
        × ((j : ℕ) → s'.m_handle j ≡ (if j == n then true else s.m_handle j))
        × (s'.m_expiration_point ≡ set_at n point s.m_expiration_point)
        × (s'.m_call_back ≡ set_at n c s.m_call_back)
  unfolding start_1
  start-IsQueued n point c s p =
      let idle = (p.fresh n (omega arith)).0 in
      rw (start_1, idle) (_, refl, emplace-IsQueued point p, λ j. refl, refl, refl)
