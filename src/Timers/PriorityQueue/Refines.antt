-- ===== src/Timers/PriorityQueue/Refines.antt =====
-- `expire_next` of implementation 1 of src/timer_test.cxx does what Expiring says.
use ai_statefultask_testsuit.Base.{
  ℕ, zero, suc, ◌+◌, ◌<◌, ◌≤◌, ◌≡◌, ◌≢◌, sym, ap, ◌∙◌, inl, inr, true, false, not, ◌&&◌, ltb, ◌==◌,
  ==_iff, none, some, arith, Bool-cases, Option-cases,
}
use ai_statefultask_testsuit.Timers.{Callback, Running, is_stopped_by}
use ai_statefultask_testsuit.Timers.Expiring.{
  StopsPlain, Expires, IsExpiring, IsWithout, none-IsExpiring, next-IsExpiring, all-Expires,
}
use ai_statefultask_testsuit.Timers.PriorityQueue.{
  Queues, IsPriorityQueue, Timers1, expire_1, expire_first_1, expire_same_1, expire_next_1,
}
use ai_statefultask_testsuit.Timers.PriorityQueue.Queued.{IsQueued, pop-canceled, expire-IsPopped}
use ai_statefultask_testsuit.Timers.PriorityQueue.Rounds.{
  first_canceled, first_expired, same_end, same_canceled, same_later, same_now,
}

module _ (Q : Queues) (L : IsPriorityQueue Q) (n : ℕ) (points : ℕ → ℕ)
    (callbacks : ℕ → Callback) where
  open L use {times}

  -- The members of the timers are these.
  pub record Holds (s : Timers1 Q) : Type 0 where
    pub keeps : IsQueued Q L n s.m_pqueue s.m_handle s.m_expiration_point s.m_canceled_1
    pub points_are : s.m_expiration_point ≡ points
    pub callbacks_are : s.m_call_back ≡ callbacks

  -- The first entry has the least point in time.
  first-least :
      {s : Timers1 Q} {t i : ℕ}
      → Holds s
      → Q.top s.m_pqueue ≡ some (t, i)
      → (j : ℕ) → s.m_handle j ≡ true
      → points i ≤ points j
  first-least {s = s} {t = t} {i = i} h e j r =
      let held = (h.keeps.queued j r).0 in
      let low = L.top_least s.m_pqueue t i (s.m_expiration_point j) j e held in
      let at_i = (h.keeps.entry t i (L.top_held s.m_pqueue t i e)).0 in
      let p_i = ap (λ f. f i) h.points_are in let p_j = ap (λ f. f j) h.points_are in omega arith

  nothing_runs : {s : Timers1 Q} → Holds s → Q.top s.m_pqueue ≡ none → (j : ℕ) → s.m_handle j ≢ true
  nothing_runs {s = s} h e j r =
      let held = (h.keeps.queued j r).0 in
      let z = L.top_none s.m_pqueue e (s.m_expiration_point j) j in omega arith

  popped-Holds :
      {s : Timers1 Q} {t i : ℕ}
      → Holds s
      → Q.top s.m_pqueue ≡ some (t, i)
      → s.m_canceled_1 i ≡ true
      → Holds (record s { m_pqueue = Q.pop s.m_pqueue })
  popped-Holds h e off = record {
    keeps = pop-canceled Q L h.keeps e off;
    points_are = h.points_are;
    callbacks_are = h.callbacks_are;
  }

  -- The timer of the first entry, which is not canceled, expires.
  pub record IsNext (last t i : ℕ) (s s' : Timers1 Q) : Type 0 where
    pub runs : s.m_handle i ≡ true
    pub result : expire_1 Q last i s ≡ some s'
    pub holds : Holds (record s' { m_pqueue = Q.pop s'.m_pqueue })
    pub fewer : Q.size (Q.pop s'.m_pqueue) + 1 ≡ Q.size s.m_pqueue
    pub without : IsWithout points callbacks s.m_handle i s'.m_handle
    pub still : s'.m_canceled_1 i ≡ false

  expire-IsNext :
      {s : Timers1 Q} {t i : ℕ} (last : ℕ)
      → Holds s
      → Q.top s.m_pqueue ≡ some (t, i)
      → s.m_canceled_1 i ≡ false
      → last ≡ points i
      → (s' : Timers1 Q) × IsNext last t i s s'
  expire-IsNext {s = s} {t = t} {i = i} last h e on now =
      let at_last = now ∙ sym (ap (λ f. f i) h.points_are) in
      let (runs, (s', e', x)) = expire-IsPopped Q L n t i last s h.keeps e on at_last in
      (
        s',
        record {
          runs = runs;
          result = e';
          holds = record {
            keeps = x.kept;
            points_are = x.same_points ∙ h.points_are;
            callbacks_are = x.same_callbacks ∙ h.callbacks_are;
          };
          fewer = ap (λ q. Q.size (Q.pop q) + 1) x.same_queue ∙ L.size-pop s.m_pqueue t i e;
          without = λ j.
              x.without j
              ∙ ap (λ f. (s.m_handle j && not (i == j)) && not (is_stopped_by (f i) j))
                  h.callbacks_are;
          still = x.not_canceled;
        },
      )

  -- What the second loop leaves of the timers that ran before both loops.
  pub record IsDone (before : Running) (now : ℕ) (s' : Timers1 Q) : Type 0 where
    pub holds : Holds s'
    pub expiring : IsExpiring points callbacks before now s'.m_handle
    pub all : (j : ℕ) → s'.m_handle j ≡ true → points j ≢ now

  runs_first :
      {s : Timers1 Q} {t i : ℕ}
      → Holds s
      → Q.top s.m_pqueue ≡ some (t, i)
      → s.m_canceled_1 i ≡ false
      → s.m_handle i ≡ true
  runs_first {s = s} {t = t} {i = i} h e on =
      let x = (h.keeps.entry t i (L.top_held s.m_pqueue t i e)).1 in ground arith

  module _ (before : Running) (now : ℕ) (plain : StopsPlain points callbacks before) where
    expire_same-IsDone :
        (fuel : ℕ) (s : Timers1 Q)
        → Holds s
        → IsExpiring points callbacks before now s.m_handle
        → ((j : ℕ) → s.m_handle j ≡ true → now ≤ points j)
        → Q.size s.m_pqueue < fuel
        → (s' : Timers1 Q) × (expire_same_1 Q now now fuel s ≡ some s') × IsDone before now s'
    expire_same-IsDone zero s h p least enough = absurd (omega arith)
    expire_same-IsDone (suc fuel) s h p least enough = elim (Option-cases (Q.top s.m_pqueue)) [
      | inl e ↦ (
        s,
        same_end Q now fuel s now e,
        record { holds = h; expiring = p; all = λ j r. absurd (nothing_runs h e j r) },
      )
      | inr ((t, i), e) ↦
          let len = L.size-pop s.m_pqueue t i e in
          elim (Bool-cases (s.m_canceled_1 i)) [
            | inl off ↦
                let (s', e', d) =
                  expire_same-IsDone fuel (record s { m_pqueue = Q.pop s.m_pqueue })
                    (popped-Holds h e off) p least (omega arith) in
                (s', same_canceled Q now fuel s now t i e off ∙ e', d)
            | inr on ↦
                let runs = runs_first h e on in
                let p_i = ap (λ f. f i) h.points_are in
                let early : ltb (s.m_expiration_point i) now ≡ false =
                  let l = least i runs in ground arith in
                elim (Bool-cases (s.m_expiration_point i == now)) [
                  | inr later ↦ (
                    s,
                    same_later Q now fuel s now t i e on early later,
                    record {
                      holds = h;
                      expiring = p;
                      all = λ j r same.
                          (let low = first-least h e j r in let l = least i runs in ground arith);
                    },
                  )
                  | inl due ↦
                      let at_now : points i ≡ now = sym p_i ∙ (==_iff _ now).0 due in
                      let (s₁, x) = expire-IsNext now h e on (sym at_now) in
                      let p' =
                        next-IsExpiring points callbacks before s.m_handle s₁.m_handle now i plain p
                          runs at_now x.without in
                      let len' = x.fewer in
                      let (s', e', d) =
                        expire_same-IsDone fuel (record s₁ { m_pqueue = Q.pop s₁.m_pqueue }) x.holds
                          p' (λ j r. least j (let w = x.without j in ground arith)) (omega arith) in
                      (s', same_now Q now fuel s now t i s₁ e on early due x.result ∙ e', d)
                ]
          ]
    ]

  -- What the first loop leaves: one of the timers that are due first has expired.
  pub record HasExpired (before : Running) (now : ℕ) (s' : Timers1 Q) : Type 0 where
    pub holds : Holds s'
    pub expiring : IsExpiring points callbacks before now s'.m_handle

  expire_first-HasExpired :
      (fuel now : ℕ) (s : Timers1 Q)
      → Holds s
      → StopsPlain points callbacks s.m_handle
      → (i : ℕ) × (s.m_handle i ≡ true) × (points i ≡ now)
      → ((j : ℕ) → s.m_handle j ≡ true → now ≤ points j)
      → Q.size s.m_pqueue ≤ fuel
      → (s' : Timers1 Q) × (expire_first_1 Q now fuel s ≡ some (now, s'))
        × HasExpired s.m_handle now s'
  expire_first-HasExpired zero now s h plain (j, rj, at_j) least enough =
      elim (Option-cases (Q.top s.m_pqueue)) [
        | inl e ↦ absurd (nothing_runs h e j rj)
        | inr ((t, i), e) ↦ absurd (let len = L.size-pop s.m_pqueue t i e in omega arith)
      ]
  expire_first-HasExpired (suc fuel) now s h plain (j, rj, at_j) least enough =
      elim (Option-cases (Q.top s.m_pqueue)) [
        | inl e ↦ absurd (nothing_runs h e j rj)
        | inr ((t, i), e) ↦
            let len = L.size-pop s.m_pqueue t i e in
            elim (Bool-cases (s.m_canceled_1 i)) [
              | inl off ↦
                  let (s', e', f) =
                    expire_first-HasExpired fuel now (record s { m_pqueue = Q.pop s.m_pqueue })
                      (popped-Holds h e off) plain (j, rj, at_j) least (omega arith) in
                  (s', first_canceled Q now fuel s t i e off ∙ e', f)
              | inr on ↦
                  let runs = runs_first h e on in
                  let low = first-least h e j rj in
                  let high = least i runs in
                  let at_now : now ≡ points i = omega arith in
                  let (s', x) = expire-IsNext now h e on at_now in
                  (
                    _,
                    first_expired Q now fuel s t i s' e on x.result x.still
                        ∙ ap (λ p. some (p, record s' { m_pqueue = Q.pop s'.m_pqueue }))
                            (ap (λ f. f i) h.points_are ∙ sym at_now),
                    record {
                      holds = x.holds;
                      expiring =
                          next-IsExpiring points callbacks s.m_handle s.m_handle s'.m_handle now i
                            plain (none-IsExpiring points callbacks s.m_handle now) runs
                            (sym at_now) x.without;
                    },
                  )
            ]
      ]

  -- `expire_next` of implementation 1, behind that of implementation 0.
  pub expire_next-Expires :
      (now : ℕ) (s : Timers1 Q)
      → Holds s
      → StopsPlain points callbacks s.m_handle
      → (i : ℕ) × (s.m_handle i ≡ true) × (points i ≡ now)
      → ((j : ℕ) → s.m_handle j ≡ true → now ≤ points j)
      → (s' : Timers1 Q) × (expire_next_1 Q now s ≡ some s')
        × Holds s'
        × Expires points callbacks s.m_handle now s'.m_handle
  unfolding expire_next_1
  expire_next-Expires now s h plain due least =
      let (s₁, e₁, f) =
        expire_first-HasExpired (Q.size s.m_pqueue) now s h plain due least (omega arith) in
      let (s₂, e₂, d) =
        expire_same-IsDone s.m_handle now plain (Q.size s₁.m_pqueue + 1) s₁ f.holds f.expiring
          (λ j r. least j (f.expiring.subset j r)) (omega arith) in
      (
        s₂,
        rw (expire_next_1, e₁) e₂,
        d.holds,
        all-Expires points callbacks s.m_handle s₂.m_handle now due least d.expiring d.all,
      )
