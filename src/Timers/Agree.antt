-- ===== src/Timers/Agree.antt =====
-- That the two implementations of src/timer_test.cxx agree.
use ai_statefultask_testsuit.Base.{
  ℕ, ◌+◌, ◌<◌, ◌≡◌, ◌≢◌, ◌⊎◌, refl, sym, ap, subst, ◌∙◌, inl, inr, true, ltb, ltb→lt, ◌==◌,
  if◌then◌else◌, none, some, arith, Bool-cases,
}
use ai_statefultask_testsuit.Timers.{Callback, set_at}
use ai_statefultask_testsuit.Timers.Expiring.{StopsPlain, Expires, Expires-agree}
use ai_statefultask_testsuit.Timers.Multimap.{is_running}
use ai_statefultask_testsuit.Timers.Multimap.Steps.{start-Keeps}
use ai_statefultask_testsuit.Timers.Multimap.Refines.{
  Holds as Holds0, expire_next-Expires as next-Expires0,
}
use ai_statefultask_testsuit.Timers.PriorityQueue.{Queues, IsPriorityQueue, expire_next_1}
use ai_statefultask_testsuit.Timers.PriorityQueue.Started.{start-IsQueued}
use ai_statefultask_testsuit.Timers.PriorityQueue.Refines.{
  Holds as Holds1, expire_next-Expires as next-Expires1,
}
use ai_statefultask_testsuit.Timers.Generate.{Both, nothing_started, start_both, expire_both}

module _ (Q : Queues) (L : IsPriorityQueue Q) where
  -- Both implementations have the same timers, of which those from `n` on were never started, and the
  -- same of them run. A timer that another one stops does not stop a third.
  pub record Agrees (n : ℕ) (points : ℕ → ℕ) (callbacks : ℕ → Callback) (b : Both Q) : Type 0 where
    pub holds0 : Holds0 n points callbacks b.timers0
    pub holds1 : Holds1 Q L n points callbacks b.timers1
    pub same : (j : ℕ) → is_running b.timers0 j ≡ b.timers1.m_handle j
    pub plain :
        (i k : ℕ)
        → i < n
        → callbacks i ≡ Callback.stops k
        → (k < n) × (callbacks k ≡ Callback.expires)

  pub nothing_started-Agrees : Agrees 0 (λ i. 0) (λ i. Callback.expires) (nothing_started Q)
  nothing_started-Agrees = record {
    holds0 = record {
      keeps = record {
        sorted = tt;
        entries = λ e i m. elim m [ ];
        held = λ i it h. absurd (ground arith);
        owned = λ e i m. elim m [ ];
        below = λ e m. elim m [ ];
        fresh = λ i le. refl;
      };
      accounted = record {
        distinct = tt;
        below = tt;
        all_running = refl;
        all_handles = refl;
        all_canceled = refl;
        all_started = refl;
      };
      points_are = refl;
      callbacks_are = refl;
    };
    holds1 = record {
      keeps = record {
        once = λ t i. (let z = L.times_empty t i in omega arith);
        entry = λ t i held. absurd (let z = L.times_empty t i in omega arith);
        queued = λ i r. absurd (ground arith);
        fresh = λ i le. (refl, λ t. L.times_empty t i);
      };
      points_are = refl;
      callbacks_are = refl;
    };
    same = λ j. refl;
    plain = λ i k lt. absurd (omega arith);
  }

  started_plain :
      (n : ℕ) (callbacks : ℕ → Callback) (c : Callback)
      → ((i k : ℕ)
          → i < n
          → callbacks i ≡ Callback.stops k
          → (k < n) × (callbacks k ≡ Callback.expires))
      → ((k : ℕ) → c ≡ Callback.stops k → (k < n) × (callbacks k ≡ Callback.expires))
      → (i k : ℕ) → i < n + 1
      → set_at n c callbacks i ≡ Callback.stops k
      → (k < n + 1) × (set_at n c callbacks k ≡ Callback.expires)
  started_plain n callbacks c old new i k lt e = elim (Bool-cases (i == n)) [
    | inl same ↦ let (lt', plain) = new k (ground arith) in ground arith
    | inr other ↦ let (lt', plain) = old i k (ground arith) (ground arith) in ground arith
  ]

  -- `start` in both, of a timer that was not started before.
  pub start_both-Agrees :
      (n point : ℕ) (c : Callback) (points : ℕ → ℕ) (callbacks : ℕ → Callback) (b : Both Q)
      → Agrees n points callbacks b
      → ((k : ℕ) → c ≡ Callback.stops k → (k < n) × (callbacks k ≡ Callback.expires))
      → (b' : Both Q) × (start_both Q n point c b ≡ some b')
        × Agrees (n + 1) (set_at n point points) (set_at n c callbacks) b'
        × ((j : ℕ) → is_running b'.timers0 j ≡ (if j == n then true else is_running b.timers0 j))
  unfolding start_both
  start_both-Agrees n point c points callbacks b p plain =
      let (s₀, e₀, k₀, a₀, r₀, points₀, callbacks₀) =
        start-Keeps n point c b.timers0 p.holds0.keeps in
      let (s₁, e₁, k₁, r₁, points₁, callbacks₁) =
        start-IsQueued Q L n point c b.timers1 p.holds1.keeps in
      (
        record { timers0 = s₀; timers1 = s₁ },
        rw (start_both, e₀, e₁) refl,
        record {
          holds0 = record {
            keeps = k₀;
            accounted = a₀ p.holds0.accounted;
            points_are = points₀ ∙ ap (set_at n point) p.holds0.points_are;
            callbacks_are = callbacks₀ ∙ ap (set_at n c) p.holds0.callbacks_are;
          };
          holds1 = record {
            keeps = k₁;
            points_are = points₁ ∙ ap (set_at n point) p.holds1.points_are;
            callbacks_are = callbacks₁ ∙ ap (set_at n c) p.holds1.callbacks_are;
          };
          same = λ j. r₀ j ∙ (ap (λ x. if j == n then true else x) (p.same j) ∙ sym (r₁ j));
          plain = started_plain n callbacks c p.plain plain;
        },
        r₀,
      )

  Agrees-StopsPlain :
      {n : ℕ} {points : ℕ → ℕ} {callbacks : ℕ → Callback} {b : Both Q}
      → Agrees n points callbacks b
      → StopsPlain points callbacks (is_running b.timers0)
  Agrees-StopsPlain {n = n} {b = b} p i k r e =
      (p.plain i k
        (elim (Bool-cases (ltb i n)) [
          | inl lt ↦ ltb→lt i n lt
          | inr ge ↦ absurd (let f = p.holds0.keeps.fresh i (ground arith) in ground arith)
        ])
        e).1

  -- `expire_next` in both implementations, if they agree, no timer that another one stops stops a
  -- third, and the priority queue behaves as documented: either no timer runs, and the assertion fails
  -- that there is one; or both end, all timers expire in them that run and have the least point in
  -- time, which `last_time_point` is then, and the others still run, but for those that are stopped by
  -- one which expires. Behind it they agree again.
  pub expire_both-Expires :
      (n : ℕ) (points : ℕ → ℕ) (callbacks : ℕ → Callback) (b : Both Q)
      → Agrees n points callbacks b
      → (((j : ℕ) → is_running b.timers0 j ≢ true) × (expire_both Q b ≡ none))
        ⊎ ((b' : Both Q) × (expire_both Q b ≡ some b')
            × Agrees n points callbacks b'
            × Expires points callbacks
                (is_running b.timers0)
                b'.timers0.last_time_point
                (is_running b'.timers0))
  unfolding expire_both
  expire_both-Expires n points callbacks b p =
      let plain = Agrees-StopsPlain p in
      elim (next-Expires0 n points callbacks b.timers0 p.holds0 plain) [
        | inl (idle, fails) ↦ inl (idle, rw (expire_both, fails) refl)
        | inr (now, s₀, e₀, h₀, x₀, last) ↦
            let (i, ri, due) = x₀.due in
            let (s₁, e₁, h₁, x₁) =
              next-Expires1 Q L n points callbacks now b.timers1 p.holds1
                (λ i' k r. plain i' k (p.same i' ∙ r)) (i, sym (p.same i) ∙ ri, due)
                (λ j r. x₀.least j (p.same j ∙ r)) in
            let e₁' : expire_next_1 Q s₀.last_time_point b.timers1 ≡ some s₁ =
              ap (λ t. expire_next_1 Q t b.timers1) last ∙ e₁ in
            inr (
              record { timers0 = s₀; timers1 = s₁ },
              rw (expire_both, e₀, e₁') refl,
              record {
                holds0 = h₀;
                holds1 = h₁;
                same =
                    (Expires-agree points callbacks (is_running b.timers0) b.timers1.m_handle
                      (is_running s₀) s₁.m_handle now now p.same x₀ x₁).1;
                plain = p.plain;
              },
              subst (λ t. Expires points callbacks (is_running b.timers0) t (is_running s₀))
                  (sym last) x₀,
            )
      ]
