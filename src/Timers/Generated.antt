-- ===== src/Timers/Generated.antt =====
-- The implementations agree throughout `generate` of src/timer_test.cxx.
use ai_statefultask_testsuit.Base.{
  ℕ, ◌+◌, ◌-◌, ◌%◌, ◌<◌, ◌≡◌, ◌≢◌, refl, subst, inl, inr, Bool, true, ◌&&◌, ltb, ◌==◌, some, List,
  [], ◌∷◌, arith, Bool-cases,
}
use ai_statefultask_testsuit.Timers.{Callback}
use ai_statefultask_testsuit.Timers.Multimap.{is_running}
use ai_statefultask_testsuit.Timers.PriorityQueue.{Queues, IsPriorityQueue}
use ai_statefultask_testsuit.Timers.Generate.{
  Both, nothing_started, now, start_second, first_round, first_loop, Run, start_stopper,
  expire_more, second_round, second_loop, generate,
}
use ai_statefultask_testsuit.Timers.Agree.{
  Agrees, nothing_started-Agrees, start_both-Agrees, expire_both-Expires,
}

stops_last :
    (nt : ℕ) (callbacks : ℕ → Callback)
    → callbacks nt ≡ Callback.expires
    → (k : ℕ) → Callback.stops nt ≡ Callback.stops k
    → (k < nt + 1) × (callbacks k ≡ Callback.expires)
stops_last nt callbacks plain k e =
    let same : nt ≡ k = ground arith in
    (omega arith, subst (λ i. callbacks i ≡ Callback.expires) same plain)

module _ (Q : Queues) (L : IsPriorityQueue Q) where
  -- The implementations agree, for some points in time and callbacks of `n` timers.
  pub record IsAgreed (n : ℕ) (b : Both Q) : Type 0 where
    pub points : ℕ → ℕ
    pub callbacks : ℕ → Callback
    pub agrees : Agrees Q L n points callbacks b

  nothing_started-IsAgreed : IsAgreed 0 (nothing_started Q)
  nothing_started-IsAgreed = record {
    points = λ i. 0;
    callbacks = λ i. Callback.expires;
    agrees = nothing_started-Agrees Q L;
  }

  module _ (durations : ℕ → ℕ) where
    start_second-IsAgreed :
        (n index nt : ℕ) (points : ℕ → ℕ) (callbacks : ℕ → Callback) (b : Both Q)
        → Agrees Q L (nt + 1) points callbacks b
        → callbacks nt ≡ Callback.expires
        → (b' : Both Q) × (start_second Q durations n index nt b ≡ some (nt + 1 + 1, b'))
          × IsAgreed (nt + 1 + 1) b'
    unfolding start_second
    start_second-IsAgreed n index nt points callbacks b p plain =
        let point = now n + durations (index - 1) in
        let (b₁, e₁, p₁, r₁) =
          start_both-Agrees Q L (nt + 1) point (Callback.stops nt) points callbacks b p
            (stops_last nt callbacks plain) in
        elim (expire_both-Expires Q L (nt + 1 + 1) _ _ b₁ p₁) [
          | inl (idle, fails) ↦ absurd (idle (nt + 1) (let r = r₁ (nt + 1) in ground arith))
          | inr (b₂, e₂, p₂, x) ↦ (
            b₂,
            rw (start_second, e₁, e₂) refl,
            record { points = _; callbacks = _; agrees = p₂ },
          )
        ]

    first_round-IsAgreed :
        (n index nt : ℕ) (b : Both Q)
        → IsAgreed nt b
        → (nt' : ℕ) × (b' : Both Q) × (first_round Q durations n index nt b ≡ some (nt', b'))
          × IsAgreed nt' b'
    unfolding first_round
    first_round-IsAgreed n index nt b p =
        let point = now n + durations index in
        let (b₁, e₁, p₁, r₁) =
          start_both-Agrees Q L nt point Callback.expires p.points p.callbacks b p.agrees
            (λ k e. absurd (ground arith)) in
        elim (Bool-cases (n % 2 == 0 && ltb 0 index)) [
          | inr only ↦ (
            nt + 1,
            b₁,
            rw (first_round, e₁, only) refl,
            record { points = _; callbacks = _; agrees = p₁ },
          )
          | inl both ↦
              let (b₂, e₂, p₂) = start_second-IsAgreed n index nt _ _ b₁ p₁ (ground arith) in
              (nt + 1 + 1, b₂, rw (first_round, e₁, both) e₂, p₂)
        ]

    first_loop-IsAgreed_from :
        (indices : List ℕ) (n nt : ℕ) (b : Both Q)
        → IsAgreed nt b
        → (nt' : ℕ) × (b' : Both Q) × (first_loop Q durations n indices nt b ≡ some (nt', b'))
          × IsAgreed nt' b'
    unfolding first_loop
    first_loop-IsAgreed_from [] n nt b p = (nt, b, refl, p)
    first_loop-IsAgreed_from (index ∷ indices) n nt b p =
        let (nt₁, b₁, e₁, p₁) = first_round-IsAgreed n index nt b p in
        let (nt₂, b₂, e₂, p₂) = first_loop-IsAgreed_from indices (n + 1) nt₁ b₁ p₁ in
        (nt₂, b₂, rw (first_loop, e₁) e₂, p₂)

    first_loop-IsAgreed :
        (random_intervals : List ℕ)
        → (nt : ℕ) × (b : Both Q) × (first_loop Q durations 0 random_intervals 0 (nothing_started Q)
            ≡ some (nt, b))
          × IsAgreed nt b
    first_loop-IsAgreed random_intervals =
        first_loop-IsAgreed_from random_intervals 0 0 (nothing_started Q) nothing_started-IsAgreed

  -- What `generate` is to come to: timers on which the implementations agree, or such timers, of which
  -- none runs, in a call of `expire_next`.
  abbrev pub IsOutcome : Run Q → Type 0
  IsOutcome (Run.passed m nt b) = IsAgreed nt b
  IsOutcome (Run.not_expired b) =
      (nt : ℕ) × IsAgreed nt b × ((j : ℕ) → is_running b.timers0 j ≢ true)
  IsOutcome Run.stuck = ⊥

  module _ (durations : ℕ → ℕ) (is_below : ℕ → ℕ → Bool) where
    start_stopper-IsAgreed :
        (n index nt : ℕ) (points : ℕ → ℕ) (callbacks : ℕ → Callback) (b : Both Q)
        → Agrees Q L (nt + 1) points callbacks b
        → callbacks nt ≡ Callback.expires
        → (nt' : ℕ) × (b' : Both Q) × (start_stopper Q durations is_below n index nt b
            ≡ some (nt', b'))
          × IsAgreed nt' b'
    unfolding start_stopper
    start_stopper-IsAgreed n index nt points callbacks b p plain =
        elim (Bool-cases (n % 2 == 0 && ltb 0 index)) [
          | inr only ↦ (
            nt + 1,
            b,
            rw (start_stopper, only) refl,
            record { points = points; callbacks = callbacks; agrees = p },
          )
          | inl both ↦
              let (b₁, e₁, p₁, r₁) =
                start_both-Agrees Q L (nt + 1) (now n + durations (index - 1)) (Callback.stops nt)
                  points callbacks b p (stops_last nt callbacks plain) in
              (
                nt + 1 + 1,
                b₁,
                rw (start_stopper, both, e₁) refl,
                record { points = _; callbacks = _; agrees = p₁ },
              )
        ]

    expire_more-IsOutcome :
        (n m nt : ℕ) (b : Both Q)
        → IsAgreed nt b
        → IsOutcome (expire_more Q durations is_below n m nt b)
    unfolding expire_more
    expire_more-IsOutcome n m nt b p =
        elim (expire_both-Expires Q L nt p.points p.callbacks b p.agrees) [
          | inl (idle, fails) ↦ rw (expire_more, fails) (nt, p, idle)
          | inr (b₁, e₁, p₁, x₁) ↦
              let q : IsAgreed nt b₁ = record { points = _; callbacks = _; agrees = p₁ } in
              elim (Bool-cases (is_below m n)) [
                | inr once ↦ rw (expire_more, e₁, once) q
                | inl twice ↦ elim (expire_both-Expires Q L nt p.points p.callbacks b₁ p₁) [
                  | inl (idle, fails) ↦ rw (expire_more, e₁, twice, fails) (nt, q, idle)
                  | inr (b₂, e₂, p₂, x₂) ↦
                      rw (expire_more, e₁, twice, e₂)
                        (record { points = _; callbacks = _; agrees = p₂ })
                ]
              ]
        ]

    second_round-IsOutcome :
        (n index m nt : ℕ) (b : Both Q)
        → IsAgreed nt b
        → IsOutcome (second_round Q durations is_below n index m nt b)
    unfolding second_round
    second_round-IsOutcome n index m nt b p =
        let (b₁, e₁, p₁, r₁) =
          start_both-Agrees Q L nt (now n + durations index) Callback.expires p.points p.callbacks b
            p.agrees (λ k e. absurd (ground arith)) in
        let (nt₂, b₂, e₂, p₂) = start_stopper-IsAgreed n index nt _ _ b₁ p₁ (ground arith) in
        rw (second_round, e₁, e₂) (expire_more-IsOutcome n m nt₂ b₂ p₂)

    behind_round :
        (indices : List ℕ) (n : ℕ)
        → ((m nt : ℕ) (b : Both Q)
            → IsAgreed nt b
            → IsOutcome (second_loop Q durations is_below (n + 1) indices m nt b))
        → (r : Run Q) → IsOutcome r
        → IsOutcome (elim r [
          | Run.passed m' nt' b' ↦ second_loop Q durations is_below (n + 1) indices m' nt' b'
          | Run.not_expired b' ↦ Run.not_expired b'
          | Run.stuck ↦ Run.stuck
        ])
    behind_round indices n next (Run.passed m' nt' b') q = next m' nt' b' q
    behind_round indices n next (Run.not_expired b') q = q
    behind_round indices n next Run.stuck q = absurd q

    second_loop-IsOutcome :
        (indices : List ℕ) (n m nt : ℕ) (b : Both Q)
        → IsAgreed nt b
        → IsOutcome (second_loop Q durations is_below n indices m nt b)
    unfolding second_loop
    second_loop-IsOutcome [] n m nt b p = p
    second_loop-IsOutcome (index ∷ indices) n m nt b p =
        behind_round indices n (λ m' nt' b'. second_loop-IsOutcome indices (n + 1) m' nt' b')
          (second_round Q durations is_below n index m nt b)
          (second_round-IsOutcome n index m nt b p)

    -- Whatever the durations and the random numbers are, how often `expire_next` is called, and in
    -- whatever order a priority queue that behaves as documented keeps timers of the same time: no
    -- assertion of either implementation fails in `generate`, but that of `expire_next` in the second
    -- loop that there is a timer, and that only if no timer runs. Behind `generate` the same timers run
    -- in both implementations, and the calls and points in time that they keep are the same.
    pub generate-IsOutcome :
        (ne m : ℕ) (below_ne from_ne : List ℕ)
        → IsOutcome (generate Q durations is_below ne m below_ne from_ne)
    unfolding generate
    generate-IsOutcome ne m below_ne from_ne =
        let (nt, b, e, p) = first_loop-IsAgreed durations below_ne in
        rw (generate, e) (second_loop-IsOutcome from_ne ne m nt b p)
