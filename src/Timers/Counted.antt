-- ===== src/Timers/Counted.antt =====
-- The numbers that `main` of src/timer_test.cxx prints.
use ai_statefultask_testsuit.Base.{
  ℕ, ◌+◌, ◌-◌, ◌%◌, ◌≡◌, refl, subst, inl, inr, Bool, ◌&&◌, ltb, ◌==◌, if◌then◌else◌, Option, none,
  some, List, [], ◌∷◌, length, arith, Bool-cases, Option-cases,
}
use ai_statefultask_testsuit.Timers.{Callback}
use ai_statefultask_testsuit.Timers.Multimap.{Timers0, is_running}
use ai_statefultask_testsuit.Timers.Multimap.Counts.{number_of, nulls}
use ai_statefultask_testsuit.Timers.PriorityQueue.{Queues, IsPriorityQueue}
use ai_statefultask_testsuit.Timers.Generate.{
  Both, nothing_started, now, extra_timers, start_both, expire_both, start_second, first_round,
  first_loop, Run, start_stopper, expire_more, second_round, second_loop, generate,
}
use ai_statefultask_testsuit.Timers.Generated.{IsAgreed, IsOutcome, generate-IsOutcome}

abbrev extra : ℕ → ℕ → ℕ
extra n index = if n % 2 == 0 && ltb 0 index then 1 else 0

module _ (Q : Queues) (durations : ℕ → ℕ) where
  -- So many timers were started, if no assertion has failed.
  abbrev HasStarted : ℕ → Option (ℕ × Both Q) → Type 0
  HasStarted total none = Unit
  HasStarted total (some (nt, b)) = nt ≡ total

  start_second-HasStarted :
      (n index nt : ℕ) (b : Both Q)
      → HasStarted (nt + 1 + 1) (start_second Q durations n index nt b)
  unfolding start_second
  start_second-HasStarted n index nt b =
      elim (Option-cases
        (start_both Q (nt + 1) (now n + durations (index - 1)) (Callback.stops nt) b)) [
          | inl e ↦ rw (start_second, e) tt
          | inr (b₁, e) ↦ elim (Option-cases (expire_both Q b₁)) [
            | inl e₁ ↦ rw (start_second, e, e₁) tt
            | inr (b₂, e₁) ↦ rw (start_second, e, e₁) refl
          ]
        ]

  first_round-HasStarted :
      (n index nt : ℕ) (b : Both Q)
      → HasStarted (nt + 1 + extra n index) (first_round Q durations n index nt b)
  unfolding first_round
  first_round-HasStarted n index nt b =
      elim (Option-cases (start_both Q nt (now n + durations index) Callback.expires b)) [
        | inl e ↦ rw (first_round, e) tt
        | inr (b₁, e) ↦ elim (Bool-cases (n % 2 == 0 && ltb 0 index)) [
          | inl both ↦ rw (first_round, e, both) (start_second-HasStarted n index nt b₁)
          | inr only ↦ rw (first_round, e, only) (omega arith)
        ]
      ]

  first_loop-HasStarted :
      (indices : List ℕ) (n nt : ℕ) (b : Both Q)
      → HasStarted
          (nt + length indices + extra_timers n indices)
          (first_loop Q durations n indices nt b)
  unfolding first_loop extra_timers
  first_loop-HasStarted [] n nt b = omega arith
  first_loop-HasStarted (index ∷ indices) n nt b =
      let round = first_round-HasStarted n index nt b in
      elim (Option-cases (first_round Q durations n index nt b)) [
        | inl e ↦ rw (first_loop, e) tt
        | inr ((nt₁, b₁), e) ↦
            let here : nt₁ ≡ nt + 1 + extra n index =
              subst (HasStarted (nt + 1 + extra n index)) e round in
            let all : nt₁ + length indices + extra_timers (n + 1) indices
                ≡ nt + length (index ∷ indices) + extra_timers n (index ∷ indices) =
              omega arith in
            rw (first_loop, e)
              (subst (λ total. HasStarted total (first_loop Q durations (n + 1) indices nt₁ b₁)) all
                (first_loop-HasStarted indices (n + 1) nt₁ b₁))
      ]

module _ (Q : Queues) (durations : ℕ → ℕ) (is_below : ℕ → ℕ → Bool) where
  abbrev HasPassed : ℕ → Run Q → Type 0
  HasPassed total (Run.passed m nt b) = nt ≡ total
  HasPassed total (Run.not_expired b) = Unit
  HasPassed total Run.stuck = Unit

  start_stopper-HasStarted :
      (n index nt : ℕ) (b : Both Q)
      → HasStarted Q durations
          (nt + 1 + extra n index)
          (start_stopper Q durations is_below n index nt b)
  unfolding start_stopper
  start_stopper-HasStarted n index nt b = elim (Bool-cases (n % 2 == 0 && ltb 0 index)) [
    | inr only ↦ rw (start_stopper, only) (omega arith)
    | inl both ↦
        elim (Option-cases
          (start_both Q (nt + 1) (now n + durations (index - 1)) (Callback.stops nt) b)) [
            | inl e ↦ rw (start_stopper, both, e) tt
            | inr (b₁, e) ↦ rw (start_stopper, both, e) refl
          ]
  ]

  expire_more-HasPassed :
      (n m nt : ℕ) (b : Both Q) → HasPassed nt (expire_more Q durations is_below n m nt b)
  unfolding expire_more
  expire_more-HasPassed n m nt b = elim (Option-cases (expire_both Q b)) [
    | inl e ↦ rw (expire_more, e) tt
    | inr (b₁, e) ↦ elim (Bool-cases (is_below m n)) [
      | inr once ↦ rw (expire_more, e, once) refl
      | inl twice ↦ elim (Option-cases (expire_both Q b₁)) [
        | inl e₁ ↦ rw (expire_more, e, twice, e₁) tt
        | inr (b₂, e₁) ↦ rw (expire_more, e, twice, e₁) refl
      ]
    ]
  ]

  second_round-HasPassed :
      (n index m nt : ℕ) (b : Both Q)
      → HasPassed (nt + 1 + extra n index) (second_round Q durations is_below n index m nt b)
  unfolding second_round
  second_round-HasPassed n index m nt b =
      elim (Option-cases (start_both Q nt (now n + durations index) Callback.expires b)) [
        | inl e ↦ rw (second_round, e) tt
        | inr (b₁, e) ↦
            let started = start_stopper-HasStarted n index nt b₁ in
            elim (Option-cases (start_stopper Q durations is_below n index nt b₁)) [
              | inl e₁ ↦ rw (second_round, e, e₁) tt
              | inr ((nt₁, b₂), e₁) ↦
                  let total = subst (HasStarted Q durations (nt + 1 + extra n index)) e₁ started in
                  rw (second_round, e, e₁)
                    (subst (λ t. HasPassed t (expire_more Q durations is_below n m nt₁ b₂)) total
                      (expire_more-HasPassed n m nt₁ b₂))
            ]
      ]

  after_round-HasPassed :
      (index : ℕ) (indices : List ℕ) (n nt : ℕ)
      → ((m' nt' : ℕ) (b' : Both Q)
          → HasPassed
              (nt' + length indices + extra_timers (n + 1) indices)
              (second_loop Q durations is_below (n + 1) indices m' nt' b'))
      → (r : Run Q) → HasPassed (nt + 1 + extra n index) r
      → HasPassed (nt + length (index ∷ indices) + extra_timers n (index ∷ indices)) (elim r [
        | Run.passed m' nt' b' ↦ second_loop Q durations is_below (n + 1) indices m' nt' b'
        | Run.not_expired b' ↦ Run.not_expired b'
        | Run.stuck ↦ Run.stuck
      ])
  unfolding extra_timers
  after_round-HasPassed index indices n nt next (Run.passed m' nt' b') here =
      let all : nt' + length indices + extra_timers (n + 1) indices
          ≡ nt + length (index ∷ indices) + extra_timers n (index ∷ indices) =
        omega arith in
      subst (λ t. HasPassed t (second_loop Q durations is_below (n + 1) indices m' nt' b')) all
        (next m' nt' b')
  after_round-HasPassed index indices n nt next (Run.not_expired b') here = tt
  after_round-HasPassed index indices n nt next Run.stuck here = tt

  second_loop-HasPassed :
      (indices : List ℕ) (n m nt : ℕ) (b : Both Q)
      → HasPassed
          (nt + length indices + extra_timers n indices)
          (second_loop Q durations is_below n indices m nt b)
  unfolding second_loop extra_timers
  second_loop-HasPassed [] n m nt b = omega arith
  second_loop-HasPassed (index ∷ indices) n m nt b =
      after_round-HasPassed index indices n nt
        (λ m' nt' b'. second_loop-HasPassed indices (n + 1) m' nt' b')
        (second_round Q durations is_below n index m nt b) (second_round-HasPassed n index m nt b)

  generate-HasPassed :
      (ne m : ℕ) (below_ne from_ne : List ℕ)
      → HasPassed
          (length below_ne + extra_timers 0 below_ne + (length from_ne + extra_timers ne from_ne))
          (generate Q durations is_below ne m below_ne from_ne)
  unfolding generate
  generate-HasPassed ne m below_ne from_ne =
      let first = first_loop-HasStarted Q durations below_ne 0 0 (nothing_started Q) in
      elim (Option-cases (first_loop Q durations 0 below_ne 0 (nothing_started Q))) [
        | inl e ↦ rw (generate, e) tt
        | inr ((nt, b), e) ↦
            let so_far =
              subst (HasStarted Q durations (0 + length below_ne + extra_timers 0 below_ne)) e
                first in
            let total : nt + length from_ne + extra_timers ne from_ne
                ≡ length below_ne
                  + extra_timers 0 below_ne
                  + (length from_ne + extra_timers ne from_ne) =
              omega arith in
            rw (generate, e)
              (subst (λ t. HasPassed t (second_loop Q durations is_below ne from_ne m nt b)) total
                (second_loop-HasPassed from_ne ne m nt b))
      ]

-- The counters of implementation 0, of `nt` timers that were started.
abbrev AddUp : ℕ → Timers0 → Type 0
AddUp nt s =
    (s.running_timers ≡ number_of nt (is_running s))
    × (s.running_timers + s.canceled_timers ≡ nt)
    × (s.canceled_timers ≡ s.expired_timers + s.canceled_removed + nulls s.m_map)

module _ (Q : Queues) (L : IsPriorityQueue Q) where
  IsAgreed-AddUp : {nt : ℕ} {b : Both Q} → IsAgreed Q L nt b → AddUp nt b.timers0
  IsAgreed-AddUp p =
      let a = p.agrees.holds0.accounted in
      let c = a.all_canceled in (a.all_handles, a.all_started, omega arith)

  -- What the counters come to behind `generate`, which starts `total` timers if it passes.
  abbrev pub IsPrinted : ℕ → Run Q → Type 0
  IsPrinted total (Run.passed m nt b) = (nt ≡ total) × AddUp nt b.timers0
  IsPrinted total (Run.not_expired b) = (nt : ℕ) × AddUp nt b.timers0
  IsPrinted total Run.stuck = ⊥

  IsOutcome-IsPrinted :
      (durations : ℕ → ℕ) (is_below : ℕ → ℕ → Bool) (total : ℕ) (r : Run Q)
      → IsOutcome Q L r
      → HasPassed Q durations is_below total r
      → IsPrinted total r
  IsOutcome-IsPrinted durations is_below total (Run.passed m nt b) p t = (t, IsAgreed-AddUp p)
  IsOutcome-IsPrinted durations is_below total (Run.not_expired b) (nt, p, idle) t =
      (nt, IsAgreed-AddUp p)
  IsOutcome-IsPrinted durations is_below total Run.stuck p t = p

  -- The counters that `main` prints add up behind `generate`, whatever the durations and the
  -- random numbers are: `running_timers_0` is the number of the timers that run, it and
  -- `canceled_timers_0` sum up to all timers that were started, and `canceled_timers_0` is the sum
  -- of `expired_timers_0`, `canceled_removed_0` and the canceled nodes that are still in the
  -- multimap. If `generate` passes, one timer was started for each random number, and one more for
  -- each of `extra_timers`, which is as many as the vectors hold.
  pub generate-IsPrinted :
      (durations : ℕ → ℕ) (is_below : ℕ → ℕ → Bool) (ne m : ℕ) (below_ne from_ne : List ℕ)
      → IsPrinted
          (length below_ne + extra_timers 0 below_ne + (length from_ne + extra_timers ne from_ne))
          (generate Q durations is_below ne m below_ne from_ne)
  generate-IsPrinted durations is_below ne m below_ne from_ne =
      IsOutcome-IsPrinted durations is_below _ _
        (generate-IsOutcome Q L durations is_below ne m below_ne from_ne)
        (generate-HasPassed Q durations is_below ne m below_ne from_ne)
