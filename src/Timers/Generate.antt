-- ===== src/Timers/Generate.antt =====
-- `generate` of src/timer_test.cxx, for the implementations 0 and 1. The intervals are parameters: the
-- duration of each of the `durations`, and the random numbers as a list. So is the comparison of `m`
-- with the product of `n` and the double `fraction`.
use ai_statefultask_testsuit.Base.{
  ℕ, ◌+◌, ◌-◌, ◌*◌, ◌/◌, ◌%◌, Bool, true, false, ◌&&◌, ltb, ◌==◌, if◌then◌else◌, Option, none, some,
  List, [], ◌∷◌,
}
use ai_statefultask_testsuit.Timers.{Callback}
use ai_statefultask_testsuit.Timers.Multimap.{Timers0, start, expire_next, no_timers}
use ai_statefultask_testsuit.Timers.PriorityQueue.{
  Queues, Timers1, start_1, expire_next_1, no_timers_1,
}

abbrev pub loopsize : ℕ
loopsize = 10000000

abbrev pub now : ℕ → ℕ
now n = 10000000000 / loopsize * n

-- `extra_timers`, which counts the timers that stop another one, from `n` on.
unfoldable pub extra_timers : ℕ → List ℕ → ℕ
extra_timers n [] = 0
extra_timers n (index ∷ random_intervals) =
    (if n % 2 == 0 && ltb 0 index then 1 else 0) + extra_timers (n + 1) random_intervals

module _ (Q : Queues) where
  -- The timers of both implementations.
  pub record Both : Type 0 where
    pub timers0 : Timers0
    pub timers1 : Timers1 Q

  abbrev pub nothing_started : Both
  nothing_started = record { timers0 = no_timers; timers1 = no_timers_1 Q }

  -- `timer0.start(...)` and `timer1.start(...)`
  unfoldable pub start_both : ℕ → ℕ → Callback → Both → Option Both
  unfolding start start_1
  start_both i point c b = elim (start i point c b.timers0) [
    | none ↦ none
    | some s ↦ elim (start_1 Q i point c b.timers1) [
      | none ↦ none
      | some s₁ ↦ some (record { timers0 = s; timers1 = s₁ })
    ]
  ]

  -- `running_timers0.expire_next()` and `running_timers1.expire_next()`
  unfoldable pub expire_both : Both → Option Both
  unfolding expire_next expire_next_1
  expire_both b = elim (expire_next b.timers0) [
    | none ↦ none
    | some s ↦ elim (expire_next_1 Q s.last_time_point b.timers1) [
      | none ↦ none
      | some s₁ ↦ some (record { timers0 = s; timers1 = s₁ })
    ]
  ]

  module _ (durations : ℕ → ℕ) where
    -- The timer that stops timer `nt`, and the call of `expire_next` behind it.
    unfoldable pub start_second : ℕ → ℕ → ℕ → Both → Option (ℕ × Both)
    unfolding start_both expire_both
    start_second n index nt b =
        elim (start_both (nt + 1) (now n + durations (index - 1)) (Callback.stops nt) b) [
          | none ↦ none
          | some b' ↦ elim (expire_both b') [ none ↦ none | some b'' ↦ some (nt + 1 + 1, b'') ]
        ]

    -- The body of the loop, with `nt` as it is behind it.
    unfoldable pub first_round : ℕ → ℕ → ℕ → Both → Option (ℕ × Both)
    unfolding start_second
    first_round n index nt b = elim (start_both nt (now n + durations index) Callback.expires b) [
      | none ↦ none
      | some b' ↦ elim (n % 2 == 0 && ltb 0 index) [
        | true ↦ start_second n index nt b'
        | false ↦ some (nt + 1, b')
      ]
    ]

    -- The loop over the random numbers from `n` on.
    unfoldable pub first_loop : ℕ → List ℕ → ℕ → Both → Option (ℕ × Both)
    unfolding first_round
    first_loop n [] nt b = some (nt, b)
    first_loop n (index ∷ indices) nt b = elim (first_round n index nt b) [
      | none ↦ none
      | some (nt', b') ↦ first_loop (n + 1) indices nt' b'
    ]

  -- What the second loop comes to: its `m` and `nt` and the timers, or a failed assertion, in a call of
  -- `expire_next` on these timers or elsewhere.
  pub data Run : Type 0 where
    passed : ℕ → ℕ → Both → Run
    not_expired : Both → Run
    stuck : Run

  module _ (durations : ℕ → ℕ) (is_below : ℕ → ℕ → Bool) where
    -- The start of the timer that stops timer `nt`; also `nt` behind it.
    unfoldable pub start_stopper : ℕ → ℕ → ℕ → Both → Option (ℕ × Both)
    unfolding start_both
    start_stopper n index nt b =
        if n % 2 == 0 && ltb 0 index
        then elim (start_both (nt + 1) (now n + durations (index - 1)) (Callback.stops nt) b) [
          | none ↦ none
          | some b' ↦ some (nt + 1 + 1, b')
        ]
        else some (nt + 1, b)

    -- The calls of `expire_next`, once or twice.
    unfoldable pub expire_more : ℕ → ℕ → ℕ → Both → Run
    unfolding expire_both
    expire_more n m nt b = elim (expire_both b) [
      | none ↦ Run.not_expired b
      | some b' ↦ elim (is_below m n) [
        | false ↦ Run.passed m nt b'
        | true ↦ elim (expire_both b') [
          | none ↦ Run.not_expired b'
          | some b'' ↦ Run.passed (m + 1) nt b''
        ]
      ]
    ]

    unfoldable pub second_round : ℕ → ℕ → ℕ → ℕ → Both → Run
    unfolding start_stopper expire_more
    second_round n index m nt b =
        elim (start_both nt (now n + durations index) Callback.expires b) [
          | none ↦ Run.stuck
          | some b' ↦ elim (start_stopper n index nt b') [
            | none ↦ Run.stuck
            | some (nt', b'') ↦ expire_more n m nt' b''
          ]
        ]

    unfoldable pub second_loop : ℕ → List ℕ → ℕ → ℕ → Both → Run
    unfolding second_round
    second_loop n [] m nt b = Run.passed m nt b
    second_loop n (index ∷ indices) m nt b = elim (second_round n index m nt b) [
      | Run.passed m' nt' b' ↦ second_loop (n + 1) indices m' nt' b'
      | Run.not_expired b' ↦ Run.not_expired b'
      | Run.stuck ↦ Run.stuck
    ]

    -- Both loops: the first over the random numbers below `ne`, which is 131215, the second from `ne`
    -- on. `m` is 131215 times `fraction`.
    unfoldable pub generate : ℕ → ℕ → List ℕ → List ℕ → Run
    unfolding first_loop second_loop
    generate ne m below_ne from_ne = elim (first_loop durations 0 below_ne 0 nothing_started) [
      | none ↦ Run.stuck
      | some (nt, b) ↦ second_loop ne from_ne m nt b
    ]
