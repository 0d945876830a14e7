-- ===== src/Timers/PriorityQueue.antt =====
-- `TimerHandleImpl<1>`, `TimerImpl<1>` and `RunningTimersImpl<INTERVALS, 1>` of src/timer_test.cxx: a
-- priority queue with a flag for a timer that was canceled. `none` is a failed assertion.
pub mod Queued
pub mod Started
pub mod Rounds
pub mod Refines
use ai_statefultask_testsuit.Base.{
  ℕ, zero, suc, ◌+◌, ◌-◌, ◌<◌, ◌≤◌, ◌≡◌, Bool, true, false, not, ltb, ◌==◌, ◌&&◌, if◌then◌else◌,
  Option, none, some,
}
use ai_statefultask_testsuit.Timers.{Callback, set_at, Running}

-- What the source uses of `std::priority_queue`, whose order is not fixed for equal points in time.
pub record Queues : Type 1 where
  pub Queue : Type 0
  pub empty_queue : Queue
  pub emplace : ℕ → ℕ → Queue → Queue
  pub top : Queue → Option (ℕ × ℕ)
  pub pop : Queue → Queue
  pub size : Queue → ℕ

-- Its documented behaviour, where `times` is how often a pair is in the queue.
pub record IsPriorityQueue (Q : Queues) : Type 0 where
  pub times : Q.Queue → ℕ → ℕ → ℕ
  pub times_empty : (t i : ℕ) → times Q.empty_queue t i ≡ 0
  pub times-emplace :
      (t' i' : ℕ) (q : Q.Queue) (t i : ℕ)
      → times (Q.emplace t' i' q) t i ≡ (if t' == t && i' == i then 1 else 0) + times q t i
  pub top_none : (q : Q.Queue) → Q.top q ≡ none → (t i : ℕ) → times q t i ≡ 0
  pub top_held : (q : Q.Queue) (t i : ℕ) → Q.top q ≡ some (t, i) → 0 < times q t i
  pub top_least : (q : Q.Queue) (t i t' i' : ℕ) → Q.top q ≡ some (t, i) → 0 < times q t' i' → t ≤ t'
  pub times-pop :
      (q : Q.Queue) (t' i' : ℕ)
      → Q.top q ≡ some (t', i')
      → (t i : ℕ) → (if t' == t && i' == i then 1 else 0) + times (Q.pop q) t i ≡ times q t i
  pub size-pop : (q : Q.Queue) (t i : ℕ) → Q.top q ≡ some (t, i) → Q.size (Q.pop q) + 1 ≡ Q.size q

module _ (Q : Queues) where
  open Q use {Queue, top, pop, size}

  -- The queue and the members of all timers; whether a handle points to its timer.
  pub record Timers1 : Type 0 where
    pub m_pqueue : Queue
    pub m_handle : Running
    pub m_expiration_point : ℕ → ℕ
    pub m_call_back : ℕ → Callback
    pub m_canceled_1 : ℕ → Bool

  abbrev pub no_timers_1 : Timers1
  no_timers_1 = record {
    m_pqueue = Q.empty_queue;
    m_handle = λ i. false;
    m_expiration_point = λ i. 0;
    m_call_back = λ i. Callback.expires;
    m_canceled_1 = λ i. false;
  }

  unfoldable pub stop_1 : ℕ → Timers1 → Option Timers1
  stop_1 i s = elim (s.m_handle i) [
    | false ↦ some s
    | true ↦ elim (s.m_canceled_1 i) [
      | true ↦ none
      | false ↦ some (record s {
        m_canceled_1 = set_at i true s.m_canceled_1;
        m_handle = set_at i false s.m_handle;
      })
    ]
  ]

  unfoldable pub call_back_1 : Callback → Timers1 → Option Timers1
  unfolding stop_1
  call_back_1 Callback.expires s = some s
  call_back_1 (Callback.stops k) s = stop_1 k s

  -- `expire`, where `last` is the `last_time_point` that implementation 0 has left.
  unfoldable pub expire_1 : ℕ → ℕ → Timers1 → Option Timers1
  unfolding call_back_1
  expire_1 last i s =
      if (s.m_handle i && not (s.m_canceled_1 i)) && last == s.m_expiration_point i
      then call_back_1 (s.m_call_back i) (record s { m_handle = set_at i false s.m_handle })
      else none

  unfoldable pub start_1 : ℕ → ℕ → Callback → Timers1 → Option Timers1
  start_1 i point c s = elim (s.m_handle i) [
    | true ↦ none
    | false ↦ some (record s {
      m_expiration_point = set_at i point s.m_expiration_point;
      m_call_back = set_at i c s.m_call_back;
      m_pqueue = Q.emplace point i s.m_pqueue;
      m_handle = set_at i true s.m_handle;
      m_canceled_1 = set_at i false s.m_canceled_1;
    })
  ]

  -- The body of the first loop of `expire_next`, without `now`.
  unfoldable pub expire_top : ℕ → ℕ → Timers1 → Option Timers1
  unfolding expire_1
  expire_top last timer s = if s.m_canceled_1 timer then some s else expire_1 last timer s

  -- The first loop, with as much fuel as there are entries; also the value of `now`, which is set by
  -- the last round.
  unfoldable pub expire_first_1 : ℕ → ℕ → Timers1 → Option (ℕ × Timers1)
  unfolding expire_top
  expire_first_1 last zero s = none
  expire_first_1 last (suc fuel) s = elim (top s.m_pqueue) [
    | none ↦ none
    | some (point, timer) ↦ elim (expire_top last timer s) [
      | none ↦ none
      | some s' ↦
          let popped : Timers1 = record s' { m_pqueue = pop s'.m_pqueue } in
          elim (popped.m_canceled_1 timer) [
            | true ↦ expire_first_1 last fuel popped
            | false ↦ some (s.m_expiration_point timer, popped)
          ]
    ]
  ]

  -- The second loop, with one more than the number of entries as fuel.
  unfoldable pub expire_same_1 : ℕ → ℕ → ℕ → Timers1 → Option Timers1
  unfolding expire_1
  expire_same_1 last now zero s = none
  expire_same_1 last now (suc fuel) s = elim (top s.m_pqueue) [
    | none ↦ some s
    | some (point, timer) ↦ elim (s.m_canceled_1 timer) [
      | true ↦ expire_same_1 last now fuel (record s { m_pqueue = pop s.m_pqueue })
      | false ↦ elim (ltb (s.m_expiration_point timer) now) [
        | true ↦ none
        | false ↦ elim (s.m_expiration_point timer == now) [
          | false ↦ some s
          | true ↦ elim (expire_1 last timer s) [
            | none ↦ none
            | some s' ↦ expire_same_1 last now fuel (record s' { m_pqueue = pop s'.m_pqueue })
          ]
        ]
      ]
    ]
  ]

  unfoldable pub expire_next_1 : ℕ → Timers1 → Option Timers1
  unfolding expire_first_1 expire_same_1
  expire_next_1 last s = elim (expire_first_1 last (size s.m_pqueue) s) [
    | none ↦ none
    | some (now, s') ↦ expire_same_1 last now (size s'.m_pqueue + 1) s'
  ]
