-- ===== src/Timers/Multimap.antt =====
-- `TimerHandleImpl<0>`, `TimerImpl<0>` and `RunningTimersImpl<INTERVALS, 0>` of src/timer_test.cxx: a
-- multimap in which the timer of an entry is set to null when it is canceled. `none` is a failed
-- assertion.
pub mod Nodes
pub mod Kept
pub mod Counts
pub mod Accounts
pub mod Steps
pub mod Rounds
pub mod Refines
use ai_statefultask_testsuit.Base.{
  ℕ, zero, suc, ◌+◌, ◌-◌, Bool, true, false, ltb, ◌==◌, if◌then◌else◌, Option, none, some, List, [],
  ◌∷◌, length, is_some,
}
use ai_statefultask_testsuit.Timers.{Callback, set_at, Running}

-- A node of the multimap; an iterator is the number of its node.
pub record Entry : Type 0 where
  pub iterator : ℕ
  pub first : ℕ
  pub second : Option ℕ

-- The multimap in its order, the members of all timers, and the variables of the program. A handle
-- that is `none` is `end`.
pub record Timers0 : Type 0 where
  pub m_map : List Entry
  pub next_iterator : ℕ
  pub m_handle : ℕ → Option ℕ
  pub m_expiration_point : ℕ → ℕ
  pub m_call_back : ℕ → Callback
  pub last_time_point : ℕ
  pub running_timers : ℕ
  pub expired_timers : ℕ
  pub canceled_removed : ℕ
  pub canceled_timers : ℕ

abbrev pub no_timers : Timers0
no_timers = record {
  m_map = [];
  next_iterator = 0;
  m_handle = λ i. none;
  m_expiration_point = λ i. 0;
  m_call_back = λ i. Callback.expires;
  last_time_point = 0;
  running_timers = 0;
  expired_timers = 0;
  canceled_removed = 0;
  canceled_timers = 0;
}

abbrev pub is_running : Timers0 → Running
is_running s i = is_some (s.m_handle i)

-- Behind the entries with an equivalent key.
unfoldable pub emplace : Entry → List Entry → List Entry
emplace entry [] = entry ∷ []
emplace entry (e ∷ es) = if ltb entry.first e.first then entry ∷ e ∷ es else e ∷ emplace entry es

unfoldable pub erase : ℕ → List Entry → List Entry
erase iterator [] = []
erase iterator (e ∷ es) = if e.iterator == iterator then es else e ∷ erase iterator es

-- `m_iter->second`
unfoldable pub second_of : ℕ → List Entry → Option ℕ
second_of iterator [] = none
second_of iterator (e ∷ es) = if e.iterator == iterator then e.second else second_of iterator es

-- `m_iter->second = nullptr`
unfoldable pub set_null : ℕ → List Entry → List Entry
set_null iterator [] = []
set_null iterator (e ∷ es) =
    (if e.iterator == iterator then record e { second = none } else e) ∷ set_null iterator es

unfoldable pub set_not_running : ℕ → Timers0 → Option Timers0
unfolding second_of set_null
set_not_running i s = elim (s.m_handle i) [
  | none ↦ none
  | some iterator ↦ elim (second_of iterator s.m_map) [
    | none ↦ none
    | some timer ↦ some (record s {
      canceled_timers = s.canceled_timers + 1;
      running_timers = s.running_timers - 1;
      m_map = set_null iterator s.m_map;
      m_handle = set_at i none s.m_handle;
    })
  ]
]

-- `stop`; `update_running_timer` does nothing.
unfoldable pub stop : ℕ → Timers0 → Option Timers0
unfolding set_not_running
stop i s = elim (s.m_handle i) [ none ↦ some s | some iterator ↦ set_not_running i s ]

unfoldable pub call_back : Callback → Timers0 → Option Timers0
unfolding stop
call_back Callback.expires s = some s
call_back (Callback.stops k) s = stop k s

unfoldable pub expire : ℕ → Timers0 → Option Timers0
unfolding set_not_running call_back
expire i s = elim (set_not_running i s) [
  | none ↦ none
  | some s' ↦
      elim (call_back (s'.m_call_back i)
        (record s' { last_time_point = s'.m_expiration_point i })) [
          | none ↦ none
          | some s'' ↦ some (record s'' { expired_timers = s''.expired_timers + 1 })
        ]
]

-- `start`, with `push`. The point in time is the sum of `now_` and the interval.
unfoldable pub start : ℕ → ℕ → Callback → Timers0 → Option Timers0
unfolding emplace
start i point c s = elim (s.m_handle i) [
  | some iterator ↦ none
  | none ↦ some (record s {
    m_expiration_point = set_at i point s.m_expiration_point;
    m_call_back = set_at i c s.m_call_back;
    running_timers = s.running_timers + 1;
    m_map = emplace (record { iterator = s.next_iterator; first = point; second = some i }) s.m_map;
    m_handle = set_at i (some s.next_iterator) s.m_handle;
    next_iterator = s.next_iterator + 1;
  })
]

-- The first loop of `expire_next`, with as much fuel as there are entries; also the value of `now`.
unfoldable pub expire_first : ℕ → Timers0 → Option (ℕ × Timers0)
unfolding expire erase
expire_first zero s = none
expire_first (suc fuel) s = elim s.m_map [
  | [] ↦ none
  | b ∷ es ↦ elim b.second [
    | some timer ↦ elim (expire timer s) [
      | none ↦ none
      | some s' ↦ some (s.m_expiration_point timer, record s' { m_map = erase b.iterator s'.m_map })
    ]
    | none ↦
        expire_first fuel
          (record s { canceled_removed = s.canceled_removed + 1; m_map = erase b.iterator s.m_map })
  ]
]

-- The second loop, with one more than the number of entries as fuel.
unfoldable pub expire_same : ℕ → ℕ → Timers0 → Option Timers0
unfolding expire erase
expire_same now zero s = none
expire_same now (suc fuel) s = elim s.m_map [
  | [] ↦ some s
  | b ∷ es ↦ elim b.second [
    | some timer ↦ elim (ltb (s.m_expiration_point timer) now) [
      | true ↦ none
      | false ↦ elim (s.m_expiration_point timer == now) [
        | false ↦ some s
        | true ↦ elim (expire timer s) [
          | none ↦ none
          | some s' ↦ expire_same now fuel (record s' { m_map = erase b.iterator s'.m_map })
        ]
      ]
    ]
    | none ↦
        expire_same now fuel
          (record s { canceled_removed = s.canceled_removed + 1; m_map = erase b.iterator s.m_map })
  ]
]

unfoldable pub expire_next : Timers0 → Option Timers0
unfolding expire_first expire_same
expire_next s = elim (expire_first (length s.m_map) s) [
  | none ↦ none
  | some (now, s') ↦ expire_same now (length s'.m_map + 1) s'
]
