-- ===== src/RwLock.antt =====
-- src/rwspinlock_test.cxx: the states of a read-write spin lock, the tests on them,
-- and `apply`, which carries out one transition. A counter is a C++ int that starts at zero and
-- is never meant to be negative: it is a number here, and a decrement at zero, after which the
-- C++ counter would be -1, is the outcome `below_zero` of its own.
pub mod Attempt
pub mod Stable
pub mod Nodes
use ai_statefultask_testsuit.Base.{
  ℕ, ◌+◌, ◌-◌, Bool, true, false, not, ◌&&◌, ◌||◌, ltb, ◌==◌, if◌then◌else◌,
}

pub data Transition : Type 0 where
  none rdlock rdunlock wrlock wrunlock wr2rdlock rd2wrlock : Transition
  failed_rdlock failed_wrlock failed_rd2wrlock successful_rd2wrlock must_throw : Transition

unfoldable pub is_blocking : Transition → Bool
is_blocking Transition.failed_rdlock = true
is_blocking Transition.failed_wrlock = true
is_blocking Transition.failed_rd2wrlock = true
is_blocking _ = false

pub record State : Type 0 where
  pub c : ℕ
  pub w : ℕ
  pub v : ℕ
  pub r : ℕ

abbrev pub unlocked : State
unlocked = record { c = 0; w = 0; v = 0; r = 0 }

unfoldable pub is_illegal : State → Bool
is_illegal s = ltb s.r s.c || ltb s.v s.c || ltb s.v s.w

unfoldable pub is_stable : State → Bool
unfolding is_illegal
is_stable s = not (
    is_illegal s
    || ltb 1 s.w
    || ltb 1 s.c
    || (s.w == 1 && ltb 0 s.r)
    || (ltb 0 s.v && (s.w == 0 && s.r == s.c)))

-- `s.follow_up(previous)`, where `s` is the state after the last transition.
unfoldable pub follow_up : State → State → Transition
follow_up s previous =
    if ltb 1 s.c && ltb previous.c s.c
    then Transition.must_throw
    else if ltb previous.r s.r && ltb 0 previous.v
    then (if ltb s.w previous.w then Transition.none else Transition.failed_rdlock)
    else if ltb previous.v s.v && (ltb s.c previous.r || ltb 0 previous.w)
    then (if ltb previous.c s.c then Transition.failed_rd2wrlock else Transition.failed_wrlock)
    else if ltb previous.c s.c
    then Transition.successful_rd2wrlock
    else Transition.none

-- What one call of `apply` ends in.
pub data Outcome : Type 0 where
  applied : State → Outcome
  rejected : Outcome
  assert_failed : Outcome
  fatal : Outcome
  below_zero : Outcome

-- The decrements `s.x--`, on a state that the rest of the case goes on with.
abbrev dec_r : State → (State → Outcome) → Outcome
dec_r s k = if s.r == 0 then Outcome.below_zero else k (record s { r = s.r - 1 })

abbrev dec_w : State → (State → Outcome) → Outcome
dec_w s k = if s.w == 0 then Outcome.below_zero else k (record s { w = s.w - 1 })

abbrev dec_v : State → (State → Outcome) → Outcome
dec_v s k = if s.v == 0 then Outcome.below_zero else k (record s { v = s.v - 1 })

abbrev dec_c : State → (State → Outcome) → Outcome
dec_c s k = if s.c == 0 then Outcome.below_zero else k (record s { c = s.c - 1 })

-- The test behind the switch.
abbrev checked : State → Outcome
checked s = if is_illegal s then Outcome.fatal else Outcome.applied s

-- The switch.
abbrev transit : Transition → State → Outcome
transit Transition.none s = checked s
transit Transition.rdlock s = checked (record s { r = s.r + 1 })
transit Transition.rdunlock s = if s.r == 0 then Outcome.rejected else dec_r s checked
transit Transition.wrlock s = checked (record s { w = s.w + 1; v = s.v + 1 })
transit Transition.wrunlock s =
    if s.w == 0 then Outcome.rejected else dec_w s λ s'. dec_v s' checked
transit Transition.wr2rdlock s =
    if s.w == 0
    then Outcome.rejected
    else dec_w s λ s'. dec_v s' λ s''. checked (record s'' { r = s''.r + 1 })
transit Transition.rd2wrlock s =
    if s.r == 0 then Outcome.rejected else checked (record s { c = s.c + 1; v = s.v + 1 })
transit Transition.failed_rdlock s = dec_r s checked
transit Transition.failed_wrlock s = dec_w s checked
transit Transition.failed_rd2wrlock s = checked s
transit Transition.successful_rd2wrlock s = dec_c (record s { w = s.w + 1 }) λ s'. dec_r s' checked
transit Transition.must_throw s = Outcome.rejected

unfoldable pub apply : Transition → State → Outcome
unfolding is_illegal
apply t s = if is_illegal s then Outcome.assert_failed else transit t s
