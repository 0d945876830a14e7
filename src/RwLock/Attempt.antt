-- ===== src/RwLock/Attempt.antt =====
-- src/rwspinlock_test.cxx: what `main` does with one stable state and one initial
-- transition, apart from the bookkeeping of nodes: the transition, the follow-up that it calls
-- for, and what the lock is like afterwards.
use ai_statefultask_testsuit.Base.{◌&&◌, ◌==◌, if◌then◌else◌, ◌+◌, ◌-◌, ◌≡◌, true, arith}
use ai_statefultask_testsuit.RwLock.{
  State, Transition, applied, rejected, apply, follow_up, is_stable,
}

pub data Attempt : Type 0 where
  -- `continue` after a failed `apply`.
  skipped : Attempt
  -- The follow-up is `must_throw`.
  throws : State → Attempt
  -- The follow-up, `none` included, and the state behind it.
  settled : Transition → State → Attempt
  -- `ASSERT(success)` fails, or `apply` does not return.
  stuck : Attempt

-- The state behind the follow-up `f`.
abbrev pub finish : Transition → State → Attempt
finish Transition.none s = settled Transition.none s
finish Transition.must_throw s = throws s
finish f s = elim (apply f s) [ applied s' ↦ settled f s' | _ ↦ stuck ]

unfoldable pub attempt : Transition → State → Attempt
attempt t s = elim (apply t s) [
  | applied s' ↦ finish (follow_up s' s) s'
  | rejected ↦ skipped
  | _ ↦ stuck
]

-- The transitions of `main`'s inner loop, `first_transition` to `last_non_followup_transition`.
pub data IsInitial : Transition → Type 0 where
  rdlock : IsInitial Transition.rdlock
  rdunlock : IsInitial Transition.rdunlock
  wrlock : IsInitial Transition.wrlock
  wrunlock : IsInitial Transition.wrunlock
  wr2rdlock : IsInitial Transition.wr2rdlock
  rd2wrlock : IsInitial Transition.rd2wrlock

-- What the lock promises for one call on a stable state, read off the state alone.
abbrev pub contract : Transition → State → Attempt
contract Transition.rdlock s =
    if s.v == 0
    then settled Transition.none (record s { r = s.r + 1 })
    else settled Transition.failed_rdlock s
contract Transition.rdunlock s =
    if s.r == 0 then skipped else settled Transition.none (record s { r = s.r - 1 })
contract Transition.wrlock s =
    if s.r == 0 && s.w == 0
    then settled Transition.none (record s { w = 1; v = s.v + 1 })
    else settled Transition.failed_wrlock (record s { v = s.v + 1 })
contract Transition.wrunlock s =
    if s.w == 0 then skipped else settled Transition.none (record s { w = 0; v = s.v - 1 })
contract Transition.wr2rdlock s =
    if s.w == 0 then skipped else settled Transition.none (record s { w = 0; v = s.v - 1; r = 1 })
contract Transition.rd2wrlock s =
    if s.r == 0
    then skipped
    else if s.c == 1
    then throws (record s { c = 2; v = s.v + 1 })
    else if s.r == 1
    then settled Transition.successful_rd2wrlock (record s { w = 1; v = s.v + 1; r = 0 })
    else settled Transition.failed_rd2wrlock (record s { c = 1; v = s.v + 1 })
contract _ s = stuck

-- On a stable state an initial transition with its follow-up does what the contract says: it is
-- refused only to a thread without the lock that it gives up, blocks exactly where the contract
-- names a failed follow-up, throws for a second conversion, and never gets stuck.
pub attempt-eq-contract :
    {t : Transition} (i : IsInitial t) (s : State) → is_stable s ≡ true → attempt t s ≡ contract t s
unfolding attempt apply follow_up is_stable
attempt-eq-contract IsInitial.rdlock s h = ground arith
attempt-eq-contract IsInitial.rdunlock s h = ground arith
attempt-eq-contract IsInitial.wrlock s h = ground arith
attempt-eq-contract IsInitial.wrunlock s h = ground arith
attempt-eq-contract IsInitial.wr2rdlock s h = ground arith
attempt-eq-contract IsInitial.rd2wrlock s h = ground arith
