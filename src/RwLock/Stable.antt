-- ===== src/RwLock/Stable.antt =====
-- src/rwspinlock_test.cxx: the states that `is_stable` accepts, against
-- the table in the comment at the top of the file, and what a call on a stable state keeps.
use ai_statefultask_testsuit.Base.{
  ℕ, zero, suc, ◌+◌, ◌<◌, ◌≤◌, ◌≡◌, refl, sym, subst, ◌∙◌, ◌↔◌, true, false, arith,
}
use ai_statefultask_testsuit.RwLock.{State, Transition, is_stable}
use ai_statefultask_testsuit.RwLock.Attempt.{
  Attempt, settled, throws, skipped, stuck, IsInitial, attempt, contract, attempt-eq-contract,
}

-- The seven rows of stable states in the table. The table counts in V only the threads that wait
-- to get a write lock; the field `v` also counts those that have one and those that wait to
-- convert a read lock, as the comments in `is_illegal` say.
pub data Row (s : State) : Type 0 where
  free : s.c ≡ 0 → s.w ≡ 0 → s.v ≡ 0 → s.r ≡ 0 → Row s
  reading : s.c ≡ 0 → s.w ≡ 0 → s.v ≡ 0 → 0 < s.r → Row s
  reading_waited : s.c ≡ 0 → s.w ≡ 0 → 0 < s.v → 0 < s.r → Row s
  writing : s.c ≡ 0 → s.w ≡ 1 → s.v ≡ 1 → s.r ≡ 0 → Row s
  writing_waited : s.c ≡ 0 → s.w ≡ 1 → 1 < s.v → s.r ≡ 0 → Row s
  converting : s.c ≡ 1 → s.w ≡ 0 → s.v ≡ 1 → 1 < s.r → Row s
  converting_waited : s.c ≡ 1 → s.w ≡ 0 → 1 < s.v → 1 < s.r → Row s

Row-is_stable : {s : State} → Row s → is_stable s ≡ true
unfolding is_stable
Row-is_stable row = ground arith

is_stable-Row :
    (c w v r : ℕ)
    → let s : State = record { c = c; w = w; v = v; r = r } in is_stable s ≡ true → Row s
unfolding is_stable
is_stable-Row zero zero zero zero h = free refl refl refl refl
is_stable-Row zero zero zero (suc r) h = reading refl refl refl (omega arith)
is_stable-Row zero zero (suc v) (suc r) h = reading_waited refl refl (omega arith) (omega arith)
is_stable-Row zero (suc zero) (suc zero) zero h = writing refl refl refl refl
is_stable-Row zero (suc zero) (suc (suc v)) zero h = writing_waited refl refl (omega arith) refl
is_stable-Row (suc zero) zero (suc zero) (suc (suc r)) h = converting refl refl refl (omega arith)
is_stable-Row (suc zero) zero (suc (suc v)) (suc (suc r)) h =
    converting_waited refl refl (omega arith) (omega arith)
is_stable-Row c w v r h = absurd (ground arith)

-- A state is stable exactly when it is in a row of the table.
pub is_stable-iff-Row : (s : State) → (is_stable s ≡ true) ↔ Row s
is_stable-iff-Row s = (is_stable-Row s.c s.w s.v s.r, Row-is_stable)

-- The calls that leave the state unstable.
abbrev pub Unsettles : Transition → State → Type 0
Unsettles Transition.rdunlock s = (0 < s.v) × (s.r ≡ s.c + 1)
Unsettles Transition.wrunlock s = (0 < s.w) × (1 < s.v)
Unsettles Transition.rd2wrlock s = s.c ≡ 1
Unsettles _ s = ⊥

-- The state that a call leaves, also one that throws; a call that is skipped changes nothing.
abbrev pub behind : State → Attempt → State
behind s (settled f s') = s'
behind s (throws s') = s'
behind s skipped = s
behind s stuck = s

abbrev IsExclusive : State → Type 0
IsExclusive s = (s.w ≤ 1) × (0 < s.w → s.r ≡ 0)

contract-IsExclusive :
    {t f : Transition} (i : IsInitial t) (s : State) {s' : State}
    → is_stable s ≡ true
    → contract t s ≡ settled f s'
    → IsExclusive s'
unfolding is_stable
contract-IsExclusive IsInitial.rdlock s h e = ground arith
contract-IsExclusive IsInitial.rdunlock s h e = ground arith
contract-IsExclusive IsInitial.wrlock s h e = ground arith
contract-IsExclusive IsInitial.wrunlock s h e = ground arith
contract-IsExclusive IsInitial.wr2rdlock s h e = ground arith
contract-IsExclusive IsInitial.rd2wrlock s h e = ground arith

contract-is_stable :
    {t : Transition} (i : IsInitial t) (s : State)
    → is_stable s ≡ true
    → (is_stable (behind s (contract t s)) ≡ false) ↔ Unsettles t s
unfolding is_stable
contract-is_stable IsInitial.rdlock s h = (λ u. ground arith, λ u. absurd u)
contract-is_stable IsInitial.rdunlock s h = (λ u. ground arith, λ u. ground arith)
contract-is_stable IsInitial.wrlock s h = (λ u. ground arith, λ u. absurd u)
contract-is_stable IsInitial.wrunlock s h = (λ u. ground arith, λ u. ground arith)
contract-is_stable IsInitial.wr2rdlock s h = (λ u. ground arith, λ u. absurd u)
contract-is_stable IsInitial.rd2wrlock s h = (λ u. ground arith, λ u. ground arith)

-- Of the calls on a stable state with their follow-ups, also those that throw and those that are
-- skipped, these and no others leave it unstable: the release of the last read lock that is not
-- waiting to be converted, while a thread waits to write; the release of the write lock, while
-- another thread waits to write; and a second conversion while one waits, which throws.
pub attempt-is_stable :
    {t : Transition} (i : IsInitial t) (s : State)
    → is_stable s ≡ true
    → (is_stable (behind s (attempt t s)) ≡ false) ↔ Unsettles t s
attempt-is_stable {t = t} i s stable =
    subst (λ a. (is_stable (behind s a) ≡ false) ↔ Unsettles t s)
      (sym (attempt-eq-contract i s stable)) (contract-is_stable i s stable)

module _ {t f : Transition} (i : IsInitial t) (s : State) {s' : State} (stable : is_stable s ≡ true)
    (done : attempt t s ≡ settled f s') where
  expected : contract t s ≡ settled f s'
  expected = sym (attempt-eq-contract i s stable) ∙ done

  -- After a call on a stable state, with its follow-up, at most one thread has the write lock,
  -- and while one has it no thread has a read lock.
  pub attempt-IsExclusive : (s'.w ≤ 1) × (0 < s'.w → s'.r ≡ 0)
  attempt-IsExclusive = contract-IsExclusive i s stable expected
