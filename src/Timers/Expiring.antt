-- ===== src/Timers/Expiring.antt =====
-- What `expire_next` of src/timer_test.cxx is to do, without regard to how the timers are kept.
use ai_statefultask_testsuit.Base.{
  ℕ, ◌≤◌, ◌≡◌, ◌≢◌, ◌↔◌, ◌⊎◌, sym, ap, subst, ◌∙◌, ==_iff, inl, inr, Bool, true, false, not, ◌&&◌,
  ◌==◌, arith, Bool-cases,
}
use ai_statefultask_testsuit.Timers.{Callback, Running, is_stopped_by}

is_stopped_by-stops : (c : Callback) (k : ℕ) → is_stopped_by c k ≡ true → c ≡ Callback.stops k
is_stopped_by-stops Callback.expires k e = ground arith
is_stopped_by-stops (Callback.stops k') k e = ap Callback.stops (ground arith)

stops-is_stopped_by : (c : Callback) (k : ℕ) → c ≡ Callback.stops k → is_stopped_by c k ≡ true
stops-is_stopped_by c k e = rw e (ground arith)

expires-not_stops : (k : ℕ) → Callback.expires ≢ Callback.stops k
expires-not_stops k e = ground arith

iff_eq : (a b : Bool) → (a ≡ true → b ≡ true) → (b ≡ true → a ≡ true) → a ≡ b
iff_eq a b f g = ground arith

module _ (expiration : ℕ → ℕ) (callback : ℕ → Callback) where
  -- A timer that another one stops does not stop a third.
  abbrev pub StopsPlain : Running → Type 0
  StopsPlain before =
      (i k : ℕ) → before i ≡ true → callback i ≡ Callback.stops k → callback k ≡ Callback.expires

  -- All timers expire that are due first, and stop the timers that their callbacks stop.
  pub record Expires (before : Running) (now : ℕ) (after : Running) : Type 0 where
    pub due : (i : ℕ) × (before i ≡ true) × (expiration i ≡ now)
    pub least : (i : ℕ) → before i ≡ true → now ≤ expiration i
    pub stays :
        (j : ℕ)
        → (after j ≡ true) ↔ (
            (before j ≡ true)
            × (expiration j ≢ now)
            × ((i : ℕ) → before i ≡ true → expiration i ≡ now → callback i ≢ Callback.stops j))

  -- Some of them have expired.
  pub record IsExpiring (before : Running) (now : ℕ) (after : Running) : Type 0 where
    pub subset : (j : ℕ) → after j ≡ true → before j ≡ true
    pub reason :
        (j : ℕ)
        → before j ≡ true
        → after j ≡ false
        → (expiration j ≡ now)
          ⊎ ((i : ℕ) × (before i ≡ true) × (expiration i ≡ now) × (callback i ≡ Callback.stops j))
    pub done :
        (i k : ℕ)
        → before i ≡ true
        → expiration i ≡ now
        → after i ≡ false
        → callback i ≡ Callback.stops k
        → after k ≡ false

  -- The timers that run behind the expiry of one.
  abbrev pub IsWithout : Running → ℕ → Running → Type 0
  IsWithout before i after =
      (j : ℕ) → after j ≡ ((before j && not (i == j)) && not (is_stopped_by (callback i) j))

  pub none-IsExpiring : (before : Running) (now : ℕ) → IsExpiring before now before
  none-IsExpiring before now = record {
    subset = λ j r. r;
    reason = λ j r n. absurd (ground arith);
    done = λ i k r e n c. absurd (ground arith);
  }

  next-reason :
      (before mid after : Running) (now i : ℕ)
      → IsExpiring before now mid
      → mid i ≡ true
      → expiration i ≡ now
      → IsWithout mid i after
      → (j : ℕ) → before j ≡ true
      → after j ≡ false
      → (expiration j ≡ now)
        ⊎ ((x : ℕ) × (before x ≡ true) × (expiration x ≡ now) × (callback x ≡ Callback.stops j))
  next-reason before mid after now i p runs due w j r n =
      let e = w j in
      elim (Bool-cases (mid j)) [
        | inr gone ↦ p.reason j r gone
        | inl there ↦ elim (Bool-cases (i == j)) [
          | inl same ↦ inl (subst (λ x. expiration x ≡ now) ((==_iff i j).0 same) due)
          | inr other ↦
              inr (i, p.subset i runs, due, is_stopped_by-stops (callback i) j (ground arith))
        ]
      ]

  next-done :
      (before mid after : Running) (now i : ℕ)
      → StopsPlain before
      → IsExpiring before now mid
      → mid i ≡ true
      → IsWithout mid i after
      → (i' k : ℕ) → before i' ≡ true
      → expiration i' ≡ now
      → after i' ≡ false
      → callback i' ≡ Callback.stops k
      → after k ≡ false
  next-done before mid after now i plain p runs w i' k r due n c =
      let e = w k in
      let e' = w i' in
      elim (Bool-cases (mid i')) [
        | inr gone ↦ (let f = p.done i' k r due gone c in ground arith)
        | inl there ↦ elim (Bool-cases (i == i')) [
          | inl same ↦
              let c' = subst (λ x. callback x ≡ Callback.stops k) (sym ((==_iff i i').0 same)) c in
              let f = stops-is_stopped_by (callback i) k c' in ground arith
          | inr other ↦ absurd (
              let stopped = is_stopped_by-stops (callback i) i' (ground arith) in
              expires-not_stops k (sym (plain i i' (p.subset i runs) stopped) ∙ c))
        ]
      ]

  pub next-IsExpiring :
      (before mid after : Running) (now i : ℕ)
      → StopsPlain before
      → IsExpiring before now mid
      → mid i ≡ true
      → expiration i ≡ now
      → IsWithout mid i after
      → IsExpiring before now after
  next-IsExpiring before mid after now i plain p runs due w = record {
    subset = λ j r. (let e = w j in p.subset j (ground arith));
    reason = next-reason before mid after now i p runs due w;
    done = next-done before mid after now i plain p runs w;
  }

  stays_to :
      (before after : Running) (now : ℕ)
      → IsExpiring before now after
      → ((j : ℕ) → after j ≡ true → expiration j ≢ now)
      → (j : ℕ) → after j ≡ true
      → (before j ≡ true)
        × (expiration j ≢ now)
        × ((i : ℕ) → before i ≡ true → expiration i ≡ now → callback i ≢ Callback.stops j)
  stays_to before after now p all j r = (
    p.subset j r,
    all j r,
    λ i ri due c. elim (Bool-cases (after i)) [
      | inl there ↦ all i there due
      | inr gone ↦ (let f = p.done i j ri due gone c in ground arith)
    ],
  )

  stays_from :
      (before after : Running) (now : ℕ)
      → IsExpiring before now after
      → (j : ℕ)
      → (before j ≡ true)
        × (expiration j ≢ now)
        × ((i : ℕ) → before i ≡ true → expiration i ≡ now → callback i ≢ Callback.stops j)
      → after j ≡ true
  stays_from before after now p j (r, later, unstopped) = elim (Bool-cases (after j)) [
    | inl there ↦ there
    | inr gone ↦ absurd (elim (p.reason j r gone) [
      | inl due ↦ later due
      | inr (i, ri, due, c) ↦ unstopped i ri due c
    ])
  ]

  pub all-Expires :
      (before after : Running) (now : ℕ)
      → ((i : ℕ) × (before i ≡ true) × (expiration i ≡ now))
      → ((i : ℕ) → before i ≡ true → now ≤ expiration i)
      → IsExpiring before now after
      → ((j : ℕ) → after j ≡ true → expiration j ≢ now)
      → Expires before now after
  all-Expires before after now due least p all = record {
    due = due;
    least = least;
    stays = λ j. (stays_to before after now p all j, stays_from before after now p j);
  }

  Expires-subset :
      (before before' after after' : Running) (now : ℕ)
      → ((j : ℕ) → before j ≡ before' j)
      → Expires before now after
      → Expires before' now after'
      → (j : ℕ) → after j ≡ true
      → after' j ≡ true
  Expires-subset before before' after after' now same p p' j r =
      let (rj, later, unstopped) = (p.stays j).0 r in
      (p'.stays j).1 (sym (same j) ∙ rj, later, λ i ri. unstopped i (same i ∙ ri))

  Expires-least :
      (before before' after after' : Running) (now now' : ℕ)
      → ((j : ℕ) → before j ≡ before' j)
      → Expires before now after
      → Expires before' now' after'
      → now ≤ now'
  Expires-least before before' after after' now now' same p p' =
      let (i, r, due) = p'.due in let low = p.least i (same i ∙ r) in omega arith

  -- Neither the order of the timers nor how they are kept makes a difference.
  pub Expires-agree :
      (before before' after after' : Running) (now now' : ℕ)
      → ((j : ℕ) → before j ≡ before' j)
      → Expires before now after
      → Expires before' now' after'
      → (now ≡ now') × ((j : ℕ) → after j ≡ after' j)
  Expires-agree before before' after after' now now' same p p' =
      let back = λ (j : ℕ). sym (same j) in
      let low = Expires-least before before' after after' now now' same p p' in
      let high = Expires-least before' before after' after now' now back p' p in
      let e : now ≡ now' = omega arith in
      let p_now = subst (λ t. Expires before t after) e p in
      (
        e,
        λ j.
            iff_eq (after j) (after' j)
              (Expires-subset before before' after after' now' same p_now p' j)
              (Expires-subset before' before after' after now' back p' p_now j),
      )
