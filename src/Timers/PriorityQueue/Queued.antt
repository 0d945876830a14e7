-- ===== src/Timers/PriorityQueue/Queued.antt =====
-- How the priority queue and the flags of implementation 1 of src/timer_test.cxx belong together.
use ai_statefultask_testsuit.Base.{
  ℕ, ◌<◌, ◌≤◌, ◌≡◌, ◌⊎◌, refl, sym, ap, subst, ◌∙◌, inl, inr, Bool, true, false, not, ◌&&◌, ◌==◌,
  ==_iff, if◌then◌else◌, none, some, arith, Bool-cases,
}
use ai_statefultask_testsuit.Timers.{Callback, set_at, Running, is_stopped_by}
use ai_statefultask_testsuit.Timers.Expiring.{IsWithout}
use ai_statefultask_testsuit.Timers.PriorityQueue.{
  Queues, IsPriorityQueue, Timers1, stop_1, call_back_1, expire_1,
}

not_there : (handle : Running) (i j : ℕ) → handle i ≡ false → handle j ≡ (handle j && not (i == j))
not_there handle i j idle = elim (Bool-cases (i == j)) [
  | inl same ↦ let idle' = ap handle (sym ((==_iff i j).0 same)) ∙ idle in rw (same, idle') refl
  | inr other ↦ ground arith
]

different : (f : ℕ → Bool) (i j : ℕ) → f i ≡ true → f j ≡ false → (i == j) ≡ false
different f i j on off = elim (Bool-cases (i == j)) [
  | inl same ↦ absurd (let e = sym on ∙ (ap f ((==_iff i j).0 same) ∙ off) in ground arith)
  | inr other ↦ other
]

module _ (Q : Queues) (L : IsPriorityQueue Q) where
  open L use {times}

  -- The timers from `n` on have never been started.
  pub record IsQueued (n : ℕ) (queue : Q.Queue) (handle : Running) (points : ℕ → ℕ)
      (canceled : Running) : Type 0 where
    pub once : (t i : ℕ) → times queue t i ≤ 1
    pub entry :
        (t i : ℕ) → 0 < times queue t i → (points i ≡ t) × ((handle i ≡ true) ⊎ (canceled i ≡ true))
    pub queued : (i : ℕ) → handle i ≡ true → (0 < times queue (points i) i) × (canceled i ≡ false)
    pub fresh : (i : ℕ) → n ≤ i → (handle i ≡ false) × ((t : ℕ) → times queue t i ≡ 0)

  -- What a call leaves when it takes the timers of `removed` out of those that run. `queue` need not
  -- be the queue of the timers.
  pub record Removes (n : ℕ) (queue : Q.Queue) (s s' : Timers1 Q) (removed : Running) : Type 0 where
    pub kept : IsQueued n queue s'.m_handle s'.m_expiration_point s'.m_canceled_1
    pub runs : (j : ℕ) → s'.m_handle j ≡ (s.m_handle j && not (removed j))
    pub same_queue : s'.m_pqueue ≡ s.m_pqueue
    pub same_points : s'.m_expiration_point ≡ s.m_expiration_point
    pub same_callbacks : s'.m_call_back ≡ s.m_call_back
    pub same_canceled : (j : ℕ) → s.m_handle j ≡ false → s'.m_canceled_1 j ≡ s.m_canceled_1 j

  stop-IsQueued :
      (n i : ℕ) (queue : Q.Queue) (handle : Running) (points : ℕ → ℕ) (canceled : Running)
      → IsQueued n queue handle points canceled
      → handle i ≡ true
      → IsQueued n queue (set_at i false handle) points (set_at i true canceled)
  stop-IsQueued n i queue handle points canceled p runs = record {
    once = p.once;
    entry = λ t j held. (let x = p.entry t j held in ground arith);
    queued = λ j r. (let x = p.queued j (ground arith) in ground arith);
    fresh = λ j le. (let (f, g) = p.fresh j le in (ground arith, g));
  }

  same-Removes :
      {n : ℕ} {queue : Q.Queue} (s : Timers1 Q) (removed : Running)
      → IsQueued n queue s.m_handle s.m_expiration_point s.m_canceled_1
      → ((j : ℕ) → s.m_handle j ≡ (s.m_handle j && not (removed j)))
      → Removes n queue s s removed
  same-Removes s removed p runs = record {
    kept = p;
    runs = runs;
    same_queue = refl;
    same_points = refl;
    same_callbacks = refl;
    same_canceled = λ j idle. refl;
  }

  stop-Removes :
      (n i : ℕ) (queue : Q.Queue) (s : Timers1 Q)
      → IsQueued n queue s.m_handle s.m_expiration_point s.m_canceled_1
      → (s' : Timers1 Q) × (stop_1 Q i s ≡ some s') × Removes n queue s s' (λ j. i == j)
  unfolding stop_1
  stop-Removes n i queue s p = elim (Bool-cases (s.m_handle i)) [
    | inr idle ↦
        rw (stop_1, idle)
          (s, refl, same-Removes s (λ j. i == j) p (λ j. not_there s.m_handle i j idle))
    | inl runs ↦
        let not_canceled = (p.queued i runs).1 in
        rw (stop_1, runs, not_canceled)
          (
            _,
            refl,
            record {
              kept = stop-IsQueued n i queue _ _ _ p runs;
              runs = λ j. ground arith;
              same_queue = refl;
              same_points = refl;
              same_callbacks = refl;
              same_canceled = λ j idle. ground arith;
            },
          )
  ]

  call_back-Removes :
      (n : ℕ) (queue : Q.Queue) (c : Callback) (s : Timers1 Q)
      → IsQueued n queue s.m_handle s.m_expiration_point s.m_canceled_1
      → (s' : Timers1 Q) × (call_back_1 Q c s ≡ some s') × Removes n queue s s' (is_stopped_by c)
  unfolding call_back_1
  call_back-Removes n queue Callback.expires s p =
      (s, refl, same-Removes s (λ j. false) p (λ j. ground arith))
  call_back-Removes n queue (Callback.stops k) s p = stop-Removes n k queue s p

  -- The first entry is that of a canceled timer.
  pub pop-canceled :
      {n t i : ℕ} {queue : Q.Queue} {handle : Running} {points : ℕ → ℕ} {canceled : Running}
      → IsQueued n queue handle points canceled
      → Q.top queue ≡ some (t, i)
      → canceled i ≡ true
      → IsQueued n (Q.pop queue) handle points canceled
  pop-canceled {t = t} {i = i} {queue = queue} {points = points} {canceled = canceled} p e gone =
      record {
        once =
            λ t' j. (let x = L.times-pop queue t i e t' j in let y = p.once t' j in ground arith);
        entry = λ t' j held. p.entry t' j (let x = L.times-pop queue t i e t' j in ground arith);
        queued = λ j r.
            (let (q, c) = p.queued j r in
              let other = different canceled i j gone c in
              let x = L.times-pop queue t i e (points j) j in (ground arith, c));
        fresh = λ j le.
            (let (f, g) = p.fresh j le in
              (f, λ t'. (let x = L.times-pop queue t i e t' j in let y = g t' in ground arith)));
      }

  popped_entry :
      {n t i : ℕ} {queue : Q.Queue} {handle : Running} {points : ℕ → ℕ} {canceled : Running}
      → IsQueued n queue handle points canceled
      → Q.top queue ≡ some (t, i)
      → (t' j : ℕ) → 0 < times (Q.pop queue) t' j
      → (points j ≡ t') × ((set_at i false handle j ≡ true) ⊎ (canceled j ≡ true))
  popped_entry {t = t} {i = i} {queue = queue} {points = points} p e t' j held =
      let x = L.times-pop queue t i e t' j in
      let (at, on) = p.entry t' j (ground arith) in
      elim (Bool-cases (j == i)) [
        | inr other ↦ (at, ground arith)
        | inl same ↦ absurd (
            let at_i = (p.entry t i (L.top_held queue t i e)).0 in
            let at_j = ap points ((==_iff j i).0 same) in let y = p.once t' j in ground arith)
      ]

  -- The first entry is that of a timer that runs, and is stopped.
  pop-stopped :
      {n t i : ℕ} {queue : Q.Queue} {handle : Running} {points : ℕ → ℕ} {canceled : Running}
      → IsQueued n queue handle points canceled
      → Q.top queue ≡ some (t, i)
      → handle i ≡ true
      → IsQueued n (Q.pop queue) (set_at i false handle) points canceled
  pop-stopped {t = t} {i = i} {queue = queue} {points = points} p e runs = record {
    once = λ t' j. (let x = L.times-pop queue t i e t' j in let y = p.once t' j in ground arith);
    entry = λ t' j held. popped_entry p e t' j held;
    queued = λ j r.
        (let (q, c) = p.queued j (ground arith) in
          let x = L.times-pop queue t i e (points j) j in (ground arith, c));
    fresh = λ j le.
        (let (f, g) = p.fresh j le in
          (
            ground arith,
            λ t'. (let x = L.times-pop queue t i e t' j in let y = g t' in ground arith),
          ));
  }

  -- The timer of the first entry expires, and the entry is popped.
  pub record IsPopped (n i : ℕ) (s s' : Timers1 Q) : Type 0 where
    pub kept : IsQueued n (Q.pop s'.m_pqueue) s'.m_handle s'.m_expiration_point s'.m_canceled_1
    pub without : IsWithout s.m_expiration_point s.m_call_back s.m_handle i s'.m_handle
    pub same_queue : s'.m_pqueue ≡ s.m_pqueue
    pub same_points : s'.m_expiration_point ≡ s.m_expiration_point
    pub same_callbacks : s'.m_call_back ≡ s.m_call_back
    pub not_canceled : s'.m_canceled_1 i ≡ false

  pub expire-IsPopped :
      (n t i last : ℕ) (s : Timers1 Q)
      → IsQueued n s.m_pqueue s.m_handle s.m_expiration_point s.m_canceled_1
      → Q.top s.m_pqueue ≡ some (t, i)
      → s.m_canceled_1 i ≡ false
      → last ≡ s.m_expiration_point i
      → (s.m_handle i ≡ true)
        × ((s' : Timers1 Q) × (expire_1 Q last i s ≡ some s') × IsPopped n i s s')
  unfolding expire_1
  expire-IsPopped n t i last s p e off now =
      let on = (p.entry t i (L.top_held s.m_pqueue t i e)).1 in
      let runs : s.m_handle i ≡ true = ground arith in
      let passes : ((s.m_handle i && not (s.m_canceled_1 i)) && last == s.m_expiration_point i)
          ≡ true =
        ground arith in
      let stopped : Timers1 Q = record s { m_handle = set_at i false s.m_handle } in
      let (s', e', r) =
        call_back-Removes n (Q.pop s.m_pqueue) (s.m_call_back i) stopped (pop-stopped p e runs) in
      (
        runs,
        (
          s',
          ap (λ b. if b then call_back_1 Q (s.m_call_back i) stopped else none) passes ∙ e',
          record {
            kept =
                subst (λ q. IsQueued n (Q.pop q) s'.m_handle s'.m_expiration_point s'.m_canceled_1)
                  (sym r.same_queue) r.kept;
            without = λ j. (let w = r.runs j in ground arith);
            same_queue = r.same_queue;
            same_points = r.same_points;
            same_callbacks = r.same_callbacks;
            not_canceled = r.same_canceled i (ground arith) ∙ off;
          },
        ),
      )
