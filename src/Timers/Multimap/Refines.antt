-- ===== src/Timers/Multimap/Refines.antt =====
-- `expire_next` of implementation 0 of src/timer_test.cxx does what Expiring says.
use mathlib.Core.List.{Memᴰ}
use ai_statefultask_testsuit.Base.{
  ℕ, zero, suc, ◌+◌, ◌<◌, ◌≤◌, ◌≡◌, ◌≢◌, ◌⊎◌, refl, sym, ap, subst, ◌∙◌, inl, inr, true, false, not,
  ◌&&◌, ltb, ◌==◌, ==_iff, Option, none, some, List, [], ◌∷◌, length, arith, is_some, Bool-cases,
  Option-cases, List-cases,
}
use ai_statefultask_testsuit.Timers.{Callback, Running, is_stopped_by}
use ai_statefultask_testsuit.Timers.Expiring.{
  StopsPlain, Expires, IsExpiring, IsWithout, none-IsExpiring, next-IsExpiring, all-Expires,
}
use ai_statefultask_testsuit.Timers.Multimap.{
  Entry, Timers0, is_running, expire, erase, expire_first, expire_same, expire_next,
}
use ai_statefultask_testsuit.Timers.Multimap.Nodes.{Sorted, Sorted-least}
use ai_statefultask_testsuit.Timers.Multimap.Accounts.{IsCounted, IsAccounted, remove-IsCounted}
use ai_statefultask_testsuit.Timers.Multimap.Kept.{IsKept, Keeps, erase-IsKept}
use ai_statefultask_testsuit.Timers.Multimap.Steps.{expire-IsExpired, erase-IsExpired}
use ai_statefultask_testsuit.Timers.Multimap.Rounds.{
  without_null, same_end, same_null, same_later, same_now, first_zero, first_end, first_null,
  first_now,
}

runs-handle :
    (handle : ℕ → Option ℕ) (i : ℕ) → is_some (handle i) ≡ true → (it : ℕ) × (handle i ≡ some it)
runs-handle handle i r = elim (Option-cases (handle i)) [
  | inl none_there ↦ absurd (ground arith)
  | inr x ↦ x
]

module _ (n : ℕ) (points : ℕ → ℕ) (callbacks : ℕ → Callback) where
  -- The members of the timers are these.
  pub record Holds (s : Timers0) : Type 0 where
    pub keeps : Keeps n s
    pub accounted : IsAccounted n 0 s
    pub points_are : s.m_expiration_point ≡ points
    pub callbacks_are : s.m_call_back ≡ callbacks

  nothing_runs : {s : Timers0} → Holds s → s.m_map ≡ [] → (j : ℕ) → is_running s j ≢ true
  nothing_runs {s = s} h e j r =
      let (it, hj) = runs-handle s.m_handle j r in
      let (x, m, x_it, x_j) = h.keeps.held j it hj in elim (subst (λ l. Memᴰ x l) e m) [ ]

  -- The first node has the least point in time.
  first-least :
      {s : Timers0} {b : Entry} {es : List Entry} {i : ℕ}
      → Holds s
      → s.m_map ≡ b ∷ es
      → b.second ≡ some i
      → (j : ℕ) → is_running s j ≡ true
      → points i ≤ points j
  first-least {s = s} {b = b} {es = es} {i = i} h e e_b j r =
      let (it, hj) = runs-handle s.m_handle j r in
      let (x, m, x_it, x_j) = h.keeps.held j it hj in
      let at_i = (h.keeps.entries b i (subst (λ l. Memᴰ b l) (sym e) (Memᴰ.head refl)) e_b).1 in
      let at_j = (h.keeps.entries x j m x_j).1 in
      let low = Sorted-least b es x (subst Sorted e h.keeps.sorted) (subst (λ l. Memᴰ x l) e m) in
      let p_i = ap (λ f. f i) h.points_are in let p_j = ap (λ f. f j) h.points_are in omega arith

  without_null-Holds :
      {s : Timers0} {b : Entry} {es : List Entry}
      → Holds s
      → s.m_map ≡ b ∷ es
      → b.second ≡ none
      → Holds (without_null s es)
  without_null-Holds {s = s} h e e_b = record {
    keeps =
        erase-IsKept e_b
          (subst (λ l. IsKept n s.next_iterator l s.m_handle s.m_expiration_point) e h.keeps);
    accounted = remove-IsCounted e_b (
        subst
          (λ l.
            IsCounted n 0 s.next_iterator l s.m_handle s.running_timers s.expired_timers
              s.canceled_removed s.canceled_timers)
          e h.accounted);
    points_are = h.points_are;
    callbacks_are = h.callbacks_are;
  }

  -- The timer of the first node expires, and the node is erased.
  pub record IsPopped (i : ℕ) (es : List Entry) (b : Entry) (s s' : Timers0) : Type 0 where
    pub holds : Holds (record s' { m_map = erase b.iterator s'.m_map })
    pub fewer : length (erase b.iterator s'.m_map) ≡ length es
    pub without : IsWithout points callbacks (is_running s) i (is_running s')
    pub last_set : s'.last_time_point ≡ points i

  expire-IsPopped :
      {s : Timers0} {b : Entry} {es : List Entry} {i : ℕ}
      → Holds s
      → s.m_map ≡ b ∷ es
      → b.second ≡ some i
      → (is_running s i ≡ true) × ((s' : Timers0) × (expire i s ≡ some s') × IsPopped i es b s s')
  expire-IsPopped {s = s} {b = b} {i = i} h e e_b =
      let hi = (h.keeps.entries b i (subst (λ l. Memᴰ b l) (sym e) (Memᴰ.head refl)) e_b).0 in
      let (s', e', x) = expire-IsExpired n i b.iterator s h.keeps hi in
      let (a, k, len) = erase-IsExpired x e e_b h.accounted in
      (
        ap is_some hi,
        (
          s',
          e',
          record {
            holds = record {
              keeps = k;
              accounted = a;
              points_are = x.same_points ∙ h.points_are;
              callbacks_are = x.same_callbacks ∙ h.callbacks_are;
            };
            fewer = len;
            without = λ j.
                x.without j
                ∙ ap (λ f. (is_running s j && not (i == j)) && not (is_stopped_by (f i) j))
                    h.callbacks_are;
            last_set = x.last_set ∙ ap (λ f. f i) h.points_are;
          },
        ),
      )

  -- What the second loop leaves of the timers that ran before both loops.
  pub record IsDone (before : Running) (now : ℕ) (s' : Timers0) : Type 0 where
    pub holds : Holds s'
    pub expiring : IsExpiring points callbacks before now (is_running s')
    pub all : (j : ℕ) → is_running s' j ≡ true → points j ≢ now
    pub last_set : s'.last_time_point ≡ now

  module _ (before : Running) (now : ℕ) (plain : StopsPlain points callbacks before) where
    expire_same-IsDone :
        (fuel : ℕ) (s : Timers0)
        → Holds s
        → IsExpiring points callbacks before now (is_running s)
        → ((j : ℕ) → is_running s j ≡ true → now ≤ points j)
        → s.last_time_point ≡ now
        → length s.m_map < fuel
        → (s' : Timers0) × (expire_same now fuel s ≡ some s') × IsDone before now s'
    expire_same-IsDone zero s h p least last enough = absurd (omega arith)
    expire_same-IsDone (suc fuel) s h p least last enough = elim (List-cases s.m_map) [
      | inl e ↦ (
        s,
        same_end now fuel s e,
        record {
          holds = h;
          expiring = p;
          all = λ j r. absurd (nothing_runs h e j r);
          last_set = last;
        },
      )
      | inr (b, es, e) ↦
          let len : length s.m_map ≡ suc (length es) = ap length e in
          elim (Option-cases b.second) [
            | inl e_b ↦
                let (s', e', d) =
                  expire_same-IsDone fuel (without_null s es) (without_null-Holds h e e_b) p least
                    last (omega arith) in
                (s', same_null now fuel s e e_b ∙ e', d)
            | inr (i, e_b) ↦
                let (runs, next) = expire-IsPopped h e e_b in
                let p_i = ap (λ f. f i) h.points_are in
                let early : ltb (s.m_expiration_point i) now ≡ false =
                  let l = least i runs in ground arith in
                elim (Bool-cases (s.m_expiration_point i == now)) [
                  | inr later ↦ (
                    s,
                    same_later now fuel s e e_b early later,
                    record {
                      holds = h;
                      expiring = p;
                      all = λ j r same.
                          (let low = first-least h e e_b j r in
                            let l = least i runs in ground arith);
                      last_set = last;
                    },
                  )
                  | inl due ↦
                      let (s₁, e₁, x) = next in
                      let at_now : points i ≡ now = sym p_i ∙ (==_iff _ now).0 due in
                      let p' =
                        next-IsExpiring points callbacks before (is_running s) (is_running s₁) now i
                          plain p runs at_now x.without in
                      let len' = x.fewer in
                      let (s', e', d) =
                        expire_same-IsDone fuel (record s₁ { m_map = erase b.iterator s₁.m_map })
                          x.holds p' (λ j r. least j (let w = x.without j in ground arith))
                          (x.last_set ∙ at_now) (omega arith) in
                      (s', same_now now fuel s e e_b early due e₁ ∙ e', d)
                ]
          ]
    ]

  -- What the first loop leaves: one of the timers that are due first has expired.
  pub record HasExpired (before : Running) (now : ℕ) (s' : Timers0) : Type 0 where
    pub holds : Holds s'
    pub due : (i : ℕ) × (before i ≡ true) × (points i ≡ now)
    pub least : (j : ℕ) → before j ≡ true → now ≤ points j
    pub expiring : IsExpiring points callbacks before now (is_running s')
    pub last_set : s'.last_time_point ≡ now

  expire_first-HasExpired :
      (fuel : ℕ) (s : Timers0)
      → Holds s
      → StopsPlain points callbacks (is_running s)
      → length s.m_map ≤ fuel
      → (((j : ℕ) → is_running s j ≢ true) × (expire_first fuel s ≡ none))
        ⊎ ((now : ℕ) × (s' : Timers0) × (expire_first fuel s ≡ some (now, s'))
            × HasExpired (is_running s) now s')
  expire_first-HasExpired zero s h plain enough = elim (List-cases s.m_map) [
    | inl e ↦ inl (nothing_runs h e, first_zero s)
    | inr (b, es, e) ↦
        absurd (let len : length s.m_map ≡ suc (length es) = ap length e in omega arith)
  ]
  expire_first-HasExpired (suc fuel) s h plain enough = elim (List-cases s.m_map) [
    | inl e ↦ inl (nothing_runs h e, first_end fuel s e)
    | inr (b, es, e) ↦
        let len : length s.m_map ≡ suc (length es) = ap length e in
        elim (Option-cases b.second) [
          | inl e_b ↦
              elim (expire_first-HasExpired fuel (without_null s es) (without_null-Holds h e e_b)
                plain (omega arith)) [
                  | inl (idle, fails) ↦ inl (idle, first_null fuel s e e_b ∙ fails)
                  | inr (now, s', e', f) ↦ inr (now, s', first_null fuel s e e_b ∙ e', f)
                ]
          | inr (i, e_b) ↦
              let (runs, (s₁, e₁, x)) = expire-IsPopped h e e_b in
              let p_i = ap (λ f. f i) h.points_are in
              inr (
                s.m_expiration_point i,
                _,
                first_now fuel s e e_b e₁,
                record {
                  holds = x.holds;
                  due = (i, runs, sym p_i);
                  least = λ j r. (let low = first-least h e e_b j r in omega arith);
                  expiring =
                      next-IsExpiring points callbacks (is_running s) (is_running s) (is_running s₁)
                        _ i plain (none-IsExpiring points callbacks (is_running s) _) runs (sym p_i)
                        x.without;
                  last_set = x.last_set ∙ sym p_i;
                },
              )
        ]
  ]

  -- `expire_next` fails only if no timer runs.
  pub expire_next-Expires :
      (s : Timers0)
      → Holds s
      → StopsPlain points callbacks (is_running s)
      → (((j : ℕ) → is_running s j ≢ true) × (expire_next s ≡ none))
        ⊎ ((now : ℕ) × (s' : Timers0) × (expire_next s ≡ some s')
            × Holds s'
            × Expires points callbacks (is_running s) now (is_running s')
            × (s'.last_time_point ≡ now))
  unfolding expire_next
  expire_next-Expires s h plain =
      elim (expire_first-HasExpired (length s.m_map) s h plain (omega arith)) [
        | inl (idle, fails) ↦ inl (idle, rw (expire_next, fails) refl)
        | inr (now, s₁, e₁, f) ↦
            let (s₂, e₂, d) =
              expire_same-IsDone (is_running s) now plain (length s₁.m_map + 1) s₁ f.holds
                f.expiring (λ j r. f.least j (f.expiring.subset j r)) f.last_set (omega arith) in
            inr (
              now,
              s₂,
              rw (expire_next, e₁) e₂,
              d.holds,
              all-Expires points callbacks (is_running s) (is_running s₂) now f.due f.least
                  d.expiring d.all,
              d.last_set,
            )
      ]
