-- ===== src/Timers/Multimap/Steps.antt =====
-- What the calls on one timer do in implementation 0 of src/timer_test.cxx.
use mathlib.Core.List.{Memᴰ}
use ai_statefultask_testsuit.Base.{
  ℕ, ◌+◌, ◌<◌, ◌≡◌, ltb, ltb→lt, refl, sym, ap, subst, ◌∙◌, inl, inr, true, false, not, ◌&&◌, ◌==◌,
  ==_iff, if◌then◌else◌, Option, none, some, List, ◌∷◌, length, arith, is_some, Bool-cases,
  Option-cases,
}
use ai_statefultask_testsuit.Timers.{Callback, set_at, Running, is_stopped_by}
use ai_statefultask_testsuit.Timers.Expiring.{IsWithout}
use ai_statefultask_testsuit.Timers.Multimap.{
  Entry, Timers0, is_running, second_of, set_not_running, stop, call_back, expire, start, erase,
}
use ai_statefultask_testsuit.Timers.Multimap.Nodes.{
  Nulled, Nulled_refl, Nulled_trans, Nulled-cons, set_null-Nulled, second_of-some, erase_first,
}
use ai_statefultask_testsuit.Timers.Multimap.Accounts.{
  IsCounted, IsAccounted, set_null-IsCounted, expired-IsCounted, erase-IsCounted, emplace-IsCounted,
}
use ai_statefultask_testsuit.Timers.Multimap.Kept.{
  IsKept, Keeps, set_null-IsKept, erase-IsKept, emplace-IsKept,
}

-- What a call leaves when it takes the timers of `removed` out of those that run.
pub record Removes (n : ℕ) (s s' : Timers0) (removed : Running) : Type 0 where
  pub kept : Keeps n s'
  pub runs : (j : ℕ) → is_running s' j ≡ (is_running s j && not (removed j))
  pub nulled : Nulled s.m_map s'.m_map
  pub accounted : IsAccounted n 0 s → IsAccounted n 0 s'
  pub same_points : s'.m_expiration_point ≡ s.m_expiration_point
  pub same_callbacks : s'.m_call_back ≡ s.m_call_back
  pub same_last : s'.last_time_point ≡ s.last_time_point

handle-below :
    {n next i it : ℕ} {nodes : List Entry} {handle : ℕ → Option ℕ} {points : ℕ → ℕ}
    → IsKept n next nodes handle points
    → handle i ≡ some it
    → i < n
handle-below {n = n} {i = i} p h = elim (Bool-cases (ltb i n)) [
  | inl lt ↦ ltb→lt i n lt
  | inr ge ↦ absurd (let f = p.fresh i (ground arith) in ground arith)
]

set_not_running-Removes :
    (n i it : ℕ) (s : Timers0)
    → Keeps n s
    → s.m_handle i ≡ some it
    → (s' : Timers0) × (set_not_running i s ≡ some s') × Removes n s s' (λ j. i == j)
unfolding set_not_running
set_not_running-Removes n i it s p hi =
    let (e, m, e_it, e_i) = p.held i it hi in
    let found : second_of it s.m_map ≡ some i =
      second_of-some it i s.m_map e m e_it (λ e' m' at. p.owned e' i m' (hi ∙ ap some (sym at))) in
    rw (set_not_running, hi, found)
      (
        _,
        refl,
        record {
          kept = set_null-IsKept p hi;
          runs = λ j. ground arith;
          nulled = set_null-Nulled it s.m_map;
          accounted = λ a. set_null-IsCounted a it i found (handle-below p hi) hi;
          same_points = refl;
          same_callbacks = refl;
          same_last = refl;
        },
      )

not_there :
    (handle : ℕ → Option ℕ) (i j : ℕ)
    → handle i ≡ none
    → is_some (handle j) ≡ (is_some (handle j) && not (i == j))
not_there handle i j e = elim (Bool-cases (i == j)) [
  | inl same ↦ let e' = ap handle (sym ((==_iff i j).0 same)) ∙ e in rw (same, e') refl
  | inr other ↦ ground arith
]

stop-Removes :
    (n i : ℕ) (s : Timers0)
    → Keeps n s
    → (s' : Timers0) × (stop i s ≡ some s') × Removes n s s' (λ j. i == j)
unfolding stop
stop-Removes n i s p = elim (Option-cases (s.m_handle i)) [
  | inl e ↦
      rw (stop, e)
        (
          s,
          refl,
          record {
            kept = p;
            runs = λ j. not_there s.m_handle i j e;
            nulled = Nulled_refl s.m_map;
            accounted = λ a. a;
            same_points = refl;
            same_callbacks = refl;
            same_last = refl;
          },
        )
  | inr (it, e) ↦ rw (stop, e) (set_not_running-Removes n i it s p e)
]

call_back-Removes :
    (n : ℕ) (c : Callback) (s : Timers0)
    → Keeps n s
    → (s' : Timers0) × (call_back c s ≡ some s') × Removes n s s' (is_stopped_by c)
unfolding call_back
call_back-Removes n Callback.expires s p = (
  s,
  refl,
  record {
    kept = p;
    runs = λ j. ground arith;
    nulled = Nulled_refl s.m_map;
    accounted = λ a. a;
    same_points = refl;
    same_callbacks = refl;
    same_last = refl;
  },
)
call_back-Removes n (Callback.stops k) s p = stop-Removes n k s p

-- The expiry of a running timer.
pub record IsExpired (n i : ℕ) (s s' : Timers0) : Type 0 where
  pub kept : Keeps n s'
  pub without : IsWithout s.m_expiration_point s.m_call_back (is_running s) i (is_running s')
  pub nulled : Nulled s.m_map s'.m_map
  pub accounted : IsAccounted n 0 s → IsAccounted n 1 s'
  pub same_points : s'.m_expiration_point ≡ s.m_expiration_point
  pub same_callbacks : s'.m_call_back ≡ s.m_call_back
  pub last_set : s'.last_time_point ≡ s.m_expiration_point i

pub expire-IsExpired :
    (n i it : ℕ) (s : Timers0)
    → Keeps n s
    → s.m_handle i ≡ some it
    → (s' : Timers0) × (expire i s ≡ some s') × IsExpired n i s s'
unfolding expire
expire-IsExpired n i it s p hi =
    let (s₁, e₁, r₁) = set_not_running-Removes n i it s p hi in
    let (s₂, e₂, r₂) =
      call_back-Removes n (s₁.m_call_back i)
        (record s₁ { last_time_point = s₁.m_expiration_point i }) r₁.kept in
    rw (expire, e₁, e₂)
      (
        _,
        refl,
        record {
          kept = r₂.kept;
          without = λ j.
              r₂.runs j
              ∙ (ap (λ b. b && not (is_stopped_by (s₁.m_call_back i) j)) (r₁.runs j)
                  ∙ ap (λ f. (is_running s j && not (i == j)) && not (is_stopped_by (f i) j))
                      r₁.same_callbacks);
          nulled = Nulled_trans r₁.nulled r₂.nulled;
          accounted = λ a. expired-IsCounted (r₂.accounted (r₁.accounted a));
          same_points = r₂.same_points ∙ r₁.same_points;
          same_callbacks = r₂.same_callbacks ∙ r₁.same_callbacks;
          last_set = r₂.same_last ∙ ap (λ f. f i) r₁.same_points;
        },
      )

itself_stopped :
    (runs : Running) (c : Callback) (i : ℕ)
    → ((runs i && not (i == i)) && not (is_stopped_by c i)) ≡ false
itself_stopped runs c i = ground arith

-- The node of a timer that has expired is canceled, and erased behind the call.
pub erase-IsExpired :
    {n i : ℕ} {s s' : Timers0} {b : Entry} {es : List Entry}
    → IsExpired n i s s'
    → s.m_map ≡ b ∷ es
    → b.second ≡ some i
    → IsAccounted n 0 s
    → IsAccounted n 0 (record s' { m_map = erase b.iterator s'.m_map })
      × IsKept n s'.next_iterator (erase b.iterator s'.m_map) s'.m_handle s'.m_expiration_point
      × (length (erase b.iterator s'.m_map) ≡ length es)
erase-IsExpired {n = n} {i = i} {s = s} {s' = s'} {b = b} p e e_i a =
    let (b', rest, e', same_it, second, len) =
      Nulled-cons (subst (λ l. Nulled l s'.m_map) e p.nulled) in
    let k = subst (λ l. IsKept n s'.next_iterator l s'.m_handle s'.m_expiration_point) e' p.kept in
    let counted =
      subst
        (λ l.
          IsCounted n 1 s'.next_iterator l s'.m_handle s'.running_timers s'.expired_timers
            s'.canceled_removed s'.canceled_timers)
        e' (p.accounted a) in
    let null : b'.second ≡ none = elim second [
      | inl gone ↦ gone
      | inr still ↦ absurd (
          let h = (k.entries b' i (Memᴰ.head refl) (still ∙ e_i)).0 in
          let off = p.without i ∙ itself_stopped (is_running s) (s.m_call_back i) i in ground arith)
    ] in
    let erased : erase b.iterator s'.m_map ≡ rest =
      ap (erase b.iterator) e' ∙ erase_first b.iterator b' rest same_it in
    (
      subst
          (λ l.
            IsCounted n 0 s'.next_iterator l s'.m_handle s'.running_timers s'.expired_timers
              s'.canceled_removed s'.canceled_timers)
          (sym erased) (erase-IsCounted null counted),
      subst (λ l. IsKept n s'.next_iterator l s'.m_handle s'.m_expiration_point) (sym erased)
          (erase-IsKept null k),
      ap length erased ∙ len,
    )

-- `start` of a timer that was not started before.
pub start-Keeps :
    (n point : ℕ) (c : Callback) (s : Timers0)
    → Keeps n s
    → (s' : Timers0) × (start n point c s ≡ some s')
      × Keeps (n + 1) s'
      × (IsAccounted n 0 s → IsAccounted (n + 1) 0 s')
      × ((j : ℕ) → is_running s' j ≡ (if j == n then true else is_running s j))
      × (s'.m_expiration_point ≡ set_at n point s.m_expiration_point)
      × (s'.m_call_back ≡ set_at n c s.m_call_back)
unfolding start
start-Keeps n point c s p =
    let unused = p.fresh n (omega arith) in
    rw (start, unused)
      (
        _,
        refl,
        emplace-IsKept point p,
        λ a. emplace-IsCounted point unused a,
        λ j. ground arith,
        refl,
        refl,
      )
