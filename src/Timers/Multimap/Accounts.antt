-- ===== src/Timers/Multimap/Accounts.antt =====
-- The counters of src/timer_test.cxx for implementation 0, which `main` prints.
use ai_statefultask_testsuit.Base.{
  ℕ, ◌+◌, ◌-◌, ◌<◌, ◌≡◌, ap, Option, none, some, List, ◌∷◌, arith, is_some,
}
use ai_statefultask_testsuit.Timers.{set_at}
use ai_statefultask_testsuit.Timers.Multimap.{Entry, Timers0, emplace, second_of, set_null}
use ai_statefultask_testsuit.Timers.Multimap.Nodes.{set_null-Nulled}
use ai_statefultask_testsuit.Timers.Multimap.Counts.{
  one_if_live, one_if_null, live, nulls, Distinct, IsBelow, set_null_counts, All-Nulled_iterator,
  Distinct-Nulled, number_of, number_without, number_with, emplace_counts, All-emplace_iterator,
  emplace-Distinct, below_suc,
}

-- How the counters belong together behind `n` calls of `start`, where `pending` of the timers that
-- expired still have a node.
pub record IsCounted (n pending next : ℕ) (nodes : List Entry) (handle : ℕ → Option ℕ)
    (running expired removed canceled : ℕ) : Type 0 where
  pub distinct : Distinct nodes
  pub below : IsBelow next nodes
  pub all_running : running ≡ live nodes
  pub all_handles : running ≡ number_of n (λ i. is_some (handle i))
  pub all_canceled : canceled + pending ≡ expired + removed + nulls nodes
  pub all_started : running + canceled ≡ n

abbrev pub IsAccounted : ℕ → ℕ → Timers0 → Type 0
IsAccounted n pending s =
    IsCounted n pending s.next_iterator s.m_map s.m_handle s.running_timers s.expired_timers
      s.canceled_removed s.canceled_timers

module _ {n pending next : ℕ} {nodes : List Entry} {handle : ℕ → Option ℕ}
    {running expired removed canceled : ℕ}
    (p : IsCounted n pending next nodes handle running expired removed canceled) where
  pub set_null-IsCounted :
      (it i : ℕ)
      → second_of it nodes ≡ some i
      → i < n
      → handle i ≡ some it
      → IsCounted n pending next
          (set_null it nodes)
          (set_at i none handle)
          (running - 1)
          expired
          removed
          (canceled + 1)
  set_null-IsCounted it i found lt h =
      let (l, c) = set_null_counts it i nodes p.distinct found in
      let f = p.all_handles in
      let g = number_without n i handle lt (ground arith) in
      let r = p.all_running in
      let k = p.all_canceled in
      let a = p.all_started in
      record {
        distinct = Distinct-Nulled (set_null-Nulled it nodes) p.distinct;
        below = All-Nulled_iterator (λ x. x < next) (set_null-Nulled it nodes) p.below;
        all_running = omega arith;
        all_handles = omega arith;
        all_canceled = omega arith;
        all_started = omega arith;
      }

  -- Behind the callback the timer counts as expired.
  pub expired-IsCounted :
      IsCounted n (pending + 1) next nodes handle running (expired + 1) removed canceled
  expired-IsCounted = record {
    distinct = p.distinct;
    below = p.below;
    all_running = p.all_running;
    all_handles = p.all_handles;
    all_canceled = (let k = p.all_canceled in omega arith);
    all_started = p.all_started;
  }

-- The first node is erased, and its timer had expired.
pub erase-IsCounted :
    {n next : ℕ} {b : Entry} {es : List Entry} {handle : ℕ → Option ℕ}
    {running expired removed canceled : ℕ}
    → b.second ≡ none
    → IsCounted n 1 next (b ∷ es) handle running expired removed canceled
    → IsCounted n 0 next es handle running expired removed canceled
erase-IsCounted {b = b} {es = es} null p =
    let r = p.all_running in
    let k = p.all_canceled in
    let l = ap one_if_live null in
    let c = ap one_if_null null in
    record {
      distinct = p.distinct.1;
      below = p.below.1;
      all_running = omega arith;
      all_handles = p.all_handles;
      all_canceled = omega arith;
      all_started = p.all_started;
    }

-- The first node is erased, and its timer was stopped.
pub remove-IsCounted :
    {n next : ℕ} {b : Entry} {es : List Entry} {handle : ℕ → Option ℕ}
    {running expired removed canceled : ℕ}
    → b.second ≡ none
    → IsCounted n 0 next (b ∷ es) handle running expired removed canceled
    → IsCounted n 0 next es handle running expired (removed + 1) canceled
remove-IsCounted {b = b} {es = es} null p =
    let r = p.all_running in
    let k = p.all_canceled in
    let l = ap one_if_live null in
    let c = ap one_if_null null in
    record {
      distinct = p.distinct.1;
      below = p.below.1;
      all_running = omega arith;
      all_handles = p.all_handles;
      all_canceled = omega arith;
      all_started = p.all_started;
    }

-- `start` of the timer `n`.
pub emplace-IsCounted :
    {n next : ℕ} {nodes : List Entry} {handle : ℕ → Option ℕ} {running expired removed canceled : ℕ}
    (point : ℕ)
    → handle n ≡ none
    → IsCounted n 0 next nodes handle running expired removed canceled
    → IsCounted
        (n + 1)
        0
        (next + 1)
        (emplace (record { iterator = next; first = point; second = some n }) nodes)
        (set_at n (some next) handle)
        (running + 1)
        expired
        removed
        canceled
emplace-IsCounted {n = n} {next = next} {nodes = nodes} {handle = handle} point unused p =
    let x : Entry = record { iterator = next; first = point; second = some n } in
    let (l, c) = emplace_counts x nodes in
    let r = p.all_running in
    let k = p.all_canceled in
    let a = p.all_started in
    let f = p.all_handles in
    let g = number_with n next handle unused in
    record {
      distinct = emplace-Distinct x nodes p.below p.distinct;
      below =
          All-emplace_iterator (λ it. it < next + 1) x nodes (omega arith)
            (below_suc next nodes p.below);
      all_running = omega arith;
      all_handles = omega arith;
      all_canceled = omega arith;
      all_started = omega arith;
    }
