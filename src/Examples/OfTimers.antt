-- ===== src/Examples/OfTimers.antt =====
-- Timers of src/timer_test.cxx, with a priority queue that is a list.
use mathlib.Core.Option.{some_inj}
use ai_statefultask_testsuit.Base.{
  ℕ, ◌+◌, ◌*◌, ◌≡◌, ◌≢◌, ◌⊎◌, refl, sym, subst, ◌∙◌, Bool, true, false, ◌==◌, Option, none, some,
  length, [], ◌∷◌, arith,
}
use ai_statefultask_testsuit.Timers.{Callback, set_at}
use ai_statefultask_testsuit.Timers.Expiring.{Expires}
use ai_statefultask_testsuit.Timers.Multimap.{
  Timers0, is_running, no_timers, start, stop, expire_next,
}
use ai_statefultask_testsuit.Timers.PriorityQueue.{no_timers_1, start_1, stop_1, expire_next_1}
use ai_statefultask_testsuit.Timers.Generate.{
  Both, Run, nothing_started, start_both, expire_both, generate, extra_timers,
}
use ai_statefultask_testsuit.Timers.Agree.{
  Agrees, nothing_started-Agrees, start_both-Agrees, expire_both-Expires,
}
use ai_statefultask_testsuit.Timers.Counted.{IsPrinted, generate-IsPrinted}
use ai_statefultask_testsuit.Timers.Generated.{IsOutcome, generate-IsOutcome}
use ai_statefultask_testsuit.Examples.ListQueues.{list_queues, list_queues_are}

abbrev no_points : ℕ → ℕ
no_points i = 0

abbrev no_callbacks : ℕ → Callback
no_callbacks i = Callback.expires

-- Timer 0 expires at 7, timer 1 at 5 and then stops timer 0.
abbrev one_timer : Both list_queues
one_timer = record {
  timers0 = record no_timers {
    m_map = record { iterator = 0; first = 7; second = some 0 } ∷ [];
    next_iterator = 1;
    m_handle = set_at 0 (some 0) (λ i. none);
    m_expiration_point = set_at 0 7 no_points;
    m_call_back = set_at 0 Callback.expires no_callbacks;
    running_timers = 1;
  };
  timers1 = record (no_timers_1 list_queues) {
    m_pqueue = (7, 0) ∷ [];
    m_handle = set_at 0 true (λ i. false);
    m_expiration_point = set_at 0 7 no_points;
    m_call_back = set_at 0 Callback.expires no_callbacks;
    m_canceled_1 = set_at 0 false (λ i. false);
  };
}

abbrev two_timers : Both list_queues
two_timers = record {
  timers0 = record one_timer.timers0 {
    m_map =
        record { iterator = 1; first = 5; second = some 1 }
        ∷ record { iterator = 0; first = 7; second = some 0 }
        ∷ [];
    next_iterator = 2;
    m_handle = set_at 1 (some 1) one_timer.timers0.m_handle;
    m_expiration_point = set_at 1 5 one_timer.timers0.m_expiration_point;
    m_call_back = set_at 1 (Callback.stops 0) one_timer.timers0.m_call_back;
    running_timers = 2;
  };
  timers1 = record one_timer.timers1 {
    m_pqueue = (5, 1) ∷ (7, 0) ∷ [];
    m_handle = set_at 1 true one_timer.timers1.m_handle;
    m_expiration_point = set_at 1 5 one_timer.timers1.m_expiration_point;
    m_call_back = set_at 1 (Callback.stops 0) one_timer.timers1.m_call_back;
    m_canceled_1 = set_at 1 false one_timer.timers1.m_canceled_1;
  };
}

one_started :
    start_both list_queues 0 7 Callback.expires (nothing_started list_queues) ≡ some one_timer
unfolding start_both
one_started = refl

two_started : start_both list_queues 1 5 (Callback.stops 0) one_timer ≡ some two_timers
unfolding start_both
two_started = refl

one_timer-Agrees :
    Agrees list_queues list_queues_are 1
      (set_at 0 7 no_points)
      (set_at 0 Callback.expires no_callbacks)
      one_timer
one_timer-Agrees =
    let (b, e, p, r) =
      start_both-Agrees list_queues list_queues_are 0 7 Callback.expires no_points no_callbacks
        (nothing_started list_queues) (nothing_started-Agrees list_queues list_queues_are)
        (λ k c. absurd (ground arith)) in
    subst
      (λ b'.
        Agrees list_queues list_queues_are 1 (set_at 0 7 no_points)
          (set_at 0 Callback.expires no_callbacks) b')
      (some_inj.0 (sym e ∙ one_started)) p

two_timers-Agrees :
    Agrees list_queues list_queues_are 2
      (set_at 1 5 (set_at 0 7 no_points))
      (set_at 1 (Callback.stops 0) (set_at 0 Callback.expires no_callbacks))
      two_timers
two_timers-Agrees =
    let (b, e, p, r) =
      start_both-Agrees list_queues list_queues_are 1 5 (Callback.stops 0) (set_at 0 7 no_points)
        (set_at 0 Callback.expires no_callbacks) one_timer one_timer-Agrees (λ k c. ground arith) in
    subst
      (λ b'.
        Agrees list_queues list_queues_are 2 (set_at 1 5 (set_at 0 7 no_points))
          (set_at 1 (Callback.stops 0) (set_at 0 Callback.expires no_callbacks)) b')
      (some_inj.0 (sym e ∙ two_started)) p

expire_both-Expires_example :
    (((j : ℕ) → is_running two_timers.timers0 j ≢ true)
      × (expire_both list_queues two_timers ≡ none))
    ⊎ ((b' : Both list_queues) × (expire_both list_queues two_timers ≡ some b')
        × Agrees list_queues list_queues_are 2
            (set_at 1 5 (set_at 0 7 no_points))
            (set_at 1 (Callback.stops 0) (set_at 0 Callback.expires no_callbacks))
            b'
        × Expires
            (set_at 1 5 (set_at 0 7 no_points))
            (set_at 1 (Callback.stops 0) (set_at 0 Callback.expires no_callbacks))
            (is_running two_timers.timers0)
            b'.timers0.last_time_point
            (is_running b'.timers0))
expire_both-Expires_example =
    expire_both-Expires list_queues list_queues_are 2 (set_at 1 5 (set_at 0 7 no_points))
      (set_at 1 (Callback.stops 0) (set_at 0 Callback.expires no_callbacks)) two_timers
      two_timers-Agrees

abbrev some_durations : ℕ → ℕ
some_durations index = 1000 * index + 500

abbrev sometimes : ℕ → ℕ → Bool
sometimes m n = n == 5

generate-IsOutcome_example :
    IsOutcome list_queues list_queues_are
      (generate list_queues some_durations sometimes 4 0 (2 ∷ 1 ∷ 3 ∷ 0 ∷ []) (1 ∷ 2 ∷ []))
generate-IsOutcome_example =
    generate-IsOutcome list_queues list_queues_are some_durations sometimes 4 0 (2 ∷ 1 ∷ 3 ∷ 0 ∷ [])
      (1 ∷ 2 ∷ [])

generate-IsPrinted_example :
    IsPrinted list_queues list_queues_are
      (length {A = ℕ} (2 ∷ 1 ∷ 3 ∷ 0 ∷ [])
        + extra_timers 0 (2 ∷ 1 ∷ 3 ∷ 0 ∷ [])
        + (length {A = ℕ} (1 ∷ 2 ∷ []) + extra_timers 4 (1 ∷ 2 ∷ [])))
      (generate list_queues some_durations sometimes 4 0 (2 ∷ 1 ∷ 3 ∷ 0 ∷ []) (1 ∷ 2 ∷ []))
generate-IsPrinted_example =
    generate-IsPrinted list_queues list_queues_are some_durations sometimes 4 0 (2 ∷ 1 ∷ 3 ∷ 0 ∷ [])
      (1 ∷ 2 ∷ [])

-- The number of timers that these rounds start.
abbrev timers_started : Run list_queues → ℕ
timers_started (Run.passed m nt b) = nt
timers_started other = 0

nine :
    timers_started
      (generate list_queues some_durations sometimes 4 0 (2 ∷ 1 ∷ 3 ∷ 0 ∷ []) (1 ∷ 2 ∷ []))
    ≡ 9
unfolding generate
nine = refl

-- In implementation 1 a timer that is stopped and started again has two entries in the queue, of which
-- none is canceled, and an assertion fails. In implementation 0 it does not.
abbrev bind {ℓ} : {A : Type ℓ} → Option A → (A → Option A) → Option A
bind none f = none
bind (some s) f = f s

restarted_1 :
    bind
      (bind
        (bind
          (start_1 list_queues 0 10 Callback.expires (no_timers_1 list_queues))
          (stop_1 list_queues 0))
        (start_1 list_queues 0 20 Callback.expires))
      (expire_next_1 list_queues 20)
    ≡ none
unfolding start_1 stop_1 expire_next_1
restarted_1 = refl

-- The numbers of expired and canceled timers: one that expires is counted as canceled, too.
abbrev counted : Option Timers0 → Option (ℕ × ℕ)
counted none = none
counted (some s) = some (s.expired_timers, s.canceled_timers)

expired_canceled : counted (bind (start 0 10 Callback.expires no_timers) expire_next) ≡ some (1, 1)
unfolding start expire_next
expired_canceled = refl

abbrev last_expired : Option Timers0 → Option ℕ
last_expired none = none
last_expired (some s) = some s.last_time_point

restarted :
    last_expired (
      bind
        (bind (bind (start 0 10 Callback.expires no_timers) (stop 0)) (start 0 20 Callback.expires))
        expire_next)
    ≡ some 20
unfolding start stop expire_next
restarted = refl
