-- ===== src/HelloWorld/Refines.antt =====
-- The two tasks of src/helloworld.cxx on any base class that follows the diagram, in any
-- interleaving.
use mathlib.Core.Option.{map}
use ai_statefultask_testsuit.Base.{
  ℕ, suc, ◌+◌, ◌<◌, ◌≤◌, ◌≡◌, refl, sym, ap, subst, ◌∙◌, ◌⊎◌, inl, inr, Bool, true, false, not,
  ◌||◌, Option, none, some, arith, Bool-cases,
}
use ai_statefultask_testsuit.WaitSignal.{StatefulTask}
use ai_statefultask_testsuit.WaitSignal.Diagram.{
  Modes, on_entry, is_idle, some_of, diagram_task, FollowsDiagram,
}
use ai_statefultask_testsuit.HelloWorld.{
  HelloWorldState, BumperState, System, hello_world_gone, bumper_gone, start_of, hello_world_at,
  bumper_at, hello_world_step, bumper_step,
}
use ai_statefultask_testsuit.HelloWorld.Invariant.{
  IsSound, Keeps, start-IsSound, hello_world_step-Keeps, bumper_step-Keeps, count, hello_world_set,
  bumper_set, hello_world_found, bumper_found,
}
use ai_statefultask_testsuit.HelloWorld.Ends.{
  left, Falls, hello_world_step-Falls, bumper_step-Falls, stuck-destructed,
}

calm-one : (m : Modes) → some_of is_idle 3 m ≡ false → some_of is_idle 1 m ≡ false
calm-one m h = ground arith

implies : (a : Bool) {b : Bool} → (a ≡ true → b ≡ true) → (not a || b) ≡ true
implies true f = f refl
implies false f = refl

step_or_none : {A : Type 0} (o : Option A) → ((u : A) × (o ≡ some u)) ⊎ (o ≡ none)
step_or_none none = inr refl
step_or_none (some u) = inl (u, refl)

-- One of the tasks is not blocked.
pub CanStep : (T : StatefulTask) → System T.Task → Type 0
CanStep T s =
    ((u : System T.Task) × (hello_world_step T s ≡ some u))
    ⊎ ((u : System T.Task) × (bumper_step T s ≡ some u))

-- Runs of `n` steps, each of one of the tasks.
pub data Runs (T : StatefulTask) (s : System T.Task) : ℕ → System T.Task → Type 0 where
  here : Runs T s 0 s
  hello_world_next :
      {n : ℕ} {t u : System T.Task}
      → Runs T s n t
      → hello_world_step T t ≡ some u
      → Runs T s (suc n) u
  bumper_next :
      {n : ℕ} {t u : System T.Task} → Runs T s n t → bumper_step T t ≡ some u → Runs T s (suc n) u

module _ (T : StatefulTask) (F : FollowsDiagram T) where
  open T use {Task}
  open F use {view, waiting_view, wait_view, signal_view}

  abbrev image : System Task → System Modes
  image s = record {
    hello_world = s.hello_world;
    hello_world_base = view s.hello_world_base;
    hello_world_bumped = s.hello_world_bumped;
    bumper = s.bumper;
    bumper_base = view s.bumper_base;
    bumper_bumped = s.bumper_bumped;
    number_of_tasks = s.number_of_tasks;
    fault = s.fault;
  }

  hello_world_at-image :
      (pc : HelloWorldState) (s : System Task)
      → some_of is_idle 3 (view s.hello_world_base) ≡ false
      → hello_world_at diagram_task pc (image s) ≡ map image (hello_world_at T pc s)
  unfolding hello_world_at
  hello_world_at-image HelloWorldState.start s h = refl
  hello_world_at-image HelloWorldState.test_bumped s h = refl
  hello_world_at-image HelloWorldState.call_wait s h =
      rw (wait_view 1 s.hello_world_base (calm-one (view s.hello_world_base) h)) refl
  hello_world_at-image HelloWorldState.set_bumped s h = elim (Bool-cases (bumper_gone s.bumper)) [
    | inl gone ↦ rw gone refl
    | inr stays ↦ rw stays refl
  ]
  hello_world_at-image HelloWorldState.call_signal s h = elim (Bool-cases (bumper_gone s.bumper)) [
    | inl gone ↦ rw gone refl
    | inr stays ↦ rw (stays, signal_view 1 s.bumper_base) refl
  ]
  hello_world_at-image HelloWorldState.finishing s h = refl
  hello_world_at-image HelloWorldState.destructed s h = refl

  bumper_at-image :
      (pc : BumperState) (s : System Task)
      → some_of is_idle 3 (view s.bumper_base) ≡ false
      → bumper_at diagram_task pc (image s) ≡ map image (bumper_at T pc s)
  unfolding bumper_at
  bumper_at-image BumperState.set_bumped s h = elim (Bool-cases (hello_world_gone s.hello_world)) [
    | inl gone ↦ rw gone refl
    | inr stays ↦ rw stays refl
  ]
  bumper_at-image BumperState.call_signal s h = elim (Bool-cases (hello_world_gone s.hello_world)) [
    | inl gone ↦ rw gone refl
    | inr stays ↦ rw (stays, signal_view 1 s.hello_world_base) refl
  ]
  bumper_at-image BumperState.test_bumped s h = refl
  bumper_at-image BumperState.call_wait s h =
      rw (wait_view 1 s.bumper_base (calm-one (view s.bumper_base) h)) refl
  bumper_at-image BumperState.finishing s h = refl
  bumper_at-image BumperState.destructed s h = refl

  -- A step of a task is the step of the diagram.
  hello_world_step-image :
      (s : System Task) → hello_world_step diagram_task (image s) ≡ map image (hello_world_step T s)
  unfolding hello_world_step
  hello_world_step-image s =
      elim (Bool-cases (s.fault || some_of is_idle 3 (view s.hello_world_base))) [
        | inl stopped ↦ rw (waiting_view s.hello_world_base, stopped) refl
        | inr runs ↦
            rw (waiting_view s.hello_world_base, runs)
              (hello_world_at-image s.hello_world s (ground arith))
      ]

  bumper_step-image :
      (s : System Task) → bumper_step diagram_task (image s) ≡ map image (bumper_step T s)
  unfolding bumper_step
  bumper_step-image s = elim (Bool-cases (s.fault || some_of is_idle 3 (view s.bumper_base))) [
    | inl stopped ↦ rw (waiting_view s.bumper_base, stopped) refl
    | inr runs ↦ rw (waiting_view s.bumper_base, runs) (bumper_at-image s.bumper s (ground arith))
  ]

  -- What is known behind `n` steps.
  abbrev After : ℕ → System Task → Type 0
  After n s = (n + left (image s) ≤ 24) × ((s.fault ≡ true) ⊎ IsSound (image s))

  no_step_of_fault : (s : System Task) → s.fault ≡ true → hello_world_step T s ≡ none
  unfolding hello_world_step
  no_step_of_fault s h = rw h refl

  no_bumper_step_of_fault : (s : System Task) → s.fault ≡ true → bumper_step T s ≡ none
  unfolding bumper_step
  no_bumper_step_of_fault s h = rw h refl

  next-After :
      (n : ℕ) (s t : System Task) (o : Option (System Modes))
      → After n s
      → o ≡ some (image t)
      → Keeps o
      → Falls (image s) o
      → After (suc n) t
  next-After n s t none (bound, kept) e k f = cc
  next-After n s t (some m) (bound, kept) e k f =
      let e' : m ≡ image t = cc in
      (
        omega (arith, subst (λ m. left m < left (image s)) e' f),
        elim k [
          | inl fault ↦ inl (sym (ap (λ (m : System Modes). m.fault) e') ∙ fault)
          | inr sound ↦ inr (subst IsSound e' sound)
        ],
      )

  module _ (b₁ b₂ : Task) (fresh₁ : view b₁ ≡ on_entry) (fresh₂ : view b₂ ≡ on_entry) where
    Runs-After : {n : ℕ} {s : System Task} → Runs T (start_of b₁ b₂) n s → After n s
    Runs-After here =
        let e : image (start_of b₁ b₂) ≡ start_of on_entry on_entry = rw (fresh₁, fresh₂) refl in
        (
          subst (λ m. 0 + left m ≤ 24) (sym e) (omega arith),
          inr (subst IsSound (sym e) start-IsSound),
        )
    Runs-After (hello_world_next {n} {t} {u} r e) =
        let (bound, kept) = Runs-After r in
        elim kept [
          | inl fault ↦ absurd (ground (arith, no_step_of_fault t fault))
          | inr sound ↦
              next-After n t u (hello_world_step diagram_task (image t)) (bound, inr sound)
                (hello_world_step-image t ∙ ap (map image) e)
                (hello_world_step-Keeps (image t) sound) (hello_world_step-Falls (image t) sound)
        ]
    Runs-After (bumper_next {n} {t} {u} r e) =
        let (bound, kept) = Runs-After r in
        elim kept [
          | inl fault ↦ absurd (ground (arith, no_bumper_step_of_fault t fault))
          | inr sound ↦
              next-After n t u (bumper_step diagram_task (image t)) (bound, inr sound)
                (bumper_step-image t ∙ ap (map image) e) (bumper_step-Keeps (image t) sound)
                (bumper_step-Falls (image t) sound)
        ]

    -- Two tasks that are created on a base class that follows the diagram take at most 24 steps, in
    -- whatever order the threads take them. In every state on the way one of them can take a step,
    -- or one was used behind its destructor, or both are destructed and `number_of_tasks` is 0: none
    -- waits for a signal that is lost.
    pub tasks-end :
        {n : ℕ} {s : System Task}
        → Runs T (start_of b₁ b₂) n s
        → (n ≤ 24)
          × (CanStep T s
              ⊎ ((s.fault ≡ true)
                  ⊎ ((s.hello_world ≡ HelloWorldState.destructed)
                      × (s.bumper ≡ BumperState.destructed)
                      × (s.number_of_tasks ≡ 0))))
    unfolding CanStep
    tasks-end {s} r =
        let (bound, kept) = Runs-After r in
        (
          omega arith,
          elim kept [
            | inl fault ↦ inr (inl fault)
            | inr sound ↦ elim (step_or_none (hello_world_step T s)) [
              | inl goes ↦ inl (inl goes)
              | inr e ↦ elim (step_or_none (bumper_step T s)) [
                | inl goes ↦ inl (inr goes)
                | inr f ↦ inr (
                    inr (
                      stuck-destructed (image s) sound (hello_world_step-image s ∙ ap (map image) e)
                        (bumper_step-image s ∙ ap (map image) f)))
              ]
            ]
          ],
        )

    -- In every state that is reached with no use behind a destructor, `number_of_tasks` counts the
    -- tasks that are not destructed; `HelloWorld` is past its test only if `Bumper` has bumped it,
    -- and `Bumper` only if `HelloWorld` has bumped it in turn.
    pub reached-ordered :
        {n : ℕ} {s : System Task}
        → Runs T (start_of b₁ b₂) n s
        → s.fault ≡ false
        → (s.number_of_tasks
            ≡ count (hello_world_gone s.hello_world) + count (bumper_gone s.bumper))
          × ((not (hello_world_found s.hello_world) || bumper_set s.bumper) ≡ true)
          × ((not (bumper_found s.bumper) || hello_world_set s.hello_world) ≡ true)
    reached-ordered {s} r fine = elim ((Runs-After r).1) [
      | inl fault ↦ absurd (ground arith)
      | inr sound ↦ (
        sound.counted,
        implies (hello_world_found s.hello_world)
            (λ found. sym sound.hello_world_flag ∙ sound.hello_world_bump found),
        implies (bumper_found s.bumper) (λ found. sym sound.bumper_flag ∙ sound.bumper_bump found),
      )
    ]
