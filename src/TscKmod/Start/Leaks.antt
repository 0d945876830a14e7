-- ===== src/TscKmod/Start/Leaks.antt =====
-- What `hello_start` of src/kmod/tsc_kmod.c leaves allocated.
use ai_statefultask_testsuit.Base.{
  ℕ, zero, suc, ◌+◌, ◌≤◌, ◌<◌, ◌≡◌, refl, ap, subst, ◌∙◌, Bool, true, false, not, ◌&&◌, ltb, leb,
  ◌==◌, if◌then◌else◌, ◌-◌, Option, some, none, arith, Bool-cases, inl, inr,
}
use ai_statefultask_testsuit.TscKmod.{Reading}
use ai_statefultask_testsuit.TscKmod.Start.{
  Heap, empty_heap, kfree, kfree_rows, allocate, hello_start, printed_of, gave_up, Message,
  if_refused, kfree_all, if_null, give_up, alloc_times, alloc_variances, alloc_min_values,
  bound_of_loop,
}
use ai_statefultask_testsuit.TscKmod.Start.Memory.{
  blocks, Holds, kfree_rows-live, kmalloc-Holds, kmalloc-fails, alloc_rows-Holds, alloc_rows-fails,
}

empty_heap-Holds : Holds 0 empty_heap
empty_heap-Holds = (refl, refl, λ x. ground arith)

module _ (succeeds : ℕ → Bool) (n : ℕ) where
  -- The heap once `times` and all rows are allocated.
  rows-Holds :
      ((j : ℕ) → j ≤ n → succeeds j ≡ true)
      → (h : Heap) × (allocate succeeds n empty_heap ≡ alloc_variances succeeds 0 (blocks 1 n) h)
        × Holds (suc n) h
  unfolding allocate
  rows-Holds ok =
      let (h₁, e₁, holds₁) =
        kmalloc-Holds succeeds 0 empty_heap empty_heap-Holds (ok 0 (omega arith)) in
      let (h₂, e₂, holds₂) =
        alloc_rows-Holds succeeds n 0 h₁ holds₁ (λ k lo hi. ok k (omega arith)) in
      let e : 0 + n ≡ n = omega arith in
      (
        h₂,
        ap (if_null (give_up Message.no_times) (alloc_times succeeds n)) e₁
            ∙ ap (if_refused give_up (alloc_variances succeeds 0)) (rw e at e₂),
        rw e at holds₂,
      )

  -- What `kfree_all` leaves.
  kfree_all-live :
      (h : Heap)
      → Holds (suc (suc (suc n))) h
      → let h' = kfree_all 0 (blocks 1 n) (suc n) (suc (suc n)) h in
        (h'.faulty ≡ false) × ((x : ℕ) → h'.live x ≡ false)
  unfolding kfree
  kfree_all-live h (next, fine, live) =
      let (fine', live') = kfree_rows-live 1 n h fine (λ x lo hi. ground (arith, live x)) in
      let holds : (x : ℕ)
          → (kfree_rows (blocks 1 n) h).live x
            ≡ (ltb x (suc (suc (suc n))) && not (leb 1 x && ltb x (1 + n))) =
        λ x. ground (arith, live' x, live x) in
      (ground (arith, holds 0, holds (suc n), holds (suc (suc n))), λ x. ground (arith, holds x))

-- What is printed where call `k` of `kmalloc` fails.
abbrev pub message_of : ℕ → ℕ → Message
message_of n k =
    if k == 0
    then Message.no_times
    else if leb k n
    then Message.no_row (k - 1)
    else if k == n + 1
    then Message.no_variances
    else Message.no_min_values

-- What stays allocated where call `k` of `kmalloc` fails: nothing, if it is the first; only
-- `times`, if it is one for a row; and all blocks, if it is one of the last two.
abbrev pub leaked : ℕ → ℕ → ℕ → Bool
leaked n k x = if leb k n then ltb 0 k && x == 0 else ltb x k

module _ (succeeds : ℕ → Bool) (n : ℕ) where
  -- All `n + 3` calls succeed.
  allocate-all :
      ((j : ℕ) → j < n + 3 → succeeds j ≡ true)
      → (h : Heap) × (allocate succeeds n empty_heap ≡ (none, h))
        × (h.faulty ≡ false)
        × ((x : ℕ) → h.live x ≡ false)
  allocate-all ok =
      let (h, e, holds) = rows-Holds succeeds n (λ j le. ok j (omega arith)) in
      let (h₁, e₁, holds₁) = kmalloc-Holds succeeds (suc n) h holds (ok (suc n) (omega arith)) in
      let (h₂, e₂, holds₂) =
        kmalloc-Holds succeeds (suc (suc n)) h₁ holds₁ (ok (suc (suc n)) (omega arith)) in
      let (fine, dead) = kfree_all-live succeeds n h₂ holds₂ in
      (
        kfree_all 0 (blocks 1 n) (suc n) (suc (suc n)) h₂,
        e
            ∙ (ap
                  (if_null (give_up Message.no_variances)
                    (alloc_min_values succeeds 0 (blocks 1 n)))
                  e₁
                ∙ ap
                    (if_null (give_up Message.no_min_values)
                      (λ m h'. (none, kfree_all 0 (blocks 1 n) (suc n) m h')))
                    e₂),
        fine,
        dead,
      )

  abbrev Leaks : ℕ → Type 0
  Leaks k =
      (h : Heap) × (allocate succeeds n empty_heap ≡ (some (message_of n k), h))
      × (h.faulty ≡ false)
      × ((x : ℕ) → h.live x ≡ leaked n k x)

  first_fails : succeeds 0 ≡ false → Leaks 0
  unfolding allocate
  first_fails bad =
      let (h, e, same, fine) = kmalloc-fails succeeds 0 empty_heap empty_heap-Holds bad in
      (
        h,
        ap (if_null (give_up Message.no_times) (alloc_times succeeds n)) e,
        fine,
        λ x. ap (λ (f : ℕ → Bool). f x) same ∙ ground arith,
      )

  row_fails :
      (k : ℕ) → 0 < k → k ≤ n → succeeds k ≡ false → ((j : ℕ) → j < k → succeeds j ≡ true) → Leaks k
  unfolding allocate
  row_fails k pos le bad ok =
      let (h₁, e₁, holds₁) =
        kmalloc-Holds succeeds 0 empty_heap empty_heap-Holds (ok 0 (omega arith)) in
      let (h₂, e₂, fine, live) =
        alloc_rows-fails succeeds n 0 k h₁ holds₁ pos (omega arith) bad ok in
      let message : Message.no_row (k - 1) ≡ message_of n k =
        let later : (k == 0) ≡ false = ground arith in
        let row : leb k n ≡ true = ground arith in rw (later, row) refl in
      (
        h₂,
        ap (if_null (give_up Message.no_times) (alloc_times succeeds n)) e₁
            ∙ (ap (if_refused give_up (alloc_variances succeeds 0)) e₂
                ∙ ap (λ m. (some m, h₂)) message),
        fine,
        λ x. ground (arith, live x),
      )

  variances_fails :
      succeeds (suc n) ≡ false → ((j : ℕ) → j < suc n → succeeds j ≡ true) → Leaks (suc n)
  variances_fails bad ok =
      let (h, e, holds) = rows-Holds succeeds n (λ j le. ok j (omega arith)) in
      let (h₁, e₁, same, fine) = kmalloc-fails succeeds (suc n) h holds bad in
      let message : Message.no_variances ≡ message_of n (suc n) =
        let later : (suc n == 0) ≡ false = ground arith in
        let behind : leb (suc n) n ≡ false = ground arith in
        let this : (suc n == n + 1) ≡ true = ground arith in rw (later, behind, this) refl in
      (
        h₁,
        e
            ∙ (ap
                  (if_null (give_up Message.no_variances)
                    (alloc_min_values succeeds 0 (blocks 1 n)))
                  e₁
                ∙ ap (λ m. (some m, h₁)) message),
        fine,
        λ x. ap (λ (f : ℕ → Bool). f x) same ∙ ground (arith, holds.2 x),
      )

  min_values_fails :
      succeeds (suc (suc n)) ≡ false
      → ((j : ℕ) → j < suc (suc n) → succeeds j ≡ true)
      → Leaks (suc (suc n))
  min_values_fails bad ok =
      let (h, e, holds) = rows-Holds succeeds n (λ j le. ok j (omega arith)) in
      let (h₁, e₁, holds₁) = kmalloc-Holds succeeds (suc n) h holds (ok (suc n) (omega arith)) in
      let (h₂, e₂, same, fine) = kmalloc-fails succeeds (suc (suc n)) h₁ holds₁ bad in
      let message : Message.no_min_values ≡ message_of n (suc (suc n)) =
        let later : (suc (suc n) == 0) ≡ false = ground arith in
        let behind : leb (suc (suc n)) n ≡ false = ground arith in
        let last : (suc (suc n) == n + 1) ≡ false = ground arith in rw (later, behind, last) refl in
      (
        h₂,
        e
            ∙ (ap
                  (if_null (give_up Message.no_variances)
                    (alloc_min_values succeeds 0 (blocks 1 n)))
                  e₁
                ∙ (ap
                      (if_null (give_up Message.no_min_values)
                        (λ m h'. (none, kfree_all 0 (blocks 1 n) (suc n) m h')))
                      e₂
                    ∙ ap (λ m. (some m, h₂)) message)),
        fine,
        λ x. ap (λ (f : ℕ → Bool). f x) same ∙ ground (arith, holds₁.2 x),
      )

  allocate-Leaks :
      (k : ℕ) → k < n + 3 → succeeds k ≡ false → ((j : ℕ) → j < k → succeeds j ≡ true) → Leaks k
  allocate-Leaks zero lt bad ok = first_fails bad
  allocate-Leaks (suc k) lt bad ok = elim (Bool-cases (leb (suc k) n)) [
    | inl le ↦ row_fails (suc k) (omega arith) (ground arith) bad ok
    | inr gt ↦ elim (Bool-cases (k == n)) [
      | inl e ↦
          let e' : suc n ≡ suc k = ground arith in
          subst Leaks e' (variances_fails (ap succeeds e' ∙ bad) (λ j l. ok j (omega arith)))
      | inr ne ↦
          let e' : suc (suc n) ≡ suc k = ground arith in
          subst Leaks e' (min_values_fails (ap succeeds e' ∙ bad) (λ j l. ok j (omega arith)))
    ]
  ]

-- `hello_start` frees every block that it allocates exactly once, if no call of `kmalloc` fails. If
-- one does, the first of number `k`, it measures nothing, but prints what that call was for, with the
-- number of the row, and still frees no block twice; but then it leaves `times` allocated if that was
-- a call for a row, and all `k` blocks that it has if that was the call for `variances` or
-- `min_values`.
pub hello_start-heap :
    (succeeds : ℕ → Bool) (read : ℕ → ℕ → Reading)
    → let (printed, h) = hello_start succeeds read in
      (((j : ℕ) → j < 103 → succeeds j ≡ true) → (h.faulty ≡ false) × ((x : ℕ) → h.live x ≡ false))
      × ((k : ℕ)
          → k < 103
          → succeeds k ≡ false
          → ((j : ℕ) → j < k → succeeds j ≡ true)
          → (printed ≡ gave_up (message_of bound_of_loop k))
            × (h.faulty ≡ false)
            × ((x : ℕ) → h.live x ≡ leaked bound_of_loop k x))
unfolding hello_start
hello_start-heap succeeds read = (
  λ ok.
      let (h, e, fine, dead) = allocate-all succeeds bound_of_loop ok in
      (
        ap (λ (r : Option Message × Heap). r.1.faulty) e ∙ fine,
        λ x. ap (λ (r : Option Message × Heap). r.1.live x) e ∙ dead x,
      ),
  λ k lt bad ok.
      let (h, e, fine, live) = allocate-Leaks succeeds bound_of_loop k lt bad ok in
      (
        ap (λ (r : Option Message × Heap). printed_of read r.0) e,
        ap (λ (r : Option Message × Heap). r.1.faulty) e ∙ fine,
        λ x. ap (λ (r : Option Message × Heap). r.1.live x) e ∙ live x,
      ),
)
