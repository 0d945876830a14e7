-- ===== src/TscKmod/Start/Memory.antt =====
-- `kmalloc`, `kfree` and the loop over rows of src/kmod/tsc_kmod.c, on heaps whose live blocks are
-- the first ones.
use ai_statefultask_testsuit.Base.{
  ℕ, zero, suc, ◌+◌, ◌≤◌, ◌<◌, ◌≡◌, refl, ap, sym, ◌∙◌, Bool, true, false, not, ◌&&◌, ltb, leb,
  ◌==◌, none, some, List, [], ◌∷◌, ◌++◌, ◌-◌, length, arith, Bool-cases, inl, inr,
}
use ai_statefultask_testsuit.TscKmod.Start.{
  Heap, update, kmalloc, kfree, kfree_rows, alloc_rows, if_null, Message, allocated, refused,
}

-- `n` blocks from `b` on.
abbrev pub blocks : ℕ → ℕ → List ℕ
blocks b zero = []
blocks b (suc n) = b ∷ blocks (suc b) n

-- The live blocks are the first `n`, which were the only calls so far, and nothing went wrong.
abbrev pub Holds : ℕ → Heap → Type 0
Holds n h = (h.next ≡ n) × (h.faulty ≡ false) × ((x : ℕ) → h.live x ≡ ltb x n)

pub kfree_rows-live :
    (b n : ℕ) (h : Heap)
    → h.faulty ≡ false
    → ((x : ℕ) → b ≤ x → x < b + n → h.live x ≡ true)
    → ((kfree_rows (blocks b n) h).faulty ≡ false)
      × ((x : ℕ)
          → (kfree_rows (blocks b n) h).live x ≡ (h.live x && not (leb b x && ltb x (b + n))))
unfolding kfree_rows kfree
kfree_rows-live b zero h fine live = (fine, λ x. ground arith)
kfree_rows-live b (suc n) h fine live =
    let first : h.live b ≡ true = live b (omega arith) (omega arith) in
    let (fine', live') =
      kfree_rows-live (suc b) n (kfree b h) (ground arith) (λ x lo hi. ground (arith, live x)) in
    (fine', λ x. ground (arith, live' x))

-- A block more.
pub kmalloc-Holds :
    (succeeds : ℕ → Bool) (n : ℕ) (h : Heap)
    → Holds n h
    → succeeds n ≡ true
    → (h' : Heap) × (kmalloc succeeds h ≡ (some n, h')) × Holds (suc n) h'
unfolding kmalloc
kmalloc-Holds succeeds n h (next, fine, live) ok = (
  record h { next = n + 1; live = update h.live n true },
  rw (next, ok) refl,
  (omega arith, fine, λ x. ground (arith, live x)),
)

-- No block more.
pub kmalloc-fails :
    (succeeds : ℕ → Bool) (n : ℕ) (h : Heap)
    → Holds n h
    → succeeds n ≡ false
    → (h' : Heap) × (kmalloc succeeds h ≡ (none, h')) × (h'.live ≡ h.live) × (h'.faulty ≡ false)
unfolding kmalloc
kmalloc-fails succeeds n h (next, fine, live) bad =
    (record h { next = n + 1 }, rw (next, bad) refl, refl, fine)

length-blocks : (b n : ℕ) → length (blocks b n) ≡ n
length-blocks b zero = refl
length-blocks b (suc n) = ap suc (length-blocks (suc b) n)

blocks-snoc : (b n : ℕ) → blocks b n ++ ((b + n) ∷ []) ≡ blocks b (suc n)
blocks-snoc b zero = let e : b + 0 ≡ b = omega arith in rw e refl
blocks-snoc b (suc n) =
    let e : b + suc n ≡ suc b + n = omega arith in rw e (ap (λ bs. b ∷ bs) (blocks-snoc (suc b) n))

blocks-one_more : (m : ℕ) → blocks 1 m ++ (suc m ∷ []) ≡ blocks 1 (suc m)
blocks-one_more m = let e : 1 + m ≡ suc m = omega arith in rw (← e) (blocks-snoc 1 m)

module _ (succeeds : ℕ → Bool) where
  alloc_rows-some :
      (n b : ℕ) (times : List ℕ) (h h' : Heap)
      → kmalloc succeeds h ≡ (some b, h')
      → alloc_rows succeeds (suc n) times h ≡ alloc_rows succeeds n (times ++ (b ∷ [])) h'
  unfolding alloc_rows
  alloc_rows-some n b times h h' e =
      ap
        (if_null (λ h'. (refused (Message.no_row (length times)), kfree_rows times h'))
          (λ b h'. alloc_rows succeeds n (times ++ (b ∷ [])) h'))
        e

  alloc_rows-none :
      (n : ℕ) (times : List ℕ) (h h' : Heap)
      → kmalloc succeeds h ≡ (none, h')
      → alloc_rows succeeds (suc n) times h
        ≡ (refused (Message.no_row (length times)), kfree_rows times h')
  unfolding alloc_rows
  alloc_rows-none n times h h' e =
      ap
        (if_null (λ h'. (refused (Message.no_row (length times)), kfree_rows times h'))
          (λ b h'. alloc_rows succeeds n (times ++ (b ∷ [])) h'))
        e

  -- All rows are allocated, behind `m` of them.
  pub alloc_rows-Holds :
      (n m : ℕ) (h : Heap)
      → Holds (suc m) h
      → ((k : ℕ) → m < k → k ≤ m + n → succeeds k ≡ true)
      → (h' : Heap) × (alloc_rows succeeds n (blocks 1 m) h ≡ (allocated (blocks 1 (m + n)), h'))
        × Holds (suc (m + n)) h'
  unfolding alloc_rows
  alloc_rows-Holds zero m h holds ok = let e : m + 0 ≡ m = omega arith in rw e (h, refl, holds)
  alloc_rows-Holds (suc n) m h holds ok =
      let (h₁, went, holds₁) =
        kmalloc-Holds succeeds (suc m) h holds (ok (suc m) (omega arith) (omega arith)) in
      let (h₂, rest, holds₂) =
        alloc_rows-Holds n (suc m) h₁ holds₁ (λ k lo hi. ok k (omega arith) (omega arith)) in
      let e : m + suc n ≡ suc m + n = omega arith in
      let here =
        alloc_rows-some n (suc m) (blocks 1 m) h h₁ went
        ∙ ap (λ bs. alloc_rows succeeds n bs h₁) (blocks-one_more m) in
      rw e (h₂, here ∙ rest, holds₂)

  -- Call `k` fails, for a row behind the `m` that there are: these are freed.
  pub alloc_rows-fails :
      (n m k : ℕ) (h : Heap)
      → Holds (suc m) h
      → m < k
      → k ≤ m + n
      → succeeds k ≡ false
      → ((j : ℕ) → j < k → succeeds j ≡ true)
      → (h' : Heap) × (alloc_rows succeeds n (blocks 1 m) h
          ≡ (refused (Message.no_row (k - 1)), h'))
        × (h'.faulty ≡ false)
        × ((x : ℕ) → h'.live x ≡ (x == 0))
  alloc_rows-fails zero m k h holds lo hi bad ok = absurd (omega arith)
  alloc_rows-fails (suc n) m k h holds lo hi bad ok = elim (Bool-cases (suc m == k)) [
    | inl this ↦
        let at_k : k ≡ suc m = ground arith in
        let (h₁, went, same, fine) =
          kmalloc-fails succeeds (suc m) h holds (ap succeeds (sym at_k) ∙ bad) in
        let row : length (blocks 1 m) ≡ k - 1 = length-blocks 1 m ∙ omega arith in
        let live : (x : ℕ) → h₁.live x ≡ ltb x (suc m) =
          λ x. ap (λ (f : ℕ → Bool). f x) same ∙ holds.2 x in
        let (fine', live') = kfree_rows-live 1 m h₁ fine (λ x lo hi. ground (arith, live x)) in
        (
          kfree_rows (blocks 1 m) h₁,
          alloc_rows-none n (blocks 1 m) h h₁ went
              ∙ ap (λ j. (refused (Message.no_row j), kfree_rows (blocks 1 m) h₁)) row,
          fine',
          λ x. ground (arith, live' x, live x),
        )
    | inr later ↦
        let (h₁, went, holds₁) =
          kmalloc-Holds succeeds (suc m) h holds (ok (suc m) (ground arith)) in
        let (h₂, rest, fine, live) =
          alloc_rows-fails n (suc m) k h₁ holds₁ (ground arith) (omega arith) bad ok in
        let here =
          alloc_rows-some n (suc m) (blocks 1 m) h h₁ went
          ∙ ap (λ bs. alloc_rows succeeds n bs h₁) (blocks-one_more m) in
        (h₂, here ∙ rest, fine, live)
  ]
