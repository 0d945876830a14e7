-- ===== src/TscKmod/Start.antt =====
-- `hello_start` of src/kmod/tsc_kmod.c: what it allocates and frees, and the numbers that it
-- prints. The blocks of `kmalloc` are numbered by the calls of it, from 0 on. Which calls succeed,
-- and the readings of `Filltimes`, are parameters.
pub mod Memory
pub mod Leaks
pub mod Extremes
use ai_statefultask_testsuit.Base.{
  ℕ, zero, suc, ◌+◌, ◌/◌, Bool, true, false, not, ◌&&◌, ◌||◌, ltb, ◌==◌, if◌then◌else◌, Option,
  none, some, List, [], ◌∷◌, ◌++◌, length,
}
use ai_statefultask_testsuit.TscKmod.{Reading, filltimes, add64, sub64, var_calc, returned}

abbrev pub bound_of_loop : ℕ
bound_of_loop = 100

abbrev pub size_of_stat : ℕ
size_of_stat = 100000

pub record Heap : Type 0 where
  -- The number of the next call of `kmalloc`.
  pub next : ℕ
  pub live : ℕ → Bool
  -- Whether a block was freed that was not live.
  pub faulty : Bool

abbrev pub empty_heap : Heap
empty_heap = record { next = 0; live = λ b. false; faulty = false }

abbrev pub update : (ℕ → Bool) → ℕ → Bool → ℕ → Bool
update f b v x = if x == b then v else f x

unfoldable pub kmalloc : (ℕ → Bool) → Heap → Option ℕ × Heap
kmalloc succeeds h =
    if succeeds h.next
    then (some h.next, record h { next = h.next + 1; live = update h.live h.next true })
    else (none, record h { next = h.next + 1 })

unfoldable pub kfree : ℕ → Heap → Heap
kfree b h = record h { live = update h.live b false; faulty = h.faulty || not (h.live b) }

-- `for (…) kfree(times[k]);`
unfoldable pub kfree_rows : List ℕ → Heap → Heap
kfree_rows [] h = h
kfree_rows (b ∷ bs) h = kfree_rows bs (kfree b h)

-- The message about a call of `kmalloc` that failed.
pub data Message : Type 0 where
  no_times : Message
  no_row : ℕ → Message
  no_variances : Message
  no_min_values : Message

-- `if (!p)` behind a call of `kmalloc`.
abbrev pub if_null {ℓ κ} :
    {A : Type ℓ} {R : Type κ} → (Heap → R) → (A → Heap → R) → Option A × Heap → R
if_null fail go_on (none, h) = fail h
if_null fail go_on (some p, h) = go_on p h

-- What becomes of the loop over the rows: `refused` is the early return.
pub data Rows : Type 0 where
  allocated : List ℕ → Rows
  refused : Message → Rows

abbrev pub if_refused {ℓ} :
    {R : Type ℓ} → (Message → Heap → R) → (List ℕ → Heap → R) → Rows × Heap → R
if_refused fail go_on (refused m, h) = fail m h
if_refused fail go_on (allocated times, h) = go_on times h

-- The loop that allocates `n` more rows, behind those of `times`.
unfoldable pub alloc_rows : (ℕ → Bool) → ℕ → List ℕ → Heap → Rows × Heap
alloc_rows succeeds zero times h = (allocated times, h)
alloc_rows succeeds (suc n) times h =
    if_null (λ h'. (refused (Message.no_row (length times)), kfree_rows times h'))
      (λ b h'. alloc_rows succeeds n (times ++ (b ∷ [])) h') (kmalloc succeeds h)

-- The loop over one row: `min_time` and `max_time`.
unfoldable pub scan : List ℕ → ℕ → ℕ → ℕ × ℕ
scan [] min_time max_time = (min_time, max_time)
scan (t ∷ ts) min_time max_time =
    scan ts (if min_time == 0 || ltb t min_time then t else min_time)
      (if ltb max_time t then t else max_time)

pub record Totals : Type 0 where
  pub prev_min : ℕ
  pub spurious : ℕ
  pub max_dev_all : ℕ
  pub tot_var : ℕ
  pub variances : List ℕ
  pub min_values : List ℕ

abbrev pub no_totals : Totals
no_totals = record {
  prev_min = 0;
  spurious = 0;
  max_dev_all = 0;
  tot_var = 0;
  variances = [];
  min_values = [];
}

-- The body of the loop over the rows; `none` is a division by zero in `var_calc`.
unfoldable pub add_row : List ℕ → Totals → Option Totals
unfolding scan
add_row row t = elim (returned (var_calc row)) [
  | none ↦ none
  | some v ↦
      let (min_time, max_time) = scan row 0 0 in
      let max_dev = sub64 max_time min_time in
      some (record {
        prev_min = min_time;
        spurious =
            if not (t.prev_min == 0) && ltb min_time t.prev_min then t.spurious + 1 else t.spurious;
        max_dev_all = if ltb t.max_dev_all max_dev then max_dev else t.max_dev_all;
        tot_var = add64 t.tot_var v;
        variances = t.variances ++ (v ∷ []);
        min_values = t.min_values ++ (min_time ∷ []);
      })
]

unfoldable pub add_rows : List (List ℕ) → Totals → Option Totals
add_rows [] t = some t
add_rows (row ∷ rows) t = elim (add_row row t) [ none ↦ none | some t' ↦ add_rows rows t' ]

-- The numbers that the function prints at its end.
pub record Report : Type 0 where
  pub spurious : ℕ
  pub total_variance : ℕ
  pub max_deviation : ℕ
  pub variance_of_variances : ℕ
  pub variance_of_minimums : ℕ

unfoldable pub report : Totals → Option Report
report t = elim (returned (var_calc t.variances)) [
  | none ↦ none
  | some var_of_vars ↦ elim (returned (var_calc t.min_values)) [
    | none ↦ none
    | some var_of_mins ↦ some (record {
      spurious = t.spurious;
      total_variance = t.tot_var / bound_of_loop;
      max_deviation = t.max_dev_all;
      variance_of_variances = var_of_vars;
      variance_of_minimums = var_of_mins;
    })
  ]
]

unfoldable pub measure : (ℕ → ℕ → Reading) → Option Report
measure read = elim (add_rows (filltimes read size_of_stat 0 bound_of_loop) no_totals) [
  | none ↦ none
  | some t ↦ report t
]

-- What is left of the heap behind all allocations.
abbrev pub kfree_all : ℕ → List ℕ → ℕ → ℕ → Heap → Heap
kfree_all times rows variances min_values h =
    kfree min_values (kfree variances (kfree times (kfree_rows rows h)))

-- A message and `return 0`.
abbrev pub give_up : Message → Heap → Option Message × Heap
give_up m h = (some m, h)

-- The allocations from `min_values` on, and the frees at the end.
abbrev pub alloc_min_values : (ℕ → Bool) → ℕ → List ℕ → ℕ → Heap → Option Message × Heap
alloc_min_values succeeds times rows variances h =
    if_null (give_up Message.no_min_values)
      (λ min_values h'. (none, kfree_all times rows variances min_values h')) (kmalloc succeeds h)

abbrev pub alloc_variances : (ℕ → Bool) → ℕ → List ℕ → Heap → Option Message × Heap
alloc_variances succeeds times rows h =
    if_null (give_up Message.no_variances) (alloc_min_values succeeds times rows)
      (kmalloc succeeds h)

abbrev pub alloc_times : (ℕ → Bool) → ℕ → ℕ → Heap → Option Message × Heap
alloc_times succeeds n times h =
    if_refused give_up (alloc_variances succeeds times) (alloc_rows succeeds n [] h)

-- The allocations for `n` rows, and what is freed. `none` says that the
-- measurement runs.
unfoldable pub allocate : (ℕ → Bool) → ℕ → Heap → Option Message × Heap
allocate succeeds n h =
    if_null (give_up Message.no_times) (alloc_times succeeds n) (kmalloc succeeds h)

-- What is printed: the message about a call that failed, or the report, which is `none` where a
-- division traps. The line on loading the module, and those on the rows, are left out.
pub data Printed : Type 0 where
  gave_up : Message → Printed
  measured : Option Report → Printed

abbrev pub printed_of : (ℕ → ℕ → Reading) → Option Message → Printed
printed_of read none = measured (measure read)
printed_of read (some m) = gave_up m

-- The function returns 0 on every path.
unfoldable pub hello_start : (ℕ → Bool) → (ℕ → ℕ → Reading) → Printed × Heap
hello_start succeeds read =
    let (message, h) = allocate succeeds bound_of_loop empty_heap in (printed_of read message, h)
