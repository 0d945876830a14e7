-- ===== src/RewriteHeader/Process/Outcome.antt =====
-- What `process` of src/rewrite_header.cxx ends in, whatever the regular expressions match.
use mathlib.Core.List.{append_assoc}
use ai_statefultask_testsuit.Base.{
  ℕ, zero, suc, ◌<◌, ◌≤◌, ◌≡◌, refl, ap, sym, subst, ◌⊎◌, inl, inr, Bool, true, false, not, ◌&&◌,
  ◌||◌, some, List, [], ◌∷◌, ◌++◌, length-append, List-cases, length, arith, Bool-cases,
}
use ai_statefultask_testsuit.RewriteHeader.Text.{Text, is_empty, is_cpp_comment}
use ai_statefultask_testsuit.RewriteHeader.Years.{print_years, canonical_years}
use ai_statefultask_testsuit.RewriteHeader.Years.Sorted.{canonical_years-Increasing}
use ai_statefultask_testsuit.RewriteHeader.Header.{
  Patterns, Header, new_header, canonicalize, print_on, newline,
}
use ai_statefultask_testsuit.RewriteHeader.Process.{
  Run, done, undefined, out_of_fuel, ◌>>=◌, State, Scan, scan_line, scan_comment, skip_empty_lines,
  scan_block, scan_blocks, next_block, getlines_from, finish, process, lines_eq, last_line,
}

-- What is left of the lines.
abbrev pub IsRest : List Text → List Text → Type 0
IsRest lines rest = (gone : List Text) × (lines ≡ gone ++ rest)

skip-IsRest : (lines : List Text) → IsRest lines (skip_empty_lines lines)
unfolding skip_empty_lines
skip-IsRest [] = ([], refl)
skip-IsRest (line ∷ rest) = elim (Bool-cases (is_empty line)) [
  | inl blank ↦ let (gone, e) = skip-IsRest rest in rw blank (line ∷ gone, ap (λ ls. line ∷ ls) e)
  | inr ink ↦ rw ink ([], refl)
]

IsRest-trans : (a b c : List Text) → IsRest a b → IsRest b c → IsRest a c
IsRest-trans a b c (g, e) (h, f) = (g ++ h, rw (e, f) (sym (append_assoc g h c)))

-- The loop over a comment reads nothing, or some lines.
abbrev Reads : List Text → Scan → Run (Scan × List Text) → Type 0
Reads lines s undefined = Unit {0}
Reads lines s out_of_fuel = ⊥
Reads lines s (done (s', rest)) =
    ((s' ≡ s) × (rest ≡ lines)) ⊎ ((length rest < length lines) × IsRest lines rest)

cons-Reads :
    (line : Text) (rest : List Text) (s s' : Scan) (r : Run (Scan × List Text))
    → Reads rest s' r
    → Reads (line ∷ rest) s r
cons-Reads line rest s s' undefined h = tt
cons-Reads line rest s s' out_of_fuel h = h
cons-Reads line rest s s' (done (s₂, rest')) (inl (e, f)) =
    inr (rw f (omega arith), (line ∷ [], rw f))
cons-Reads line rest s s' (done (s₂, rest')) (inr (lt, (gone, e))) =
    inr (omega arith, (line ∷ gone, ap (λ ls. line ∷ ls) e))

module _ (patterns : Patterns) where
  scan_comment-Reads :
      (c : Bool) (lines : List Text) (s : Scan) → Reads lines s (scan_comment patterns c lines s)
  unfolding scan_comment
  scan_comment-Reads c [] s = tt
  scan_comment-Reads c (line ∷ rest) s =
      elim (Bool-cases (c || is_cpp_comment (patterns.trim_left line))) [
        | inl comment ↦ elim (Bool-cases (last_line c line)) [
          | inl last ↦ rw (comment, last) (inr (omega arith, (line ∷ [], refl)))
          | inr more ↦
              rw (comment, more)
                (cons-Reads line rest s _ _
                  (scan_comment-Reads c rest (scan_line patterns c line s)))
        ]
        | inr code ↦ rw code (inl (refl, refl))
      ]

-- A block with its empty lines in front: it reads a line if it sees a module line.
abbrev Block : List Text → Run (Scan × List Text) → Type 0
Block lines undefined = Unit {0}
Block lines out_of_fuel = ⊥
Block lines (done (s, rest)) =
    IsRest lines rest × (s.saw_module ≡ true → length rest < length lines)

Reads-Block :
    (lines mid : List Text) (s : Scan) (r : Run (Scan × List Text))
    → IsRest lines mid
    → s.saw_module ≡ false
    → Reads mid s r
    → Block lines r
Reads-Block lines mid s undefined i f h = tt
Reads-Block lines mid s out_of_fuel i f h = h
Reads-Block lines mid s (done (s', rest)) i f (inl (e, same)) =
    (rw same i, λ saw. absurd (ground arith))
Reads-Block lines mid s (done (s', rest)) i f (inr (lt, j)) =
    (IsRest-trans lines mid rest i j, λ saw. omega (arith, ap length i.1, length-append i.0 mid))

abbrev Blocks : List Text → Run (Header × List Text) → Type 0
Blocks lines undefined = Unit {0}
Blocks lines out_of_fuel = ⊥
Blocks lines (done (h, rest)) = IsRest lines rest

Blocks-trans :
    (lines rest : List Text) (r : Run (Header × List Text))
    → IsRest lines rest
    → Blocks rest r
    → Blocks lines r
Blocks-trans lines rest undefined i b = tt
Blocks-trans lines rest out_of_fuel i b = b
Blocks-trans lines rest (done (h, rest')) i b = IsRest-trans lines rest rest' i b

next_block-Blocks :
    (fuel : ℕ) (lines : List Text) (r : Run (Scan × List Text))
    (again : List Text → State → Header → Run (Header × List Text))
    → length lines ≤ fuel
    → Block lines r
    → ((rest : List Text) (state : State) (h : Header)
        → length rest < fuel
        → Blocks rest (again rest state h))
    → Blocks lines (r >>= next_block again)
next_block-Blocks fuel lines undefined again lt b ih = tt
next_block-Blocks fuel lines out_of_fuel again lt b ih = b
next_block-Blocks fuel lines (done (s, rest)) again lt (i, shorter) ih =
    elim (Bool-cases (not s.saw_file_or_brief_or_copyright && s.saw_module)) [
      | inl more ↦
          rw (more, next_block)
            (Blocks-trans lines rest _ i (ih rest s.state s.header (ground (arith, shorter))))
      | inr over ↦ rw (over, next_block) i
    ]

skip-head : (lines : List Text) → skip_empty_lines (skip_empty_lines lines) ≡ skip_empty_lines lines
unfolding skip_empty_lines
skip-head [] = refl
skip-head (line ∷ rest) = ground (arith, skip-head rest)

module _ (patterns : Patterns) where
  scan_block-Block :
      (lines : List Text) (state : State) (h : Header)
      → Block lines (scan_block patterns lines state h)
  unfolding scan_block
  scan_block-Block lines state h = elim (List-cases (skip_empty_lines lines)) [
    | inl none_left ↦ rw (none_left, scan_block) tt
    | inr (line, rest, e) ↦
        rw (e, scan_block)
          (Reads-Block lines (line ∷ rest) _ _ (rw e at (skip-IsRest lines)) refl
            (scan_comment-Reads patterns _ (line ∷ rest) _))
  ]

  scan_blocks-Blocks :
      (fuel : ℕ) (lines : List Text) (state : State) (h : Header)
      → length lines < fuel
      → Blocks lines (scan_blocks patterns fuel lines state h)
  unfolding scan_blocks
  scan_blocks-Blocks zero lines state h lt = elim lt [ ]
  scan_blocks-Blocks (suc fuel) lines state h lt =
      next_block-Blocks fuel lines (scan_block patterns lines state h) (scan_blocks patterns fuel)
        (omega arith) (scan_block-Block lines state h) (scan_blocks-Blocks fuel)

  -- The new lines that `process` gives for `lines`, with the flag: those of a canonical header,
  -- and an end of the old lines.
  abbrev pub Written : ℕ → List Text → Run (List Text × Bool) → Type 0
  Written now lines undefined = Unit {0}
  Written now lines out_of_fuel = ⊥
  Written now lines (done (lines', changed)) =
      (h : Header) × (printed : Text) × (rest : List Text) × (print_on (canonicalize patterns now h)
        ≡ some printed)
      × (lines' ≡ getlines_from [] (printed ++ newline) ++ rest)
      × IsRest lines rest
      × (skip_empty_lines rest ≡ rest)
      × (changed ≡ not (lines_eq lines lines'))

  print_on-canonicalize :
      (now : ℕ) (h : Header)
      → (printed : Text) × (print_on (canonicalize patterns now h) ≡ some printed)
  unfolding print_on canonicalize print_years
  print_on-canonicalize now h = elim (List-cases (canonical_years now h.copyright_years)) [
    | inl e ↦ absurd ((canonical_years-Increasing now h.copyright_years).1 e)
    | inr (y, ys, e) ↦ rw e (_, refl)
  ]

  pub finish-Written :
      (now : ℕ) (lines : List Text) (h : Header) (rest : List Text)
      → IsRest lines rest
      → (r : List Text × Bool) × (finish patterns now lines (h, rest) ≡ done r)
        × Written now lines (done r)
  finish-Written now lines h rest i =
      let (printed, e) = print_on-canonicalize now h in
      rw (e, finish)
        (
          _,
          refl,
          (
            h,
            printed,
            skip_empty_lines rest,
            e,
            refl,
            IsRest-trans lines rest _ i (skip-IsRest rest),
            skip-head rest,
            refl,
          ),
        )

  Blocks-Written :
      (now : ℕ) (lines : List Text) (r : Run (Header × List Text))
      → Blocks lines r
      → Written now lines (r >>= finish patterns now lines)
  Blocks-Written now lines undefined b = tt
  Blocks-Written now lines out_of_fuel b = b
  Blocks-Written now lines (done (h, rest)) b =
      let (r, e, w) = finish-Written now lines h rest b in subst (Written now lines) (sym e) w

  -- The fuel of `process` is enough: it ends in new lines, or in an access that is undefined.
  -- The new lines are those of a canonical header and, behind them, an end of the old lines as
  -- it was, which does not begin with an empty line. The flag says whether old and new differ.
  pub process-Written :
      (module_name module_desc : Text) (now : ℕ) (lines : List Text)
      → Written now lines (process patterns module_name module_desc now lines)
  unfolding process
  process-Written name desc now lines = Blocks-Written now lines _ (
      scan_blocks-Blocks (suc (length lines)) lines State.searching (new_header name desc)
        (omega arith))
