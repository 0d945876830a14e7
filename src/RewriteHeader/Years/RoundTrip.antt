-- ===== src/RewriteHeader/Years/RoundTrip.antt =====
-- The years that `print_on` writes are those that `decode_copyright_line` reads back.
use mathlib.Core.List.{append-nil, append_assoc}
use ai_statefultask_testsuit.Base.{
  ℕ, ◌+◌, ◌<◌, ◌≤◌, ◌≡◌, ◌≢◌, refl, ap, sym, ◌∙◌, ◌==◌, none, some, List, [], ◌∷◌, ◌++◌, arith,
  Bool-cases, inl, inr,
}
use ai_statefultask_testsuit.RewriteHeader.Years.Matched.{
  all_tokens, tokens-eq-all_tokens, AllMatched, AllYears, print_loop-AllMatched,
}
use ai_statefultask_testsuit.RewriteHeader.Years.{
  add_range, decode_years, Separator, Piece, Printer, print_year, print_loop, print_years, tokens,
  back,
}
use ai_statefultask_testsuit.RewriteHeader.Years.Sorted.{Above}
use ai_statefultask_testsuit.RewriteHeader.Years.Reading.{
  read, IsPlain, add_range-single, add_range-suc, run_end, read-first, read-run,
}

abbrev printer : Separator → ℕ → ℕ → Printer
printer s first last = record { separator = s; first_year = first; last_year = last }

module _ (final : ℕ) (s : Separator) (first last y : ℕ) where
  abbrev round : List Piece × Printer
  round = print_year final (printer s first last) y

  round-skip : y ≡ last + 1 → y ≢ final → round ≡ ([], printer s first y)
  unfolding print_year
  round-skip e f = ground arith

  round-start : first ≡ 0 → y ≢ last + 1 → y ≢ final → round ≡ ([], printer s y y)
  unfolding print_year
  round-start z e f = ground arith

  round-write :
      first ≢ 0
      → y ≢ last + 1
      → y ≢ final
      → round ≡ ((s, first) ∷ run_end first last ++ [], printer Separator.comma y y)
  unfolding print_year
  round-write z e f = ground arith

  round-last-run :
      first ≢ 0
      → y ≡ last + 1
      → y ≡ final
      → round ≡ ((s, first) ∷ run_end first y ++ [], printer Separator.comma y y)
  unfolding print_year
  round-last-run z e f = ground arith

  round-last :
      first ≢ 0
      → first ≤ last
      → last < y
      → y ≢ last + 1
      → y ≡ final
      → round ≡ (
        (s, first) ∷ run_end first last ++ ((Separator.comma, y) ∷ []),
        printer Separator.comma y y,
      )
  unfolding print_year
  round-last z h lt e f = ground arith

  round-only :
      first ≡ 0 → last ≡ 0 → y ≢ 1 → y ≡ final → round ≡ ((s, y) ∷ [], printer Separator.comma y y)
  unfolding print_year
  round-only z l e f = ground arith

print_loop-IsPlain :
    (final : ℕ) (s : Separator) (first last : ℕ) (ys : List ℕ)
    → s ≢ Separator.dash
    → IsPlain (print_loop final (printer s first last) ys)
unfolding print_loop print_year
print_loop-IsPlain final s first last [] h = tt
print_loop-IsPlain final Separator.dash first last (y ∷ ys) h = absurd (h refl)
print_loop-IsPlain final Separator.comma first last (y ∷ ys) h = ground (
  arith,
  print_loop-IsPlain final Separator.comma first y ys h,
  print_loop-IsPlain final Separator.comma y y ys h,
)
print_loop-IsPlain final Separator.copyright first last (y ∷ ys) h = ground (
  arith,
  print_loop-IsPlain final Separator.copyright first y ys h,
  print_loop-IsPlain final Separator.copyright y y ys h,
)

lt-back : (x y : ℕ) (ys : List ℕ) → Above x (y ∷ ys) → x < back y ys
lt-back x y [] h = h.0
lt-back x y (z ∷ zs) h = omega (arith, h.0, lt-back y z zs h.1)

print_loop-round :
    (final : ℕ) (p : Printer) (y : ℕ) (ys : List ℕ) {out : List Piece} {p' : Printer}
    → print_year final p y ≡ (out, p')
    → print_loop final p (y ∷ ys) ≡ out ++ print_loop final p' ys
unfolding print_loop
print_loop-round final p y ys e = rw e refl

print_loop-nil : (final : ℕ) (p : Printer) → print_loop final p [] ≡ []
unfolding print_loop
print_loop-nil final p = refl

comma≢dash : Separator.comma ≢ Separator.dash
comma≢dash e = cc

read-nil : read [] ≡ []
unfolding all_tokens decode_years
read-nil = refl

extend-run :
    (first last y : ℕ) (ys : List ℕ)
    → first ≤ last
    → y ≡ last + 1
    → add_range first y ++ ys ≡ add_range first last ++ (y ∷ ys)
extend-run first last y ys h n =
    rw (n, add_range-suc first last h) (append_assoc (add_range first last) _ ys)

-- The pieces written from a run `first` to `last` on give that run and the years to come.
read-print_loop :
    (final : ℕ) (s : Separator) (first last y : ℕ) (ys : List ℕ)
    → s ≢ Separator.dash
    → 0 < first
    → first ≤ last
    → Above last (y ∷ ys)
    → final ≡ back y ys
    → read (print_loop final (printer s first last) (y ∷ ys)) ≡ add_range first last ++ (y ∷ ys)
read-print_loop final s first last y [] plain pos h above e = elim (Bool-cases (y == last + 1)) [
  | inl next ↦
      let n : y ≡ last + 1 = ground arith in
      rw
        (print_loop-round final (printer s first last) y []
          (round-last-run final s first last y (ground arith) n (sym e)))
        (rw (print_loop-nil final (printer Separator.comma y y), append-nil (run_end first y))
          (read-run s first y [] (omega arith) tt ∙ (rw read-nil (extend-run first last y [] h n))))
  | inr gap ↦
      rw
        (print_loop-round final (printer s first last) y []
          (round-last final s first last y (ground arith) h above.0 (ground arith) (sym e)))
        (rw
          (
            print_loop-nil final (printer Separator.comma y y),
            append_assoc (run_end first last) ((Separator.comma, y) ∷ []) [],
          )
          (read-run s first last ((Separator.comma, y) ∷ []) h tt
            ∙ ap (λ xs. add_range first last ++ xs)
                (read-first Separator.comma y [] tt ∙ ap (λ xs. y ∷ xs) read-nil)))
]
read-print_loop final s first last y (z ∷ zs) plain pos h above e =
    elim (Bool-cases (y == last + 1)) [
      | inl next ↦
          let n : y ≡ last + 1 = ground arith in
          rw
            (print_loop-round final (printer s first last) y (z ∷ zs)
              (round-skip final s first last y n (ground (arith, lt-back y z zs above.1))))
            (read-print_loop final s first y z zs plain pos (omega arith) above.1 e
              ∙ (extend-run first last y (z ∷ zs) h n))
      | inr gap ↦
          rw
            (print_loop-round final (printer s first last) y (z ∷ zs) (
              round-write final s first last y (ground arith) (ground arith)
                (ground (arith, lt-back y z zs above.1))))
            (rw (append-nil (run_end first last)) (
              read-run s first last (print_loop final (printer Separator.comma y y) (z ∷ zs)) h
                (print_loop-IsPlain final Separator.comma y y (z ∷ zs) comma≢dash)
              ∙ ap (λ xs. add_range first last ++ xs)
                  (read-print_loop final Separator.comma y y z zs comma≢dash (omega arith)
                      (omega arith) above.1 e
                    ∙ ap (λ xs. xs ++ (z ∷ zs)) (add_range-single y))))
    ]

increasing-AllYears :
    (y : ℕ) (ys : List ℕ) → 1900 ≤ y → Above y ys → back y ys < 2100 → AllYears (y ∷ ys)
increasing-AllYears y [] h above top = (ground arith, tt)
increasing-AllYears y (z ∷ zs) h above top =
    let later = lt-back y z zs above in
    let rest = increasing-AllYears z zs (let a = above.0 in omega arith) above.1 top in
    (ground arith, rest)

-- For strictly increasing years from 1900 to 2099, the pieces that `print_on` writes, read back by the
-- loop of `decode_copyright_line`, are these years.
pub decode-print_years :
    (y : ℕ) (ys : List ℕ)
    → 1900 ≤ y
    → Above y ys
    → back y ys < 2100
    → (ps : List Piece) × (print_years (y ∷ ys) ≡ some ps)
      × (decode_years (tokens none ps) ≡ y ∷ ys)
unfolding print_years
decode-print_years y ys h above top =
    let ps = print_loop (back y ys) (printer Separator.copyright 0 0) (y ∷ ys) in
    let matched : AllMatched ps =
      print_loop-AllMatched (back y ys) (printer Separator.copyright 0 0) (y ∷ ys)
        (inl refl, omega arith) (increasing-AllYears y ys h above top) in
    (ps, refl, ap decode_years (tokens-eq-all_tokens none ps matched) ∙ whole ys above)
  where
    copyright≢dash : Separator.copyright ≢ Separator.dash
    copyright≢dash e = cc

    whole :
        (ys : List ℕ)
        → Above y ys
        → read (print_loop (back y ys) (printer Separator.copyright 0 0) (y ∷ ys)) ≡ y ∷ ys
    whole [] a =
        rw
          (
            print_loop-round y (printer Separator.copyright 0 0) y []
                (round-only y Separator.copyright 0 0 y refl refl (omega arith) refl),
            print_loop-nil y (printer Separator.comma y y),
          )
          (read-first Separator.copyright y [] tt ∙ ap (λ xs. y ∷ xs) read-nil)
    whole (z ∷ zs) a =
        rw
          (print_loop-round (back z zs) (printer Separator.copyright 0 0) y (z ∷ zs) (
            round-start (back z zs) Separator.copyright 0 0 y refl (omega arith)
              (omega (arith, lt-back y z zs a))))
          (read-print_loop (back z zs) Separator.copyright y y z zs copyright≢dash (omega arith)
              (omega arith) a refl
            ∙ ap (λ xs. xs ++ (z ∷ zs)) (add_range-single y))
