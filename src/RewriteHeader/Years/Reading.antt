-- ===== src/RewriteHeader/Years/Reading.antt =====
-- What `decode_copyright_line` of src/rewrite_header.cxx reads in the pieces of one run of years.
use ai_statefultask_testsuit.Base.{
  ℕ, zero, suc, ◌+◌, ◌-◌, ◌≤◌, ◌≡◌, refl, ap, ◌∙◌, ltb, if◌then◌else◌, none, some, List, [], ◌∷◌,
  ◌++◌, arith, Bool-cases, inl, inr,
}
use ai_statefultask_testsuit.RewriteHeader.Years.Matched.{all_tokens}
use ai_statefultask_testsuit.RewriteHeader.Years.{
  count_from, add_range, decode_years, Separator, Piece,
}

-- The years read back from pieces.
abbrev pub read : List Piece → List ℕ
read ps = decode_years (all_tokens none ps)

-- Not a dash in front.
abbrev pub IsPlain : List Piece → Type 0
IsPlain [] = Unit {0}
IsPlain ((Separator.dash, y) ∷ ps) = ⊥
IsPlain ((_, y) ∷ ps) = Unit {0}

count_from-snoc : (year n : ℕ) → count_from year (suc n) ≡ count_from year n ++ ((year + n) ∷ [])
unfolding count_from
count_from-snoc year zero = ground arith
count_from-snoc year (suc n) = ground (arith, count_from-snoc (suc year) n)

pub add_range-single : (a : ℕ) → add_range a a ≡ a ∷ []
unfolding add_range
add_range-single a = let e : a + 1 - a ≡ 1 = omega arith in rw e refl

pub add_range-suc : (a b : ℕ) → a ≤ b → add_range a (b + 1) ≡ add_range a b ++ ((b + 1) ∷ [])
unfolding add_range
add_range-suc a b h =
    let e : b + 1 + 1 - a ≡ suc (b + 1 - a) = omega arith in
    let f : a + (b + 1 - a) ≡ b + 1 = omega arith in rw (e, count_from-snoc a (b + 1 - a), f) refl

decode-pending :
    (a : ℕ) (ps : List Piece) → IsPlain ps → decode_years (all_tokens (some a) ps) ≡ a ∷ read ps
unfolding decode_years all_tokens
decode-pending a [] h = rw (add_range-single a) refl
decode-pending a ((Separator.dash, y) ∷ ps) h = elim h [ ]
decode-pending a ((Separator.comma, y) ∷ ps) h = rw (add_range-single a) refl
decode-pending a ((Separator.copyright, y) ∷ ps) h = rw (add_range-single a) refl

-- The pieces behind the first year of a run.
abbrev pub run_end : ℕ → ℕ → List Piece
run_end first last =
    if ltb first last
    then ((if ltb (first + 1) last then Separator.dash else Separator.comma), last) ∷ []
    else []

pub read-first :
    (s : Separator) (a : ℕ) (ps : List Piece) → IsPlain ps → read ((s, a) ∷ ps) ≡ a ∷ read ps
unfolding all_tokens
read-first s a ps h = decode-pending a ps h

read-dash :
    (s : Separator) (a b : ℕ) (ps : List Piece)
    → read ((s, a) ∷ (Separator.dash, b) ∷ ps) ≡ add_range a b ++ read ps
unfolding all_tokens decode_years
read-dash s a b ps = refl

add_range-two : (a : ℕ) → add_range a (a + 1) ≡ a ∷ (a + 1) ∷ []
add_range-two a =
    add_range-suc a a (omega arith) ∙ ap (λ xs. xs ++ ((a + 1) ∷ [])) (add_range-single a)

pub read-run :
    (s : Separator) (first last : ℕ) (ps : List Piece)
    → first ≤ last
    → IsPlain ps
    → read ((s, first) ∷ (run_end first last ++ ps)) ≡ add_range first last ++ read ps
read-run s first last ps h plain = elim (Bool-cases (ltb first last)) [
  | inl more ↦ elim (Bool-cases (ltb (first + 1) last)) [
    | inl long ↦ rw (more, long) (read-dash s first last ps)
    | inr two ↦
        let e : last ≡ first + 1 = ground arith in
        rw
          (
            more,
            two,
            e,
            read-first s first ((Separator.comma, first + 1) ∷ ps) tt,
            read-first Separator.comma (first + 1) ps plain,
            add_range-two first,
          )
          refl
  ]
  | inr one ↦
      let e : last ≡ first = ground arith in
      rw (one, e, read-first s first ps plain, add_range-single first) refl
]
