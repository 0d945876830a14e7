-- ===== src/RewriteHeader/Years/Matched.antt =====
-- The years that `copyright_regexp` of src/rewrite_header.cxx matches.
use ai_statefultask_testsuit.Base.{
  ℕ, ◌<◌, ◌≡◌, ◌⊎◌, refl, ap, true, Option, none, some, List, [], ◌∷◌, ◌++◌, arith, All,
}
use ai_statefultask_testsuit.RewriteHeader.Years.{
  Separator, Piece, Token, Printer, is_matched, tokens, print_year, print_loop,
}

-- The tokens in pieces of which every year is matched.
unfoldable pub all_tokens : Option ℕ → List Piece → List Token
all_tokens none [] = []
all_tokens (some begin) [] = (begin, none) ∷ []
all_tokens none ((s, y) ∷ ps) = all_tokens (some y) ps
all_tokens (some begin) ((Separator.dash, y) ∷ ps) = (begin, some y) ∷ all_tokens none ps
all_tokens (some begin) ((Separator.comma, y) ∷ ps) = (begin, none) ∷ all_tokens (some y) ps
all_tokens (some begin) ((Separator.copyright, y) ∷ ps) = (begin, none) ∷ all_tokens (some y) ps

abbrev pub AllMatched : List Piece → Type 0
AllMatched = All (λ (p : Piece). is_matched p.1 ≡ true)

pub tokens-eq-all_tokens :
    (begin : Option ℕ) (ps : List Piece) → AllMatched ps → tokens begin ps ≡ all_tokens begin ps
unfolding tokens all_tokens
tokens-eq-all_tokens none [] h = refl
tokens-eq-all_tokens (some begin) [] h = refl
tokens-eq-all_tokens none ((s, y) ∷ ps) (h, hs) = rw h (tokens-eq-all_tokens (some y) ps hs)
tokens-eq-all_tokens (some begin) ((Separator.dash, y) ∷ ps) (h, hs) =
    rw h (ap (λ ts. (begin, some y) ∷ ts) (tokens-eq-all_tokens none ps hs))
tokens-eq-all_tokens (some begin) ((Separator.comma, y) ∷ ps) (h, hs) =
    rw h (ap (λ ts. (begin, none) ∷ ts) (tokens-eq-all_tokens (some y) ps hs))
tokens-eq-all_tokens (some begin) ((Separator.copyright, y) ∷ ps) (h, hs) =
    rw h (ap (λ ts. (begin, none) ∷ ts) (tokens-eq-all_tokens (some y) ps hs))

-- The years in the variables of the loop are matched, or not set.
abbrev IsWithin : Printer → Type 0
IsWithin p = ((p.first_year ≡ 0) ⊎ (is_matched p.first_year ≡ true)) × (p.last_year < 2100)

append-AllMatched : (ps qs : List Piece) → AllMatched ps → AllMatched qs → AllMatched (ps ++ qs)
append-AllMatched [] qs h k = k
append-AllMatched (p ∷ ps) qs (h, hs) k = (h, append-AllMatched ps qs hs k)

print_year-AllMatched :
    (final : ℕ) (p : Printer) (y : ℕ)
    → IsWithin p
    → is_matched y ≡ true
    → AllMatched (print_year final p y).0 × IsWithin (print_year final p y).1
unfolding print_year
print_year-AllMatched final p y h m = ground arith

abbrev pub AllYears : List ℕ → Type 0
AllYears = All (λ y. is_matched y ≡ true)

pub print_loop-AllMatched :
    (final : ℕ) (p : Printer) (ys : List ℕ)
    → IsWithin p
    → AllYears ys
    → AllMatched (print_loop final p ys)
unfolding print_loop
print_loop-AllMatched final p [] h m = tt
print_loop-AllMatched final p (y ∷ ys) h (m, ms) =
    let (here, next) = print_year-AllMatched final p y h m in
    append-AllMatched (print_year final p y).0 (print_loop final (print_year final p y).1 ys) here
      (print_loop-AllMatched final (print_year final p y).1 ys next ms)
