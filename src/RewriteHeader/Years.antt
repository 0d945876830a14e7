-- ===== src/RewriteHeader/Years.antt =====
-- The years of the copyright line in src/rewrite_header.cxx: how `decode_copyright_line` reads
-- them, `canonicalize` orders them, and `print_on` writes them. What the regular expression
-- `year_regexp` finds is a list of tokens, a year and perhaps the year behind a dash.
pub mod Sorted
pub mod Matched
pub mod Reading
pub mod RoundTrip
use ai_statefultask_testsuit.Base.{
  ℕ, zero, suc, ◌+◌, ◌-◌, Bool, true, false, not, ◌&&◌, ◌||◌, ltb, leb, ◌==◌, if◌then◌else◌, Option,
  none, some, List, [], ◌∷◌, ◌++◌,
}

abbrev pub Token : Type 0
Token = ℕ × Option ℕ

-- `n` years from `year` on.
unfoldable pub count_from : ℕ → ℕ → List ℕ
count_from year zero = []
count_from year (suc n) = year ∷ count_from (suc year) n

-- `for (int year = range_begin; year <= range_end; ++year)`
unfoldable pub add_range : ℕ → ℕ → List ℕ
unfolding count_from
add_range range_begin range_end = count_from range_begin (range_end + 1 - range_begin)

-- The loop of `decode_copyright_line` over the tokens, as the years that it adds.
unfoldable pub decode_years : List Token → List ℕ
decode_years [] = []
decode_years ((range_begin, none) ∷ ts) = add_range range_begin range_begin ++ decode_years ts
decode_years ((range_begin, some range_end) ∷ ts) =
    add_range range_begin range_end ++ decode_years ts

-- `std::sort`
unfoldable pub insert : ℕ → List ℕ → List ℕ
insert x [] = x ∷ []
insert x (y ∷ ys) = let rest = insert x ys in if leb x y then x ∷ y ∷ ys else y ∷ rest

unfoldable pub sort : List ℕ → List ℕ
unfolding insert
sort [] = []
sort (x ∷ xs) = insert x (sort xs)

-- `std::unique` and `erase`: an item that equals the one kept last is dropped.
unfoldable pub unique_from : ℕ → List ℕ → List ℕ
unique_from kept [] = []
unique_from kept (y ∷ ys) = if y == kept then unique_from kept ys else y ∷ unique_from y ys

unfoldable pub unique : List ℕ → List ℕ
unfolding unique_from
unique [] = []
unique (x ∷ xs) = x ∷ unique_from x xs

-- The part of `canonicalize` that is about years.
unfoldable pub canonical_years : ℕ → List ℕ → List ℕ
unfolding sort unique
canonical_years current_year [] = current_year ∷ []
canonical_years current_year (y ∷ ys) = unique (sort (y ∷ ys))

-- What `print_on` writes in front of a year.
pub data Separator : Type 0 where
  copyright comma dash : Separator

abbrev pub Piece : Type 0
Piece = Separator × ℕ

-- The variables of the loop of `print_on`.
pub record Printer : Type 0 where
  pub separator : Separator
  pub first_year : ℕ
  pub last_year : ℕ

-- What one round writes where it writes, with `last_year` brought up to date.
abbrev pub pieces : ℕ → Printer → ℕ → List Piece
pieces final_year p year =
    let first_year = (if p.first_year == 0 then year else p.first_year) in
    let last_year = (if year == p.last_year + 1 then year else p.last_year) in
    (p.separator, first_year)
    ∷ ((if ltb first_year last_year
          then (
            (if ltb (first_year + 1) last_year then Separator.dash else Separator.comma),
            last_year,
          )
            ∷ []
          else [])
        ++ (if year == final_year && (ltb first_year year && ltb last_year year)
            then (Separator.comma, year) ∷ []
            else []))

-- One round of the loop: what it writes, and the variables behind it.
unfoldable pub print_year : ℕ → Printer → ℕ → List Piece × Printer
print_year final_year p year =
    if year == p.last_year + 1 && not (year == final_year)
    then ([], record p { last_year = year })
    else if not (p.first_year == 0) || year == final_year
    then (
      pieces final_year p year,
      record { separator = Separator.comma; first_year = year; last_year = year },
    )
    else ([], record p { first_year = year; last_year = year })

unfoldable pub print_loop : ℕ → Printer → List ℕ → List Piece
print_loop final_year p [] = []
print_loop final_year p (year ∷ years) =
    let (written, p') = print_year final_year p year in written ++ print_loop final_year p' years

abbrev pub back : ℕ → List ℕ → ℕ
back x [] = x
back x (y ∷ ys) = back y ys

-- `back()` of no years at all is undefined.
unfoldable pub print_years : List ℕ → Option (List Piece)
print_years [] = none
print_years (y ∷ ys) = some (
    print_loop (back y ys)
      (record { separator = Separator.copyright; first_year = 0; last_year = 0 }) (y ∷ ys))

-- A year that `copyright_regexp` and `year_regexp` match, `(?:19|20)[\d][\d]`.
abbrev pub is_matched : ℕ → Bool
is_matched year = leb 1900 year && ltb year 2100

-- What the two expressions find in the text of these pieces, where `begin` is a year that no dash has
-- followed so far. The first group of `copyright_regexp` ends in front of the first year that it does
-- not match.
unfoldable pub tokens : Option ℕ → List Piece → List Token
tokens none [] = []
tokens (some begin) [] = (begin, none) ∷ []
tokens none ((s, y) ∷ ps) = if is_matched y then tokens (some y) ps else []
tokens (some begin) ((Separator.dash, y) ∷ ps) =
    if is_matched y then (begin, some y) ∷ tokens none ps else (begin, none) ∷ []
tokens (some begin) ((Separator.comma, y) ∷ ps) =
    (begin, none) ∷ (if is_matched y then tokens (some y) ps else [])
tokens (some begin) ((Separator.copyright, y) ∷ ps) =
    (begin, none) ∷ (if is_matched y then tokens (some y) ps else [])
