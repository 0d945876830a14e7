-- ===== src/Examples/OfRewriteHeader.antt =====
-- src/rewrite_header.cxx at concrete years and lines, with expressions that match little.
use ai_statefultask_testsuit.Base.{
  ℕ, ◌≡◌, ◌≢◌, inl, refl, Bool, false, none, some, List, [], ◌∷◌, arith,
}
use ai_statefultask_testsuit.RewriteHeader.Text.{
  Text, codes, trim_right, end_of_last_not, is_c_comment_start, is_c_comment_end, is_cpp_comment,
}
use ai_statefultask_testsuit.RewriteHeader.Years.{
  Piece, Separator, print_years, print_year, print_loop, decode_years, tokens, canonical_years,
}
use ai_statefultask_testsuit.RewriteHeader.Years.Sorted.{
  Increasing, contains, canonical_years-Increasing,
}
use ai_statefultask_testsuit.RewriteHeader.Years.RoundTrip.{decode-print_years}
use ai_statefultask_testsuit.RewriteHeader.Header.{Patterns}
use ai_statefultask_testsuit.RewriteHeader.Process.{done, undefined, process}
use ai_statefultask_testsuit.RewriteHeader.Process.Outcome.{Written, process-Written}
use ai_statefultask_testsuit.RewriteHeader.Process.Defined.{process-c_comment, process-undefined}

-- Every line is text as it stands, and no line is special.
abbrev pub plain : Patterns
plain = record {
  match_module = λ t. none;
  match_file = λ t. none;
  match_brief = λ t. none;
  search_copyright = λ t. false;
  search_part_of = λ t. none;
  search_license_start = λ t. false;
  search_license_end = λ t. false;
  match_lead = λ l t. some t;
  match_copyright = λ t. none;
  regex_replace = λ e line with. line;
  trim_left = λ t. t;
}

abbrev found : List ℕ
found = 2018 ∷ 2016 ∷ 2018 ∷ []

canonical_years-Increasing_example :
    let ys = canonical_years 2019 found in
    Increasing ys
    × (ys ≢ [])
    × ((a : ℕ) → found ≢ [] → contains a ys ≡ contains a found)
    × (found ≡ [] → ys ≡ 2019 ∷ [])
canonical_years-Increasing_example = canonical_years-Increasing 2019 found

decode-print_years_example :
    (ps : List Piece) × (print_years (2014 ∷ 2016 ∷ 2017 ∷ 2018 ∷ 2020 ∷ []) ≡ some ps)
    × (decode_years (tokens none ps) ≡ 2014 ∷ 2016 ∷ 2017 ∷ 2018 ∷ 2020 ∷ [])
decode-print_years_example =
    decode-print_years 2014 (2016 ∷ 2017 ∷ 2018 ∷ 2020 ∷ []) (omega arith) (omega arith)
      (omega arith)

-- A year that the expressions do not match is printed, but not read back, nor is any behind it.
unread :
    (ps : List Piece) × (print_years (1850 ∷ 1999 ∷ []) ≡ some ps)
    × (decode_years (tokens none ps) ≡ [])
unfolding print_years print_loop print_year decode_years tokens
unread = (_, refl, refl)

printed_years :
    print_years (2014 ∷ 2016 ∷ 2017 ∷ 2018 ∷ 2020 ∷ [])
    ≡ some (
        (Separator.copyright, 2014)
        ∷ (Separator.comma, 2016)
        ∷ (Separator.dash, 2018)
        ∷ (Separator.comma, 2020)
        ∷ [])
unfolding print_years print_year print_loop
printed_years = refl

process-Written_example :
    Written plain 2019 (codes "int i;" ∷ []) (process plain [] [] 2019 (codes "int i;" ∷ []))
process-Written_example = process-Written plain [] [] 2019 (codes "int i;" ∷ [])

process-c_comment_example :
    (r : List Text × Bool) × (process plain [] [] 2019
        (codes "/*" ∷ codes " * text" ∷ codes " */" ∷ codes "int i;" ∷ [])
      ≡ done r)
unfolding is_c_comment_start is_c_comment_end is_cpp_comment trim_right end_of_last_not
process-c_comment_example =
    process-c_comment plain [] [] 2019 (codes "/*") (codes " * text" ∷ []) (codes " */")
      (codes "int i;") [] refl refl (refl, (refl, tt)) refl (refl, refl, refl)

process-undefined_example :
    process plain [] [] 2019 (codes "/* text" ∷ codes "int i;" ∷ []) ≡ undefined
unfolding is_c_comment_start is_c_comment_end trim_right end_of_last_not
process-undefined_example =
    process-undefined plain [] [] 2019 (codes "/* text") (codes "int i;" ∷ []) refl
      (inl (refl, (refl, (refl, tt))))
