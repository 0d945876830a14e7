-- ===== src/RewriteHeader/Header.antt =====
-- The class `Header` of src/rewrite_header.cxx. The regular expressions are those of `std::regex`
-- and enter as `Patterns`: for each, whether a line matches, and what its groups hold.
use ai_statefultask_testsuit.Base.{
  ℕ, ◌+◌, ◌-◌, ◌/◌, ◌%◌, Bool, true, false, not, ◌&&◌, ◌||◌, leb, ◌==◌, if◌then◌else◌, Option, none,
  some, List, [], ◌∷◌, ◌++◌, map,
}
use ai_statefultask_testsuit.RewriteHeader.Text.{
  Text, codes, is_empty, trim_right, end_of_last_not, take,
}
use ai_statefultask_testsuit.RewriteHeader.Years.{
  Token, decode_years, canonical_years, print_years, Piece, Separator,
}

-- The expressions that `canonicalize` replaces; the last two are made from the old module name.
pub data License : Type 0 where
  this_program_capital this_program : License
  old_module_capital old_module : Text → License

-- Where a comment line's text is taken from: the first line of a C comment or a C++ comment, a
-- later line of a C comment, the last line of a C comment.
pub data Lead : Type 0 where
  c_start cpp_start c_next c_last : Lead

pub record Patterns : Type 0 where
  -- `module_regexp`, `file_regexp`, `brief_regexp` and `part_of_regexp`, with their groups.
  pub match_module : Text → Option (Text × Text)
  pub match_file : Text → Option Text
  pub match_brief : Text → Option Text
  pub search_copyright : Text → Bool
  pub search_part_of : Text → Option Text
  pub search_license_start : Text → Bool
  pub search_license_end : Text → Bool
  -- The first group of `lead_reg_expr + "(.*)"`.
  pub match_lead : Lead → Text → Option Text
  -- `copyright_regexp`: the tokens of `year_regexp` in the first group, and the second group.
  pub match_copyright : Text → Option (List Token × Text)
  pub regex_replace : License → Text → Text → Text
  -- `boost::trim_left_copy`
  pub trim_left : Text → Text

pub record Header : Type 0 where
  pub module_name : Text
  pub module_desc : Text
  pub old_module_name : Text
  pub brief : Text
  pub copyright_years : List ℕ
  pub author : Text
  pub signature : List Text
  pub license : List Text
  pub trailing : List Text

-- The constructor. The members `m_doxygen_start`, `m_doxygen_lead` and `m_doxygen_end` never
-- change; they are the constants below.
abbrev pub new_header : Text → Text → Header
new_header module_name module_desc = record {
  module_name = module_name;
  module_desc = module_desc;
  old_module_name = [];
  brief = [];
  copyright_years = [];
  author = [];
  signature = [];
  license = [];
  trailing = [];
}

unfoldable pub set_module : Text → Text → Header → Header
set_module name desc h =
    if is_empty h.module_name then record h { module_name = name; module_desc = desc } else h

abbrev pub text_eq : Text → Text → Bool
text_eq [] [] = true
text_eq [] (d ∷ ds) = false
text_eq (c ∷ cs) [] = false
text_eq (c ∷ cs) (d ∷ ds) = c == d && text_eq cs ds

unfoldable pub set_part_of : Text → Header → Header
set_part_of name h =
    if is_empty h.module_name
    then record h { module_name = name }
    else if not (text_eq h.module_name name)
    then record h { old_module_name = name }
    else h

-- `" ."`
abbrev is_space_or_period : ℕ → Bool
is_space_or_period c = c == 32 || c == 46

unfoldable pub decode_copyright_line : Patterns → Text → Header → Header
decode_copyright_line patterns line h = elim (patterns.match_copyright line) [
  | none ↦ h
  | some (years, author) ↦ record h {
    copyright_years = h.copyright_years ++ decode_years years;
    author = take (end_of_last_not is_space_or_period author) author;
  }
]

abbrev or_else : Text → Text → Text
or_else str default = if is_empty str then default else str

abbrev or_lines : List Text → List Text → List Text
or_lines [] default = default
or_lines (l ∷ ls) default = l ∷ ls

abbrev pub default_signature : List Text
default_signature =
    codes "RSA-1024 0x624ACAD5 1997-01-26                    Sign & Encrypt"
    ∷ codes "Fingerprint16 = 32 EC A7 B6 AC DB 65 A6  F6 F6 55 DD 1C DC FF 61"
    ∷ []

abbrev pub default_license : List Text
default_license =
    codes "This program is free software: you can redistribute it and/or modify"
    ∷ codes "it under the terms of the GNU Affero General Public License as published"
    ∷ codes "by the Free Software Foundation, either version 3 of the License, or"
    ∷ codes "(at your option) any later version."
    ∷ []
    ∷ codes "This program is distributed in the hope that it will be useful,"
    ∷ codes "but WITHOUT ANY WARRANTY; without even the implied warranty of"
    ∷ codes "MERCHANTABILITY or FITNESS FOR A PARTICULAR PURPOSE.  See the"
    ∷ codes "GNU Affero General Public License for more details."
    ∷ []
    ∷ codes "You should have received a copy of the GNU Affero General Public License"
    ∷ codes "along with this program.  If not, see <http://www.gnu.org/licenses/>."
    ∷ []

-- `std::toupper` on ASCII.
abbrev toupper : ℕ → ℕ
toupper c = if leb b'a' c && leb c b'z' then c - 32 else c

abbrev capitalized : Text → Text
capitalized [] = []
capitalized (c ∷ cs) = toupper c ∷ cs

-- The body of the loop over `m_license`.
unfoldable pub rename_module : Patterns → Text → Text → Text → Text
rename_module patterns name old line =
    let line' =
      patterns.regex_replace License.this_program
        (patterns.regex_replace License.this_program_capital line (capitalized name)) name in
    if is_empty old
    then line'
    else patterns.regex_replace (License.old_module old)
        (patterns.regex_replace (License.old_module_capital old) line' (capitalized name)) name

unfoldable pub canonicalize : Patterns → ℕ → Header → Header
canonicalize patterns current_year h =
    let license = or_lines h.license default_license in
    record h {
      module_desc = or_else h.module_desc (codes "FIXME");
      brief = or_else h.brief (codes "FIXME");
      copyright_years = canonical_years current_year h.copyright_years;
      author = or_else h.author (codes "Carlo Wood");
      signature = or_lines h.signature default_signature;
      license =
          if is_empty h.module_name
          then license
          else map (rename_module patterns h.module_name h.old_module_name) license;
    }

abbrev pub newline : Text
newline = 10 ∷ []

abbrev doxygen_lead : Text
doxygen_lead = codes " * "

unfoldable pub print_line : Text → Text
print_line line =
    if is_empty line then trim_right doxygen_lead ++ newline else doxygen_lead ++ (line ++ newline)

unfoldable pub print_lines : List Text → Text
print_lines [] = []
print_lines (l ∷ ls) = print_line l ++ print_lines ls

-- `os << year`, for the four digits that a year has.
abbrev decimal : ℕ → Text
decimal n = (48 + n / 1000 % 10) ∷ (48 + n / 100 % 10) ∷ (48 + n / 10 % 10) ∷ (48 + n % 10) ∷ []

abbrev separator_text : Separator → Text
separator_text Separator.copyright = codes "@Copyright (C) "
separator_text Separator.comma = codes ", "
separator_text Separator.dash = codes " - "

unfoldable pub print_pieces : List Piece → Text
print_pieces [] = []
print_pieces ((s, year) ∷ ps) = separator_text s ++ (decimal year ++ print_pieces ps)

abbrev concat : List Text → Text
concat [] = []
concat (t ∷ ts) = t ++ concat ts

abbrev print_module : Header → Text
print_module h =
    if is_empty h.module_name
    then []
    else concat
        (doxygen_lead ∷ h.module_name ∷ codes " -- " ∷ h.module_desc ∷ newline ∷ print_line [] ∷ [])

abbrev print_part_of : Header → Text
print_part_of h =
    if is_empty h.module_name
    then []
    else concat (
        print_line []
        ∷ doxygen_lead
        ∷ codes "This file is part of "
        ∷ h.module_name
        ∷ codes "."
        ∷ newline
        ∷ [])

abbrev print_trailing : List Text → Text
print_trailing [] = []
print_trailing (t ∷ ts) = print_line [] ++ print_lines (t ∷ ts)

-- `print_on`; `none` where there are no years, for which `back()` is undefined.
unfoldable pub print_on : Header → Option Text
print_on h = elim (print_years h.copyright_years) [
  | none ↦ none
  | some ps ↦ some (
      concat (
        codes "/**"
        ∷ newline
        ∷ print_module h
        ∷ doxygen_lead
        ∷ codes "@file"
        ∷ newline
        ∷ doxygen_lead
        ∷ codes "@brief "
        ∷ h.brief
        ∷ newline
        ∷ print_line []
        ∷ doxygen_lead
        ∷ print_pieces ps
        ∷ codes "  "
        ∷ h.author
        ∷ codes "."
        ∷ newline
        ∷ print_line []
        ∷ print_lines h.signature
        ∷ print_part_of h
        ∷ print_line []
        ∷ print_lines h.license
        ∷ print_trailing h.trailing
        ∷ codes " */"
        ∷ newline
        ∷ []))
]
