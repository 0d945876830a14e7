-- ===== src/RewriteHeader/Process.antt =====
-- The function `process` of src/rewrite_header.cxx. `input_lines[il]` with `il` counting up is
-- the list of the lines from `il` on. An access past the last line, and `back()` of no years, are
-- `undefined`. The loop `for (;;)` takes fuel.
pub mod Outcome
pub mod Defined
use ai_statefultask_testsuit.Base.{
  ℕ, zero, suc, ◌+◌, Bool, true, false, not, ◌&&◌, ◌||◌, ◌==◌, if◌then◌else◌, Option, none, some,
  List, [], ◌∷◌, ◌++◌, length,
}
use ai_statefultask_testsuit.RewriteHeader.Text.{
  Text, is_empty, trim_right, is_c_comment_start, is_c_comment_end, is_cpp_comment,
}
use ai_statefultask_testsuit.RewriteHeader.Header.{
  Patterns, Lead, c_start, cpp_start, c_next, c_last, Header, new_header, set_module, set_part_of,
  decode_copyright_line, canonicalize, print_on, newline, text_eq,
}

pub data Run {ℓ} (A : Type ℓ) : Type ℓ where
  done : A → Run A
  undefined : Run A
  out_of_fuel : Run A

infixl 5 ◌>>=◌
abbrev pub ◌>>=◌ {ℓ κ} : {A : Type ℓ} {B : Type κ} → Run A → (A → Run B) → Run B
done a >>= f = f a
undefined >>= f = undefined
out_of_fuel >>= f = out_of_fuel

pub data State : Type 0 where
  searching module_line file brief copyright signature part_of license trailing : State

-- The variables of the loops, apart from `il`.
pub record Scan : Type 0 where
  pub state : State
  pub header : Header
  pub first_line : Bool
  pub saw_file_or_brief_or_copyright : Bool
  pub saw_copyright : Bool
  pub saw_license : Bool
  pub saw_module : Bool
  pub trailing_empty_line : Bool
  pub lead : Lead

abbrev pub last_line : Bool → Text → Bool
last_line is_c_comment line = is_c_comment && is_c_comment_end (trim_right line)

unfoldable pub skip_empty_lines : List Text → List Text
skip_empty_lines [] = []
skip_empty_lines (line ∷ rest) = if is_empty line then skip_empty_lines rest else line ∷ rest

-- The variables that the head of `for (;;)` declares.
abbrev pub start_scan : Bool → State → Header → Scan
start_scan is_c_comment state header = record {
  state = state;
  header = header;
  first_line = true;
  saw_file_or_brief_or_copyright = false;
  saw_copyright = false;
  saw_license = false;
  saw_module = false;
  trailing_empty_line = false;
  lead = if is_c_comment then Lead.c_start else Lead.cpp_start;
}

-- `std::getline` until the stream is empty; what follows the last newline is a line if it is
-- not empty.
unfoldable pub getlines_from : Text → Text → List Text
getlines_from line [] = if is_empty line then [] else line ∷ []
getlines_from line (c ∷ cs) =
    let whole = line ∷ getlines_from [] cs in
    let more = getlines_from (line ++ (c ∷ [])) cs in if c == 10 then whole else more

abbrev pub lines_eq : List Text → List Text → Bool
lines_eq [] [] = true
lines_eq [] (m ∷ ms) = false
lines_eq (l ∷ ls) [] = false
lines_eq (l ∷ ls) (m ∷ ms) = text_eq l m && lines_eq ls ms

-- The end of the body of `for (;;)`: `continue`, by the call `again`, or `break`. The comment
-- beside the flag that is set in front of `continue` says "only do this once", but the flag is
-- declared in the loop, and the next round has a new one.
abbrev pub next_block :
    (List Text → State → Header → Run (Header × List Text))
    → Scan × List Text
    → Run (Header × List Text)
next_block again (s, rest) = elim (not s.saw_file_or_brief_or_copyright && s.saw_module) [
  | true ↦ again rest s.state s.header
  | false ↦ done (s.header, rest)
]

module _ (patterns : Patterns) where
  open patterns use {
    match_module, match_file, match_brief, search_copyright, search_part_of, search_license_start,
    search_license_end, match_lead, trim_left,
  }

  unfoldable pub extract : Lead → Text → Text
  extract lead line = elim (match_lead lead line) [ none ↦ [] | some group ↦ trim_right group ]

  -- The state that `searching` goes over to, with the groups of the match. A state that needs no
  -- group gets empty ones.
  abbrev found : State → State × (Text × Text)
  found s = (s, ([], []))

  abbrev search_rest : Text → Scan → State × (Text × Text)
  search_rest text s =
      if search_copyright text
      then found State.copyright
      else elim (if s.saw_license then none else search_part_of text) [
        | some name ↦ (State.part_of, (name, []))
        | none ↦
            if not s.saw_license && search_license_start text
            then found State.license
            else if s.saw_copyright && (not s.saw_license && not (is_empty text))
            then found State.signature
            else if s.saw_license && not (is_empty text)
            then found State.trailing
            else found State.searching
      ]

  unfoldable pub search : Text → Scan → State × (Text × Text)
  search text s = elim (if s.first_line then match_module text else none) [
    | some groups ↦ (State.module_line, groups)
    | none ↦ elim (match_file text) [
      | some rest ↦ (State.file, (rest, []))
      | none ↦ search_rest text s
    ]
  ]

  -- The tests in front of the switch.
  unfoldable pub next_state : Text → Scan → State × (Text × Text)
  unfolding search
  next_state text s = elim s.state [
    | State.file ↦ elim (match_brief text) [
      | some desc ↦ (State.brief, (desc, []))
      | none ↦ search text s
    ]
    | State.searching ↦ search text s
    | other ↦ found other
  ]

  -- The switch. `first_line = false` stands behind its last `break`, and is never reached.
  unfoldable pub act : Text → State × (Text × Text) → Scan → Scan
  act text (State.searching, g) s = record s { state = State.searching }
  act text (State.module_line, (name, desc)) s = record s {
    header = set_module name desc s.header;
    state = State.searching;
    saw_module = true;
  }
  act text (State.file, g) s = record s {
    state = State.file;
    saw_file_or_brief_or_copyright = true;
  }
  act text (State.brief, (desc, rest)) s = record s {
    header = record (s.header) { brief = desc };
    state = State.searching;
    saw_file_or_brief_or_copyright = true;
  }
  act text (State.copyright, g) s = record s {
    header = decode_copyright_line patterns text s.header;
    state = State.searching;
    saw_file_or_brief_or_copyright = true;
    saw_copyright = true;
  }
  act text (State.signature, g) s = record s {
    header = record (s.header) { signature = s.header.signature ++ (text ∷ []) };
    state = State.searching;
  }
  act text (State.part_of, (name, rest)) s = record s {
    header = set_part_of name s.header;
    state = State.searching;
  }
  act text (State.license, g) s = record s {
    header = record (s.header) { license = s.header.license ++ (text ∷ []) };
    saw_license = true;
    state = if search_license_end text then State.searching else State.license;
  }
  act text (State.trailing, g) s =
      if is_empty text
      then record s { state = State.trailing; trailing_empty_line = true }
      else record s {
        state = State.trailing;
        header = record (s.header) {
          trailing =
              s.header.trailing ++ ((if s.trailing_empty_line then [] ∷ [] else []) ++ (text ∷ []));
        };
        trailing_empty_line = false;
      }

  abbrev text_of : Bool → Text → Lead → Text
  text_of is_c_comment line lead = trim_right (
      if last_line is_c_comment line
      then extract Lead.c_last (extract lead line)
      else extract lead line)

  -- One round of the loop over the lines of a comment.
  unfoldable pub scan_line : Bool → Text → Scan → Scan
  unfolding extract next_state act
  scan_line is_c_comment line s =
      let text = text_of is_c_comment line s.lead in
      let s' = act text (next_state text s) s in
      if is_c_comment && not (last_line is_c_comment line)
      then record s' { lead = Lead.c_next }
      else s'

  -- `while (is_C_comment || is_Cpp_comment(…))`: the variables behind it and the lines from `il` on.
  unfoldable pub scan_comment : Bool → List Text → Scan → Run (Scan × List Text)
  scan_comment is_c_comment [] s = undefined
  scan_comment is_c_comment (line ∷ rest) s =
      let s' = scan_line is_c_comment line s in
      let continued = scan_comment is_c_comment rest s' in
      if is_c_comment || is_cpp_comment (trim_left line)
      then (if last_line is_c_comment line then done (s', rest) else continued)
      else done (s, line ∷ rest)

  -- The body of `for (;;)`.
  unfoldable pub scan_block : List Text → State → Header → Run (Scan × List Text)
  scan_block lines state header = elim (skip_empty_lines lines) [
    | [] ↦ undefined
    | line ∷ rest ↦
        let is_c_comment = is_c_comment_start (trim_left line) in
        scan_comment is_c_comment (line ∷ rest) (start_scan is_c_comment state header)
  ]

  unfoldable pub scan_blocks : ℕ → List Text → State → Header → Run (Header × List Text)
  scan_blocks zero lines state header = out_of_fuel
  scan_blocks (suc fuel) lines state header =
      scan_block lines state header >>= next_block (scan_blocks fuel)

  abbrev pub finish : ℕ → List Text → Header × List Text → Run (List Text × Bool)
  finish current_year input_lines (header, rest) =
      elim (print_on (canonicalize patterns current_year header)) [
        | none ↦ undefined
        | some printed ↦
            let lines = getlines_from [] (printed ++ newline) ++ skip_empty_lines rest in
            done (lines, not (lines_eq input_lines lines))
      ]

  -- The new lines and whether they differ. A block has one line at least, so that one round more
  -- than there are lines is enough.
  unfoldable pub process : Text → Text → ℕ → List Text → Run (List Text × Bool)
  process module_name module_desc current_year input_lines =
      scan_blocks (suc (length input_lines)) input_lines State.searching
        (new_header module_name module_desc)
      >>= finish current_year input_lines
