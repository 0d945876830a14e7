-- ===== src/RewriteHeader/Process/Defined.antt =====
-- Where `process` of src/rewrite_header.cxx gives new lines, and where it reads past the end of
-- the file.
use mathlib.Core.List.{append_assoc}
use ai_statefultask_testsuit.Base.{
  ℕ, suc, ◌≡◌, refl, ap, sym, ◌⊎◌, inl, inr, Bool, true, false, not, ◌&&◌, List, [], ◌∷◌, ◌++◌,
  length, All, Bool-cases,
}
use ai_statefultask_testsuit.RewriteHeader.Text.{
  Text, is_empty, trim_right, is_c_comment_start, is_c_comment_end, is_cpp_comment,
}
use ai_statefultask_testsuit.RewriteHeader.Header.{Patterns, Header, new_header}
use ai_statefultask_testsuit.RewriteHeader.Process.Outcome.{finish-Written}
use ai_statefultask_testsuit.RewriteHeader.Process.{
  done, undefined, State, Scan, scan_line, scan_comment, skip_empty_lines, start_scan, scan_block,
  scan_blocks, next_block, process,
}

-- A line without the end of a C comment.
abbrev pub IsOpen : Text → Type 0
IsOpen line = is_c_comment_end (trim_right line) ≡ false

module _ (patterns : Patterns) where
  -- A line of code: not empty, and no comment begins on it.
  abbrev pub IsCode : Text → Type 0
  IsCode line =
      (is_empty line ≡ false)
      × (is_c_comment_start (patterns.trim_left line) ≡ false)
      × (is_cpp_comment (patterns.trim_left line) ≡ false)

  scan_comment-closed :
      (comment : List Text) (last : Text) (rest : List Text) (s : Scan)
      → All IsOpen comment
      → is_c_comment_end (trim_right last) ≡ true
      → (s' : Scan) × (scan_comment patterns true (comment ++ (last ∷ rest)) s ≡ done (s', rest))
  unfolding scan_comment
  scan_comment-closed [] last rest s open_lines e = rw e (_, refl)
  scan_comment-closed (line ∷ comment) last rest s open_lines e =
      rw open_lines.0
        (scan_comment-closed comment last rest (scan_line patterns true line s) open_lines.1 e)

  scan_comment-open :
      (comment : List Text) (s : Scan)
      → All IsOpen comment
      → scan_comment patterns true comment s ≡ undefined
  unfolding scan_comment
  scan_comment-open [] s open_lines = refl
  scan_comment-open (line ∷ comment) s open_lines =
      rw open_lines.0 (scan_comment-open comment (scan_line patterns true line s) open_lines.1)

  scan_comment-cpp :
      (comment : List Text) (s : Scan)
      → All (λ line. is_cpp_comment (patterns.trim_left line) ≡ true) comment
      → scan_comment patterns false comment s ≡ undefined
  unfolding scan_comment
  scan_comment-cpp [] s h = refl
  scan_comment-cpp (line ∷ comment) s h =
      rw h.0 (scan_comment-cpp comment (scan_line patterns false line s) h.1)

  skip_empty_lines-ink :
      (line : Text) (rest : List Text)
      → is_empty line ≡ false
      → skip_empty_lines (line ∷ rest) ≡ line ∷ rest
  unfolding skip_empty_lines
  skip_empty_lines-ink line rest ink = rw ink refl

  scan_comment-code :
      (code : Text) (rest : List Text) (s : Scan)
      → is_cpp_comment (patterns.trim_left code) ≡ false
      → scan_comment patterns false (code ∷ rest) s ≡ done (s, code ∷ rest)
  unfolding scan_comment
  scan_comment-code code rest s c = rw c refl

  -- A block that begins with `line`.
  scan_block-ink :
      (line : Text) (rest : List Text) (state : State) (h : Header)
      → is_empty line ≡ false
      → let c = is_c_comment_start (patterns.trim_left line) in
        scan_block patterns (line ∷ rest) state h
        ≡ scan_comment patterns c (line ∷ rest) (start_scan c state h)
  unfolding scan_block
  scan_block-ink line rest state h ink = rw (skip_empty_lines-ink line rest ink, scan_block) refl

  scan_blocks-code :
      (fuel : ℕ) (code : Text) (rest : List Text) (state : State) (h : Header)
      → IsCode code
      → scan_blocks patterns (suc fuel) (code ∷ rest) state h ≡ done (h, code ∷ rest)
  unfolding scan_blocks
  scan_blocks-code fuel code rest state h (ink, no_c, no_cpp) =
      rw
        (
          scan_block-ink code rest state h ink,
          no_c,
          scan_comment-code code rest (start_scan false state h) no_cpp,
        )
        refl

  -- What the rounds behind a first block on these lines end in, where code follows the block.
  next_block-code :
      (fuel : ℕ) (code : Text) (rest : List Text) (s : Scan)
      → IsCode code
      → (h : Header) × (next_block (scan_blocks patterns (suc fuel)) (s, code ∷ rest)
          ≡ done (h, code ∷ rest))
  next_block-code fuel code rest s c =
      elim (Bool-cases (not s.saw_file_or_brief_or_copyright && s.saw_module)) [
        | inl more ↦
            (s.header, rw (more, next_block) (scan_blocks-code fuel code rest s.state s.header c))
        | inr over ↦ (s.header, rw (over, next_block) refl)
      ]

  -- A file that begins with a C comment of two lines or more, behind which a line of code comes,
  -- gets new lines: no access is undefined, whatever the lines of the comment hold.
  pub process-c_comment :
      (module_name module_desc : Text) (now : ℕ) (first : Text) (comment : List Text)
      (last code : Text) (rest : List Text)
      → is_empty first ≡ false
      → is_c_comment_start (patterns.trim_left first) ≡ true
      → All IsOpen (first ∷ comment)
      → is_c_comment_end (trim_right last) ≡ true
      → IsCode code
      → (r : List Text × Bool) × (process patterns module_name module_desc now
            (first ∷ (comment ++ (last ∷ code ∷ rest)))
          ≡ done r)
  unfolding process scan_blocks
  process-c_comment name desc now first comment last code rest ink start open_lines e c =
      let lines : List Text = first ∷ (comment ++ (last ∷ code ∷ rest)) in
      let begin = start_scan true State.searching (new_header name desc) in
      let (s, scanned) =
        scan_comment-closed (first ∷ comment) last (code ∷ rest) begin open_lines e in
      let (h, rounds) = next_block-code (length (comment ++ (last ∷ code ∷ rest))) code rest s c in
      let (r, finished, w) = finish-Written patterns now lines h (code ∷ rest) (
        first ∷ (comment ++ (last ∷ [])),
        ap (λ ls. first ∷ ls) (sym (append_assoc comment (last ∷ []) (code ∷ rest))),
      ) in
      (
        r,
        rw
            (
              scan_block-ink first (comment ++ (last ∷ code ∷ rest)) State.searching
                  (new_header name desc) ink,
              start,
              scanned,
              rounds,
            )
            finished,
      )

  -- A file that begins, on a line that is not empty, with a C comment which never ends, or that is
  -- C++ comments to its last line, is read past its end.
  pub process-undefined :
      (module_name module_desc : Text) (now : ℕ) (first : Text) (rest : List Text)
      → is_empty first ≡ false
      → ((is_c_comment_start (patterns.trim_left first) ≡ true) × All IsOpen (first ∷ rest))
        ⊎ ((is_c_comment_start (patterns.trim_left first) ≡ false)
            × All (λ line. is_cpp_comment (patterns.trim_left line) ≡ true) (first ∷ rest))
      → process patterns module_name module_desc now (first ∷ rest) ≡ undefined
  unfolding process scan_blocks
  process-undefined name desc now first rest ink (inl (start, open_lines)) =
      rw
        (
          scan_block-ink first rest State.searching (new_header name desc) ink,
          start,
          scan_comment-open (first ∷ rest) (start_scan true State.searching (new_header name desc))
              open_lines,
        )
        refl
  process-undefined name desc now first rest ink (inr (start, all_cpp)) =
      rw
        (
          scan_block-ink first rest State.searching (new_header name desc) ink,
          start,
          scan_comment-cpp (first ∷ rest) (start_scan false State.searching (new_header name desc))
              all_cpp,
        )
        refl

  skip_empty_lines-blank :
      (lines : List Text) → All (λ line. is_empty line ≡ true) lines → skip_empty_lines lines ≡ []
  unfolding skip_empty_lines
  skip_empty_lines-blank [] h = refl
  skip_empty_lines-blank (line ∷ lines) h = rw h.0 (skip_empty_lines-blank lines h.1)

  -- A file of empty lines only, or of none at all, is read past its end.
  process-blank :
      (module_name module_desc : Text) (now : ℕ) (lines : List Text)
      → All (λ line. is_empty line ≡ true) lines
      → process patterns module_name module_desc now lines ≡ undefined
  unfolding process scan_blocks scan_block
  process-blank name desc now lines h = rw (skip_empty_lines-blank lines h, scan_block) refl
