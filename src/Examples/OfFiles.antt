-- ===== src/Examples/OfFiles.antt =====
-- src/rewrite_header.cxx on a file system that is a function from names to texts.
use mathlib.Core.Option.{some_inj}
use mathlib.Core.List.{append_assoc, append-nil}
use ai_statefultask_testsuit.Base.{
  ◌≡◌, ◌≢◌, refl, sym, ap, ◌∙◌, inl, inr, Bool, true, false, if◌then◌else◌, Option, none, some,
  List, [], ◌∷◌, ◌++◌, arith, Bool-cases,
}
use ai_statefultask_testsuit.RewriteHeader.Text.{Text}
use ai_statefultask_testsuit.RewriteHeader.Header.{newline, text_eq}
use ai_statefultask_testsuit.RewriteHeader.Main.{
  Variables, main, FileSystem, write_lines, rewrite_file,
}
use ai_statefultask_testsuit.RewriteHeader.Main.Files.{
  KeepsFiles, ClosesWhole, Rewritten, rewrite_file-Rewritten, unlines,
}
use ai_statefultask_testsuit.RewriteHeader.Main.Exits.{Exits, main-Exits}
use ai_statefultask_testsuit.Examples.OfRewriteHeader.{plain}

text_eq_sound : (a b : Text) → text_eq a b ≡ true → a ≡ b
text_eq_sound [] [] h = refl
text_eq_sound [] (y ∷ b) h = ground arith
text_eq_sound (x ∷ a) [] h = ground arith
text_eq_sound (x ∷ a) (y ∷ b) h =
    let rest = text_eq_sound a b (ground arith) in let head : x ≡ y = ground arith in cc

text_eq_refl : (a : Text) → text_eq a a ≡ true
text_eq_refl [] = refl
text_eq_refl (x ∷ a) = let rest = text_eq_refl a in ground arith

text_eq-other : (a b : Text) → a ≢ b → text_eq a b ≡ false
text_eq-other a b ne = elim (Bool-cases (text_eq a b)) [
  | inl same ↦ absurd (ne (text_eq_sound a b same))
  | inr differ ↦ differ
]

abbrev Table : Type 0
Table = Text → Option Text

abbrev assign : Text → Option Text → Table → Table
assign name contents disk other = if text_eq other name then contents else disk other

abbrev append_to : Option Text → Text → Option Text
append_to none text = some text
append_to (some old) text = some (old ++ text)

abbrev move : Text → Text → Option Text → Table → Option Table
move old new none disk = none
move old new (some contents) disk = some (assign new (some contents) (assign old none disk))

abbrev delivered : Option Text → Option (Text × Bool)
delivered none = none
delivered (some text) = some (text, false)

abbrev table : FileSystem
table = record {
  Disk = Table;
  open_in = λ name disk. delivered (disk name);
  open_out = λ name disk. some (assign name (some []) disk);
  put = λ name text disk. (true, assign name (append_to (disk name) text) disk);
  close = λ name disk. disk;
  rename = λ old new disk. move old new (disk old) disk;
}

assign-other :
    (name other : Text) (c : Option Text) (disk : Table)
    → other ≢ name
    → assign name c disk other ≡ disk other
assign-other name other c disk ne = rw (text_eq-other other name ne) refl

assign-same : (name : Text) (c : Option Text) (disk : Table) → assign name c disk name ≡ c
assign-same name c disk = rw (text_eq_refl name) refl

move-moved :
    (old new : Text) (c : Option Text) (disk disk' : Table)
    → disk old ≡ c
    → move old new c disk ≡ some disk'
    → disk' new ≡ disk old
move-moved old new none disk disk' held e = absurd (ground arith)
move-moved old new (some c) disk disk' held e =
    let same : assign new (some c) (assign old none disk) ≡ disk' = cc in
    ap (λ (d : Table). d new) (sym same)
    ∙ (assign-same new (some c) (assign old none disk) ∙ sym held)

move-other :
    (old new other : Text) (c : Option Text) (disk disk' : Table)
    → move old new c disk ≡ some disk'
    → other ≢ old
    → other ≢ new
    → disk' other ≡ disk other
move-other old new other none disk disk' e ne ne' = absurd (ground arith)
move-other old new other (some c) disk disk' e ne ne' =
    let same : assign new (some c) (assign old none disk) ≡ disk' = cc in
    ap (λ (d : Table). d other) (sym same)
    ∙ (assign-other new other (some c) (assign old none disk) ne'
        ∙ assign-other old other none disk ne)

assign-opened :
    (name other : Text) (disk disk' : Table)
    → some (assign name (some []) disk) ≡ some disk'
    → other ≢ name
    → disk' other ≡ disk other
assign-opened name other disk disk' e ne =
    let same : assign name (some []) disk ≡ disk' = cc in
    ap (λ (d : Table). d other) (sym same) ∙ assign-other name other (some []) disk ne

abbrev table_opened :
    (held : Option Text) (text : Text) (fails : Bool)
    → delivered held ≡ some (text, fails)
    → (rest : Text) × (held ≡ some (text ++ rest)) × (fails ≡ false → rest ≡ [])
table_opened none text fails e = absurd (ground arith)
table_opened (some t) text fails e =
    let pair : (t, false) ≡ (text, fails) = some_inj.0 e in
    ([], ap some (ap (λ (p : Text × Bool). p.0) pair ∙ sym (append-nil text)), λ f. refl)

abbrev table_keeps : KeepsFiles table
table_keeps = record {
  IsApart = λ a b. a ≢ b;
  read = λ name disk. disk name;
  open_in-read = λ name text fails disk e. table_opened (disk name) text fails e;
  open_out-other = λ name other disk disk' e ne. assign-opened name other disk disk' e ne;
  put-other =
      λ name text other disk ne. assign-other name other (append_to (disk name) text) disk ne;
  close-other = λ name other disk ne. refl;
  rename-moved = λ old new disk disk' e. move-moved old new (disk old) disk disk' refl e;
  rename-other =
      λ old new other disk disk' e ne ne'. move-other old new other (disk old) disk disk' e ne ne';
}

table-write_lines :
    (name c : Text) (lines : List Text) (disk : Table)
    → disk name ≡ some c
    → (write_lines table name lines disk).1 name ≡ some (c ++ unlines lines)
unfolding write_lines
table-write_lines name c [] disk held = held ∙ ap some (sym (append-nil c))
table-write_lines name c (line ∷ lines) disk held =
    let next = assign name (append_to (disk name) (line ++ newline)) disk in
    let now : next name ≡ some (c ++ (line ++ newline)) =
      assign-same name (append_to (disk name) (line ++ newline)) disk
      ∙ ap (λ o. append_to o (line ++ newline)) held in
    let text : (c ++ (line ++ newline)) ++ unlines lines
        ≡ c ++ (line ++ (newline ++ unlines lines)) =
      append_assoc c (line ++ newline) (unlines lines)
      ∙ ap (λ t. c ++ t) (append_assoc line newline (unlines lines)) in
    table-write_lines name (c ++ (line ++ newline)) lines next now ∙ ap some text

table_whole : ClosesWhole table table_keeps
table_whole name lines disk disk' e ok =
    let same : assign name (some []) disk ≡ disk' = cc in
    let empty : disk' name ≡ some [] =
      ap (λ (d : Table). d name) (sym same) ∙ assign-same name (some []) disk in
    table-write_lines name [] lines disk' empty

-- A file `a` of one line of code, and another one.
abbrev code : Text
code = 105 ∷ 10 ∷ []

abbrev file : Text
file = 97 ∷ []

abbrev other_file : Text
other_file = 98 ∷ []

abbrev disk_before : Table
disk_before = assign file (some code) (assign other_file (some []) (λ name. none))

rewrite_file-Rewritten_example :
    Rewritten table table_keeps table_whole plain [] [] 2019 file other_file disk_before
      (rewrite_file table plain [] [] 2019 file disk_before)
rewrite_file-Rewritten_example =
    rewrite_file-Rewritten table table_keeps table_whole plain [] [] 2019 file other_file
      disk_before (λ e. ground arith) (λ e. ground arith) (λ e. ground arith)

abbrev both_options : Variables
both_options = record {
  help = false;
  module_name = some file;
  module_desc = some other_file;
  input_file = some (file ∷ []);
}

main-Exits_example :
    Exits table table_keeps table_whole
      (some both_options)
      other_file
      disk_before
      (main table plain 2019 (some both_options) disk_before)
main-Exits_example =
    main-Exits table table_keeps table_whole plain 2019 (some both_options) other_file disk_before
      ((λ e. ground arith, λ e. ground arith, λ e. ground arith), tt)
