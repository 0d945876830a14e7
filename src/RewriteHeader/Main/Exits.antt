-- ===== src/RewriteHeader/Main/Exits.antt =====
-- How `main` of src/rewrite_header.cxx ends, and what it leaves alone.
use ai_statefultask_testsuit.Base.{
  ℕ, ◌≡◌, refl, sym, subst, ◌∙◌, inl, inr, Bool, true, false, not, ◌&&◌, Option, none, some, List,
  [], ◌∷◌, is_some, arith, All, Bool-cases, Option-cases,
}
use ai_statefultask_testsuit.RewriteHeader.Text.{Text}
use ai_statefultask_testsuit.RewriteHeader.Header.{Patterns}
use ai_statefultask_testsuit.RewriteHeader.Process.{Run, done, undefined, out_of_fuel, ◌>>=◌}
use ai_statefultask_testsuit.RewriteHeader.Main.{
  FileSystem, Variables, Exit, new_name, option_dependency, or_empty, rewrite_files, go_on, exit_of,
  go_on_with, main,
}
use ai_statefultask_testsuit.RewriteHeader.Main.Files.{
  KeepsFiles, ClosesWhole, Rewritten, rewrite_file-Rewritten,
}

abbrev pub is_logic_error : Exit → Bool
is_logic_error Exit.logic_error = true
is_logic_error (Exit.returned code) = false

abbrev pub one_of : Bool → Bool → Bool
one_of true b = not b
one_of false b = b

abbrev pub or_none : Option (List Text) → List Text
or_none none = []
or_none (some names) = names

abbrev pub names_of : Option Variables → List Text
names_of none = []
names_of (some vm) = or_none vm.input_file

-- Whether there is no `help`, and only one of the two options; or the library has thrown.
abbrev pub is_refused : Option Variables → Bool
is_refused none = true
is_refused (some vm) = not vm.help && one_of (is_some vm.module_name) (is_some vm.module_desc)

refused-one_of :
    (name desc : Option Text)
    → not (option_dependency name desc && option_dependency desc name)
      ≡ one_of (is_some name) (is_some desc)
refused-one_of none none = refl
refused-one_of none (some d) = refl
refused-one_of (some n) none = refl
refused-one_of (some n) (some d) = refl

module _ (files : FileSystem) (K : KeepsFiles files) (whole : ClosesWhole files K) where
  open files use {Disk}
  open K use {IsApart, read}

  -- Not a file that the program was asked to rewrite, nor the `.new` of one, which is another file.
  abbrev pub IsOther : Text → List Text → Type 0
  IsOther other names =
      All
        (λ name. IsApart other name × IsApart other (new_name name) × IsApart name (new_name name))
        names

  abbrev LeavesAlone : Text → Disk → Run (Bool × Disk) → Type 0
  LeavesAlone other disk out_of_fuel = ⊥
  LeavesAlone other disk undefined = Unit {0}
  LeavesAlone other disk (done (ok, disk')) = read other disk' ≡ read other disk

  -- How a run ends: within the fuel; with a `std::logic_error` exactly if the options are refused;
  -- and with the other file as it was.
  abbrev pub Exits : Option Variables → Text → Disk → Run (Exit × Disk) → Type 0
  Exits vm other disk out_of_fuel = ⊥
  Exits vm other disk undefined = is_refused vm ≡ false
  Exits vm other disk (done (exit, disk')) =
      (is_logic_error exit ≡ is_refused vm) × (read other disk' ≡ read other disk)

  carry :
      (other : Text) (disk disk' : Disk) (r : Run (Bool × Disk))
      → read other disk' ≡ read other disk
      → LeavesAlone other disk' r
      → LeavesAlone other disk r
  carry other disk disk' out_of_fuel e h = h
  carry other disk disk' undefined e h = tt
  carry other disk disk' (done (ok, disk'')) e h = h ∙ e

  module _ (patterns : Patterns) (module_name module_desc : Text) (current_year : ℕ) where
    go_on-LeavesAlone :
        (other : Text) (disk : Disk) (r : Run (Bool × Disk)) (again : Disk → Run (Bool × Disk))
        → LeavesAlone other disk r
        → ((disk' : Disk) → LeavesAlone other disk' (again disk'))
        → LeavesAlone other disk
            (r >>= go_on files patterns module_name module_desc current_year again)
    go_on-LeavesAlone other disk out_of_fuel again h next = h
    go_on-LeavesAlone other disk undefined again h next = tt
    go_on-LeavesAlone other disk (done (false, disk')) again h next = h
    go_on-LeavesAlone other disk (done (true, disk')) again h next =
        carry other disk disk' (again disk') h (next disk')

    rewrite_file-LeavesAlone :
        (name other : Text) (disk : Disk) (r : Run (Bool × Disk))
        → Rewritten files K whole patterns module_name module_desc current_year name other disk r
        → LeavesAlone other disk r
    rewrite_file-LeavesAlone name other disk out_of_fuel h = h
    rewrite_file-LeavesAlone name other disk undefined h = tt
    rewrite_file-LeavesAlone name other disk (done (ok, disk')) h = h.1

    rewrite_files-LeavesAlone :
        (other : Text) (names : List Text) (disk : Disk)
        → IsOther other names
        → LeavesAlone other disk
            (rewrite_files files patterns module_name module_desc current_year names disk)
    unfolding rewrite_files
    rewrite_files-LeavesAlone other [] disk h = refl
    rewrite_files-LeavesAlone other (name ∷ names) disk h =
        go_on-LeavesAlone other disk _
          (rewrite_files files patterns module_name module_desc current_year names)
          (rewrite_file-LeavesAlone name other disk _ (
            rewrite_file-Rewritten files K whole patterns module_name module_desc current_year name
              other disk h.0.0 h.0.1 h.0.2))
          (λ disk'. rewrite_files-LeavesAlone other names disk' h.1)

  exit_of-Exits :
      (vm : Variables) (other : Text) (disk : Disk) (r : Run (Bool × Disk))
      → one_of (is_some vm.module_name) (is_some vm.module_desc) ≡ false
      → LeavesAlone other disk r
      → Exits (some vm) other disk (r >>= exit_of files)
  exit_of-Exits vm other disk out_of_fuel e h = h
  exit_of-Exits vm other disk undefined e h = ground arith
  exit_of-Exits vm other disk (done (false, disk')) e h = (ground arith, h)
  exit_of-Exits vm other disk (done (true, disk')) e h = (ground arith, h)

  go_on_with-Exits :
      (patterns : Patterns) (current_year : ℕ) (vm : Variables) (other : Text) (disk : Disk)
      → IsOther other (or_none vm.input_file)
      → Exits (some vm) other disk (go_on_with files patterns current_year vm disk)
  unfolding go_on_with
  go_on_with-Exits patterns current_year vm other disk h = elim (Bool-cases vm.help) [
    | inl help ↦
        let e : go_on_with files patterns current_year vm disk ≡ done (Exit.returned 0, disk) =
          rw (go_on_with, help) refl in
        subst (Exits (some vm) other disk) (sym e) (ground arith, refl)
    | inr no_help ↦
        let test = refused-one_of vm.module_name vm.module_desc in
        elim (Bool-cases (one_of (is_some vm.module_name) (is_some vm.module_desc))) [
          | inl refused ↦
              let e : go_on_with files patterns current_year vm disk
                  ≡ done (Exit.logic_error, disk) =
                rw (go_on_with, no_help, test, refused) refl in
              subst (Exits (some vm) other disk) (sym e) (ground arith, refl)
          | inr accepted ↦ elim (Option-cases vm.input_file) [
            | inl none_given ↦
                let e : go_on_with files patterns current_year vm disk
                    ≡ done (Exit.returned 1, disk) =
                  rw (go_on_with, no_help, test, accepted, none_given) refl in
                subst (Exits (some vm) other disk) (sym e) (ground arith, refl)
            | inr (names, given) ↦
                let loop =
                  rewrite_files files patterns (or_empty vm.module_name) (or_empty vm.module_desc)
                    current_year names disk in
                let e : go_on_with files patterns current_year vm disk ≡ loop >>= exit_of files =
                  rw (go_on_with, no_help, test, accepted, given) refl in
                subst (Exits (some vm) other disk) (sym e) (
                  exit_of-Exits vm other disk loop accepted (
                    rewrite_files-LeavesAlone patterns (or_empty vm.module_name)
                      (or_empty vm.module_desc) current_year other names disk
                      (subst (λ o. IsOther other (or_none o)) given h)))
          ]
        ]
  ]

  -- On a file system that behaves as documented and loses no write that was reported as done when a
  -- stream is closed: `main` ends with a `std::logic_error` exactly if the library throws in
  -- `po::store`, or `help` is not asked for and just one of the options for name and description is
  -- given; it can be undefined only if neither is so; and however else it ends, a file that no input
  -- file and no `.new` of one leads to is as it was, if no input file is the same as its `.new`.
  pub main-Exits :
      (patterns : Patterns) (current_year : ℕ) (vm : Option Variables) (other : Text) (disk : Disk)
      → IsOther other (names_of vm)
      → Exits vm other disk (main files patterns current_year vm disk)
  unfolding main
  main-Exits patterns current_year none other disk h = (refl, refl)
  main-Exits patterns current_year (some vm) other disk h =
      go_on_with-Exits patterns current_year vm other disk h
