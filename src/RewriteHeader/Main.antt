-- ===== src/RewriteHeader/Main.antt =====
-- The function `main` of src/rewrite_header.cxx: the options, and the loop over the files. The file
-- system, and what the library makes of the command line, are parameters.
pub mod Files
pub mod Exits
use ai_statefultask_testsuit.Base.{
  ℕ, Bool, true, false, not, ◌&&◌, if◌then◌else◌, Option, none, some, List, [], ◌∷◌, ◌++◌, is_some,
}
use ai_statefultask_testsuit.RewriteHeader.Text.{Text, codes}
use ai_statefultask_testsuit.RewriteHeader.Header.{Patterns, newline}
use ai_statefultask_testsuit.RewriteHeader.Process.{
  Run, done, undefined, out_of_fuel, ◌>>=◌, getlines_from, process,
}

-- What the program uses of streams and of `std::filesystem`. A name comes first. `open_in` gives the
-- text that `std::getline` delivers from the stream, and whether a read fails behind it, which the
-- program does not ask for; the line that such a read stands in is not delivered. What is written
-- may stay in a buffer until the stream is closed by its destructor, which reports no failure.
pub record FileSystem : Type 1 where
  pub Disk : Type 0
  pub open_in : Text → Disk → Option (Text × Bool)
  pub open_out : Text → Disk → Option Disk
  pub put : Text → Text → Disk → Bool × Disk
  pub close : Text → Disk → Disk
  pub rename : Text → Text → Disk → Option Disk

-- What `po::store` finds on the command line. No option has a default value.
pub record Variables : Type 0 where
  pub help : Bool
  pub module_name : Option Text
  pub module_desc : Option Text
  pub input_file : Option (List Text)

-- `main` returns a number, or a `std::logic_error` leaves it.
pub data Exit : Type 0 where
  returned : ℕ → Exit
  logic_error : Exit

-- Whether `option_dependency` lets the program go on.
abbrev pub option_dependency : Option Text → Option Text → Bool
option_dependency for_what required = not (is_some for_what && not (is_some required))

-- An option that is not given leaves the empty string in `options`.
abbrev pub or_empty : Option Text → Text
or_empty none = []
or_empty (some value) = value

-- `output_file_name`
abbrev pub new_name : Text → Text
new_name name = name ++ codes ".new"

module _ (files : FileSystem) where
  open files use {Disk, open_in, open_out, put, close}

  -- The lines, until a `write` fails.
  unfoldable pub write_lines : Text → List Text → Disk → Bool × Disk
  write_lines name [] disk = (true, disk)
  write_lines name (line ∷ lines) disk =
      let (ok, disk') = put name (line ++ newline) disk in
      elim ok [ false ↦ (false, disk') | true ↦ write_lines name lines disk' ]

  -- The branch for lines that differ. `false` is a `std::system_error`; the stream is closed in
  -- that case, too.
  unfoldable pub replace : Text → List Text → Disk → Bool × Disk
  unfolding write_lines
  replace name lines disk = elim (open_out (new_name name) disk) [
    | none ↦ (false, disk)
    | some disk₁ ↦
        let (ok, disk₂) = write_lines (new_name name) lines disk₁ in
        let closed = close (new_name name) disk₂ in
        elim ok [
          | false ↦ (false, closed)
          | true ↦ elim (files.rename (new_name name) name closed) [
            | none ↦ (false, closed)
            | some disk₃ ↦ (true, disk₃)
          ]
        ]
  ]

  module _ (patterns : Patterns) (module_name module_desc : Text) (current_year : ℕ) where
    abbrev pub store_result : Text → Disk → List Text × Bool → Run (Bool × Disk)
    store_result name disk (lines, false) = done (true, disk)
    store_result name disk (lines, true) = done (replace name lines disk)

    -- The body of the loop over the files.
    unfoldable pub rewrite_file : Text → Disk → Run (Bool × Disk)
    unfolding replace
    rewrite_file name disk = elim (open_in name disk) [
      | none ↦ done (false, disk)
      | some (contents, fails) ↦
          process patterns module_name module_desc current_year (getlines_from [] contents)
          >>= store_result name disk
    ]

    abbrev pub go_on : (Disk → Run (Bool × Disk)) → Bool × Disk → Run (Bool × Disk)
    go_on again (false, disk) = done (false, disk)
    go_on again (true, disk) = again disk

    unfoldable pub rewrite_files : List Text → Disk → Run (Bool × Disk)
    unfolding rewrite_file
    rewrite_files [] disk = done (true, disk)
    rewrite_files (name ∷ names) disk = rewrite_file name disk >>= go_on (rewrite_files names)

  abbrev pub exit_of : Bool × Disk → Run (Exit × Disk)
  exit_of (true, disk) = done (Exit.returned 0, disk)
  exit_of (false, disk) = done (Exit.returned 1, disk)

  -- `main` behind `po::store`.
  unfoldable pub go_on_with : Patterns → ℕ → Variables → Disk → Run (Exit × Disk)
  unfolding rewrite_files
  go_on_with patterns current_year vm disk =
      if vm.help
      then done (Exit.returned 0, disk)
      else if not (
          option_dependency vm.module_name vm.module_desc
          && option_dependency vm.module_desc vm.module_name)
      then done (Exit.logic_error, disk)
      else elim vm.input_file [
        | none ↦ done (Exit.returned 1, disk)
        | some names ↦
            rewrite_files patterns (or_empty vm.module_name) (or_empty vm.module_desc) current_year
              names disk
            >>= exit_of
      ]

  -- The library may throw in `po::store`, as where an option is given twice; its exceptions are
  -- `std::logic_error`s, too.
  unfoldable pub main : Patterns → ℕ → Option Variables → Disk → Run (Exit × Disk)
  unfolding go_on_with
  main patterns current_year none disk = done (Exit.logic_error, disk)
  main patterns current_year (some vm) disk = go_on_with patterns current_year vm disk
