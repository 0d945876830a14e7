-- ===== src/RewriteHeader/Main/Files.antt =====
-- What the loop over the files of `main` of src/rewrite_header.cxx does to a file.
use ai_statefultask_testsuit.Base.{
  ℕ, ◌≡◌, ◌≢◌, refl, subst, ◌∙◌, ◌⊎◌, inl, inr, Bool, true, false, Option, some, List, [], ◌∷◌,
  ◌++◌, Bool-cases, Option-cases,
}
use ai_statefultask_testsuit.RewriteHeader.Text.{Text}
use ai_statefultask_testsuit.RewriteHeader.Header.{Patterns, newline}
use ai_statefultask_testsuit.RewriteHeader.Process.{
  Run, done, undefined, out_of_fuel, ◌>>=◌, getlines_from, process,
}
use ai_statefultask_testsuit.RewriteHeader.Process.Outcome.{Written, process-Written}
use ai_statefultask_testsuit.RewriteHeader.Main.{
  FileSystem, new_name, write_lines, replace, rewrite_file, store_result,
}

-- The text of a file with these lines.
abbrev pub unlines : List Text → Text
unlines [] = []
unlines (line ∷ lines) = line ++ (newline ++ unlines lines)

-- Documented behaviour of a file system, where `read` is what a file holds and `IsApart` says of two
-- names that they never lead to the same file: a stream delivers the file from its beginning, and all
-- of it if no read fails; each operation leaves the other files alone, and `rename` moves a file over
-- another, or fails and changes nothing.
pub record KeepsFiles (files : FileSystem) : Type 1 where
  pub IsApart : Text → Text → Type 0
  pub read : Text → files.Disk → Option Text
  pub open_in-read :
      (name text : Text) (fails : Bool) (disk : files.Disk)
      → files.open_in name disk ≡ some (text, fails)
      → (rest : Text) × (read name disk ≡ some (text ++ rest)) × (fails ≡ false → rest ≡ [])
  pub open_out-other :
      (name other : Text) (disk disk' : files.Disk)
      → files.open_out name disk ≡ some disk'
      → IsApart other name
      → read other disk' ≡ read other disk
  pub put-other :
      (name text other : Text) (disk : files.Disk)
      → IsApart other name
      → read other (files.put name text disk).1 ≡ read other disk
  pub close-other :
      (name other : Text) (disk : files.Disk)
      → IsApart other name
      → read other (files.close name disk) ≡ read other disk
  pub rename-moved :
      (old new : Text) (disk disk' : files.Disk)
      → files.rename old new disk ≡ some disk'
      → read new disk' ≡ read old disk
  pub rename-other :
      (old new other : Text) (disk disk' : files.Disk)
      → files.rename old new disk ≡ some disk'
      → IsApart other old
      → IsApart other new
      → read other disk' ≡ read other disk

-- No write that was reported as done is lost in the buffer: behind `close` the file holds what was
-- written to it.
abbrev pub ClosesWhole : (files : FileSystem) → KeepsFiles files → Type 0
ClosesWhole files K =
    (name : Text) (lines : List Text) (disk disk' : files.Disk)
    → files.open_out name disk ≡ some disk'
    → (write_lines files name lines disk').0 ≡ true
    → K.read name (files.close name (write_lines files name lines disk').1) ≡ some (unlines lines)

module _ (files : FileSystem) (K : KeepsFiles files) where
  open files use {Disk}
  open K use {IsApart, read}

  write_lines-other :
      (name other : Text) (lines : List Text) (disk : Disk)
      → IsApart other name
      → read other (write_lines files name lines disk).1 ≡ read other disk
  unfolding write_lines
  write_lines-other name other [] disk ne = refl
  write_lines-other name other (line ∷ lines) disk ne =
      let kept = K.put-other name (line ++ newline) other disk ne in
      elim (Bool-cases (files.put name (line ++ newline) disk).0) [
        | inl ok ↦ rw (write_lines, ok) (write_lines-other name other lines _ ne ∙ kept)
        | inr fails ↦ rw (write_lines, fails) kept
      ]

  -- The text that the program reads from a file: all of it, or what stands in front of a read that
  -- fails.
  abbrev pub Reads : Text → Disk → Text → Type 0
  Reads name disk text =
      (fails : Bool) × (rest : Text) × (files.open_in name disk ≡ some (text, fails))
      × (read name disk ≡ some (text ++ rest))
      × (fails ≡ false → rest ≡ [])

  -- What becomes of the disk where the lines of a file are to be replaced.
  abbrev Replaced : Text → List Text → Disk → Bool × Disk → Type 0
  Replaced name lines disk (ok, disk') =
      ((read name disk' ≡ read name disk)
        ⊎ ((ok ≡ true) × (read name disk' ≡ some (unlines lines))))
      × ((other : Text)
          → IsApart other name
          → IsApart other (new_name name)
          → read other disk' ≡ read other disk)

  module _ (whole : ClosesWhole files K) where
    replace-Replaced :
        (name : Text) (lines : List Text) (disk : Disk)
        → IsApart name (new_name name)
        → Replaced name lines disk (replace files name lines disk)
    unfolding replace
    replace-Replaced name lines disk self =
        elim (Option-cases (files.open_out (new_name name) disk)) [
          | inl e ↦ rw (replace, e) (inl refl, λ other ne ne'. refl)
          | inr (disk₁, e) ↦
              let disk₂ = (write_lines files (new_name name) lines disk₁).1 in
              let closed = files.close (new_name name) disk₂ in
              let kept : (other : Text)
                  → IsApart other (new_name name)
                  → read other closed ≡ read other disk =
                λ other ne.
                  K.close-other (new_name name) other disk₂ ne
                  ∙ (write_lines-other (new_name name) other lines disk₁ ne
                      ∙ K.open_out-other (new_name name) other disk disk₁ e ne) in
              elim (Bool-cases (write_lines files (new_name name) lines disk₁).0) [
                | inr fails ↦
                    rw (replace, e, fails) (inl (kept name self), λ other ne ne'. kept other ne')
                | inl ok ↦ elim (Option-cases (files.rename (new_name name) name closed)) [
                  | inl fails ↦
                      rw (replace, e, ok, fails)
                        (inl (kept name self), λ other ne ne'. kept other ne')
                  | inr (disk₃, moved) ↦
                      rw (replace, e, ok, moved)
                        (
                          inr (
                            refl,
                            K.rename-moved (new_name name) name closed disk₃ moved
                                ∙ whole (new_name name) lines disk disk₁ e ok,
                          ),
                          λ other ne ne'.
                              K.rename-other (new_name name) name other closed disk₃ moved ne' ne
                              ∙ kept other ne',
                        )
                ]
              ]
        ]

    module _ (patterns : Patterns) (module_name module_desc : Text) (current_year : ℕ) where
      -- The new lines of a file, or what else `process` comes to.
      abbrev processed : Text → Run (List Text × Bool)
      processed contents =
          process patterns module_name module_desc current_year (getlines_from [] contents)

      -- What the body of the loop does to the file `name` and to another one.
      abbrev pub Rewritten : Text → Text → Disk → Run (Bool × Disk) → Type 0
      Rewritten name other disk out_of_fuel = ⊥
      Rewritten name other disk undefined =
          (contents : Text) × Reads name disk contents × (processed contents ≡ undefined)
      Rewritten name other disk (done (ok, disk')) =
          ((read name disk' ≡ read name disk)
            ⊎ ((contents : Text) × (lines : List Text) × (ok ≡ true)
                × Reads name disk contents
                × (processed contents ≡ done (lines, true))
                × (read name disk' ≡ some (unlines lines))))
          × (read other disk' ≡ read other disk)

      store_result-Rewritten :
          (name other contents : Text) (disk : Disk) (r : Run (List Text × Bool))
          → IsApart other name
          → IsApart other (new_name name)
          → IsApart name (new_name name)
          → Reads name disk contents
          → processed contents ≡ r
          → r ≢ out_of_fuel
          → Rewritten name other disk
              (r >>= store_result files patterns module_name module_desc current_year name disk)
      store_result-Rewritten name other contents disk out_of_fuel ne ne' apart held e fuel =
          absurd (fuel refl)
      store_result-Rewritten name other contents disk undefined ne ne' apart held e fuel =
          (contents, held, e)
      store_result-Rewritten name other contents disk (done (lines, false)) ne ne' apart held e
            fuel =
          (inl refl, refl)
      store_result-Rewritten name other contents disk (done (lines, true)) ne ne' apart held e
            fuel =
          let (self, others) = replace-Replaced name lines disk apart in
          elim self [
            | inl same ↦ (inl same, others other ne ne')
            | inr (ok, new) ↦ (inr (contents, lines, ok, held, e, new), others other ne ne')
          ]

      -- On a file system that behaves as documented and loses no write that was reported as done
      -- when a stream is closed, for a name that does not lead to the same file as its `.new`: the
      -- body of the loop over the files leaves in the file either what it held before, or exactly the
      -- new lines that `process` makes of the text that was read, and then reports no failure. That
      -- text is all that the file held, unless a read failed behind `open`: then it is a beginning of
      -- it, and the rest is lost. Another file, whose name leads to neither of the two, is as it was.
      -- Where the body is undefined, `process` is, on the text that was read.
      pub rewrite_file-Rewritten :
          (name other : Text) (disk : Disk)
          → IsApart other name
          → IsApart other (new_name name)
          → IsApart name (new_name name)
          → Rewritten name other disk
              (rewrite_file files patterns module_name module_desc current_year name disk)
      unfolding rewrite_file
      rewrite_file-Rewritten name other disk ne ne' apart =
          elim (Option-cases (files.open_in name disk)) [
            | inl e ↦ rw (rewrite_file, e) (inl refl, refl)
            | inr ((contents, fails), e) ↦
                let (rest, held, whole_read) = K.open_in-read name contents fails disk e in
                rw (rewrite_file, e)
                  (store_result-Rewritten name other contents disk (processed contents) ne ne' apart
                    (fails, rest, e, held, whole_read) refl
                    (λ fuel.
                      subst (Written patterns current_year (getlines_from [] contents)) fuel (
                        process-Written patterns module_name module_desc current_year
                          (getlines_from [] contents))))
          ]
