-- ===== src/Chmod/Program.antt =====
-- chmod/mychmod.c, `main` (lines 102 to 139). The file system is a parameter: `stat` gives the mode
-- of a path, `chmod` sets it, and `none` is the -1 of either call.
use os_tasks.Base.{
  ℕ, List, [], ◌∷◌, Option, none, some, if◌then◌else◌, Outcome, ok, failure, fault, out_of_fuel,
  ◌>>=◌,
}
use os_tasks.Chmod.State.{Ptr, Globals, initial_globals}
use os_tasks.Chmod.Parser.{parse_mode_str}
use os_tasks.Chmod.Apply.{apply_modes}

-- A string, without the 0 at its end.
abbrev pub CString : Type 0
CString = List ℕ

pub data Exit : Type 0 where
  exit_success exit_failure : Exit

pub record FileModes (F : Type 0) : Type 0 where
  pub stat : F → CString → Option ℕ
  pub chmod : F → CString → ℕ → Option F

module _ {F : Type 0} (os : FileModes F) (leftover : ℕ → Ptr) where
  -- `initial_mode` for a file whose mode is `st_mode`: the globals before the call of `chmod`.
  unfoldable pub new_mode : ℕ → ℕ → Globals → Outcome Globals
  new_mode mask st_mode g =
      let g' = record g { initial_mode = st_mode } in
      if g'.is_number then ok (record g' { initial_mode = mask }) else apply_modes g'

  -- The `for` loop over the files. The files before an error keep their new modes.
  unfoldable pub files_loop : ℕ → List CString → Globals → F → Outcome (Exit × F)
  files_loop mask [] g fs = ok (exit_success, fs)
  files_loop mask (path ∷ paths) g fs = elim (os.stat fs path) [
    | none ↦ ok (exit_failure, fs)
    | some st_mode ↦ new_mode mask st_mode g >>= λ g'. elim (os.chmod fs path g'.initial_mode) [
      | none ↦ ok (exit_failure, fs)
      | some fs' ↦ files_loop mask paths g' fs'
    ]
  ]

  -- The arguments are those behind the program's name.
  unfoldable pub main : List CString → F → Outcome (Exit × F)
  main [] fs = ok (exit_failure, fs)
  main (mode ∷ []) fs = ok (exit_failure, fs)
  main (mode ∷ path ∷ paths) fs = elim (parse_mode_str leftover mode initial_globals) [
    | ok (g, mask) ↦ files_loop mask (path ∷ paths) g fs
    | failure ↦ ok (exit_failure, fs)
    | fault ↦ fault
    | out_of_fuel ↦ out_of_fuel
  ]
