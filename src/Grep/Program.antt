-- ===== src/Grep/Program.antt =====
-- cat+grep/mygrep.c: `main` (lines 37 to 63) and `list_routine` (lines 65 to 114). `regcomp`,
-- `regexec`, `fopen` and `getopt` are not in the repository.
use os_tasks.Base.{
  ℕ, Bool, true, false, ◌==◌, List, [], ◌∷◌, ◌++◌, Option, none, some, before_zero, lines,
  if◌then◌else◌,
}

pub data ErrCode : Type 0 where
  err_neargs err_file_not_found err_memerror err_regex : ErrCode

-- What `regexec` returns: 0, REG_NOMATCH, or an error of its own.
pub data Match : Type 0 where
  matched no_match match_failed : Match

-- `regcomp` gives the function that `regexec` then is, or an error; `fopen` gives the bytes of a file.
-- `errno` is what the calls leave behind the last line.
pub record System : Type 0 where
  pub regcomp : List ℕ → Option (List ℕ → Match)
  pub fopen : List ℕ → Option (List ℕ)
  pub stdin : List ℕ
  pub errno : ℕ

-- The exit with success behind the help text or behind the lines, or `invoke_error` behind what has
-- been printed.
pub data Ended : Type 0 where
  helped : Ended
  printed : List ℕ → Ended
  stopped : List ℕ → ErrCode → Ended

-- Is the result of `regexec` not REG_NOMATCH?
abbrev pub is_kept : Match → Bool
is_kept matched = true
is_kept no_match = false
is_kept match_failed = true

-- The loop over the lines.
unfoldable pub print_matches : (List ℕ → Match) → List (List ℕ) → List ℕ
print_matches regexec [] = []
print_matches regexec (line ∷ rest) = elim (is_kept (regexec (before_zero line))) [
  | true ↦ before_zero line ++ print_matches regexec rest
  | false ↦ print_matches regexec rest
]

-- The bytes that are read: of the standard input without a file.
abbrev pub open_file : System → Option (List ℕ) → Option (List ℕ)
open_file sys none = some sys.stdin
open_file sys (some f) = sys.fopen f

unfoldable pub list_routine : System → List ℕ → Option (List ℕ) → Ended
list_routine sys pattern f = elim (open_file sys f) [
  | none ↦ stopped [] err_file_not_found
  | some content ↦ elim (sys.regcomp pattern) [
    | none ↦ stopped [] err_regex
    | some regexec ↦
        let out = print_matches regexec (lines content) in
        if sys.errno == 0 then printed out else stopped out err_memerror
  ]
]

-- The letters of the options as `getopt` gives them, and `argv` behind the name of the program as
-- `getopt` leaves it, with the options in it.
unfoldable pub main_loop : System → List ℕ → List ℕ → List (List ℕ) → Ended
main_loop sys [] pattern [] = list_routine sys pattern none
main_loop sys [] pattern (f ∷ rest) = list_routine sys pattern (some f)
main_loop sys (option ∷ options) pattern rest =
    if option == b'h' then helped else main_loop sys options pattern rest

unfoldable pub main : System → List ℕ → List (List ℕ) → Ended
main sys options [] = stopped [] err_neargs
main sys options (pattern ∷ rest) = main_loop sys options pattern rest
