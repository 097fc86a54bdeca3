-- ===== src/Archive/Program.antt =====
-- archive/archiver.c: `parse_args` (lines 308 to 346) and `main` (lines 274 to 306).
use os_tasks.Base.{
  ℕ, Bool, false, ◌||◌, List, [], ◌∷◌, if◌then◌else◌, Outcome, failure, ◌≡◌, ◌≢◌, refl, Bool-cases,
  inl, inr,
}
use os_tasks.Archive.Header.{same_string}
use os_tasks.Archive.Layout.{same_string_iff}

pub data ProgMode : Type 0 where
  mode_input mode_remove mode_extract mode_stat mode_help mode_undef : ProgMode

-- "-h", "--help" and so on.
abbrev pub flag_h : List ℕ
flag_h = b'-' ∷ b'h' ∷ []

abbrev pub flag_help : List ℕ
flag_help = b'-' ∷ b'-' ∷ b'h' ∷ b'e' ∷ b'l' ∷ b'p' ∷ []

abbrev pub flag_i : List ℕ
flag_i = b'-' ∷ b'i' ∷ []

abbrev pub flag_input : List ℕ
flag_input = b'-' ∷ b'-' ∷ b'i' ∷ b'n' ∷ b'p' ∷ b'u' ∷ b't' ∷ []

abbrev pub flag_e : List ℕ
flag_e = b'-' ∷ b'e' ∷ []

abbrev pub flag_extract : List ℕ
flag_extract = b'-' ∷ b'-' ∷ b'e' ∷ b'x' ∷ b't' ∷ b'r' ∷ b'a' ∷ b'c' ∷ b't' ∷ []

abbrev pub flag_r : List ℕ
flag_r = b'-' ∷ b'r' ∷ []

abbrev pub flag_remove : List ℕ
flag_remove = b'-' ∷ b'-' ∷ b'r' ∷ b'e' ∷ b'm' ∷ b'o' ∷ b'v' ∷ b'e' ∷ []

abbrev pub flag_s : List ℕ
flag_s = b'-' ∷ b's' ∷ []

abbrev pub flag_stat : List ℕ
flag_stat = b'-' ∷ b'-' ∷ b's' ∷ b't' ∷ b'a' ∷ b't' ∷ []

abbrev pub either : List ℕ → List ℕ → List ℕ → Bool
either s short long = same_string s short || same_string s long

-- The arguments are those behind the program's name.
unfoldable pub parse_args : List (List ℕ) → ProgMode
parse_args [] = mode_undef
parse_args (first ∷ []) = if either first flag_h flag_help then mode_help else mode_undef
parse_args (first ∷ second ∷ rest) =
    if either first flag_h flag_help
    then mode_help
    else if either second flag_i flag_input
    then mode_input
    else if either second flag_e flag_extract
    then mode_extract
    else if either second flag_r flag_remove
    then mode_remove
    else if either second flag_s flag_stat
    then mode_stat
    else mode_undef

-- The procedures for the flags, each with the archive and the arguments behind the flag.
pub record Procedures (W : Type 0) : Type 0 where
  pub print_help : W → Outcome W
  pub input_files : List ℕ → List (List ℕ) → W → Outcome W
  pub stat_archive : List ℕ → W → Outcome W
  pub extract_files : List ℕ → List (List ℕ) → W → Outcome W
  pub remove_files : List ℕ → List (List ℕ) → W → Outcome W

-- `argv[1]` and `argv + 3`.
abbrev pub archive_of : List (List ℕ) → List ℕ
archive_of [] = []
archive_of (first ∷ rest) = first

abbrev pub files_of : List (List ℕ) → List (List ℕ)
files_of [] = []
files_of (first ∷ []) = []
files_of (first ∷ second ∷ rest) = rest

module _ {W : Type 0} (p : Procedures W) where
  -- `print_err` exits with failure.
  unfoldable pub main : List (List ℕ) → W → Outcome W
  main args w = elim (parse_args args) [
    | mode_help ↦ p.print_help w
    | mode_input ↦ p.input_files (archive_of args) (files_of args) w
    | mode_stat ↦ p.stat_archive (archive_of args) w
    | mode_extract ↦ p.extract_files (archive_of args) (files_of args) w
    | mode_remove ↦ p.remove_files (archive_of args) (files_of args) w
    | mode_undef ↦ failure
  ]

-- "--insert"
abbrev pub flag_insert : List ℕ
flag_insert = b'-' ∷ b'-' ∷ b'i' ∷ b'n' ∷ b's' ∷ b'e' ∷ b'r' ∷ b't' ∷ []

pub unequal : (s t : List ℕ) → s ≢ t → same_string s t ≡ false
unequal s t h = elim (Bool-cases (same_string s t)) [
  | inl e ↦ absurd (h ((same_string_iff s t).0 e))
  | inr e ↦ e
]

no_flag :
    (either flag_insert flag_i flag_input ≡ false)
    × (either flag_insert flag_e flag_extract ≡ false)
    × (either flag_insert flag_r flag_remove ≡ false)
    × (either flag_insert flag_s flag_stat ≡ false)
unfolding same_string
no_flag = (refl, refl, refl, refl)

-- The flag that the help text names for the insertion of files, "--insert", is refused: the run ends
-- with failure, whatever the archive and the files are, unless the archive is named as the help flag.
pub main-insert_flag :
    {W : Type 0} (p : Procedures W) (archive : List ℕ) (files : List (List ℕ)) (w : W)
    → archive ≢ flag_h
    → archive ≢ flag_help
    → main p (archive ∷ flag_insert ∷ files) w ≡ failure
unfolding main parse_args
main-insert_flag p archive files w h h' = rw (
  unequal archive flag_h h,
  main,
  parse_args,
  unequal archive flag_help h',
  no_flag.0,
  no_flag.1,
  no_flag.2,
  no_flag.3,
)
