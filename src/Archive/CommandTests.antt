-- ===== src/Archive/CommandTests.antt =====
-- Runs of archive/archiver.c one after another.
use os_tasks.Base.{
  Option, sym, ap, ◌∙◌, Bool-cases, inl, inr, if◌then◌else◌, ℕ, ◌-◌, ◌+◌, ◌++◌, some, List, [], ◌∷◌,
  none, ok, ◌≡◌, refl, arith,
}
use os_tasks.Archive.Layout.{image}
use os_tasks.Archive.Commands.{run_all_refines}
use os_tasks.Archive.Disk.{
  Disk, procedures, Command, put, take, delete, show, run_all, Store, perform_all, AllAllowed,
  Implements, TempFile, KeepsTemp, created,
}
use os_tasks.Archive.Extract.{Directory}
use os_tasks.Archive.Input.{plain_name}
use os_tasks.Archive.Header.{same_string}
use os_tasks.Archive.Layout.{same_string_iff}
use os_tasks.Archive.Sizes.{hr_file_size, Shows, hr_file_size-close, rounded, excess_bits, to_float}
use os_tasks.Archive.Stat.{stat_archive}
use os_tasks.Archive.Table.{
  name_width, longest, IsRows, title_text, heading_text, stat_archive-IsRows,
}
use os_tasks.Archive.Tests.{
  two_entries, two_members, two-Represents, mem, desk, source_c, source_c-IsSource,
}

-- A directory as the bytes of each file; the temporary file is called "t".
abbrev Files : Type 0
Files = List ℕ → Option (List ℕ)

abbrev drawer : Directory Files
drawer = record {
  open_create = λ fs name. some (fs, created (fs name));
  chmod = λ fs name mask. fs;
  store = λ fs name bytes n. if same_string n name then some bytes else fs n;
}

abbrev temp_name : List ℕ
temp_name = b't' ∷ []

abbrev temp_file : TempFile Files
temp_file = record {
  temp = λ fs. fs temp_name;
  rename_temp = λ fs n. if same_string n temp_name then none else fs n;
  leads_to_temp = λ name. same_string temp_name name;
}

first_of : Option (Files × List ℕ) → Files → Files
first_of none fs = fs
first_of (some (fs', old)) fs = fs'

renamed_same :
    (fs : Files) (n : List ℕ)
    → fs temp_name ≡ none
    → (if same_string n temp_name then none else fs n) ≡ fs n
renamed_same fs n h = elim (Bool-cases (same_string n temp_name)) [
  | inl e ↦ rw e (sym (ap fs ((same_string_iff n temp_name).0 e) ∙ h))
  | inr e ↦ rw e refl
]

drawer-KeepsTemp : KeepsTemp drawer temp_file
unfolding first_of
drawer-KeepsTemp = record {
  open_keeps = λ fs fs' name old apart opens. ap (λ o. first_of o fs temp_name) (sym opens);
  chmod_keeps = λ fs name mask apart. refl;
  store_keeps = λ fs name bytes apart. rw apart refl;
  rename_none = λ fs h i n. renamed_same fs n h i;
}

abbrev empty_disk : Disk Files
empty_disk = record { archive = none; dir = λ n. none }

abbrev empty_store : Store Files
empty_store = record { members = none; dir = λ n. none }

-- `archiver a -i d/c`, `archiver a -s`, `archiver a -e`, and `archiver a -r c`.
abbrev some_commands : List Command
some_commands = put source_c [] ∷ show ∷ take [] ∷ delete (99 ∷ []) [] ∷ []

some-AllAllowed : AllAllowed drawer temp_file desk some_commands empty_store
unfolding same_string plain_name
some-AllAllowed = (
  ((source_c-IsSource, tt), tt, omega arith),
  ((λ e. cc), (((λ e. cc), (refl, tt)), ((λ e. cc), tt))),
)

run_all_refines_example :
    (w' : Disk Files) × (run_all
        (procedures drawer temp_file desk mem)
        (97 ∷ [])
        some_commands
        empty_disk
      ≡ ok w')
    × Implements temp_file w' (perform_all drawer some_commands empty_store)
run_all_refines_example =
    run_all_refines drawer temp_file drawer-KeepsTemp desk mem refl refl (97 ∷ []) (λ e. cc)
      (λ e. cc) some_commands empty_disk empty_store
      (record { bytes = tt; no_temp = refl; same_dir = refl }) some-AllAllowed

-- 1536 bytes are "1.50КБ", and 800000000 are "0.75ГБ".
one_and_a_half : hr_file_size 1536 ≡ b'1' ∷ b'.' ∷ b'5' ∷ b'0' ∷ 208 ∷ 154 ∷ 208 ∷ 145 ∷ []
unfolding hr_file_size rounded to_float excess_bits
one_and_a_half = refl

gigabytes : hr_file_size 800000000 ≡ b'0' ∷ b'.' ∷ b'7' ∷ b'5' ∷ 208 ∷ 147 ∷ 208 ∷ 145 ∷ []
unfolding hr_file_size rounded to_float excess_bits
gigabytes = refl

hr_file_size-close_example : Shows 123456789 (hr_file_size 123456789)
hr_file_size-close_example = hr_file_size-close 123456789 (omega arith) (omega arith)

stat_archive-IsRows_example :
    (first second : ℕ) × (text : List ℕ) × IsRows first second two_members text
    × (first ≡ name_width 4 6 two_members + 1)
    × (second ≡ longest 6 two_members + 1)
    × (stat_archive mem (97 ∷ []) (some (image two_entries ++ []))
        ≡ ok (title_text (97 ∷ []) ++ heading_text (first + 4 - 8) (second + 6 - 12) ++ text))
stat_archive-IsRows_example =
    stat_archive-IsRows mem (97 ∷ []) (image two_entries ++ []) [] two_members two-Represents refl
