-- ===== src/Archive/Layout.antt =====
-- The archives of archive/archiver.c that are laid out as the program lays them out, and the
-- members that such an archive stands for.
use os_tasks.Base.{
  ℕ, ◌+◌, ◌*◌, ◌^◌, ◌<◌, Bool, true, false, ◌||◌, if◌then◌else◌, List, [], ◌∷◌, ◌++◌, map, length,
  ◌≡◌, ◌↔◌, refl, arith,
}
use os_tasks.Archive.Format.{FileInfo, info_size, c_string}
use os_tasks.Archive.Header.{same_string}
use os_tasks.Archive.Reading.{AllEntries, headers, header_ending}

-- A struct of the header with the bytes of its file.
pub record Entry : Type 0 where
  pub info : FileInfo
  pub bytes : List ℕ

abbrev pub all_infos : List Entry → List FileInfo
all_infos [] = []
all_infos (e ∷ es) = e.info ∷ all_infos es

abbrev pub all_bytes : List Entry → List ℕ
all_bytes [] = []
all_bytes (e ∷ es) = e.bytes ++ all_bytes es

abbrev pub image : List Entry → List ℕ
image es = headers (all_infos es) ++ (header_ending ++ all_bytes es)

-- From `at` on the files lie one behind another, as the structs say.
abbrev pub LaidFrom : ℕ → List Entry → Type 0
LaidFrom at [] = Unit
LaidFrom at (e ∷ es) =
    (e.info.filesize ≡ length e.bytes) × (e.info.offset ≡ at) × LaidFrom (at + length e.bytes) es

-- Where the bytes of the first file stand.
abbrev pub data_start : List Entry → ℕ
data_start es = info_size * length es + 4

pub record IsLaid (es : List Entry) : Type 0 where
  pub entries : AllEntries (all_infos es)
  pub laid : LaidFrom (data_start es) es

-- What the archive is for: names, permissions and contents, in their order.
pub record Member : Type 0 where
  pub name : List ℕ
  pub mask : ℕ
  pub bytes : List ℕ

abbrev pub member : Entry → Member
member e = record { name = c_string e.info.filename; mask = e.info.mask; bytes = e.bytes }

-- The bytes of the archive stand for these members; `rest` is what follows the last of them.
pub record Represents (archive : List ℕ) (members : List Member) (rest : List ℕ) : Type 0 where
  pub es : List Entry
  pub shape : archive ≡ image es ++ rest
  pub laid : IsLaid es
  pub fits : length archive < 2 ^ 63
  pub same : map member es ≡ members

-- `name` is one of the names.
abbrev pub name_in : List ℕ → List (List ℕ) → Bool
name_in name [] = false
name_in name (n ∷ ns) = same_string name n || name_in name ns

-- The members without the named ones, or with those alone.
abbrev pub without : List (List ℕ) → List Member → List Member
without names [] = []
without names (m ∷ ms) = if name_in m.name names then without names ms else m ∷ without names ms

abbrev pub among : List (List ℕ) → List Member → List Member
among names [] = []
among names (m ∷ ms) = if name_in m.name names then m ∷ among names ms else among names ms

pub same_string_iff : (s t : List ℕ) → (same_string s t ≡ true) ↔ (s ≡ t)
unfolding same_string
same_string_iff [] [] = (λ h. refl, λ h. refl)
same_string_iff [] (y ∷ t) = (λ h. cc, λ h. cc)
same_string_iff (x ∷ s) [] = (λ h. cc, λ h. cc)
same_string_iff (x ∷ s) (y ∷ t) =
    let ih = same_string_iff s t in (λ h. ground (arith, ih.0), λ h. ground (arith, ih.1))
