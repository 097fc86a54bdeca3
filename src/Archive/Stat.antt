-- ===== src/Archive/Stat.antt =====
-- archive/archiver.c, `stat_archive` (lines 635 to 666): what it prints of an archive.
use os_tasks.Base.{
  ℕ, ◌+◌, ◌-◌, false, ltb, if◌then◌else◌, List, [], ◌∷◌, ◌++◌, length, replicate, Option, none,
  some, Outcome, ok, failure, ◌>>=◌,
}
use os_tasks.Archive.Format.{c_string}
use os_tasks.Archive.Descriptor.{opened}
use os_tasks.Archive.Header.{FiList, eof_node, node, init_fi_list, read_header}
use os_tasks.Archive.Remove.{Leftovers}
use os_tasks.Archive.Sizes.{hr_file_size}

-- The widths of the two columns. They are small, so that the 32 bits of an `unsigned int` do not wrap.
pub record Widths : Type 0 where
  pub name_align : ℕ
  pub size_align : ℕ

-- The loop. The width of the names becomes that of the sizes where a name is shorter than the one before.
unfoldable pub align_columns : FiList → Widths → Widths
align_columns (eof_node d) w = w
align_columns (node d r) w =
    let size = length (hr_file_size d.filesize) in
    let name = length (c_string d.filename) in
    let size_align = if ltb size w.size_align then w.size_align else size in
    align_columns r (record {
      name_align = if ltb name w.name_align then size_align else name;
      size_align = size_align;
    })

-- `%-*s`
abbrev pub left_in : ℕ → List ℕ → List ℕ
left_in width s = s ++ replicate (width - length s) b' '

-- `%-*s %-*s\n`
abbrev pub row : ℕ → ℕ → List ℕ → List ℕ → List ℕ
row first second s t = left_in first s ++ b' ' ∷ left_in second t ++ 10 ∷ []

unfoldable pub rows : Widths → FiList → List ℕ
rows w (eof_node d) = []
rows w (node d r) =
    row (w.name_align + 1) (w.size_align + 1) (c_string d.filename) (hr_file_size d.filesize)
    ++ rows w r

-- "--- Архив: %s ---", "Файл" and "Размер"
abbrev pub title : List ℕ → List ℕ
title name =
    (b'-' ∷ b'-' ∷ b'-' ∷ b' ' ∷ 208 ∷ 144 ∷ 209 ∷ 128 ∷ 209 ∷ 133 ∷ 208 ∷ 184 ∷ 208 ∷ 178 ∷ b':'
      ∷ b' ' ∷ [])
    ++ name
    ++ (b' ' ∷ b'-' ∷ b'-' ∷ b'-' ∷ 10 ∷ [])

abbrev pub file_heading : List ℕ
file_heading = 208 ∷ 164 ∷ 208 ∷ 176 ∷ 208 ∷ 185 ∷ 208 ∷ 187 ∷ []

abbrev pub size_heading : List ℕ
size_heading = 208 ∷ 160 ∷ 208 ∷ 176 ∷ 208 ∷ 183 ∷ 208 ∷ 188 ∷ 208 ∷ 181 ∷ 209 ∷ 128 ∷ []

abbrev pub table : List ℕ → Widths → FiList → List ℕ
table name w h =
    title name
    ++ row (w.name_align + 4 + 1) (w.size_align + 6 + 1) file_heading size_heading
    ++ rows w h

-- What is printed of an archive with this name.
unfoldable pub stat_archive : Leftovers → List ℕ → Option (List ℕ) → Outcome (List ℕ)
stat_archive mem name none = failure
stat_archive mem name (some archive) = do
  h ← read_header mem.junk mem.mark (opened archive) false (init_fi_list mem.junk)
  ok (table name (align_columns h.header (record { name_align = 4; size_align = 6 })) h.header)
