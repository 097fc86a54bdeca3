-- ===== src/Archive/Table.antt =====
-- archive/archiver.c: what `stat_archive` prints of an archive that represents members.
use os_tasks.Base.{
  ℕ, ◌+◌, ◌≤◌, ltb, if◌then◌else◌, List, [], ◌∷◌, ◌++◌, map, length, some, ok, ◌≡◌, refl, sym, ap,
  ap₂, subst, ◌∙◌, arith, ◌-◌, replicate, append_assoc,
}
use os_tasks.Archive.Format.{FileInfo, c_string}
use os_tasks.Archive.Reading.{listed}
use os_tasks.Archive.Layout.{Entry, Member, Represents, member, all_infos}
use os_tasks.Archive.Remove.{Leftovers}
use os_tasks.Archive.Removed.{read_header-image}
use os_tasks.Archive.Sizes.{hr_file_size, SizeText, hr_file_size-SizeText}
use os_tasks.Archive.Layout.{LaidFrom, data_start}
use os_tasks.Archive.Stat.{
  Widths, align_columns, row, rows, title, file_heading, size_heading, stat_archive,
}

-- The width of the sizes, and the rows for the members of an archive.
abbrev pub size_text : Member → List ℕ
size_text m = hr_file_size (length m.bytes)

abbrev pub longest : ℕ → List Member → ℕ
longest w [] = w
longest w (m ∷ ms) = longest (if ltb (length (size_text m)) w then w else length (size_text m)) ms

-- The width of the names. Where a name is shorter than the width so far, that of the sizes takes its place.
abbrev pub name_width : ℕ → ℕ → List Member → ℕ
name_width n w [] = n
name_width n w (m ∷ ms) =
    let sizes = if ltb (length (size_text m)) w then w else length (size_text m) in
    name_width (if ltb (length m.name) n then sizes else length m.name) sizes ms

abbrev pub member_rows : ℕ → ℕ → List Member → List ℕ
member_rows first second [] = []
member_rows first second (m ∷ ms) =
    row (first + 1) (second + 1) m.name (size_text m) ++ member_rows first second ms

abbrev pub AllWithin : ℕ → List Member → Type 0
AllWithin w [] = Unit
AllWithin w (m ∷ ms) = (length (size_text m) ≤ w) × AllWithin w ms

wider : ℕ → Member → ℕ
wider w m = if ltb (length (size_text m)) w then w else length (size_text m)

wider-le : (w : ℕ) (m : Member) → (w ≤ wider w m) × (length (size_text m) ≤ wider w m)
unfolding wider
wider-le w m = (ground arith, ground arith)

longest-le : (w : ℕ) (ms : List Member) → w ≤ longest w ms
unfolding wider
longest-le w [] = omega arith
longest-le w (m ∷ ms) = omega (arith, longest-le (wider w m) ms, (wider-le w m).0)

longest-AllWithin : (w : ℕ) (ms : List Member) → AllWithin (longest w ms) ms
unfolding wider
longest-AllWithin w [] = tt
longest-AllWithin w (m ∷ ms) =
    (omega (arith, longest-le (wider w m) ms, (wider-le w m).1), longest-AllWithin (wider w m) ms)

rows-member :
    (junk : FileInfo) (w : Widths) (at : ℕ) (es : List Entry)
    → LaidFrom at es
    → rows w (listed junk (all_infos es)) ≡ member_rows w.name_align w.size_align (map member es)
unfolding rows
rows-member junk w at [] laid = refl
rows-member junk w at (e ∷ es) laid =
    rw (laid.0, rows-member junk w (at + length e.bytes) es laid.2) refl

align_columns-longest :
    (junk : FileInfo) (w : Widths) (at : ℕ) (es : List Entry)
    → LaidFrom at es
    → (align_columns (listed junk (all_infos es)) w).size_align
      ≡ longest w.size_align (map member es)
unfolding align_columns
align_columns-longest junk w at [] laid = refl
align_columns-longest junk w at (e ∷ es) laid =
    let size : ℕ → ℕ = λ k.
      if ltb (length (hr_file_size k)) w.size_align
      then w.size_align
      else length (hr_file_size k) in
    let name = length (c_string e.info.filename) in
    let next : Widths = record {
      name_align = if ltb name w.name_align then size e.info.filesize else name;
      size_align = size e.info.filesize;
    } in
    align_columns-longest junk next (at + length e.bytes) es laid.2
    ∙ ap (λ k. longest (size k) (map member es)) laid.0

align_columns-name_width :
    (junk : FileInfo) (w : Widths) (at : ℕ) (es : List Entry)
    → LaidFrom at es
    → (align_columns (listed junk (all_infos es)) w).name_align
      ≡ name_width w.name_align w.size_align (map member es)
unfolding align_columns
align_columns-name_width junk w at [] laid = refl
align_columns-name_width junk w at (e ∷ es) laid =
    let size : ℕ → ℕ = λ k.
      if ltb (length (hr_file_size k)) w.size_align
      then w.size_align
      else length (hr_file_size k) in
    let name = length (c_string e.info.filename) in
    let wide : ℕ → ℕ = λ k. if ltb name w.name_align then size k else name in
    let next : Widths = record {
      name_align = wide e.info.filesize;
      size_align = size e.info.filesize;
    } in
    align_columns-name_width junk next (at + length e.bytes) es laid.2
    ∙ ap (λ k. name_width (wide k) (size k) (map member es)) laid.0

pub stat_archive-table :
    (mem : Leftovers) (name archive rest : List ℕ) (members : List Member)
    → Represents archive members rest
    → length mem.mark ≡ 4
    → (first : ℕ) × (second : ℕ) × (stat_archive mem name (some archive)
        ≡ ok (
            title name
            ++ row (first + 4 + 1) (second + 6 + 1) file_heading size_heading
            ++ member_rows first second members))
      × AllWithin second members
      × (first ≡ name_width 4 6 members)
      × (second ≡ longest 6 members)
unfolding stat_archive
stat_archive-table mem name archive rest members r four =
    let w =
      align_columns (listed mem.junk (all_infos r.es))
        (record { name_align = 4; size_align = 6 }) in
    let size : w.size_align ≡ longest 6 members =
      align_columns-longest mem.junk (record { name_align = 4; size_align = 6 }) (data_start r.es)
        r.es r.laid.laid
      ∙ ap (longest 6) r.same in
    let names : w.name_align ≡ name_width 4 6 members =
      align_columns-name_width mem.junk (record { name_align = 4; size_align = 6 })
        (data_start r.es) r.es r.laid.laid
      ∙ ap (name_width 4 6) r.same in
    let printed = λ (h : List ℕ).
      title name
      ++ row (w.name_align + 4 + 1) (w.size_align + 6 + 1) file_heading size_heading
      ++ h in
    let same_rows =
      rows-member mem.junk w (data_start r.es) r.es r.laid.laid
      ∙ ap (member_rows w.name_align w.size_align) r.same in
    let image_table : stat_archive mem name (some archive)
        ≡ ok (printed (member_rows w.name_align w.size_align members)) =
      ap (λ a. stat_archive mem name (some a)) r.shape
      ∙ rw (read_header-image mem.junk mem.mark r.es rest r.laid four)
          (ap (λ h. ok (printed h)) same_rows) in
    (
      w.name_align,
      w.size_align,
      image_table,
      subst (λ k. AllWithin k members) (sym size) (longest-AllWithin 6 members),
      names,
      size,
    )

abbrev spaces : ℕ → List ℕ
spaces n = replicate n b' '

-- The rows for the members: the name, spaces up to a width, a space, the text for the number of bytes, and
-- spaces up to the other width.
pub data IsRows (first second : ℕ) : List Member → List ℕ → Type 0 where
  no_rows : IsRows first second [] []
  next_row :
      {m : Member} {ms : List Member} {size rest : List ℕ} (j k : ℕ)
      → j ≡ first - length m.name
      → SizeText (length m.bytes) size
      → k + length size ≡ second
      → IsRows first second ms rest
      → IsRows first second (m ∷ ms) (m.name ++ spaces j ++ b' ' ∷ size ++ spaces k ++ 10 ∷ rest)

row-flat :
    (n j size k rest : List ℕ)
    → ((n ++ j) ++ b' ' ∷ (size ++ k) ++ 10 ∷ []) ++ rest ≡ n ++ j ++ b' ' ∷ size ++ k ++ 10 ∷ rest
row-flat n j size k rest =
    append_assoc (n ++ j ++ b' ' ∷ (size ++ k)) (10 ∷ []) rest
    ∙ ap (λ l. l ++ 10 ∷ rest) (sym (append_assoc (n ++ j) (b' ' ∷ size) k))

member_rows-IsRows :
    (first second : ℕ) (ms : List Member)
    → AllWithin second ms
    → IsRows (first + 1) (second + 1) ms (member_rows first second ms)
member_rows-IsRows first second [] h = no_rows
member_rows-IsRows first second (m ∷ ms) h =
    let j = first + 1 - length m.name in
    let k = second + 1 - length (size_text m) in
    subst (IsRows (first + 1) (second + 1) (m ∷ ms))
      (sym (row-flat m.name (spaces j) (size_text m) (spaces k) (member_rows first second ms)))
      (next_row j k refl (hr_file_size-SizeText (length m.bytes)) (omega (arith, h.0))
        (member_rows-IsRows first second ms h.1))

-- "--- Архив: ", the name and " ---"
abbrev pub title_text : List ℕ → List ℕ
title_text name =
    45 ∷ 45 ∷ 45 ∷ 32 ∷ 208 ∷ 144 ∷ 209 ∷ 128 ∷ 209 ∷ 133 ∷ 208 ∷ 184 ∷ 208 ∷ 178 ∷ 58 ∷ 32 ∷ name
    ++ 32 ∷ 45 ∷ 45 ∷ 45 ∷ 10 ∷ []

-- "Файл" and "Размер", which has a byte more for each of its letters
abbrev pub heading_text : ℕ → ℕ → List ℕ
heading_text j k =
    208 ∷ 164 ∷ 208 ∷ 176 ∷ 208 ∷ 185 ∷ 208 ∷ 187 ∷ spaces j
    ++ 32 ∷ 208 ∷ 160 ∷ 208 ∷ 176 ∷ 208 ∷ 183 ∷ 208 ∷ 188 ∷ 208 ∷ 181 ∷ 209 ∷ 128 ∷ spaces k
    ++ 10 ∷ []

-- Of an archive that represents the members, `stat_archive` prints the title, the headings and a
-- row for each member, in their order: its name, spaces, the text for the number of its bytes and
-- spaces. The sizes are filled up to the longest of them, or 6, and one more. The names are filled
-- up to `name_width` and one more: it starts at 4 and becomes the length of each name or, where
-- that is shorter than the width so far, the width of the sizes so far; a longer name stands out.
pub stat_archive-IsRows :
    (mem : Leftovers) (name archive rest : List ℕ) (members : List Member)
    → Represents archive members rest
    → length mem.mark ≡ 4
    → (first second : ℕ) × (text : List ℕ) × IsRows first second members text
      × (first ≡ name_width 4 6 members + 1)
      × (second ≡ longest 6 members + 1)
      × (stat_archive mem name (some archive)
          ≡ ok (title_text name ++ heading_text (first + 4 - 8) (second + 6 - 12) ++ text))
stat_archive-IsRows mem name archive rest members r four =
    let (first, second, run, wide, names, sizes) =
      stat_archive-table mem name archive rest members r four in
    (
      first + 1,
      second + 1,
      member_rows first second members,
      member_rows-IsRows first second members wide,
      ap (λ k. k + 1) names,
      ap (λ k. k + 1) sizes,
      run
          ∙ ap₂
              (λ j k. ok (title_text name ++ heading_text j k ++ member_rows first second members))
              (omega arith) (omega arith),
    )
