-- ===== src/Archive/Commands.antt =====
-- archive/archiver.c: the program, run again and again on one archive, as a list of members.
use os_tasks.Base.{
  Option-cases, inl, inr, sym, ◌%◌, ◌^◌, ℕ, zero, suc, length-append, append-nil, ◌+◌, ◌*◌, List,
  [], ◌∷◌, ◌++◌, map, length, drop, Option, none, some, ok, ◌>>=◌, ◌≡◌, ◌≢◌, refl, ap, subst, ◌∙◌,
  arith,
}
use os_tasks.Archive.Format.{info_size}
use os_tasks.Archive.Header.{same_string}
use os_tasks.Archive.Located.{length-image}
use os_tasks.Archive.Layout.{Entry, member, all_bytes, image, Member, Represents, without}
use os_tasks.Archive.Remove.{Leftovers, remove_files}
use os_tasks.Archive.Removed.{remove_files-without}
use os_tasks.Archive.Extract.{Directory, extract_files}
use os_tasks.Archive.Extracted.{extracted, chosen, extract_files-extracted}
use os_tasks.Archive.Put.{Source, source_member, source_path}
use os_tasks.Archive.Input.{Inputs, input_files}
use os_tasks.Archive.Inserted.{no_bytes, holds, input_files-inserted}
use os_tasks.Archive.Stat.{row, title, file_heading, size_heading, stat_archive}
use os_tasks.Archive.Table.{member_rows, stat_archive-table}
use os_tasks.Archive.Program.{unequal, main, parse_args, flag_h, flag_help}
use os_tasks.Archive.Disk.{
  Disk, TempFile, KeepsTemp, AllApart, created, procedures, Command, arguments, mode_of, run_all,
  Store, listed_members, perform, perform_all, stored, Allowed, AllAllowed, StandsFor, Implements,
  delete, put, show, take,
}

-- The length of an archive is determined by its members.
length-stored :
    (es : List Entry) → info_size * length es + 4 + length (all_bytes es) ≡ stored (map member es)
length-stored [] = refl
length-stored (e ∷ es) = omega (arith, length-stored es, length-append e.bytes (all_bytes es))

Represents-stored :
    (bytes : List ℕ) (ms : List Member) → Represents bytes ms [] → length bytes ≡ stored ms
Represents-stored bytes ms r =
    let size = length-image r.es r.laid.entries in
    let whole : length bytes ≡ length (image r.es) =
      ap length (r.shape ∙ append-nil (image r.es)) in
    whole ∙ size ∙ length-stored r.es ∙ ap stored r.same

-- Nothing is left of a temporary file that was not there.
drop-none : (k : ℕ) → drop {A = ℕ} k [] ≡ []
drop-none zero = refl
drop-none (suc k) = refl

-- The extraction of other files leaves the temporary one as it is.
extracted-temp :
    {F : Type 0} (os : Directory F) (tf : TempFile F) (files : Inputs)
    → KeepsTemp os tf
    → (ms : List Member) (fs : F) → AllApart os tf files ms
    → tf.temp (extracted os ms fs) ≡ tf.temp fs
unfolding extracted
extracted-temp os tf files keeps [] fs apart = refl
extracted-temp os tf files keeps (m ∷ ms) fs apart =
    elim (Option-cases (os.open_create fs m.name)) [
      | inl refused ↦ rw (refused, extracted) (extracted-temp os tf files keeps ms fs apart.1)
      | inr ((fs', old), opens) ↦
          let moded = os.chmod fs' m.name (m.mask % 2 ^ 32) in
          let bytes = m.bytes ++ drop (length m.bytes) old in
          rw (opens, extracted)
            (extracted-temp os tf files keeps ms (os.store moded m.name bytes) apart.1
              ∙ keeps.store_keeps moded m.name bytes apart.0
              ∙ keeps.chmod_keeps fs' m.name (m.mask % 2 ^ 32) apart.0
              ∙ keeps.open_keeps fs fs' m.name old apart.0 opens)
    ]

module _ {F : Type 0} (os : Directory F) (tf : TempFile F) (keeps : KeepsTemp os tf)
    (files : Inputs) (mem : Leftovers) (four : length mem.mark ≡ 4)
    (whole : length mem.junk.filename ≡ 256) where
  put_refines :
      (x : Source) (xs : List Source) (archive : Option (List ℕ)) (ms : Option (List Member))
      → StandsFor archive ms
      → Allowed os tf files (put x xs) ms
      → (new : List ℕ) × (input_files files mem
            (map source_path (x ∷ xs))
            (some (created archive))
            []
          ≡ ok new)
        × Represents new (listed_members ms ++ map source_member (x ∷ xs)) []
  put_refines x xs none none st (sources, takes, fits) =
      let (new, k, run, r) =
        input_files-inserted files mem [] [] [] x xs no_bytes sources four whole (omega arith)
          (omega arith) in
      (new, run, subst (Represents new (map source_member (x ∷ xs))) (drop-none k) r)
  put_refines x xs none (some ms) st allowed = absurd st
  put_refines x xs (some bytes) none st allowed = absurd st
  put_refines x xs (some bytes) (some []) st (sources, takes, fits) = absurd (takes refl)
  put_refines x xs (some bytes) (some (m ∷ ms)) st (sources, takes, fits) =
      let size = Represents-stored bytes (m ∷ ms) st in
      let (new, k, run, r) =
        input_files-inserted files mem bytes [] (m ∷ ms) x xs (holds bytes m ms st) sources four
          whole (omega (arith, size, fits)) (omega arith) in
      (new, run, subst (Represents new ((m ∷ ms) ++ map source_member (x ∷ xs))) (drop-none k) r)

  take_refines :
      (names : List (List ℕ)) (archive : Option (List ℕ)) (ms : Option (List Member)) (dir : F)
      → StandsFor archive ms
      → ms ≢ none
      → extract_files os mem names archive dir
        ≡ ok (extracted os (chosen os names (listed_members ms)) dir)
  take_refines names archive none dir st there = absurd (there refl)
  take_refines names none (some ms) dir st there = absurd st
  take_refines names (some bytes) (some ms) dir st there =
      extract_files-extracted os mem names bytes [] ms dir st four

  delete_refines :
      (n : List ℕ) (names : List (List ℕ)) (archive : Option (List ℕ)) (ms : Option (List Member))
      → StandsFor archive ms
      → ms ≢ none
      → (new : List ℕ) × (remove_files mem (n ∷ names) archive [] ≡ ok new)
        × Represents new (without (n ∷ names) (listed_members ms)) []
  delete_refines n names archive none st there = absurd (there refl)
  delete_refines n names none (some ms) st there = absurd st
  delete_refines n names (some bytes) (some ms) st there =
      let (new, k, run, r) =
        remove_files-without mem n names bytes [] [] ms st four (omega arith) in
      (new, run, subst (Represents new (without (n ∷ names) ms)) (drop-none k) r)

  show_refines :
      (name : List ℕ) (archive : Option (List ℕ)) (ms : Option (List Member))
      → StandsFor archive ms
      → ms ≢ none
      → (out : List ℕ) × (stat_archive mem name archive ≡ ok out)
  show_refines name archive none st there = absurd (there refl)
  show_refines name none (some ms) st there = absurd st
  show_refines name (some bytes) (some ms) st there =
      let (first, second, run, wide, names, sizes) =
        stat_archive-table mem name bytes [] ms st four in
      (
        title name
            ++ row (first + 4 + 1) (second + 6 + 1) file_heading size_heading
            ++ member_rows first second ms,
        run,
      )

  module _ (name : List ℕ) (not_h : name ≢ flag_h) (not_help : name ≢ flag_help) where
    parse_command : (c : Command) → parse_args (arguments name c) ≡ mode_of c
    unfolding parse_args same_string
    parse_command (put x xs) = rw (unequal name flag_h not_h, unequal name flag_help not_help) refl
    parse_command (take names) =
        rw (unequal name flag_h not_h, unequal name flag_help not_help) refl
    parse_command (delete n names) =
        rw (unequal name flag_h not_h, unequal name flag_help not_help) refl
    parse_command show = rw (unequal name flag_h not_h, unequal name flag_help not_help) refl

    command_refines :
        (c : Command) (w : Disk F) (s : Store F)
        → Implements tf w s
        → Allowed os tf files c s.members
        → (w' : Disk F) × (main (procedures os tf files mem) (arguments name c) w ≡ ok w')
          × Implements tf w' (perform os c s)
    unfolding main
    command_refines (put x xs) w s h allowed =
        let (new, run, r) = put_refines x xs w.archive s.members h.bytes allowed in
        let kept = keeps.rename_none w.dir h.no_temp in
        (
          record { archive = some new; dir = tf.rename_temp w.dir },
          (rw (main, parse_command (put x xs), h.no_temp, run) refl),
          record { bytes = r; no_temp = ap tf.temp kept ∙ h.no_temp; same_dir = kept ∙ h.same_dir },
        )
    command_refines (take names) w s h (there, apart) =
        let out = chosen os names (listed_members s.members) in
        let dir = extracted os out s.dir in
        let run : extract_files os mem names w.archive w.dir ≡ ok dir =
          ap (extract_files os mem names w.archive) h.same_dir
          ∙ take_refines names w.archive s.members s.dir h.bytes there in
        let still =
          extracted-temp os tf files keeps out s.dir apart
          ∙ sym (ap tf.temp h.same_dir)
          ∙ h.no_temp in
        (
          record w { dir = dir },
          (rw (main, parse_command (take names), run) refl),
          record { bytes = h.bytes; no_temp = still; same_dir = refl },
        )
    command_refines (delete n names) w s h there =
        let (new, run, r) = delete_refines n names w.archive s.members h.bytes there in
        let kept = keeps.rename_none w.dir h.no_temp in
        (
          record { archive = some new; dir = tf.rename_temp w.dir },
          (rw (main, parse_command (delete n names), h.no_temp, run) refl),
          record { bytes = r; no_temp = ap tf.temp kept ∙ h.no_temp; same_dir = kept ∙ h.same_dir },
        )
    command_refines show w s h there =
        let (out, run) = show_refines name w.archive s.members h.bytes there in
        (w, (rw (main, parse_command show, run) refl), h)

    -- The program refines a list of members: from a disk whose archive stands for members, or where
    -- there is none, any sequence of runs that put files in, take them out, remove or show them succeeds and
    -- ends on the disk that stands for what the commands make of the members, with the same directory.
    -- No temporary file is there at first, and no member is taken out whose name leads to it; the archive is
    -- not named as a help flag, the files can be read and fit with the archive into less than 2 ^ 63
    -- bytes, none is put into an archive without members, and none is taken, removed or shown where
    -- no archive is. The places of the locals have their sizes.
    pub run_all_refines :
        (cs : List Command) (w : Disk F) (s : Store F)
        → Implements tf w s
        → AllAllowed os tf files cs s
        → (w' : Disk F) × (run_all (procedures os tf files mem) name cs w ≡ ok w')
          × Implements tf w' (perform_all os cs s)
    run_all_refines [] w s h allowed = (w, refl, h)
    run_all_refines (c ∷ cs) w s h allowed =
        let (w', run, h') = command_refines c w s h allowed.0 in
        let (w'', rest, h'') = run_all_refines cs w' (perform os c s) h' allowed.1 in
        (w'', ap (λ o. o >>= run_all (procedures os tf files mem) name cs) run ∙ rest, h'')
