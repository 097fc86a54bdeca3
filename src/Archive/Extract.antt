-- ===== src/Archive/Extract.antt =====
-- archive/archiver.c, `extract_files` (lines 690 to 723). The directory is a parameter. An extracted
-- file is opened without O_TRUNC, so that the bytes of a longer older file stay behind the new ones.
-- The archive itself is taken not to be among the files that are written.
use os_tasks.Base.{
  ℕ, ◌%◌, ◌^◌, false, List, [], ◌∷◌, Option, none, some, Outcome, ok, failure, ◌>>=◌,
}
use os_tasks.Archive.Format.{c_string}
use os_tasks.Archive.Descriptor.{Descriptor, opened}
use os_tasks.Archive.Header.{
  FiList, eof_node, node, init_fi_list, read_header, remove_files_from_header,
}
use os_tasks.Archive.Copy.{copy_file}
use os_tasks.Archive.Remove.{Leftovers}

-- `open_create` is `open` for writing, which makes the file if it is missing: the directory then, and
-- the bytes of the file; `none` is its error. `chmod` sets the mode, or fails and changes nothing;
-- `store` puts what has been written through the descriptor in the place of the file.
pub record Directory (F : Type 0) : Type 0 where
  pub open_create : F → List ℕ → Option (F × List ℕ)
  pub chmod : F → List ℕ → ℕ → F
  pub store : F → List ℕ → List ℕ → F

module _ {F : Type 0} (os : Directory F) where
  -- The loop over the list. `mask` is cut to the 32 bits of a `mode_t`.
  unfoldable pub extract_infos : List ℕ → FiList → Descriptor → F → Outcome F
  extract_infos chunk (eof_node d) fd fs = ok fs
  extract_infos chunk (node d r) fd fs =
      let name = c_string d.filename in
      elim (os.open_create fs name) [
        | none ↦ extract_infos chunk r fd fs
        | some (fs', old_bytes) ↦ do
          let moded = os.chmod fs' name (d.mask % 2 ^ 32)
          s ←
              copy_file d.filesize d.offset
                (record { old = fd; new = opened old_bytes; buf = chunk })
          extract_infos chunk r s.old (os.store moded name s.new.content)
      ]

  -- The header with the named files alone, or with all for no names.
  abbrev pub selected : List (List ℕ) → FiList → FiList
  selected [] header = header
  selected (name ∷ names) header = remove_files_from_header false (name ∷ names) header

  unfoldable pub extract_files : Leftovers → List (List ℕ) → Option (List ℕ) → F → Outcome F
  extract_files mem names none fs = failure
  extract_files mem names (some archive) fs = do
    h ← read_header mem.junk mem.mark (opened archive) false (init_fi_list mem.junk)
    extract_infos mem.chunk (selected names h.header) h.fd fs
