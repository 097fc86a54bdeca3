-- ===== src/Archive/Remove.antt =====
-- archive/archiver.c, `remove_files` (lines 759 to 803). The new archive is written to a temporary
-- file that is opened without O_TRUNC, so that bytes of an older file of that name stay behind it. The
-- unchecked `open` of it, `remove` and `rename` are taken to succeed.
use os_tasks.Base.{ℕ, true, false, List, [], ◌∷◌, Option, none, some, Outcome, ok, failure, ◌>>=◌}
use os_tasks.Archive.Format.{FileInfo, to_bytes}
use os_tasks.Archive.Descriptor.{Descriptor, opened, write_bytes}
use os_tasks.Archive.Header.{
  FiList, eof_node, node, init_fi_list, read_header, update_offsets_in_header,
  remove_files_from_header,
}
use os_tasks.Archive.Copy.{Copier, copy_file}

-- What stands on the stack in the place of the local buffers, and in the memory of a new node.
pub record Leftovers : Type 0 where
  pub junk : FileInfo
  pub mark : List ℕ
  pub chunk : List ℕ

-- `write (new_fd, &i->data, sizeof (file_info_t))` for each node.
unfoldable pub write_infos : FiList → Descriptor → Descriptor
write_infos (eof_node d) fd = fd
write_infos (node d r) fd = write_infos r (write_bytes (to_bytes d) fd)

abbrev pub ending_bytes : List ℕ
ending_bytes = 0 ∷ 0 ∷ 0 ∷ 0 ∷ []

-- `copy_file` for each node.
unfoldable pub copy_infos : FiList → Copier → Outcome Copier
copy_infos (eof_node d) s = ok s
copy_infos (node d r) s = copy_file d.filesize d.offset s >>= copy_infos r

-- `stale` is what the temporary file holds before. The result is the archive afterwards.
unfoldable pub remove_files :
    Leftovers → List (List ℕ) → Option (List ℕ) → List ℕ → Outcome (List ℕ)
remove_files mem [] archive stale = failure
remove_files mem (name ∷ names) none stale = failure
remove_files mem (name ∷ names) (some archive) stale = do
  let empty = init_fi_list mem.junk
  new ← read_header mem.junk mem.mark (opened archive) false empty
  old ← read_header mem.junk mem.mark new.fd new.errno empty
  let new_header =
      update_offsets_in_header (remove_files_from_header true (name ∷ names) new.header)
  let old_header = remove_files_from_header true (name ∷ names) old.header
  let new_fd = write_bytes ending_bytes (write_infos new_header (opened stale))
  s ← copy_infos old_header (record { old = old.fd; new = new_fd; buf = mem.chunk })
  ok s.new.content
