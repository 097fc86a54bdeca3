-- ===== src/Archive/Input.antt =====
-- archive/archiver.c, `input_files` with `update_header_for_input` and `insert_files_routine` (lines
-- 401 to 443 and 509 to 611). The files that are put in are a parameter.
use os_tasks.Base.{
  ℕ, zero, suc, ◌+◌, ◌-◌, ◌^◌, Bool, true, false, ◌||◌, ◌==◌, ltb, List, [], ◌∷◌, ◌++◌, length,
  drop, if◌then◌else◌, Option, none, some, Outcome, ok, failure, fault, out_of_fuel, ◌>>=◌, bit_and,
}
use os_tasks.Archive.Format.{FileInfo, buffer_size, filename_length}
use os_tasks.Archive.Descriptor.{Descriptor, opened, read_bytes, read_on, write_bytes, seek_set}
use os_tasks.Archive.Header.{
  FiList, init_fi_list, make_new_node_in_fi_list, set_new_node, head_data, read_header,
  update_offsets_in_header,
}
use os_tasks.Archive.Remove.{Leftovers, write_infos, ending_bytes}

-- `stat` gives the mode of a path, and `content` what can be read from it; `none` is the error of
-- `stat`, and of `open` or the first `read`. `size` is the end that `lseek` finds in the opened file,
-- `none` if it was not opened.
pub record Inputs : Type 0 where
  pub stat : List ℕ → Option ℕ
  pub size : List ℕ → Option ℕ
  pub content : List ℕ → Option (List ℕ)

-- `S_ISREG`
abbrev pub is_regular : ℕ → Bool
is_regular st_mode = bit_and st_mode 61440 == 32768

-- What stands behind the last '/' of a path, or all of it: `strrchr` and what is made of it.
abbrev pub has_slash : List ℕ → Bool
has_slash [] = false
has_slash (c ∷ s) = c == b'/' || has_slash s

unfoldable pub plain_name : List ℕ → List ℕ
plain_name [] = []
plain_name (c ∷ s) = let rest = plain_name s in if c == b'/' || has_slash s then rest else c ∷ s

-- The struct of a file. A name that does not fit with its 0 is written past the array. What stands
-- behind the 0 is left from before.
unfoldable pub input_info : Inputs → FileInfo → List ℕ → ℕ → Outcome FileInfo
input_info files fi path st_mode =
    let name = plain_name path in
    let filesize : ℕ = elim (files.size path) [ none ↦ 2 ^ 64 - 1 | some n ↦ n ] in
    if ltb (length name) filename_length
    then ok (record {
      filename = name ++ 0 ∷ drop (length name + 1) fi.filename;
      filesize = filesize;
      mask = bit_and st_mode 511;
      offset = 0;
    })
    else fault

-- The header, `errno` (is it set?) and the number of the files that were put in.
pub record Updated : Type 0 where
  pub header : FiList
  pub errno : Bool
  pub inserted_files : ℕ

-- The files in turn. `start` is a null pointer in the one call of the program, and `fi` the local
-- struct of that name, which keeps its place on the stack.
unfoldable pub update_header_for_input :
    Inputs → FileInfo → FileInfo → List (List ℕ) → Updated → Outcome Updated
update_header_for_input files junk fi [] s = ok s
update_header_for_input files junk fi (path ∷ paths) s = elim (files.stat path) [
  | none ↦ update_header_for_input files junk fi paths (record s { errno = true })
  | some st_mode ↦ elim (is_regular st_mode) [
    | false ↦ update_header_for_input files junk fi paths s
    | true ↦ input_info files fi path st_mode >>= λ d.
        update_header_for_input files junk d paths (record s {
          header = set_new_node (λ _. d) (make_new_node_in_fi_list junk s.header);
          errno = elim (files.size path) [ none ↦ true | some n ↦ s.errno ];
          inserted_files = s.inserted_files + 1;
        })
  ]
]

-- `while ((reads = read (fd, buf, BUFFER_SIZE)) > 0) write (new_fd, buf, reads);`
unfoldable pub append_loop : ℕ → Descriptor → Descriptor → Outcome Descriptor
append_loop zero fd new_fd = out_of_fuel
append_loop (suc fuel) fd new_fd = elim (length (read_bytes buffer_size fd) == 0) [
  | true ↦ ok new_fd
  | false ↦
      append_loop fuel (read_on buffer_size fd) (write_bytes (read_bytes buffer_size fd) new_fd)
]

-- Every round but the last reads a byte at least.
unfoldable pub append_rest : Descriptor → Descriptor → Outcome Descriptor
append_rest fd new_fd = append_loop (length fd.content + 1) fd new_fd

-- The second loop goes over all the files, those that are not in the header too.
unfoldable pub append_files : Inputs → List (List ℕ) → Descriptor → Outcome Descriptor
append_files files [] new_fd = ok new_fd
append_files files (path ∷ paths) new_fd = elim (files.content path) [
  | none ↦ append_files files paths new_fd
  | some bytes ↦ append_rest (opened bytes) new_fd >>= append_files files paths
]

-- The start of the contents is the offset in the first struct; an archive without bytes has none.
unfoldable pub insert_files_routine :
    Inputs
    → Leftovers
    → FiList
    → Descriptor
    → Bool
    → Descriptor
    → List (List ℕ)
    → Outcome Descriptor
insert_files_routine files mem header fd errno new_fd paths = do
  let headed = write_bytes ending_bytes (write_infos header new_fd)
  old ← read_header mem.junk mem.mark fd errno (init_fi_list mem.junk)
  let content = old.fd.content
  let fd_end : Descriptor = record { content = content; pos = length content }
  let from = if length content == 0 then fd_end else seek_set (head_data old.header).offset fd_end
  copied ← append_rest from headed
  append_files files paths copied

-- `archive` is what the archive holds before; one that is not there is made, with no bytes, and
-- `none` is an error of `open`. `stale` is what the temporary file holds before.
unfoldable pub input_files :
    Inputs → Leftovers → List (List ℕ) → Option (List ℕ) → List ℕ → Outcome (List ℕ)
input_files files mem paths none stale = failure
input_files files mem [] (some archive) stale = do
  h ← read_header mem.junk mem.mark (opened archive) false (init_fi_list mem.junk)
  failure
input_files files mem (path ∷ paths) (some archive) stale = do
  h ← read_header mem.junk mem.mark (opened archive) false (init_fi_list mem.junk)
  let before : Updated = record { header = h.header; errno = h.errno; inserted_files = 0 }
  u ← update_header_for_input files mem.junk mem.junk (path ∷ paths) before
  new ←
      (if u.inserted_files == 0
        then failure
        else insert_files_routine files mem (update_offsets_in_header u.header) h.fd u.errno
            (opened stale) (path ∷ paths))
  ok new.content
