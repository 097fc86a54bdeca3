-- ===== src/Archive/Header.antt =====
-- archive/archiver.c: the list `fi_list` of the header (lines 67 to 73, 479 to 507, 627 to 633), its
-- reading (`read_header`), its offsets (`update_offsets_in_header`) and the removal of nodes from it
-- (`remove_files_from_header`).
use os_tasks.Base.{
  ℕ, zero, suc, ◌+◌, ◌*◌, ◌%◌, ◌^◌, Bool, true, false, not, ◌||◌, ◌==◌, List, [], ◌∷◌, length,
  if◌then◌else◌, none, some, Outcome, ok, failure, out_of_fuel, ◌>>=◌,
}
use os_tasks.Archive.Format.{
  FileInfo, info_size, header_ending_size, to_bytes, of_bytes, of_le_bytes, c_string,
}
use os_tasks.Archive.Descriptor.{Descriptor, read_bytes, read_on, overwrite, seek_back}

-- A chain of nodes up to the one whose `eof` is set. That one has a `data` too, which no code sets.
pub data FiList : Type 0 where
  eof_node : FileInfo → FiList
  node : FileInfo → FiList → FiList

-- `junk` is what the memory of a new node holds at `data`.
module _ (junk : FileInfo) where
  unfoldable pub init_fi_list : FiList
  init_fi_list = eof_node junk

  -- The node that was the end becomes the last node of the list, and a new end comes behind it.
  unfoldable pub make_new_node_in_fi_list : FiList → FiList
  make_new_node_in_fi_list (eof_node d) = node d init_fi_list
  make_new_node_in_fi_list (node d r) = node d (make_new_node_in_fi_list r)

-- A write to `data` of the node that `make_new_node_in_fi_list` returns.
unfoldable pub set_new_node : (FileInfo → FileInfo) → FiList → FiList
set_new_node f (eof_node d) = eof_node d
set_new_node f (node d (eof_node e)) = node (f d) (eof_node e)
set_new_node f (node d (node d' r)) = node d (set_new_node f (node d' r))

-- `head->data`, which is there for an empty list too.
unfoldable pub head_data : FiList → FileInfo
head_data (eof_node d) = d
head_data (node d r) = d

abbrev pub infos : FiList → List FileInfo
infos (eof_node d) = []
infos (node d r) = d ∷ infos r

-- What `read_header` works on: the archive, `errno` (is it set?), its local `buf`, and the list.
pub record Reader : Type 0 where
  pub fd : Descriptor
  pub errno : Bool
  pub buf : List ℕ
  pub header : FiList

-- The read of four bytes into `buf`.
unfoldable pub read_mark : Reader → Reader
read_mark s = record s {
  fd = read_on header_ending_size s.fd;
  buf = overwrite s.buf (read_bytes header_ending_size s.fd);
}

-- The step back before the four bytes. An error sets `errno` and moves nothing.
unfoldable pub unread_mark : Reader → Reader
unread_mark s = elim (seek_back header_ending_size s.fd) [
  | none ↦ record s { errno = true }
  | some fd ↦ record s { fd = fd }
]

module _ (junk : FileInfo) where
  -- A new node, with the struct read into it; what the file has too few bytes for stays as it was.
  unfoldable pub read_info : Reader → Reader
  read_info s =
      let bytes = read_bytes info_size s.fd in
      record s {
        fd = read_on info_size s.fd;
        header =
            set_new_node (λ d. of_bytes (overwrite (to_bytes d) bytes))
              (make_new_node_in_fi_list junk s.header);
      }

  unfoldable pub read_header_loop : ℕ → Reader → Outcome Reader
  read_header_loop zero s = out_of_fuel
  read_header_loop (suc fuel) s = elim (length (read_bytes header_ending_size s.fd) == 0) [
    | true ↦ if s.errno then failure else ok s
    | false ↦ elim (of_le_bytes (read_mark s).buf == 0) [
      | true ↦ ok (read_mark s)
      | false ↦ read_header_loop fuel (read_info (unread_mark (read_mark s)))
    ]
  ]

  -- `buf` is what the stack holds in the place of the local of that name. Every round but the last
  -- two moves the position forward, so the bytes and two are rounds enough. At the end the
  -- descriptor is set to the start.
  unfoldable pub read_header : List ℕ → Descriptor → Bool → FiList → Outcome Reader
  read_header buf fd errno header = do
    let start : Reader = record { fd = fd; errno = errno; buf = buf; header = header }
    s ← read_header_loop (length fd.content + 2) start
    ok (record s { fd = record fd { pos = 0 } })

-- `offset` and the running sum are unsigned integers of 64 bits.
unfoldable pub offsets_loop : ℕ → ℕ → FiList → FiList
offsets_loop total raw_off (eof_node d) = eof_node d
offsets_loop total raw_off (node d r) =
    node (record d { offset = (info_size * total + header_ending_size + raw_off) % 2 ^ 64 })
      (offsets_loop total ((raw_off + d.filesize) % 2 ^ 64) r)

unfoldable pub update_offsets_in_header : FiList → FiList
update_offsets_in_header header = offsets_loop (length (infos header)) 0 header

-- `strcmp (a, b) == 0`
unfoldable pub same_string : List ℕ → List ℕ → Bool
same_string [] [] = true
same_string [] (y ∷ t) = false
same_string (x ∷ s) [] = false
same_string (x ∷ s) (y ∷ t) = if x == y then same_string s t else false

unfoldable pub is_there : FileInfo → List (List ℕ) → Bool
is_there d [] = false
is_there d (name ∷ names) = same_string (c_string d.filename) name || is_there d names

-- With the flag the named files are removed, without it all others.
unfoldable pub remove_files_from_header : Bool → List (List ℕ) → FiList → FiList
remove_files_from_header flag names (eof_node d) = eof_node d
remove_files_from_header flag names (node d r) =
    let rest = remove_files_from_header flag names r in
    if (if flag then is_there d names else not (is_there d names)) then rest else node d rest
