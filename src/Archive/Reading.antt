-- ===== src/Archive/Reading.antt =====
-- archive/archiver.c: `read_header` on a header as the program writes it, and on any bytes.
use os_tasks.Base.{
  ℕ, zero, suc, ◌+◌, ◌-◌, ◌*◌, ◌<◌, Bool, true, false, ◌==◌, ltb, List, [], ◌∷◌, ◌++◌, length,
  length-append, length-take, take, drop, drop-all, append-nil, take-prefix, drop-prefix, drop-add,
  if◌then◌else◌, append_assoc, ok, failure, ◌≡◌, ◌≢◌, refl, ap, ◌∙◌, arith,
}
use os_tasks.Archive.Format.{
  FileInfo, IsInfo, info_size, to_bytes, of_bytes, of_le_bytes, c_string, length-to_bytes,
  of_bytes-to_bytes,
}
use os_tasks.Archive.Descriptor.{opened, overwrite}
use os_tasks.Archive.Header.{
  FiList, eof_node, node, make_new_node_in_fi_list, set_new_node, init_fi_list, Reader, read_mark,
  unread_mark, read_info, read_header_loop, read_header,
}

-- A list with these nodes.
abbrev pub listed : FileInfo → List FileInfo → FiList
listed junk [] = eof_node junk
listed junk (d ∷ ds) = node d (listed junk ds)

-- The bytes of the structs, one after another.
abbrev pub headers : List FileInfo → List ℕ
headers [] = []
headers (d ∷ ds) = to_bytes d ++ headers ds

abbrev pub header_ending : List ℕ
header_ending = 0 ∷ 0 ∷ 0 ∷ 0 ∷ []

-- Every struct is whole, and has a name.
pub record IsEntry (d : FileInfo) : Type 0 where
  pub info : IsInfo d
  pub named : c_string d.filename ≢ []

abbrev pub AllEntries : List FileInfo → Type 0
AllEntries [] = Unit
AllEntries (d ∷ ds) = IsEntry d × AllEntries ds

pub set_new_node-listed :
    (junk : FileInfo) (f : FileInfo → FileInfo) (ds : List FileInfo)
    → set_new_node f (make_new_node_in_fi_list junk (listed junk ds))
      ≡ listed junk (ds ++ f junk ∷ [])
unfolding set_new_node make_new_node_in_fi_list init_fi_list
set_new_node-listed junk f [] = refl
set_new_node-listed junk f (d ∷ []) = refl
set_new_node-listed junk f (d ∷ d' ∷ ds) = ap (node d) (set_new_node-listed junk f (d' ∷ ds))

mark-filename : (name tail : List ℕ) → c_string name ≢ [] → of_le_bytes (take 4 (name ++ tail)) ≢ 0
unfolding c_string
mark-filename [] tail h = absurd (h refl)
mark-filename (zero ∷ name) tail h = absurd (h refl)
mark-filename (suc c ∷ name) tail h = omega arith

abbrev pub reader : List ℕ → ℕ → Bool → List ℕ → FiList → Reader
reader content p errno buf header = record {
  fd = record { content = content; pos = p };
  errno = errno;
  buf = buf;
  header = header;
}

module _ (d : FileInfo) (rest : List ℕ) (e : IsEntry d) where
  -- The first four bytes of a named entry are not all zero.
  named-mark : of_le_bytes (take 4 (to_bytes d ++ rest)) ≢ 0
  unfolding to_bytes
  named-mark = rw append_assoc (mark-filename d.filename _ e.named)

  info-length : length (to_bytes d ++ rest) ≡ info_size + length rest
  info-length = omega (arith, length-append (to_bytes d) rest, length-to_bytes d e.info)

  mark-length : length (take 4 (to_bytes d ++ rest)) ≡ 4
  mark-length = omega (arith, length-take 4 (to_bytes d ++ rest), info-length)

  info_read : take info_size (to_bytes d ++ rest) ≡ to_bytes d
  info_read = take-prefix info_size (to_bytes d) rest (length-to_bytes d e.info)

  -- A round on a whole entry puts it at the end of the list.
  info_round :
      (junk : FileInfo) (fuel p : ℕ) (content buf : List ℕ) (errno : Bool) (ds : List FileInfo)
      → drop p content ≡ to_bytes d ++ rest
      → length buf ≡ 4
      → read_header_loop junk (suc fuel) (reader content p errno buf (listed junk ds))
        ≡ read_header_loop junk fuel (
            reader content
              (p + info_size)
              errno
              (take 4 (to_bytes d ++ rest))
              (listed junk (ds ++ d ∷ [])))
  unfolding read_header_loop
  info_round junk fuel p content buf errno ds here four =
      let more : (length (take 4 (drop p content)) == 0) ≡ false =
        rw here (ground (arith, mark-length)) in
      let named : (of_le_bytes (take 4 (to_bytes d ++ rest)) == 0) ≡ false =
        ground (arith, named-mark) in
      let open_mark : (of_le_bytes (read_mark s).buf == 0) ≡ false = rw marked named in
      rw (more, read_header_loop, open_mark, marked, unread, entered)
    where
      s : Reader
      s = reader content p errno buf (listed junk ds)

      marked :
          read_mark s ≡ reader content (p + 4) errno (take 4 (to_bytes d ++ rest)) (listed junk ds)
      marked =
          unfold read_mark in
          (let old : drop 4 buf ≡ [] = drop-all 4 buf (omega arith) in
            rw (here, mark-length, old, append-nil))

      unread :
          unread_mark (reader content (p + 4) errno (take 4 (to_bytes d ++ rest)) (listed junk ds))
          ≡ reader content p errno (take 4 (to_bytes d ++ rest)) (listed junk ds)
      unread =
          unfold unread_mark in
          (let inside : ltb (p + 4) 4 ≡ false = ground arith in
            let start : p + 4 - 4 ≡ p = omega arith in rw (inside, unread_mark, start))

      whole : of_bytes (overwrite (to_bytes junk) (to_bytes d)) ≡ d
      whole = of_bytes-to_bytes d (drop (length (to_bytes d)) (to_bytes junk)) e.info

      entered :
          read_info junk (reader content p errno (take 4 (to_bytes d ++ rest)) (listed junk ds))
          ≡ reader content
              (p + info_size)
              errno
              (take 4 (to_bytes d ++ rest))
              (listed junk (ds ++ d ∷ []))
      entered =
          unfold read_info in
          rw (
            here,
            info_read,
            set_new_node-listed junk (λ c. of_bytes (overwrite (to_bytes c) (to_bytes d))) ds,
            whole,
            length-to_bytes d e.info,
          )

-- The four zero bytes end the list.
ending_round :
    (junk : FileInfo) (fuel p : ℕ) (content buf stored : List ℕ) (errno : Bool) (header : FiList)
    → drop p content ≡ header_ending ++ stored
    → length buf ≡ 4
    → read_header_loop junk (suc fuel) (reader content p errno buf header)
      ≡ ok (reader content (p + 4) errno header_ending header)
unfolding read_header_loop
ending_round junk fuel p content buf stored errno header here four =
    rw (more, read_header_loop, ended, marked)
  where
    s : Reader
    s = reader content p errno buf header

    marked : read_mark s ≡ reader content (p + 4) errno header_ending header
    marked =
        unfold read_mark in
        (let old : drop 4 buf ≡ [] = drop-all 4 buf (omega arith) in rw (here, old))

    more : (length (take 4 (drop p content)) == 0) ≡ false
    more = rw here refl

    ended : (of_le_bytes (read_mark s).buf == 0) ≡ true
    ended = rw marked refl

pub length-headers :
    (ds : List FileInfo) → AllEntries ds → length (headers ds) ≡ info_size * length ds
length-headers [] h = refl
length-headers (d ∷ ds) h = omega (
  arith,
  length-append (to_bytes d) (headers ds),
  length-to_bytes d h.0.info,
  length-headers ds h.1,
)

read_entries :
    (junk : FileInfo) (fuel p : ℕ) (content buf stored : List ℕ) (errno : Bool)
    (found ds : List FileInfo)
    → AllEntries ds
    → drop p content ≡ headers ds ++ (header_ending ++ stored)
    → length buf ≡ 4
    → length ds < fuel
    → (p' : ℕ) × (read_header_loop junk fuel (reader content p errno buf (listed junk found))
        ≡ ok (reader content p' errno header_ending (listed junk (found ++ ds))))
read_entries junk zero p content buf stored errno found ds all here four f = absurd (omega arith)
read_entries junk (suc fuel) p content buf stored errno found [] all here four f = (
  p + 4,
  rw append-nil (ending_round junk fuel p content buf stored errno (listed junk found) here four),
)
read_entries junk (suc fuel) p content buf stored errno found (d ∷ ds) all here four f =
    let rest = headers ds ++ (header_ending ++ stored) in
    let here' : drop p content ≡ to_bytes d ++ rest =
      here ∙ append_assoc (to_bytes d) (headers ds) _ in
    let there : drop (p + info_size) content ≡ rest =
      drop-add p info_size content
      ∙ ap (drop info_size) here'
      ∙ drop-prefix info_size (to_bytes d) rest (length-to_bytes d all.0.info) in
    let (p', ih) =
      read_entries junk fuel (p + info_size) content (take 4 (to_bytes d ++ rest)) stored errno
        (found ++ d ∷ []) ds all.1 there (mark-length d rest all.0) (omega arith) in
    (
      p',
      info_round d rest all.0 junk fuel p content buf errno found here' four
          ∙ ih
          ∙ ap (λ l. ok (reader content p' errno header_ending (listed junk l)))
              (append_assoc found (d ∷ []) ds),
    )

-- A header of whole, named entries with its ending is read as the list of the entries, whatever
-- stands behind it and whatever `errno` is; the descriptor is at its start again.
pub read_header-headers :
    (junk : FileInfo) (buf stored : List ℕ) (errno : Bool) (ds : List FileInfo)
    → AllEntries ds
    → length buf ≡ 4
    → let content = headers ds ++ (header_ending ++ stored) in
      read_header junk buf (opened content) errno (init_fi_list junk)
      ≡ ok (reader content 0 errno header_ending (listed junk ds))
unfolding read_header init_fi_list
read_header-headers junk buf stored errno ds all four =
    let content = headers ds ++ (header_ending ++ stored) in
    let size : length content ≡ info_size * length ds + 4 + length stored =
      omega (arith, length-append (headers ds) (header_ending ++ stored), length-headers ds all) in
    let (p, run) =
      read_entries junk (length content + 2) 0 content buf stored errno [] ds all refl four
        (omega arith) in
    rw run

-- An empty archive has an empty list, unless an earlier error is still in `errno`: then the program
-- takes the end of the file for an error of `read` and exits with failure.
pub read_header_empty :
    (junk : FileInfo) (buf : List ℕ) (errno : Bool)
    → read_header junk buf (opened []) errno (init_fi_list junk)
      ≡ (if errno then failure else ok (reader [] 0 false buf (listed junk [])))
unfolding read_header read_header_loop init_fi_list
read_header_empty junk buf true = refl
read_header_empty junk buf false = refl
