-- ===== src/Archive/Put.antt =====
-- archive/archiver.c: the structs that `update_header_for_input` makes of regular files that can be
-- read, and the bytes that `insert_files_routine` appends for them.
use os_tasks.Base.{
  ℕ, suc, ◌+◌, ◌^◌, ◌<◌, true, false, ◌||◌, ◌==◌, ltb, List, [], ◌∷◌, ◌++◌, map, length,
  length-append, length-drop, drop, append_assoc, append-nil, NoNul, bit_and, bit_and-le,
  Bool-cases, inl, inr, some, ok, ◌≡◌, ◌≢◌, refl, sym, ap, ◌∙◌, arith,
}
use os_tasks.Archive.Format.{FileInfo, IsInfo, c_string}
use os_tasks.Archive.Reading.{listed, set_new_node-listed}
use os_tasks.Archive.Layout.{Entry, Member, member, all_infos, all_bytes}
use os_tasks.Archive.Kept.{All}
use os_tasks.Archive.Offsets.{IsSized}
use os_tasks.Archive.Slice.{written}
use os_tasks.Archive.Located.{written-append}
use os_tasks.Archive.Appended.{append_rest-written}
use os_tasks.Archive.Input.{
  Inputs, is_regular, has_slash, plain_name, input_info, update_header_for_input, append_files,
}

-- A file to put in.
pub record Source : Type 0 where
  pub path : List ℕ
  pub st_mode : ℕ
  pub bytes : List ℕ

-- It is a regular file that can be read, with a name that fits into the struct.
pub record IsSource (files : Inputs) (x : Source) : Type 0 where
  pub stat : files.stat x.path ≡ some x.st_mode
  pub regular : is_regular x.st_mode ≡ true
  pub size : files.size x.path ≡ some (length x.bytes)
  pub content : files.content x.path ≡ some x.bytes
  pub clean : NoNul x.path
  pub named : plain_name x.path ≢ []
  pub short : length (plain_name x.path) < 256
  pub bytes_fit : length x.bytes < 2 ^ 64

abbrev pub AllSources : Inputs → List Source → Type 0
AllSources files [] = Unit
AllSources files (x ∷ xs) = IsSource files x × AllSources files xs

-- The member that it becomes.
abbrev pub source_member : Source → Member
source_member x = record { name = plain_name x.path; mask = bit_and x.st_mode 511; bytes = x.bytes }

abbrev pub source_path : Source → List ℕ
source_path x = x.path

abbrev pub put_entry : FileInfo → Source → Entry
put_entry fi x = record {
  info = record {
    filename = plain_name x.path ++ 0 ∷ drop (length (plain_name x.path) + 1) fi.filename;
    filesize = length x.bytes;
    mask = bit_and x.st_mode 511;
    offset = 0;
  };
  bytes = x.bytes;
}

abbrev pub put_entries : FileInfo → List Source → List Entry
put_entries fi [] = []
put_entries fi (x ∷ xs) = put_entry fi x ∷ put_entries (put_entry fi x).info xs

pub update_header-listed :
    (files : Inputs) (junk fi : FileInfo) (ds : List FileInfo) (xs : List Source) (n : ℕ)
    → AllSources files xs
    → update_header_for_input files junk fi
        (map source_path xs)
        (record { header = listed junk ds; errno = false; inserted_files = n })
      ≡ ok (record {
        header = listed junk (ds ++ all_infos (put_entries fi xs));
        errno = false;
        inserted_files = n + length xs;
      })
unfolding update_header_for_input input_info
update_header-listed files junk fi ds [] n h =
    let same : n ≡ n + 0 = omega arith in
    λ i. ok (record {
      header = listed junk (sym (append-nil ds) i);
      errno = false;
      inserted_files = same i;
    })
update_header-listed files junk fi ds (x ∷ xs) n h =
    let s = h.0 in
    let d = (put_entry fi x).info in
    let fits : ltb (length (plain_name x.path)) 256 ≡ true = ground (arith, s.short) in
    let count : n + 1 + length xs ≡ n + suc (length xs) = omega arith in
    rw
      (
        s.stat,
        update_header_for_input,
        s.regular,
        fits,
        s.size,
        set_new_node-listed junk (λ _. d) ds,
      )
      (update_header-listed files junk d (ds ++ d ∷ []) xs (n + 1) h.1 ∙ λ i. ok (record {
        header = listed junk (append_assoc ds (d ∷ []) (all_infos (put_entries d xs)) i);
        errno = false;
        inserted_files = count i;
      }))

pub append_files-written :
    (files : Inputs) (fi : FileInfo) (xs : List Source) (out tail : List ℕ)
    → AllSources files xs
    → let bytes = all_bytes (put_entries fi xs) in
      append_files files (map source_path xs) (written out tail)
      ≡ ok (written (out ++ bytes) (drop (length bytes) tail))
unfolding append_files
append_files-written files fi [] out tail h = ap (λ l. ok (written l tail)) (sym (append-nil out))
append_files-written files fi (x ∷ xs) out tail h =
    let rest = all_bytes (put_entries (put_entry fi x).info xs) in
    rw (h.0.content, append_files, append_rest-written 0 x.bytes out tail)
      (append_files-written files (put_entry fi x).info xs (out ++ x.bytes)
          (drop (length x.bytes) tail) h.1
        ∙ ap ok (written-append out x.bytes rest tail))

c_string-ended : (name tail : List ℕ) → NoNul name → c_string (name ++ 0 ∷ tail) ≡ name
unfolding c_string
c_string-ended [] tail h = refl
c_string-ended (c ∷ name) tail h =
    let kept : (c == 0) ≡ false = ground (arith, h.0) in
    rw kept (ap (λ l. c ∷ l) (c_string-ended name tail h.1))

plain_name-NoNul : (path : List ℕ) → NoNul path → NoNul (plain_name path)
unfolding plain_name
plain_name-NoNul [] h = tt
plain_name-NoNul (c ∷ s) h = elim (Bool-cases (c == b'/' || has_slash s)) [
  | inl cut ↦ rw cut (plain_name-NoNul s h.1)
  | inr whole ↦ rw whole h
]

put_entry-name :
    (files : Inputs) (fi : FileInfo) (x : Source)
    → IsSource files x
    → c_string (put_entry fi x).info.filename ≡ plain_name x.path
put_entry-name files fi x h = c_string-ended (plain_name x.path) _ (plain_name-NoNul x.path h.clean)

-- They stand for the files.
pub members-put_entries :
    (files : Inputs) (fi : FileInfo) (xs : List Source)
    → AllSources files xs
    → map member (put_entries fi xs) ≡ map source_member xs
members-put_entries files fi [] h = refl
members-put_entries files fi (x ∷ xs) h =
    let name = put_entry-name files fi x h.0 in
    let rest = members-put_entries files (put_entry fi x).info xs h.1 in
    λ i. record { name = name i; mask = bit_and x.st_mode 511; bytes = x.bytes } ∷ rest i

pub put_entries-IsSized :
    (files : Inputs) (fi : FileInfo) (xs : List Source)
    → AllSources files xs
    → length fi.filename ≡ 256
    → All IsSized (put_entries fi xs)
put_entries-IsSized files fi [] h whole = tt
put_entries-IsSized files fi (x ∷ xs) h whole =
    let d = (put_entry fi x).info in
    let name = plain_name x.path in
    let full : length d.filename ≡ 256 = omega (
      arith,
      length-append name (0 ∷ drop (length name + 1) fi.filename),
      length-drop (length name + 1) fi.filename,
      whole,
      h.0.short,
    ) in
    let info : IsInfo d = record {
      whole = full;
      filesize_fits = h.0.bytes_fit;
      mask_fits = omega (arith, bit_and-le x.st_mode 511);
      offset_fits = omega arith;
    } in
    (
      record {
        entry = record {
          info = info;
          named = λ e. h.0.named (sym (put_entry-name files fi x h.0) ∙ e);
        };
        size = refl;
      },
      put_entries-IsSized files d xs h.1 full,
    )
