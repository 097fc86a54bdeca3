-- ===== src/Archive/Insertion.antt =====
-- archive/archiver.c: what `insert_files_routine` makes of an archive whose header is read.
use os_tasks.Base.{
  ℕ, ◌+◌, ◌*◌, ◌^◌, ◌<◌, ◌≤◌, true, false, ◌==◌, ltb, List, [], ◌∷◌, ◌++◌, map, length,
  length-append, drop, append_assoc, append-nil, some, ok, ◌>>=◌, ◌≡◌, refl, sym, ap, ◌∙◌, arith,
  if◌then◌else◌,
}
use os_tasks.Archive.Format.{FileInfo, info_size}
use os_tasks.Archive.Descriptor.{Descriptor, opened, seek_set}
use os_tasks.Archive.Header.{FiList, init_fi_list, head_data, read_header}
use os_tasks.Archive.Reading.{listed, headers, header_ending, reader, read_header_empty}
use os_tasks.Archive.Layout.{Entry, Member, IsLaid, member, all_infos, all_bytes, image, data_start}
use os_tasks.Archive.Kept.{All}
use os_tasks.Archive.Offsets.{
  IsSized, relaid, update_offsets-relaid, all_bytes-relay, LaidFrom-IsSized,
}
use os_tasks.Archive.Located.{length-image, image-stored, written-append}
use os_tasks.Archive.Slice.{at, written}
use os_tasks.Archive.Remove.{Leftovers}
use os_tasks.Archive.Removed.{read_header-image, new_header-written, image-written}
use os_tasks.Archive.Appended.{append_rest-written}
use os_tasks.Archive.Put.{
  Source, AllSources, source_path, put_entry, put_entries, update_header-listed,
  append_files-written, put_entries-IsSized,
}
use os_tasks.Archive.Input.{Inputs, insert_files_routine, input_files}

pub all_infos-append : (es fs : List Entry) → all_infos (es ++ fs) ≡ all_infos es ++ all_infos fs
all_infos-append [] fs = refl
all_infos-append (e ∷ es) fs = ap (λ l. e.info ∷ l) (all_infos-append es fs)

pub all_bytes-append : (es fs : List Entry) → all_bytes (es ++ fs) ≡ all_bytes es ++ all_bytes fs
all_bytes-append [] fs = refl
all_bytes-append (e ∷ es) fs =
    ap (λ l. e.bytes ++ l) (all_bytes-append es fs)
    ∙ sym (append_assoc e.bytes (all_bytes es) (all_bytes fs))

pub All-append : (P : Entry → Type 0) (es fs : List Entry) → All P es → All P fs → All P (es ++ fs)
All-append P [] fs h h' = h'
All-append P (e ∷ es) fs h h' = (h.0, All-append P es fs h.1 h')

-- Where `insert_files_routine` starts to copy the contents.
abbrev pub contents_from : List ℕ → FiList → Descriptor
contents_from archive header =
    let fd_end = at archive (length archive) in
    if length archive == 0 then fd_end else seek_set (head_data header).offset fd_end

-- The header of the archive is read as that of the entries, and their contents are found.
pub record Readable (mem : Leftovers) (archive : List ℕ) (es : List Entry) : Type 0 where
  mark : List ℕ
  run :
      read_header mem.junk mem.mark (opened archive) false (init_fi_list mem.junk)
      ≡ ok (reader archive 0 false mark (listed mem.junk (all_infos es)))
  start : ℕ
  start_found : contents_from archive (listed mem.junk (all_infos es)) ≡ at archive start
  contents : drop start archive ≡ all_bytes es
  sized : All IsSized es
  length_of : info_size * length es + length (all_bytes es) ≤ length archive

pub empty-Readable : (mem : Leftovers) → Readable mem [] []
empty-Readable mem = record {
  mark = mem.mark;
  run = read_header_empty mem.junk mem.mark false;
  start = 0;
  start_found = refl;
  contents = refl;
  sized = tt;
  length_of = omega arith;
}

pub image-Readable :
    (mem : Leftovers) (m : Member) (ms : List Member) (es : List Entry)
    → map member es ≡ m ∷ ms
    → IsLaid es
    → length (image es ++ []) < 2 ^ 63
    → length mem.mark ≡ 4
    → Readable mem (image es ++ []) es
unfolding head_data os_tasks.Archive.Format.to_bytes
image-Readable mem m ms [] same laid fits four = absurd (cc same)
image-Readable mem m ms (e ∷ es) same laid fits four =
    let all = e ∷ es in
    let archive = image all ++ [] in
    let size = length-image all laid.entries in
    let sum = length-append (image all) [] in
    let some_bytes : (length archive == 0) ≡ false = ground (arith, sum, size) in
    let reachable : ltb (data_start all) (2 ^ 63) ≡ true = ground (arith, sum, size) in
    record {
      mark = header_ending;
      run = read_header-image mem.junk mem.mark all [] laid four;
      start = data_start all;
      start_found = rw (some_bytes, laid.laid.1, reachable) refl;
      contents = image-stored all [] laid ∙ append-nil (all_bytes all);
      sized = LaidFrom-IsSized (data_start all) all laid.entries laid.laid;
      length_of = omega (arith, sum, size);
    }

-- The archive after the files have been put in.
abbrev pub put_in : FileInfo → List Entry → List Source → List Entry
put_in junk es xs = es ++ put_entries junk xs

pub insert_files_routine-written :
    (files : Inputs) (mem : Leftovers) (archive stale : List ℕ) (es : List Entry) (xs : List Source)
    → Readable mem archive es
    → AllSources files xs
    → let ns = put_in mem.junk es xs in
      let new = image (relaid ns) in
      insert_files_routine files mem
        (listed mem.junk (all_infos (relaid ns)))
        (opened archive)
        false
        (opened stale)
        (map source_path xs)
      ≡ ok (written new (drop (length new) stale))
unfolding insert_files_routine
insert_files_routine-written files mem archive stale es xs r h =
    let ns = put_in mem.junk es xs in
    let top = headers (all_infos (relaid ns)) ++ header_ending in
    let old = all_bytes es in
    let bytes = all_bytes (put_entries mem.junk xs) in
    let stored : old ++ bytes ≡ all_bytes (relaid ns) =
      sym (all_bytes-relay (data_start ns) ns ∙ all_bytes-append es (put_entries mem.junk xs)) in
    rw
      (
        r.run,
        ◌>>=◌,
        r.start_found,
        new_header-written mem.junk (all_infos (relaid ns)) stale,
        append_rest-written r.start archive top (drop (length top) stale),
        r.contents,
        ◌>>=◌,
        append_files-written files mem.junk xs (top ++ old)
            (drop (length old) (drop (length top) stale)) h,
      )
      (ap ok (
        written-append top old bytes (drop (length top) stale)
        ∙ ap (λ b. written (top ++ b) (drop (length b) (drop (length top) stale))) stored
        ∙ image-written (relaid ns) stale))

-- The bytes that the files add to an archive at most.
abbrev pub added : List Source → ℕ
added [] = 0
added (x ∷ xs) = info_size + length x.bytes + added xs

pub length-added :
    (fi : FileInfo) (xs : List Source)
    → info_size * length (put_entries fi xs) + length (all_bytes (put_entries fi xs)) ≡ added xs
length-added fi [] = refl
length-added fi (x ∷ xs) =
    let d = (put_entry fi x).info in
    omega (arith, length-append x.bytes (all_bytes (put_entries d xs)), length-added d xs)

pub put_in-fits :
    (mem : Leftovers) (archive : List ℕ) (es : List Entry) (xs : List Source)
    → Readable mem archive es
    → length archive + 4 + added xs < 2 ^ 63
    → let ns = put_in mem.junk es xs in info_size * length ns + 4 + length (all_bytes ns) < 2 ^ 63
put_in-fits mem archive es xs r fits =
    let new = put_entries mem.junk xs in
    omega (
      arith,
      length-append es new,
      ap length (all_bytes-append es new),
      length-append (all_bytes es) (all_bytes new),
      length-added mem.junk xs,
      r.length_of,
    )

pub put_in-IsSized :
    (files : Inputs) (mem : Leftovers) (archive : List ℕ) (es : List Entry) (xs : List Source)
    → Readable mem archive es
    → AllSources files xs
    → length mem.junk.filename ≡ 256
    → All IsSized (put_in mem.junk es xs)
put_in-IsSized files mem archive es xs r h whole =
    All-append IsSized es (put_entries mem.junk xs) r.sized
      (put_entries-IsSized files mem.junk xs h whole)

pub input_files-image :
    (files : Inputs) (mem : Leftovers) (archive stale : List ℕ) (es : List Entry) (x : Source)
    (xs : List Source)
    → Readable mem archive es
    → AllSources files (x ∷ xs)
    → length mem.junk.filename ≡ 256
    → length archive + 4 + added (x ∷ xs) < 2 ^ 63
    → let new = image (relaid (put_in mem.junk es (x ∷ xs))) in
      input_files files mem (map source_path (x ∷ xs)) (some archive) stale
      ≡ ok (new ++ drop (length new) stale)
unfolding input_files
input_files-image files mem archive stale es x xs r h whole fits =
    let all = x ∷ xs in
    let ns = put_in mem.junk es all in
    let bound = put_in-fits mem archive es all r fits in
    let sized = put_in-IsSized files mem archive es all r h whole in
    let some_files : (0 + length all == 0) ≡ false = ground arith in
    let infos : all_infos es ++ all_infos (put_entries mem.junk all) ≡ all_infos ns =
      sym (all_infos-append es (put_entries mem.junk all)) in
    rw (
      r.run,
      ◌>>=◌,
      update_header-listed files mem.junk mem.junk (all_infos es) all 0 h,
      ◌>>=◌,
      infos,
      update_offsets-relaid mem.junk ns sized (omega (arith, bound)),
      insert_files_routine-written files mem archive stale es all r h,
      some_files,
    )
