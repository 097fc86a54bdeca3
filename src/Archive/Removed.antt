-- ===== src/Archive/Removed.antt =====
-- archive/archiver.c: what `remove_files` makes of an archive that is laid out as the program lays
-- archives out.
use os_tasks.Base.{
  ℕ, ◌+◌, ◌*◌, ◌^◌, ◌<◌, ◌≤◌, Bool, true, false, List, [], ◌∷◌, ◌++◌, length, length-append,
  length-drop, drop, append_assoc, some, ok, ◌>>=◌, ◌≡◌, refl, sym, ap, subst, ◌∙◌, arith,
  Bool-cases, inl, inr,
}
use os_tasks.Archive.Format.{FileInfo, info_size}
use os_tasks.Archive.Descriptor.{opened, write_bytes}
use os_tasks.Archive.Header.{init_fi_list, read_header}
use os_tasks.Archive.Reading.{listed, headers, header_ending, reader, read_header-headers}
use os_tasks.Archive.Layout.{
  Entry, Member, Represents, IsLaid, without, all_infos, all_bytes, image, data_start,
}
use os_tasks.Archive.Kept.{dropped, kept, kept-without, remove_files-listed, All, All-kept}
use os_tasks.Archive.Offsets.{
  IsSized, relaid, relaid-IsLaid, update_offsets-relaid, all_bytes-relay, members-relay,
  length-relay, LaidFrom-IsSized,
}
use os_tasks.Archive.Located.{
  IsLocated, IsLaid-IsLocated, length-image, copy_infos-written, write_infos-written,
  written-append,
}
use os_tasks.Archive.Slice.{written, write_bytes-written}
use os_tasks.Archive.Remove.{Leftovers, write_infos, ending_bytes, remove_files}

pub read_header-image :
    (junk : FileInfo) (mark : List ℕ) (es : List Entry) (rest : List ℕ)
    → IsLaid es
    → length mark ≡ 4
    → let archive = image es ++ rest in
      read_header junk mark (opened archive) false (init_fi_list junk)
      ≡ ok (reader archive 0 false header_ending (listed junk (all_infos es)))
read_header-image junk mark es rest laid four =
    let header = listed junk (all_infos es) in
    subst
      (λ c.
        read_header junk mark (opened c) false (init_fi_list junk)
        ≡ ok (reader c 0 false header_ending header))
      (sym (append_assoc (headers (all_infos es)) (header_ending ++ all_bytes es) rest))
      (read_header-headers junk mark (all_bytes es ++ rest) false (all_infos es) laid.entries four)

-- The header of the temporary file.
pub new_header-written :
    (junk : FileInfo) (ds : List FileInfo) (stale : List ℕ)
    → write_bytes ending_bytes (write_infos (listed junk ds) (opened stale))
      ≡ written (headers ds ++ header_ending) (drop (length (headers ds ++ header_ending)) stale)
new_header-written junk ds stale =
    ap (write_bytes ending_bytes) (write_infos-written junk ds [] stale)
    ∙ write_bytes-written ending_bytes (headers ds) (drop (length (headers ds)) stale)
    ∙ written-append [] (headers ds) header_ending stale

pub image-written :
    (es : List Entry) (stale : List ℕ)
    → let top = headers (all_infos es) ++ header_ending in
      written (top ++ all_bytes es) (drop (length (all_bytes es)) (drop (length top) stale))
      ≡ written (image es) (drop (length (image es)) stale)
image-written es stale =
    let top = headers (all_infos es) ++ header_ending in
    written-append [] top (all_bytes es) stale
    ∙ ap (λ l. written l (drop (length l) stale))
        (append_assoc (headers (all_infos es)) header_ending (all_bytes es))

length-kept :
    (flag : Bool) (names : List (List ℕ)) (es : List Entry)
    → (length (kept flag names es) ≤ length es)
      × (length (all_bytes (kept flag names es)) ≤ length (all_bytes es))
length-kept flag names [] = (omega arith, omega arith)
length-kept flag names (e ∷ es) =
    let ih = length-kept flag names es in
    let sum = length-append e.bytes (all_bytes es) in
    let sum' = length-append e.bytes (all_bytes (kept flag names es)) in
    elim (Bool-cases (dropped flag names e.info)) [
      | inl out ↦ rw out (omega (arith, ih.0), omega (arith, ih.1, sum))
      | inr in_it ↦ rw in_it (omega (arith, ih.0), omega (arith, ih.1, sum, sum'))
    ]

sizes : (es : List Entry) → All IsSized es → All (λ e. e.info.filesize ≡ length e.bytes) es
sizes [] h = tt
sizes (e ∷ es) h = (h.0.size, sizes es h.1)

-- The entries of the new archive.
abbrev pub left_over : List (List ℕ) → List Entry → List Entry
left_over names es = relaid (kept true names es)

kept-IsSized :
    (names : List (List ℕ)) (es : List Entry) → IsLaid es → All IsSized (kept true names es)
kept-IsSized names es laid =
    All-kept IsSized true names es (LaidFrom-IsSized (data_start es) es laid.entries laid.laid)

kept-fits :
    (names : List (List ℕ)) (es : List Entry) (rest : List ℕ)
    → IsLaid es
    → length (image es ++ rest) < 2 ^ 63
    → info_size * length (kept true names es) + 4 + length (all_bytes (kept true names es)) < 2 ^ 63
kept-fits names es rest laid fits =
    let less = length-kept true names es in
    omega (arith, less.0, less.1, length-append (image es) rest, length-image es laid.entries)

pub remove_files-image :
    (mem : Leftovers) (name : List ℕ) (names : List (List ℕ)) (es : List Entry)
    (rest stale : List ℕ)
    → IsLaid es
    → length (image es ++ rest) < 2 ^ 63
    → length mem.mark ≡ 4
    → let new = image (left_over (name ∷ names) es) in
      remove_files mem (name ∷ names) (some (image es ++ rest)) stale
      ≡ ok (new ++ drop (length new) stale)
unfolding remove_files
remove_files-image mem name names es rest stale laid fits four =
    let all_names = name ∷ names in
    let archive = image es ++ rest in
    let ks = kept true all_names es in
    let sized = kept-IsSized all_names es laid in
    let bound = kept-fits all_names es rest laid fits in
    let top = headers (all_infos (relaid ks)) ++ header_ending in
    let (p, buf, run) =
      copy_infos-written mem.junk archive ks 0 top (drop (length top) stale) mem.chunk
        (All-kept (IsLocated archive) true all_names es (IsLaid-IsLocated es rest laid))
        (sizes ks sized) fits in
    let stored : all_bytes (relaid ks) ≡ all_bytes ks = all_bytes-relay (data_start ks) ks in
    let goal = image (relaid ks) ++ drop (length (image (relaid ks))) stale in
    let done =
      subst (λ b. top ++ b ++ drop (length b) (drop (length top) stale) ≡ goal) stored
        (ap (λ d. d.content) (image-written (relaid ks) stale)) in
    rw
      (
        read_header-image mem.junk mem.mark es rest laid four,
        ◌>>=◌,
        read_header-image mem.junk mem.mark es rest laid four,
        remove_files-listed mem.junk true all_names es,
        update_offsets-relaid mem.junk ks sized (omega (arith, bound)),
        new_header-written mem.junk (all_infos (relaid ks)) stale,
        run,
      )
      (ap ok done)

-- From an archive that represents the members, `remove_files` with at least one name makes, through
-- a temporary file that had the bytes `stale`, an archive that represents the members without the
-- named ones, in their old order and with their old permissions and contents. Behind it stand those
-- of the stale bytes that were not written over; there are none of them for a temporary file that
-- is new. The archive and the stale file are less than 2 ^ 63 bytes long.
pub remove_files-without :
    (mem : Leftovers) (name : List ℕ) (names : List (List ℕ)) (archive rest stale : List ℕ)
    (members : List Member)
    → Represents archive members rest
    → length mem.mark ≡ 4
    → length stale < 2 ^ 63
    → (archive' : List ℕ) × (k : ℕ) × (remove_files mem (name ∷ names) (some archive) stale
        ≡ ok archive')
      × Represents archive' (without (name ∷ names) members) (drop k stale)
remove_files-without mem name names archive rest stale members r four short =
    let all_names = name ∷ names in
    let fits : length (image r.es ++ rest) < 2 ^ 63 =
      subst (λ l. length l < 2 ^ 63) r.shape r.fits in
    let ks = kept true all_names r.es in
    let sized = kept-IsSized all_names r.es r.laid in
    let bound = kept-fits all_names r.es rest r.laid fits in
    let laid = relaid-IsLaid ks sized (omega (arith, bound)) in
    let new = image (relaid ks) in
    let size : length new < 2 ^ 63 = omega (
      arith,
      length-image (relaid ks) laid.entries,
      length-relay (data_start ks) ks,
      bound,
      ap length (all_bytes-relay (data_start ks) ks),
    ) in
    (
      new ++ drop (length new) stale,
      length new,
      ap (λ a. remove_files mem all_names (some a) stale) r.shape
          ∙ remove_files-image mem name names r.es rest stale r.laid fits four,
      record {
        es = relaid ks;
        shape = refl;
        laid = laid;
        fits =
            omega
              (arith, length-append new (drop (length new) stale), length-drop (length new) stale);
        same =
            members-relay (data_start ks) ks
            ∙ kept-without all_names r.es
            ∙ ap (without all_names) r.same;
      },
    )
