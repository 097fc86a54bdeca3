-- ===== src/Archive/Located.antt =====
-- Where the bytes of a laid out archive stand, and what `copy_infos` and `write_infos` of
-- archive/archiver.c make of them.
use os_tasks.Base.{
  ℕ, ◌+◌, ◌*◌, ◌^◌, ◌<◌, ◌≤◌, List, [], ◌∷◌, ◌++◌, length, length-append, drop, take-prefix,
  drop-prefix, drop-add, append_assoc, append-nil, ◌≡◌, refl, sym, ap, ◌∙◌, arith, ok, ◌>>=◌,
}
use os_tasks.Archive.Format.{FileInfo, info_size, to_bytes}
use os_tasks.Archive.Descriptor.{Descriptor}
use os_tasks.Archive.Reading.{listed, headers, header_ending, AllEntries, length-headers}
use os_tasks.Archive.Layout.{Entry, all_infos, all_bytes, image, LaidFrom, data_start, IsLaid}
use os_tasks.Archive.Kept.{All}
use os_tasks.Archive.Offsets.{length-all_infos}
use os_tasks.Archive.Copy.{Copier, copy_file}
use os_tasks.Archive.Slice.{at, slice, written, write_bytes-written, copy_file-slice}
use os_tasks.Archive.Remove.{write_infos, copy_infos}

-- The bytes of the entry stand in the archive where its struct says.
pub record IsLocated (archive : List ℕ) (e : Entry) : Type 0 where
  pub inside : e.info.offset + e.info.filesize ≤ length archive
  pub found : slice e.info.offset e.info.filesize archive ≡ e.bytes

LaidFrom-IsLocated :
    (archive : List ℕ) (p : ℕ) (es : List Entry) (rest : List ℕ)
    → LaidFrom p es
    → p + length (all_bytes es) ≤ length archive
    → drop p archive ≡ all_bytes es ++ rest
    → All (IsLocated archive) es
LaidFrom-IsLocated archive p [] rest l h e = tt
LaidFrom-IsLocated archive p (x ∷ es) rest l h e =
    let sum = length-append x.bytes (all_bytes es) in
    let behind : drop p archive ≡ x.bytes ++ (all_bytes es ++ rest) =
      e ∙ append_assoc x.bytes (all_bytes es) rest in
    let after : drop (p + length x.bytes) archive ≡ all_bytes es ++ rest =
      drop-add p (length x.bytes) archive
      ∙ ap (drop (length x.bytes)) behind
      ∙ drop-prefix (length x.bytes) x.bytes (all_bytes es ++ rest) refl in
    (
      record {
        inside = omega (arith, sum, l.0, l.1);
        found =
            rw (l.0, l.1, behind)
              (take-prefix (length x.bytes) x.bytes (all_bytes es ++ rest) refl);
      },
      LaidFrom-IsLocated archive (p + length x.bytes) es rest l.2 (omega (arith, sum)) after,
    )

pub length-image :
    (es : List Entry)
    → AllEntries (all_infos es)
    → length (image es) ≡ info_size * length es + 4 + length (all_bytes es)
length-image es all = omega (
  arith,
  length-append (headers (all_infos es)) (header_ending ++ all_bytes es),
  length-headers (all_infos es) all,
  length-all_infos es,
)

-- What stands behind the header of a laid out archive.
pub image-stored :
    (es : List Entry) (rest : List ℕ)
    → IsLaid es
    → drop (data_start es) (image es ++ rest) ≡ all_bytes es ++ rest
image-stored es rest l =
    let top : List ℕ = headers (all_infos es) in
    let archive : List ℕ = image es ++ rest in
    let sizes : length top ≡ info_size * length es =
      omega (arith, length-headers (all_infos es) l.entries, length-all_infos es) in
    let whole : archive ≡ top ++ (header_ending ++ (all_bytes es ++ rest)) =
      append_assoc top (header_ending ++ all_bytes es) rest in
    let ended : drop (info_size * length es) archive ≡ header_ending ++ (all_bytes es ++ rest) =
      ap (drop (info_size * length es)) whole
      ∙ drop-prefix (info_size * length es) top (header_ending ++ (all_bytes es ++ rest)) sizes in
    drop-add (info_size * length es) 4 archive ∙ ap (drop 4) ended

-- Every entry of a laid out archive is found, whatever follows the last.
pub IsLaid-IsLocated :
    (es : List Entry) (rest : List ℕ) → IsLaid es → All (IsLocated (image es ++ rest)) es
IsLaid-IsLocated es rest l =
    LaidFrom-IsLocated (image es ++ rest) (data_start es) es rest l.laid
      (omega (arith, length-append (image es) rest, length-image es l.entries))
      (image-stored es rest l)

-- Writing in two steps.
pub written-append :
    (out bs cs tail : List ℕ)
    → written (out ++ bs ++ cs) (drop (length cs) (drop (length bs) tail))
      ≡ written (out ++ (bs ++ cs)) (drop (length (bs ++ cs)) tail)
written-append out bs cs tail =
    ap (λ l. written l (drop (length cs) (drop (length bs) tail))) (append_assoc out bs cs)
    ∙ ap (written (out ++ (bs ++ cs))) (
        sym (drop-add (length bs) (length cs) tail)
        ∙ ap (λ n. drop n tail) (sym (length-append bs cs)))

pub write_infos-written :
    (junk : FileInfo) (ds : List FileInfo) (out tail : List ℕ)
    → write_infos (listed junk ds) (written out tail)
      ≡ written (out ++ headers ds) (drop (length (headers ds)) tail)
unfolding write_infos
write_infos-written junk [] out tail = ap (λ l. written l tail) (sym (append-nil out))
write_infos-written junk (d ∷ ds) out tail =
    ap (write_infos (listed junk ds)) (write_bytes-written (to_bytes d) out tail)
    ∙ write_infos-written junk ds (out ++ to_bytes d) (drop (length (to_bytes d)) tail)
    ∙ written-append out (to_bytes d) (headers ds) tail

abbrev pub copying : List ℕ → ℕ → Descriptor → List ℕ → Copier
copying archive p new buf = record { old = at archive p; new = new; buf = buf }

pub copy_entry :
    (archive : List ℕ) (e : Entry) (p : ℕ) (out tail buf : List ℕ)
    → IsLocated archive e
    → e.info.filesize ≡ length e.bytes
    → length archive < 2 ^ 63
    → (p' : ℕ) × (buf' : List ℕ) × (copy_file e.info.filesize e.info.offset
          (copying archive p (written out tail) buf)
        ≡ ok (copying archive p' (written (out ++ e.bytes) (drop (length e.bytes) tail)) buf'))
copy_entry archive e p out tail buf here size fits =
    let d = e.info in
    let (buf', run) = copy_file-slice d.filesize d.offset archive out tail buf p here.inside fits in
    (
      d.offset + d.filesize,
      buf',
      run
          ∙ ap
              (λ l. ok (
                copying archive (d.offset + d.filesize) (written (out ++ l) (drop d.filesize tail))
                  buf'))
              here.found
          ∙ ap
              (λ n. ok (
                copying archive (d.offset + d.filesize) (written (out ++ e.bytes) (drop n tail))
                  buf'))
              size,
    )

-- The bytes of the located entries, in the order of the list.
pub copy_infos-written :
    (junk : FileInfo) (archive : List ℕ) (es : List Entry) (p : ℕ) (out tail buf : List ℕ)
    → All (IsLocated archive) es
    → All (λ e. e.info.filesize ≡ length e.bytes) es
    → length archive < 2 ^ 63
    → (p' : ℕ) × (buf' : List ℕ) × (copy_infos
          (listed junk (all_infos es))
          (copying archive p (written out tail) buf)
        ≡ ok (
            copying archive p'
              (written (out ++ all_bytes es) (drop (length (all_bytes es)) tail))
              buf'))
unfolding copy_infos
copy_infos-written junk archive [] p out tail buf h sizes fits =
    (p, buf, ap (λ l. ok (copying archive p (written l tail) buf)) (sym (append-nil out)))
copy_infos-written junk archive (e ∷ es) p out tail buf h sizes fits =
    let (p1, buf1, run) = copy_entry archive e p out tail buf h.0 sizes.0 fits in
    let (p', buf', ih) =
      copy_infos-written junk archive es p1 (out ++ e.bytes) (drop (length e.bytes) tail) buf1 h.1
        sizes.1 fits in
    (
      p',
      buf',
      ap (λ r. r >>= copy_infos (listed junk (all_infos es))) run
          ∙ ih
          ∙ ap (λ w. ok (copying archive p' w buf'))
              (written-append out e.bytes (all_bytes es) tail),
    )
