-- ===== src/Archive/Offsets.antt =====
-- archive/archiver.c, `update_offsets_in_header`: entries laid one behind another.
use os_tasks.Base.{
  ℕ, ◌+◌, ◌*◌, ◌%◌, ◌^◌, ◌<◌, List, [], ◌∷◌, ◌++◌, map, length, length-append, ◌≡◌, refl, ap, ◌∙◌,
  arith,
}
use os_tasks.Archive.Format.{FileInfo, IsInfo, info_size}
use os_tasks.Archive.Header.{node, infos, offsets_loop, update_offsets_in_header}
use os_tasks.Archive.Reading.{listed, IsEntry, AllEntries}
use os_tasks.Archive.Layout.{Entry, all_infos, all_bytes, LaidFrom, IsLaid, member}
use os_tasks.Archive.Kept.{All}

-- The entries with new offsets, from `at` on.
abbrev pub relay : ℕ → List Entry → List Entry
relay at [] = []
relay at (e ∷ es) =
    record e { info = record e.info { offset = at } } ∷ relay (at + length e.bytes) es

abbrev pub relaid : List Entry → List Entry
relaid es = relay (info_size * length es + 4) es

-- An entry whose struct is whole and tells the size of its bytes.
pub record IsSized (e : Entry) : Type 0 where
  pub entry : IsEntry e.info
  pub size : e.info.filesize ≡ length e.bytes

pub length-all_infos : (es : List Entry) → length (all_infos es) ≡ length es
length-all_infos [] = refl
length-all_infos (e ∷ es) = omega (arith, length-all_infos es)

pub length-relay : (at : ℕ) (es : List Entry) → length (relay at es) ≡ length es
length-relay at [] = refl
length-relay at (e ∷ es) = omega (arith, length-relay (at + length e.bytes) es)

pub all_bytes-relay : (at : ℕ) (es : List Entry) → all_bytes (relay at es) ≡ all_bytes es
all_bytes-relay at [] = refl
all_bytes-relay at (e ∷ es) = ap (λ l. e.bytes ++ l) (all_bytes-relay (at + length e.bytes) es)

pub members-relay : (at : ℕ) (es : List Entry) → map member (relay at es) ≡ map member es
members-relay at [] = refl
members-relay at (e ∷ es) = ap (λ l. member e ∷ l) (members-relay (at + length e.bytes) es)

pub length-infos :
    (junk : FileInfo) (ds : List FileInfo) → length (infos (listed junk ds)) ≡ length ds
length-infos junk [] = refl
length-infos junk (d ∷ ds) = omega (arith, length-infos junk ds)

-- The sums stay below 2 ^ 64, so the loop does not wrap.
offsets_loop-relay :
    (junk : FileInfo) (total raw at : ℕ) (es : List Entry)
    → All IsSized es
    → at ≡ info_size * total + 4 + raw
    → at + length (all_bytes es) < 2 ^ 64
    → offsets_loop total raw (listed junk (all_infos es)) ≡ listed junk (all_infos (relay at es))
unfolding offsets_loop
offsets_loop-relay junk total raw at [] h e fits = refl
offsets_loop-relay junk total raw at (x ∷ es) h e fits =
    let sum = length-append x.bytes (all_bytes es) in
    let here : (info_size * total + 4 + raw) % 2 ^ 64 ≡ at = omega (arith, sum) in
    let next : (raw + x.info.filesize) % 2 ^ 64 ≡ raw + length x.bytes =
      omega (arith, sum, h.0.size) in
    rw (here, next)
      (ap (node (record x.info { offset = at })) (
        offsets_loop-relay junk total (raw + length x.bytes) (at + length x.bytes) es h.1
          (omega arith) (omega (arith, sum))))

pub update_offsets-relaid :
    (junk : FileInfo) (es : List Entry)
    → All IsSized es
    → info_size * length es + 4 + length (all_bytes es) < 2 ^ 64
    → update_offsets_in_header (listed junk (all_infos es)) ≡ listed junk (all_infos (relaid es))
unfolding update_offsets_in_header
update_offsets-relaid junk es h fits =
    let count : length (infos (listed junk (all_infos es))) ≡ length es =
      length-infos junk (all_infos es) ∙ length-all_infos es in
    rw count
      (offsets_loop-relay junk (length es) 0 (info_size * length es + 4) es h (omega arith) fits)

relay-LaidFrom : (at : ℕ) (es : List Entry) → All IsSized es → LaidFrom at (relay at es)
relay-LaidFrom at [] h = tt
relay-LaidFrom at (e ∷ es) h = (h.0.size, refl, relay-LaidFrom (at + length e.bytes) es h.1)

relay-AllEntries :
    (at : ℕ) (es : List Entry)
    → All IsSized es
    → at + length (all_bytes es) < 2 ^ 64
    → AllEntries (all_infos (relay at es))
relay-AllEntries at [] h fits = tt
relay-AllEntries at (e ∷ es) h fits =
    let sum = length-append e.bytes (all_bytes es) in
    let old = h.0.entry in
    let whole : IsInfo (record e.info { offset = at }) = record {
      whole = old.info.whole;
      filesize_fits = old.info.filesize_fits;
      mask_fits = old.info.mask_fits;
      offset_fits = omega (arith, sum);
    } in
    (
      record { info = whole; named = old.named },
      relay-AllEntries (at + length e.bytes) es h.1 (omega (arith, sum)),
    )

-- Sized entries become a layout as the program makes it.
pub relaid-IsLaid :
    (es : List Entry)
    → All IsSized es
    → info_size * length es + 4 + length (all_bytes es) < 2 ^ 64
    → IsLaid (relaid es)
relaid-IsLaid es h fits = record {
  entries = relay-AllEntries (info_size * length es + 4) es h fits;
  laid = rw length-relay (relay-LaidFrom (info_size * length es + 4) es h);
}

pub LaidFrom-IsSized :
    (at : ℕ) (es : List Entry) → AllEntries (all_infos es) → LaidFrom at es → All IsSized es
LaidFrom-IsSized at [] h l = tt
LaidFrom-IsSized at (e ∷ es) h l =
    (record { entry = h.0; size = l.0 }, LaidFrom-IsSized (at + length e.bytes) es h.1 l.2)
