-- ===== src/Archive/Inserted.antt =====
-- archive/archiver.c: what `input_files` makes of an archive that represents members, and of an
-- archive without bytes.
use os_tasks.Base.{
  ℕ, ◌+◌, ◌^◌, ◌<◌, List, [], ◌∷◌, ◌++◌, map, map-append, length, length-append, length-drop, drop,
  some, ok, ◌≡◌, refl, sym, ap, ap₂, subst, ◌∙◌, arith,
}
use os_tasks.Archive.Layout.{Entry, Member, Represents, member, image, data_start}
use os_tasks.Archive.Offsets.{relaid, relaid-IsLaid, all_bytes-relay, members-relay, length-relay}
use os_tasks.Archive.Located.{length-image}
use os_tasks.Archive.Remove.{Leftovers}
use os_tasks.Archive.Put.{
  Source, AllSources, source_member, source_path, put_entries, members-put_entries,
}
use os_tasks.Archive.Input.{Inputs, input_files}
use os_tasks.Archive.Insertion.{
  Readable, empty-Readable, image-Readable, put_in, added, put_in-fits, put_in-IsSized,
  input_files-image,
}

-- A new archive, without a byte, holds no members. Another holds those that it represents, of which
-- there is one at least, and nothing follows them.
pub data Holds : List ℕ → List Member → Type 0 where
  no_bytes : Holds [] []
  holds :
      (archive : List ℕ) (m : Member) (ms : List Member)
      → Represents archive (m ∷ ms) []
      → Holds archive (m ∷ ms)

Holds-Readable :
    (mem : Leftovers) (archive : List ℕ) (members : List Member)
    → Holds archive members
    → length mem.mark ≡ 4
    → (es : List Entry) × (map member es ≡ members) × Readable mem archive es
Holds-Readable mem archive members no_bytes four = ([], refl, empty-Readable mem)
Holds-Readable mem archive members (holds a m ms r) four =
    let fits : length (image r.es ++ []) < 2 ^ 63 = subst (λ l. length l < 2 ^ 63) r.shape r.fits in
    (
      r.es,
      r.same,
      subst (λ l. Readable mem l r.es) (sym r.shape)
          (image-Readable mem m ms r.es r.same r.laid fits four),
    )

-- Regular files that can be read are put behind the members of an archive: `input_files` makes an
-- archive that represents the old members and then the files, each under the name behind the last
-- '/' of its path, with its nine permission bits and its bytes. Behind them stand those of the bytes
-- of an older temporary file that were not written over. The archive is new or has a member, and the
-- files fit with it into less than 2 ^ 63 bytes, as the older temporary file does.
pub input_files-inserted :
    (files : Inputs) (mem : Leftovers) (archive stale : List ℕ) (members : List Member) (x : Source)
    (xs : List Source)
    → Holds archive members
    → AllSources files (x ∷ xs)
    → length mem.mark ≡ 4
    → length mem.junk.filename ≡ 256
    → length archive + 4 + added (x ∷ xs) < 2 ^ 63
    → length stale < 2 ^ 63
    → (archive' : List ℕ) × (k : ℕ) × (input_files files mem
          (map source_path (x ∷ xs))
          (some archive)
          stale
        ≡ ok archive')
      × Represents archive' (members ++ map source_member (x ∷ xs)) (drop k stale)
input_files-inserted files mem archive stale members x xs h sources four whole fits short =
    let all = x ∷ xs in
    let (es, same, r) = Holds-Readable mem archive members h four in
    let ns = put_in mem.junk es all in
    let bound = put_in-fits mem archive es all r fits in
    let sized = put_in-IsSized files mem archive es all r sources whole in
    let laid = relaid-IsLaid ns sized (omega (arith, bound)) in
    let new = image (relaid ns) in
    let size : length new < 2 ^ 63 = omega (
      arith,
      length-image (relaid ns) laid.entries,
      length-relay (data_start ns) ns,
      bound,
      ap length (all_bytes-relay (data_start ns) ns),
    ) in
    (
      new ++ drop (length new) stale,
      length new,
      input_files-image files mem archive stale es x xs r sources whole fits,
      record {
        es = relaid ns;
        shape = refl;
        laid = laid;
        fits =
            omega
              (arith, length-append new (drop (length new) stale), length-drop (length new) stale);
        same =
            members-relay (data_start ns) ns
            ∙ map-append member es (put_entries mem.junk all)
            ∙ ap₂ (λ a b. a ++ b) same (members-put_entries files mem.junk all sources);
      },
    )
