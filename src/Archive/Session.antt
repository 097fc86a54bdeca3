-- ===== src/Archive/Session.antt =====
-- archive/archiver.c: one command after another.
use os_tasks.Base.{ℕ, ◌+◌, ◌^◌, ◌<◌, List, [], ◌∷◌, ◌++◌, map, length, drop, some, ok, ◌≡◌}
use os_tasks.Archive.Layout.{Member}
use os_tasks.Archive.Remove.{Leftovers}
use os_tasks.Archive.Extract.{Directory, extract_files}
use os_tasks.Archive.Extracted.{extracted, extract_files-extracted}
use os_tasks.Archive.Put.{Source, AllSources, source_member, source_path}
use os_tasks.Archive.Input.{Inputs, input_files}
use os_tasks.Archive.Inserted.{Holds, input_files-inserted}
use os_tasks.Archive.Insertion.{added}

-- What is put into an archive comes out of it again: after `input_files` of regular files that can be
-- read, `extract_files` without names writes the old members and then the files, with the permissions
-- and the bytes that they had. The archive is new or has a member, and the files fit with it into
-- less than 2 ^ 63 bytes, as the older temporary file does.
pub extract_files-input_files :
    {F : Type 0} (os : Directory F) (files : Inputs) (mem : Leftovers) (archive stale : List ℕ)
    (members : List Member) (x : Source) (xs : List Source) (fs : F)
    → Holds archive members
    → AllSources files (x ∷ xs)
    → length mem.mark ≡ 4
    → length mem.junk.filename ≡ 256
    → length archive + 4 + added (x ∷ xs) < 2 ^ 63
    → length stale < 2 ^ 63
    → (archive' : List ℕ) × (input_files files mem (map source_path (x ∷ xs)) (some archive) stale
        ≡ ok archive')
      × (extract_files os mem [] (some archive') fs
          ≡ ok (extracted os (members ++ map source_member (x ∷ xs)) fs))
extract_files-input_files os files mem archive stale members x xs fs h sources four whole fits
      short =
    let (archive', k, run, r) =
      input_files-inserted files mem archive stale members x xs h sources four whole fits short in
    (
      archive',
      run,
      extract_files-extracted os mem [] archive' (drop k stale)
          (members ++ map source_member (x ∷ xs)) fs r four,
    )
