-- ===== src/Archive/Extracted.antt =====
-- archive/archiver.c: what `extract_files` writes, from an archive that represents members.
use os_tasks.Base.{
  ℕ, ◌%◌, ◌^◌, ◌<◌, false, List, [], ◌∷◌, ◌++◌, map, length, drop, none, some, Option-cases, inl,
  inr, ok, ◌>>=◌, ◌≡◌, refl, ap, subst, ◌∙◌,
}
use os_tasks.Archive.Format.{FileInfo, c_string}
use os_tasks.Archive.Reading.{listed}
use os_tasks.Archive.Layout.{
  Entry, Member, Represents, IsLaid, member, among, all_infos, image, data_start,
}
use os_tasks.Archive.Kept.{kept, kept-among, remove_files-listed, All, All-kept}
use os_tasks.Archive.Offsets.{IsSized, LaidFrom-IsSized}
use os_tasks.Archive.Slice.{at}
use os_tasks.Archive.Located.{IsLocated, IsLaid-IsLocated, copy_entry}
use os_tasks.Archive.Remove.{Leftovers}
use os_tasks.Archive.Removed.{read_header-image}
use os_tasks.Archive.Extract.{Directory, extract_infos, extract_files}

module _ {F : Type 0} (os : Directory F) where
  -- Each member in turn: its name is opened, gets the permissions, and holds the bytes and what is
  -- left of an older file behind them. A name that cannot be opened is passed over.
  unfoldable pub extracted : List Member → F → F
  extracted [] fs = fs
  extracted (m ∷ ms) fs = elim (os.open_create fs m.name) [
    | none ↦ extracted ms fs
    | some (fs', old_bytes) ↦ extracted ms (
        os.store (os.chmod fs' m.name (m.mask % 2 ^ 32)) m.name
          (m.bytes ++ drop (length m.bytes) old_bytes))
  ]

  extract_infos-extracted :
      (junk : FileInfo) (archive chunk : List ℕ) (es : List Entry) (p : ℕ) (fs : F)
      → All (IsLocated archive) es
      → All IsSized es
      → length archive < 2 ^ 63
      → extract_infos os chunk (listed junk (all_infos es)) (at archive p) fs
        ≡ ok (extracted (map member es) fs)
  unfolding extract_infos extracted
  extract_infos-extracted junk archive chunk [] p fs here sized fits = refl
  extract_infos-extracted junk archive chunk (e ∷ es) p fs here sized fits =
      let name = c_string e.info.filename in
      elim (Option-cases (os.open_create fs name)) [
        | inl refused ↦
            rw (refused, extract_infos, extracted)
              (extract_infos-extracted junk archive chunk es p fs here.1 sized.1 fits)
        | inr ((fs', old_bytes), opens) ↦
            let (p', buf, run) =
              copy_entry archive e p [] old_bytes chunk here.0 sized.0.size fits in
            rw (opens, extract_infos, extracted, run)
              (extract_infos-extracted junk archive chunk es p'
                (os.store (os.chmod fs' name (e.info.mask % 2 ^ 32)) name
                  (e.bytes ++ drop (length e.bytes) old_bytes))
                here.1 sized.1 fits)
      ]

  -- The members that are asked for: all of them if no name is given.
  abbrev pub chosen : List (List ℕ) → List Member → List Member
  chosen [] members = members
  chosen (name ∷ names) members = among (name ∷ names) members

  extract_files-image :
      (mem : Leftovers) (names : List (List ℕ)) (es : List Entry) (rest : List ℕ) (fs : F)
      → IsLaid es
      → length (image es ++ rest) < 2 ^ 63
      → length mem.mark ≡ 4
      → extract_files os mem names (some (image es ++ rest)) fs
        ≡ ok (extracted (chosen names (map member es)) fs)
  unfolding extract_files
  extract_files-image mem [] es rest fs laid fits four =
      let archive = image es ++ rest in
      rw (read_header-image mem.junk mem.mark es rest laid four) (
        extract_infos-extracted mem.junk archive mem.chunk es 0 fs (IsLaid-IsLocated es rest laid)
          (LaidFrom-IsSized (data_start es) es laid.entries laid.laid) fits)
  extract_files-image mem (name ∷ names) es rest fs laid fits four =
      let archive = image es ++ rest in
      let all_names = name ∷ names in
      let ks = kept false all_names es in
      rw
        (
          read_header-image mem.junk mem.mark es rest laid four,
          ◌>>=◌,
          remove_files-listed mem.junk false all_names es,
        )
        (extract_infos-extracted mem.junk archive mem.chunk ks 0 fs
            (All-kept (IsLocated archive) false all_names es (IsLaid-IsLocated es rest laid))
            (All-kept IsSized false all_names es
              (LaidFrom-IsSized (data_start es) es laid.entries laid.laid))
            fits
          ∙ ap (λ ms. ok (extracted ms fs)) (kept-among all_names es))

  -- From an archive that represents the members, `extract_files` writes the members with the given
  -- names, or all for no names, in their order: each with its permissions and its bytes, behind which
  -- the bytes of a longer older file stay. A file that cannot be opened is passed over.
  pub extract_files-extracted :
      (mem : Leftovers) (names : List (List ℕ)) (archive rest : List ℕ) (members : List Member)
      (fs : F)
      → Represents archive members rest
      → length mem.mark ≡ 4
      → extract_files os mem names (some archive) fs ≡ ok (extracted (chosen names members) fs)
  extract_files-extracted mem names archive rest members fs r four =
      ap (λ a. extract_files os mem names (some a) fs) r.shape
      ∙ extract_files-image mem names r.es rest fs r.laid
          (subst (λ l. length l < 2 ^ 63) r.shape r.fits) four
      ∙ ap (λ ms. ok (extracted (chosen names ms) fs)) r.same
