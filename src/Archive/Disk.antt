-- ===== src/Archive/Disk.antt =====
-- archive/archiver.c: what the program works on, the runs of it, and the members that they stand for.
use os_tasks.Base.{
  Bool, false, ℕ, ◌+◌, ◌^◌, ◌<◌, List, [], ◌∷◌, ◌++◌, map, length, Option, none, some, Outcome, ok,
  ◌>>=◌, ◌≡◌, ◌≢◌,
}
use os_tasks.Archive.Format.{info_size}
use os_tasks.Archive.Layout.{Member, Represents, without}
use os_tasks.Archive.Remove.{Leftovers, remove_files}
use os_tasks.Archive.Extract.{Directory, extract_files}
use os_tasks.Archive.Extracted.{extracted, chosen}
use os_tasks.Archive.Put.{Source, AllSources, source_member, source_path}
use os_tasks.Archive.Input.{Inputs, input_files}
use os_tasks.Archive.Insertion.{added}
use os_tasks.Archive.Stat.{stat_archive}
use os_tasks.Archive.Program.{
  Procedures, ProgMode, main, mode_input, mode_remove, mode_extract, mode_stat, flag_s, flag_i,
  flag_e, flag_r,
}

-- The archive, and the directory with the other files.
pub record Disk (F : Type 0) : Type 0 where
  pub archive : Option (List ℕ)
  pub dir : F

-- The temporary file ".supertemp.egleser", a file of the directory like the ones that are extracted: its
-- bytes, if it is there; the directory once `rename` has taken it away; and which names lead to it.
pub record TempFile (F : Type 0) : Type 0 where
  pub temp : F → Option (List ℕ)
  pub rename_temp : F → F
  pub leads_to_temp : List ℕ → Bool

-- What is done to a file under another name leaves the temporary one as it is, and `rename` changes nothing
-- else.
pub record KeepsTemp {F : Type 0} (os : Directory F) (tf : TempFile F) : Type 0 where
  pub open_keeps :
      (fs fs' : F) (name old : List ℕ)
      → tf.leads_to_temp name ≡ false
      → os.open_create fs name ≡ some (fs', old)
      → tf.temp fs' ≡ tf.temp fs
  pub chmod_keeps :
      (fs : F) (name : List ℕ) (mask : ℕ)
      → tf.leads_to_temp name ≡ false
      → tf.temp (os.chmod fs name mask) ≡ tf.temp fs
  pub store_keeps :
      (fs : F) (name bytes : List ℕ)
      → tf.leads_to_temp name ≡ false
      → tf.temp (os.store fs name bytes) ≡ tf.temp fs
  pub rename_none : (fs : F) → tf.temp fs ≡ none → tf.rename_temp fs ≡ fs

-- `open` with O_CREAT makes an archive that is not there.
abbrev pub created : Option (List ℕ) → List ℕ
created none = []
created (some bytes) = bytes

module _ {F : Type 0} (os : Directory F) (tf : TempFile F) (files : Inputs) (mem : Leftovers) where
  -- The procedures on the one archive: the temporary file is opened as it is, and `rename` puts it in the
  -- place of the archive. What is printed is left out.
  abbrev pub procedures : Procedures (Disk F)
  procedures = record {
    print_help = λ w. ok w;
    input_files = λ name paths w.
        input_files files mem paths (some (created w.archive)) (created (tf.temp w.dir)) >>= λ new.
        ok (record { archive = some new; dir = tf.rename_temp w.dir });
    stat_archive = λ name w. stat_archive mem name w.archive >>= λ out. ok w;
    extract_files = λ name names w.
        extract_files os mem names w.archive w.dir >>= λ dir. ok (record w { dir = dir });
    remove_files = λ name names w.
        remove_files mem names w.archive (created (tf.temp w.dir)) >>= λ new.
        ok (record { archive = some new; dir = tf.rename_temp w.dir });
  }

-- What the program is asked for.
pub data Command : Type 0 where
  put : Source → List Source → Command
  take : List (List ℕ) → Command
  delete : List ℕ → List (List ℕ) → Command
  show : Command

abbrev pub arguments : List ℕ → Command → List (List ℕ)
arguments name (put x xs) = name ∷ flag_i ∷ map source_path (x ∷ xs)
arguments name (take names) = name ∷ flag_e ∷ names
arguments name (delete n names) = name ∷ flag_r ∷ n ∷ names
arguments name show = name ∷ flag_s ∷ []

abbrev pub mode_of : Command → ProgMode
mode_of (put x xs) = mode_input
mode_of (take names) = mode_extract
mode_of (delete n names) = mode_remove
mode_of show = mode_stat

-- The runs of the program, one after another.
abbrev pub run_all :
    {F : Type 0} → Procedures (Disk F) → List ℕ → List Command → Disk F → Outcome (Disk F)
run_all p name [] w = ok w
run_all p name (c ∷ cs) w = main p (arguments name c) w >>= run_all p name cs

-- The archive as it is meant: its members, if there is one, and the directory.
pub record Store (F : Type 0) : Type 0 where
  pub members : Option (List Member)
  pub dir : F

abbrev pub listed_members : Option (List Member) → List Member
listed_members none = []
listed_members (some ms) = ms

module _ {F : Type 0} (os : Directory F) where
  abbrev pub perform : Command → Store F → Store F
  perform (put x xs) s = record s {
    members = some (listed_members s.members ++ map source_member (x ∷ xs));
  }
  perform (take names) s = record s {
    dir = extracted os (chosen os names (listed_members s.members)) s.dir;
  }
  perform (delete n names) s = record s {
    members = some (without (n ∷ names) (listed_members s.members));
  }
  perform show s = s

  abbrev pub perform_all : List Command → Store F → Store F
  perform_all [] s = s
  perform_all (c ∷ cs) s = perform_all cs (perform c s)

-- How long an archive of these members is.
abbrev pub stored : List Member → ℕ
stored [] = 4
stored (m ∷ ms) = info_size + length m.bytes + stored ms

-- An archive that is there but has no members cannot be put into.
abbrev pub TakesFiles : Option (List Member) → Type 0
TakesFiles none = Unit
TakesFiles (some ms) = ms ≢ []

module _ {F : Type 0} (os : Directory F) (tf : TempFile F) (files : Inputs) where
  -- No name leads to the temporary file.
  abbrev pub AllApart : List Member → Type 0
  AllApart [] = Unit
  AllApart (m ∷ ms) = (tf.leads_to_temp m.name ≡ false) × AllApart ms

  -- When the program does what it is asked for: the files can be read and fit, there is an archive to
  -- take from, and no member is taken out whose name leads to the temporary file.
  abbrev pub Allowed : Command → Option (List Member) → Type 0
  Allowed (put x xs) ms =
      AllSources files (x ∷ xs)
      × TakesFiles ms
      × (stored (listed_members ms) + 4 + added (x ∷ xs) < 2 ^ 63)
  Allowed (take names) ms = (ms ≢ none) × AllApart (chosen os names (listed_members ms))
  Allowed (delete n names) ms = ms ≢ none
  Allowed show ms = ms ≢ none

  abbrev pub AllAllowed : List Command → Store F → Type 0
  AllAllowed [] s = Unit
  AllAllowed (c ∷ cs) s = Allowed c s.members × AllAllowed cs (perform os c s)

-- The bytes stand for the members, and nothing follows them.
abbrev pub StandsFor : Option (List ℕ) → Option (List Member) → Type 0
StandsFor none none = Unit
StandsFor none (some ms) = ⊥
StandsFor (some bytes) none = ⊥
StandsFor (some bytes) (some ms) = Represents bytes ms []

pub record Implements {F : Type 0} (tf : TempFile F) (w : Disk F) (s : Store F) : Type 0 where
  pub bytes : StandsFor w.archive s.members
  pub no_temp : tf.temp w.dir ≡ none
  pub same_dir : w.dir ≡ s.dir
