-- ===== src/Archive/Kept.antt =====
-- archive/archiver.c, `remove_files_from_header`: what is left of a list, and of the members.
use os_tasks.Base.{
  ℕ, Bool, true, false, not, ◌||◌, List, [], ◌∷◌, map, ◌≡◌, refl, ap, if◌then◌else◌, Bool-cases,
  inl, inr,
}
use os_tasks.Archive.Format.{FileInfo, c_string}
use os_tasks.Archive.Header.{node, is_there, same_string, remove_files_from_header}
use os_tasks.Archive.Reading.{listed}
use os_tasks.Archive.Layout.{Entry, all_infos, member, name_in, without, among}

-- Is the node taken out?
abbrev pub dropped : Bool → List (List ℕ) → FileInfo → Bool
dropped flag names d = if flag then is_there d names else not (is_there d names)

abbrev pub kept : Bool → List (List ℕ) → List Entry → List Entry
kept flag names [] = []
kept flag names (e ∷ es) =
    if dropped flag names e.info then kept flag names es else e ∷ kept flag names es

pub remove_files-listed :
    (junk : FileInfo) (flag : Bool) (names : List (List ℕ)) (es : List Entry)
    → remove_files_from_header flag names (listed junk (all_infos es))
      ≡ listed junk (all_infos (kept flag names es))
unfolding remove_files_from_header
remove_files-listed junk flag names [] = refl
remove_files-listed junk flag names (e ∷ es) = elim (Bool-cases (dropped flag names e.info)) [
  | inl out ↦ rw out (remove_files-listed junk flag names es)
  | inr in_it ↦ rw in_it (ap (node e.info) (remove_files-listed junk flag names es))
]

is_there-name_in :
    (d : FileInfo) (names : List (List ℕ)) → is_there d names ≡ name_in (c_string d.filename) names
unfolding is_there
is_there-name_in d [] = refl
is_there-name_in d (n ∷ names) =
    ap (λ b. same_string (c_string d.filename) n || b) (is_there-name_in d names)

pub kept-without :
    (names : List (List ℕ)) (es : List Entry)
    → map member (kept true names es) ≡ without names (map member es)
kept-without names [] = refl
kept-without names (e ∷ es) = elim (Bool-cases (is_there e.info names)) [
  | inl out ↦ rw (out, ← is_there-name_in e.info names, out) (kept-without names es)
  | inr in_it ↦
      rw (in_it, ← is_there-name_in e.info names, in_it)
        (ap (λ l. member e ∷ l) (kept-without names es))
]

pub kept-among :
    (names : List (List ℕ)) (es : List Entry)
    → map member (kept false names es) ≡ among names (map member es)
kept-among names [] = refl
kept-among names (e ∷ es) = elim (Bool-cases (is_there e.info names)) [
  | inl out ↦
      rw (out, ← is_there-name_in e.info names, out) (ap (λ l. member e ∷ l) (kept-among names es))
  | inr in_it ↦ rw (in_it, ← is_there-name_in e.info names, in_it) (kept-among names es)
]

-- What holds of every entry holds of those that are kept.
abbrev pub All : (Entry → Type 0) → List Entry → Type 0
All P [] = Unit
All P (e ∷ es) = P e × All P es

pub All-kept :
    (P : Entry → Type 0) (flag : Bool) (names : List (List ℕ)) (es : List Entry)
    → All P es
    → All P (kept flag names es)
All-kept P flag names [] h = tt
All-kept P flag names (e ∷ es) h = elim (Bool-cases (dropped flag names e.info)) [
  | inl out ↦ rw out (All-kept P flag names es h.1)
  | inr in_it ↦ rw in_it (h.0, All-kept P flag names es h.1)
]
