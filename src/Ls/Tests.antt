-- ===== src/Ls/Tests.antt =====
-- Listings of ls/main.c of a directory with two files.
use os_tasks.Base.{
  ℕ, ◌+◌, ◌<◌, false, List, [], ◌∷◌, ◌++◌, length, Option, none, some, ◌≡◌, refl, sym, subst, arith,
}
use mathlib.Core.Logic.Or
use native.Mathlib.Bridge.{le_prop}
use os_tasks.Ls.Short.{Before, smaller}
use mathlib.Core.List.{Mem, Perm, Pairwise, mem-cons, not-mem-nil, mem-cons_self}
use mathlib.Core.List.Perm
use os_tasks.Ls.Names.{dirent_cmp, strcmp, ComesFirst, IsSorted, IsSortOf}
use os_tasks.Ls.World.{Stat, Listing, missing, World, Reading}
use os_tasks.Ls.Listing.{shown, stopped, err_opendir, ls_long, list_routine, path_size}
use os_tasks.Ls.Order.{AllFit}
use os_tasks.Ls.Format.{permissions}
use os_tasks.Ls.Permissions.{read_permissions, read_permissions-permissions}
use os_tasks.Ls.Listed.{
  IsReadable, short_entries, list_routine-any_order, list_routine_lstat, list_routine-short,
}

abbrev regular : Stat
regular = record {
  st_mode = 33188;
  st_nlink = 1;
  st_uid = 0;
  st_gid = 0;
  st_size = 5;
  st_blocks = 8;
  mtime = 0;
}

abbrev world : Option Stat → World
world file = record {
  lstat = λ path. file;
  getpwuid = λ id. missing;
  getgrgid = λ id. missing;
  readlink = λ path size. none;
  ctime = λ t. [];
}

abbrev name_a : List ℕ
name_a = b'a' ∷ []

abbrev name_b : List ℕ
name_b = b'b' ∷ []

abbrev dot : List ℕ
dot = b'.' ∷ []

abbrev names : List (List ℕ)
names = name_a ∷ name_b ∷ []

abbrev reversed_names : List (List ℕ)
reversed_names = name_b ∷ name_a ∷ []

-- A directory that is read in the order of the names and then the other way round, and one the other
-- way round from the start.
abbrev forth : Listing
forth = record { first = names; again = reversed_names; failed = false }

abbrev back : Listing
back = record { first = reversed_names; again = names; failed = false }

-- What `qsort` gives for these directories.
abbrev reading : Listing → Reading
reading l = record { opendir = λ path. some l; qsort = λ compare files. names }

swapped : Perm reversed_names names
swapped = Perm.swap name_a name_b []

a_first : ComesFirst name_a name_b
unfolding dirent_cmp strcmp
a_first e = cc

names-IsSorted : IsSorted names
names-IsSorted =
    let is_prop : (b : List ℕ) → IsProp (ComesFirst name_a b) = λ b. hlevel in
    Pairwise.cons
      (λ b m.
        Or.elim (is_prop b) (mem-cons.0 m) (λ e. rw e a_first)
          (λ later. absurd (not-mem-nil later)))
      (Pairwise.cons (λ b m. absurd (not-mem-nil m)) Pairwise.nil)

only_b : (b : List ℕ) → Mem b (name_b ∷ []) → b ≡ name_b
only_b b m =
    let is_prop : IsProp (b ≡ name_b) = hlevel in
    Or.elim is_prop (mem-cons.0 m) (λ e. e) (λ later. absurd (not-mem-nil later))

names-Before : Pairwise Before names
names-Before =
    let first : (b : List ℕ) → Mem b (name_b ∷ []) → Before name_a b =
      λ b m. subst (Before name_a) (sym (only_b b m)) (smaller (omega arith)) in
    Pairwise.cons first (Pairwise.cons (λ b m. absurd (not-mem-nil m)) Pairwise.nil)

sorted : (l : List (List ℕ)) → Perm l names → IsSortOf names l
sorted l p = record { same = Perm.symm p; in_order = names-IsSorted }

fits : (w : World) (flags : ℕ) → AllFit w flags dot names
fits w flags n m =
    let is_prop : IsProp (length dot + 1 + length n < path_size) = le_prop in
    Or.elim is_prop (mem-cons.0 m) (λ e. rw e (omega arith))
      (λ later.
        Or.elim is_prop (mem-cons.0 later) (λ e. rw e (omega arith))
          (λ end. absurd (not-mem-nil end)))

forth-IsReadable : (w : World) (flags : ℕ) → IsReadable w flags dot forth
forth-IsReadable w flags = record { fit = fits w flags; read_again = swapped }

back-IsReadable : (w : World) (flags : ℕ) → IsReadable w flags dot back
back-IsReadable w flags = record {
  fit = λ n m. fits w flags n ((Perm.mem_iff swapped).0 m);
  read_again = Perm.symm swapped;
}

list_routine-any_order_example :
    list_routine (world (some regular)) (reading forth) ls_long dot
    ≡ list_routine (world (some regular)) (reading back) ls_long dot
list_routine-any_order_example =
    list_routine-any_order (world (some regular)) ls_long dot (reading forth) (reading back) forth
      back refl refl (forth-IsReadable (world (some regular)) ls_long)
      (back-IsReadable (world (some regular)) ls_long) (Perm.symm swapped) refl
      (sorted reversed_names swapped) (sorted names Perm.rfl)

list_routine_lstat_example :
    list_routine (world none) (reading forth) 0 dot ≡ stopped [] err_opendir
list_routine_lstat_example =
    list_routine_lstat (world none) 0 dot (reading forth) forth refl
      (forth-IsReadable (world none) 0) name_a mem-cons_self refl

list_routine-short_example :
    list_routine (world (some regular)) (reading forth) 0 dot
    ≡ shown (short_entries (world (some regular)) 0 dot refl names ++ 10 ∷ [])
list_routine-short_example =
    list_routine-short (world (some regular)) 0 dot refl (reading forth) forth names 16 refl refl
      (forth-IsReadable (world (some regular)) 0) refl (sorted reversed_names swapped) Perm.rfl
      names-Before

read_permissions-permissions_example :
    read_permissions
      (b'r' ∷ b'w' ∷ b'x' ∷ b'r' ∷ b'w' ∷ b'x' ∷ b'r' ∷ b'w' ∷ b'x' ∷ [])
      (permissions regular.st_mode)
    ≡ some 420
read_permissions-permissions_example = read_permissions-permissions regular.st_mode
