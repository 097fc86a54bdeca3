-- ===== src/Ls/Listed.antt =====
-- ls/main.c: what `list_routine` shows of a directory.
use os_tasks.Base.{
  ◌||◌, not, ◌&&◌, ℕ, ◌+◌, ◌%◌, ◌^◌, Bool, true, false, ◌==◌, List, [], ◌∷◌, ◌++◌, length, Option,
  none, some, Option-cases, inl, inr, has, if◌then◌else◌, Bool-cases, ◌≡◌, refl, sym, ap, ◌∙◌,
  arith,
}
use mathlib.Core.List.Pairwise
use mathlib.Core.List.{Mem, Pairwise, Perm, mem-cons_self}
use mathlib.Core.List.Perm
use os_tasks.Ls.Short.{Before, Before-ComesFirst, entry_text, name_text-entry_text}
use os_tasks.Ls.Names.{dirent_cmp, IsSortOf, IsSorted-unique}
use os_tasks.Ls.World.{Stat, Listing, World, Reading}
use os_tasks.Ls.Listing.{
  ls_all, ls_long, err_opendir, err_readdir, Result, value, error, overrun, Shown, shown, stopped,
  crashed, and_show, left_out, Counted, prepare_files_list, print_short, print_file, print_files,
  total_text, list_routine,
}
use os_tasks.Ls.Order.{
  add_cost-some, cost_of-some, full_path, AllFit, AllFit-tail, cost, total_cost, prepare_path-fits,
  count_files-total, total_cost-perm, total_cost-missing, length-perm,
}

module _ (w : World) (flags : ℕ) (dir : List ℕ) where
  -- A directory that can be listed: every path fits, and the second reading gives the same names.
  pub record IsReadable (l : Listing) : Type 0 where
    pub fit : AllFit w flags dir l.first
    pub read_again : Perm l.again l.first

  -- What `prepare_files_list` makes of it: the files in order, with the sum of their blocks.
  pub prepare_files_list-sorted :
      (r : Reading) (l : Listing)
      → IsReadable l
      → prepare_files_list w flags dir r l ≡ elim (total_cost w flags dir l.first) [
        | none ↦ error err_opendir
        | some t ↦
            if l.failed then error err_readdir else value (r.qsort dirent_cmp l.again, t % 2 ^ 64)
      ]
  unfolding prepare_files_list
  prepare_files_list-sorted r l h =
      let start : Counted = record {
        files_list_size = 0;
        hidden_files_list_size = 0;
        blocks = 0;
      } in
      let (n, run) = count_files-total w flags dir l.first start h.fit (omega arith) in
      let size : (length l.again == 0 + length l.first) ≡ true =
        ground (arith, length-perm l.again l.first h.read_again) in
      elim (Option-cases (total_cost w flags dir l.first)) [
        | inl gone ↦ rw (run, prepare_files_list, gone)
        | inr (t, there) ↦ elim (Bool-cases l.failed) [
          | inl bad ↦ rw (run, prepare_files_list, there, bad)
          | inr good ↦
              (let sum : 0 + t ≡ t = omega arith in
                rw (run, prepare_files_list, there, good, size, sum))
        ]
      ]

abbrev shown_of : ℕ → World → List ℕ → Result (List (List ℕ) × ℕ) → Shown
shown_of flags w dir (value (files, blocks)) =
    and_show (shown (if has flags ls_long then total_text blocks else []))
      (and_show (print_files w flags dir files) (shown (if has flags ls_long then [] else 10 ∷ [])))
shown_of flags w dir (error e) = stopped [] e
shown_of flags w dir overrun = crashed []

list_routine-opened :
    (w : World) (flags : ℕ) (dir : List ℕ) (r : Reading) (l : Listing)
    → r.opendir dir ≡ some l
    → list_routine w r flags dir ≡ shown_of flags w dir (prepare_files_list w flags dir r l)
unfolding list_routine
list_routine-opened w flags dir r l opens = rw (opens, list_routine) refl

-- Two ways of reading a directory and of sorting: what is shown is the same, as long as the readings
-- give the same names in some order, both end with an error or none does, and both sorts sort. Every
-- path fits into the buffer.
pub list_routine-any_order :
    (w : World) (flags : ℕ) (dir : List ℕ) (r s : Reading) (l m : Listing)
    → r.opendir dir ≡ some l
    → s.opendir dir ≡ some m
    → IsReadable w flags dir l
    → IsReadable w flags dir m
    → Perm l.first m.first
    → l.failed ≡ m.failed
    → IsSortOf (r.qsort dirent_cmp l.again) l.again
    → IsSortOf (s.qsort dirent_cmp m.again) m.again
    → list_routine w r flags dir ≡ list_routine w s flags dir
list_routine-any_order w flags dir r s l m open_l open_m hl hm p failed sort_l sort_m =
    let costs = total_cost-perm w flags dir l.first m.first p in
    let between = Perm.trans hl.read_again (Perm.trans p (Perm.symm hm.read_again)) in
    let files : r.qsort dirent_cmp l.again ≡ s.qsort dirent_cmp m.again =
      IsSorted-unique (r.qsort dirent_cmp l.again) (s.qsort dirent_cmp m.again) sort_l.in_order
        sort_m.in_order (Perm.trans sort_l.same (Perm.trans between (Perm.symm sort_m.same))) in
    let choose : Option ℕ → Bool → List (List ℕ) → Shown = λ o bad names.
      shown_of flags w dir (elim o [
        | none ↦ error err_opendir
        | some t ↦ if bad then error err_readdir else value (names, t % 2 ^ 64)
      ]) in
    list_routine-opened w flags dir r l open_l
    ∙ ap (shown_of flags w dir) (prepare_files_list-sorted w flags dir r l hl)
    ∙ (λ i. choose (costs i) (failed i) (files i))
    ∙ sym (ap (shown_of flags w dir) (prepare_files_list-sorted w flags dir s m hm))
    ∙ sym (list_routine-opened w flags dir s m open_m)

-- A file of the directory that cannot be looked at, hidden or not, ends the run before anything is
-- printed.
pub list_routine_lstat :
    (w : World) (flags : ℕ) (dir : List ℕ) (r : Reading) (l : Listing)
    → r.opendir dir ≡ some l
    → IsReadable w flags dir l
    → (name : List ℕ) → Mem name l.first
    → w.lstat (dir ++ b'/' ∷ name) ≡ none
    → list_routine w r flags dir ≡ stopped [] err_opendir
list_routine_lstat w flags dir r l opens h name m gone =
    list_routine-opened w flags dir r l opens
    ∙ ap (shown_of flags w dir) (
        prepare_files_list-sorted w flags dir r l h
        ∙ ap
            (λ o. elim o [
              | none ↦ error err_opendir
              | some t ↦
                  if l.failed
                  then error err_readdir
                  else value (r.qsort dirent_cmp l.again, t % 2 ^ 64)
            ])
            (total_cost-missing w flags dir name gone l.first m))

module _ (w : World) (flags : ℕ) (dir : List ℕ) (short : has flags ls_long ≡ false) where
  -- The names in their order, each in its colour and with two spaces behind it; without `-a` those
  -- that begin with a dot are left out.
  abbrev pub short_entry : List ℕ → Option Stat → List ℕ
  short_entry name none = []
  short_entry name (some st) = entry_text st.st_mode name

  abbrev pub is_listed : List ℕ → Bool
  is_listed [] = true
  is_listed (c ∷ s) = has flags ls_all || not (c == b'.')

  abbrev pub short_entries : List (List ℕ) → List ℕ
  short_entries [] = []
  short_entries (n ∷ names) =
      if is_listed n
      then short_entry n (w.lstat (full_path w flags dir n)) ++ short_entries names
      else short_entries names

  left_out-is_listed : (n : List ℕ) → left_out flags n ≡ not (is_listed n)
  left_out-is_listed [] = refl
  left_out-is_listed (c ∷ s) = flip (has flags ls_all) (c == b'.')
    where
      flip : (a d : Bool) → (d && not a) ≡ not (a || not d)
      flip true true = refl
      flip true false = refl
      flip false true = refl
      flip false false = refl

  print_files-short :
      (t : ℕ) (names : List (List ℕ))
      → AllFit w flags dir names
      → total_cost w flags dir names ≡ some t
      → print_files w flags dir names ≡ shown (short_entries names)
  unfolding print_files print_file print_short
  print_files-short t [] fits all = refl
  print_files-short t (n ∷ names) fits all =
      let path = prepare_path-fits w flags dir n (fits n mem-cons_self) in
      let here = w.lstat (full_path w flags dir n) in
      let ((x, costs), (t', rest)) =
        add_cost-some w flags dir (cost w flags dir n) (total_cost w flags dir names) t all in
      let (st, there) = cost_of-some w flags dir n here x costs in
      let ih = print_files-short t' names (AllFit-tail w flags dir n names fits) rest in
      elim (Bool-cases (is_listed n)) [
        | inl e ↦
            let in_it : left_out flags n ≡ false = left_out-is_listed n ∙ ap not e in
            rw (e, in_it, print_files, print_file, path, there, short, ih)
              (ap (λ l. shown (l ++ short_entries names)) (name_text-entry_text st.st_mode n))
        | inr e ↦
            let out : left_out flags n ≡ true = left_out-is_listed n ∙ ap not e in
            rw (e, out, print_files, print_file, ih)
      ]

  -- In the short format a directory whose files can all be looked at is shown as its names in the order of
  -- their bytes, each between the codes of its colour and with two spaces behind it, and a newline: blue
  -- for a directory, cyan for a link, green for a regular file that its owner may run, the colour of
  -- text for any other, and a name with a space between backticks. Without `-a` the names that begin
  -- with a dot are left out. The two readings give the same names, every path fits, and `qsort` sorts.
  pub list_routine-short :
      (r : Reading) (l : Listing) (sorted : List (List ℕ)) (t : ℕ)
      → r.opendir dir ≡ some l
      → l.failed ≡ false
      → IsReadable w flags dir l
      → total_cost w flags dir l.first ≡ some t
      → IsSortOf (r.qsort dirent_cmp l.again) l.again
      → Perm sorted l.first
      → Pairwise Before sorted
      → list_routine w r flags dir ≡ shown (short_entries sorted ++ 10 ∷ [])
  list_routine-short r l sorted t opens good h all sort_l same in_order =
      let sort : IsSortOf sorted l.first = record {
        same = same;
        in_order = Pairwise.imp Before-ComesFirst in_order;
      } in
      let files : r.qsort dirent_cmp l.again ≡ sorted =
        IsSorted-unique (r.qsort dirent_cmp l.again) sorted sort_l.in_order sort.in_order
          (Perm.trans sort_l.same (Perm.trans h.read_again (Perm.symm sort.same))) in
      let fits : AllFit w flags dir sorted = λ n m. h.fit n ((Perm.mem_iff sort.same).0 m) in
      let costs = total_cost-perm w flags dir sorted l.first sort.same ∙ all in
      list_routine-opened w flags dir r l opens
      ∙ ap (shown_of flags w dir) (prepare_files_list-sorted w flags dir r l h)
      ∙ rw (all, good, files, short, print_files-short t sorted fits costs) refl
