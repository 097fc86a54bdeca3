-- ===== src/Ls/Listing.antt =====
-- ls/main.c: `_prepare_path`, `_prepare_files_list`, `_print_file`, `_list_routine` and `main`.
use os_tasks.Base.{
  ℕ, ◌+◌, ◌/◌, ◌%◌, ◌^◌, Bool, true, false, not, ◌&&◌, ◌||◌, ◌==◌, ltb, List, [], ◌∷◌, ◌++◌, length,
  take, drop, Option, none, some, digits, has, bit_or, before_zero, if◌then◌else◌,
}
use os_tasks.Ls.Format.{
  is_type, s_iflnk, long_type, short_color, permissions, name_text, signed_text,
}
use os_tasks.Ls.Names.{dirent_cmp}
use os_tasks.Ls.World.{Stat, Listing, Lookup, found, missing, lookup_failed, World, Reading}

abbrev pub ls_all : ℕ
ls_all = 1

abbrev pub ls_long : ℕ
ls_long = 2

abbrev pub path_size : ℕ
path_size = 4048

pub data Errcodes : Type 0 where
  err_neargs err_invalidopt err_file_isnt_spec err_opendir err_readdir err_stat err_pwd err_grp :
      Errcodes

-- How a function ends that prints nothing: with a value, by `_invoke_error`, or by an access outside
-- of its memory.
pub data Result {ℓ} (A : Type ℓ) : Type ℓ where
  value : A → Result A
  error : Errcodes → Result A
  overrun : Result A

-- What has been printed, and how it ends.
pub data Shown : Type 0 where
  shown : List ℕ → Shown
  stopped : List ℕ → Errcodes → Shown
  crashed : List ℕ → Shown

abbrev pub after : List ℕ → Shown → Shown
after out (shown s) = shown (out ++ s)
after out (stopped s e) = stopped (out ++ s) e
after out (crashed s) = crashed (out ++ s)

abbrev pub and_show : Shown → Shown → Shown
and_show (shown s) t = after s t
and_show (stopped s e) t = stopped s e
and_show (crashed s) t = crashed s

abbrev pub is_hidden : List ℕ → Bool
is_hidden [] = false
is_hidden (c ∷ s) = c == b'.'

-- Is the entry left out of the listing?
abbrev pub left_out : ℕ → List ℕ → Bool
left_out flags name = is_hidden name && not (has flags ls_all)

-- `none` if the path and its 0 do not fit into `_path`.
unfoldable pub prepare_path : List ℕ → List ℕ → Option (List ℕ)
prepare_path prefix file =
    if ltb (length prefix + 1 + length file) path_size then some (prefix ++ b'/' ∷ file) else none

-- The globals that the first reading of the directory counts.
pub record Counted : Type 0 where
  pub files_list_size : ℕ
  pub hidden_files_list_size : ℕ
  pub blocks : ℕ

module _ (w : World) (flags : ℕ) (prefix : List ℕ) where
  unfoldable pub count_entry : List ℕ → Stat → Counted → Counted
  count_entry name st c = record {
    files_list_size = c.files_list_size + 1;
    hidden_files_list_size =
        if is_hidden name then c.hidden_files_list_size + 1 else c.hidden_files_list_size;
    blocks =
        if has flags ls_all || not (is_hidden name)
        then (c.blocks + st.st_blocks) % 2 ^ 64
        else c.blocks;
  }

  unfoldable pub count_files : List (List ℕ) → Counted → Result Counted
  count_files [] c = value c
  count_files (name ∷ names) c = elim (prepare_path prefix name) [
    | none ↦ overrun
    | some path ↦ elim (w.lstat path) [
      | none ↦ error err_opendir
      | some st ↦ count_files names (count_entry name st c)
    ]
  ]

  -- The sorted list and the blocks. A second reading with more entries than the first is written past
  -- the end of the list, and with fewer it leaves entries that are not set.
  unfoldable pub prepare_files_list : Reading → Listing → Result (List (List ℕ) × ℕ)
  prepare_files_list r listing =
      elim (count_files listing.first
        (record { files_list_size = 0; hidden_files_list_size = 0; blocks = 0 })) [
          | value c ↦
              if listing.failed
              then error err_readdir
              else if length listing.again == c.files_list_size
              then value (r.qsort dirent_cmp listing.again, c.blocks)
              else overrun
          | error e ↦ error e
          | overrun ↦ overrun
        ]

  abbrev pub owner_text : Lookup → ℕ → List ℕ
  owner_text (found name) id = before_zero name
  owner_text missing id = signed_text id
  owner_text lookup_failed id = []

  abbrev pub time_text : ℕ → List ℕ
  time_text mtime = before_zero (take 12 (drop 4 (w.ctime mtime)))

  -- The target of a symbolic link.
  unfoldable pub link_text : List ℕ → Stat → Shown
  link_text path st =
      if is_type s_iflnk st.st_mode
      then (let room = (st.st_size + 1) % 2 ^ 64 in
          let bufsize = if room == 0 then 4096 else room in
          elim (w.readlink path bufsize) [
            | none ↦ stopped [] err_stat
            | some target ↦ shown (b' ' ∷ b'-' ∷ b'>' ∷ b' ' ∷ before_zero target)
          ])
      else shown []

  -- The long format. An error in the look-up of the group is reported as one of the user.
  unfoldable pub print_long : List ℕ → List ℕ → Stat → Shown
  print_long name path st =
      let (letter, color) = long_type st.st_mode in
      let head = (letter ∷ permissions st.st_mode) ++ b' ' ∷ [] in
      elim (w.getpwuid st.st_uid) [
        | lookup_failed ↦ stopped head err_pwd
        | pwd_file ↦ elim (w.getgrgid st.st_gid) [
          | lookup_failed ↦ stopped head err_pwd
          | grp_file ↦
              and_show
                (after
                  (head
                    ++ digits st.st_nlink
                    ++ b' ' ∷ owner_text pwd_file st.st_uid
                    ++ b' ' ∷ owner_text grp_file st.st_gid
                    ++ b' ' ∷ digits st.st_size
                    ++ b' ' ∷ time_text st.mtime
                    ++ b' ' ∷ name_text color name)
                  (link_text path st))
                (shown (10 ∷ []))
        ]
      ]

  unfoldable pub print_short : List ℕ → Stat → Shown
  print_short name st = shown (name_text (short_color st.st_mode) name ++ b' ' ∷ b' ' ∷ [])

  unfoldable pub print_file : List ℕ → Shown
  print_file name = elim (left_out flags name) [
    | true ↦ shown []
    | false ↦ elim (prepare_path prefix name) [
      | none ↦ crashed []
      | some path ↦ elim (w.lstat path) [
        | none ↦ stopped [] err_stat
        | some st ↦ if has flags ls_long then print_long name path st else print_short name st
      ]
    ]
  ]

  unfoldable pub print_files : List (List ℕ) → Shown
  print_files [] = shown []
  print_files (name ∷ names) = and_show (print_file name) (print_files names)

-- "total: "
abbrev pub total_text : ℕ → List ℕ
total_text blocks =
    (b't' ∷ b'o' ∷ b't' ∷ b'a' ∷ b'l' ∷ b':' ∷ b' ' ∷ []) ++ digits (blocks / 2) ++ 10 ∷ []

unfoldable pub list_routine : World → Reading → ℕ → List ℕ → Shown
list_routine w r flags dir = elim (r.opendir dir) [
  | none ↦ stopped [] err_opendir
  | some listing ↦ elim (prepare_files_list w flags dir r listing) [
    | value (files, blocks) ↦
        and_show (shown (if has flags ls_long then total_text blocks else [])) (
          and_show (print_files w flags dir files)
            (shown (if has flags ls_long then [] else 10 ∷ [])))
    | error e ↦ stopped [] e
    | overrun ↦ crashed []
  ]
]

-- The message of `-h`, or what a listing prints.
pub data Ended : Type 0 where
  helped : Ended
  listed : Shown → Ended

-- The letters of the options as `getopt` gives them, and the arguments that are left.
unfoldable pub main_loop : World → Reading → List ℕ → List (List ℕ) → ℕ → Ended
main_loop w r [] [] flags = listed (list_routine w r flags (b'.' ∷ []))
main_loop w r [] (dir ∷ rest) flags = listed (list_routine w r flags dir)
main_loop w r (option ∷ options) rest flags = elim (option == b'h') [
  | true ↦ helped
  | false ↦ elim (option == b'l') [
    | true ↦ main_loop w r options rest (bit_or flags ls_long)
    | false ↦ elim (option == b'a') [
      | true ↦ main_loop w r options rest (bit_or flags ls_all)
      | false ↦ listed (stopped [] err_invalidopt)
    ]
  ]
]

unfoldable pub main : World → Reading → List ℕ → List (List ℕ) → Ended
main w r options rest = main_loop w r options rest 0
