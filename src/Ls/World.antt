-- ===== src/Ls/World.antt =====
-- ls/main.c: what the program asks of the system.
use os_tasks.Base.{ℕ, Bool, List, Option}
use os_tasks.Ls.Names.{Sign}

-- What it reads of `struct stat`; `mtime` is `st_mtim.tv_sec`.
pub record Stat : Type 0 where
  pub st_mode : ℕ
  pub st_nlink : ℕ
  pub st_uid : ℕ
  pub st_gid : ℕ
  pub st_size : ℕ
  pub st_blocks : ℕ
  pub mtime : ℕ

-- The names that `readdir` gives one after another, first and behind `rewinddir`, and whether the
-- first reading ends with an error. The entries are taken to keep their places in memory.
pub record Listing : Type 0 where
  pub first : List (List ℕ)
  pub again : List (List ℕ)
  pub failed : Bool

-- The result of `getpwuid` and `getgrgid`: a name, no entry, or an error.
pub data Lookup : Type 0 where
  found : List ℕ → Lookup
  missing lookup_failed : Lookup

-- The system calls and the functions of the C library about one file; `none` is an error. `readlink`
-- gives at most as many bytes as it is given room for.
pub record World : Type 0 where
  pub lstat : List ℕ → Option Stat
  pub getpwuid : ℕ → Lookup
  pub getgrgid : ℕ → Lookup
  pub readlink : List ℕ → ℕ → Option (List ℕ)
  pub ctime : ℕ → List ℕ

-- Those about a directory. `qsort` gets the comparison.
pub record Reading : Type 0 where
  pub opendir : List ℕ → Option Listing
  pub qsort : (List ℕ → List ℕ → Sign) → List (List ℕ) → List (List ℕ)
