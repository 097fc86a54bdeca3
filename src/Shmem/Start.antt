-- ===== src/Shmem/Start.antt =====
-- shmem/writer.c, `main` up to its loop (lines 41 to 82) and `free_at_exit` (lines 18 to 25): what a
-- writer makes and what it leaves behind. shmem/reader.c, `main` up to its loop (lines 26 to 40): what a
-- reader finds.
use os_tasks.Base.{
  Bool, true, false, not, ◌&&◌, if◌then◌else◌, List, [], ◌∷◌, ◌≡◌, refl, Bool-cases, inl, inr,
}

-- Whether the file is there, and whether a segment of memory is with the key that `ftok` makes of it. A new
-- file has a new key, so that a segment of an older file does not count.
pub record Ipc : Type 0 where
  pub file : Bool
  pub segment : Bool

-- Whether each call succeeds that can fail for reasons of its own. `shmget` also fails when the segment
-- of the file is there (IPC_EXCL), and `open` makes the file if it is not there.
pub record Calls : Type 0 where
  pub open_ok : Bool
  pub ftok_ok : Bool
  pub shmget_ok : Bool
  pub shmat_ok : Bool

-- `exit (EXIT_FAILURE)`, or the main loop.
pub data Started : Type 0 where
  refused running : Started

-- Behind `open`: no segment has the key of a file that it has made.
abbrev pub opened : Ipc → Ipc
opened ipc = record { file = true; segment = ipc.file && ipc.segment }

unfoldable pub start : Calls → Ipc → Started × Ipc
start calls ipc =
    if not calls.open_ok
    then (refused, ipc)
    else if not calls.ftok_ok
    then (refused, opened ipc)
    else if not (calls.shmget_ok && not (opened ipc).segment)
    then (refused, opened ipc)
    else if not calls.shmat_ok
    then (refused, record { file = true; segment = true })
    else (running, record { file = true; segment = true })

-- The removal of the segment is taken to succeed: nobody else removes it.
abbrev pub free_at_exit : Ipc → Ipc
free_at_exit ipc = record { file = false; segment = false }

-- Whether each call of a reader succeeds that can fail for reasons of its own. `ftok` also fails without
-- the file, `shmget` without the segment.
pub record ReaderCalls : Type 0 where
  pub ftok_ok : Bool
  pub shmget_ok : Bool
  pub shmat_ok : Bool

-- `exit (EXIT_FAILURE)`, or the main loop, with the segment or with the address -1.
pub data ReaderStarted : Type 0 where
  left attached unattached : ReaderStarted

-- The results of `shmget` and `shmat` are not looked at, and `shmat` fails without a segment.
unfoldable pub start_reader : ReaderCalls → Ipc → ReaderStarted
start_reader calls ipc =
    if not (calls.ftok_ok && ipc.file)
    then left
    else if (calls.shmget_ok && ipc.segment) && calls.shmat_ok
    then attached
    else unattached

-- Writers that are started one after another, each before the one in front of it has ended: how each
-- starts.
unfoldable pub start_all : List Calls → Ipc → List Started
start_all [] ipc = []
start_all (calls ∷ rest) ipc =
    let (started, ipc') = start calls ipc in started ∷ start_all rest ipc'

abbrev pub AllRefused : List Started → Type 0
AllRefused [] = Unit
AllRefused (s ∷ rest) = (s ≡ refused) × AllRefused rest

no_segment : (b : Bool) → (b && false) ≡ false
no_segment true = refl
no_segment false = refl

pub start_again :
    (calls : Calls) (ipc : Ipc)
    → ipc.file ≡ true
    → ipc.segment ≡ true
    → ((start calls ipc).0 ≡ refused)
      × ((start calls ipc).1.file ≡ true)
      × ((start calls ipc).1.segment ≡ true)
unfolding start
start_again calls ipc file there = elim (Bool-cases calls.open_ok) [
  | inr closed ↦ rw (closed, start) (refl, file, there)
  | inl opens ↦ elim (Bool-cases calls.ftok_ok) [
    | inr no_key ↦ rw (opens, no_key, start, file, there) (refl, refl, refl)
    | inl key ↦ elim (Bool-cases calls.shmget_ok) [
      | inr no_get ↦ rw (opens, key, no_get, start, file, there) (refl, refl, refl)
      | inl get ↦ rw (opens, key, get, start, file, there) (refl, refl, refl)
    ]
  ]
]

start_all-AllRefused :
    (rest : List Calls) (ipc : Ipc)
    → ipc.file ≡ true
    → ipc.segment ≡ true
    → AllRefused (start_all rest ipc)
unfolding start_all
start_all-AllRefused [] ipc file there = tt
start_all-AllRefused (calls ∷ rest) ipc file there =
    let (fails, file', still) = start_again calls ipc file there in
    (fails, start_all-AllRefused rest (start calls ipc).1 file' still)

-- A writer whose `shmat` fails, where the other calls succeed and no segment was there before, is refused,
-- and so is every later writer, as long as nobody removes the segment that it has left behind.
pub start-AllRefused :
    (calls : Calls) (ipc : Ipc)
    → calls.open_ok ≡ true
    → calls.ftok_ok ≡ true
    → calls.shmget_ok ≡ true
    → calls.shmat_ok ≡ false
    → ipc.segment ≡ false
    → (rest : List Calls) → AllRefused (start_all (calls ∷ rest) ipc)
unfolding start start_all
start-AllRefused calls ipc opens key get no_at free rest =
    let left : start calls ipc ≡ (refused, record { file = true; segment = true }) =
      rw (opens, key, get, free, no_segment ipc.file, no_at, start) refl in
    rw (left, start_all)
      (refl, start_all-AllRefused rest (record { file = true; segment = true }) refl refl)
