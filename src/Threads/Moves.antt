-- ===== src/Threads/Moves.antt =====
-- pthread_mutex/main.c: the steps of `writer_func` (lines 35 to 57), `reader_func` (lines 14 to 33)
-- and `main` (lines 59 to 101), in any order. A thread waits at `pthread_mutex_lock` until nobody
-- holds the mutex. `sprintf` may leave anything in `str` before it is through.
use os_tasks.Base.{ℕ, ◌+◌, ◌<◌, Bool, true, false, List, ◌∷◌, none, some, ◌≡◌, ◌≢◌}
use os_tasks.Threads.State.{
  thread_count, worker_text, done_text, by_writer, by_reader, Shared, WriterPc, ReaderPc, MainPc,
  starting, creating, joining, joining_writer, finished, exited, System, set_at, initial,
}

pub data WriterMove : Shared → WriterPc → Shared → WriterPc → Type 0 where
  lock :
      {m : Shared}
      → m.owner ≡ none
      → WriterMove m WriterPc.locking (record m { owner = some by_writer }) WriterPc.incrementing
  increment :
      {m : Shared}
      → WriterMove m WriterPc.incrementing (record m { num = m.num + 1 }) WriterPc.writing
  write_part :
      {m : Shared} (part : List ℕ)
      → WriterMove m WriterPc.writing (record m { str = part }) WriterPc.writing
  write :
      {m : Shared}
      → WriterMove m WriterPc.writing (record m { str = worker_text m.num }) WriterPc.testing
  go_on : {m : Shared} → m.num ≢ 5 + 1 → WriterMove m WriterPc.testing m WriterPc.unlocking
  last : {m : Shared} → m.num ≡ 5 + 1 → WriterMove m WriterPc.testing m WriterPc.finishing
  finish_part :
      {m : Shared} (part : List ℕ)
      → WriterMove m WriterPc.finishing (record m { str = part }) WriterPc.finishing
  finish :
      {m : Shared}
      → WriterMove m WriterPc.finishing (record m { str = done_text }) WriterPc.unlocking_last
  unlock_last :
      {m : Shared}
      → WriterMove m WriterPc.unlocking_last (record m { owner = none }) WriterPc.returned
  unlock :
      {m : Shared} → WriterMove m WriterPc.unlocking (record m { owner = none }) WriterPc.sleeping
  wake : {m : Shared} → WriterMove m WriterPc.sleeping m WriterPc.locking

-- The reader number `i`. What it prints of its own id is left out.
pub data ReaderMove (i : ℕ) : Shared → ReaderPc → Shared → ReaderPc → Type 0 where
  lock :
      {m : Shared}
      → m.owner ≡ none
      → ReaderMove i m ReaderPc.locking (record m { owner = some (by_reader i) }) ReaderPc.comparing
  same :
      {m : Shared} → m.str ≡ done_text → ReaderMove i m ReaderPc.comparing m ReaderPc.unlocking_last
  other : {m : Shared} → m.str ≢ done_text → ReaderMove i m ReaderPc.comparing m ReaderPc.printing
  unlock_last :
      {m : Shared}
      → ReaderMove i m ReaderPc.unlocking_last (record m { owner = none }) ReaderPc.returned
  print :
      {m : Shared}
      → ReaderMove i m ReaderPc.printing (record m { log = (i, m.str) ∷ m.log }) ReaderPc.unlocking
  unlock :
      {m : Shared} → ReaderMove i m ReaderPc.unlocking (record m { owner = none }) ReaderPc.sleeping
  wake : {m : Shared} → ReaderMove i m ReaderPc.sleeping m ReaderPc.locking

-- The moves of `main`. The result of the creation of the writer is not looked at; a refused creation
-- of a reader and a failed join end the process.
pub data MainMove (s : System) : System → Type 0 where
  init_failed : s.main ≡ starting → MainMove s (record s { main = exited })
  writer_created :
      s.main ≡ starting → MainMove s (record s { main = creating 0; writer = WriterPc.locking })
  writer_refused : s.main ≡ starting → MainMove s (record s { main = creating 0 })
  reader_created :
      (i : ℕ)
      → s.main ≡ creating i
      → i < thread_count
      → MainMove s
          (record s { main = creating (i + 1); reader = set_at i ReaderPc.locking s.reader })
  reader_refused :
      (i : ℕ) → s.main ≡ creating i → i < thread_count → MainMove s (record s { main = exited })
  all_created : s.main ≡ creating thread_count → MainMove s (record s { main = joining 0 })
  joined :
      (i : ℕ)
      → s.main ≡ joining i
      → i < thread_count
      → s.reader i ≡ ReaderPc.returned
      → MainMove s (record s { main = joining (i + 1) })
  join_failed :
      (i : ℕ) → s.main ≡ joining i → i < thread_count → MainMove s (record s { main = exited })
  all_joined : s.main ≡ joining thread_count → MainMove s (record s { main = joining_writer })
  writer_joined :
      s.main ≡ joining_writer
      → s.writer ≡ WriterPc.returned
      → MainMove s (record s { main = finished })

-- No thread goes on behind the end of `main`.
abbrev pub has_ended : MainPc → Bool
has_ended finished = true
has_ended exited = true
has_ended m = false

pub data Step (s : System) : System → Type 0 where
  main_moves : {t : System} → MainMove s t → Step s t
  writer_moves :
      {m : Shared} {w : WriterPc}
      → has_ended s.main ≡ false
      → WriterMove s.mem s.writer m w
      → Step s (record s { mem = m; writer = w })
  reader_moves :
      (i : ℕ) {m : Shared} {r : ReaderPc}
      → has_ended s.main ≡ false
      → ReaderMove i s.mem (s.reader i) m r
      → Step s (record s { mem = m; reader = set_at i r s.reader })

-- Any number of steps.
pub data Steps (s : System) : System → Type 0 where
  here : Steps s s
  later : {t u : System} → Steps s t → Step t u → Steps s u

abbrev pub Reachable : System → Type 0
Reachable s = Steps initial s
