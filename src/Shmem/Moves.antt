-- ===== src/Shmem/Moves.antt =====
-- shmem/writer.c, the main loop (lines 84 to 89 and 27 to 37), and shmem/reader.c, its loop (lines 42
-- to 51): the steps of both, byte by byte and in any order. Nothing keeps one from running into the
-- other. What the reader prints of its own process and of the time is left out.
use os_tasks.Base.{Buffer, padded, string_from, ℕ, ◌<◌, List, [], ◌∷◌, ◌≡◌}
use os_tasks.Shmem.State.{
  buf_size, message, set_byte, no_marks, mark, AllMarked, composing, writing, reading, printing,
  System,
}

-- `pid` is what `getpid` gives, `ctime` a function of the time.
module _ (pid : ℕ) (ctime : ℕ → List ℕ) where
  pub data Step (s : System) : System → Type 0 where
    compose :
        (time : ℕ)
        → s.writer ≡ composing
        → Step s
            (record s { writer_buf = padded (message pid (ctime time)); writer = writing no_marks })
    write_byte :
        (i : ℕ) {marks : _}
        → i < buf_size
        → s.writer ≡ writing marks
        → Step s (record s {
          segment = set_byte i (s.writer_buf i) s.segment;
          writer = writing (mark i marks);
        })
    written :
        {marks : _}
        → AllMarked marks
        → s.writer ≡ writing marks
        → Step s (record s { writer = composing })
    read_byte :
        (i : ℕ) {marks : _}
        → i < buf_size
        → s.reader ≡ reading marks
        → Step s (record s {
          reader_buf = set_byte i (s.segment i) s.reader_buf;
          reader = reading (mark i marks);
        })
    was_read :
        {marks : _}
        → AllMarked marks
        → s.reader ≡ reading marks
        → Step s (record s { reader = printing })
    print :
        s.reader ≡ printing
        → Step s (record s {
          log = string_from buf_size s.reader_buf 0 ∷ s.log;
          reader = reading no_marks;
        })

  pub data Steps (s : System) : System → Type 0 where
    here : Steps s s
    later : {t u : System} → Steps s t → Step t u → Steps s u

-- Behind `memset (shmaddr, 0, BUFSIZE)`; the buffers on the stack hold anything.
abbrev pub initial : Buffer → Buffer → System
initial writer_rest reader_rest = record {
  segment = λ i. 0;
  writer_buf = writer_rest;
  writer = composing;
  reader_buf = reader_rest;
  reader = reading no_marks;
  log = [];
}
