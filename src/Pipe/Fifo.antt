-- ===== src/Pipe/Fifo.antt =====
-- pipe/write_fifo.c and pipe/read_fifo.c: two programs and the fifo "tempfifo" between them.
use os_tasks.Base.{
  Bool, true, false, ◌&&◌, ℕ, List, [], ◌++◌, Option, none, some, Buffer, string_from,
}
use os_tasks.Pipe.Bytes.{buf_size, store_bytes, written, read_bytes}
use mathlib.Core.Option

-- In front of a call of the writer, within `open`, behind its last call with the fifo or without it, or
-- ended by SIGPIPE.
pub data WriterPc : Type 0 where
  making entering opening writing closing writer_ended gave_up broken : WriterPc

-- In front of a call of the reader, or within `open`; the last ones carry what has been printed.
pub data ReaderPc : Type 0 where
  making entering opening reading : ReaderPc
  printing : Buffer → ReaderPc
  closing removing reader_ended : Option (List ℕ) → ReaderPc

-- `is_there` says whether the file is, `writer_came` and `reader_came` whether each has found it.
pub record System : Type 0 where
  pub writer : WriterPc
  pub reader : ReaderPc
  pub is_there : Bool
  pub writer_came : Bool
  pub reader_came : Bool
  pub bytes : List ℕ

-- Is an end of the fifo open, if the program has come to it?
abbrev can_write : WriterPc → Bool
can_write WriterPc.opening = true
can_write writing = true
can_write WriterPc.closing = true
can_write pc = false

abbrev can_read : ReaderPc → Bool
can_read ReaderPc.opening = true
can_read reading = true
can_read (printing buf) = true
can_read (ReaderPc.closing out) = true
can_read pc = false

-- `mkfifo` makes the file or finds it, and `open` waits for the other program.
abbrev writer_at : ℕ → List ℕ → WriterPc → System → Option System
writer_at pid time WriterPc.making s =
    some (record s { writer = WriterPc.entering; is_there = true })
writer_at pid time WriterPc.entering s = elim s.is_there [
  | true ↦ some (record s { writer = WriterPc.opening; writer_came = true })
  | false ↦ some (record s { writer = gave_up })
]
writer_at pid time WriterPc.opening s = elim s.reader_came [
  | true ↦ some (record s { writer = writing })
  | false ↦ none
]
writer_at pid time writing s = elim (can_read s.reader && s.reader_came) [
  | true ↦ some (record s { writer = WriterPc.closing; bytes = s.bytes ++ written pid time })
  | false ↦ some (record s { writer = broken })
]
writer_at pid time WriterPc.closing s = some (record s { writer = writer_ended })
writer_at pid time writer_ended s = none
writer_at pid time gave_up s = none
writer_at pid time broken s = none

abbrev pub writer_runs : ℕ → List ℕ → System → Option System
writer_runs pid time s = writer_at pid time s.writer s

abbrev pub got : Buffer → System → List ℕ × List ℕ → System
got buf s (bytes, rest) = record s { reader = printing (store_bytes bytes buf); bytes = rest }

-- The argument is what `buf` holds before it is set; without a descriptor `read` fails.
abbrev reader_at : Buffer → ReaderPc → System → Option System
reader_at buf ReaderPc.making s = some (record s { reader = ReaderPc.entering; is_there = true })
reader_at buf ReaderPc.entering s = elim s.is_there [
  | true ↦ some (record s { reader = ReaderPc.opening; reader_came = true })
  | false ↦ some (record s { reader = printing buf })
]
reader_at buf ReaderPc.opening s = elim s.writer_came [
  | true ↦ some (record s { reader = reading })
  | false ↦ none
]
reader_at buf reading s =
    Option.map (got buf s) (read_bytes (can_write s.writer && s.writer_came) s.bytes)
reader_at buf (printing read) s =
    some (record s { reader = ReaderPc.closing (string_from buf_size read 0) })
reader_at buf (ReaderPc.closing out) s = some (record s { reader = removing out })
reader_at buf (removing out) s = some (record s { reader = reader_ended out; is_there = false })
reader_at buf (reader_ended out) s = none

abbrev pub reader_runs : Buffer → System → Option System
reader_runs buf s = reader_at buf s.reader s

-- Both in front of `mkfifo`; a fifo of an earlier run may be there.
abbrev pub ready : Bool → System
ready there = record {
  writer = WriterPc.making;
  reader = ReaderPc.making;
  is_there = there;
  writer_came = false;
  reader_came = false;
  bytes = [];
}
