-- ===== src/Pipe/State.antt =====
-- pipe/pipe.c: the two processes and the pipe between them.
use os_tasks.Base.{
  ℕ, ◌+◌, Bool, true, false, ◌||◌, List, [], ◌++◌, Option, none, some, Outcome, ok, failure, Buffer,
  string_from,
}
use os_tasks.Pipe.Bytes.{buf_size, store_bytes, written, read_bytes}
use mathlib.Core.Option

-- In front of a call of the parent, behind the last one, or ended by SIGPIPE.
pub data ParentPc : Type 0 where
  closing_read writing waiting closing_write parent_ended broken : ParentPc

-- In front of a call of the child, or ended, with what it has printed of `rdbuf`.
pub data ChildPc : Type 0 where
  closing_unused reading : ChildPc
  printing : Buffer → ChildPc
  printed : Option (List ℕ) → ChildPc

pub record System : Type 0 where
  pub parent : ParentPc
  pub child : ChildPc
  pub bytes : List ℕ

-- Which of the ends of the pipe are open.
abbrev parent_reads : ParentPc → Bool
parent_reads closing_read = true
parent_reads pc = false

abbrev parent_writes : ParentPc → Bool
parent_writes parent_ended = false
parent_writes broken = false
parent_writes pc = true

abbrev child_ended : ChildPc → Bool
child_ended (printed out) = true
child_ended pc = false

abbrev child_reads : ChildPc → Bool
child_reads (printed out) = false
child_reads pc = true

abbrev child_writes : ChildPc → Bool
child_writes closing_unused = true
child_writes pc = false

-- `write` fits into the pipe, which takes that many bytes at once; without a reader SIGPIPE comes.
abbrev parent_at : ℕ → List ℕ → ParentPc → System → Option System
parent_at pid time closing_read s = some (record s { parent = writing })
parent_at pid time writing s = elim (parent_reads s.parent || child_reads s.child) [
  | true ↦ some (record s { parent = waiting; bytes = s.bytes ++ written pid time })
  | false ↦ some (record s { parent = broken })
]
parent_at pid time waiting s = elim (child_ended s.child) [
  | true ↦ some (record s { parent = closing_write })
  | false ↦ none
]
parent_at pid time closing_write s = some (record s { parent = parent_ended })
parent_at pid time parent_ended s = none
parent_at pid time broken s = none

abbrev pub parent_runs : ℕ → List ℕ → System → Option System
parent_runs pid time s = parent_at pid time s.parent s

abbrev pub got : Buffer → System → List ℕ × List ℕ → System
got rdbuf s (bytes, rest) = record s { child = printing (store_bytes bytes rdbuf); bytes = rest }

-- The argument is what `rdbuf` holds before it is set.
abbrev child_at : Buffer → ChildPc → System → Option System
child_at rdbuf closing_unused s = some (record s { child = reading })
child_at rdbuf reading s =
    Option.map (got rdbuf s) (read_bytes (parent_writes s.parent || child_writes s.child) s.bytes)
child_at rdbuf (printing buf) s =
    some (record s { child = printed (string_from (buf_size + 1) buf 0) })
child_at rdbuf (printed out) s = none

abbrev pub child_runs : Buffer → System → Option System
child_runs rdbuf s = child_at rdbuf s.child s

-- `main` up to the two branches; the argument says whether `fork` has failed.
abbrev pub start : Bool → Outcome System
start true = failure
start false = ok (record { parent = closing_read; child = closing_unused; bytes = [] })
