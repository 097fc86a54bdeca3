-- ===== src/Pipe/Tests.antt =====
-- Runs of the programs in pipe: process 42 and the text "now" in place of a time.
use os_tasks.Base.{ℕ, false, true, List, [], ◌∷◌, Buffer, NoNul, ok, ◌≡◌, arith}
use os_tasks.Pipe.Runs.{Finishes}
use os_tasks.Pipe.State.{System, parent_runs, child_runs, start}
use os_tasks.Pipe.Ends.{MessagePrinted, start-MessagePrinted}
use os_tasks.Pipe.Fifo.{writer_runs, reader_runs, ready}
use os_tasks.Pipe.FifoEnds.{MessageRead, ready-MessageRead}

abbrev now : List ℕ
now = b'n' ∷ b'o' ∷ b'w' ∷ []

now-NoNul : NoNul now
now-NoNul = ((λ e. omega arith), ((λ e. omega arith), ((λ e. omega arith), tt)))

abbrev spaces : Buffer
spaces i = b' '

start-MessagePrinted_example :
    (s : System) × (start false ≡ ok s)
    × Finishes (parent_runs 42 now) (child_runs spaces) (MessagePrinted 42 now) s
start-MessagePrinted_example =
    start-MessagePrinted 42 now spaces (omega arith) (omega arith) now-NoNul

ready-MessageRead_example :
    Finishes (writer_runs 42 now) (reader_runs spaces) (MessageRead 42 now) (ready true)
ready-MessageRead_example =
    ready-MessageRead 42 now spaces true (omega arith) (omega arith) now-NoNul
