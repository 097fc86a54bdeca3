-- ===== src/Threads/Tests.antt =====
-- Runs of the threads of pthread_mutex/main.c in a fixed order.
use os_tasks.Base.{◌&&◌, ℕ, false, ◌≡◌, ◌≢◌, refl, arith}
use os_tasks.Threads.State.{done_text, WriterPc, ReaderPc, finished, System, initial}
use os_tasks.Threads.Moves.{
  WriterMove, ReaderMove, writer_created, writer_refused, reader_created, main_moves, writer_moves,
  reader_moves, Steps, here, later, Reachable,
}
use os_tasks.Threads.Invariant.{writer_holds, reader_holds, Printed}
use os_tasks.Threads.Leads.{Steps-trans}
use os_tasks.Threads.Safety.{
  mutual_exclusion, Reachable-Printed, reader_returned, finished-AllReturned, refused_never_ends,
}
use os_tasks.Threads.Ends.{Reachable-finished}

record Run : Type 0 where
  last : System
  reach : Reachable last

empty-ne-done : (initial.mem.str ≢ done_text)
empty-ne-done e = cc

-- The writer and the first reader are created, the reader prints the empty string, and the writer
-- takes the mutex.
abbrev first_print : Run
first_print = record {
  last = _;
  reach =
      later
        (later
          (later
            (later
              (later (later here (main_moves (writer_created refl)))
                (main_moves (reader_created 0 refl (omega arith))))
              (reader_moves 0 refl (ReaderMove.lock refl)))
            (reader_moves 0 refl (ReaderMove.other empty-ne-done)))
          (reader_moves 0 refl ReaderMove.print))
        (reader_moves 0 refl ReaderMove.unlock);
}

abbrev contended : Run
contended = record {
  last = _;
  reach = later first_print.reach (writer_moves refl (WriterMove.lock refl));
}

abbrev refused : Run
refused = record { last = _; reach = later here (main_moves (writer_refused refl)) }

mutual_exclusion_example :
    ((writer_holds contended.last.writer && reader_holds (contended.last.reader 0)) ≡ false)
    × ((reader_holds (contended.last.reader 0) && reader_holds (contended.last.reader 1)) ≡ false)
mutual_exclusion_example = mutual_exclusion contended.last contended.reach 0 1 (omega arith)

Reachable-Printed_example : Printed first_print.last.mem.num first_print.last.mem.log
Reachable-Printed_example = Reachable-Printed first_print.last first_print.reach

Reachable-finished_example : (t : System) × Steps first_print.last t × (t.main ≡ finished)
Reachable-finished_example = Reachable-finished first_print.last first_print.reach refl refl

-- A whole run to the end of `main`.
abbrev ended : (t : System) × Steps first_print.last t × (t.main ≡ finished)
ended = Reachable-finished first_print.last first_print.reach refl refl

refused_never_ends_example :
    ((i : ℕ) → refused.last.reader i ≢ ReaderPc.returned) × (refused.last.main ≢ finished)
refused_never_ends_example =
    refused_never_ends refused.last refused.last refused.reach (refl, refl) here

ended_reach : Reachable ended.0
ended_reach = Steps-trans first_print.reach ended.1

first_back : ended.0.reader 0 ≡ ReaderPc.returned
first_back = (finished-AllReturned ended.0 ended_reach ended.2).0 0 (omega arith)

reader_returned_example :
    (ended.0.writer ≡ WriterPc.returned) × (ended.0.mem.num ≡ 6) × (ended.0.mem.str ≡ done_text)
reader_returned_example = reader_returned ended.0 ended_reach 0 first_back
