-- ===== src/Pipe/FifoEnds.antt =====
-- pipe/write_fifo.c and pipe/read_fifo.c: every run of the two programs comes to its end.
use os_tasks.Base.{
  ℕ, ◌^◌, ◌<◌, ◌≤◌, Bool, true, false, List, [], length, string_from, Option, none, some, NoNul,
  Buffer, ◌≡◌, refl, ap, arith,
}
use os_tasks.Pipe.Runs.{Finishes, at_end, turns}
use os_tasks.Pipe.Bytes.{buf_size, message, store_bytes, written}
use os_tasks.Pipe.Fifo.{
  WriterPc, writing, writer_ended, ReaderPc, reading, printing, removing, reader_ended, System,
  writer_runs, got, reader_runs, ready,
}
use os_tasks.Pipe.Message.{string_from-written, read_bytes-written, read_bytes_waits}
use mathlib.Core.Option

-- Both programs have ended, the reader has printed the message, and the file is gone.
pub record MessageRead (pid : ℕ) (time : List ℕ) (s : System) : Type 0 where
  writer : s.writer ≡ writer_ended
  reader : s.reader ≡ reader_ended (some (message pid time))
  gone : s.is_there ≡ false

abbrev state : WriterPc → ReaderPc → Bool → Bool → List ℕ → System
state w r wc rc b = record {
  writer = w;
  reader = r;
  is_there = true;
  writer_came = wc;
  reader_came = rc;
  bytes = b;
}

module _ (pid : ℕ) (time : List ℕ) (buf : Buffer) where
  abbrev Ends : System → Type 0
  Ends = Finishes (writer_runs pid time) (reader_runs buf) (MessageRead pid time)

  -- Both have found the file.
  abbrev both : WriterPc → ReaderPc → List ℕ → System
  both w r b = state w r true true b

  abbrev out : Option (List ℕ)
  out = some (message pid time)

  -- A lemma is named for where the writer and the reader stand.
  module _ (small : pid < 2 ^ 31) (short : length time ≤ 25) (clean : NoNul time) where
    ended_ended : Ends (record (both writer_ended (reader_ended out) []) { is_there = false })
    ended_ended = at_end (record { writer = refl; reader = refl; gone = refl })

    closing_ended : Ends (record (both WriterPc.closing (reader_ended out) []) { is_there = false })
    closing_ended = turns _ _ _ _ _ _ refl refl refl ended_ended tt

    ended_removing : Ends (both writer_ended (removing out) [])
    ended_removing = turns _ _ _ _ _ _ refl refl refl tt ended_ended

    closing_removing : Ends (both WriterPc.closing (removing out) [])
    closing_removing = turns _ _ _ _ _ _ refl refl refl ended_removing closing_ended

    ended_closing : Ends (both writer_ended (ReaderPc.closing out) [])
    ended_closing = turns _ _ _ _ _ _ refl refl refl tt ended_removing

    closing_closing : Ends (both WriterPc.closing (ReaderPc.closing out) [])
    closing_closing = turns _ _ _ _ _ _ refl refl refl ended_closing closing_removing

    text : string_from buf_size (store_bytes (written pid time) buf) 0 ≡ out
    text = string_from-written pid time small short clean buf buf_size (omega arith)

    ended_printing : Ends (both writer_ended (printing (store_bytes (written pid time) buf)) [])
    ended_printing =
        turns _ _ _ _ _ (some (both writer_ended (ReaderPc.closing out) [])) refl
          (ap (λ o. some (both writer_ended (ReaderPc.closing o) [])) text) refl tt ended_closing

    closing_printing :
        Ends (both WriterPc.closing (printing (store_bytes (written pid time) buf)) [])
    closing_printing =
        turns _ _ _ _ _ (some (both WriterPc.closing (ReaderPc.closing out) [])) refl
          (ap (λ o. some (both WriterPc.closing (ReaderPc.closing o) [])) text) refl ended_printing
          closing_closing

    ended_reading : Ends (both writer_ended reading (written pid time))
    ended_reading =
        turns _ _ _ _ _ _ refl
          (ap (Option.map (got buf (both writer_ended reading (written pid time))))
            (read_bytes-written false pid time))
          refl tt ended_printing

    closing_reading : Ends (both WriterPc.closing reading (written pid time))
    closing_reading =
        turns _ _ _ _ _ _ refl
          (ap (Option.map (got buf (both WriterPc.closing reading (written pid time))))
            (read_bytes-written true pid time))
          refl ended_reading closing_printing

    writing_reading : Ends (both writing reading [])
    writing_reading =
        turns _ _ _ _ _ none refl
          (ap (Option.map (got buf (both writing reading []))) read_bytes_waits) refl
          closing_reading tt

    opening_reading : Ends (both WriterPc.opening reading [])
    opening_reading =
        turns _ _ _ _ _ none refl
          (ap (Option.map (got buf (both WriterPc.opening reading []))) read_bytes_waits) refl
          writing_reading tt

    ended_opening : Ends (both writer_ended ReaderPc.opening (written pid time))
    ended_opening = turns _ _ _ _ _ _ refl refl refl tt ended_reading

    closing_opening : Ends (both WriterPc.closing ReaderPc.opening (written pid time))
    closing_opening = turns _ _ _ _ _ _ refl refl refl ended_opening closing_reading

    writing_opening : Ends (both writing ReaderPc.opening [])
    writing_opening = turns _ _ _ _ _ _ refl refl refl closing_opening writing_reading

    opening_opening : Ends (both WriterPc.opening ReaderPc.opening [])
    opening_opening = turns _ _ _ _ _ _ refl refl refl writing_opening opening_reading

    opening_entering : Ends (state WriterPc.opening ReaderPc.entering true false [])
    opening_entering = turns _ _ _ _ _ _ refl refl refl tt opening_opening

    entering_opening : Ends (state WriterPc.entering ReaderPc.opening false true [])
    entering_opening = turns _ _ _ _ _ _ refl refl refl opening_opening tt

    entering_entering : Ends (state WriterPc.entering ReaderPc.entering false false [])
    entering_entering = turns _ _ _ _ _ _ refl refl refl opening_entering entering_opening

    opening_making : Ends (state WriterPc.opening ReaderPc.making true false [])
    opening_making = turns _ _ _ _ _ _ refl refl refl tt opening_entering

    making_opening : Ends (state WriterPc.making ReaderPc.opening false true [])
    making_opening = turns _ _ _ _ _ _ refl refl refl entering_opening tt

    entering_making : Ends (state WriterPc.entering ReaderPc.making false false [])
    entering_making = turns _ _ _ _ _ _ refl refl refl opening_making entering_entering

    making_entering : Ends (state WriterPc.making ReaderPc.entering false false [])
    making_entering = turns _ _ _ _ _ _ refl refl refl entering_entering making_opening

-- In whatever order the two programs run, whether or not the fifo is there and whatever `buf` holds at
-- first, neither gets stuck, and both come to their ends, where the reader has printed the whole message and
-- the file is gone. Nothing else uses the fifo. The number of the process has 31 bits, and `ctime` gives at most
-- 25 bytes, none of them 0.
pub ready-MessageRead :
    (pid : ℕ) (time : List ℕ) (buf : Buffer) (there : Bool)
    → pid < 2 ^ 31
    → length time ≤ 25
    → NoNul time
    → Finishes (writer_runs pid time) (reader_runs buf) (MessageRead pid time) (ready there)
ready-MessageRead pid time buf there small short clean =
    turns _ _ _ _ _ _ refl refl refl (entering_making pid time buf small short clean)
      (making_entering pid time buf small short clean)
