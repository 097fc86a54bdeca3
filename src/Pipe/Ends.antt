-- ===== src/Pipe/Ends.antt =====
-- pipe/pipe.c: every run of the two processes comes to its end.
use os_tasks.Base.{
  ℕ, ◌+◌, ◌^◌, ◌<◌, ◌≤◌, true, false, List, [], length, none, some, ok, NoNul, Buffer, ◌≡◌, refl,
  ap, arith,
}
use os_tasks.Pipe.Runs.{Finishes, at_end, turns}
use os_tasks.Pipe.State.{
  ParentPc, closing_read, writing, waiting, closing_write, parent_ended, ChildPc, closing_unused,
  reading, printing, printed, System, got, parent_runs, child_runs, start,
}
use os_tasks.Pipe.Message.{string_from-written, read_bytes-written, read_bytes_waits}
use mathlib.Core.Option
use os_tasks.Pipe.Bytes.{buf_size, message, store_bytes, written}

-- Both processes have ended, and the child has printed the message.
pub record MessagePrinted (pid : ℕ) (time : List ℕ) (s : System) : Type 0 where
  parent : s.parent ≡ parent_ended
  child : s.child ≡ printed (some (message pid time))

abbrev state : ParentPc → ChildPc → List ℕ → System
state p c b = record { parent = p; child = c; bytes = b }

module _ (pid : ℕ) (time : List ℕ) (rdbuf : Buffer) where
  abbrev Ends : System → Type 0
  Ends = Finishes (parent_runs pid time) (child_runs rdbuf) (MessagePrinted pid time)

  module _ (small : pid < 2 ^ 31) (short : length time ≤ 25) (clean : NoNul time) where
    done : Ends (state parent_ended (printed (some (message pid time))) [])
    done = at_end (record { parent = refl; child = refl })

    then_closing : Ends (state closing_write (printed (some (message pid time))) [])
    then_closing = turns _ _ _ _ _ _ refl refl refl done tt

    then_waiting : Ends (state waiting (printed (some (message pid time))) [])
    then_waiting = turns _ _ _ _ _ _ refl refl refl then_closing tt

    then_printing : Ends (state waiting (printing (store_bytes (written pid time) rdbuf)) [])
    then_printing =
        let text =
          string_from-written pid time small short clean rdbuf (buf_size + 1) (omega arith) in
        turns _ _ _ _ none (some (state waiting (printed (some (message pid time))) [])) refl
          (ap (λ o. some (state waiting (printed o) [])) text) refl tt then_waiting

    then_reading : Ends (state waiting reading (written pid time))
    then_reading =
        turns _ _ _ _ none _ refl
          (ap (Option.map (got rdbuf (state waiting reading (written pid time))))
            (read_bytes-written true pid time))
          refl tt then_printing

    then_starting_child : Ends (state waiting closing_unused (written pid time))
    then_starting_child = turns _ _ _ _ none _ refl refl refl tt then_reading

    then_writing : Ends (state writing reading [])
    then_writing =
        turns _ _ _ _ _ none refl
          (ap (Option.map (got rdbuf (state writing reading []))) read_bytes_waits) refl
          then_reading tt

    then_both : Ends (state writing closing_unused [])
    then_both = turns _ _ _ _ _ _ refl refl refl then_starting_child then_writing

    then_closing_read : Ends (state closing_read reading [])
    then_closing_read =
        turns _ _ _ _ _ none refl
          (ap (Option.map (got rdbuf (state closing_read reading []))) read_bytes_waits) refl
          then_writing tt

-- Behind a `fork` that succeeds, in whatever order the two processes run and whatever `rdbuf` holds at
-- first, neither gets stuck, no write is without a reader, and both come to their ends, where the child
-- has printed the whole message. The number of the process has 31 bits, and `ctime` gives at most 25
-- bytes, none of them 0.
pub start-MessagePrinted :
    (pid : ℕ) (time : List ℕ) (rdbuf : Buffer)
    → pid < 2 ^ 31
    → length time ≤ 25
    → NoNul time
    → (s : System) × (start false ≡ ok s)
      × Finishes (parent_runs pid time) (child_runs rdbuf) (MessagePrinted pid time) s
start-MessagePrinted pid time rdbuf small short clean = (
  _,
  refl,
  turns _ _ _ _ _ _ refl refl refl (then_both pid time rdbuf small short clean)
      (then_closing_read pid time rdbuf small short clean),
)
