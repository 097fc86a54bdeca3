-- ===== src/Shmem/Tests.antt =====
-- Runs of shmem/writer.c and shmem/reader.c in a fixed order.
use os_tasks.Base.{Buffer, ℕ, true, false, List, [], ◌∷◌, refl, arith}
use os_tasks.Shmem.State.{System}
use os_tasks.Shmem.Moves.{compose, write_byte, read_byte, Steps, here, later, initial}
use os_tasks.Shmem.Printed.{AllEnded, Steps-AllEnded}
use os_tasks.Shmem.Life.{
  Event, writer_starts, writer_stopped, reader_starts, nobody, happen_all, OneWriter,
  happen_all-OneWriter,
}
use os_tasks.Shmem.Start.{Ipc, Calls, start_all, AllRefused, start-AllRefused}

abbrev clock : List ℕ
clock = b'1' ∷ b':' ∷ b'0' ∷ 10 ∷ []

abbrev zeros : Buffer
zeros i = 0

record Run : Type 0 where
  last : System
  steps : Steps 4711 (λ t. clock) (initial zeros zeros) last

-- The reader takes a byte between two of the writer.
abbrev mixed : Run
mixed = record {
  last = _;
  steps =
      later
        (later (later (later here (compose 0 refl)) (write_byte 1 (omega arith) refl))
          (read_byte 1 (omega arith) refl))
        (write_byte 0 (omega arith) refl);
}

Steps-AllEnded_example : AllEnded mixed.last.log
Steps-AllEnded_example =
    Steps-AllEnded 4711 (λ t. clock) (omega arith) (λ t. omega arith) zeros zeros mixed.last
      mixed.steps

abbrev nothing : Ipc
nothing = record { file = false; segment = false }

abbrev all_good : Calls
all_good = record { open_ok = true; ftok_ok = true; shmget_ok = true; shmat_ok = true }

abbrev no_attach : Calls
no_attach = record { open_ok = true; ftok_ok = true; shmget_ok = true; shmat_ok = false }

start-AllRefused_example : AllRefused (start_all (no_attach ∷ all_good ∷ all_good ∷ []) nothing)
start-AllRefused_example =
    start-AllRefused no_attach nothing refl refl refl refl refl (all_good ∷ all_good ∷ [])

-- A second writer, then the first one is stopped and a third one starts.
abbrev day : List Event
day =
    writer_starts all_good
    ∷ writer_starts all_good
    ∷ reader_starts (record { ftok_ok = true; shmget_ok = true; shmat_ok = true })
    ∷ writer_stopped
    ∷ writer_starts all_good
    ∷ []

happen_all-OneWriter_example : OneWriter (happen_all day (nobody nothing))
happen_all-OneWriter_example = happen_all-OneWriter day nothing
