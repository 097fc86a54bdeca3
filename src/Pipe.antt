-- ===== src/Pipe.antt =====
-- pipe: a message from one process to another, through a pipe (pipe.c) and through a named one
-- (read_fifo.c and write_fifo.c). Runs says how two processes come to an end, State and Fifo hold the
-- programs, Message what they write and read, Ends and FifoEnds follow their runs.
pub mod Runs
pub mod Bytes
pub mod State
pub mod Message
pub mod Ends
pub mod Fifo
pub mod FifoEnds
mod Tests
