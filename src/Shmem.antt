-- ===== src/Shmem.antt =====
-- shmem/writer.c and shmem/reader.c, which share a segment of memory. The children hold the segment
-- and the steps of the two programs, what the reader prints, and how writers and
-- readers start and end.
pub mod State
pub mod Moves
pub mod Message
pub mod Printed
pub mod Start
pub mod Life
mod Tests
