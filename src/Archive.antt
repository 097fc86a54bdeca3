-- ===== src/Archive.antt =====
-- archive/archiver.c: an archive is a header of `file_info` structs, four zero bytes, and the
-- contents of the files one after another. The children hold the format, the list of the header,
-- and the commands of the program.
pub mod Format
pub mod Descriptor
pub mod Header
pub mod Reading
mod Ends
pub mod Copy
mod Slice
pub mod Remove
pub mod Layout
mod Kept
mod Offsets
mod Located
pub mod Removed
pub mod Extract
pub mod Extracted
pub mod Input
mod Appended
mod Put
pub mod Insertion
pub mod Inserted
pub mod Session
pub mod Program
pub mod Sizes
pub mod Stat
pub mod Table
pub mod Disk
pub mod Commands
pub mod Nodes
mod Tests
mod CommandTests
