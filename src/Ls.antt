-- ===== src/Ls.antt =====
-- ls/main.c. The children hold the texts of one file, the order of the names, and the listing.
pub mod Format
pub mod Names
pub mod World
pub mod Listing
pub mod Order
pub mod Short
pub mod Listed
pub mod Permissions
mod Tests
