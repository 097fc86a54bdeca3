-- ===== src/Archive/Nodes.antt =====
-- archive/archiver.c: the functions on `fi_list` (lines 479 to 507, 627 to 633 and 725 to 757) on nodes at
-- addresses. The children prove of them what the lists of Archive/Header say.
pub mod Memory
pub mod Chain
pub mod Freed
mod Steps
pub mod Unlinked
pub mod Added
mod Tests
