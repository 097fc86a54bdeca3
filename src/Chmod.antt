-- ===== src/Chmod.antt =====
-- chmod/mychmod.c: the globals of the program (`parsed_mode`, `initial_mode`, `is_number`) and its
-- linked list of `changed_perm` nodes. The children hold the functions and what is proved of them.
pub mod State
pub mod Parser
pub mod Grammar
mod Links
mod Scan
mod Rounds
mod Simulation
mod Language
mod Sound
pub mod Parse
pub mod Apply
mod Walk
pub mod Covers
mod Effect
mod Grant
pub mod Program
pub mod Correct
pub mod Octal
pub mod Clear
mod Tests
