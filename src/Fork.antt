-- ===== src/Fork.antt =====
-- fork/main.c: a parent and a child that pass signals on. The children hold the state, the steps, and
-- what is sent in every order of the steps.
pub mod State
pub mod Moves
pub mod Sent
mod Tests
