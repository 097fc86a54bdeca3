-- ===== src/Threads.antt =====
-- pthread_mutex/main.c: a writer and ten readers of one string behind a mutex. The children hold the
-- state, the steps of the threads, and what holds in every order of the steps.
pub mod State
pub mod Moves
pub mod Invariant
mod Keep
mod KeepReader
pub mod Reach
mod Leads
mod Progress
mod ReadersEnd
pub mod Ends
pub mod Safety
mod Tests
