-- ===== src/Grep.antt =====
-- cat+grep/mygrep.c. The children hold the program, what it prints, and runs of it.
pub mod Program
pub mod Printed
mod Tests
