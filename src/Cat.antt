-- ===== src/Cat.antt =====
-- cat+grep/mycat.c. The children hold the program, and what it prints.
pub mod Program
pub mod Printed
mod Tests
pub mod Options
