-- ===== src/Shell.antt =====
-- The shell: 10_proc/myshell/main.c.
pub mod Loop
pub mod Commands
mod Examples
