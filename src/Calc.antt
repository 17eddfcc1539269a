-- ===== src/Calc.antt =====
-- The calculators: 9_UDP/calc_linux_server/main.c with its client 9_UDP/calc_linux_cli/main.c, and
-- 8_TCP/cal_server/main.c.
pub mod Arith
pub mod Udp
pub mod Tcp
pub mod Input
pub mod Patterns
pub mod Typed
pub mod Answers
pub mod Exact
pub mod Client
pub mod Dialogue
mod Examples
