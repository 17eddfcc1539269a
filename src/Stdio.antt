-- ===== src/Stdio.antt =====
-- The servers on a stream of the C library: 12_recv_send/echo_server_stdio/main.c and
-- 12_recv_send/echo_server_formattedio/main.c. A stream that is open for both directions is undefined
-- where it is read right after it was written, and where it is written right after it was read, unless
-- the read met the end (ISO C 7.21.5.3).
pub mod Lines
pub mod Echoed
pub mod Formatted
pub mod Entries
mod Examples
