-- ===== src/Echo.antt =====
-- The echo servers that serve many connections in one process:
-- 16_block_nonblock/echo_server_nonblocking/main.c and 13_Select/echo_server_multi/main.c.
pub mod NonBlocking
pub mod Covered
pub mod Sweep
pub mod Select
pub mod Ready
pub mod Watched
mod Examples
mod SelectExamples
