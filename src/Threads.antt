-- ===== src/Threads.antt =====
-- The threaded programs that count and sum: 14_Linux_Mulit_thread/count_thread_mutex/main.c,
-- 14_Linux_Mulit_thread/count_thread/main.c and 14_Linux_Mulit_thread/catc_multi/main.c; and the one that
-- hands connections to threads, 14_Linux_Mulit_thread/echo_server_thread/main.c.
pub mod Mutex
pub mod Refinement
pub mod Unlocked
pub mod Sum
pub mod Wakeup
pub mod Total
pub mod Handoff
pub mod Served
mod Examples
