-- ===== src/SharedMemory.antt =====
-- The programs that count in shared memory: under a semaphore, 11_IPC/shm_producer_sem/main.c and
-- 11_IPC/shm_consumer_sem/main.c, and without one, 11_IPC/shm_producer/main.c and
-- 11_IPC/shm_consumer/main.c.
pub mod Semaphore
pub mod Exclusion
pub mod Unsynchronised
pub mod Reads
mod Examples
