-- ===== src/EpollChat.antt =====
-- The chat server on epoll: 17_epoll_siginfo/chat_cil/main.c.
pub mod Server
pub mod Overflow
pub mod Delivery
mod Examples
