-- ===== src/Chat.antt =====
-- The chat server 17_epoll_siginfo/chat_server_rts/main.c and the client 17_epoll_siginfo/chat_linux_cli/main.c.
pub mod Server
pub mod Broadcast
pub mod Members
pub mod Client
pub mod Relay
mod Examples
