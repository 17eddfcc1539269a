-- ===== src/Multicast.antt =====
-- The multicast chat: 23_multi_cast/chat_multi_casting/main.c.
pub mod Channel
pub mod Silence
mod Examples
