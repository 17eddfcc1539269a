-- ===== src/EchoLoop.antt =====
-- The echo programs that serve one connection at a time in a process or a thread, and their clients.
pub mod Servers
pub mod Clients
pub mod RoundTrip
pub mod Child
pub mod Mains
pub mod Ended
pub mod Urgent
pub mod Stale
mod Examples
