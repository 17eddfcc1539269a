-- ===== src/WebServer.antt =====
-- The web server: 27_web_server/web_server/main.c.
pub mod Parser
pub mod Page
pub mod Words
pub mod Response
pub mod Get
pub mod StatusLine
pub mod Listener
pub mod Children
mod Examples
