-- ===== src/FileService.antt =====
-- The file server and its client: 26_file_server/file_server/main.c and
-- 26_file_server/file_cli/main.c.
pub mod Disk
pub mod Query
pub mod Server
pub mod Client
pub mod Fuel
pub mod Overwrite
pub mod Request
pub mod Options
pub mod Choice
pub mod Dispatch
pub mod Upload
pub mod Download
pub mod Listener
pub mod Sessions
pub mod List
pub mod Store
mod Examples
mod SessionExamples
