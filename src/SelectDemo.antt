-- ===== src/SelectDemo.antt =====
-- The demonstrations of `select`: 13_Select/myselect/main.c and 13_Select/prompt_timeout/main.c.
pub mod Files
pub mod Shown
pub mod Prompt
pub mod Answered
mod Examples
