-- ===== src/App.antt =====
-- src/main.rs: the tasks that tie the parts together.
pub mod Connection
pub mod Reload
pub mod Watch
pub mod Host
pub mod Start
mod Tests
