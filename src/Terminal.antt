-- ===== src/Terminal.antt =====
-- The shell sessions of an agent: internal/agent/terminal/manager.go.
--
-- `Model` has the messages and the tables, `Manager` the handlers. The other children prove properties.
pub mod Model
pub mod Manager
pub mod Sessions
pub mod Served
pub mod Reached
mod Tests
