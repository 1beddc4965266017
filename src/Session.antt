-- ===== src/Session.antt =====
-- crates/mcp-session: the state of the one debug session, its output buffer and its event pump.
pub mod State
pub mod Output
pub mod Manager
pub mod Pump
pub mod Tests
