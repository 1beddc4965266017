-- ===== src/Windbg.antt =====
-- crates/windbg-backend: the backend over DbgEng, whose engine runs on a thread of its own.
pub mod Engine
pub mod Breakpoints
pub mod Backend
pub mod Thread
pub mod Factory
pub mod Tests
