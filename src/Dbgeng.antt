-- ===== src/Dbgeng.antt =====
-- crates/dbgeng-sys: the engine over the COM interfaces of DbgEng.
pub mod Error
pub mod Callbacks
pub mod Com
pub mod Engine
pub mod Ops
pub mod Tests
