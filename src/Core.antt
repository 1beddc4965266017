-- ===== src/Core.antt =====
-- crates/debugger-core: the neutral vocabulary between the tool layer and a backend.
pub mod Types
pub mod Error
