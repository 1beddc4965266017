-- ===== src/Lldb.antt =====
-- crates/lldb-backend: the backend over lldb-dap, by the Debug Adapter Protocol.
pub mod Stderr
pub mod Requests
pub mod Client
pub mod Body
pub mod Backend
pub mod Detect
pub mod Queries
pub mod Tests
