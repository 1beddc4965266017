-- ===== src/Tools.antt =====
-- crates/mcp-tools: the tool handlers over the session and a backend.
pub mod Json
pub mod Args
pub mod Errors
pub mod Response
pub mod Server
pub mod Flatten
pub mod Frames
pub mod Execution
pub mod Registry
pub mod Lifecycle
pub mod Breakpoints
pub mod Inspection
pub mod HexDump
pub mod Memory
pub mod Commands
pub mod Windbg
pub mod Schema
pub mod Dispatch
pub mod Tests
pub mod Examples
