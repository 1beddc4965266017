-- ===== src/Dap.antt =====
-- crates/dap-client: the client side of the Debug Adapter Protocol, behind the framing.
pub mod Wire
pub mod Framing
pub mod StopWaiter
pub mod Shared
pub mod Client
pub mod ReadLoop
pub mod Tests
