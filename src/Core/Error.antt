-- ===== src/Core/Error.antt =====
-- crates/debugger-core/src/error.rs: the error of a backend operation, and its `Display`.
use debug_mcp.Prelude.{String}
use debug_mcp.Prelude.Text.{◌<>◌}

pub data BackendError : Type 0 where
  detect spawn send protocol dap : String → BackendError
  closed timeout : BackendError
  unsupported : String → BackendError

-- `to_string()`
unfoldable pub display : BackendError → String
display (detect m) = "failed to detect debugger: " <> m
display (spawn m) = "failed to spawn debugger: " <> m
display (send m) = "failed to send request: " <> m
display (protocol ty) = "unexpected response type: " <> ty
display (dap message) = "debugger error: " <> message
display closed = "connection closed"
display timeout = "operation timed out"
display (unsupported tool) = tool <> " is not supported by the active backend"
