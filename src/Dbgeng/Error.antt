-- ===== src/Dbgeng/Error.antt =====
-- crates/dbgeng-sys/src/error.rs: an error is that of a call of COM, with its `HRESULT` and message, or
-- a text of the engine's own.
use debug_mcp.Prelude.{ℕ, String}
use debug_mcp.Prelude.Text.{◌<>◌, show_lower_hex}

-- `windows::core::Error`: the 32 bits of its code, and its message.
pub record ComError : Type 0 where
  pub code : ℕ
  pub message : String

pub data EngineError : Type 0 where
  op : String → ComError → EngineError
  engine : String → EngineError

unfoldable pub display : EngineError → String
unfolding show_lower_hex
display (op context source) =
    context <> " failed: 0x" <> show_lower_hex 8 source.code <> " (" <> source.message <> ")"
display (engine message) = message
