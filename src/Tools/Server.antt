-- ===== src/Tools/Server.antt =====
-- crates/mcp-tools/src/server.rs: the state that the handlers share. A connected backend is known by
-- a handle. What a handler does between two waits for a backend is one step; other handlers and the
-- event pumps run while it waits.
use debug_mcp.Prelude.{ℕ, String, Option, none, some, Result, ok, err}
use debug_mcp.Core.Error.{BackendError}
use debug_mcp.Session.Manager.{SessionManager}
use debug_mcp.Tools.Response.{ToolOutcome}

abbrev pub Handle : Type 0
Handle = ℕ

pub record ToolServer : Type 0 where
  pub session : SessionManager
  pub backend : Option Handle
  pub active_backend_name : Option String

-- A handler has answered, or waits for its backend.
pub data Begun {ℓ} (P : Type ℓ) : Type ℓ where
  done : ToolOutcome → Begun P
  waits : P → Begun P

-- What the wait ends with: the backend's result, or the cancellation of the request.
pub data Reply {ℓ} (A : Type ℓ) : Type ℓ where
  replied : Result BackendError A → Reply A
  cancelled : Reply A

abbrev pub with_session : SessionManager → ToolServer → ToolServer
with_session s sv = record sv { session = s }

-- `current_backend()`, or the answer of the handler when there is none.
abbrev pub backend_or : String → ToolServer → Result String Handle
backend_or message sv = elim sv.backend [ none ↦ err message | some handle ↦ ok handle ]

unfoldable pub set_backend : Handle → String → ToolServer → ToolServer
set_backend handle name sv = record sv { backend = some handle; active_backend_name = some name }

unfoldable pub clear_backend : ToolServer → ToolServer
clear_backend sv = record sv { backend = none; active_backend_name = none }
