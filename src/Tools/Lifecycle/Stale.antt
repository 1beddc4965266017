-- ===== src/Tools/Lifecycle/Stale.antt =====
-- A resume whose wait ends in an error behind a disconnect: its write of `stopped` has no epoch.
use debug_mcp.Prelude.{String, ◌≡◌, refl, inl, inr, Option, none, [], ◌∷◌, arith, err}
use debug_mcp.Core.Error.{BackendError}
use debug_mcp.Session.State.{idle, stopped}
use debug_mcp.Session.Manager.{check_state, state_error, set_state}
use debug_mcp.Tools.Json.{Serde}
use debug_mcp.Tools.Args.{Args}
use debug_mcp.Tools.Errors.{OpError}
use debug_mcp.Tools.Response.{error}
use debug_mcp.Tools.Registry.{BackendRegistry}
use debug_mcp.Tools.Server.{ToolServer, done, replied, clear_backend}
use debug_mcp.Tools.Lifecycle.{
  handle_launch, handle_attach, launch_checks, attach_checks, drop_backend, disconnect_end,
}
use debug_mcp.Tools.Execution.{PendingResume, Resume, resume, resume_end}
use debug_mcp.Tools.Execution.Begin.{resume_lem}

-- The server when a session was disconnected while a resume waited, and the wait then ended in an error.
abbrev pub stale_server : PendingResume → BackendError → ToolServer → ToolServer
stale_server p e sv = (resume_end p (replied (err e)) (disconnect_end (drop_backend sv)).1).1

-- When a session was disconnected while a resume waited, and the wait then ends in an error, the server
-- is `stopped` and has no backend: a launch and an attach are refused for the state, each resume is
-- refused, and none of them changes the server.
pub stale_error :
    (serde : Serde) (registry : BackendRegistry) (env_value : Option String) (args : Args)
    (call : Resume) (op_err : OpError) (timeout_msg : String) (p : PendingResume) (e : BackendError)
    (sv : ToolServer)
    → ((stale_server p e sv).session.state ≡ stopped)
      × ((stale_server p e sv).backend ≡ none)
      × (handle_launch serde registry env_value args (stale_server p e sv)
          ≡ (done (error (state_error (idle ∷ []) stopped)), stale_server p e sv))
      × (handle_attach serde registry env_value args (stale_server p e sv)
          ≡ (done (error (state_error (idle ∷ []) stopped)), stale_server p e sv))
      × ((why : String) × (resume serde args call op_err timeout_msg (stale_server p e sv)
            ≡ (done (error why), stale_server p e sv)))
unfolding resume_end disconnect_end drop_backend handle_launch handle_attach check_state set_state
    launch_checks attach_checks clear_backend
stale_error serde registry env_value args call op_err timeout_msg p e sv = (
  refl,
  refl,
  refl,
  refl,
  elim (resume_lem serde args call op_err timeout_msg (stale_server p e sv)) [
    | inl refused ↦ refused
    | inr (q, sent, st, live, connected, kept, thread) ↦ ground (arith, connected)
  ],
)
