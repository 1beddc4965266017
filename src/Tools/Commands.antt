-- ===== src/Tools/Commands.antt =====
-- crates/mcp-tools/src/handlers/output.rs and run_command.rs.
use debug_mcp.Prelude.{String, Option, none, [], ◌∷◌, Result, ok, err, ◌>>=◌, ◌>>◌, string_eq, ℤ}
use debug_mcp.Core.Types.{EvalMode, EvalResult}
use debug_mcp.Core.Error.{BackendError}
use debug_mcp.Session.State.{configuring, stopped, running, terminated}
use debug_mcp.Session.Output.{drain}
use debug_mcp.Session.Manager.{check_state, set_output}
use debug_mcp.Tools.Json.{Value}
use debug_mcp.Tools.Args.{Args, require_string}
use debug_mcp.Tools.Errors.{render, run_command_error}
use debug_mcp.Tools.Response.{ToolOutcome, error, set, into_outcome, format_output_entries}
use debug_mcp.Tools.Server.{Handle, ToolServer, Begun, done, waits, with_session, backend_or}

unfoldable pub handle_read_output : ToolServer → ToolOutcome × ToolServer
unfolding check_state drain set_output format_output_entries
handle_read_output sv =
    elim (check_state (configuring ∷ stopped ∷ running ∷ terminated ∷ []) sv.session) [
      | err e ↦ (error e, sv)
      | ok _ ↦
          let (entries, output) = drain sv.session.output in
          (
            into_outcome (format_output_entries entries),
            with_session (set_output output sv.session) sv,
          )
    ]

-- A `run_command` that waits for the backend.
pub record PendingCommand : Type 0 where
  pub handle : Handle
  pub command : String

unfoldable pub command_checks : Args → ToolServer → Result String PendingCommand
unfolding check_state require_string
command_checks args sv = do
  check_state (stopped ∷ []) sv.session
  command ← require_string "command" args
  handle ← backend_or run_command_error.request_failed sv
  ok (record { handle = handle; command = command })

unfoldable pub handle_run_command : Args → ToolServer → Begun PendingCommand × ToolServer
unfolding command_checks
handle_run_command args sv = elim (command_checks args sv) [
  | err e ↦ (done (error e), sv)
  | ok p ↦ (waits p, sv)
]

-- The variables reference of the answer is dropped.
unfoldable pub run_command_end :
    (String → Option ℤ → EvalMode → Result BackendError EvalResult) → PendingCommand → ToolOutcome
unfolding render set
run_command_end evaluate p = elim (evaluate p.command none EvalMode.repl) [
  | err e ↦ error (render run_command_error e)
  | ok r ↦ into_outcome (set "type" (Value.string r.ty) (set "result" (Value.string r.result) []))
]
