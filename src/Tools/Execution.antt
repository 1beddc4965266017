-- ===== src/Tools/Execution.antt =====
-- crates/mcp-tools/src/handlers/execution.rs: `continue`, `step_over`, `step_into`, `step_out` and
-- `pause`. Each is the part before the wait for the backend and the part behind it.
pub mod Begin
pub mod Finish
use debug_mcp.Prelude.{
  ℕ, ℤ, pos, String, Bool, true, false, not, Option, none, some, List, [], ◌∷◌, map, is_empty,
  if◌then◌else◌, Result, ok, err, ◌>>=◌, ◌>>◌, ◌==◌, string_eq,
}
use debug_mcp.Core.Types.{Granularity, StepKind, StopInfo, StopOutcome}
use debug_mcp.Core.Error.{BackendError}
use debug_mcp.Session.State.{State, idle, stopped, running, terminated}
use debug_mcp.Session.Output.{drain}
use debug_mcp.Session.Manager.{
  SessionManager, check_state, set_state, set_state_if_generation, terminate_if_generation,
  set_last_stopped, set_output,
}
use debug_mcp.Tools.Json.{Serde, Value, from_i64, items}
use debug_mcp.Tools.Args.{Args, get_string, explicit_positive_thread_id}
use debug_mcp.Tools.Errors.{
  OpError, render, continue_error, step_over_error, step_into_error, step_out_error, pause_error,
}
use debug_mcp.Tools.Response.{
  ToolOutcome, json, error, RespBuilder, set, set_opt, set_if, into_outcome, merge_output,
}
use debug_mcp.Tools.Server.{
  Handle, ToolServer, Begun, done, waits, Reply, replied, cancelled, with_session, backend_or,
}

pub data Resume : Type 0 where
  continues : Resume
  steps : StepKind → Resume

-- A resume that waits: the call made of the backend, and what the handler keeps for its end.
pub record PendingResume : Type 0 where
  pub handle : Handle
  pub call : Resume
  pub thread_id : ℤ
  pub granularity : Option Granularity
  pub generation : ℕ
  pub op_err : OpError
  pub timeout_msg : String

abbrev pub dump_no_continue : String
dump_no_continue = "cannot continue a crash-dump session"

abbrev continue_timeout : String
continue_timeout = "continue timed out; process still running, use 'pause' to stop it"

abbrev step_over_timeout : String
step_over_timeout = "step over timed out; process still running, use 'pause' to stop it"

abbrev step_into_timeout : String
step_into_timeout = "step into timed out; process still running, use 'pause' to stop it"

abbrev step_out_timeout : String
step_out_timeout = "step out timed out; process still running, use 'pause' to stop it"

unfoldable pub parse_granularity : Args → Option Granularity
unfolding get_string
parse_granularity args =
    let g = get_string "granularity" "" args in
    if g == "line"
    then some Granularity.line
    else (if g == "instruction" then some Granularity.instruction else none)

-- `last_stopped().map(|e| e.thread_id).unwrap_or(1)`
abbrev pub last_thread : SessionManager → ℤ
last_thread s = elim s.last_stopped [ none ↦ pos 1 | some info ↦ info.thread_id ]

abbrev pub or_last : SessionManager → Option ℤ → ℤ
or_last s none = last_thread s
or_last s (some tid) = tid

-- What a resume keeps while it waits.
abbrev pub pending : Args → Resume → OpError → String → ToolServer → ℤ → Handle → PendingResume
pending args call op_err timeout_msg sv thread_id handle = record {
  handle = handle;
  call = call;
  thread_id = thread_id;
  granularity = elim call [ continues ↦ none | steps kind ↦ parse_granularity args ];
  generation = sv.session.generation;
  op_err = op_err;
  timeout_msg = timeout_msg;
}

module _ (serde : Serde) where
  unfoldable pub resolve_thread_id : Args → SessionManager → Result String ℤ
  unfolding explicit_positive_thread_id
  resolve_thread_id args s =
      explicit_positive_thread_id serde args >>= λ explicit. ok (or_last s explicit)

  -- The checks in front of a resume, in their order.
  unfoldable pub resume_checks : Args → OpError → ToolServer → Result String (ℤ × Handle)
  unfolding resolve_thread_id check_state
  resume_checks args op_err sv = do
    check_state (stopped ∷ []) sv.session
    if sv.session.is_dump then err dump_no_continue else do
      thread_id ← resolve_thread_id args sv.session
      handle ← backend_or op_err.request_failed sv
      ok (thread_id, handle)

  -- Up to the wait: the epoch is read and the state is `running`.
  unfoldable pub resume :
      Args → Resume → OpError → String → ToolServer → Begun PendingResume × ToolServer
  unfolding resume_checks set_state
  resume args call op_err timeout_msg sv = elim (resume_checks args op_err sv) [
    | err e ↦ (done (error e), sv)
    | ok (thread_id, handle) ↦ (
      waits (pending args call op_err timeout_msg sv thread_id handle),
      with_session (set_state running sv.session) sv,
    )
  ]

  unfoldable pub handle_continue : Args → ToolServer → Begun PendingResume × ToolServer
  unfolding resume
  handle_continue args = resume args continues continue_error continue_timeout

  unfoldable pub handle_step_over : Args → ToolServer → Begun PendingResume × ToolServer
  unfolding resume
  handle_step_over args = resume args (steps StepKind.over) step_over_error step_over_timeout

  unfoldable pub handle_step_into : Args → ToolServer → Begun PendingResume × ToolServer
  unfolding resume
  handle_step_into args = resume args (steps StepKind.into) step_into_error step_into_timeout

  unfoldable pub handle_step_out : Args → ToolServer → Begun PendingResume × ToolServer
  unfolding resume
  handle_step_out args = resume args (steps StepKind.out) step_out_error step_out_timeout

unfoldable pub stopped_response : StopInfo → RespBuilder
unfolding set set_if
stopped_response info =
    set_if (not (is_empty info.hit_breakpoint_ids)) "hit_breakpoint_ids"
      (Value.array (items (map from_i64 info.hit_breakpoint_ids)))
      (set "description" (Value.string info.description) (
        set "thread_id" (from_i64 info.thread_id)
          (set "reason" (Value.string info.reason) (set "status" (Value.string "stopped") []))))

-- The session writes of `handle_stop_result`.
unfoldable pub record_stop : StopOutcome → ℕ → SessionManager → SessionManager
unfolding set_state_if_generation set_last_stopped terminate_if_generation
record_stop (StopOutcome.stopped info) generation s =
    let (applied, s') = set_state_if_generation generation stopped s in
    if applied then set_last_stopped info s' else s'
record_stop (StopOutcome.exited code) generation s = (terminate_if_generation generation code s).1
record_stop StopOutcome.terminated generation s =
    (set_state_if_generation generation terminated s).1

-- The response, and what is drained for it.
unfoldable pub stop_response : StopOutcome → SessionManager → ToolOutcome × SessionManager
unfolding stopped_response merge_output drain set_output set set_opt
stop_response (StopOutcome.stopped info) s =
    let (entries, output) = drain s.output in
    (into_outcome (merge_output entries (stopped_response info)), set_output output s)
stop_response (StopOutcome.exited code) s =
    let (entries, output) = drain s.output in
    (
      into_outcome (
          merge_output entries (
            set_opt "exit_code" (elim code [ none ↦ none | some n ↦ some (from_i64 n) ])
              (set "status" (Value.string "exited") []))),
      set_output output s,
    )
stop_response StopOutcome.terminated s = (
  into_outcome (
      set "message" (Value.string "Debug session ended")
        (set "status" (Value.string "terminated") [])),
  s,
)

unfoldable pub handle_stop_result : StopOutcome → ℕ → SessionManager → ToolOutcome × SessionManager
unfolding record_stop stop_response
handle_stop_result outcome generation s = stop_response outcome (record_stop outcome generation s)

-- Behind the wait.
unfoldable pub resume_end :
    PendingResume → Reply StopOutcome → ToolServer → ToolOutcome × ToolServer
unfolding handle_stop_result set_state render
resume_end p cancelled sv = (error p.timeout_msg, sv)
resume_end p (replied (ok outcome)) sv =
    let (response, s) = handle_stop_result outcome p.generation sv.session in
    (response, with_session s sv)
resume_end p (replied (err e)) sv =
    (error (render p.op_err e), with_session (set_state stopped sv.session) sv)

-- `pause`: the wait carries nothing but the backend.
unfoldable pub handle_pause : ToolServer → Begun Handle × ToolServer
unfolding check_state
handle_pause sv =
    elim (check_state (running ∷ []) sv.session >>= λ _. backend_or pause_error.request_failed sv) [
      | err e ↦ (done (error e), sv)
      | ok handle ↦ (waits handle, sv)
    ]

unfoldable pub pause_end : Result BackendError (Unit {0}) → ToolServer → ToolOutcome × ToolServer
unfolding render set
pause_end (err e) sv = (error (render pause_error e), sv)
pause_end (ok _) sv = (
  into_outcome (
      set "message"
        (Value.string
          "Pause request sent. The running continue/step operation will return when the process stops.")
        (set "status" (Value.string "pause_requested") [])),
  sv,
)
