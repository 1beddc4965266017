-- ===== src/Tools/Inspection.antt =====
-- crates/mcp-tools/src/handlers/inspection.rs: `status`, `backtrace` and `threads`, each cut at its
-- wait for the backend.
pub mod Variables
pub mod Backtrace
use debug_mcp.Prelude.{
  ℤ, pos, String, Bool, true, Option, none, some, List, [], ◌∷◌, map, length, is_empty, not,
  if◌then◌else◌, Result, ok, err, ◌>>=◌, ◌>>◌, ◌==◌, string_eq, int_eq,
}
use debug_mcp.Core.Types.{Frame, StopInfo, ThreadInfo}
use debug_mcp.Core.Error.{BackendError}
use debug_mcp.Session.State.{State, idle, configuring, stopped, running, terminated, state_name}
use debug_mcp.Session.Manager.{SessionManager, check_state, set_frame_mapping}
use debug_mcp.Tools.Json.{Serde, F64, Value, as_i64, gt_zero, from_i64, from_usize, items}
use debug_mcp.Tools.Args.{Args, get_f64, explicit_positive_thread_id}
use debug_mcp.Tools.Errors.{render, stack_trace_error, threads_error}
use debug_mcp.Tools.Response.{
  ToolOutcome, error, RespBuilder, set, set_opt, set_if, build, into_outcome,
}
use debug_mcp.Tools.Server.{Handle, ToolServer, Begun, done, waits, with_session, backend_or}
use debug_mcp.Tools.Registry.{BackendRegistry, available_names}
use debug_mcp.Tools.Execution.{last_thread, or_last}
use debug_mcp.Tools.Frames.{index_frames}

-- `!s.is_empty()`
abbrev pub is_text : String → Bool
is_text s = not (s == "")

-- The program and its pid.
unfoldable pub status_target : SessionManager → RespBuilder → RespBuilder
unfolding set
status_target s b = set "pid" (from_i64 s.pid) (set "program" (Value.string s.program) b)

unfoldable pub status_stop : Option StopInfo → RespBuilder → RespBuilder
unfolding set set_if
status_stop none b = b
status_stop (some event) b =
    set_if (not (is_empty event.hit_breakpoint_ids)) "hit_breakpoint_ids"
      (Value.array (items (map from_i64 event.hit_breakpoint_ids)))
      (set_if (is_text event.description) "stop_description" (Value.string event.description) (
        set "stopped_thread_id" (from_i64 event.thread_id)
          (set "stop_reason" (Value.string event.reason) b)))

unfoldable pub status_fields : State → SessionManager → RespBuilder → RespBuilder
unfolding status_target status_stop set set_opt
status_fields idle s b = set "message" (Value.string "No active debug session") b
status_fields configuring s b = set "message" (Value.string "Debug session is being configured") b
status_fields stopped s b = status_stop s.last_stopped (status_target s b)
status_fields running s b = status_target s b
status_fields terminated s b =
    set_opt "exit_code" (elim s.exit_code [ none ↦ none | some code ↦ some (from_i64 code) ])
      (set "program" (Value.string s.program) b)

-- `active_backend_name().unwrap_or_else(|| registry.default_name())`
abbrev pub backend_name : BackendRegistry → ToolServer → String
backend_name registry sv = elim sv.active_backend_name [ none ↦ registry.default_name | some n ↦ n ]

unfoldable pub handle_status : BackendRegistry → ToolServer → ToolOutcome
unfolding status_fields available_names set state_name
handle_status registry sv = into_outcome (
    status_fields sv.session.state sv.session (
      set "available_backends" (Value.array (items (map Value.string (available_names registry)))) (
        set "backend" (Value.string (backend_name registry sv))
          (set "state" (Value.string (state_name sv.session.state)) []))))

-- A `backtrace` that waits for its stack trace.
pub record PendingTrace : Type 0 where
  pub handle : Handle
  pub thread_id : ℤ
  pub levels : ℤ

abbrev levels_or : ℤ → Option F64 → ℤ
levels_or default none = default
levels_or default (some l) = if gt_zero l then as_i64 l else default

module _ (serde : Serde) where
  unfoldable pub resolve_backtrace_thread_id : Args → SessionManager → Result String ℤ
  unfolding explicit_positive_thread_id
  resolve_backtrace_thread_id args s =
      explicit_positive_thread_id serde args >>= λ explicit. ok (or_last s explicit)

  unfoldable pub backtrace_checks : Args → ToolServer → Result String PendingTrace
  unfolding check_state resolve_backtrace_thread_id get_f64 gt_zero as_i64
  backtrace_checks args sv = do
    check_state (stopped ∷ []) sv.session
    thread_id ← resolve_backtrace_thread_id args sv.session
    handle ← backend_or stack_trace_error.request_failed sv
    ok (record {
      handle = handle;
      thread_id = thread_id;
      levels = levels_or (pos 20) (get_f64 serde "levels" args);
    })

  unfoldable pub handle_backtrace : Args → ToolServer → Begun PendingTrace × ToolServer
  unfolding backtrace_checks
  handle_backtrace args sv = elim (backtrace_checks args sv) [
    | err e ↦ (done (error e), sv)
    | ok p ↦ (waits p, sv)
  ]

-- A path or an address that is there and not empty.
abbrev pub present : Option String → Option String
present none = none
present (some s) = if s == "" then none else some s

-- `file` and `line`, where there is a source path.
unfoldable pub set_place : Option String → ℤ → RespBuilder → RespBuilder
unfolding set
set_place path line b = elim (present path) [
  | none ↦ b
  | some file ↦ set "line" (from_i64 line) (set "file" (Value.string file) b)
]

unfoldable pub frame_entry : Frame → Value
unfolding set_place set set_opt
frame_entry f = build (
    set_opt "address"
      (elim (present f.instruction_pointer) [ none ↦ none | some ip ↦ some (Value.string ip) ])
      (set_place f.source_path f.line (
        set "id" (from_i64 f.id)
          (set "name" (Value.string f.name) (set "index" (from_i64 f.index) [])))))

unfoldable pub backtrace_response : ℤ → List Frame → ℤ → ToolOutcome
unfolding frame_entry set
backtrace_response thread_id frames total = into_outcome (
    set "thread_id" (from_i64 thread_id) (
      set "total_frames" (from_i64 total)
        (set "frames" (Value.array (items (map frame_entry frames))) [])))

unfoldable pub backtrace_end :
    PendingTrace → Result BackendError (List Frame × ℤ) → ToolServer → ToolOutcome × ToolServer
unfolding render index_frames set_frame_mapping backtrace_response
backtrace_end p (err e) sv = (error (render stack_trace_error e), sv)
backtrace_end p (ok (frames, total)) sv = (
  backtrace_response p.thread_id frames total,
  with_session (set_frame_mapping (index_frames frames []) sv.session) sv,
)

unfoldable pub handle_threads : ToolServer → Begun Handle × ToolServer
unfolding check_state
handle_threads sv =
    elim (check_state (stopped ∷ []) sv.session >> backend_or threads_error.request_failed sv) [
      | err e ↦ (done (error e), sv)
      | ok handle ↦ (waits handle, sv)
    ]

abbrev last_stopped_tid : SessionManager → Option ℤ
last_stopped_tid s = elim s.last_stopped [ none ↦ none | some info ↦ some info.thread_id ]

-- `Some(th.id) == last_stopped_tid`
abbrev pub is_stopped_on : Option ℤ → ThreadInfo → Bool
is_stopped_on none th = Bool.false
is_stopped_on (some tid) th = th.id == tid

unfoldable pub thread_entry : Option ℤ → ThreadInfo → Value
unfolding set set_if
thread_entry last th = build (
    set_if (is_stopped_on last th) "is_current" (Value.bool true) (
      set_if (is_stopped_on last th) "is_stopped" (Value.bool true)
        (set "name" (Value.string th.name) (set "id" (from_i64 th.id) []))))

-- `stopped_thread_id`, as the loop over the threads leaves it.
unfoldable pub stopped_thread : Option ℤ → List ThreadInfo → Option ℤ → Option ℤ
stopped_thread last [] found = found
stopped_thread last (th ∷ ths) found =
    stopped_thread last ths (if is_stopped_on last th then some th.id else found)

unfoldable pub threads_end : Result BackendError (List ThreadInfo) → ToolServer → ToolOutcome
unfolding render thread_entry stopped_thread set set_opt
threads_end (err e) sv = error (render threads_error e)
threads_end (ok threads) sv =
    let last = last_stopped_tid sv.session in
    into_outcome (
      set_opt "stopped_thread_id"
        (elim (stopped_thread last threads none) [ none ↦ none | some tid ↦ some (from_i64 tid) ])
        (set "count" (from_usize (length threads))
          (set "threads" (Value.array (items (map (thread_entry last) threads))) [])))
