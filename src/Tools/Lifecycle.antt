-- ===== src/Tools/Lifecycle.antt =====
-- crates/mcp-tools/src/handlers/lifecycle.rs: `launch`, `attach` and `disconnect`, each cut at its
-- waits: for the connection, for the handshake, for the backend's end.
pub mod Launch
pub mod Phases
pub mod Stale
use package.text.Mathlib.Text.{find?}
use Prim.Native.String.{len, slice}
use debug_mcp.Prelude.{
  ℕ, ◌+◌, ℤ, String, Bool, true, false, Option, none, some, List, [], ◌∷◌, Dict, is_positive,
  if◌then◌else◌, Result, ok, err, ◌>>=◌, ◌>>◌, ◌==◌, string_eq,
}
use debug_mcp.Prelude.Text.{◌<>◌, show_ℤ}
use debug_mcp.Core.Types.{LaunchSpec, LaunchOutcome, AttachSpec, AttachOutcome, StopInfo}
use debug_mcp.Core.Error.{
  BackendError, detect, spawn, send, protocol, dap, closed, timeout, unsupported, display,
}
use debug_mcp.Session.State.{State, idle, configuring, stopped, running, terminated}
use debug_mcp.Session.Manager.{
  SessionManager, check_state, set_state, reset, set_program, set_pid, set_last_stopped,
}
use debug_mcp.Session.Manager.Tracking.{flush_pending_breakpoints}
use debug_mcp.Tools.Json.{Serde, F64, as_i64, Value, from_i64}
use debug_mcp.Tools.Args.{
  Args, get_raw, require_string, get_string, get_bool, parse_json_array, parse_json_object,
  value_as_f64,
}
use debug_mcp.Tools.Errors.{strip_after}
use debug_mcp.Tools.Response.{ToolOutcome, text, error, set, into_outcome}
use debug_mcp.Tools.Registry.{BackendRegistry, Factory, select_with_env}
use debug_mcp.Tools.Server.{
  Handle, ToolServer, Begun, done, waits, Reply, replied, cancelled, with_session, set_backend,
  clear_backend,
}

-- `reset` and `clear_backend` behind a failure to connect, and `cleanup_after_cancel`; the two locks
-- are taken in other orders.
unfoldable pub cleanup : ToolServer → ToolServer
unfolding reset clear_backend
cleanup sv = clear_backend (with_session (reset sv.session) sv)

-- `backend_select`
abbrev pub backend_select : String → Option String
backend_select backend = if backend == "" then none else some backend

unfoldable pub connect_error : String → BackendError → String
unfolding display
connect_error backend (detect m) =
    if backend == "lldb"
    then "failed to find lldb-dap: " <> m
    else (if backend == "windbg"
        then "Debugging Tools for Windows not found: " <> m
        else "failed to find " <> backend <> ": " <> m)
connect_error backend (spawn m) =
    if backend == "lldb"
    then "failed to spawn lldb-dap: " <> m
    else (if backend == "windbg"
        then "failed to initialize DbgEng: " <> m
        else "failed to spawn " <> backend <> ": " <> m)
connect_error backend e = display e

-- `ty.split_once(':')` into the operation and the label.
protocol_error : String → String
protocol_error ty = elim (find? ty ":") [
  | none ↦ "unexpected response type: " <> ty
  | some i ↦ "unexpected " <> slice ty 0 i <> " response type: " <> slice ty (i + 1) (len ty)
]

unfoldable pub handshake_error : BackendError → String
unfolding protocol_error display
handshake_error (dap message) = message
handshake_error (protocol ty) = protocol_error ty
handshake_error closed = "connection closed"
handshake_error e = display e

-- A launch or an attach that waits for its factory to connect.
pub record Connecting {ℓ} (Spec : Type ℓ) : Type ℓ where
  pub factory : Factory
  pub spec : Spec
  pub label : String
  pub explicit_pid : Option ℤ
  pub stop_on_entry : Bool

-- One that waits for the handshake. The event pump of the connection has the epoch `generation`.
pub record Handshaking {ℓ} (Spec : Type ℓ) : Type ℓ where
  pub handle : Handle
  pub generation : ℕ
  pub connecting : Connecting Spec

-- The checks of `launch` in their order: the program, its arguments, its environment.
module _ (serde : Serde) where
  unfoldable pub launch_checks :
      Args → ToolServer → Result String (String × List String × List (String × String))
  unfolding check_state require_string parse_json_array parse_json_object
  launch_checks args sv = do
    check_state (idle ∷ []) sv.session
    program ← require_string "program" args
    program_args ← parse_json_array serde "args" args
    env ← parse_json_object serde "env" args
    ok (program, program_args, env)

  -- `attach`: the pid comes first, then the name to wait for.
  pid_spec : Option F64 → Result String (AttachSpec × String × Option ℤ)
  pid_spec none = err "'pid' must be a number"
  pid_spec (some f) =
      let pid = as_i64 f in
      if is_positive pid
      then ok (record { pid = some pid; wait_for = none }, "pid:" <> show_ℤ pid, some pid)
      else err "'pid' must be a positive integer"

  wait_spec : Option Value → Result String (AttachSpec × String × Option ℤ)
  wait_spec none = err "either 'pid' or 'wait_for' must be provided"
  wait_spec (some Value.null) = err "either 'pid' or 'wait_for' must be provided"
  wait_spec (some (Value.string name)) =
      if name == ""
      then err "'wait_for' must be a non-empty string"
      else ok (record { pid = none; wait_for = some name }, name, none)
  wait_spec (some v) = err "'wait_for' must be a non-empty string"

  spec_of : Option Value → Option Value → Result String (AttachSpec × String × Option ℤ)
  unfolding pid_spec wait_spec
  spec_of none wait_for = wait_spec wait_for
  spec_of (some Value.null) wait_for = wait_spec wait_for
  spec_of (some v) wait_for = pid_spec (value_as_f64 serde v)

  unfoldable pub attach_checks : Args → ToolServer → Result String (AttachSpec × String × Option ℤ)
  unfolding check_state spec_of get_raw
  attach_checks args sv = do
    check_state (idle ∷ []) sv.session
    spec_of (get_raw "pid" args) (get_raw "wait_for" args)

module _ {ℓ} {Spec : Type ℓ} (registry : BackendRegistry) (env_value : Option String) where
  -- The factory is selected, and the connection waited for.
  unfoldable pub begin_connect :
      Args → Spec → String → Option ℤ → Bool → ToolServer → Begun (Connecting Spec) × ToolServer
  unfolding select_with_env get_string cleanup
  begin_connect args spec label explicit_pid stop_on_entry sv =
      elim (select_with_env registry (backend_select (get_string "backend" "" args)) env_value) [
        | err e ↦ (done (error e), cleanup sv)
        | ok factory ↦ (
          waits (record {
            factory = factory;
            spec = spec;
            label = label;
            explicit_pid = explicit_pid;
            stop_on_entry = stop_on_entry;
          }),
          sv,
        )
      ]

module _ {ℓ} {Spec : Type ℓ} where
  -- The connection is there, or failed: the backend is stored and its pump has the epoch of now.
  unfoldable pub connected :
      Connecting Spec
      → Result BackendError Handle
      → ToolServer
      → Begun (Handshaking Spec) × ToolServer
  unfolding connect_error cleanup set_backend
  connected c (err e) sv = (done (error (connect_error c.factory.name e)), cleanup sv)
  connected c (ok handle) sv = (
    waits (record { handle = handle; generation = sv.session.generation; connecting = c }),
    set_backend handle c.factory.name sv,
  )

unfoldable pub launch_spec :
    Args
    → String
    → List String
    → List (String × String)
    → SessionManager
    → LaunchSpec × SessionManager
unfolding flush_pending_breakpoints get_string get_bool
launch_spec args program program_args env s =
    let ((source_map, function_bps), s') = flush_pending_breakpoints s in
    let cwd = get_string "cwd" "" args in
    (
      record {
        program = program;
        args = program_args;
        cwd = if cwd == "" then none else some cwd;
        env = env;
        stop_on_entry = get_bool "stop_on_entry" true args;
        source_breakpoints = source_map;
        function_breakpoints = function_bps;
      },
      s',
    )

module _ (serde : Serde) (registry : BackendRegistry) (env_value : Option String) where
  unfoldable pub handle_launch : Args → ToolServer → Begun (Connecting LaunchSpec) × ToolServer
  unfolding launch_checks launch_spec begin_connect set_state get_bool flush_pending_breakpoints
      get_string
  handle_launch args sv = elim (launch_checks serde args sv) [
    | err e ↦ (done (error e), sv)
    | ok (program, program_args, env) ↦
        let (spec, s) =
          launch_spec args program program_args env (set_state configuring sv.session) in
        begin_connect registry env_value args spec program none (get_bool "stop_on_entry" true args)
          (with_session s sv)
  ]

  unfoldable pub handle_attach : Args → ToolServer → Begun (Connecting AttachSpec) × ToolServer
  unfolding attach_checks begin_connect set_state
  handle_attach args sv = elim (attach_checks serde args sv) [
    | err e ↦ (done (error e), sv)
    | ok (spec, label, explicit_pid) ↦
        begin_connect registry env_value args spec label explicit_pid true
          (with_session (set_state configuring sv.session) sv)
  ]

-- The program and the pid: the explicit one, else the debugger's, if it has one.
unfoldable pub note_target : String → Option ℤ → Option ℤ → SessionManager → SessionManager
unfolding set_program set_pid
note_target label (some pid) debugger_pid s = set_pid pid (set_program label s)
note_target label none (some pid) s = set_pid pid (set_program label s)
note_target label none none s = set_program label s

-- The response of a launch or an attach that stopped, and its writes.
stopped_on : String → String → StopInfo → SessionManager → ToolOutcome × SessionManager
stopped_on status label info s = (
  into_outcome (
      set "stopped_thread_id" (from_i64 info.thread_id) (
        set "stop_reason" (Value.string info.reason) (
          set "state" (Value.string "stopped") (
            set "pid" (from_i64 s.pid)
              (set "program" (Value.string label) (set "status" (Value.string status) [])))))),
  set_last_stopped info (set_state stopped s),
)

unfoldable pub launched : LaunchOutcome → String → SessionManager → ToolOutcome × SessionManager
unfolding stopped_on set set_state set_last_stopped
launched (LaunchOutcome.stopped info) program s = stopped_on "launched" program info s
launched LaunchOutcome.running program s = (
  into_outcome (
      set "state" (Value.string "running") (
        set "pid" (from_i64 s.pid)
          (set "program" (Value.string program) (set "status" (Value.string "launched") [])))),
  set_state running s,
)
launched (LaunchOutcome.exited code) program s =
    (text "Program exited during launch", set_state terminated s)

unfoldable pub attached : AttachOutcome → String → SessionManager → ToolOutcome × SessionManager
unfolding stopped_on set set_state set_last_stopped
attached (AttachOutcome.stopped info) label s = stopped_on "attached" label info s
attached (AttachOutcome.exited code) label s =
    (text "Process exited during attach", set_state terminated s)
attached AttachOutcome.terminated label s =
    (text "Process exited during attach", set_state terminated s)

abbrev pub stop_on_entry_timeout : String
stop_on_entry_timeout = "timed out waiting for stop on entry: context canceled"

-- Behind the handshake; the debugger's pid is the backend's.
unfoldable pub launch_end :
    Handshaking LaunchSpec → Option ℤ → Reply LaunchOutcome → ToolServer → ToolOutcome × ToolServer
unfolding cleanup handshake_error note_target launched
launch_end h debugger_pid cancelled sv = (
  error (
      if h.connecting.stop_on_entry
      then stop_on_entry_timeout
      else "launch timed out: context canceled"),
  cleanup sv,
)
launch_end h debugger_pid (replied (err e)) sv = (error (handshake_error e), cleanup sv)
launch_end h debugger_pid (replied (ok outcome)) sv =
    let label = h.connecting.label in
    let (response, s) = launched outcome label (note_target label none debugger_pid sv.session) in
    (response, with_session s sv)

unfoldable pub attach_end :
    Handshaking AttachSpec → Option ℤ → Reply AttachOutcome → ToolServer → ToolOutcome × ToolServer
unfolding cleanup handshake_error note_target attached
attach_end h debugger_pid cancelled sv = (error stop_on_entry_timeout, cleanup sv)
attach_end h debugger_pid (replied (err e)) sv = (error (handshake_error e), cleanup sv)
attach_end h debugger_pid (replied (ok outcome)) sv =
    let label = h.connecting.label in
    let (response, s) =
      attached outcome label
        (note_target label h.connecting.explicit_pid debugger_pid sv.session) in
    (response, with_session s sv)

-- `disconnect`: past the guard it waits for the backend, whose answer it ignores; then the backend is
-- dropped, and behind that wait the session is reset.
unfoldable pub handle_disconnect : Args → ToolServer → Begun Bool × ToolServer
unfolding check_state get_bool
handle_disconnect args sv =
    elim (check_state (configuring ∷ stopped ∷ running ∷ terminated ∷ []) sv.session) [
      | err e ↦ (done (error e), sv)
      | ok _ ↦ (waits (get_bool "terminate" true args), sv)
    ]

unfoldable pub drop_backend : ToolServer → ToolServer
unfolding clear_backend
drop_backend = clear_backend

unfoldable pub disconnect_end : ToolServer → ToolOutcome × ToolServer
unfolding set reset
disconnect_end sv = (
  into_outcome (set "status" (Value.string "disconnected") []),
  with_session (reset sv.session) sv,
)
