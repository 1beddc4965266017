-- ===== src/Tools/Windbg.antt =====
-- crates/mcp-tools/src/handlers/windbg.rs: `open_crash_dump` and `attach_kernel`, which connect the
-- `windbg` factory, and `analyze_crash` and `get_modules`, which ask the connected backend. Each is
-- cut at its waits.
pub mod Connect
use package.text.Mathlib.Text.{starts_with}
use debug_mcp.Prelude.{
  ℕ, ℤ, String, Bool, true, false, Option, none, some, List, [], ◌∷◌, map, if◌then◌else◌, Result,
  ok, err, ◌>>=◌, ◌>>◌, string_eq,
}
use debug_mcp.Prelude.Text.{◌<>◌}
use debug_mcp.Core.Types.{StopInfo, AttachOutcome, DumpOutcome, ModuleInfo}
use debug_mcp.Core.Error.{
  BackendError, detect, spawn, send, protocol, dap, closed, timeout, unsupported, display,
}
use debug_mcp.Session.State.{State, idle, configuring, stopped, terminated}
use debug_mcp.Session.Manager.{SessionManager, check_state, set_state, set_last_stopped, set_dump}
use debug_mcp.Tools.Json.{Value, from_i64, items}
use debug_mcp.Tools.Args.{Args, require_string}
use debug_mcp.Tools.Response.{
  ToolOutcome, text, error, RespBuilder, set, set_opt, build, into_outcome,
}
use debug_mcp.Tools.Server.{
  Handle, ToolServer, Begun, done, waits, Reply, replied, cancelled, with_session, backend_or,
  set_backend,
}
use debug_mcp.Tools.Registry.{BackendRegistry, Factory, select_with_env}
use debug_mcp.Tools.Lifecycle.{cleanup, connect_error}
use debug_mcp.Tools.Inspection.{backend_name}

abbrev pub windbg : String
windbg = "windbg"

unfoldable pub not_available : String → String
not_available tool =
    tool <> " is not available: the windbg backend is not registered on this platform"

unfoldable pub not_supported : String → String → String
not_supported tool backend = tool <> " is not supported by the " <> backend <> " backend"

-- The two tools that connect, by their names.
pub data Verb : Type 0 where
  open_crash_dump : Verb
  attach_kernel : Verb

abbrev pub verb_name : Verb → String
verb_name open_crash_dump = "open_crash_dump"
verb_name attach_kernel = "attach_kernel"

-- One that waits for its factory to connect: the target is the path of the dump or the connection.
pub record Opening : Type 0 where
  pub factory : Factory
  pub target : String

-- One that waits for the backend's answer. The event pump has the epoch `generation`.
pub record Opened : Type 0 where
  pub handle : Handle
  pub generation : ℕ
  pub opening : Opening

unfoldable pub verb_checks : Verb → Args → ToolServer → Result String String
unfolding check_state require_string
verb_checks open_crash_dump args sv =
    check_state (idle ∷ []) sv.session >> require_string "dump_path" args
verb_checks attach_kernel args sv = do
  check_state (idle ∷ []) sv.session
  connection ← require_string "connection" args
  if starts_with connection "net:"
      then ok connection
      else err "'connection' must be a KDNET connection string starting with 'net:'"

module _ (registry : BackendRegistry) (env_value : Option String) where
  -- The factory is always that of `windbg`.
  unfoldable pub begin_verb : Verb → Args → ToolServer → Begun Opening × ToolServer
  unfolding verb_checks set_state select_with_env cleanup not_available
  begin_verb verb args sv = elim (verb_checks verb args sv) [
    | err e ↦ (done (error e), sv)
    | ok target ↦
        let sv' = with_session (set_state configuring sv.session) sv in
        elim (select_with_env registry (some windbg) env_value) [
          | err e ↦ (done (error (not_available (verb_name verb))), cleanup sv')
          | ok factory ↦ (waits (record { factory = factory; target = target }), sv')
        ]
  ]

unfoldable pub verb_connected :
    Opening → Result BackendError Handle → ToolServer → Begun Opened × ToolServer
unfolding connect_error cleanup set_backend
verb_connected o (err e) sv = (done (error (connect_error o.factory.name e)), cleanup sv)
verb_connected o (ok handle) sv = (
  waits (record { handle = handle; generation = sv.session.generation; opening = o }),
  set_backend handle o.factory.name sv,
)

-- The error of the answer.
unfoldable pub verb_failed : Verb → Opened → BackendError → String
unfolding not_supported display
verb_failed verb o (unsupported tool) = not_supported tool o.opening.factory.name
verb_failed verb o (detect m) = verb_name verb <> " request failed: " <> display (detect m)
verb_failed verb o (spawn m) = verb_name verb <> " request failed: " <> display (spawn m)
verb_failed verb o (send m) = verb_name verb <> " request failed: " <> display (send m)
verb_failed verb o (protocol m) = verb_name verb <> " request failed: " <> display (protocol m)
verb_failed verb o (dap m) = verb_name verb <> " request failed: " <> display (dap m)
verb_failed verb o closed = verb_name verb <> " request failed: " <> display closed
verb_failed verb o timeout = verb_name verb <> " request failed: " <> display timeout

-- The fields and the writes of a stop, if the dump has one.
unfoldable pub dump_stop :
    Option StopInfo → RespBuilder → SessionManager → RespBuilder × SessionManager
unfolding set set_last_stopped
dump_stop none b s = (b, s)
dump_stop (some info) b s = (
  set "stopped_thread_id" (from_i64 info.thread_id)
      (set "stop_reason" (Value.string info.reason) b),
  set_last_stopped info s,
)

unfoldable pub dump_loaded : String → DumpOutcome → SessionManager → ToolOutcome × SessionManager
unfolding dump_stop set_state set_dump set set_opt
dump_loaded path outcome s =
    let (b, s') =
      dump_stop outcome.stop
        (set "program" (Value.string path) (set "status" (Value.string "dump_loaded") []))
        (set_dump true (set_state stopped s)) in
    (
      into_outcome (
          set_opt "crash_location"
            (elim outcome.crash_location [ none ↦ none | some loc ↦ some (Value.string loc) ]) b),
      s',
    )

unfoldable pub kernel_attached :
    String → AttachOutcome → SessionManager → ToolOutcome × SessionManager
unfolding set_state set_last_stopped set
kernel_attached connection (AttachOutcome.stopped info) s = (
  into_outcome (
      set "stopped_thread_id" (from_i64 info.thread_id) (
        set "stop_reason" (Value.string info.reason) (
          set "state" (Value.string "stopped") (
            set "connection" (Value.string connection)
              (set "status" (Value.string "kernel_attached") []))))),
  set_last_stopped info (set_state stopped s),
)
kernel_attached connection (AttachOutcome.exited code) s =
    (text "Kernel session ended during attach", set_state terminated s)
kernel_attached connection AttachOutcome.terminated s =
    (text "Kernel session ended during attach", set_state terminated s)

-- Behind the wait of a verb whose answer is written by `finish`.
module _ {A : Type 0} (finish : String → A → SessionManager → ToolOutcome × SessionManager) where
  unfoldable pub verb_end : Verb → Opened → Reply A → ToolServer → ToolOutcome × ToolServer
  unfolding cleanup verb_failed
  verb_end verb o cancelled sv =
      (error (verb_name verb <> " timed out: context canceled"), cleanup sv)
  verb_end verb o (replied (err e)) sv = (error (verb_failed verb o e), cleanup sv)
  verb_end verb o (replied (ok outcome)) sv =
      let (response, s) = finish o.opening.target outcome sv.session in
      (response, with_session s sv)

unfoldable pub open_crash_dump_end :
    Opened → Reply DumpOutcome → ToolServer → ToolOutcome × ToolServer
unfolding verb_end dump_loaded
open_crash_dump_end = verb_end dump_loaded open_crash_dump

unfoldable pub attach_kernel_end :
    Opened → Reply AttachOutcome → ToolServer → ToolOutcome × ToolServer
unfolding verb_end kernel_attached
attach_kernel_end = verb_end kernel_attached attach_kernel

-- `analyze_crash` and `get_modules`, up to the wait.
unfoldable pub ask_backend : String → ToolServer → Begun Handle × ToolServer
unfolding check_state
ask_backend tool sv =
    elim (check_state (stopped ∷ []) sv.session
      >> backend_or (tool <> " request failed: connection closed") sv) [
        | err e ↦ (done (error e), sv)
        | ok handle ↦ (waits handle, sv)
      ]

unfoldable pub handle_analyze_crash : ToolServer → Begun Handle × ToolServer
unfolding ask_backend
handle_analyze_crash = ask_backend "analyze_crash"

unfoldable pub handle_get_modules : ToolServer → Begun Handle × ToolServer
unfolding ask_backend
handle_get_modules = ask_backend "get_modules"

unfoldable pub module_entry : ModuleInfo → Value
unfolding set
module_entry m = build (
    set "symbol_status" (Value.string m.symbol_status) (
      set "size" (Value.string m.size)
        (set "base" (Value.string m.base) (set "name" (Value.string m.name) []))))

module _ (registry : BackendRegistry) where
  unfoldable pub unsupported_active : String → ToolServer → String
  unfolding not_supported
  unsupported_active tool sv = not_supported tool (backend_name registry sv)

  -- The error of an answer, for the tool `tool`.
  unfoldable pub asked_failed : String → BackendError → ToolServer → String
  unfolding unsupported_active display
  asked_failed tool (unsupported verb) sv = unsupported_active verb sv
  asked_failed tool (detect m) sv = tool <> " request failed: " <> display (detect m)
  asked_failed tool (spawn m) sv = tool <> " request failed: " <> display (spawn m)
  asked_failed tool (send m) sv = tool <> " request failed: " <> display (send m)
  asked_failed tool (protocol m) sv = tool <> " request failed: " <> display (protocol m)
  asked_failed tool (dap m) sv = tool <> " request failed: " <> display (dap m)
  asked_failed tool closed sv = tool <> " request failed: " <> display closed
  asked_failed tool timeout sv = tool <> " request failed: " <> display timeout

  unfoldable pub analyze_crash_end : Result BackendError String → ToolServer → ToolOutcome
  unfolding asked_failed set
  analyze_crash_end (err e) sv = error (asked_failed "analyze_crash" e sv)
  analyze_crash_end (ok report) sv = into_outcome (set "analysis" (Value.string report) [])

  unfoldable pub get_modules_end : Result BackendError (List ModuleInfo) → ToolServer → ToolOutcome
  unfolding asked_failed module_entry set
  get_modules_end (err e) sv = error (asked_failed "get_modules" e sv)
  get_modules_end (ok modules) sv =
      into_outcome (set "modules" (Value.array (items (map module_entry modules))) [])
