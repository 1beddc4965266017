-- ===== src/Tools/Breakpoints.antt =====
-- crates/mcp-tools/src/handlers/breakpoints.rs. A handler that calls the backend is cut at that wait:
-- it sends the proposed list, and commits to the session behind the answer.
pub mod Transactions
pub mod Removal
pub mod Moved
use debug_mcp.Prelude.{
  ℕ, ℤ, pos, String, Bool, true, false, not, Option, none, some, List, [], ◌∷◌, ◌++◌, map,
  is_positive, find, get_last?, length, remove_first, if◌then◌else◌, Result, ok, err, ◌>>=◌, ◌>>◌,
  ◌==◌, string_eq, int_eq,
}
use debug_mcp.Prelude.Text.{◌<>◌, show_ℤ}
use debug_mcp.Core.Types.{SourceBp, FunctionBp, BreakpointResult}
use debug_mcp.Core.Error.{BackendError}
use debug_mcp.Session.State.{State, idle, stopped, BreakpointInfo, eqb_State}
use debug_mcp.Session.Manager.{SessionManager, check_state}
use debug_mcp.Session.Manager.Tracking.{
  source_bp, function_bp, add_source_breakpoint, add_function_breakpoint, add_breakpoint_response,
  breakpoint_info, same_line, same_name, remove_breakpoint_by_id, list_breakpoints,
  source_breakpoints_for_file, all_function_breakpoints, add_pending_source_breakpoint,
  add_pending_function_breakpoint,
}
use debug_mcp.Tools.Json.{Serde, Value, Fields, from_i64, from_usize, items, fields}
use debug_mcp.Tools.Args.{Args, require_string, require_int, require_positive_int, get_string}
use debug_mcp.Tools.Errors.{render, set_breakpoints_error, set_function_breakpoints_error}
use debug_mcp.Tools.Response.{ToolOutcome, error, RespBuilder, set, set_if, build, into_outcome}
use debug_mcp.Tools.Server.{Handle, ToolServer, Begun, done, waits, with_session, backend_or}

abbrev has_text : String → Bool
has_text s = if s == "" then false else true

-- What a request asks for.
pub record SourceRequest : Type 0 where
  pub file : String
  pub line : ℤ
  pub condition : String

pub record FunctionRequest : Type 0 where
  pub name : String
  pub condition : String

-- A proposed list that was sent to the backend.
pub record PendingSource : Type 0 where
  pub handle : Handle
  pub request : SourceRequest
  pub bps : List SourceBp

pub record PendingFunction : Type 0 where
  pub handle : Handle
  pub request : FunctionRequest
  pub bps : List FunctionBp

module _ (serde : Serde) where
  unfoldable pub source_request : Args → ToolServer → Result String SourceRequest
  unfolding check_state require_string require_positive_int get_string
  source_request args sv = do
    check_state (idle ∷ stopped ∷ []) sv.session
    file ← require_string "file" args
    line ← require_positive_int serde "line" args
    ok (record { file = file; line = line; condition = get_string "condition" "" args })

-- Idle: the breakpoint is buffered. Stopped: the proposed list goes to the backend.
unfoldable pub set_requested : SourceRequest → ToolServer → Begun PendingSource × ToolServer
set_requested q sv =
    if eqb_State sv.session.state idle
    then (
      done (
          into_outcome (
            set "message" (Value.string "Breakpoint will be set when program is launched") (
              set "condition" (Value.string q.condition) (
                set "line" (from_i64 q.line)
                  (set "file" (Value.string q.file) (set "status" (Value.string "pending") [])))))),
      with_session (add_pending_source_breakpoint q.file q.line q.condition sv.session) sv,
    )
    else elim (backend_or set_breakpoints_error.request_failed sv) [
      | err e ↦ (done (error e), sv)
      | ok handle ↦ (
        waits (record {
          handle = handle;
          request = q;
          bps = source_breakpoints_for_file q.file sv.session ++ source_bp q.line q.condition ∷ [];
        }),
        sv,
      )
    ]

module _ (serde : Serde) where
  unfoldable pub handle_set_breakpoint : Args → ToolServer → Begun PendingSource × ToolServer
  unfolding source_request set_requested set add_pending_source_breakpoint
      source_breakpoints_for_file
  handle_set_breakpoint args sv = elim (source_request serde args sv) [
    | err e ↦ (done (error e), sv)
    | ok q ↦ set_requested q sv
  ]

-- The result at the requested line, else the last.
abbrev at_line : ℤ → BreakpointResult → Bool
at_line line bp = bp.line == line

unfoldable pub matched : ℤ → List BreakpointResult → Option BreakpointResult
unfolding find
matched line results = elim (find (at_line line) results) [
  | some bp ↦ some bp
  | none ↦ get_last? results
]

abbrev pub source_info : SourceRequest → BreakpointResult → BreakpointInfo
source_info q bp = record {
  id = bp.id;
  ty = "source";
  file = q.file;
  line = bp.line;
  function = "";
  condition = q.condition;
  verified = bp.verified;
}

-- The commit: the active list, and the metadata of the matched result.
unfoldable pub commit_source : SourceRequest → BreakpointResult → SessionManager → SessionManager
unfolding add_source_breakpoint add_breakpoint_response
commit_source q bp s =
    add_breakpoint_response (source_info q bp) (add_source_breakpoint q.file q.line q.condition s).1

unfoldable pub set_breakpoint_end :
    PendingSource
    → Result BackendError (List BreakpointResult)
    → ToolServer
    → ToolOutcome × ToolServer
unfolding render matched commit_source set set_if
set_breakpoint_end p (err e) sv = (error (render set_breakpoints_error e), sv)
set_breakpoint_end p (ok results) sv = elim (matched p.request.line results) [
  | none ↦ (error "setBreakpoints response contained no breakpoints", sv)
  | some bp ↦ (
    into_outcome (
        set_if (has_text bp.message) "message" (Value.string bp.message) (
          set "line" (from_i64 bp.line) (
            set "file" (Value.string p.request.file) (
              set "verified" (Value.bool bp.verified) (set "breakpoint_id" (from_i64 bp.id) []))))),
    with_session (commit_source p.request bp sv.session) sv,
  )
]

unfoldable pub function_request : Args → ToolServer → Result String FunctionRequest
unfolding check_state require_string get_string
function_request args sv = do
  check_state (idle ∷ stopped ∷ []) sv.session
  name ← require_string "name" args
  ok (record { name = name; condition = get_string "condition" "" args })

unfoldable pub function_requested :
    FunctionRequest → ToolServer → Begun PendingFunction × ToolServer
function_requested q sv =
    if eqb_State sv.session.state idle
    then (
      done (
          into_outcome (
            set "message" (Value.string "Function breakpoint will be set when program is launched")
              (set "condition" (Value.string q.condition) (
                set "function" (Value.string q.name) (set "status" (Value.string "pending") []))))),
      with_session (add_pending_function_breakpoint q.name q.condition sv.session) sv,
    )
    else elim (backend_or set_function_breakpoints_error.request_failed sv) [
      | err e ↦ (done (error e), sv)
      | ok handle ↦ (
        waits (record {
          handle = handle;
          request = q;
          bps = all_function_breakpoints sv.session ++ function_bp q.name q.condition ∷ [];
        }),
        sv,
      )
    ]

unfoldable pub handle_set_function_breakpoint :
    Args → ToolServer → Begun PendingFunction × ToolServer
unfolding function_request function_requested set add_pending_function_breakpoint
handle_set_function_breakpoint args sv = elim (function_request args sv) [
  | err e ↦ (done (error e), sv)
  | ok q ↦ function_requested q sv
]

abbrev pub function_info : FunctionRequest → BreakpointResult → BreakpointInfo
function_info q bp = record {
  id = bp.id;
  ty = "function";
  file = "";
  line = pos 0;
  function = q.name;
  condition = q.condition;
  verified = bp.verified;
}

-- The message, made up when the backend has none.
function_message : String → Bool → String → String
function_message name verified message =
    if has_text message
    then message
    else (if verified
        then "Breakpoint set on function '" <> name <> "'"
        else "Breakpoint on function '" <> name <> "' pending verification")

unfoldable pub function_response : String → ℤ → Bool → String → ToolOutcome
unfolding set function_message
function_response name id verified message = into_outcome (
    set "message" (Value.string (function_message name verified message)) (
      set "function" (Value.string name)
        (set "verified" (Value.bool verified) (set "breakpoint_id" (from_i64 id) []))))

unfoldable pub commit_function :
    FunctionRequest → Option BreakpointResult → SessionManager → SessionManager
unfolding add_function_breakpoint add_breakpoint_response
commit_function q none s = (add_function_breakpoint q.name q.condition s).1
commit_function q (some bp) s =
    add_breakpoint_response (function_info q bp) (add_function_breakpoint q.name q.condition s).1

-- The last result is the new breakpoint's; one that the backend rejected is not tracked.
unfoldable pub function_answered :
    FunctionRequest → Option BreakpointResult → ToolServer → ToolOutcome × ToolServer
function_answered q none sv =
    (function_response q.name (pos 0) false "", with_session (commit_function q none sv.session) sv)
function_answered q (some bp) sv = if bp.rejected then (error bp.message, sv) else (
  function_response q.name bp.id bp.verified bp.message,
  with_session (commit_function q (some bp) sv.session) sv,
)

unfoldable pub set_function_breakpoint_end :
    PendingFunction
    → Result BackendError (List BreakpointResult)
    → ToolServer
    → ToolOutcome × ToolServer
unfolding render function_answered function_response function_message commit_function
set_function_breakpoint_end p (err e) sv = (error (render set_function_breakpoints_error e), sv)
set_function_breakpoint_end p (ok results) sv = function_answered p.request (get_last? results) sv

-- `remove_breakpoint`: the list that is sent, the file's or that of the functions.
pub data Remaining : Type 0 where
  sources : String → List SourceBp → Remaining
  functions : List FunctionBp → Remaining

pub record PendingRemoval : Type 0 where
  pub handle : Handle
  pub id : ℤ
  pub remaining : Remaining

unfoldable pub remaining_source_breakpoints : List SourceBp → BreakpointInfo → List SourceBp
unfolding remove_first
remaining_source_breakpoints current info = remove_first (same_line info) current

unfoldable pub remaining_function_breakpoints : List FunctionBp → BreakpointInfo → List FunctionBp
unfolding remove_first
remaining_function_breakpoints current info = remove_first (same_name info) current

unfoldable pub remaining_of : BreakpointInfo → SessionManager → Remaining
unfolding remaining_source_breakpoints remaining_function_breakpoints source_breakpoints_for_file
remaining_of info s =
    if info.ty == "function"
    then functions (remaining_function_breakpoints (all_function_breakpoints s) info)
    else sources info.file
        (remaining_source_breakpoints (source_breakpoints_for_file info.file s) info)

abbrev remove_send_error : BreakpointInfo → String
remove_send_error info =
    if info.ty == "function"
    then set_function_breakpoints_error.request_failed
    else set_breakpoints_error.request_failed

tracked : ℤ → SessionManager → Result String BreakpointInfo
tracked id s = elim (breakpoint_info id s) [
  | none ↦ err ("failed to remove breakpoint: breakpoint ID " <> show_ℤ id <> " not found")
  | some info ↦ ok info
]

module _ (serde : Serde) where
  unfoldable pub removal : Args → ToolServer → Result String PendingRemoval
  unfolding check_state require_int tracked breakpoint_info remaining_of
  removal args sv = do
    check_state (stopped ∷ []) sv.session
    id ← require_int serde "breakpoint_id" args
    info ← tracked id sv.session
    handle ← backend_or (remove_send_error info) sv
    ok (record { handle = handle; id = id; remaining = remaining_of info sv.session })

  unfoldable pub handle_remove_breakpoint : Args → ToolServer → Begun PendingRemoval × ToolServer
  unfolding removal
  handle_remove_breakpoint args sv = elim (removal args sv) [
    | err e ↦ (done (error e), sv)
    | ok p ↦ (waits p, sv)
  ]

removal_error : Remaining → BackendError → String
removal_error (sources file bps) e = render set_breakpoints_error e
removal_error (functions bps) e = render set_function_breakpoints_error e

removed : ℤ → Result String (String × Bool) → ToolOutcome
unfolding set
removed id (err e) = error ("failed to remove breakpoint: " <> e)
removed id (ok found) =
    into_outcome (set "breakpoint_id" (from_i64 id) (set "removed" (Value.bool true) []))

unfoldable pub remove_breakpoint_end :
    PendingRemoval
    → Result BackendError (List BreakpointResult)
    → ToolServer
    → ToolOutcome × ToolServer
unfolding removal_error render removed remove_breakpoint_by_id
remove_breakpoint_end p (err e) sv = (error (removal_error p.remaining e), sv)
remove_breakpoint_end p (ok results) sv =
    let (found, s) = remove_breakpoint_by_id p.id sv.session in
    (removed p.id found, with_session s sv)

-- `list_breakpoints`: an entry has the keys that say something.
breakpoint_entry : BreakpointInfo → Value
breakpoint_entry bp = build (
    set_if (has_text bp.condition) "condition" (Value.string bp.condition) (
      set_if (has_text bp.function) "function" (Value.string bp.function) (
        set_if (is_positive bp.line) "line" (from_i64 bp.line) (
          set_if (has_text bp.file) "file" (Value.string bp.file) (
            set "verified" (Value.bool bp.verified)
              (set "type" (Value.string bp.ty) (set "id" (from_i64 bp.id) [])))))))

unfoldable pub handle_list_breakpoints : ToolServer → ToolOutcome
unfolding breakpoint_entry set set_if list_breakpoints
handle_list_breakpoints sv =
    let entries = map breakpoint_entry (list_breakpoints sv.session) in
    into_outcome (
      set "count" (from_usize (length entries))
        (set "breakpoints" (Value.array (items entries)) []))
