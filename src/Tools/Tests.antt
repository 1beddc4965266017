-- ===== src/Tools/Tests.antt =====
-- The theorems on the tools at concrete servers and answers, and runs of the handlers.
use debug_mcp.Prelude.{
  zero, suc, ◌^◌, ◌<◌, ℤ, pos, negsuc, String, ◌≡◌, ◌≢◌, refl, ◌⊎◌, ◌↔◌, inl, true, false, Option,
  none, some, List, [], ◌∷◌, ◌++◌, arith, any, leb, eqb, length, if◌then◌else◌, Result, ok, err,
  ◌==◌, string_eq, int_eq,
}
use debug_mcp.Prelude.Maps
use debug_mcp.Core.Types.{
  StopInfo, StopOutcome, LaunchSpec, LaunchOutcome, AttachSpec, AttachOutcome, Variable,
  BreakpointResult,
}
use debug_mcp.Core.Error.{BackendError}
use debug_mcp.Session.State.{State, idle, configuring, stopped, running, BreakpointInfo}
use debug_mcp.Session.Output.{empty}
use debug_mcp.Session.Manager.{SessionManager, fresh_inner, state_error, set_state, reset}
use debug_mcp.Session.Manager.Tracking.{
  source_bp, function_bp, breakpoint_info, remove_breakpoint_by_id, source_breakpoints_for_file,
  all_function_breakpoints,
}
use debug_mcp.Session.Manager.Calls.{apply, run, reset_count, resets}
use debug_mcp.Session.Manager.Valid.{IsValid, new-IsBuffer}
use debug_mcp.Tools.Json.{Serde, F64, as_i64, Number, int, float, Value}
use debug_mcp.Tools.Args.{Args, get_bool}
use debug_mcp.Tools.Errors.{continue_error}
use debug_mcp.Tools.Response.{error, is_error}
use debug_mcp.Tools.Server.{Handle, ToolServer, done, waits, Reply, replied, with_session}
use debug_mcp.Tools.Flatten.{FlatVariable, selected, flatten_variables}
use debug_mcp.Tools.Flatten.Capped.{
  take, whole_of, whole_level, whole_variables, flatten_variables-Capped,
}
use debug_mcp.Tools.Flatten.Bounds.{WithinCap, flatten_variables-WithinCap}
use debug_mcp.Tools.Registry
use debug_mcp.Tools.Registry.{
  Factory, BackendRegistry, no_capabilities, non_empty, first_of, select_with_env, union, register,
}
use debug_mcp.Tools.Registry.Laws.{register_all, last_named, select-register_all}
use debug_mcp.Tools.Execution.{continues, PendingResume, resume, resume_end}
use debug_mcp.Tools.Execution.Begin.{IsThread, resume_lem}
use debug_mcp.Tools.Execution.Finish.{written, resume_end_outcome}
use debug_mcp.Tools.Lifecycle.{
  Connecting, Handshaking, launch_end, attach_end, handle_launch, handle_attach, handle_disconnect,
  disconnect_end, drop_backend,
}
use debug_mcp.Tools.Lifecycle.Launch.{chosen, launching, handle_launch_lem}
use debug_mcp.Tools.Lifecycle.Phases.{
  blank, launch_state, attach_state, Entered, connected_states, launch_end_lem, attach_end_lem,
  disconnect_lem,
}
use debug_mcp.Tools.Lifecycle.Stale.{stale_server, stale_error}
use debug_mcp.Tools.Breakpoints.{
  SourceRequest, PendingSource, PendingFunction, PendingRemoval, sources, source_info, matched,
  commit_source, handle_set_breakpoint, set_breakpoint_end, remaining_of, remove_breakpoint_end,
}
use debug_mcp.Tools.Breakpoints.Transactions.{set_breakpoint_end_lem, set_breakpoint-sent}
use debug_mcp.Tools.Breakpoints.Removal.{tracked_of, remove_breakpoint-sent}
use debug_mcp.Tools.Breakpoints.Moved.{NoneAt, remove_moved}

-- A parser of numbers that takes integers, and of no texts.
abbrev float_of : Number → Option F64
float_of (int (pos n)) = some (record { negative = false; mantissa = n; shift = 0 })
float_of (int (negsuc n)) = some (record { negative = true; mantissa = suc n; shift = 0 })
float_of (float f) = some f

abbrev integers : Serde
integers = record {
  as_f64 = float_of;
  parse_array = λ s. err "not an array";
  parse_object = λ s. err "not an object";
}

abbrev lldb : Factory
lldb = record { name = "lldb"; capabilities = no_capabilities }

abbrev windbg : Factory
windbg = record {
  name = "windbg";
  capabilities = record { crash_dump = true; kernel = true; analyze = true; modules = true };
}

abbrev both : List Factory
both = lldb ∷ windbg ∷ []

abbrev lldb_only : BackendRegistry
lldb_only = record {
  factories = ("lldb", lldb) ∷ [];
  default_name = "lldb";
  capabilities = no_capabilities;
}

abbrev main_info : BreakpointInfo
main_info = record {
  id = pos 3;
  ty = "source";
  file = "main.c";
  line = pos 10;
  function = "";
  condition = "";
  verified = true;
}

abbrev session_in : State → SessionManager
session_in st = record {
  inner = record (fresh_inner 7) {
    state = st;
    source_bps = ("main.c", source_bp (pos 10) "" ∷ []) ∷ [];
    bp_responses = (pos 3, main_info) ∷ [];
    pending_source_bps = ("main.c", source_bp (pos 20) "" ∷ []) ∷ [];
  };
  output = empty;
}

session_in-IsValid : (st : State) → IsValid (session_in st)
unfolding Maps.contains_key
session_in-IsValid st = record {
  epoch = omega arith;
  responses = (refl, tt);
  keyed = (refl, tt);
  sources = (refl, tt);
  pending = (refl, tt);
  buffered = new-IsBuffer;
}

abbrev server_in : State → ToolServer
server_in st = record {
  session = session_in st;
  backend = some 1;
  active_backend_name = some "lldb";
}

abbrev stopped_server : ToolServer
stopped_server = server_in stopped

abbrev launching_server : ToolServer
launching_server = server_in configuring

abbrev idle_server : ToolServer
idle_server = record { session = session_in idle; backend = none; active_backend_name = none }

abbrev launch_args : Args
launch_args = ("program", Value.string "/bin/app") ∷ []

abbrev line_args : Args
line_args = ("file", Value.string "main.c") ∷ ("line", Value.number (int (pos 30))) ∷ []

abbrev no_args : Args
no_args = []

abbrev main_request : SourceRequest
main_request = record { file = "main.c"; line = pos 30; condition = "" }

abbrev main_pending : PendingSource
main_pending = record {
  handle = 1;
  request = main_request;
  bps = source_bp (pos 10) "" ∷ source_bp (pos 30) "" ∷ [];
}

abbrev at_30 : BreakpointResult
at_30 = record { id = pos 4; verified = true; line = pos 30; message = ""; rejected = false }

-- Resolved two lines below the requested one.
abbrev at_32 : BreakpointResult
at_32 = record { id = pos 4; verified = true; line = pos 32; message = ""; rejected = false }

abbrev answers : List BreakpointResult
answers = at_30 ∷ []

abbrev accepted : Result BackendError (List BreakpointResult)
accepted = ok answers

abbrev start_pending : PendingFunction
start_pending = record {
  handle = 1;
  request = record { name = "start"; condition = "" };
  bps = function_bp "start" "" ∷ [];
}

abbrev main_removal : PendingRemoval
main_removal = record { handle = 1; id = pos 3; remaining = sources "main.c" [] }

abbrev breakpoint_stop : StopInfo
breakpoint_stop = record {
  reason = "breakpoint";
  thread_id = pos 5;
  description = "";
  hit_breakpoint_ids = pos 3 ∷ [];
}

abbrev continued : PendingResume
continued = record {
  handle = 1;
  call = continues;
  thread_id = pos 1;
  granularity = none;
  generation = 7;
  op_err = continue_error;
  timeout_msg = "timed out";
}

abbrev app_spec : LaunchSpec
app_spec = record {
  program = "/bin/app";
  args = [];
  cwd = none;
  env = [];
  stop_on_entry = true;
  source_breakpoints = [];
  function_breakpoints = [];
}

abbrev app_connecting : Connecting LaunchSpec
app_connecting = record {
  factory = lldb;
  spec = app_spec;
  label = "/bin/app";
  explicit_pid = none;
  stop_on_entry = true;
}

abbrev app_handshake : Handshaking LaunchSpec
app_handshake = record { handle = 1; generation = 7; connecting = app_connecting }

abbrev pid_handshake : Handshaking AttachSpec
pid_handshake = record {
  handle = 1;
  generation = 7;
  connecting = record {
    factory = lldb;
    spec = record { pid = some (pos 42); wait_for = none };
    label = "pid:42";
    explicit_pid = some (pos 42);
    stop_on_entry = true;
  };
}

abbrev launch_stop : Reply LaunchOutcome
launch_stop = replied (ok (LaunchOutcome.stopped breakpoint_stop))

abbrev attach_stop : Reply AttachOutcome
attach_stop = replied (ok (AttachOutcome.stopped breakpoint_stop))

abbrev connection : Result BackendError Handle
connection = ok 1

-- A structure `p` of two fields, the second a container.
abbrev variable : String → ℤ → Variable
variable name var_ref = record {
  name = name;
  value = "";
  ty = "int";
  variables_reference = var_ref;
  named = pos 0;
  indexed = pos 0;
}

abbrev fetched : ℤ → Result BackendError (List Variable)
fetched (pos (suc zero)) = ok (variable "p" (pos 2) ∷ variable "q" (pos 0) ∷ [])
fetched (pos (suc (suc zero))) = ok (variable "x" (pos 0) ∷ variable "y" (pos 0) ∷ [])
fetched other = ok []

abbrev same_text : String → String
same_text s = s

abbrev flat : String → FlatVariable
flat name = record {
  name = name;
  value = "";
  ty = "int";
  has_children = false;
  children_count = pos 0;
}

abbrev whole_tree : List FlatVariable
whole_tree = flat "p" ∷ flat "p.x" ∷ flat "p.y" ∷ flat "q" ∷ []

fetched_whole : whole_variables fetched 3 same_text (pos 1) (pos 1) "" ≡ ok whole_tree
unfolding whole_variables selected whole_of whole_level
fetched_whole = refl

-- The cap of three cuts the fourth variable off.
flattened_three :
    flatten_variables fetched 3 same_text (pos 1) (pos 1) ""
    ≡ ok (flat "p" ∷ flat "p.x" ∷ flat "p.y" ∷ [], true)
unfolding flatten_variables
flattened_three = refl

main_sent :
    handle_set_breakpoint integers line_args stopped_server ≡ (waits main_pending, stopped_server)
unfolding handle_set_breakpoint as_i64
main_sent = refl

matched_30 : matched (pos 30) answers ≡ some at_30
unfolding matched
matched_30 = refl

main_known : breakpoint_info (pos 3) stopped_server.session ≡ some main_info
unfolding breakpoint_info
main_known = refl

removal_sent : main_removal.remaining ≡ remaining_of main_info stopped_server.session
unfolding remaining_of
removal_sent = refl

moved_lines : main_request.line ≢ at_32.line
moved_lines = ground arith

nothing_at_32 : NoneAt main_request at_32.line stopped_server.session
unfolding any source_breakpoints_for_file
nothing_at_32 = refl

-- A launch that the default backend takes.
launched_app :
    ((handle_launch integers lldb_only none launch_args idle_server).1).session.state ≡ configuring
unfolding handle_launch
launched_app = refl

one_reset : reset_count (resets ∷ []) < 2 ^ 64
unfolding reset_count
one_reset = omega arith

ended_run : (blank stopped_server).session ≡ run (resets ∷ []) stopped_server.session
unfolding run apply reset
ended_run = refl

flatten_variables-Capped_example :
    flatten_variables fetched 3 same_text (pos 1) (pos 1) ""
    ≡ ok (take 3 whole_tree, leb 3 (length whole_tree))
flatten_variables-Capped_example =
    flatten_variables-Capped fetched 3 same_text (pos 1) (pos 1) "" whole_tree (omega arith)
      fetched_whole

flatten_variables-WithinCap_example :
    WithinCap 3 (flatten_variables fetched 3 same_text (pos 1) (pos 1) "")
flatten_variables-WithinCap_example =
    flatten_variables-WithinCap fetched 3 same_text (pos 1) (pos 1) "" (omega arith)

select-register_all_example :
    (select_with_env (register_all both (Registry.new "lldb")) (some "windbg") none ≡ ok windbg) ↔ (
      last_named (first_of (non_empty (some "windbg")) (non_empty none) "lldb") both none
      ≡ some windbg)
select-register_all_example = select-register_all both "lldb" (some "windbg") none windbg

resume_lem_example :
    ((e : String) × (resume integers no_args continues continue_error "timed out" stopped_server
        ≡ (done (error e), stopped_server)))
    ⊎ ((p : PendingResume) × (resume integers no_args continues continue_error "timed out"
            stopped_server
          ≡ (waits p, with_session (set_state running stopped_server.session) stopped_server))
        × (stopped_server.session.state ≡ stopped)
        × (stopped_server.session.is_dump ≡ false)
        × (stopped_server.backend ≡ some p.handle)
        × (p.generation ≡ stopped_server.session.generation)
        × IsThread stopped_server.session p.thread_id)
resume_lem_example = resume_lem integers no_args continues continue_error "timed out" stopped_server

resume_end_outcome_example :
    (resume_end continued
      (replied (ok (StopOutcome.stopped breakpoint_stop)))
      (blank stopped_server)).1.session.inner
    ≡ (if eqb (reset_count (resets ∷ [])) 0
        then written
            (StopOutcome.stopped breakpoint_stop)
            (run (resets ∷ []) stopped_server.session)
        else run (resets ∷ []) stopped_server.session).inner
resume_end_outcome_example =
    resume_end_outcome continued (StopOutcome.stopped breakpoint_stop) (resets ∷ [])
      stopped_server.session (blank stopped_server) (omega arith) one_reset refl ended_run

handle_launch_lem_example :
    ((e : String) × (handle_launch integers lldb_only none launch_args idle_server
        ≡ (done (error e), idle_server)))
    ⊎ ((e : String) × (handle_launch integers lldb_only none launch_args idle_server
          ≡ (done (error e), blank idle_server)))
    ⊎ ((c : Connecting LaunchSpec) × (handle_launch integers lldb_only none launch_args idle_server
          ≡ (waits c, with_session (launching idle_server.session) idle_server))
        × (idle_server.session.state ≡ idle)
        × (chosen integers lldb_only none launch_args idle_server ≡ ok c.factory)
        × (c.spec.source_breakpoints ≡ idle_server.session.pending_source_bps)
        × (c.spec.function_breakpoints ≡ idle_server.session.pending_function_bps)
        × ((launching idle_server.session).state ≡ configuring)
        × ((launching idle_server.session).pending_source_bps ≡ [])
        × ((launching idle_server.session).pending_function_bps ≡ [])
        × (all_function_breakpoints (launching idle_server.session)
            ≡ all_function_breakpoints idle_server.session
              ++ idle_server.session.pending_function_bps)
        × (source_breakpoints_for_file "main.c" (launching idle_server.session)
            ≡ source_breakpoints_for_file "main.c" idle_server.session
              ++ Maps.get_list "main.c" idle_server.session.pending_source_bps))
handle_launch_lem_example =
    handle_launch_lem integers lldb_only none launch_args idle_server "main.c"
      (session_in-IsValid idle)

launch_end_lem_example :
    ((is_error (launch_end app_handshake (some (pos 99)) launch_stop launching_server).0 ≡ true)
      × ((launch_end app_handshake (some (pos 99)) launch_stop launching_server).1
          ≡ blank launching_server))
    ⊎ ((outcome : LaunchOutcome) × (launch_stop ≡ replied (ok outcome))
        × (is_error (launch_end app_handshake (some (pos 99)) launch_stop launching_server).0
            ≡ false)
        × ((launch_end app_handshake (some (pos 99)) launch_stop launching_server).1.backend
            ≡ launching_server.backend)
        × Entered
            (launch_state outcome)
            app_handshake.connecting.label
            launching_server.session
            (launch_end app_handshake (some (pos 99)) launch_stop launching_server).1.session)
launch_end_lem_example =
    launch_end_lem app_handshake (some (pos 99)) launch_stop launching_server
      (session_in-IsValid configuring)

attach_end_lem_example :
    ((is_error (attach_end pid_handshake none attach_stop launching_server).0 ≡ true)
      × ((attach_end pid_handshake none attach_stop launching_server).1 ≡ blank launching_server))
    ⊎ ((outcome : AttachOutcome) × (attach_stop ≡ replied (ok outcome))
        × (is_error (attach_end pid_handshake none attach_stop launching_server).0 ≡ false)
        × ((attach_end pid_handshake none attach_stop launching_server).1.backend
            ≡ launching_server.backend)
        × Entered
            (attach_state outcome)
            pid_handshake.connecting.label
            launching_server.session
            (attach_end pid_handshake none attach_stop launching_server).1.session)
attach_end_lem_example =
    attach_end_lem pid_handshake none attach_stop launching_server (session_in-IsValid configuring)

disconnect_lem_example :
    ((stopped_server.session.state ≡ idle)
      × (handle_disconnect no_args stopped_server
          ≡ (done (error (state_error connected_states idle)), stopped_server)))
    ⊎ ((stopped_server.session.state ≢ idle)
        × (handle_disconnect no_args stopped_server
            ≡ (waits (get_bool "terminate" true no_args), stopped_server))
        × (is_error (disconnect_end (drop_backend stopped_server)).0 ≡ false)
        × ((disconnect_end (drop_backend stopped_server)).1 ≡ blank stopped_server))
disconnect_lem_example = disconnect_lem no_args stopped_server (session_in-IsValid stopped)

stale_error_example :
    ((stale_server continued BackendError.closed (server_in running)).session.state ≡ stopped)
    × ((stale_server continued BackendError.closed (server_in running)).backend ≡ none)
    × (handle_launch integers lldb_only none launch_args
          (stale_server continued BackendError.closed (server_in running))
        ≡ (
          done (error (state_error (idle ∷ []) stopped)),
          stale_server continued BackendError.closed (server_in running),
        ))
    × (handle_attach integers lldb_only none launch_args
          (stale_server continued BackendError.closed (server_in running))
        ≡ (
          done (error (state_error (idle ∷ []) stopped)),
          stale_server continued BackendError.closed (server_in running),
        ))
    × ((why : String) × (resume integers launch_args continues continue_error "timed out"
            (stale_server continued BackendError.closed (server_in running))
          ≡ (done (error why), stale_server continued BackendError.closed (server_in running))))
stale_error_example =
    stale_error integers lldb_only none launch_args continues continue_error "timed out" continued
      BackendError.closed (server_in running)

set_breakpoint_end_lem_example :
    ((is_error (set_breakpoint_end main_pending accepted stopped_server).0 ≡ true)
      × ((set_breakpoint_end main_pending accepted stopped_server).1 ≡ stopped_server))
    ⊎ ((results : List BreakpointResult) × (bp : BreakpointResult) × (accepted ≡ ok results)
        × (matched main_pending.request.line results ≡ some bp)
        × (is_error (set_breakpoint_end main_pending accepted stopped_server).0 ≡ false)
        × ((set_breakpoint_end main_pending accepted stopped_server).1.backend
            ≡ stopped_server.backend)
        × (source_breakpoints_for_file "main.c"
              (set_breakpoint_end main_pending accepted stopped_server).1.session
            ≡ (if main_pending.request.file == "main.c"
                then source_breakpoints_for_file "main.c" stopped_server.session
                  ++ source_bp main_pending.request.line main_pending.request.condition ∷ []
                else source_breakpoints_for_file "main.c" stopped_server.session))
        × (breakpoint_info
              (pos 4)
              (set_breakpoint_end main_pending accepted stopped_server).1.session
            ≡ (if bp.id == (pos 4)
                then some (source_info main_pending.request bp)
                else breakpoint_info (pos 4) stopped_server.session))
        × (all_function_breakpoints
              (set_breakpoint_end main_pending accepted stopped_server).1.session
            ≡ all_function_breakpoints stopped_server.session))
set_breakpoint_end_lem_example =
    set_breakpoint_end_lem main_pending accepted stopped_server "main.c" (pos 4)

set_breakpoint-sent_example :
    (stopped_server.session.state ≡ stopped)
    × (stopped_server.backend ≡ some main_pending.handle)
    × (source_breakpoints_for_file main_pending.request.file
          (set_breakpoint_end main_pending (ok answers) stopped_server).1.session
        ≡ main_pending.bps)
set_breakpoint-sent_example =
    set_breakpoint-sent integers line_args stopped_server main_pending answers at_30 main_sent
      matched_30

remove_breakpoint-sent_example :
    (is_error (remove_breakpoint_end main_removal (ok []) stopped_server).0 ≡ false)
    × (tracked_of main_removal.remaining
          (remove_breakpoint_end main_removal (ok []) stopped_server).1.session
        ≡ main_removal.remaining)
    × (breakpoint_info main_removal.id
          (remove_breakpoint_end main_removal (ok []) stopped_server).1.session
        ≡ none)
remove_breakpoint-sent_example =
    remove_breakpoint-sent main_removal main_info [] stopped_server main_known (inl refl)
      removal_sent

remove_moved_example :
    (remaining_of
        (source_info main_request at_32)
        (commit_source main_request at_32 stopped_server.session)
      ≡ sources main_request.file (
          source_breakpoints_for_file main_request.file stopped_server.session
          ++ source_bp main_request.line main_request.condition ∷ []))
    × (source_breakpoints_for_file main_request.file
          (remove_breakpoint_by_id at_32.id
            (commit_source main_request at_32 stopped_server.session)).1
        ≡ source_breakpoints_for_file main_request.file stopped_server.session
          ++ source_bp main_request.line main_request.condition ∷ [])
remove_moved_example =
    remove_moved main_request at_32 stopped_server.session moved_lines nothing_at_32
