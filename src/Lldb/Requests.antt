-- ===== src/Lldb/Requests.antt =====
-- crates/lldb-backend/src/requests.rs and args.rs, and `Request` of crates/dap-client/src/wire.rs:
-- the requests that the backend sends. An object is built as a map; the order of its keys is that of
-- insertion here.
use debug_mcp.Prelude.{
  ℤ, pos, String, Bool, true, false, not, Option, none, some, List, [], ◌∷◌, map, is_empty,
  is_positive, if◌then◌else◌, ◌==◌, string_eq, int_eq,
}
use debug_mcp.Core.Types.{SourceBp, FunctionBp}
use debug_mcp.Tools.Json.{Value, from_i64, items}
use debug_mcp.Tools.Response.{RespBuilder, set, set_opt, set_if, build}

pub record Request : Type 0 where
  pub seq : ℤ
  pub ty : String
  pub command : String
  pub arguments : Option Value

-- `Request::new`
unfoldable pub new : String → Option Value → Request
new command arguments = record {
  seq = pos 0;
  ty = "request";
  command = command;
  arguments = arguments;
}

unfoldable pub initialize : Request
unfolding new set
initialize = new "initialize" (
    some (
      build (
        set "supportsRunInTerminalRequest" (Value.bool false) (
          set "supportsVariableType" (Value.bool true) (
            set "columnsStartAt1" (Value.bool true) (
              set "linesStartAt1" (Value.bool true) (
                set "pathFormat" (Value.string "path") (
                  set "adapterID" (Value.string "lldb-dap")
                    (set "clientID" (Value.string "lldb-debug-mcp") [])))))))))

unfoldable pub launch : Value → Request
unfolding new
launch args = new "launch" (some args)

unfoldable pub attach : Value → Request
unfolding new
attach args = new "attach" (some args)

-- `condition`, where there is one.
abbrev set_condition : String → RespBuilder → RespBuilder
set_condition condition = set_if (not (condition == "")) "condition" (Value.string condition)

unfoldable pub source_entry : SourceBp → Value
unfolding set set_if
source_entry bp = build (set_condition bp.condition (set "line" (from_i64 bp.line) []))

unfoldable pub set_breakpoints : String → List SourceBp → Request
unfolding new set source_entry
set_breakpoints file bps = new "setBreakpoints" (
    some (
      build (
        set "breakpoints" (Value.array (items (map source_entry bps)))
          (set "source" (build (set "path" (Value.string file) [])) []))))

unfoldable pub function_entry : FunctionBp → Value
unfolding set set_if
function_entry bp = build (set_condition bp.condition (set "name" (Value.string bp.name) []))

unfoldable pub set_function_breakpoints : List FunctionBp → Request
unfolding new set function_entry
set_function_breakpoints bps =
    new "setFunctionBreakpoints"
      (some (build (set "breakpoints" (Value.array (items (map function_entry bps))) [])))

unfoldable pub set_exception_breakpoints : Request
unfolding new set
set_exception_breakpoints =
    new "setExceptionBreakpoints" (some (build (set "filters" (Value.array (items [])) [])))

unfoldable pub configuration_done : Request
unfolding new
configuration_done = new "configurationDone" none

unfoldable pub cont : ℤ → Request
unfolding new set
cont thread_id = new "continue" (some (build (set "threadId" (from_i64 thread_id) [])))

unfoldable pub step : String → ℤ → Option String → Request
unfolding new set set_opt
step command thread_id granularity = new command (
    some (
      build (
        set_opt "granularity" (elim granularity [ none ↦ none | some g ↦ some (Value.string g) ])
          (set "threadId" (from_i64 thread_id) []))))

unfoldable pub pause : Request
unfolding new set
pause = new "pause" (some (build (set "threadId" (from_i64 (pos 0)) [])))

unfoldable pub threads : Request
unfolding new
threads = new "threads" none

unfoldable pub stack_trace : ℤ → ℤ → ℤ → Request
unfolding new set
stack_trace thread_id start levels = new "stackTrace" (
    some (
      build (
        set "levels" (from_i64 levels)
          (set "startFrame" (from_i64 start) (set "threadId" (from_i64 thread_id) [])))))

unfoldable pub scopes : ℤ → Request
unfolding new set
scopes frame_id = new "scopes" (some (build (set "frameId" (from_i64 frame_id) [])))

unfoldable pub variables : ℤ → Request
unfolding new set
variables reference =
    new "variables" (some (build (set "variablesReference" (from_i64 reference) [])))

unfoldable pub evaluate : String → Option ℤ → String → Request
unfolding new set set_opt
evaluate expression frame_id context = new "evaluate" (
    some (
      build (
        set "context" (Value.string context) (
          set_opt "frameId" (elim frame_id [ none ↦ none | some id ↦ some (from_i64 id) ])
            (set "expression" (Value.string expression) [])))))

unfoldable pub read_memory : String → ℤ → Request
unfolding new set
read_memory address count =
    new "readMemory" (
      some (build (set "count" (from_i64 count) (set "memoryReference" (Value.string address) []))))

unfoldable pub disassemble : String → ℤ → Request
unfolding new set
disassemble address count = new "disassemble" (
    some (
      build (
        set "instructionCount" (from_i64 count) (set "memoryReference" (Value.string address) []))))

unfoldable pub disconnect : Bool → Request
unfolding new set
disconnect terminate =
    new "disconnect" (some (build (set "terminateDebuggee" (Value.bool terminate) [])))

-- The arguments of a launch; the lists of LLDB commands are empty in `LldbLaunchArgs::new`.
pub record LldbLaunchArgs : Type 0 where
  pub program : String
  pub args : List String
  pub cwd : String
  pub env : List (String × String)
  pub stop_on_entry : Bool
  pub init_commands : List String
  pub pre_run_commands : List String
  pub post_run_commands : List String
  pub stop_commands : List String
  pub exit_commands : List String
  pub terminate_commands : List String

unfoldable pub launch_args :
    String → List String → Option String → List (String × String) → Bool → LldbLaunchArgs
launch_args program args cwd env stop_on_entry = record {
  program = program;
  args = args;
  cwd = elim cwd [ none ↦ "" | some dir ↦ dir ];
  env = env;
  stop_on_entry = stop_on_entry;
  init_commands = [];
  pre_run_commands = [];
  post_run_commands = [];
  stop_commands = [];
  exit_commands = [];
  terminate_commands = [];
}

pub record LldbAttachArgs : Type 0 where
  pub pid : ℤ
  pub program : String
  pub wait_for : Bool
  pub stop_on_entry : Bool
  pub attach_commands : List String
  pub core_file : String

abbrev waiting : Option String → LldbAttachArgs
waiting wait_for_name = record {
  pid = pos 0;
  program = elim wait_for_name [ none ↦ "" | some name ↦ name ];
  wait_for = true;
  stop_on_entry = true;
  attach_commands = [];
  core_file = "";
}

abbrev by_pid : ℤ → LldbAttachArgs
by_pid pid = record {
  pid = pid;
  program = "";
  wait_for = false;
  stop_on_entry = true;
  attach_commands = [];
  core_file = "";
}

unfoldable pub attach_args : Option ℤ → Option String → LldbAttachArgs
attach_args none wait_for_name = waiting wait_for_name
attach_args (some pid) wait_for_name = if is_positive pid then by_pid pid else waiting wait_for_name

unfoldable pub insert_str_list : String → List String → RespBuilder → RespBuilder
unfolding set_if
insert_str_list key list =
    set_if (not (is_empty list)) key (Value.array (items (map Value.string list)))

-- The environment, collected into an object: the last value of a name is the one that counts.
unfoldable pub env_object : List (String × String) → RespBuilder → RespBuilder
unfolding set
env_object [] b = b
env_object ((k, v) ∷ env) b = env_object env (set k (Value.string v) b)

unfoldable pub launch_args_to_value : LldbLaunchArgs → Value
unfolding set set_if insert_str_list env_object
launch_args_to_value a = build (
    insert_str_list "terminateCommands" a.terminate_commands (
      insert_str_list "exitCommands" a.exit_commands (
        insert_str_list "stopCommands" a.stop_commands (
          insert_str_list "postRunCommands" a.post_run_commands (
            insert_str_list "preRunCommands" a.pre_run_commands (
              insert_str_list "initCommands" a.init_commands (
                set_if a.stop_on_entry "stopOnEntry" (Value.bool true) (
                  set_if (not (is_empty a.env)) "env" (build (env_object a.env [])) (
                    set_if (not (a.cwd == "")) "cwd" (Value.string a.cwd) (
                      insert_str_list "args" a.args
                        (set "program" (Value.string a.program) [])))))))))))

unfoldable pub attach_args_to_value : LldbAttachArgs → Value
unfolding set_if insert_str_list
attach_args_to_value a = build (
    set_if (not (a.core_file == "")) "coreFile" (Value.string a.core_file) (
      insert_str_list "attachCommands" a.attach_commands (
        set_if a.stop_on_entry "stopOnEntry" (Value.bool true) (
          set_if a.wait_for "waitFor" (Value.bool true) (
            set_if (not (a.program == "")) "program" (Value.string a.program)
              (set_if (not (a.pid == pos 0)) "pid" (from_i64 a.pid) []))))))
