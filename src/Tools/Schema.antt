-- ===== src/Tools/Schema.antt =====
-- crates/mcp-tools/src/schema.rs: the tools that are advertised, with the JSON schemas of their
-- arguments.
use debug_mcp.Prelude.{String, Bool, true, false, List, [], ◌∷◌, ◌++◌, map, Dict, if◌then◌else◌}
use debug_mcp.Core.Types.{BackendCapabilities}
use debug_mcp.Tools.Json.{Value, items, fields}

pub record Prop : Type 0 where
  pub name : String
  pub schema : Value
  pub required : Bool

-- `rmcp::model::Tool`, of what is set of it.
pub record Tool : Type 0 where
  pub name : String
  pub description : String
  pub input_schema : Value

abbrev typed : String → String → Value
typed ty description =
    Value.object
      (fields (("type", Value.string ty) ∷ ("description", Value.string description) ∷ []))

abbrev string_prop : String → String → Bool → Prop
string_prop name description required = record {
  name = name;
  schema = typed "string" description;
  required = required;
}

abbrev string_enum_prop : String → String → List String → Bool → Prop
string_enum_prop name description enum_values required = record {
  name = name;
  schema = Value.object (
      fields (
        ("type", Value.string "string")
        ∷ ("description", Value.string description)
        ∷ ("enum", Value.array (items (map Value.string enum_values)))
        ∷ []));
  required = required;
}

abbrev number_prop : String → String → Bool → Prop
number_prop name description required = record {
  name = name;
  schema = typed "number" description;
  required = required;
}

abbrev boolean_prop : String → String → Prop
boolean_prop name description = record {
  name = name;
  schema = typed "boolean" description;
  required = false;
}

abbrev backend_prop : Prop
backend_prop =
    string_enum_prop "backend"
      "Which debugger backend to use; defaults per-OS (windbg on Windows, lldb on macOS/Linux)"
      ("lldb" ∷ "windbg" ∷ []) false

-- The names of the properties of a tool are distinct, so each is an entry of its own.
abbrev properties_of : List Prop → Dict String Value
properties_of [] = []
properties_of (p ∷ ps) = (p.name, p.schema) ∷ properties_of ps

abbrev names_required : List Prop → List String
names_required [] = []
names_required (p ∷ ps) = if p.required then p.name ∷ names_required ps else names_required ps

abbrev required_entry : List String → Dict String Value
required_entry [] = []
required_entry (n ∷ ns) = ("required", Value.array (items (map Value.string (n ∷ ns)))) ∷ []

-- `required` is there only when it is not empty.
unfoldable pub object_schema : List Prop → Value
object_schema props = Value.object (
    fields (
      ("type", Value.string "object")
      ∷ ("properties", Value.object (fields (properties_of props)))
      ∷ required_entry (names_required props)))

unfoldable pub tool : String → String → List Prop → Tool
unfolding object_schema
tool name description props = record {
  name = name;
  description = description;
  input_schema = object_schema props;
}

abbrev pub open_crash_dump_tool : Tool
open_crash_dump_tool =
    tool "open_crash_dump" "Open a crash/minidump for postmortem analysis"
      (string_prop "dump_path" "Path to the crash/minidump file" true ∷ backend_prop ∷ [])

abbrev pub attach_kernel_tool : Tool
attach_kernel_tool = tool "attach_kernel" "Attach to a kernel target over KDNET" (
    string_prop "connection" "Kernel connection string, e.g. net:port=...,key=..." true
    ∷ backend_prop
    ∷ [])

abbrev pub analyze_crash_tool : Tool
analyze_crash_tool = tool "analyze_crash" "Run automated crash analysis (!analyze -v)" []

abbrev pub get_modules_tool : Tool
get_modules_tool = tool "get_modules" "List loaded modules with base/size/symbol status" []

abbrev pub base_tools : List Tool
base_tools =
    tool "launch" "Launch a program under the debugger" (
      string_prop "program" "Path to the executable to debug" true
      ∷ string_prop "args" "JSON array of command-line arguments" false
      ∷ string_prop "cwd" "Working directory for the launched program" false
      ∷ string_prop "env" "JSON object of environment variables" false
      ∷ boolean_prop "stop_on_entry" "Stop at program entry point (default true)"
      ∷ backend_prop
      ∷ [])
    ∷ tool "attach" "Attach the debugger to a running process" (
        number_prop "pid" "Process ID to attach to" false
        ∷ string_prop "wait_for" "Process name to wait for" false
        ∷ backend_prop
        ∷ [])
    ∷ tool "disconnect" "Disconnect from the debug session"
        (boolean_prop "terminate" "Terminate the debuggee (default true)" ∷ [])
    ∷ tool "set_breakpoint" "Set a source-line breakpoint" (
        string_prop "file" "Source file path" true
        ∷ number_prop "line" "Line number" true
        ∷ string_prop "condition" "Conditional expression for the breakpoint" false
        ∷ [])
    ∷ tool "set_function_breakpoint" "Set a breakpoint on a function by name" (
        string_prop "name" "Function name" true
        ∷ string_prop "condition" "Conditional expression for the breakpoint" false
        ∷ [])
    ∷ tool "remove_breakpoint" "Remove a breakpoint by ID"
        (number_prop "breakpoint_id" "Breakpoint ID to remove" true ∷ [])
    ∷ tool "list_breakpoints" "List all current breakpoints" []
    ∷ tool "continue" "Continue execution of the paused program"
        (number_prop "thread_id" "Thread ID to continue (optional)" false ∷ [])
    ∷ tool "step_over" "Step over the current line or instruction" (
        number_prop "thread_id" "Thread ID to step (optional)" false
        ∷ string_enum_prop "granularity" "Step granularity" ("line" ∷ "instruction" ∷ []) false
        ∷ [])
    ∷ tool "step_into" "Step into the current line or instruction" (
        number_prop "thread_id" "Thread ID to step (optional)" false
        ∷ string_enum_prop "granularity" "Step granularity" ("line" ∷ "instruction" ∷ []) false
        ∷ [])
    ∷ tool "step_out" "Step out of the current function"
        (number_prop "thread_id" "Thread ID to step out (optional)" false ∷ [])
    ∷ tool "pause" "Pause all threads in the running program" []
    ∷ tool "status" "Get the current debug session status" []
    ∷ tool "backtrace" "Get the call stack for a thread" (
        number_prop "thread_id" "Thread ID (uses stopped thread if omitted)" false
        ∷ number_prop "levels" "Maximum number of stack frames to return" false
        ∷ [])
    ∷ tool "threads" "List all threads in the debugged process" []
    ∷ tool "variables" "List variables in the current scope" (
        number_prop "frame_index" "Stack frame index (default 0)" false
        ∷ string_enum_prop "scope" "Variable scope" ("local" ∷ "global" ∷ "register" ∷ []) false
        ∷ number_prop "depth" "Maximum depth for nested structures" false
        ∷ string_prop "filter" "Filter variables by name pattern" false
        ∷ [])
    ∷ tool "evaluate" "Evaluate an expression in the debugger" (
        string_prop "expression" "Expression to evaluate" true
        ∷ number_prop "frame_index" "Stack frame index for evaluation context" false
        ∷ [])
    ∷ tool "read_output" "Read captured program output (stdout, stderr, console)" []
    ∷ tool "read_memory" "Read raw memory at a given address" (
        string_prop "address" "Memory address (hex string, e.g. 0x1000)" true
        ∷ number_prop "count" "Number of bytes to read" true
        ∷ [])
    ∷ tool "disassemble" "Disassemble instructions at an address or the current PC" (
        string_prop "address" "Start address (hex string, uses current PC if omitted)" false
        ∷ number_prop "instruction_count" "Number of instructions to disassemble" false
        ∷ [])
    ∷ tool "run_command" "Run an LLDB command directly via the debug console"
        (string_prop "command" "LLDB command string to execute" true ∷ [])
    ∷ []

abbrev pub only_if : Bool → Tool → List Tool
only_if offered t = if offered then t ∷ [] else []

-- Those of the capabilities come behind the others.
unfoldable pub all_tools : BackendCapabilities → List Tool
unfolding tool
all_tools caps =
    base_tools
    ++ only_if caps.crash_dump open_crash_dump_tool
    ++ only_if caps.kernel attach_kernel_tool
    ++ only_if caps.analyze analyze_crash_tool
    ++ only_if caps.modules get_modules_tool
