-- ===== src/Core/Types.antt =====
-- crates/debugger-core/src/types.rs, event.rs and capabilities.rs. An `i64` is an integer of ℤ: the
-- program passes these numbers on and does no arithmetic on them but `named + indexed`.
use debug_mcp.Prelude.{ℕ, ℤ, String, Bool, Option, List}

pub data Granularity : Type 0 where
  line instruction : Granularity

pub data EvalMode : Type 0 where
  expression repl : EvalMode

pub data StepKind : Type 0 where
  over into out : StepKind

pub record StopInfo : Type 0 where
  pub reason : String
  pub thread_id : ℤ
  pub description : String
  pub hit_breakpoint_ids : List ℤ

pub data StopOutcome : Type 0 where
  stopped : StopInfo → StopOutcome
  exited : Option ℤ → StopOutcome
  terminated : StopOutcome

pub record SourceBp : Type 0 where
  pub line : ℤ
  pub condition : String

pub record FunctionBp : Type 0 where
  pub name : String
  pub condition : String

pub record LaunchSpec : Type 0 where
  pub program : String
  pub args : List String
  pub cwd : Option String
  pub env : List (String × String)
  pub stop_on_entry : Bool
  pub source_breakpoints : List (String × List SourceBp)
  pub function_breakpoints : List FunctionBp

pub data LaunchOutcome : Type 0 where
  stopped : StopInfo → LaunchOutcome
  running : LaunchOutcome
  exited : Option ℤ → LaunchOutcome

pub record AttachSpec : Type 0 where
  pub pid : Option ℤ
  pub wait_for : Option String

pub data AttachOutcome : Type 0 where
  stopped : StopInfo → AttachOutcome
  exited : Option ℤ → AttachOutcome
  terminated : AttachOutcome

pub record Frame : Type 0 where
  pub index : ℤ
  pub id : ℤ
  pub name : String
  pub source_path : Option String
  pub line : ℤ
  pub instruction_pointer : Option String

pub record ThreadInfo : Type 0 where
  pub id : ℤ
  pub name : String

pub record Scope : Type 0 where
  pub name : String
  pub variables_reference : ℤ

pub record Variable : Type 0 where
  pub name : String
  pub value : String
  pub ty : String
  pub variables_reference : ℤ
  pub named : ℤ
  pub indexed : ℤ

pub record BreakpointResult : Type 0 where
  pub id : ℤ
  pub verified : Bool
  pub line : ℤ
  pub message : String
  pub rejected : Bool

pub record EvalResult : Type 0 where
  pub result : String
  pub ty : String
  pub variables_reference : ℤ

pub record MemoryRead : Type 0 where
  pub address : String
  pub bytes : List ℕ

pub record Instruction : Type 0 where
  pub address : String
  pub instruction : String
  pub bytes : String
  pub symbol : String
  pub source_path : Option String
  pub line : ℤ

pub data BackendEvent : Type 0 where
  output : String → String → BackendEvent
  terminated : Option ℤ → BackendEvent

pub record BackendCapabilities : Type 0 where
  pub crash_dump : Bool
  pub kernel : Bool
  pub analyze : Bool
  pub modules : Bool

pub record ModuleInfo : Type 0 where
  pub name : String
  pub base : String
  pub size : String
  pub symbol_status : String

pub record DumpOutcome : Type 0 where
  pub stop : Option StopInfo
  pub crash_location : Option String
