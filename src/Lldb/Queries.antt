-- ===== src/Lldb/Queries.antt =====
-- The operations of crates/lldb-backend/src/backend.rs that send one request and decode its body.
use debug_mcp.Prelude.{ℕ, ℤ, String, Bool, Option, List, Result}
use debug_mcp.Core.Types.{
  SourceBp, FunctionBp, EvalMode, Frame, ThreadInfo, Scope, Variable, EvalResult, MemoryRead,
  Instruction, BreakpointResult,
}
use debug_mcp.Core.Error.{BackendError}
use debug_mcp.Tools.Json.{Value}
use debug_mcp.Lldb.Requests
use debug_mcp.Lldb.Client.{DapClient}
use debug_mcp.Lldb.Body
use debug_mcp.Lldb.Backend.{query, evaluate_request}

-- `serde_json::from_value` into a body.
abbrev Reader : Type 0 → Type 0
Reader T = Value → Result String T

module _ (stderr : String) {C : Type 0} (client : DapClient C) where
  unfoldable pub set_source_breakpoints :
      Reader Body.SetBreakpointsBody
      → String
      → List SourceBp
      → C
      → Result BackendError (List BreakpointResult) × C
  unfolding query Body.breakpoints Requests.set_breakpoints
  set_source_breakpoints from_value file bps =
      query stderr client (Body.breakpoints from_value) "setBreakpoints"
        (Requests.set_breakpoints file bps)

  unfoldable pub set_function_breakpoints :
      Reader Body.SetBreakpointsBody
      → List FunctionBp
      → C
      → Result BackendError (List BreakpointResult) × C
  unfolding query Body.breakpoints Requests.set_function_breakpoints
  set_function_breakpoints from_value bps =
      query stderr client (Body.breakpoints from_value) "setFunctionBreakpoints"
        (Requests.set_function_breakpoints bps)

  unfoldable pub threads : Reader Body.ThreadsBody → C → Result BackendError (List ThreadInfo) × C
  unfolding query Body.threads Requests.threads
  threads from_value = query stderr client (Body.threads from_value) "threads" Requests.threads

  unfoldable pub stack_trace :
      Reader Body.StackTraceBody → ℤ → ℤ → ℤ → C → Result BackendError (List Frame × ℤ) × C
  unfolding query Body.stack_trace Requests.stack_trace
  stack_trace from_value thread_id start levels =
      query stderr client (Body.stack_trace from_value) "stackTrace"
        (Requests.stack_trace thread_id start levels)

  unfoldable pub scopes : Reader Body.ScopesBody → ℤ → C → Result BackendError (List Scope) × C
  unfolding query Body.scopes Requests.scopes
  scopes from_value frame_id =
      query stderr client (Body.scopes from_value) "scopes" (Requests.scopes frame_id)

  unfoldable pub variables :
      Reader Body.VariablesBody → ℤ → C → Result BackendError (List Variable) × C
  unfolding query Body.variables Requests.variables
  variables from_value variables_reference =
      query stderr client (Body.variables from_value) "variables"
        (Requests.variables variables_reference)

  unfoldable pub evaluate :
      Reader Body.EvaluateBody
      → Bool
      → String
      → Option ℤ
      → EvalMode
      → C
      → Result BackendError EvalResult × C
  unfolding query Body.evaluate evaluate_request
  evaluate from_value is_lldb_dap expr frame_id mode =
      query stderr client (Body.evaluate from_value) "evaluate"
        (evaluate_request is_lldb_dap expr frame_id mode)

  unfoldable pub read_memory :
      (String → Result String (List ℕ))
      → Reader Body.ReadMemoryBody
      → String
      → ℤ
      → C
      → Result BackendError MemoryRead × C
  unfolding query Body.read_memory Requests.read_memory
  read_memory decode_base64 from_value address count =
      query stderr client (Body.read_memory decode_base64 from_value) "readMemory"
        (Requests.read_memory address count)

  unfoldable pub disassemble :
      Reader Body.DisassembleBody → String → ℤ → C → Result BackendError (List Instruction) × C
  unfolding query Body.disassemble Requests.disassemble
  disassemble from_value address count =
      query stderr client (Body.disassemble from_value) "disassemble"
        (Requests.disassemble address count)
