-- ===== src/Lldb/Body.antt =====
-- crates/lldb-backend/src/body.rs: the bodies of responses as the data of the seam. Reading a value
-- into a body, which serde derives from its fields, is an argument, and so is base64.
use debug_mcp.Prelude.{
  ℕ, suc, ℤ, pos, String, Bool, false, Option, none, some, List, [], ◌∷◌, map, if◌then◌else◌,
  Result, ok, map_err, ◌>>=◌, ◌==◌, string_eq,
}
use debug_mcp.Prelude.Text.{◌<>◌}
use debug_mcp.Core.Types.{
  Frame, ThreadInfo, Scope, Variable, EvalResult, MemoryRead, Instruction, BreakpointResult,
}
use debug_mcp.Core.Error.{BackendError}
use debug_mcp.Tools.Json.{Value, end}

pub record DapSource : Type 0 where
  pub path : String

pub record DapStackFrame : Type 0 where
  pub id : ℤ
  pub name : String
  pub source : Option DapSource
  pub line : ℤ
  pub instruction_pointer_reference : String

pub record StackTraceBody : Type 0 where
  pub stack_frames : List DapStackFrame
  pub total_frames : ℤ

pub record DapThread : Type 0 where
  pub id : ℤ
  pub name : String

pub record ThreadsBody : Type 0 where
  pub threads : List DapThread

pub record DapScope : Type 0 where
  pub name : String
  pub variables_reference : ℤ

pub record ScopesBody : Type 0 where
  pub scopes : List DapScope

pub record DapVariable : Type 0 where
  pub name : String
  pub value : String
  pub ty : String
  pub variables_reference : ℤ
  pub named_variables : ℤ
  pub indexed_variables : ℤ

pub record VariablesBody : Type 0 where
  pub variables : List DapVariable

pub record EvaluateBody : Type 0 where
  pub result : String
  pub ty : String
  pub variables_reference : ℤ

pub record ReadMemoryBody : Type 0 where
  pub address : String
  pub encoded : String

pub record DapInstruction : Type 0 where
  pub address : String
  pub instruction : String
  pub instruction_bytes : String
  pub symbol : String
  pub location : Option DapSource
  pub line : ℤ

pub record DisassembleBody : Type 0 where
  pub instructions : List DapInstruction

pub record DapBreakpoint : Type 0 where
  pub id : ℤ
  pub verified : Bool
  pub line : ℤ
  pub message : String

pub record SetBreakpointsBody : Type 0 where
  pub breakpoints : List DapBreakpoint

abbrev non_empty : String → Option String
non_empty text = if text == "" then none else some text

-- The path of a source, where there is one that is not empty.
abbrev path_of : Option DapSource → Option String
path_of none = none
path_of (some s) = non_empty s.path

module _ {T : Type 0} (from_value : Value → Result String T) where
  unfoldable pub decode : Option Value → Result BackendError T
  decode body =
      map_err (λ e. BackendError.dap ("malformed response body: " <> e))
        (from_value (elim body [ some value ↦ value | none ↦ Value.object end ]))

unfoldable pub frames_from : ℕ → List DapStackFrame → List Frame
frames_from i [] = []
frames_from i (f ∷ fs) =
    record {
      index = pos i;
      id = f.id;
      name = f.name;
      source_path = path_of f.source;
      line = f.line;
      instruction_pointer = non_empty f.instruction_pointer_reference;
    }
    ∷ frames_from (suc i) fs

unfoldable pub stack_trace :
    (Value → Result String StackTraceBody) → Option Value → Result BackendError (List Frame × ℤ)
unfolding decode frames_from
stack_trace from_value body =
    decode from_value body >>= λ parsed. ok (frames_from 0 parsed.stack_frames, parsed.total_frames)

abbrev thread_info : DapThread → ThreadInfo
thread_info t = record { id = t.id; name = t.name }

unfoldable pub threads :
    (Value → Result String ThreadsBody) → Option Value → Result BackendError (List ThreadInfo)
unfolding decode
threads from_value body = decode from_value body >>= λ parsed. ok (map thread_info parsed.threads)

abbrev scope : DapScope → Scope
scope s = record { name = s.name; variables_reference = s.variables_reference }

unfoldable pub scopes :
    (Value → Result String ScopesBody) → Option Value → Result BackendError (List Scope)
unfolding decode
scopes from_value body = decode from_value body >>= λ parsed. ok (map scope parsed.scopes)

abbrev variable : DapVariable → Variable
variable v = record {
  name = v.name;
  value = v.value;
  ty = v.ty;
  variables_reference = v.variables_reference;
  named = v.named_variables;
  indexed = v.indexed_variables;
}

unfoldable pub variables :
    (Value → Result String VariablesBody) → Option Value → Result BackendError (List Variable)
unfolding decode
variables from_value body = decode from_value body >>= λ parsed. ok (map variable parsed.variables)

unfoldable pub evaluate :
    (Value → Result String EvaluateBody) → Option Value → Result BackendError EvalResult
unfolding decode
evaluate from_value body = decode from_value body >>= λ parsed. ok (record {
  result = parsed.result;
  ty = parsed.ty;
  variables_reference = parsed.variables_reference;
})

unfoldable pub read_memory :
    (String → Result String (List ℕ))
    → (Value → Result String ReadMemoryBody)
    → Option Value
    → Result BackendError MemoryRead
unfolding decode
read_memory decode_base64 from_value body = decode from_value body >>= λ parsed.
    (if parsed.encoded == ""
      then ok []
      else map_err (λ e. BackendError.dap ("failed to decode memory data: " <> e))
          (decode_base64 parsed.encoded))
    >>= λ bytes. ok (record { address = parsed.address; bytes = bytes })

abbrev instruction_of : DapInstruction → Instruction
instruction_of i = record {
  address = i.address;
  instruction = i.instruction;
  bytes = i.instruction_bytes;
  symbol = i.symbol;
  source_path = path_of i.location;
  line = i.line;
}

unfoldable pub disassemble :
    (Value → Result String DisassembleBody) → Option Value → Result BackendError (List Instruction)
unfolding decode
disassemble from_value body =
    decode from_value body >>= λ parsed. ok (map instruction_of parsed.instructions)

-- Nothing is rejected by lldb.
abbrev breakpoint_result : DapBreakpoint → BreakpointResult
breakpoint_result b = record {
  id = b.id;
  verified = b.verified;
  line = b.line;
  message = b.message;
  rejected = false;
}

unfoldable pub breakpoints :
    (Value → Result String SetBreakpointsBody)
    → Option Value
    → Result BackendError (List BreakpointResult)
unfolding decode
breakpoints from_value body =
    decode from_value body >>= λ parsed. ok (map breakpoint_result parsed.breakpoints)
