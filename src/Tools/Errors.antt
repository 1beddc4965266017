-- ===== src/Tools/Errors.antt =====
-- crates/mcp-tools/src/errors.rs: a backend's error in the words of the call that failed.
use Prim.Native.String.{len, slice}
use text.Mathlib.Text.{find?}
use debug_mcp.Prelude.{◌+◌, String, Option, none, some}
use debug_mcp.Prelude.Text.{◌<>◌}
use debug_mcp.Core.Error.{
  BackendError, detect, spawn, send, protocol, dap, closed, timeout, unsupported, display,
}

pub record OpError : Type 0 where
  pub request_failed : String
  pub unexpected : String
  pub failed : String

-- The text behind the first `sep`.
unfoldable pub strip_after : String → String → Option String
strip_after s sep = elim (find? s sep) [
  | none ↦ none
  | some i ↦ some (slice s (i + len sep) (len s))
]

-- `ty.split_once(':').map(|(_, rest)| rest).unwrap_or(ty)`
unfoldable pub type_label : String → String
unfolding strip_after
type_label ty = elim (strip_after ty ":") [ none ↦ ty | some rest ↦ rest ]

unfoldable pub render_dap : OpError → String → String
unfolding strip_after
render_dap op message = elim (strip_after message " request failed: ") [
  | some inner ↦ op.request_failed <> inner
  | none ↦ elim (strip_after message " failed: ") [
    | some inner ↦ op.failed <> inner
    | none ↦ message
  ]
]

unfoldable pub render : OpError → BackendError → String
unfolding render_dap type_label display
render op (send inner) = op.request_failed <> inner
render op closed = op.request_failed <> "connection closed"
render op timeout = op.request_failed <> "operation timed out"
render op (detect m) = op.request_failed <> m
render op (spawn m) = op.request_failed <> m
render op (dap message) = render_dap op message
render op (protocol ty) = op.unexpected <> type_label ty
render op (unsupported tool) = op.request_failed <> display (unsupported tool)

abbrev pub continue_error : OpError
continue_error = record {
  request_failed = "continue request failed: ";
  unexpected = "unexpected continue response type: ";
  failed = "continue failed: ";
}

abbrev pub step_over_error : OpError
step_over_error = record {
  request_failed = "step over request failed: ";
  unexpected = "unexpected step over response type: ";
  failed = "step over failed: ";
}

abbrev pub step_into_error : OpError
step_into_error = record {
  request_failed = "step into request failed: ";
  unexpected = "unexpected step into response type: ";
  failed = "step into failed: ";
}

abbrev pub step_out_error : OpError
step_out_error = record {
  request_failed = "step out request failed: ";
  unexpected = "unexpected step out response type: ";
  failed = "step out failed: ";
}

abbrev pub pause_error : OpError
pause_error = record {
  request_failed = "pause request failed: ";
  unexpected = "unexpected pause response type: ";
  failed = "pause failed: ";
}

abbrev pub set_breakpoints_error : OpError
set_breakpoints_error = record {
  request_failed = "setBreakpoints request failed: ";
  unexpected = "unexpected setBreakpoints response type: ";
  failed = "setBreakpoints failed: ";
}

abbrev pub set_function_breakpoints_error : OpError
set_function_breakpoints_error = record {
  request_failed = "setFunctionBreakpoints request failed: ";
  unexpected = "unexpected response type: ";
  failed = "setFunctionBreakpoints failed: ";
}

abbrev pub stack_trace_error : OpError
stack_trace_error = record {
  request_failed = "stackTrace request failed: ";
  unexpected = "unexpected stackTrace response type: ";
  failed = "stackTrace failed: ";
}

abbrev pub threads_error : OpError
threads_error = record {
  request_failed = "threads request failed: ";
  unexpected = "unexpected threads response type: ";
  failed = "threads failed: ";
}

abbrev pub scopes_error : OpError
scopes_error = record {
  request_failed = "scopes request failed: ";
  unexpected = "unexpected scopes response type: ";
  failed = "scopes failed: ";
}

abbrev pub evaluate_error : OpError
evaluate_error = record {
  request_failed = "evaluate request failed: ";
  unexpected = "unexpected evaluate response type: ";
  failed = "evaluate failed: ";
}

abbrev pub read_memory_error : OpError
read_memory_error = record {
  request_failed = "readMemory request failed: ";
  unexpected = "unexpected readMemory response type: ";
  failed = "readMemory failed: ";
}

abbrev pub disassemble_error : OpError
disassemble_error = record {
  request_failed = "disassemble request failed: ";
  unexpected = "unexpected disassemble response type: ";
  failed = "disassemble failed: ";
}

abbrev pub run_command_error : OpError
run_command_error = record {
  request_failed = "run_command request failed: ";
  unexpected = "unexpected evaluate response type: ";
  failed = "command failed: ";
}

abbrev pub variables_error : OpError
variables_error = record {
  request_failed = "variables request failed: ";
  unexpected = "unexpected variables response type: ";
  failed = "variables request failed: ";
}
