-- ===== src/Windbg/Backend.antt =====
-- crates/windbg-backend/src/backend.rs: the operations of the backend but those of the breakpoints.
-- The state is the table of the breakpoints, the engine's thread, its interrupt flag and the target's
-- pid. The standard library's `trim` and parsers and the list of the processes are arguments.
use package.text.Mathlib.Text.{starts_with}
use Prim.Native.String.{len, slice}
use debug_mcp.Prelude.{
  ℕ, zero, suc, ◌-◌, ◌^◌, ℤ, pos, negsuc, ◌+ℤ◌, leb_ℤ, String, Bool, true, false, ◌||◌, Option,
  none, some, List, [], ◌∷◌, length, drop, is_positive, leb, if◌then◌else◌, Result, ok, err,
  string_eq, nat_eq,
}
use debug_mcp.Prelude.Text.{◌<>◌, show_ℤ}
use debug_mcp.Prelude.Maps
use debug_mcp.Core.Types.{
  LaunchSpec, LaunchOutcome, AttachSpec, AttachOutcome, StopOutcome, SourceBp, FunctionBp, StepKind,
  Granularity, EvalMode, EvalResult, ThreadInfo, Frame, Scope, Variable, MemoryRead, Instruction,
  ModuleInfo, DumpOutcome, BreakpointResult,
}
use debug_mcp.Core.Error.{BackendError}
use debug_mcp.Windbg.Engine.{file_line, function, LaunchReq, Op, EngineOps, call, u32_of}
use debug_mcp.Windbg.Breakpoints.{BreakpointTable, is_bare_address_name, lines_of}

pub record WinDbgBackend (S : Type 0) : Type 0 where
  pub breakpoints : BreakpointTable
  pub engine : Option S
  pub interrupt : Bool
  pub target_pid : Option ℤ

-- The environment is not passed on.
abbrev launch_req : LaunchSpec → LaunchReq
launch_req spec = record { program = spec.program; args = spec.args; cwd = spec.cwd }

unfoldable pub stop_to_attach : StopOutcome → AttachOutcome
stop_to_attach (StopOutcome.stopped info) = AttachOutcome.stopped info
stop_to_attach (StopOutcome.exited code) = AttachOutcome.exited code
stop_to_attach StopOutcome.terminated = AttachOutcome.terminated

unfoldable pub stop_to_launch : StopOutcome → LaunchOutcome
stop_to_launch (StopOutcome.stopped info) = LaunchOutcome.stopped info
stop_to_launch (StopOutcome.exited code) = LaunchOutcome.exited code
stop_to_launch StopOutcome.terminated = LaunchOutcome.exited none

-- The standard library's parse of a `u64` in a radix, and its `trim`.
module _ (parse_u64 : ℕ → String → Option ℕ) (trim : String → String) where
  abbrev parsed_address : String → Option ℕ
  parsed_address trimmed =
      if starts_with trimmed "0x" || starts_with trimmed "0X"
      then parse_u64 16 (slice trimmed 2 (len trimmed))
      else parse_u64 10 trimmed

  unfoldable pub parse_address : String → Result BackendError ℕ
  parse_address address = elim (parsed_address (trim address)) [
    | none ↦ err (BackendError.dap ("invalid address: '" <> address <> "'"))
    | some a ↦ ok a
  ]

-- `saturating_add` of an `i64`
abbrev pub largest : ℤ
largest = pos (2 ^ 63 - 1)

abbrev smallest : ℤ
smallest = negsuc (2 ^ 63 - 1)

unfoldable pub saturating_add : ℤ → ℤ → ℤ
saturating_add a b =
    let sum = a +ℤ b in
    if leb_ℤ largest sum then largest else (if leb_ℤ sum smallest then smallest else sum)

-- `start.max(0)`
abbrev pub from_zero : ℤ → ℕ
from_zero (pos n) = n
from_zero (negsuc n) = 0

-- How many frames are fetched from the top, for a window of `levels` from `start`.
unfoldable pub fetch_max : ℕ → ℤ → ℤ
unfolding saturating_add
fetch_max start levels = if is_positive levels then saturating_add (pos start) levels else pos 1024

unfoldable pub window : ℕ → List Frame → List Frame × ℤ
unfolding drop
window start frames = (drop start frames, pos (length frames))

-- A set of the flush at launch that goes through and is verified is recorded.
abbrev verified_of : Result BackendError BreakpointResult → Option BreakpointResult
verified_of (err e) = none
verified_of (ok r) = if r.verified then some r else none

unfoldable pub record_line :
    String → ℕ → Option BreakpointResult → BreakpointTable → BreakpointTable
unfolding lines_of Maps.insert
record_line file line none table = table
record_line file line (some r) table = record table {
  source = Maps.insert file (Maps.insert line r (lines_of file table)) table.source;
}

unfoldable pub record_function :
    String → Option BreakpointResult → BreakpointTable → BreakpointTable
unfolding Maps.insert
record_function name none table = table
record_function name (some r) table = record table { function = Maps.insert name r table.function }

module _ {S : Type 0} (ops : EngineOps S) where
  -- A call that changes nothing but the engine.
  abbrev pub ask : {A : Type 0} → Op S A → WinDbgBackend S → Result BackendError A × WinDbgBackend S
  ask op w = let (r, e) = call op w.engine in (r, record w { engine = e })

  unfoldable pub flush_lines : String → List SourceBp → WinDbgBackend S → WinDbgBackend S
  unfolding call record_line
  flush_lines file [] w = w
  flush_lines file (bp ∷ bps) w = elim (u32_of bp.line) [
    | none ↦ flush_lines file bps w
    | some line ↦
        let (r, w') = ask (ops.set_breakpoint (file_line file line) bp.condition) w in
        flush_lines file bps
          (record w' { breakpoints = record_line file line (verified_of r) w'.breakpoints })
  ]

  unfoldable pub flush_files : List (String × List SourceBp) → WinDbgBackend S → WinDbgBackend S
  unfolding flush_lines
  flush_files [] w = w
  flush_files ((file, bps) ∷ files) w = flush_files files (flush_lines file bps w)

  module _ (trim_start : String → String) where
    unfoldable pub flush_functions : List FunctionBp → WinDbgBackend S → WinDbgBackend S
    unfolding call record_function is_bare_address_name
    flush_functions [] w = w
    flush_functions (bp ∷ bps) w = elim (is_bare_address_name (trim_start bp.name)) [
      | true ↦ flush_functions bps w
      | false ↦
          let (r, w') = ask (ops.set_breakpoint (function bp.name) bp.condition) w in
          flush_functions bps
            (record w' { breakpoints = record_function bp.name (verified_of r) w'.breakpoints })
    ]

    abbrev flush : StopOutcome → LaunchSpec → WinDbgBackend S → WinDbgBackend S
    flush (StopOutcome.stopped info) spec w =
        flush_functions spec.function_breakpoints (flush_files spec.source_breakpoints w)
    flush (StopOutcome.exited code) spec w = w
    flush StopOutcome.terminated spec w = w

    abbrev launched :
        LaunchSpec
        → Result BackendError StopOutcome × WinDbgBackend S
        → Result BackendError LaunchOutcome × WinDbgBackend S
    launched spec (err e, w) = (err e, w)
    launched spec (ok outcome, w) = (ok (stop_to_launch outcome), flush outcome spec w)

    unfoldable pub launch :
        LaunchSpec → WinDbgBackend S → Result BackendError LaunchOutcome × WinDbgBackend S
    unfolding call flush_functions flush_files stop_to_launch
    launch spec w = launched spec (ask (ops.launch (launch_req spec)) w)

  abbrev attached :
      {A B : Type 0}
      → (A → B)
      → Result BackendError A × WinDbgBackend S
      → Result BackendError B × WinDbgBackend S
  attached f (err e, w) = (err e, w)
  attached f (ok a, w) = (ok (f a), w)

  -- The pid that is attached to; `poll` is the search for a process by its name, with its limit.
  unfoldable pub attach_pid : (String → Result BackendError ℕ) → AttachSpec → Result BackendError ℕ
  unfolding show_ℤ
  attach_pid poll spec = elim spec.pid [
    | some pid ↦ elim (u32_of pid) [
      | none ↦ err (BackendError.dap ("attach: pid " <> show_ℤ pid <> " is out of range"))
      | some p ↦ ok p
    ]
    | none ↦ elim spec.wait_for [
      | some name ↦ poll name
      | none ↦ err (BackendError.dap "attach: neither pid nor wait_for was supplied")
    ]
  ]

  unfoldable pub attach :
      (String → Result BackendError ℕ)
      → AttachSpec
      → WinDbgBackend S
      → Result BackendError AttachOutcome × WinDbgBackend S
  unfolding attach_pid call stop_to_attach
  attach poll spec w = elim (attach_pid poll spec) [
    | err e ↦ (err e, w)
    | ok pid ↦
        attached stop_to_attach
          (ask (ops.attach_pid pid) (record w { target_pid = some (pos pid) }))
  ]

  unfoldable pub attach_kernel :
      String → WinDbgBackend S → Result BackendError AttachOutcome × WinDbgBackend S
  unfolding call stop_to_attach
  attach_kernel connection w = attached stop_to_attach (ask (ops.attach_kernel connection) w)

  -- The flag goes up before the detach, whose result is dropped.
  unfoldable pub disconnect : Bool → WinDbgBackend S → WinDbgBackend S
  unfolding call
  disconnect terminate w = (ask (ops.detach terminate) (record w { interrupt = true })).1

  -- A run that comes back without a stop was interrupted: it is broken into.
  abbrev resumed :
      Result BackendError (Option StopOutcome) × WinDbgBackend S
      → Result BackendError StopOutcome × WinDbgBackend S
  resumed (err e, w) = (err e, w)
  resumed (ok (some stop), w) = (ok stop, w)
  resumed (ok none, w) = ask ops.break_in w

  unfoldable pub cont : ℤ → WinDbgBackend S → Result BackendError StopOutcome × WinDbgBackend S
  unfolding call
  cont thread_id w = resumed (ask (ops.go (2 ^ 32 - 1)) w)

  unfoldable pub step :
      StepKind
      → ℤ
      → Option Granularity
      → WinDbgBackend S
      → Result BackendError StopOutcome × WinDbgBackend S
  unfolding call
  step kind thread_id gran w = ask (ops.step kind) w

  unfoldable pub pause : WinDbgBackend S → Result BackendError (Unit {0}) × WinDbgBackend S
  pause w = (ok tt, record w { interrupt = true })

  unfoldable pub threads : WinDbgBackend S → Result BackendError (List ThreadInfo) × WinDbgBackend S
  unfolding call
  threads w = ask ops.threads w

  unfoldable pub stack_trace :
      ℤ → ℤ → ℤ → WinDbgBackend S → Result BackendError (List Frame × ℤ) × WinDbgBackend S
  unfolding call window fetch_max
  stack_trace thread_id start levels w =
      attached (window (from_zero start))
        (ask (ops.stack_trace thread_id (fetch_max (from_zero start) levels)) w)

  unfoldable pub variables :
      ℤ → WinDbgBackend S → Result BackendError (List Variable) × WinDbgBackend S
  unfolding call
  variables (pos zero) w = (ok [], w)
  variables (pos (suc n)) w = if leb (2 ^ 20) n then (ok [], w) else ask (ops.locals (pos n)) w
  variables (negsuc n) w = (ok [], w)

  abbrev printed : String → EvalResult
  printed output = record { result = output; ty = ""; variables_reference = pos 0 }

  unfoldable pub evaluate :
      String
      → Option ℤ
      → EvalMode
      → WinDbgBackend S
      → Result BackendError EvalResult × WinDbgBackend S
  unfolding call
  evaluate expr frame_id EvalMode.expression w = ask (ops.evaluate expr) w
  evaluate expr frame_id EvalMode.repl w = attached printed (ask (ops.execute expr) w)

  unfoldable pub modules : WinDbgBackend S → Result BackendError (List ModuleInfo) × WinDbgBackend S
  unfolding call
  modules w = ask ops.modules w

  unfoldable pub open_dump :
      String → WinDbgBackend S → Result BackendError DumpOutcome × WinDbgBackend S
  unfolding call
  open_dump path w = ask (ops.open_dump path) w

  unfoldable pub analyze : WinDbgBackend S → Result BackendError String × WinDbgBackend S
  unfolding call
  analyze w = ask ops.analyze w

  module _ (parse : String → Result BackendError ℕ) where
    unfoldable pub read_memory :
        String → ℤ → WinDbgBackend S → Result BackendError MemoryRead × WinDbgBackend S
    unfolding call
    read_memory address count w = elim (parse address) [
      | err e ↦ (err e, w)
      | ok a ↦ ask (ops.read_memory a (from_zero count)) w
    ]

    unfoldable pub disassemble :
        String → ℤ → WinDbgBackend S → Result BackendError (List Instruction) × WinDbgBackend S
    unfolding call
    disassemble address count w = elim (parse address) [
      | err e ↦ (err e, w)
      | ok a ↦ ask (ops.disassemble a count) w
    ]

-- One scope, whose reference is the frame's id and one more.
unfoldable pub scopes : ℤ → List Scope
unfolding saturating_add
scopes frame_id =
    record { name = "Locals"; variables_reference = saturating_add frame_id (pos 1) } ∷ []
