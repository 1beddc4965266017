-- ===== src/Windbg/Engine.antt =====
-- crates/windbg-backend/src/engine_ops.rs and, of backend.rs, `call`: the engine as its operations,
-- and how the backend reaches it. The engine's own state is unknown (DbgEng, by COM). An
-- operation answers, or the engine's thread ends without an answer.
use debug_mcp.Prelude.{
  ℕ, ◌^◌, ℤ, pos, negsuc, String, Bool, Option, none, some, List, ltb, if◌then◌else◌, Result, ok,
  err, ◌≡◌, ◌==◌, int_eq,
}
use debug_mcp.Core.Types.{
  StopOutcome, BreakpointResult, ThreadInfo, Frame, Variable, EvalResult, MemoryRead, Instruction,
  ModuleInfo, DumpOutcome, StepKind,
}
use debug_mcp.Core.Error.{BackendError}

-- crates/dbgeng-sys/src/engine.rs
pub data BpLoc : Type 0 where
  address : ℕ → BpLoc
  file_line : String → ℕ → BpLoc
  function : String → BpLoc

pub record LaunchReq : Type 0 where
  pub program : String
  pub args : List String
  pub cwd : Option String

-- An `EngineError` is its text.
abbrev pub Op : Type 0 → Type 0 → Type 0
Op S A = S → Option (Result String A × S)

pub record EngineOps (S : Type 0) : Type 0 where
  pub launch : LaunchReq → Op S StopOutcome
  pub attach_pid : ℕ → Op S StopOutcome
  pub detach : Bool → Op S (Unit {0})
  pub go : ℕ → Op S (Option StopOutcome)
  pub step : StepKind → Op S StopOutcome
  pub break_in : Op S StopOutcome
  pub set_breakpoint : BpLoc → String → Op S BreakpointResult
  pub remove_breakpoint : ℤ → Op S (Unit {0})
  pub list_breakpoints : Op S (List BreakpointResult)
  pub threads : Op S (List ThreadInfo)
  pub stack_trace : ℤ → ℤ → Op S (List Frame)
  pub locals : ℤ → Op S (List Variable)
  pub evaluate : String → Op S EvalResult
  pub read_memory : ℕ → ℕ → Op S MemoryRead
  pub disassemble : ℕ → ℤ → Op S (List Instruction)
  pub execute : String → Op S String
  pub modules : Op S (List ModuleInfo)
  pub open_dump : String → Op S DumpOutcome
  pub attach_kernel : String → Op S StopOutcome
  pub analyze : Op S String
  pub current_source_location : Op S (Option (String × ℤ))
  pub set_output_sink : S → S

abbrev pub map_engine_err : {A : Type 0} → Result String A → Result BackendError A
map_engine_err (err m) = err (BackendError.dap m)
map_engine_err (ok a) = ok a

module _ {S A : Type 0} where
  -- The channel to the thread is closed once the thread has ended.
  abbrev pub answered : Option (Result String A × S) → Result BackendError A × Option S
  answered none = (err BackendError.closed, none)
  answered (some (r, s)) = (map_engine_err r, some s)

  unfoldable pub call : Op S A → Option S → Result BackendError A × Option S
  call op none = (err BackendError.closed, none)
  call op (some s) = answered (op s)

-- `u32::try_from`
abbrev pub u32_of : ℤ → Option ℕ
u32_of (pos n) = if ltb n (2 ^ 32) then some n else none
u32_of (negsuc n) = none

-- The breakpoint that a set has put into the engine.
abbrev pub placed : Result String BreakpointResult → Option ℤ
placed (err m) = none
placed (ok r) = if r.verified then some r.id else none

-- An account of an engine's breakpoints that is exact: a set that succeeds puts one at an id that had
-- none, a set that does not changes nothing, and what was asked to be removed is gone. What an engine
-- really has need not be so, since a command that fails may leave a breakpoint; see `Leftover`.
pub record IsExact {S : Type 0} (ops : EngineOps S) (at : S → ℤ → Option BpLoc) : Type 0 where
  pub fresh :
      (loc : BpLoc) (condition : String) (s s' : S) (r : Result String BreakpointResult) (id : ℤ)
      → ops.set_breakpoint loc condition s ≡ some (r, s')
      → placed r ≡ some id
      → at s id ≡ none
  pub set_at :
      (loc : BpLoc) (condition : String) (s s' : S) (r : Result String BreakpointResult) (id j : ℤ)
      → ops.set_breakpoint loc condition s ≡ some (r, s')
      → placed r ≡ some id
      → at s' j ≡ (if id == j then some loc else at s j)
  pub unset_at :
      (loc : BpLoc) (condition : String) (s s' : S) (r : Result String BreakpointResult) (j : ℤ)
      → ops.set_breakpoint loc condition s ≡ some (r, s')
      → placed r ≡ none
      → at s' j ≡ at s j
  pub remove_at :
      (id : ℤ) (s s' : S) (r : Result String (Unit {0})) (j : ℤ)
      → ops.remove_breakpoint id s ≡ some (r, s')
      → at s' j ≡ (if id == j then none else at s j)
