-- ===== src/Dbgeng/Callbacks.antt =====
-- crates/dbgeng-sys/src/callbacks.rs: what the callbacks of DbgEng write and the engine reads. A
-- status and the bits of a mask are known by their names.
use debug_mcp.Prelude.{
  ℕ, String, Bool, true, false, not, ◌||◌, Option, none, some, List, [], ◌∷◌, ◌++◌, eqb,
  if◌then◌else◌, ◌==◌, string_eq,
}
use debug_mcp.Prelude.Text.{◌<>◌, show_ℕ, show_hex}

-- `DEBUG_STATUS_*`
pub data Status : Type 0 where
  no_change go go_handled go_not_handled step_over step_into step_branch break no_debuggee : Status
  other_status : ℕ → Status

pub record Mask : Type 0 where
  pub error : Bool
  pub warning : Bool
  pub prompt : Bool
  pub normal : Bool
  pub bits : ℕ

pub data OutputKind : Type 0 where
  normal error warning prompt : OutputKind
  other : ℕ → OutputKind

unfoldable pub from_mask : Mask → OutputKind
from_mask m =
    if m.error
    then OutputKind.error
    else if m.warning
    then OutputKind.warning
    else if m.prompt
    then OutputKind.prompt
    else if m.normal
    then OutputKind.normal
    else OutputKind.other m.bits

-- `sunk` is what the sink was called with, oldest first, once one is installed.
pub record CallbackState : Type 0 where
  pub output : String
  pub sink : Bool
  pub sunk : List (OutputKind × String)
  pub last_breakpoint_id : Option ℕ
  pub last_breakpoint_offset : Option ℕ
  pub last_exception_code : Option ℕ
  pub last_exception_address : Option ℕ
  pub last_exit_code : Option ℕ
  pub last_stop_reason : String

unfoldable pub new : CallbackState
new = record {
  output = "";
  sink = false;
  sunk = [];
  last_breakpoint_id = none;
  last_breakpoint_offset = none;
  last_exception_code = none;
  last_exception_address = none;
  last_exit_code = none;
  last_stop_reason = "";
}

unfoldable pub set_sink : CallbackState → CallbackState
set_sink s = record s { sink = true }

unfoldable pub take_output : CallbackState → String × CallbackState
take_output s = (s.output, record s { output = "" })

unfoldable pub record_output : OutputKind → String → CallbackState → CallbackState
record_output kind text s = record s {
  output = s.output <> text;
  sunk = if s.sink then s.sunk ++ (kind, text) ∷ [] else s.sunk;
}

-- `STATUS_BREAKPOINT`, 0x80000003
abbrev pub status_breakpoint : ℕ
status_breakpoint = 2147483651

unfoldable pub exception_breaks : Bool → ℕ → Bool
exception_breaks first_chance code = not first_chance || eqb code status_breakpoint

-- A call of DbgEng on the callbacks: the output, a breakpoint by its id and offset, an exception by its
-- code, address and whether it is the first chance, the end of the process, and the calls that nothing
-- is done for. Whatever DbgEng could not read of a breakpoint or an exception is 0.
pub data Event : Type 0 where
  output : Mask → String → Event
  breakpoint : ℕ → ℕ → Event
  exception : ℕ → ℕ → Bool → Event
  exit_process : ℕ → Event
  ignored : Event

abbrev chance : Bool → String
chance first = if first then "First-chance" else "Second-chance"

-- The state that a call leaves, and the disposition that it answers.
unfoldable pub callback : Event → CallbackState → Status × CallbackState
unfolding from_mask record_output exception_breaks show_ℕ show_hex
callback (Event.output mask text) s =
    (Status.no_change, if text == "" then s else record_output (from_mask mask) text s)
callback (Event.breakpoint id offset) s = (
  Status.break,
  record s {
    last_breakpoint_id = some id;
    last_breakpoint_offset = some offset;
    last_stop_reason = "Breakpoint " <> show_ℕ id <> " hit at 0x" <> show_hex 1 offset;
  },
)
callback (Event.exception code address first) s = (
  if exception_breaks first code then Status.break else Status.no_change,
  record s {
    last_exception_code = some code;
    last_exception_address = some address;
    last_stop_reason =
        chance first <> " exception 0x" <> show_hex 8 code <> " at 0x" <> show_hex 1 address;
  },
)
callback (Event.exit_process code) s = (
  Status.break,
  record s {
    last_exit_code = some code;
    last_stop_reason = "Process exited with code " <> show_ℕ code;
  },
)
callback Event.ignored s = (Status.no_change, s)

unfoldable pub callbacks : List Event → CallbackState → CallbackState
unfolding callback
callbacks [] s = s
callbacks (e ∷ es) s = callbacks es (callback e s).1
