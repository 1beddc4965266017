-- ===== src/Session/Manager.antt =====
-- crates/mcp-session/src/manager.rs: `SessionManager`. Each method takes the lock once, so it is one
-- step on the state; a getter that only clones a field is the field itself.
pub mod Tracking
pub mod Calls
pub mod Generation
pub mod Guard
pub mod Valid
pub mod Tracked
pub mod Flush
use debug_mcp.Prelude.{
  ℕ, ◌+◌, ◌%◌, ◌^◌, ℤ, pos, String, Bool, true, false, Option, none, some, List, [], ◌∷◌, map, Dict,
  any, if◌then◌else◌, Result, ok, err, ◌==◌, nat_eq,
}
use debug_mcp.Prelude.Text.{◌<>◌, join}
use debug_mcp.Core.Types.{StopInfo, SourceBp, FunctionBp}
use debug_mcp.Session.State.{
  State, idle, configuring, stopped, running, terminated, state_name, BreakpointInfo, state_eq,
}
use debug_mcp.Session.Output.{Buffered, drain, empty}

pub record Inner : Type 0 where
  pub state : State
  pub generation : ℕ
  pub program : String
  pub pid : ℤ
  pub exit_code : Option ℤ
  pub last_stopped : Option StopInfo
  pub is_dump : Bool
  pub frame_mapping : Dict ℤ ℤ
  pub source_bps : Dict String (List SourceBp)
  pub function_bps : List FunctionBp
  pub bp_responses : Dict ℤ BreakpointInfo
  pub pending_source_bps : Dict String (List SourceBp)
  pub pending_function_bps : List FunctionBp

pub record SessionManager : Type 0 where
  pub inner : Inner
  pub open inner use *
  pub output : Buffered

-- `Inner::new`, at a generation.
abbrev pub fresh_inner : ℕ → Inner
fresh_inner generation = record {
  state = idle;
  generation = generation;
  program = "";
  pid = pos 0;
  exit_code = none;
  last_stopped = none;
  is_dump = false;
  frame_mapping = [];
  source_bps = [];
  function_bps = [];
  bp_responses = [];
  pending_source_bps = [];
  pending_function_bps = [];
}

abbrev pub new : SessionManager
new = record { inner = fresh_inner 0; output = empty }

unfoldable pub set_state : State → SessionManager → SessionManager
set_state st s = record s { inner = record s.inner { state = st } }

-- The new state, and whether the transition was applied.
unfoldable pub set_state_if_generation : ℕ → State → SessionManager → Bool × SessionManager
unfolding set_state
set_state_if_generation generation st s =
    if s.generation == generation then (true, set_state st s) else (false, s)

unfoldable pub invalid_state : List State → State → String
invalid_state allowed current =
    "invalid state: "
    <> state_name current
    <> ", expected one of: "
    <> join ", " (map state_name allowed)

unfoldable pub state_error : List State → State → String
state_error allowed idle = "no debug session active. Use 'launch' or 'attach' first."
state_error allowed running = "process is running. Use 'pause' first."
state_error allowed current = invalid_state allowed current

unfoldable pub check_state : List State → SessionManager → Result String (Unit {0})
unfolding any state_error
check_state allowed s =
    if any (λ a. a == s.state) allowed then ok tt else err (state_error allowed s.state)

unfoldable pub reset : SessionManager → SessionManager
unfolding drain
reset s = record { inner = fresh_inner ((s.generation + 1) % 2 ^ 64); output = (drain s.output).1 }

unfoldable pub set_program : String → SessionManager → SessionManager
set_program program s = record s { inner = record s.inner { program = program } }

unfoldable pub set_pid : ℤ → SessionManager → SessionManager
set_pid pid s = record s { inner = record s.inner { pid = pid } }

unfoldable pub set_dump : Bool → SessionManager → SessionManager
set_dump is_dump s = record s { inner = record s.inner { is_dump = is_dump } }

unfoldable pub set_exit_code : ℤ → SessionManager → SessionManager
set_exit_code code s = record s { inner = record s.inner { exit_code = some code } }

-- `if let Some(code) = code { exit_code = Some(code) }`
unfoldable pub note_exit : Option ℤ → SessionManager → SessionManager
unfolding set_exit_code
note_exit none s = s
note_exit (some code) s = set_exit_code code s

unfoldable pub terminate_if_generation : ℕ → Option ℤ → SessionManager → Bool × SessionManager
unfolding set_state note_exit
terminate_if_generation generation code s =
    if s.generation == generation
    then (true, set_state terminated (note_exit code s))
    else (false, s)

unfoldable pub set_last_stopped : StopInfo → SessionManager → SessionManager
set_last_stopped info s = record s { inner = record s.inner { last_stopped = some info } }

unfoldable pub set_frame_mapping : Dict ℤ ℤ → SessionManager → SessionManager
set_frame_mapping mapping s = record s { inner = record s.inner { frame_mapping = mapping } }

-- The buffer has its own lock: reading and draining it is one step.
unfoldable pub set_output : Buffered → SessionManager → SessionManager
set_output output s = record s { output = output }
