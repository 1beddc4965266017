-- ===== src/Session/Manager/Calls.antt =====
-- The calls that the handlers and the event pumps make of the session, as values, in the order in
-- which the lock admits them.
use debug_mcp.Prelude.{ℕ, suc, ℤ, String, Bool, Option, List, [], ◌∷◌, Dict}
use debug_mcp.Core.Types.{StopInfo, BackendEvent}
use debug_mcp.Session.State.{State, BreakpointInfo}
use debug_mcp.Session.Output.{drain}
use debug_mcp.Session.Pump.{pump_event}
use debug_mcp.Session.Manager.{
  SessionManager, set_state, set_state_if_generation, reset, set_program, set_pid, set_dump,
  set_exit_code, terminate_if_generation, set_last_stopped, set_frame_mapping, set_output,
}
use debug_mcp.Session.Manager.Tracking.{
  add_source_breakpoint, add_function_breakpoint, add_breakpoint_response, remove_breakpoint_by_id,
  add_pending_source_breakpoint, add_pending_function_breakpoint, flush_pending_breakpoints,
}

pub data Call : Type 0 where
  to_state : State → Call
  to_state_if : ℕ → State → Call
  resets : Call
  to_program : String → Call
  to_pid : ℤ → Call
  to_dump : Bool → Call
  to_exit_code : ℤ → Call
  terminate_if : ℕ → Option ℤ → Call
  to_last_stopped : StopInfo → Call
  to_frame_mapping : Dict ℤ ℤ → Call
  drains : Call
  event : ℕ → BackendEvent → Call
  adds_source : String → ℤ → String → Call
  adds_function : String → String → Call
  adds_response : BreakpointInfo → Call
  removes : ℤ → Call
  pends_source : String → ℤ → String → Call
  pends_function : String → String → Call
  flushes : Call

unfoldable pub apply : Call → SessionManager → SessionManager
apply (to_state st) s = set_state st s
apply (to_state_if g st) s = (set_state_if_generation g st s).1
apply resets s = reset s
apply (to_program program) s = set_program program s
apply (to_pid pid) s = set_pid pid s
apply (to_dump is_dump) s = set_dump is_dump s
apply (to_exit_code code) s = set_exit_code code s
apply (terminate_if g code) s = (terminate_if_generation g code s).1
apply (to_last_stopped info) s = set_last_stopped info s
apply (to_frame_mapping mapping) s = set_frame_mapping mapping s
apply drains s = set_output (drain s.output).1 s
apply (event g e) s = pump_event g e s
apply (adds_source file line condition) s = (add_source_breakpoint file line condition s).1
apply (adds_function name condition) s = (add_function_breakpoint name condition s).1
apply (adds_response info) s = add_breakpoint_response info s
apply (removes id) s = (remove_breakpoint_by_id id s).1
apply (pends_source file line condition) s = add_pending_source_breakpoint file line condition s
apply (pends_function name condition) s = add_pending_function_breakpoint name condition s
apply flushes s = (flush_pending_breakpoints s).1

unfoldable pub run : List Call → SessionManager → SessionManager
unfolding apply
run [] s = s
run (c ∷ cs) s = run cs (apply c s)

-- How many sessions were ended among the calls.
unfoldable pub reset_count : List Call → ℕ
reset_count [] = 0
reset_count (resets ∷ cs) = suc (reset_count cs)
reset_count (c ∷ cs) = reset_count cs
