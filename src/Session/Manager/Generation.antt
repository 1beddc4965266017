-- ===== src/Session/Manager/Generation.antt =====
-- The generation epoch: what is written with an old epoch does not reach a new session.
use debug_mcp.Prelude.{
  ◌+◌, ◌%◌, ◌^◌, ◌<◌, ◌≡◌, ◌↔◌, eqb, if◌then◌else◌, ℤ, true, false, Option, List, [], ◌∷◌, arith,
}
use debug_mcp.Core.Types.{BackendEvent}
use debug_mcp.Session.State.{State, terminated}
use debug_mcp.Session.Pump.{pump_event}
use debug_mcp.Session.Manager.{
  SessionManager, set_state, set_state_if_generation, reset, set_program, set_pid, set_dump,
  set_exit_code, note_exit, terminate_if_generation, set_last_stopped, set_frame_mapping,
  set_output,
}
use debug_mcp.Session.Manager.Tracking.{
  add_source_breakpoint, add_function_breakpoint, add_breakpoint_response, remove_breakpoint_by_id,
  add_pending_source_breakpoint, add_pending_function_breakpoint, flush_pending_breakpoints,
}
use debug_mcp.Session.Manager.Calls.{Call, apply, run, reset_count, resets}

untrack-generation :
    (s : SessionManager) (id : ℤ) → (remove_breakpoint_by_id id s).1.generation ≡ s.generation
unfolding remove_breakpoint_by_id
untrack-generation s id = ground arith

apply-generation :
    (c : Call) (s : SessionManager)
    → s.generation < 2 ^ 64
    → (apply c s).generation ≡ (s.generation + reset_count (c ∷ [])) % 2 ^ 64
unfolding apply reset_count set_state set_state_if_generation reset set_program set_pid set_dump
    set_exit_code terminate_if_generation set_last_stopped set_frame_mapping set_output pump_event
    add_source_breakpoint add_function_breakpoint add_breakpoint_response
    add_pending_source_breakpoint add_pending_function_breakpoint flush_pending_breakpoints
apply-generation resets s h = ground arith
apply-generation (Call.removes id) s h = ground (arith, untrack-generation s id)
apply-generation _ s h = ground arith

reset_count-cons :
    (c : Call) (cs : List Call) → reset_count (c ∷ cs) ≡ reset_count (c ∷ []) + reset_count cs
unfolding reset_count
reset_count-cons resets cs = omega arith
reset_count-cons _ cs = omega arith

-- From an epoch below 2 ^ 64, the epoch behind a sequence of calls is further by the number of the
-- resets among them, modulo 2 ^ 64.
run-generation :
    (cs : List Call) (s : SessionManager)
    → s.generation < 2 ^ 64
    → (run cs s).generation ≡ (s.generation + reset_count cs) % 2 ^ 64
unfolding run
run-generation [] s h = unfold reset_count in omega arith
run-generation (c ∷ cs) s h = omega (
  arith,
  apply-generation c s h,
  reset_count-cons c cs,
  run-generation cs (apply c s) (omega (arith, apply-generation c s h)),
)

module _ (cs : List Call) (s : SessionManager) (small : s.generation < 2 ^ 64)
    (few : reset_count cs < 2 ^ 64) where
  stale_iff : (reset_count cs ≡ 0) ↔ ((run cs s).generation ≡ s.generation)
  stale_iff =
      (λ e. omega (arith, run-generation cs s small), λ e. omega (arith, run-generation cs s small))

  -- With an epoch read before a sequence of calls, of fewer than 2 ^ 64 resets,
  -- `set_state_if_generation`, `terminate_if_generation` and the pump's `Terminated` behind them
  -- take effect if no call was a reset, and else change nothing.
  pub guarded_write :
      (st : State) (code : Option ℤ)
      → (set_state_if_generation s.generation st (run cs s)
          ≡ (if eqb (reset_count cs) 0 then (true, set_state st (run cs s)) else (false, run cs s)))
        × (terminate_if_generation s.generation code (run cs s) ≡ (
            if eqb (reset_count cs) 0
            then (true, set_state terminated (note_exit code (run cs s)))
            else (false, run cs s)))
        × (pump_event s.generation (BackendEvent.terminated code) (run cs s) ≡ (
            if eqb (reset_count cs) 0
            then set_state terminated (note_exit code (run cs s))
            else run cs s))
  unfolding set_state_if_generation terminate_if_generation pump_event
  guarded_write st code =
      (ground (arith, stale_iff), ground (arith, stale_iff), ground (arith, stale_iff))
