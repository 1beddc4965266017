-- ===== src/Dbgeng/Engine/Wait.antt =====
-- crates/dbgeng-sys/src/engine.rs: `wait_for_event` and what it is made of. A wait goes on while what
-- stopped is resumed again; it is on fuel, a round each.
use debug_mcp.Prelude.{
  ℕ, zero, suc, ℤ, pos, String, Bool, true, false, not, ◌&&◌, Option, none, some, List, [], ◌∷◌,
  is_empty, eqb, leb, if◌then◌else◌, Result, ok, err, nat_eq,
}
use debug_mcp.Prelude.Text.{◌<>◌}
use debug_mcp.Prelude.Maps
use debug_mcp.Core.Types.{StopOutcome}
use debug_mcp.Dbgeng.Error.{ComError, EngineError}
use debug_mcp.Dbgeng.Callbacks.{Status}
use debug_mcp.Dbgeng.Com.{Com, Texts}
use debug_mcp.Dbgeng.Engine.{Act, ◌>>=◌, ◌>>◌, pure, fail, asks, attempt, call}

pub data WaitResult : Type 0 where
  event : StopOutcome → WaitResult
  timed_out : WaitResult

unfoldable pub condition_expr : String → String
condition_expr condition = "@@c++( (" <> condition <> ") ? 1 : 0 )"

-- `with_reason`
unfoldable pub with_reason : String → StopOutcome → StopOutcome
with_reason reason (StopOutcome.stopped info) =
    StopOutcome.stopped (record info { reason = reason })
with_reason reason (StopOutcome.exited code) = StopOutcome.exited code
with_reason reason StopOutcome.terminated = StopOutcome.terminated

abbrev pub resumed : Status → Bool
resumed Status.no_change = false
resumed Status.go = true
resumed Status.go_handled = true
resumed Status.go_not_handled = true
resumed Status.step_over = true
resumed Status.step_into = true
resumed Status.step_branch = true
resumed Status.break = false
resumed Status.no_debuggee = false
resumed (Status.other_status n) = false

abbrev pub is_break : Status → Bool
is_break Status.no_change = false
is_break Status.go = false
is_break Status.go_handled = false
is_break Status.go_not_handled = false
is_break Status.step_over = false
is_break Status.step_into = false
is_break Status.step_branch = false
is_break Status.break = true
is_break Status.no_debuggee = false
is_break (Status.other_status n) = false

abbrev pub is_gone : Status → Bool
is_gone Status.no_change = false
is_gone Status.go = false
is_gone Status.go_handled = false
is_gone Status.go_not_handled = false
is_gone Status.step_over = false
is_gone Status.step_into = false
is_gone Status.step_branch = false
is_gone Status.break = false
is_gone Status.no_debuggee = true
is_gone (Status.other_status n) = false

abbrev as_list : Option ℕ → List ℤ
as_list none = []
as_list (some n) = pos n ∷ []

abbrev thread_of : {E : Type 0} → Result E ℕ → ℤ
thread_of (err x) = pos 0
thread_of (ok t) = pos t

-- The value is that of the whole text, of `length` bytes, and is not 0.
abbrev pub condition_holds : {E : Type 0} → ℕ → Result E (ℕ × ℕ) → Bool
condition_holds length (err x) = false
condition_holds length (ok (value, remainder)) = leb length remainder && not (eqb value 0)

-- The end of a wait that must have an event.
abbrev pub expected : {C : Type 0} → String → WaitResult → Act C StopOutcome
expected message (event o) = pure o
expected message timed_out = fail (EngineError.engine message)

-- The answer, or what comes next.
abbrev pub answered : {C A : Type 0} → Option A → Act C A → Act C A
answered none rest = rest
answered (some a) rest = pure a

module _ (texts : Texts) {C : Type 0} (dbg : Com C) where
  unfoldable pub build_stop_outcome : Status → Act C StopOutcome
  unfolding attempt
  build_stop_outcome status = asks (λ e. e.callback_state) >>= λ st. elim st.last_exit_code [
    | some code ↦ pure (StopOutcome.exited (some (pos code)))
    | none ↦
        if is_gone status
        then pure (StopOutcome.exited none)
        else (attempt dbg.current_thread >>= λ thread. pure (
            StopOutcome.stopped (record {
              reason = st.last_stop_reason;
              thread_id = thread_of thread;
              description = "";
              hit_breakpoint_ids = as_list st.last_breakpoint_id;
            })))
  ]

  -- The value of a condition that is stored.
  unfoldable pub stored_condition_met : Option String → Act C Bool
  unfolding attempt condition_expr
  stored_condition_met none = pure true
  stored_condition_met (some condition) =
      if texts.has_nul (condition_expr condition)
      then pure false
      else (attempt (dbg.evaluate (condition_expr condition)) >>= λ value.
          pure (condition_holds (texts.byte_length (condition_expr condition)) value))

  unfoldable pub breakpoint_condition_met : ℕ → Act C Bool
  unfolding Maps.get stored_condition_met
  breakpoint_condition_met bp_id =
      asks (λ e. Maps.get bp_id e.breakpoint_conditions) >>= stored_condition_met

  unfoldable pub last_event_fails : Result ComError (Option ℕ) → Act C Bool
  unfolding breakpoint_condition_met
  last_event_fails (err x) = pure false
  last_event_fails (ok none) = pure false
  last_event_fails (ok (some bp_id)) = breakpoint_condition_met bp_id >>= λ met. pure (not met)

  -- Whether what stopped is a breakpoint whose condition is stored and does not hold.
  unfoldable pub condition_fails : Status → Act C Bool
  unfolding last_event_fails attempt
  condition_fails status = asks (λ e. is_empty e.breakpoint_conditions) >>= λ empty.
      if is_break status && not empty
      then (attempt dbg.last_event >>= λ last. last_event_fails last)
      else pure false

  -- The rest of a round, once it is known whether a condition failed: the program goes on, or the
  -- stop is the answer.
  unfoldable pub settled : Status → Bool → Act C (Option WaitResult)
  unfolding call build_stop_outcome
  settled status true =
      call "SetExecutionStatus(GO)" (dbg.set_execution_status Status.go) >> pure none
  settled status false = build_stop_outcome status >>= λ outcome. pure (some (event outcome))

  -- The rest of a round with the status of the event.
  unfoldable pub settle : Status → Act C (Option WaitResult)
  unfolding condition_fails settled
  settle status = if resumed status then pure none else (condition_fails status >>= settled status)

  unfoldable pub fired_round : Bool → Act C (Option WaitResult)
  unfolding call settle
  fired_round false = pure (some timed_out)
  fired_round true = call "GetExecutionStatus" dbg.get_execution_status >>= settle

  -- A round of the loop: its answer, or none where it goes on.
  unfoldable pub wait_round : ℕ → Act C (Option WaitResult)
  unfolding call fired_round
  wait_round timeout_ms = call "WaitForEvent" (dbg.wait_for_event timeout_ms) >>= fired_round

  unfoldable pub wait_loop : ℕ → ℕ → Act C WaitResult
  unfolding wait_round
  wait_loop zero timeout_ms e = none
  wait_loop (suc fuel) timeout_ms e =
      (wait_round timeout_ms >>= λ answer. answered answer (wait_loop fuel timeout_ms)) e

  unfoldable pub wait_for_event : ℕ → ℕ → Act C WaitResult
  unfolding wait_loop call
  wait_for_event fuel timeout_ms =
      call "QueryInterface(IDebugControl)" dbg.query_control >> wait_loop fuel timeout_ms
