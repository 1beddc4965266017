-- ===== src/Dbgeng/Engine/Execution.antt =====
-- crates/dbgeng-sys/src/engine.rs: `go`, `step`, `break_in` and the interrupts of other threads. The
-- fuel is that of each wait, and of the polls of `go`.
use debug_mcp.Prelude.{
  ℕ, zero, suc, ◌+◌, Bool, true, false, not, ◌||◌, Option, none, some, ltb, if◌then◌else◌,
}
use debug_mcp.Core.Types.{StopOutcome, StepKind}
use debug_mcp.Dbgeng.Error.{EngineError}
use debug_mcp.Dbgeng.Callbacks.{Status}
use debug_mcp.Dbgeng.Com.{Com, Texts}
use debug_mcp.Dbgeng.Engine.{Act, ◌>>=◌, ◌>>◌, pure, fail, asks, call, outside, changes}
use debug_mcp.Dbgeng.Engine.Wait.{
  event, timed_out, expected, answered, with_reason, is_break, is_gone, build_stop_outcome,
  wait_for_event,
}

module _ {C : Type 0} where
  unfoldable pub ensure_runnable : Act C (Unit {0})
  ensure_runnable = asks (λ e. e.is_dump) >>= λ dump.
      if dump then fail (EngineError.engine "cannot continue a crash-dump session") else pure tt

module _ (texts : Texts) {C : Type 0} (dbg : Com C) (fuel : ℕ) where
  -- The flag as it is read: what another thread has asked for since is in it.
  unfoldable pub load_flag : Act C Bool
  load_flag = outside dbg.interrupted >>= λ asked.
      changes (λ e. record e { interrupt_flag = e.interrupt_flag || asked })
      >> asks (λ e. e.interrupt_flag)

  -- What was asked for before is forgotten.
  unfoldable pub reset_flag : Act C (Unit {0})
  reset_flag =
      outside dbg.interrupted >>= λ asked. changes (λ e. record e { interrupt_flag = false })

  -- A poll of `break_loop`: the stop, or none where the interrupt was asked for again.
  unfoldable pub break_poll : Act C (Option StopOutcome)
  unfolding wait_for_event call build_stop_outcome with_reason
  break_poll = wait_for_event texts dbg fuel 200 >>= λ result. elim result [
    | event o ↦ pure (some (with_reason "Execution paused" o))
    | timed_out ↦ call "GetExecutionStatus" dbg.get_execution_status >>= λ status.
        if is_break status || is_gone status
        then (build_stop_outcome texts dbg status >>= λ o.
            pure (some (with_reason "Execution paused" o)))
        else (call "SetInterrupt(ACTIVE)" dbg.set_interrupt >> pure none)
  ]

  unfoldable pub break_polls : ℕ → Act C StopOutcome
  unfolding break_poll
  break_polls zero = fail (EngineError.engine "break: timed out")
  break_polls (suc polls) = break_poll >>= λ answer. answered answer (break_polls polls)

  unfoldable pub break_loop : Act C StopOutcome
  unfolding call break_polls
  break_loop = call "SetInterrupt(ACTIVE)" dbg.set_interrupt >> break_polls 50

  unfoldable pub break_in : Act C StopOutcome
  unfolding ensure_runnable break_loop
  break_in = ensure_runnable >> break_loop

  -- The end of the polls: an interrupt that was asked for, or still running.
  unfoldable pub go_end : Act C (Option StopOutcome)
  unfolding load_flag break_loop
  go_end = load_flag >>= λ flag. if flag then (break_loop >>= λ o. pure (some o)) else pure none

  -- The loop up to the deadline, on fuel.
  unfoldable pub go_loop : ℕ → ℕ → Act C (Option StopOutcome)
  unfolding load_flag wait_for_event go_end
  go_loop zero deadline e = none
  go_loop (suc polls) deadline e =
      (outside dbg.now >>= λ t.
      (if ltb t deadline then (load_flag >>= λ flag. pure (not flag)) else pure false) >>= λ more.
      if more
      then (wait_for_event texts dbg fuel 200 >>= λ result. elim result [
        | event o ↦ pure (some o)
        | timed_out ↦ go_loop polls deadline
      ])
      else go_end)
        e

  unfoldable pub go : ℕ → Act C (Option StopOutcome)
  unfolding ensure_runnable reset_flag call go_loop
  go timeout_ms =
      ensure_runnable
      >> reset_flag
      >> call "SetExecutionStatus(GO)" (dbg.set_execution_status Status.go)
      >> (outside dbg.now >>= λ t. go_loop fuel (t + timeout_ms))

  unfoldable pub start_step : StepKind → Act C (Unit {0})
  unfolding call
  start_step StepKind.over =
      call "SetExecutionStatus(STEP_OVER)" (dbg.set_execution_status Status.step_over)
  start_step StepKind.into =
      call "SetExecutionStatus(STEP_INTO)" (dbg.set_execution_status Status.step_into)
  start_step StepKind.out = call "Execute(gu)" (dbg.execute true "gu")

  unfoldable pub step : StepKind → Act C StopOutcome
  unfolding ensure_runnable start_step wait_for_event
  step kind =
      ensure_runnable
      >> start_step kind
      >> (wait_for_event texts dbg fuel 10_000 >>= expected "step: timed out")
