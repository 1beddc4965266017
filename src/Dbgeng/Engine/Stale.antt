-- ===== src/Dbgeng/Engine/Stale.antt =====
-- What a stop says of the breakpoints that were hit.
use debug_mcp.Prelude.{
  nat_eq, pos, ℕ, zero, suc, String, Bool, true, false, not, Option, none, some, List, [], ◌∷◌,
  Result, ok, err, ◌≡◌, arith, inl, inr, Bool-cases,
}
use mathlib.Core.Path.{subst}
use debug_mcp.Prelude.Maps
use debug_mcp.Core.Types.{StopOutcome, StepKind}
use debug_mcp.Dbgeng.Error.{ComError}
use debug_mcp.Dbgeng.Callbacks.{CallbackState, Event, Status, record_output, callback, callbacks}
use debug_mcp.Dbgeng.Com.{Com, Texts, Called}
use debug_mcp.Dbgeng.Engine.{Engine, Act, ◌>>=◌, ◌>>◌, pure, attempt, call}
use debug_mcp.Dbgeng.Engine.Rules.{Any, Partly, Ends, Holding, Keeps, after, chain, call-Keeps}
use debug_mcp.Dbgeng.Engine.Wait.{
  WaitResult, event, timed_out, resumed, condition_expr, build_stop_outcome, stored_condition_met,
  breakpoint_condition_met, last_event_fails, condition_fails, settled, settle, fired_round,
  answered, wait_round, wait_loop, wait_for_event, expected,
}
use debug_mcp.Dbgeng.Engine.Execution.{ensure_runnable, start_step, step}

abbrev SomeHit : ℕ → CallbackState → Type 0
SomeHit id st = st.last_breakpoint_id ≡ some id

-- The breakpoint that was hit last since the engine was created.
abbrev pub WasHit : {C : Type 0} → ℕ → Engine C → Type 0
WasHit id e = SomeHit id e.callback_state

-- A stop names this breakpoint as hit, and no other.
abbrev pub NamesHit : ℕ → StopOutcome → Type 0
NamesHit id (StopOutcome.stopped info) = info.hit_breakpoint_ids ≡ pos id ∷ []
NamesHit id (StopOutcome.exited code) = Unit {0}
NamesHit id StopOutcome.terminated = Unit {0}

-- Callbacks none of which is a breakpoint that is hit.
abbrev pub IsQuiet : List Event → Type 0
IsQuiet [] = Unit {0}
IsQuiet ((Event.output mask text) ∷ es) = IsQuiet es
IsQuiet ((Event.breakpoint hit offset) ∷ es) = ⊥
IsQuiet ((Event.exception code address first) ∷ es) = IsQuiet es
IsQuiet ((Event.exit_process code) ∷ es) = IsQuiet es
IsQuiet (Event.ignored ∷ es) = IsQuiet es

abbrev pub QuietCall : {C A : Type 0} → Called C A → Type 0
QuietCall {C} called = (c : C) → IsQuiet (called c).0.1

-- No breakpoint is hit in what a step calls.
pub record HitsNothing {C : Type 0} (dbg : Com C) : Type 0 where
  pub queries : QuietCall dbg.query_control
  pub waits : (ms : ℕ) → QuietCall (dbg.wait_for_event ms)
  pub reads_status : QuietCall dbg.get_execution_status
  pub reads_event : QuietCall dbg.last_event
  pub reads_thread : QuietCall dbg.current_thread
  pub evaluates : (text : String) → QuietCall (dbg.evaluate text)
  pub resumes : (status : Status) → QuietCall (dbg.set_execution_status status)
  pub runs : (shown : Bool) (command : String) → QuietCall (dbg.execute shown command)

callbacks-SomeHit :
    (id : ℕ) (es : List Event) (st : CallbackState)
    → IsQuiet es
    → SomeHit id st
    → SomeHit id (callbacks es st)
unfolding callbacks callback record_output
callbacks-SomeHit id [] st quiet h = h
callbacks-SomeHit id ((Event.output mask text) ∷ es) st quiet h =
    callbacks-SomeHit id es (callback (Event.output mask text) st).1 quiet (ground (arith, h))
callbacks-SomeHit id ((Event.breakpoint hit offset) ∷ es) st quiet h = absurd quiet
callbacks-SomeHit id ((Event.exception code address first) ∷ es) st quiet h =
    callbacks-SomeHit id es (callback (Event.exception code address first) st).1 quiet h
callbacks-SomeHit id ((Event.exit_process code) ∷ es) st quiet h =
    callbacks-SomeHit id es (callback (Event.exit_process code) st).1 quiet h
callbacks-SomeHit id (Event.ignored ∷ es) st quiet h = callbacks-SomeHit id es st quiet h

module _ {C A : Type 0} (id : ℕ) where
  after-hit :
      (called : Called C A) (e : Engine C)
      → QuietCall called
      → WasHit id e
      → WasHit id (after called e)
  after-hit called e quiet h =
      callbacks-SomeHit id (called e.world).0.1 e.callback_state (quiet e.world) h

  call-hit :
      (context : String) (called : Called C A)
      → QuietCall called
      → Keeps Partly (WasHit id) Any (call context called)
  call-hit context called quiet e h =
      call-Keeps Partly (WasHit id) Any context called (λ e h. after-hit called e quiet h)
        (λ e a h eq. tt) e h

module _ (texts : Texts) {C : Type 0} (dbg : Com C) (id : ℕ) (nothing : HitsNothing dbg) where
  build-hit :
      (status : Status)
      → Keeps Partly (WasHit id) (NamesHit id) (build_stop_outcome texts dbg status)
  unfolding build_stop_outcome attempt
  build-hit status e h = ground (arith, h, after-hit id dbg.current_thread e nothing.reads_thread h)

  stored-hit :
      (stored : Option String)
      → Keeps Partly (WasHit id) Any (stored_condition_met texts dbg stored)
  unfolding stored_condition_met attempt
  stored-hit none e h = (h, tt)
  stored-hit (some condition) e h = ground (
    arith,
    h,
    after-hit id (dbg.evaluate (condition_expr condition)) e
        (nothing.evaluates (condition_expr condition)) h,
  )

  last-hit :
      (last : Result ComError (Option ℕ))
      → Keeps Partly (WasHit id) Any (last_event_fails texts dbg last)
  unfolding last_event_fails breakpoint_condition_met
  last-hit (err x) e h = (h, tt)
  last-hit (ok none) e h = (h, tt)
  last-hit (ok (some bp)) e h =
      chain Partly (WasHit id) Any Any
        (stored_condition_met texts dbg (Maps.get bp e.breakpoint_conditions))
        (λ met. pure (not met)) (stored-hit (Maps.get bp e.breakpoint_conditions))
        (λ met p e' h'. (h', tt)) e h

  condition-hit :
      (status : Status) → Keeps Partly (WasHit id) Any (condition_fails texts dbg status)
  unfolding condition_fails attempt
  condition-hit status e h = ground (
    arith,
    h,
    last-hit (dbg.last_event e.world).0.0 (after dbg.last_event e)
        (after-hit id dbg.last_event e nothing.reads_event h),
  )

  -- What a round answers names a breakpoint, where it is a stop.
  abbrev Named : Option WaitResult → Type 0
  Named none = Unit {0}
  Named (some (event o)) = NamesHit id o
  Named (some timed_out) = Unit {0}

  abbrev NamedResult : WaitResult → Type 0
  NamedResult (event o) = NamesHit id o
  NamedResult timed_out = Unit {0}

  rest-hit :
      (fails : Bool) (status : Status)
      → Keeps Partly (WasHit id) Named (settled texts dbg status fails)
  unfolding settled
  rest-hit true status =
      chain Partly (WasHit id) Any Named
        (call "SetExecutionStatus(GO)" (dbg.set_execution_status Status.go)) (λ done. pure none)
        (call-hit id "SetExecutionStatus(GO)" (dbg.set_execution_status Status.go)
          (nothing.resumes Status.go))
        λ a p e h. (h, tt)
  rest-hit false status =
      chain Partly (WasHit id) (NamesHit id) Named (build_stop_outcome texts dbg status)
        (λ outcome. pure (some (event outcome))) (build-hit status) λ o p e h. (h, p)

  settle-hit : (status : Status) → Keeps Partly (WasHit id) Named (settle texts dbg status)
  unfolding settle
  settle-hit status e h = elim (Bool-cases (resumed status)) [
    | inl running ↦ rw running (h, tt)
    | inr stopped ↦ rw stopped (
        chain Partly (WasHit id) Any Named (condition_fails texts dbg status)
          (settled texts dbg status) (condition-hit status) (λ fails p. rest-hit fails status) e h)
  ]

  fired-hit : (fired : Bool) → Keeps Partly (WasHit id) Named (fired_round texts dbg fired)
  unfolding fired_round
  fired-hit false e h = (h, tt)
  fired-hit true e h =
      chain Partly (WasHit id) Any Named (call "GetExecutionStatus" dbg.get_execution_status)
        (settle texts dbg)
        (call-hit id "GetExecutionStatus" dbg.get_execution_status nothing.reads_status)
        (λ status p. settle-hit status) e h

  round-hit : (ms : ℕ) → Keeps Partly (WasHit id) Named (wait_round texts dbg ms)
  unfolding wait_round
  round-hit ms =
      chain Partly (WasHit id) Any Named (call "WaitForEvent" (dbg.wait_for_event ms))
        (fired_round texts dbg)
        (call-hit id "WaitForEvent" (dbg.wait_for_event ms) (nothing.waits ms))
        λ fired p. fired-hit fired

  answered-hit :
      (answer : Option WaitResult) (rest : Act C WaitResult)
      → Keeps Partly (WasHit id) NamedResult rest
      → Named answer
      → Keeps Partly (WasHit id) NamedResult (answered answer rest)
  answered-hit none rest kept p = kept
  answered-hit (some (event o)) rest kept p = λ e h. (h, p)
  answered-hit (some timed_out) rest kept p = λ e h. (h, tt)

  loop-hit : (fuel ms : ℕ) → Keeps Partly (WasHit id) NamedResult (wait_loop texts dbg fuel ms)
  unfolding wait_loop
  loop-hit zero ms e h = tt
  loop-hit (suc fuel) ms e h =
      chain Partly (WasHit id) Named NamedResult (wait_round texts dbg ms)
        (λ answer. answered answer (wait_loop texts dbg fuel ms)) (round-hit ms)
        (λ answer. answered-hit answer (wait_loop texts dbg fuel ms) (loop-hit fuel ms)) e h

  wait-hit : (fuel ms : ℕ) → Keeps Partly (WasHit id) NamedResult (wait_for_event texts dbg fuel ms)
  unfolding wait_for_event
  wait-hit fuel ms =
      chain Partly (WasHit id) Any NamedResult
        (call "QueryInterface(IDebugControl)" dbg.query_control)
        (λ done. wait_loop texts dbg fuel ms)
        (call-hit id "QueryInterface(IDebugControl)" dbg.query_control nothing.queries)
        λ done p. loop-hit fuel ms

  start-hit :
      (fuel : ℕ) (kind : StepKind) → Keeps Partly (WasHit id) Any (start_step texts dbg fuel kind)
  unfolding start_step
  start-hit fuel StepKind.over =
      call-hit id "SetExecutionStatus(STEP_OVER)" (dbg.set_execution_status Status.step_over)
        (nothing.resumes Status.step_over)
  start-hit fuel StepKind.into =
      call-hit id "SetExecutionStatus(STEP_INTO)" (dbg.set_execution_status Status.step_into)
        (nothing.resumes Status.step_into)
  start-hit fuel StepKind.out =
      call-hit id "Execute(gu)" (dbg.execute true "gu") (nothing.runs true "gu")

  expected-hit :
      (message : String) (result : WaitResult)
      → NamedResult result
      → Keeps Partly (WasHit id) (NamesHit id) (expected {C = C} message result)
  expected-hit message (event o) p = λ e h. (h, p)
  expected-hit message timed_out p = λ e h. h

  runnable-hit : Keeps Partly (WasHit id) Any (ensure_runnable {C = C})
  unfolding ensure_runnable
  runnable-hit e h = ground (arith, h)

  step-hit :
      (fuel : ℕ) (kind : StepKind)
      → Keeps Partly (WasHit id) (NamesHit id) (step texts dbg fuel kind)
  unfolding step
  step-hit fuel kind =
      chain Partly (WasHit id) Any (NamesHit id) (ensure_runnable >> start_step texts dbg fuel kind)
        (λ done. wait_for_event texts dbg fuel 10_000 >>= expected "step: timed out")
        (chain Partly (WasHit id) Any Any ensure_runnable (λ done. start_step texts dbg fuel kind)
          runnable-hit λ done p. start-hit fuel kind)
        λ done p.
          chain Partly (WasHit id) NamedResult (NamesHit id) (wait_for_event texts dbg fuel 10_000)
            (expected "step: timed out") (wait-hit fuel 10_000) (expected-hit "step: timed out")

  -- A step in which no breakpoint is hit, behind one that was, reports that old one, by its id and
  -- alone, as what was hit if it ends in a stop: nothing forgets it.
  pub step-NamesHit :
      (fuel : ℕ) (kind : StepKind) (e e' : Engine C) (o : StopOutcome)
      → WasHit id e
      → step texts dbg fuel kind e ≡ some (ok o, e')
      → NamesHit id o
  step-NamesHit fuel kind e e' o h ends =
      (subst (λ r. Ends (Unit {0}) (Holding (WasHit id) (NamesHit id)) r) ends
        (step-hit fuel kind e h)).1
