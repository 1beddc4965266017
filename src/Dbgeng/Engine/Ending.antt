-- ===== src/Dbgeng/Engine/Ending.antt =====
-- A wait comes back.
use debug_mcp.Prelude.{
  nat_eq, ℕ, zero, suc, ◌≤◌, ◌<◌, String, Bool, true, false, not, Option, none, some, Result, ok,
  err, ◌≡◌, ◌≢◌, arith, inl, inr, Bool-cases,
}
use debug_mcp.Prelude.Maps
use debug_mcp.Dbgeng.Error.{ComError, EngineError}
use debug_mcp.Dbgeng.Callbacks.{Status}
use debug_mcp.Dbgeng.Com.{Com, Texts, Called}
use debug_mcp.Dbgeng.Engine.{Engine, pure, attempt, call}
use debug_mcp.Dbgeng.Engine.Rules.{
  Any, Surely, Post, Ends, Holding, Keeps, after, next-Ends, call-Ends, chain, call-Keeps,
}
use debug_mcp.Dbgeng.Engine.Wait.{
  WaitResult, event, resumed, condition_expr, build_stop_outcome, stored_condition_met,
  breakpoint_condition_met, last_event_fails, condition_fails, settled, settle, fired_round,
  answered, wait_round, wait_loop, wait_for_event,
}

module _ {C : Type 0} (rank : C → ℕ) where
  abbrev Lasting : {A : Type 0} → Called C A → Type 0
  Lasting called = (c : C) → rank (called c).1 ≤ rank c

  -- `rank` bounds the events that are still to come: a wait that ends by one takes it away, and
  -- nothing else that a wait calls brings new ones.
  pub record IsFinite (dbg : Com C) : Type 0 where
    pub takes :
        (ms : ℕ) (c : C)
        → (dbg.wait_for_event ms c).0.0 ≡ ok true
        → rank (dbg.wait_for_event ms c).1 < rank c
    pub queries : Lasting dbg.query_control
    pub reads_status : Lasting dbg.get_execution_status
    pub reads_event : Lasting dbg.last_event
    pub reads_thread : Lasting dbg.current_thread
    pub evaluates : (text : String) → Lasting (dbg.evaluate text)
    pub resumes : (status : Status) → Lasting (dbg.set_execution_status status)

  abbrev Below : ℕ → Engine C → Type 0
  Below n e = rank e.world < n

  module _ (texts : Texts) (dbg : Com C) (finite : IsFinite dbg) (n : ℕ) where
    call-Below :
        {A : Type 0} (context : String) (called : Called C A)
        → Lasting called
        → Keeps Surely (Below n) Any (call context called)
    call-Below context called lasting =
        call-Keeps Surely (Below n) Any context called (λ e h. omega (arith, lasting e.world))
          λ e a h eq. tt

    build-Below :
        (status : Status) → Keeps Surely (Below n) Any (build_stop_outcome texts dbg status)
    unfolding build_stop_outcome attempt
    build-Below status e h = ground (arith, h, finite.reads_thread e.world)

    stored-Below :
        (stored : Option String)
        → Keeps Surely (Below n) Any (stored_condition_met texts dbg stored)
    unfolding stored_condition_met attempt
    stored-Below none e h = (h, tt)
    stored-Below (some condition) e h =
        ground (arith, h, finite.evaluates (condition_expr condition) e.world)

    last-Below :
        (last : Result ComError (Option ℕ))
        → Keeps Surely (Below n) Any (last_event_fails texts dbg last)
    unfolding last_event_fails breakpoint_condition_met
    last-Below (err x) e h = (h, tt)
    last-Below (ok none) e h = (h, tt)
    last-Below (ok (some id)) e h =
        chain Surely (Below n) Any Any
          (stored_condition_met texts dbg (Maps.get id e.breakpoint_conditions))
          (λ met. pure (not met)) (stored-Below (Maps.get id e.breakpoint_conditions))
          (λ met p e' h'. (h', tt)) e h

    condition-Below :
        (status : Status) → Keeps Surely (Below n) Any (condition_fails texts dbg status)
    unfolding condition_fails attempt
    condition-Below status e h = ground (
      arith,
      h,
      finite.reads_event e.world,
      λ (p : rank (dbg.last_event e.world).1 < n).
          last-Below (dbg.last_event e.world).0.0 (after dbg.last_event e) p,
    )

    settled-Below :
        (fails : Bool) (status : Status)
        → Keeps Surely (Below n) Any (settled texts dbg status fails)
    unfolding settled
    settled-Below true status =
        chain Surely (Below n) Any Any
          (call "SetExecutionStatus(GO)" (dbg.set_execution_status Status.go)) (λ done. pure none)
          (call-Below "SetExecutionStatus(GO)" (dbg.set_execution_status Status.go)
            (finite.resumes Status.go))
          λ done p e h. (h, tt)
    settled-Below false status =
        chain Surely (Below n) Any Any (build_stop_outcome texts dbg status)
          (λ outcome. pure (some (event outcome))) (build-Below status) λ o p e h. (h, tt)

    settle-Below : (status : Status) → Keeps Surely (Below n) Any (settle texts dbg status)
    unfolding settle
    settle-Below status e h = elim (Bool-cases (resumed status)) [
      | inl running ↦ rw running (h, tt)
      | inr stopped ↦ rw stopped (
          chain Surely (Below n) Any Any (condition_fails texts dbg status)
            (settled texts dbg status) (condition-Below status)
            (λ fails p. settled-Below fails status) e h)
    ]

    fired-Below : (fired : Bool) → Keeps Surely (Below n) Any (fired_round texts dbg fired)
    unfolding fired_round
    fired-Below false e h = (h, tt)
    fired-Below true e h =
        chain Surely (Below n) Any Any (call "GetExecutionStatus" dbg.get_execution_status)
          (settle texts dbg)
          (call-Below "GetExecutionStatus" dbg.get_execution_status finite.reads_status)
          (λ status p. settle-Below status) e h

  abbrev Left : ℕ → Post C Bool
  Left n (err x) e = Unit {0}
  Left n (ok false) e = Unit {0}
  Left n (ok true) e = Below n e

  -- A round that does not answer took an event away.
  abbrev Took : ℕ → Post C (Option WaitResult)
  Took n (err x) e = Unit {0}
  Took n (ok none) e = Below n e
  Took n (ok (some r)) e = Unit {0}

  abbrev Comes : {A : Type 0} → Post C A
  Comes r e = Unit {0}

  module _ (texts : Texts) (dbg : Com C) (finite : IsFinite dbg) (ms : ℕ) where
    took :
        (n : ℕ) (o : Option (Result EngineError (Option WaitResult) × Engine C))
        → Ends Surely (Holding (Below n) Any) o
        → Ends Surely (Took n) o
    took n none h = h
    took n (some (err x, e)) h = tt
    took n (some (ok none, e)) h = h.0
    took n (some (ok (some r), e)) h = tt

    fired-Took :
        (n : ℕ) (fired : Bool) (e : Engine C)
        → Left n (ok fired) e
        → Ends Surely (Took n) (fired_round texts dbg fired e)
    unfolding fired_round
    fired-Took n false e h = tt
    fired-Took n true e h =
        took n (fired_round texts dbg true e) (fired-Below texts dbg finite n true e h)

    waited-Left :
        (n : ℕ) (fired : Bool) (e : Engine C)
        → rank e.world < suc n
        → (dbg.wait_for_event ms e.world).0.0 ≡ ok fired
        → Left n (ok fired) (after (dbg.wait_for_event ms) e)
    waited-Left n false e h eq = tt
    waited-Left n true e h eq = omega (arith, finite.takes ms e.world eq)

    round-Took :
        (n : ℕ) (e : Engine C)
        → rank e.world < suc n
        → Ends Surely (Took n) (wait_round texts dbg ms e)
    unfolding wait_round
    round-Took n e h =
        next-Ends Surely (Left n) (Took n) (call "WaitForEvent" (dbg.wait_for_event ms) e)
          (fired_round texts dbg)
          (call-Ends Surely (Left n) "WaitForEvent" (dbg.wait_for_event ms) e
            (λ fired eq. waited-Left n fired e h eq) λ x. tt)
          (fired-Took n) λ x e' h'. tt

    rest_of_loop :
        (n : ℕ) (answer : Option WaitResult)
        → ((e : Engine C) → rank e.world < n → Ends Surely Comes (wait_loop texts dbg n ms e))
        → (e : Engine C) → Took n (ok answer) e
        → Ends Surely Comes (answered answer (wait_loop texts dbg n ms) e)
    rest_of_loop n none again e h = again e h
    rest_of_loop n (some r) again e h = tt

    loop-Comes :
        (fuel : ℕ) (e : Engine C)
        → rank e.world < fuel
        → Ends Surely Comes (wait_loop texts dbg fuel ms e)
    unfolding wait_loop
    loop-Comes zero e h = absurd (omega arith)
    loop-Comes (suc n) e h =
        next-Ends Surely (Took n) Comes (wait_round texts dbg ms e)
          (λ answer. answered answer (wait_loop texts dbg n ms)) (round-Took n e h)
          (λ answer. rest_of_loop n answer (loop-Comes n)) λ x e' h'. tt

    comes-ne-none :
        {A : Type 0} (o : Option (Result EngineError A × Engine C)) → Ends Surely Comes o → o ≢ none
    comes-ne-none none h = absurd h
    comes-ne-none (some x) h = cc

    -- A wait comes back, with a stop, a timeout or an error, as soon as its fuel exceeds the number of
    -- events that are still to come, however often it resumes a breakpoint whose condition fails.
    pub wait_for_event-ne-none :
        (fuel : ℕ) (e : Engine C) → rank e.world < fuel → wait_for_event texts dbg fuel ms e ≢ none
    unfolding wait_for_event
    wait_for_event-ne-none fuel e h = comes-ne-none _ (
        next-Ends Surely (Holding (Below fuel) Any) Comes
          (call "QueryInterface(IDebugControl)" dbg.query_control e)
          (λ done. wait_loop texts dbg fuel ms)
          (call-Below texts dbg finite fuel "QueryInterface(IDebugControl)" dbg.query_control
            finite.queries e h)
          (λ done e' h'. loop-Comes fuel e' h'.0) λ x e' h'. tt)
