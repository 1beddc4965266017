-- ===== src/Dbgeng/Engine/Conditions.antt =====
-- A breakpoint that is hit while its condition does not hold.
use debug_mcp.Prelude.{
  nat_eq, ◌==◌, ==_iff, ℕ, zero, suc, String, Bool, true, false, not, ◌&&◌, ◌||◌, Option, none,
  some, [], ◌∷◌, Result, ok, ◌≡◌, refl, ap, arith, is_empty, ◌<◌, ◌≢◌, inl, inr, err, Bool-cases,
}
use debug_mcp.Prelude.Maps
use debug_mcp.Core.Types.{StopOutcome}
use debug_mcp.Dbgeng.Error.{ComError, EngineError}
use debug_mcp.Dbgeng.Callbacks.{Status}
use debug_mcp.Dbgeng.Com.{Com, Texts}
use debug_mcp.Dbgeng.Engine.{Engine, Act, pure, attempt, call}
use debug_mcp.Dbgeng.Engine.Rules.{
  Any, Partly, Post, Ends, Holding, Keeps, after, chain, next-Ends, call-Ends, call-Keeps,
}
use debug_mcp.Dbgeng.Engine.Ending.{IsFinite, wait_for_event-ne-none}
use debug_mcp.Dbgeng.Engine.Wait.{
  WaitResult, event, timed_out, resumed, condition_expr, condition_holds, build_stop_outcome,
  stored_condition_met, breakpoint_condition_met, last_event_fails, condition_fails, settled,
  settle, fired_round, answered, wait_round, wait_loop, wait_for_event,
}

abbrev says_break : Result ComError Status → Bool
says_break (ok Status.break) = true
says_break r = false

abbrev says_hit : ℕ → Result ComError (Option ℕ) → Bool
says_hit id (ok (some n)) = n == id
says_hit id r = false

module _ (texts : Texts) {C : Type 0} (dbg : Com C) (id : ℕ) (condition : String) where
  -- The condition of the breakpoint is stored.
  abbrev pub Stored : Engine C → Type 0
  Stored e = Maps.get id e.breakpoint_conditions ≡ some condition

  abbrev asked : C → C
  asked c = (dbg.get_execution_status c).1

  abbrev looked : C → C
  looked c = (dbg.last_event (asked c)).1

  abbrev unmet : C → Bool
  unmet c =
      texts.has_nul (condition_expr condition)
      || not (
          condition_holds (texts.byte_length (condition_expr condition))
            (dbg.evaluate (condition_expr condition) c).0.0)

  -- DbgEng, asked behind an event: the program broke, what it hit last is this breakpoint, and the
  -- condition cannot be evaluated, as a whole, to other than 0.
  abbrev pub false_hit : C → Bool
  false_hit c =
      says_break (dbg.get_execution_status c).0.0
      && (says_hit id (dbg.last_event (asked c)).0.0 && unmet (looked c))

  -- The stop is what the code makes of an event that DbgEng had and that is not such a hit.
  pub record Reported (ms : ℕ) (o : StopOutcome) (e' : Engine C) : Type 0 where
    pub before : Engine C
    pub stored : Stored before
    pub had : (dbg.wait_for_event ms before.world).0.0 ≡ ok true
    pub other : false_hit (dbg.wait_for_event ms before.world).1 ≡ false
    pub made :
        fired_round texts dbg true (after (dbg.wait_for_event ms) before)
        ≡ some (ok (some (event o)), e')

  met-false :
      (e : Engine C)
      → Stored e
      → unmet e.world ≡ true
      → Ends Partly (Holding Stored (λ met. met ≡ false)) (breakpoint_condition_met texts dbg id e)
  unfolding breakpoint_condition_met stored_condition_met attempt
  met-false e h fails = ground (arith, h, fails)

  last-fails :
      (e : Engine C) (last : Result ComError (Option ℕ))
      → last ≡ ok (some id)
      → Stored e
      → unmet e.world ≡ true
      → Ends Partly (Holding Stored (λ fails. fails ≡ true)) (last_event_fails texts dbg last e)
  unfolding last_event_fails
  last-fails e last same h fails = rw same (
      next-Ends Partly (Holding Stored (λ met. met ≡ false))
        (Holding Stored (λ fails. fails ≡ true)) (breakpoint_condition_met texts dbg id e)
        (λ met. pure (not met)) (met-false e h fails) (λ met e' p. (p.0, ap not p.1)) λ x e' p. p)

  stored-some : (m : Maps.Dict ℕ String) → Maps.get id m ≡ some condition → is_empty m ≡ false
  unfolding Maps.get
  stored-some [] h = cc
  stored-some (p ∷ m) h = refl

  fails-true :
      (e : Engine C)
      → Stored e
      → (dbg.last_event e.world).0.0 ≡ ok (some id)
      → unmet (dbg.last_event e.world).1 ≡ true
      → Ends Partly
          (Holding Stored (λ fails. fails ≡ true))
          (condition_fails texts dbg Status.break e)
  unfolding condition_fails attempt
  fails-true e h was fails =
      rw (stored-some e.breakpoint_conditions h)
        (last-fails (after dbg.last_event e) (dbg.last_event e.world).0.0 was h fails)

  -- What a round answers is not a stop.
  abbrev Unanswered : Option WaitResult → Type 0
  Unanswered none = Unit {0}
  Unanswered (some (event o)) = ⊥
  Unanswered (some timed_out) = Unit {0}

  resumed-again :
      (fails : Bool)
      → fails ≡ true
      → Keeps Partly Stored Unanswered (settled texts dbg Status.break fails)
  unfolding settled
  resumed-again false p = cc
  resumed-again true p =
      chain Partly Stored Any Unanswered
        (call "SetExecutionStatus(GO)" (dbg.set_execution_status Status.go)) (λ done. pure none)
        (call-Keeps Partly Stored Any "SetExecutionStatus(GO)" (dbg.set_execution_status Status.go)
          (λ e h. h) λ e a h eq. tt)
        λ done p e h. (h, tt)

  settle-Unanswered :
      (e : Engine C)
      → Stored e
      → (dbg.last_event e.world).0.0 ≡ ok (some id)
      → unmet (dbg.last_event e.world).1 ≡ true
      → Ends Partly (Holding Stored Unanswered) (settle texts dbg Status.break e)
  unfolding settle
  settle-Unanswered e h was fails =
      next-Ends Partly (Holding Stored (λ fails. fails ≡ true)) (Holding Stored Unanswered)
        (condition_fails texts dbg Status.break e) (settled texts dbg Status.break)
        (fails-true e h was fails) (λ fails e' p. resumed-again fails p.1 e' p.0) λ x e' p. p

  says_break_lem : (r : Result ComError Status) → says_break r ≡ true → r ≡ ok Status.break
  says_break_lem r h = ground (arith, h)

  says_hit_lem : (r : Result ComError (Option ℕ)) → says_hit id r ≡ true → r ≡ ok (some id)
  says_hit_lem (err x) h = cc
  says_hit_lem (ok none) h = cc
  says_hit_lem (ok (some n)) h = ap (λ n. ok (some n)) ((==_iff n id).0 h)

  both_hold : (a b : Bool) → (a && b) ≡ true → (a ≡ true) × (b ≡ true)
  both_hold a b h = ground (arith, h)

  abbrev Broke : Engine C → Post C Status
  Broke e (err x) e' = Stored e'
  Broke e (ok status) e' = (status ≡ Status.break) × (e' ≡ after dbg.get_execution_status e)

  broke-status :
      (r : Result ComError Status) (status : Status)
      → says_break r ≡ true
      → r ≡ ok status
      → status ≡ Status.break
  broke-status r status h eq = ground (arith, h, eq)

  -- Such a hit is not answered by a stop.
  fired_round-Unanswered :
      (e : Engine C)
      → Stored e
      → false_hit e.world ≡ true
      → Ends Partly (Holding Stored Unanswered) (fired_round texts dbg true e)
  unfolding fired_round
  fired_round-Unanswered e h hit =
      let (broke, rest) =
        both_hold (says_break (dbg.get_execution_status e.world).0.0)
          (says_hit id (dbg.last_event (asked e.world)).0.0 && unmet (looked e.world)) hit in
      let (was, fails) =
        both_hold (says_hit id (dbg.last_event (asked e.world)).0.0) (unmet (looked e.world))
          rest in
      next-Ends Partly (Broke e) (Holding Stored Unanswered)
        (call "GetExecutionStatus" dbg.get_execution_status e) (settle texts dbg)
        (call-Ends Partly (Broke e) "GetExecutionStatus" dbg.get_execution_status e
          (λ status eq. (broke-status (dbg.get_execution_status e.world).0.0 status broke eq, refl))
          λ x. h)
        (λ status e1 p.
          rw (p.0, p.1)
            (settle-Unanswered (after dbg.get_execution_status e) h
              (says_hit_lem (dbg.last_event (asked e.world)).0.0 was) fails))
        λ x e1 p. p

  settled-Stored :
      (status : Status) (fails : Bool) → Keeps Partly Stored Any (settled texts dbg status fails)
  unfolding settled build_stop_outcome call attempt
  settled-Stored status fails e h = ground (arith, h)

  condition_fails-Stored :
      (status : Status) → Keeps Partly Stored Any (condition_fails texts dbg status)
  unfolding condition_fails last_event_fails breakpoint_condition_met stored_condition_met attempt
  condition_fails-Stored status e h = ground (arith, h)

  settle-Stored : (status : Status) → Keeps Partly Stored Any (settle texts dbg status)
  unfolding settle
  settle-Stored status e h = elim (Bool-cases (resumed status)) [
    | inl running ↦ rw running (h, tt)
    | inr stopped ↦ rw stopped (
        chain Partly Stored Any Any (condition_fails texts dbg status) (settled texts dbg status)
          (condition_fails-Stored status) (λ fails p. settled-Stored status fails) e h)
  ]

  fired_round-Stored : Keeps Partly Stored Any (fired_round texts dbg true)
  unfolding fired_round
  fired_round-Stored =
      chain Partly Stored Any Any (call "GetExecutionStatus" dbg.get_execution_status)
        (settle texts dbg)
        (call-Keeps Partly Stored Any "GetExecutionStatus" dbg.get_execution_status (λ e h. h)
          λ e a h eq. tt)
        λ status p. settle-Stored status

  -- What holds behind a round: a stop is reported as it should be.
  abbrev Round : ℕ → Post C (Option WaitResult)
  Round ms (err x) e' = Unit {0}
  Round ms (ok none) e' = Stored e'
  Round ms (ok (some timed_out)) e' = Unit {0}
  Round ms (ok (some (event o))) e' = Reported ms o e'

  abbrev Wait : ℕ → Post C WaitResult
  Wait ms (err x) e' = Unit {0}
  Wait ms (ok timed_out) e' = Unit {0}
  Wait ms (ok (event o)) e' = Reported ms o e'

  Unanswered-Round :
      (ms : ℕ) (o : Option (Result EngineError (Option WaitResult) × Engine C))
      → Ends Partly (Holding Stored Unanswered) o
      → Ends Partly (Round ms) o
  Unanswered-Round ms none h = tt
  Unanswered-Round ms (some (err x, e)) h = tt
  Unanswered-Round ms (some (ok none, e)) h = h.0
  Unanswered-Round ms (some (ok (some (event o)), e)) h = absurd h.1
  Unanswered-Round ms (some (ok (some timed_out), e)) h = tt

  reported-Round :
      (ms : ℕ) (e : Engine C)
      → Stored e
      → (dbg.wait_for_event ms e.world).0.0 ≡ ok true
      → false_hit (dbg.wait_for_event ms e.world).1 ≡ false
      → (o : Option (Result EngineError (Option WaitResult) × Engine C))
      → fired_round texts dbg true (after (dbg.wait_for_event ms) e) ≡ o
      → Ends Partly (Holding Stored Any) o
      → Ends Partly (Round ms) o
  reported-Round ms e h had other none eq p = tt
  reported-Round ms e h had other (some (err x, e')) eq p = tt
  reported-Round ms e h had other (some (ok none, e')) eq p = p.0
  reported-Round ms e h had other (some (ok (some timed_out), e')) eq p = tt
  reported-Round ms e h had other (some (ok (some (event o)), e')) eq p = record {
    before = e;
    stored = h;
    had = had;
    other = other;
    made = eq;
  }

  fired-Round :
      (ms : ℕ) (e : Engine C)
      → Stored e
      → (fired : Bool) → (dbg.wait_for_event ms e.world).0.0 ≡ ok fired
      → Ends Partly (Round ms) (fired_round texts dbg fired (after (dbg.wait_for_event ms) e))
  unfolding fired_round
  fired-Round ms e h false had = tt
  fired-Round ms e h true had = elim (Bool-cases (false_hit (dbg.wait_for_event ms e.world).1)) [
    | inl hit ↦
        Unanswered-Round ms (fired_round texts dbg true (after (dbg.wait_for_event ms) e))
          (fired_round-Unanswered (after (dbg.wait_for_event ms) e) h hit)
    | inr other ↦
        reported-Round ms e h had other
          (fired_round texts dbg true (after (dbg.wait_for_event ms) e)) refl
          (fired_round-Stored (after (dbg.wait_for_event ms) e) h)
  ]

  abbrev Fired : ℕ → Engine C → Post C Bool
  Fired ms e (err x) e' = Unit {0}
  Fired ms e (ok fired) e' =
      ((dbg.wait_for_event ms e.world).0.0 ≡ ok fired) × (e' ≡ after (dbg.wait_for_event ms) e)

  round-Round :
      (ms : ℕ) (e : Engine C) → Stored e → Ends Partly (Round ms) (wait_round texts dbg ms e)
  unfolding wait_round
  round-Round ms e h =
      next-Ends Partly (Fired ms e) (Round ms) (call "WaitForEvent" (dbg.wait_for_event ms) e)
        (fired_round texts dbg)
        (call-Ends Partly (Fired ms e) "WaitForEvent" (dbg.wait_for_event ms) e
          (λ fired eq. (eq, refl)) λ x. tt)
        (λ fired e1 p. rw (p.1) (fired-Round ms e h fired p.0)) λ x e1 p. tt

  answered-Wait :
      (ms : ℕ) (answer : Option WaitResult) (rest : Act C WaitResult)
      → ((e : Engine C) → Stored e → Ends Partly (Wait ms) (rest e))
      → (e : Engine C) → Round ms (ok answer) e
      → Ends Partly (Wait ms) (answered answer rest e)
  answered-Wait ms none rest kept e p = kept e p
  answered-Wait ms (some (event o)) rest kept e p = p
  answered-Wait ms (some timed_out) rest kept e p = tt

  loop-Wait :
      (ms fuel : ℕ) (e : Engine C)
      → Stored e
      → Ends Partly (Wait ms) (wait_loop texts dbg fuel ms e)
  unfolding wait_loop
  loop-Wait ms zero e h = tt
  loop-Wait ms (suc fuel) e h =
      next-Ends Partly (Round ms) (Wait ms) (wait_round texts dbg ms e)
        (λ answer. answered answer (wait_loop texts dbg fuel ms)) (round-Round ms e h)
        (λ answer e1 p.
          answered-Wait ms answer (wait_loop texts dbg fuel ms) (loop-Wait ms fuel) e1 p)
        λ x e1 p. tt

  wait-Wait :
      (ms fuel : ℕ) (e : Engine C)
      → Stored e
      → Ends Partly (Wait ms) (wait_for_event texts dbg fuel ms e)
  unfolding wait_for_event
  wait-Wait ms fuel e h =
      next-Ends Partly (Holding Stored Any) (Wait ms)
        (call "QueryInterface(IDebugControl)" dbg.query_control e)
        (λ done. wait_loop texts dbg fuel ms)
        (call-Keeps Partly Stored Any "QueryInterface(IDebugControl)" dbg.query_control (λ e h. h)
          (λ e a h eq. tt) e h)
        (λ done e1 p. loop-Wait ms fuel e1 p.0) λ x e1 p. tt

  -- How a wait ends.
  pub data Ended (ms : ℕ) (o : Option (Result EngineError WaitResult × Engine C)) : Type 0 where
    by_error : (x : EngineError) (e' : Engine C) → o ≡ some (err x, e') → Ended ms o
    by_timeout : (e' : Engine C) → o ≡ some (ok timed_out, e') → Ended ms o
    by_stop :
        (outcome : StopOutcome) (e' : Engine C)
        → o ≡ some (ok (event outcome), e')
        → Reported ms outcome e'
        → Ended ms o

  ended :
      (ms : ℕ) (o : Option (Result EngineError WaitResult × Engine C))
      → o ≢ none
      → Ends Partly (Wait ms) o
      → Ended ms o
  ended ms none here p = absurd (here refl)
  ended ms (some (err x, e')) here p = by_error x e' refl
  ended ms (some (ok timed_out, e')) here p = by_timeout e' refl
  ended ms (some (ok (event outcome), e')) here p = by_stop outcome e' refl p

  -- While the condition of a breakpoint is stored, a wait with more fuel than DbgEng has events to
  -- come ends, whatever these events are: with an error, by its timeout, or with a stop, and a stop
  -- is what the code makes of an event that DbgEng had and that is no hit of that breakpoint with its
  -- condition not holding: such a hit never ends the wait as a stop.
  pub wait_for_event-false_hit :
      (rank : C → ℕ) (fuel ms : ℕ) (e : Engine C)
      → IsFinite rank dbg
      → rank e.world < fuel
      → Stored e
      → Ended ms (wait_for_event texts dbg fuel ms e)
  wait_for_event-false_hit rank fuel ms e finite enough h =
      ended ms (wait_for_event texts dbg fuel ms e)
        (wait_for_event-ne-none rank texts dbg finite ms fuel e enough) (wait-Wait ms fuel e h)
