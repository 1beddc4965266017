-- ===== src/Dap/ReadLoop/Recover.antt =====
-- What the end of the stream leaves: of the requests, the stop waiter, the session's end, and of the
-- wait for `initialized`.
use debug_mcp.Prelude.{
  ℤ, String, ◌≡◌, refl, ◌∙◌, inl, inr, Bool, true, false, Option, none, some, List, [], ◌∷◌, ◌++◌,
  arith, any, eqb, Bool-cases, Option-cases, err, nat_eq,
}
use debug_mcp.Core.Types.{StopOutcome}
use debug_mcp.Dap.Wire.{DapMessage, Event}
use debug_mcp.Dap.StopWaiter.{Ticket, cancel}
use debug_mcp.Dap.StopWaiter.SingleShot.{send-slot}
use debug_mcp.Dap.Shared.{
  Shared, PendingResult, cancel_all_pending, with_stop_waiter, wait_initialized, register_request,
  register_pending, next_seq,
}
use debug_mcp.Dap.Shared.Once.{dispatch_response-initialized}
use debug_mcp.Prelude.Maps
use debug_mcp.Core.Error.{BackendError}
use debug_mcp.Lldb.Requests.{Request}
use debug_mcp.Dap.Client.{begin_send, answer_of, init_over, both_done}
use debug_mcp.Dap.ReadLoop.{
  ReadLoop, new, recover, run, dispatch, dispatch_event, fire_terminated, record_exit, close_once,
}

-- The exit code that stands when the end of the debuggee is first told, by the adapter or by the end of
-- the stream.
unfoldable pub last_code : List DapMessage → Option ℤ → Option ℤ
last_code [] code = code
last_code ((DapMessage.response r) ∷ ms) code = last_code ms code
last_code ((DapMessage.other o) ∷ ms) code = last_code ms code
last_code ((DapMessage.event Event.initialized) ∷ ms) code = last_code ms code
last_code ((DapMessage.event (Event.stopped ev)) ∷ ms) code = last_code ms code
last_code ((DapMessage.event (Event.output ev)) ∷ ms) code = last_code ms code
last_code ((DapMessage.event (Event.exited ev)) ∷ ms) code = last_code ms (some ev.body.exit_code)
last_code ((DapMessage.event Event.terminated) ∷ ms) code = code
last_code ((DapMessage.event Event.thread) ∷ ms) code = last_code ms code
last_code ((DapMessage.event Event.breakpoint) ∷ ms) code = last_code ms code
last_code ((DapMessage.event Event.process) ∷ ms) code = last_code ms code
last_code ((DapMessage.event Event.continued) ∷ ms) code = last_code ms code
last_code ((DapMessage.event Event.module_event) ∷ ms) code = last_code ms code
last_code ((DapMessage.event Event.capabilities) ∷ ms) code = last_code ms code

run-silent :
    (ms : List DapMessage) (e : String) (l : ReadLoop)
    → l.sinks.terminated ≡ false
    → (run ms e l).sinks.fired ≡ l.sinks.fired
unfolding run recover dispatch dispatch_event fire_terminated record_exit
run-silent [] e l h = ground arith
run-silent ((DapMessage.response r) ∷ ms) e l h =
    run-silent ms e (dispatch (DapMessage.response r) l) (ground arith) ∙ ground arith
run-silent ((DapMessage.other o) ∷ ms) e l h =
    run-silent ms e (dispatch (DapMessage.other o) l) (ground arith) ∙ ground arith
run-silent ((DapMessage.event Event.initialized) ∷ ms) e l h =
    run-silent ms e (dispatch (DapMessage.event Event.initialized) l) (ground arith) ∙ ground arith
run-silent ((DapMessage.event (Event.stopped ev)) ∷ ms) e l h =
    run-silent ms e (dispatch (DapMessage.event (Event.stopped ev)) l) (ground arith) ∙ ground arith
run-silent ((DapMessage.event (Event.output ev)) ∷ ms) e l h =
    run-silent ms e (dispatch (DapMessage.event (Event.output ev)) l) (ground arith) ∙ ground arith
run-silent ((DapMessage.event (Event.exited ev)) ∷ ms) e l h =
    run-silent ms e (dispatch (DapMessage.event (Event.exited ev)) l) (ground arith) ∙ ground arith
run-silent ((DapMessage.event Event.terminated) ∷ ms) e l h =
    run-silent ms e (dispatch (DapMessage.event Event.terminated) l) (ground arith) ∙ ground arith
run-silent ((DapMessage.event Event.thread) ∷ ms) e l h =
    run-silent ms e (dispatch (DapMessage.event Event.thread) l) (ground arith) ∙ ground arith
run-silent ((DapMessage.event Event.breakpoint) ∷ ms) e l h =
    run-silent ms e (dispatch (DapMessage.event Event.breakpoint) l) (ground arith) ∙ ground arith
run-silent ((DapMessage.event Event.process) ∷ ms) e l h =
    run-silent ms e (dispatch (DapMessage.event Event.process) l) (ground arith) ∙ ground arith
run-silent ((DapMessage.event Event.continued) ∷ ms) e l h =
    run-silent ms e (dispatch (DapMessage.event Event.continued) l) (ground arith) ∙ ground arith
run-silent ((DapMessage.event Event.module_event) ∷ ms) e l h =
    run-silent ms e (dispatch (DapMessage.event Event.module_event) l) (ground arith) ∙ ground arith
run-silent ((DapMessage.event Event.capabilities) ∷ ms) e l h =
    run-silent ms e (dispatch (DapMessage.event Event.capabilities) l) (ground arith) ∙ ground arith

run-fired :
    (ms : List DapMessage) (e : String) (l : ReadLoop)
    → l.sinks.terminated ≡ true
    → (run ms e l).sinks.fired ≡ l.sinks.fired ++ last_code ms l.sinks.last_exit_code ∷ []
unfolding run recover dispatch dispatch_event fire_terminated record_exit last_code
run-fired [] e l h = ground arith
run-fired ((DapMessage.response r) ∷ ms) e l h =
    run-fired ms e (dispatch (DapMessage.response r) l) h
run-fired ((DapMessage.other o) ∷ ms) e l h = run-fired ms e (dispatch (DapMessage.other o) l) h
run-fired ((DapMessage.event Event.initialized) ∷ ms) e l h =
    run-fired ms e (dispatch (DapMessage.event Event.initialized) l) h
run-fired ((DapMessage.event (Event.stopped ev)) ∷ ms) e l h =
    run-fired ms e (dispatch (DapMessage.event (Event.stopped ev)) l) h
run-fired ((DapMessage.event (Event.output ev)) ∷ ms) e l h =
    run-fired ms e (dispatch (DapMessage.event (Event.output ev)) l) h
run-fired ((DapMessage.event (Event.exited ev)) ∷ ms) e l h =
    run-fired ms e (dispatch (DapMessage.event (Event.exited ev)) l) h
run-fired ((DapMessage.event Event.terminated) ∷ ms) e l h =
    run-silent ms e (dispatch (DapMessage.event Event.terminated) l) (ground arith) ∙ ground arith
run-fired ((DapMessage.event Event.thread) ∷ ms) e l h =
    run-fired ms e (dispatch (DapMessage.event Event.thread) l) h
run-fired ((DapMessage.event Event.breakpoint) ∷ ms) e l h =
    run-fired ms e (dispatch (DapMessage.event Event.breakpoint) l) h
run-fired ((DapMessage.event Event.process) ∷ ms) e l h =
    run-fired ms e (dispatch (DapMessage.event Event.process) l) h
run-fired ((DapMessage.event Event.continued) ∷ ms) e l h =
    run-fired ms e (dispatch (DapMessage.event Event.continued) l) h
run-fired ((DapMessage.event Event.module_event) ∷ ms) e l h =
    run-fired ms e (dispatch (DapMessage.event Event.module_event) l) h
run-fired ((DapMessage.event Event.capabilities) ∷ ms) e l h =
    run-fired ms e (dispatch (DapMessage.event Event.capabilities) l) h

recover-closed :
    (e : String) (l : ReadLoop)
    → ((recover e l).shared.pending ≡ [])
      × ((recover e l).shared.stop_waiter.slot ≡ none)
      × ((recover e l).close_state.closed ≡ true)
unfolding recover cancel_all_pending with_stop_waiter cancel close_once
recover-closed e l = (refl, send-slot StopOutcome.terminated l.shared.stop_waiter, ground arith)

run-closed :
    (ms : List DapMessage) (e : String) (l : ReadLoop)
    → ((run ms e l).shared.pending ≡ [])
      × ((run ms e l).shared.stop_waiter.slot ≡ none)
      × ((run ms e l).close_state.closed ≡ true)
unfolding run
run-closed [] e l = recover-closed e l
run-closed (m ∷ ms) e l = run-closed ms e (dispatch m l)

-- On a new read loop, whatever the stream has before it ends, the end of the debuggee is told exactly
-- once, with the exit code that stands when it is first told; behind the stream no request is pending,
-- no stop is waited for, and the loop is closed.
pub run_lem :
    (ms : List DapMessage) (e : String) (shared : Shared)
    → ((run ms e (new shared)).sinks.fired ≡ last_code ms none ∷ [])
      × ((run ms e (new shared)).shared.pending ≡ [])
      × ((run ms e (new shared)).shared.stop_waiter.slot ≡ none)
      × ((run ms e (new shared)).close_state.closed ≡ true)
run_lem ms e shared =
    let (answered, free, closed) = run-closed ms e (new shared) in
    (run-fired ms e (new shared) refl, answered, free, closed)

abbrev pub is_initialized : DapMessage → Bool
is_initialized (DapMessage.event Event.initialized) = true
is_initialized m = false

dispatch-signalled :
    (m : DapMessage) (l : ReadLoop)
    → is_initialized m ≡ false
    → (dispatch m l).shared.initialized ≡ l.shared.initialized
unfolding dispatch dispatch_event with_stop_waiter
dispatch-signalled (DapMessage.response r) l h =
    dispatch_response-initialized r.request_seq (DapMessage.response r) l.shared
dispatch-signalled (DapMessage.other o) l h = refl
dispatch-signalled (DapMessage.event Event.initialized) l h = cc
dispatch-signalled (DapMessage.event (Event.stopped ev)) l h = refl
dispatch-signalled (DapMessage.event (Event.output ev)) l h = refl
dispatch-signalled (DapMessage.event (Event.exited ev)) l h = refl
dispatch-signalled (DapMessage.event Event.terminated) l h = refl
dispatch-signalled (DapMessage.event Event.thread) l h = refl
dispatch-signalled (DapMessage.event Event.breakpoint) l h = refl
dispatch-signalled (DapMessage.event Event.process) l h = refl
dispatch-signalled (DapMessage.event Event.continued) l h = refl
dispatch-signalled (DapMessage.event Event.module_event) l h = refl
dispatch-signalled (DapMessage.event Event.capabilities) l h = refl

run-signalled :
    (ms : List DapMessage) (e : String) (l : ReadLoop)
    → any is_initialized ms ≡ false
    → (run ms e l).shared.initialized ≡ l.shared.initialized
unfolding run recover cancel_all_pending with_stop_waiter any
run-signalled [] e l h = refl
run-signalled (m ∷ ms) e l h = elim (Bool-cases (is_initialized m)) [
  | inl signal ↦ ground (arith, signal, h)
  | inr other ↦
      run-signalled ms e (dispatch m l) (ground (arith, other, h)) ∙ dispatch-signalled m l other
]

-- Behind the end of a stream every receiver has an answer, if only that the connection is closed.
run-answered :
    (ms : List DapMessage) (e : String) (l : ReadLoop) (rx : Ticket)
    → (r : PendingResult) × (answer_of rx (run ms e l).shared ≡ some r)
unfolding answer_of any
run-answered ms e l rx = elim (Option-cases (Maps.get rx (run ms e l).shared.answers)) [
  | inr (r, found) ↦ (r, ground (arith, found))
  | inl absent ↦ (err BackendError.closed, ground (arith, absent, (run-closed ms e l).0))
]

begin_send-unfired :
    (request : Request) (s : Shared)
    → s.initialized.fired ≡ false
    → (begin_send request s).1.initialized.fired ≡ false
unfolding begin_send register_request register_pending next_seq
begin_send-unfired request s h = h

begin_send-unsignalled :
    (request : Request) (s : Shared)
    → any (λ t. eqb t (begin_send request s).1.next) s.initialized.signalled ≡ false
    → any (λ t. eqb t (begin_send request s).1.next) (begin_send request s).1.initialized.signalled
      ≡ false
unfolding begin_send register_request register_pending next_seq
begin_send-unsignalled request s h = h

waits_on :
    (rx : Ticket) (s' s : Shared)
    → s'.initialized ≡ (wait_initialized s).1.initialized
    → s.initialized.fired ≡ false
    → any (λ t. eqb t s.next) s.initialized.signalled ≡ false
    → both_done rx (wait_initialized s).0 s' ≡ false
unfolding both_done init_over wait_initialized
waits_on rx s' s same unfired fresh = ground (arith, same, unfired, fresh)

-- A request is sent and waits for its response and for `initialized`, which did not come before, and
-- a stream without it comes and ends: the response is there, an answer or an error, but the wait for
-- `initialized` is not over, so the request waits on behind the end of the stream.
pub both_done-run :
    (ms : List DapMessage) (e : String) (request : Request) (s : Shared)
    → any is_initialized ms ≡ false
    → s.initialized.fired ≡ false
    → any (λ t. eqb t (begin_send request s).1.next) s.initialized.signalled ≡ false
    → ((r : PendingResult) × (answer_of
            (begin_send request s).0.1
            (run ms e (new (wait_initialized (begin_send request s).1).1)).shared
          ≡ some r))
      × (both_done
            (begin_send request s).0.1
            (wait_initialized (begin_send request s).1).0
            (run ms e (new (wait_initialized (begin_send request s).1).1)).shared
          ≡ false)
unfolding both_done
both_done-run ms e request s silent before fresh =
    let s1 = (begin_send request s).1 in
    let l = new (wait_initialized s1).1 in
    (
      run-answered ms e l (begin_send request s).0.1,
      waits_on (begin_send request s).0.1 (run ms e l).shared s1 (run-signalled ms e l silent)
          (begin_send-unfired request s before) (begin_send-unsignalled request s fresh),
    )
