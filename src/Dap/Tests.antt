-- ===== src/Dap/Tests.antt =====
-- The theorems on the client of the protocol at concrete streams and calls.
use debug_mcp.Prelude.{
  ◌+◌, ◌≤◌, pos, ◌≡◌, refl, true, false, none, some, List, [], ◌∷◌, ◌++◌, any, eqb, ok,
}
use debug_mcp.Prelude.Maps
use debug_mcp.Core.Error.{BackendError}
use debug_mcp.Dap.Wire.{DapMessage, Event}
use debug_mcp.Dap.StopWaiter
use debug_mcp.Dap.StopWaiter.{StopWaiter, register}
use debug_mcp.Dap.StopWaiter.SingleShot.{Producer, outcome_of, produce_all, register-produce_all}
use debug_mcp.Dap.Shared
use debug_mcp.Dap.Shared.{
  Shared, PendingResult, register_request, wait_initialized, dispatch_response,
}
use debug_mcp.Dap.Shared.Once
use debug_mcp.Dap.Shared.Once.{pending_times, answer_times, answered_once}
use debug_mcp.Dap.Client.{begin_send, answer_of, both_done}
use debug_mcp.Dap.Client.Answered.{Fresh, LeaveAll, begin_send-answer_of}
use debug_mcp.Lldb.Requests.{Request}
use debug_mcp.Dap.ReadLoop
use debug_mcp.Dap.ReadLoop.{ReadLoop}
use debug_mcp.Dap.ReadLoop.Recover.{last_code, is_initialized, run_lem, both_done-run}

abbrev launch_response : DapMessage
launch_response = DapMessage.response (record {
  seq = pos 1;
  ty = "response";
  request_seq = pos 1;
  success = true;
  command = "launch";
  message = "";
  body = none;
})

abbrev exit_event : DapMessage
exit_event = DapMessage.event (
    Event.exited
      (record { seq = pos 2; ty = "event"; event = "exited"; body = record { exit_code = pos 3 } }))

abbrev stream : List DapMessage
stream = launch_response ∷ exit_event ∷ DapMessage.event Event.terminated ∷ []

abbrev calls : List Once.Call
calls =
    Once.Call.registers
    ∷ Once.Call.responds (pos 1) launch_response
    ∷ Once.Call.cancels BackendError.closed
    ∷ []

-- The response reached the sender, whose number is 1 and whose receiver is the first.
answered_first : (Once.run calls Shared.new).answers ≡ (0, ok launch_response) ∷ []
unfolding Once.run Once.apply Shared.to_i64
answered_first = refl

without_initialized : any is_initialized stream ≡ false
unfolding any
without_initialized = refl

told_once : last_code stream none ≡ some (pos 3)
unfolding last_code
told_once = refl

register-produce_all_example :
    ((produce_all (Producer.exits (pos 3) ∷ Producer.cancels ∷ []) (register StopWaiter.new).1).sent
      ≡ StopWaiter.new.sent
        ++ ((register StopWaiter.new).0, outcome_of (Producer.exits (pos 3))) ∷ [])
    × ((produce_all
          (Producer.exits (pos 3) ∷ Producer.cancels ∷ [])
          (register StopWaiter.new).1).slot
        ≡ none)
    × ((register StopWaiter.new).1.slot ≡ some (register StopWaiter.new).0)
register-produce_all_example =
    register-produce_all (Producer.exits (pos 3)) (Producer.cancels ∷ []) StopWaiter.new

answered_once_example :
    pending_times 0 (Once.run calls Shared.new).pending
      + answer_times 0 (Once.run calls Shared.new).answers
    ≤ 1
answered_once_example = answered_once 0 calls

run_lem_example :
    ((ReadLoop.run stream "EOF" (ReadLoop.new Shared.new)).sinks.fired ≡ last_code stream none ∷ [])
    × ((ReadLoop.run stream "EOF" (ReadLoop.new Shared.new)).shared.pending ≡ [])
    × ((ReadLoop.run stream "EOF" (ReadLoop.new Shared.new)).shared.stop_waiter.slot ≡ none)
    × ((ReadLoop.run stream "EOF" (ReadLoop.new Shared.new)).close_state.closed ≡ true)
run_lem_example = run_lem stream "EOF" Shared.new

abbrev launch_request : Request
launch_request = record { seq = pos 0; ty = "request"; command = "launch"; arguments = none }

-- The launch was sent, and its sender waits.
abbrev launch_sent : Shared
launch_sent = (begin_send launch_request Shared.new).1

new-Fresh : Fresh Shared.new
unfolding Maps.get
new-Fresh = record { unused = λ q h. cc; unanswered = refl }

-- Another request is sent before the response comes.
others_left :
    LeaveAll (begin_send launch_request Shared.new).0.0 (Once.Call.registers ∷ []) launch_sent
unfolding begin_send register_request Shared.next_seq Shared.to_i64
others_left = ((λ h. cc), tt)

begin_send-answer_of_example :
    (answer_of
        (begin_send launch_request Shared.new).0.1
        (Once.run (Once.Call.registers ∷ []) launch_sent)
      ≡ none)
    × (answer_of (begin_send launch_request Shared.new).0.1 (
          Once.run
            (Once.Call.cancels BackendError.closed ∷ [])
            (dispatch_response
              (begin_send launch_request Shared.new).0.0
              launch_response
              (Once.run (Once.Call.registers ∷ []) launch_sent)).1)
        ≡ some (ok launch_response))
begin_send-answer_of_example =
    begin_send-answer_of launch_request Shared.new launch_response (Once.Call.registers ∷ [])
      (Once.Call.cancels BackendError.closed ∷ []) new-Fresh others_left

none_signalled :
    any (λ u. eqb u (begin_send launch_request Shared.new).1.next) Shared.new.initialized.signalled
    ≡ false
unfolding any
none_signalled = refl

-- The launch waits for `initialized` too.
abbrev launching : ReadLoop
launching = ReadLoop.new (wait_initialized launch_sent).1

both_done-run_example :
    ((r : PendingResult) × (answer_of
          (begin_send launch_request Shared.new).0.1
          (ReadLoop.run stream "EOF" launching).shared
        ≡ some r))
    × (both_done
          (begin_send launch_request Shared.new).0.1
          (wait_initialized launch_sent).0
          (ReadLoop.run stream "EOF" launching).shared
        ≡ false)
both_done-run_example =
    both_done-run stream "EOF" launch_request Shared.new without_initialized refl none_signalled
