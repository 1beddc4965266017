-- ===== src/Dap/ReadLoop.antt =====
-- crates/dap-client/src/read_loop.rs: the dispatch of the messages that are read, and the recovery when
-- the stream ends. What is printed to standard error is not modelled.
pub mod Recover
use debug_mcp.Prelude.{
  ℤ, String, Bool, true, false, Option, none, some, List, [], ◌∷◌, ◌++◌, if◌then◌else◌,
}
use debug_mcp.Core.Error.{BackendError}
use debug_mcp.Dap.Wire.{Event, DapMessage}
use debug_mcp.Dap.StopWaiter.{deliver, deliver_exit, cancel}
use debug_mcp.Dap.Shared.{
  Shared, dispatch_response, cancel_all_pending, signal_initialized, with_stop_waiter,
}

pub record OutputChunk : Type 0 where
  pub category : String
  pub text : String

-- `terminated` is whether the one-shot sender is still there; what the sinks were sent is kept.
pub record Sinks : Type 0 where
  pub output : List OutputChunk
  pub terminated : Bool
  pub last_exit_code : Option ℤ
  pub fired : List (Option ℤ)

pub record CloseState : Type 0 where
  pub closed : Bool
  pub error : Option String

pub record ReadLoop : Type 0 where
  pub shared : Shared
  pub sinks : Sinks
  pub close_state : CloseState

abbrev pub new : Shared → ReadLoop
new shared = record {
  shared = shared;
  sinks = record { output = []; terminated = true; last_exit_code = none; fired = [] };
  close_state = record { closed = false; error = none };
}

unfoldable pub fire_terminated : Sinks → Sinks
fire_terminated k =
    if k.terminated
    then record k { terminated = false; fired = k.fired ++ k.last_exit_code ∷ [] }
    else k

unfoldable pub record_exit : ℤ → Sinks → Sinks
record_exit code k = record k { last_exit_code = some code }

unfoldable pub close_once : String → CloseState → Bool × CloseState
close_once e c = if c.closed then (false, c) else (true, record { closed = true; error = some e })

abbrev with_shared : Shared → ReadLoop → ReadLoop
with_shared s l = record l { shared = s }

abbrev with_sinks : Sinks → ReadLoop → ReadLoop
with_sinks k l = record l { sinks = k }

unfoldable pub dispatch_event : Event → ReadLoop → ReadLoop
unfolding deliver deliver_exit cancel with_stop_waiter signal_initialized record_exit
    fire_terminated
dispatch_event (Event.stopped stopped) l =
    with_shared (with_stop_waiter (deliver stopped l.shared.stop_waiter) l.shared) l
dispatch_event Event.initialized l = with_shared (signal_initialized l.shared) l
dispatch_event (Event.output o) l =
    with_sinks
      (record l.sinks {
        output = l.sinks.output ++ record { category = o.body.category; text = o.body.output } ∷ [];
      })
      l
dispatch_event (Event.exited e) l =
    with_shared (with_stop_waiter (deliver_exit e.body.exit_code l.shared.stop_waiter) l.shared)
      (with_sinks (record_exit e.body.exit_code l.sinks) l)
dispatch_event Event.terminated l =
    with_shared (with_stop_waiter (cancel l.shared.stop_waiter) l.shared)
      (with_sinks (fire_terminated l.sinks) l)
dispatch_event other l = l

unfoldable pub dispatch : DapMessage → ReadLoop → ReadLoop
unfolding dispatch_event dispatch_response
dispatch (DapMessage.event e) l = dispatch_event e l
dispatch (DapMessage.response r) l =
    with_shared (dispatch_response r.request_seq (DapMessage.response r) l.shared).1 l
dispatch (DapMessage.other envelope) l = l

unfoldable pub recover : String → ReadLoop → ReadLoop
unfolding close_once cancel_all_pending cancel with_stop_waiter fire_terminated
recover e l =
    let s = cancel_all_pending BackendError.closed l.shared in
    record {
      shared = with_stop_waiter (cancel s.stop_waiter) s;
      sinks = fire_terminated l.sinks;
      close_state = (close_once e l.close_state).1;
    }

-- `run` on a stream of messages that then ends.
unfoldable pub run : List DapMessage → String → ReadLoop → ReadLoop
unfolding dispatch recover
run [] e l = recover e l
run (m ∷ ms) e l = run ms e (dispatch m l)
