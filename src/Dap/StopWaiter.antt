-- ===== src/Dap/StopWaiter.antt =====
-- crates/dap-client/src/stop_waiter.rs. A one-shot channel is known by a ticket, which `oneshot::channel`
-- gives out; what was sent on the channels is kept, oldest first. A send to a receiver that was dropped
-- is kept too, and nobody reads it.
pub mod SingleShot
use debug_mcp.Prelude.{ℕ, ◌+◌, ℤ, Option, none, some, List, [], ◌∷◌, ◌++◌}
use debug_mcp.Core.Types.{StopInfo, StopOutcome}
use debug_mcp.Dap.Wire.{StoppedEvent}

abbrev pub Ticket : Type 0
Ticket = ℕ

pub record StopWaiter : Type 0 where
  pub slot : Option Ticket
  pub next : Ticket
  pub sent : List (Ticket × StopOutcome)

abbrev pub new : StopWaiter
new = record { slot = none; next = 0; sent = [] }

-- The receiver, and the waiter with its sender in the slot.
unfoldable pub register : StopWaiter → Ticket × StopWaiter
register w = (w.next, record w { slot = some w.next; next = w.next + 1 })

send_to : Option Ticket → StopOutcome → StopWaiter → StopWaiter
send_to none outcome w = w
send_to (some t) outcome w = record w { slot = none; sent = w.sent ++ (t, outcome) ∷ [] }

unfoldable pub send : StopOutcome → StopWaiter → StopWaiter
unfolding send_to
send outcome w = send_to w.slot outcome w

abbrev pub stop_info_from_event : StoppedEvent → StopInfo
stop_info_from_event event = record {
  reason = event.body.reason;
  thread_id = event.body.thread_id;
  description = event.body.description;
  hit_breakpoint_ids = event.body.hit_breakpoint_ids;
}

unfoldable pub deliver : StoppedEvent → StopWaiter → StopWaiter
unfolding send
deliver event w = send (StopOutcome.stopped (stop_info_from_event event)) w

unfoldable pub deliver_exit : ℤ → StopWaiter → StopWaiter
unfolding send
deliver_exit exit_code w = send (StopOutcome.exited (some exit_code)) w

unfoldable pub cancel : StopWaiter → StopWaiter
unfolding send
cancel w = send StopOutcome.terminated w
