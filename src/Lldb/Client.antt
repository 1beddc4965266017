-- ===== src/Lldb/Client.antt =====
-- The client of crates/dap-client/src/client.rs and stop_waiter.rs as the backend uses it, on a state
-- that is not known here: a request with its response, a request whose response is awaited later, the
-- wait for `initialized`, and the stop waiter. A wait that comes back is a step; an error is its text.
use debug_mcp.Prelude.{ℕ, String, Option, Result, ok, err}
use debug_mcp.Core.Types.{StopOutcome}
use debug_mcp.Dap.Wire.{DapMessage}
use debug_mcp.Lldb.Requests.{Request}

abbrev pub Ticket : Type 0
Ticket = ℕ

pub record DapClient (C : Type 0) : Type 0 where
  pub send : Request → C → Result String DapMessage × C
  pub send_async : Request → C → Result String Ticket × C
  pub wait_initialized : C → C
  pub response : Ticket → C → Option (Result String DapMessage) × C
  pub register : C → Ticket × C
  pub stop : Ticket → C → Option StopOutcome × C

-- The next step of a chain, on the state so far.
module _ {C E A B : Type 0} where
  abbrev pub and_then : Result E A × C → (A → C → Result E B × C) → Result E B × C
  and_then (err e, c) k = (err e, c)
  and_then (ok a, c) k = k a c
