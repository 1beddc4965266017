-- ===== src/Dap/Shared.antt =====
-- crates/dap-client/src/client.rs: what the client and its read loop share. Each function takes its
-- lock once and is one step; a request that is sent waits for its write in between, so it is the parts
-- `register_request` and, if the write fails, `remove_pending`. A one-shot channel is known by a
-- ticket, and what was sent on the channels is kept, oldest first.
pub mod Once
use debug_mcp.Prelude.{
  ℕ, ◌+◌, ◌-◌, ◌%◌, ◌^◌, ℤ, pos, negsuc, Bool, true, false, Option, none, some, List, [], ◌∷◌, ◌++◌,
  map, Dict, ltb, if◌then◌else◌, Result, ok, err, int_eq,
}
use debug_mcp.Prelude.Maps
use debug_mcp.Core.Error.{BackendError}
use debug_mcp.Dap.Wire.{DapMessage}
use debug_mcp.Dap.StopWaiter
use debug_mcp.Dap.StopWaiter.{StopWaiter, Ticket}

abbrev pub PendingResult : Type 0
PendingResult = Result BackendError DapMessage

pub record InitializedSignal : Type 0 where
  pub fired : Bool
  pub waiter : Option Ticket
  pub signalled : List Ticket

-- `seq` has the 64 bits of the counter.
pub record Shared : Type 0 where
  pub seq : ℕ
  pub pending : Dict ℤ Ticket
  pub next : Ticket
  pub answers : List (Ticket × PendingResult)
  pub stop_waiter : StopWaiter
  pub initialized : InitializedSignal

abbrev pub new : Shared
new = record {
  seq = 0;
  pending = [];
  next = 0;
  answers = [];
  stop_waiter = StopWaiter.new;
  initialized = record { fired = false; waiter = none; signalled = [] };
}

-- Two's complement: the `i64` of 64 bits.
unfoldable pub to_i64 : ℕ → ℤ
to_i64 bits = if ltb bits (2 ^ 63) then pos bits else negsuc (2 ^ 64 - 1 - bits)

-- `fetch_add(1) + 1`
unfoldable pub next_seq : Shared → ℤ × Shared
unfolding to_i64
next_seq s = let bits = (s.seq + 1) % 2 ^ 64 in (to_i64 bits, record s { seq = bits })

unfoldable pub register_pending : ℤ → Shared → Ticket × Shared
unfolding Maps.insert
register_pending seq s =
    (s.next, record s { pending = Maps.insert seq s.next s.pending; next = s.next + 1 })

-- The first part of `send` and of `send_async_with_seq`: the number, and the receiver.
unfoldable pub register_request : Shared → (ℤ × Ticket) × Shared
unfolding next_seq register_pending
register_request s =
    let (seq, s') = next_seq s in
    let (ticket, s'') = register_pending seq s' in ((seq, ticket), s'')

-- Also the drop of an armed `AbortGuard`.
unfoldable pub remove_pending : ℤ → Shared → Option Ticket × Shared
unfolding Maps.get Maps.remove
remove_pending seq s = (Maps.get seq s.pending, record s { pending = Maps.remove seq s.pending })

unfoldable pub answer : Ticket → PendingResult → Shared → Shared
answer ticket result s = record s { answers = s.answers ++ (ticket, result) ∷ [] }

unfoldable pub answered : Option Ticket → DapMessage → Shared → Bool × Shared
unfolding answer
answered none message s = (false, s)
answered (some ticket) message s = (true, answer ticket (ok message) s)

unfoldable pub dispatch_response : ℤ → DapMessage → Shared → Bool × Shared
unfolding remove_pending answered
dispatch_response seq message s =
    let (ticket, s') = remove_pending seq s in answered ticket message s'

abbrev pub with_error : BackendError → Dict ℤ Ticket → List (Ticket × PendingResult)
with_error e [] = []
with_error e ((seq, ticket) ∷ m) = (ticket, err e) ∷ with_error e m

unfoldable pub cancel_all_pending : BackendError → Shared → Shared
cancel_all_pending e s = record s { pending = []; answers = s.answers ++ with_error e s.pending }

signal : Option Ticket → InitializedSignal → InitializedSignal
signal none sig = record sig { fired = true }
signal (some ticket) sig = record sig {
  fired = true;
  waiter = none;
  signalled = sig.signalled ++ ticket ∷ [];
}

unfoldable pub signal_initialized : Shared → Shared
unfolding signal
signal_initialized s = record s { initialized = signal s.initialized.waiter s.initialized }

-- `wait_initialized` up to its wait: nothing to wait for, or the receiver.
unfoldable pub wait_initialized : Shared → Option Ticket × Shared
wait_initialized s = if s.initialized.fired then (none, s) else (
  some s.next,
  record s { next = s.next + 1; initialized = record s.initialized { waiter = some s.next } },
)

unfoldable pub with_stop_waiter : StopWaiter → Shared → Shared
with_stop_waiter w s = record s { stop_waiter = w }
