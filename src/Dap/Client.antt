-- ===== src/Dap/Client.antt =====
-- crates/dap-client/src/client.rs: the requests of the client over what it shares with its read loop.
-- A request waits for its write and then for its answer; it is the parts between these waits.
pub mod Answered
use debug_mcp.Prelude.{
  is_some, ℕ, length, ℤ, String, Bool, true, false, not, ◌&&◌, ◌||◌, Option, none, some, List, [],
  ◌∷◌, any, eqb, if◌then◌else◌, Result, ok, err, nat_eq, int_eq, Dict,
}
use debug_mcp.Prelude.Maps
use debug_mcp.Core.Error.{BackendError}
use debug_mcp.Lldb.Requests.{Request}
use debug_mcp.Dap.StopWaiter.{Ticket}
use debug_mcp.Dap.Shared.{Shared, PendingResult, register_request, remove_pending}

abbrev pub set_seq : ℤ → Request → Request
set_seq seq request = record request { seq = seq }

-- Up to the write: the number and the receiver, and the request as it is written.
unfoldable pub begin_send : Request → Shared → (ℤ × Ticket × Request) × Shared
unfolding register_request
begin_send request s =
    let ((seq, ticket), s') = register_request s in ((seq, ticket, set_seq seq request), s')

-- Behind the write: the receiver to wait for, or the error, for which the entry is taken back.
unfoldable pub written :
    Result String (Unit {0}) → ℤ → Ticket → Shared → Result BackendError Ticket × Shared
unfolding remove_pending
written (err e) seq ticket s = (err (BackendError.send e), (remove_pending seq s).1)
written (ok done) seq ticket s = (ok ticket, s)

-- `send_async`, and `send` up to its wait for the answer.
unfoldable pub send_async :
    Result String (Unit {0}) → Request → Shared → Result BackendError Ticket × Shared
unfolding begin_send written
send_async write request s =
    let ((seq, ticket, sent), s') = begin_send request s in written write seq ticket s'

abbrev closed_or_waits : Bool → Option PendingResult
closed_or_waits true = none
closed_or_waits false = some (err BackendError.closed)

-- The end of the wait: the answer, nothing while the entry is there, and the error of a connection
-- that was closed where its sender is gone.
unfoldable pub answer_of : Ticket → Shared → Option PendingResult
unfolding Maps.get any
answer_of ticket s = elim (Maps.get ticket s.answers) [
  | some r ↦ some r
  | none ↦ closed_or_waits (any (λ t. eqb t ticket) (Maps.values s.pending))
]

-- The drop of a guard: `armed` is whether the request was not resolved.
unfoldable pub drop_guard : Bool → ℤ → Shared → Shared
unfolding remove_pending
drop_guard armed seq s = if armed then (remove_pending seq s).1 else s

unfoldable pub pending_len : Shared → ℕ
pending_len s = length s.pending

unfoldable pub has_pending : ℤ → Shared → Bool
unfolding Maps.contains_key
has_pending seq s = Maps.contains_key seq s.pending

abbrev is_waiter : Ticket → Option Ticket → Bool
is_waiter t none = false
is_waiter t (some u) = eqb u t

-- The end of `wait_initialized`, from what it began with: it had nothing to wait for, it was
-- signalled, or its sender is gone, dropped or replaced by that of another wait.
unfoldable pub init_over : Option Ticket → Shared → Bool
unfolding any
init_over none s = true
init_over (some t) s =
    any (λ u. eqb u t) s.initialized.signalled || not (is_waiter t s.initialized.waiter)

-- The condition on which the loop of `send_and_await_both` ends: the response, of the receiver `rx`,
-- and `initialized`.
unfoldable pub both_done : Ticket → Option Ticket → Shared → Bool
unfolding answer_of init_over
both_done rx init s = is_some (answer_of rx s) && init_over init s
