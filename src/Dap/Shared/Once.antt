-- ===== src/Dap/Shared/Once.antt =====
-- Whatever the client and the read loop do, in any order, a request is answered at most once.
use debug_mcp.Prelude.{
  ℕ, ◌+◌, ◌≤◌, ◌<◌, ℤ, ◌≡◌, refl, ◌⊎◌, Option, none, some, List, [], ◌∷◌, ◌++◌, arith, eqb, Dict,
  if◌then◌else◌, ok, int_eq,
}
use debug_mcp.Prelude.Maps
use debug_mcp.Core.Error.{BackendError}
use debug_mcp.Dap.Wire.{DapMessage}
use debug_mcp.Dap.StopWaiter.{StopWaiter, Ticket}
use debug_mcp.Dap.Shared.{
  Shared, PendingResult, new, next_seq, register_pending, register_request, remove_pending, answer,
  answered, dispatch_response, with_error, cancel_all_pending, signal_initialized, wait_initialized,
  with_stop_waiter,
}

-- The calls on the shared state: of the client, of the drop of a guard, of the read loop.
pub data Call : Type 0 where
  registers : Call
  removes : ℤ → Call
  responds : ℤ → DapMessage → Call
  cancels : BackendError → Call
  signals : Call
  waits : Call
  stop_waiter : StopWaiter → Call

unfoldable pub apply : Call → Shared → Shared
unfolding register_request remove_pending dispatch_response cancel_all_pending signal_initialized
    wait_initialized with_stop_waiter
apply registers s = (register_request s).1
apply (removes seq) s = (remove_pending seq s).1
apply (responds seq message) s = (dispatch_response seq message s).1
apply (cancels e) s = cancel_all_pending e s
apply signals s = signal_initialized s
apply waits s = (wait_initialized s).1
apply (stop_waiter w) s = with_stop_waiter w s

unfoldable pub run : List Call → Shared → Shared
unfolding apply
run [] s = s
run (c ∷ cs) s = run cs (apply c s)

abbrev one : Ticket → Ticket → ℕ
one t u = if eqb u t then 1 else 0

-- How often a receiver is waited for, and how often it was answered.
abbrev pub pending_times : Ticket → Dict ℤ Ticket → ℕ
pending_times t [] = 0
pending_times t ((seq, u) ∷ m) = one t u + pending_times t m

abbrev pub answer_times : Ticket → List (Ticket × PendingResult) → ℕ
answer_times t [] = 0
answer_times t ((u, r) ∷ rs) = one t u + answer_times t rs

times-append :
    (t : Ticket) (xs ys : List (Ticket × PendingResult))
    → answer_times t (xs ++ ys) ≡ answer_times t xs + answer_times t ys
times-append t [] ys = omega arith
times-append t ((u, r) ∷ xs) ys = omega (arith, times-append t xs ys)

times-with_error :
    (t : Ticket) (e : BackendError) (m : Dict ℤ Ticket)
    → answer_times t (with_error e m) ≡ pending_times t m
times-with_error t e [] = refl
times-with_error t e ((seq, u) ∷ m) = omega (arith, times-with_error t e m)

times-insert :
    (t u : Ticket) (seq : ℤ) (m : Dict ℤ Ticket)
    → pending_times t (Maps.insert seq u m) ≤ one t u + pending_times t m
unfolding Maps.insert
times-insert t u seq [] = ground arith
times-insert t u seq ((k, v) ∷ m) = ground (arith, times-insert t u seq m)

abbrev found_times : Ticket → Option Ticket → ℕ
found_times t none = 0
found_times t (some u) = one t u

times-remove-le :
    (t : Ticket) (seq : ℤ) (m : Dict ℤ Ticket)
    → pending_times t (Maps.remove seq m) ≤ pending_times t m
unfolding Maps.remove
times-remove-le t seq [] = ground arith
times-remove-le t seq ((k, v) ∷ m) = ground (arith, times-remove-le t seq m)

times-remove :
    (t : Ticket) (seq : ℤ) (m : Dict ℤ Ticket)
    → pending_times t (Maps.remove seq m) + found_times t (Maps.get seq m) ≤ pending_times t m
unfolding Maps.remove Maps.get
times-remove t seq [] = ground arith
times-remove t seq ((k, v) ∷ m) = ground (arith, times-remove t seq m, times-remove-le t seq m)

abbrev held : Ticket → Shared → ℕ
held t s = pending_times t s.pending + answer_times t s.answers

-- A receiver is waited for or answered once, or not yet given out.
abbrev Once : Ticket → Shared → Type 0
Once t s = (held t s ≤ 1) × ((held t s ≡ 0) ⊎ (t < s.next))

held-answered :
    (t : Ticket) (o : Option Ticket) (message : DapMessage) (s : Shared)
    → (held t (answered o message s).1 ≡ held t s + found_times t o)
      × ((answered o message s).1.next ≡ s.next)
unfolding answered answer
held-answered t none message s = (omega arith, refl)
held-answered t (some u) message s =
    (omega (arith, times-append t s.answers ((u, ok message) ∷ [])), refl)

responds-Once :
    (t : Ticket) (seq : ℤ) (message : DapMessage) (s : Shared)
    → Once t s
    → Once t (dispatch_response seq message s).1
unfolding dispatch_response remove_pending
responds-Once t seq message s h =
    let (kept, same) = held-answered t (Maps.get seq s.pending) message (remove_pending seq s).1 in
    ground (arith, times-remove t seq s.pending, kept, same)

apply-Once : (t : Ticket) (c : Call) (s : Shared) → Once t s → Once t (apply c s)
unfolding apply register_request next_seq register_pending remove_pending cancel_all_pending
    signal_initialized wait_initialized with_stop_waiter
apply-Once t registers s h = ground (arith, times-insert t s.next (next_seq s).0 s.pending)
apply-Once t (removes seq) s h = ground (arith, times-remove t seq s.pending)
apply-Once t (responds seq message) s h = responds-Once t seq message s h
apply-Once t (cancels e) s h =
    ground
      (arith, times-append t s.answers (with_error e s.pending), times-with_error t e s.pending)
apply-Once t signals s h = h
apply-Once t waits s h = ground arith
apply-Once t (stop_waiter w) s h = h

run-Once : (t : Ticket) (cs : List Call) (s : Shared) → Once t s → Once t (run cs s)
unfolding run
run-Once t [] s h = h
run-Once t (c ∷ cs) s h = run-Once t cs (apply c s) (apply-Once t c s h)

-- After any calls on a new client, a receiver that was answered was answered once and is waited for no
-- more, and no receiver is waited for under two numbers.
pub answered_once :
    (t : Ticket) (cs : List Call)
    → pending_times t (run cs new).pending + answer_times t (run cs new).answers ≤ 1
answered_once t cs = (run-Once t cs new (ground arith)).0

answered-initialized :
    (o : Option Ticket) (message : DapMessage) (s : Shared)
    → (answered o message s).1.initialized ≡ s.initialized
unfolding answered answer
answered-initialized none message s = refl
answered-initialized (some u) message s = refl

-- A response leaves the wait for `initialized` as it is.
pub dispatch_response-initialized :
    (seq : ℤ) (message : DapMessage) (s : Shared)
    → (dispatch_response seq message s).1.initialized ≡ s.initialized
unfolding dispatch_response remove_pending
dispatch_response-initialized seq message s =
    answered-initialized (Maps.get seq s.pending) message (remove_pending seq s).1
