-- ===== src/Dap/Client/Answered.antt =====
-- A request gets the response to it.
use debug_mcp.Prelude.{
  ◌<◌, ℤ, true, Option, none, some, List, [], ◌∷◌, ◌++◌, ◌≡◌, ◌≢◌, refl, ap, arith, if◌then◌else◌,
  ok, inl, inr, Option-cases, any, eqb, nat_eq, int_eq, ==_iff, ◌==◌,
}
use debug_mcp.Prelude.Maps
use debug_mcp.Lldb.Requests.{Request}
use debug_mcp.Dap.Wire.{DapMessage}
use debug_mcp.Dap.StopWaiter.{Ticket}
use debug_mcp.Dap.Shared.{
  Shared, PendingResult, next_seq, register_pending, register_request, remove_pending, answer,
  answered, dispatch_response, with_error, cancel_all_pending, signal_initialized, wait_initialized,
  with_stop_waiter,
}
use debug_mcp.Dap.Shared.Once.{
  Call, registers, removes, responds, cancels, signals, waits, stop_waiter, apply, run,
}
use debug_mcp.Dap.Client.{begin_send, answer_of}

-- Nothing else is said of the request `seq` by a call: no request takes its number, nothing is
-- answered or removed under it, and the connection is not closed.
abbrev pub Leaves : ℤ → Call → Shared → Type 0
Leaves seq registers s = (next_seq s).0 ≢ seq
Leaves seq (removes q) s = q ≢ seq
Leaves seq (responds q message) s = q ≢ seq
Leaves seq (cancels e) s = ⊥
Leaves seq signals s = Unit {0}
Leaves seq waits s = Unit {0}
Leaves seq (stop_waiter w) s = Unit {0}

abbrev pub LeaveAll : ℤ → List Call → Shared → Type 0
LeaveAll seq [] s = Unit {0}
LeaveAll seq (c ∷ cs) s = Leaves seq c s × LeaveAll seq cs (apply c s)

-- The request waits for its answer: the receiver is that of its number and of no other, and is older
-- than the next one.
record Waits (seq : ℤ) (t : Ticket) (s : Shared) : Type 0 where
  entry : Maps.get seq s.pending ≡ some t
  only : (q : ℤ) → Maps.get q s.pending ≡ some t → q ≡ seq
  silent : Maps.get t s.answers ≡ none
  older : t < s.next

get-snoc :
    (t u : Ticket) (r : PendingResult) (rs : List (Ticket × PendingResult))
    → Maps.get t rs ≡ none
    → Maps.get t (rs ++ (u, r) ∷ []) ≡ (if u == t then some r else none)
unfolding Maps.get
get-snoc t u r [] h = refl
get-snoc t u r ((v, x) ∷ rs) h = ground (arith, h, get-snoc t u r rs)

get-kept :
    (t : Ticket) (r : PendingResult) (xs ys : List (Ticket × PendingResult))
    → Maps.get t xs ≡ some r
    → Maps.get t (xs ++ ys) ≡ some r
unfolding Maps.get
get-kept t r [] ys h = cc
get-kept t r ((v, x) ∷ xs) ys h = ground (arith, h, get-kept t r xs ys)

Waits-remove :
    (seq : ℤ) (t : Ticket) (q : ℤ) (s : Shared)
    → q ≢ seq
    → Waits seq t s
    → Waits seq t (record s { pending = Maps.remove q s.pending })
Waits-remove seq t q s other w = record {
  entry = ground (arith, w.entry, Maps.get-remove q seq s.pending, ==_iff q seq, other);
  only = λ k h. w.only k (ground (arith, h, Maps.get-remove q k s.pending));
  silent = w.silent;
  older = w.older;
}

Waits-answered :
    (seq : ℤ) (t : Ticket) (o : Option Ticket) (message : DapMessage) (s : Shared)
    → o ≢ some t
    → Waits seq t s
    → Waits seq t (answered o message s).1
unfolding answered answer
Waits-answered seq t none message s other w = w
Waits-answered seq t (some u) message s other w = record {
  entry = w.entry;
  only = w.only;
  silent =
      ground
        (arith, get-snoc t u (ok message) s.answers w.silent, λ (e : u ≡ t). other (ap some e));
  older = w.older;
}

Waits-apply :
    (seq : ℤ) (t : Ticket) (c : Call) (s : Shared)
    → Leaves seq c s
    → Waits seq t s
    → Waits seq t (apply c s)
unfolding apply register_request register_pending next_seq remove_pending dispatch_response answered
    answer signal_initialized wait_initialized with_stop_waiter
Waits-apply seq t registers s leaves w = record {
  entry = ground (
    arith,
    w.entry,
    Maps.get-insert (next_seq s).0 seq s.next s.pending,
    ==_iff (next_seq s).0 seq,
    leaves,
  );
  only = λ k h. ground (
    arith,
    h,
    w.older,
    Maps.get-insert (next_seq s).0 k s.next s.pending,
    ==_iff (next_seq s).0 k,
    w.only k,
  );
  silent = w.silent;
  older = omega (arith, w.older);
}
Waits-apply seq t (removes q) s leaves w = Waits-remove seq t q s leaves w
Waits-apply seq t (responds q message) s leaves w =
    Waits-answered seq t (Maps.get q s.pending) message
      (record s { pending = Maps.remove q s.pending }) (λ e. leaves (w.only q e))
      (Waits-remove seq t q s leaves w)
Waits-apply seq t (cancels e) s leaves w = absurd leaves
Waits-apply seq t signals s leaves w = record {
  entry = w.entry;
  only = w.only;
  silent = w.silent;
  older = w.older;
}
Waits-apply seq t waits s leaves w = record {
  entry = ground (arith, w.entry);
  only = λ k h. ground (arith, h, w.only k);
  silent = ground (arith, w.silent);
  older = ground (arith, w.older);
}
Waits-apply seq t (stop_waiter v) s leaves w = record {
  entry = w.entry;
  only = w.only;
  silent = w.silent;
  older = w.older;
}

Waits-run :
    (seq : ℤ) (t : Ticket) (cs : List Call) (s : Shared)
    → LeaveAll seq cs s
    → Waits seq t s
    → Waits seq t (run cs s)
unfolding run
Waits-run seq t [] s leave w = w
Waits-run seq t (c ∷ cs) s leave w =
    Waits-run seq t cs (apply c s) leave.1 (Waits-apply seq t c s leave.0 w)

kept-apply :
    (t : Ticket) (r : PendingResult) (c : Call) (s : Shared)
    → Maps.get t s.answers ≡ some r
    → Maps.get t (apply c s).answers ≡ some r
unfolding apply register_request register_pending next_seq remove_pending dispatch_response answered
    answer cancel_all_pending signal_initialized wait_initialized with_stop_waiter
kept-apply t r registers s h = h
kept-apply t r (removes q) s h = h
kept-apply t r (responds q message) s h = elim (Option-cases (Maps.get q s.pending)) [
  | inl absent ↦ ground (arith, absent, h)
  | inr (u, found) ↦ ground (arith, found, get-kept t r s.answers ((u, ok message) ∷ []) h)
]
kept-apply t r (cancels e) s h = get-kept t r s.answers (with_error e s.pending) h
kept-apply t r signals s h = h
kept-apply t r waits s h = ground (arith, h)
kept-apply t r (stop_waiter w) s h = h

kept-run :
    (t : Ticket) (r : PendingResult) (cs : List Call) (s : Shared)
    → Maps.get t s.answers ≡ some r
    → Maps.get t (run cs s).answers ≡ some r
unfolding run
kept-run t r [] s h = h
kept-run t r (c ∷ cs) s h = kept-run t r cs (apply c s) (kept-apply t r c s h)

-- The receiver that is given out next is not in use.
pub record Fresh (s : Shared) : Type 0 where
  pub unused : (q : ℤ) → Maps.get q s.pending ≢ some s.next
  pub unanswered : Maps.get s.next s.answers ≡ none

Waits-begin :
    (request : Request) (s : Shared)
    → Fresh s
    → Waits (begin_send request s).0.0 (begin_send request s).0.1 (begin_send request s).1
unfolding begin_send register_request register_pending next_seq
Waits-begin request s fresh = record {
  entry = ground (
    arith,
    Maps.get-insert (next_seq s).0 (next_seq s).0 s.next s.pending,
    ==_iff (next_seq s).0 (next_seq s).0,
  );
  only = λ k h. ground (
    arith,
    h,
    fresh.unused k,
    Maps.get-insert (next_seq s).0 k s.next s.pending,
    ==_iff (next_seq s).0 k,
  );
  silent = fresh.unanswered;
  older = omega arith;
}

held :
    (seq : ℤ) (t : Ticket) (m : Maps.Dict ℤ Ticket)
    → Maps.get seq m ≡ some t
    → any (λ u. eqb u t) (Maps.values m) ≡ true
unfolding Maps.get any
held seq t [] h = cc
held seq t ((k, u) ∷ m) h = ground (arith, h, held seq t m)

dispatched :
    (seq : ℤ) (t : Ticket) (message : DapMessage) (s : Shared)
    → Waits seq t s
    → Maps.get t (dispatch_response seq message s).1.answers ≡ some (ok message)
unfolding dispatch_response remove_pending answered answer
dispatched seq t message s w = ground (arith, w.entry, get-snoc t t (ok message) s.answers w.silent)

-- Whatever else the client and the read loop do before and behind it, in any number, a request that is
-- written waits until a response with its number is dispatched, and then has exactly that response:
-- the calls before it close no connection and neither take, answer nor remove the request's number,
-- and those behind it may be any.
pub begin_send-answer_of :
    (request : Request) (s : Shared) (message : DapMessage) (earlier later : List Call)
    → Fresh s
    → LeaveAll (begin_send request s).0.0 earlier (begin_send request s).1
    → (answer_of (begin_send request s).0.1 (run earlier (begin_send request s).1) ≡ none)
      × (answer_of (begin_send request s).0.1 (
            run later
              (dispatch_response
                (begin_send request s).0.0
                message
                (run earlier (begin_send request s).1)).1)
          ≡ some (ok message))
unfolding answer_of
begin_send-answer_of request s message earlier later fresh leave = (
  ground (arith, still.silent, held seq t (run earlier s1).pending still.entry),
  ground (
    arith,
    kept-run t (ok message) later (dispatch_response seq message (run earlier s1)).1
        (dispatched seq t message (run earlier s1) still),
  ),
)
  where
    seq : ℤ
    seq = (begin_send request s).0.0

    t : Ticket
    t = (begin_send request s).0.1

    s1 : Shared
    s1 = (begin_send request s).1

    still : Waits seq t (run earlier s1)
    still = Waits-run seq t earlier s1 leave (Waits-begin request s fresh)
