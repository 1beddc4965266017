-- ===== src/Windbg/Factory/Ends.antt =====
-- The end of the stream of the events.
use mathlib.Core.List.{append_assoc, append-nil}
use debug_mcp.Prelude.{
  ℕ, zero, suc, ◌<◌, ℤ, String, Bool, true, false, Option, some, List, [], ◌∷◌, ◌++◌, map, length,
  take, ◌≡◌, ◌≢◌, refl, ap, ◌∙◌, arith,
}
use debug_mcp.Core.Types.{BackendEvent}
use debug_mcp.Dbgeng.Callbacks.{OutputKind}
use debug_mcp.Windbg.Factory.{
  category_for, StreamState, terminate, Poll, pending, yields, ends, poll,
}

abbrev pub Line : Type 0
Line = OutputKind × String

abbrev pub polled : Poll → StreamState → (StreamState → List BackendEvent) → List BackendEvent
polled pending s rest = rest s
polled (yields ev s') s rest = ev ∷ rest s'
polled ends s rest = []

abbrev pub arrived : List Line → StreamState → StreamState
arrived lines s = record s { lines = s.lines ++ lines }

-- A poll for each of the rounds, each behind the lines that come in before it: what they yield.
unfoldable pub polls : List (List Line) → StreamState → List BackendEvent
unfolding poll
polls [] s = []
polls (lines ∷ rounds) s = polled (poll (arrived lines s)) (arrived lines s) (polls rounds)

abbrev pub output_of : Line → BackendEvent
output_of (kind, text) = BackendEvent.output (category_for kind) text

abbrev pub quiet : ℕ → List (List Line)
quiet zero = []
quiet (suc n) = [] ∷ quiet n

-- Something comes in before every poll.
abbrev pub Busy : List (List Line) → Type 0
Busy [] = Unit {0}
Busy (lines ∷ rounds) = (lines ≢ []) × Busy rounds

abbrev pub all_lines : List (List Line) → List Line
all_lines [] = []
all_lines (lines ∷ rounds) = lines ++ all_lines rounds

-- A stream that has not emitted its end.
abbrev pub live : List Line → Option (Option ℤ) → Bool → StreamState
live lines term dropped = record {
  lines = lines;
  term = term;
  backend_dropped = dropped;
  terminated = false;
}

over : (n : ℕ) (s : StreamState) → s.terminated ≡ true → polls (quiet n) s ≡ []
unfolding polls poll
over zero s h = refl
over (suc n) s h = rw h refl

-- Once the engine's thread has signalled its end, or the backend was dropped, and nothing more comes
-- in, any number of polls above that of the lines it holds emits all these lines, then the end, once,
-- with the engine's code where there is one, and then nothing, whether or not the channel of the
-- output is ever closed.
pub polls-quiet :
    (k : ℕ) (lines : List Line) (term : Option (Option ℤ)) (dropped : Bool) (code : Option ℤ)
    → length lines < k
    → terminate (live lines term dropped) ≡ some code
    → polls (quiet k) (live lines term dropped)
      ≡ map output_of lines ++ BackendEvent.terminated code ∷ []
unfolding polls poll terminate
polls-quiet zero lines term dropped code above h = absurd (omega arith)
polls-quiet (suc k) [] term dropped code above h =
    rw h (ap (λ r. BackendEvent.terminated code ∷ r) (over k _ refl))
polls-quiet (suc k) ((kind, text) ∷ lines) term dropped code above h =
    rw (append-nil lines)
      (ap (λ r. output_of (kind, text) ∷ r) (polls-quiet k lines term dropped code (omega arith) h))

busy-line :
    (rounds : List (List Line)) (kept : List Line) (term : Option (Option ℤ)) (dropped : Bool)
    → kept ≢ []
    → ((lines : List Line)
        → polls rounds (live lines term dropped)
          ≡ map output_of (take (length rounds) (lines ++ all_lines rounds)))
    → polled (poll (live kept term dropped)) (live kept term dropped) (polls rounds)
      ≡ map output_of (take (suc (length rounds)) (kept ++ all_lines rounds))
unfolding poll take
busy-line rounds [] term dropped some_line later = absurd (some_line refl)
busy-line rounds ((kind, text) ∷ kept) term dropped some_line later =
    ap (λ r. output_of (kind, text) ∷ r) (later kept)

-- As long as a line comes in before every poll, the stream emits lines only: neither the end of the
-- engine's thread nor the drop of the backend ends it.
pub polls-Busy :
    (rounds : List (List Line)) (lines : List Line) (term : Option (Option ℤ)) (dropped : Bool)
    → Busy rounds
    → polls rounds (live lines term dropped)
      ≡ map output_of (take (length rounds) (lines ++ all_lines rounds))
unfolding polls poll take
polls-Busy [] lines term dropped busy = refl
polls-Busy (more ∷ rounds) lines term dropped busy =
    busy-line rounds (lines ++ more) term dropped (some_left lines more busy.0)
      (λ kept. polls-Busy rounds kept term dropped busy.1)
    ∙ ap (λ all. map output_of (take (suc (length rounds)) all))
        (append_assoc lines more (all_lines rounds))
  where
    some_left : (xs ys : List Line) → ys ≢ [] → xs ++ ys ≢ []
    some_left [] ys h = h
    some_left (x ∷ xs) ys h = λ e. cc
