-- ===== src/Windbg/Tests.antt =====
-- Engines that number their breakpoints, one of them with commands that fail, and requests to them.
use Prim.Native.Nat.{max}
use debug_mcp.Prelude.{
  is_some, not, ◌&&◌, ◌||◌, eqb, if◌then◌else◌, ◌==◌, Bool, String, Result, err, take, ℕ, suc, ℤ,
  pos, negsuc, ◌≡◌, refl, true, false, Option, none, some, List, [], ◌∷◌, Dict, arith, ok, int_eq,
  nat_eq, string_eq,
}
use debug_mcp.Prelude.Maps
use debug_mcp.Core.Types.{SourceBp, BreakpointResult, BackendEvent}
use debug_mcp.Dbgeng.Callbacks.{OutputKind}
use debug_mcp.Windbg.Engine.{BpLoc, file_line, EngineOps, Op, call}
use debug_mcp.Windbg.Breakpoints.{BreakpointTable, lines_of, set_source_breakpoints}
use debug_mcp.Windbg.Breakpoints.Leftover.{owned}
use debug_mcp.Windbg.Breakpoints.Zero.{requests, located, drop_zero}
use debug_mcp.Windbg.Thread.{EngineCmd, Answer, dispatch, command_loop}
use debug_mcp.Windbg.Thread.Served.{answer_on, left, command_loop-answer_on}
use debug_mcp.Windbg.Factory.{category_for, terminate}
use debug_mcp.Windbg.Factory.Ends.{Line, polls, quiet, live, polls-quiet, polls-Busy}

abbrev Places : Type 0
Places = Dict ℤ BpLoc

abbrev at : Places → ℤ → Option BpLoc
at s id = Maps.get id s

-- No id above this is taken.
abbrev top : Places → ℕ
top [] = 0
top ((pos n, l) ∷ s) = max n (top s)
top ((negsuc n, l) ∷ s) = top s

abbrev placed_at : Places → BreakpointResult
placed_at s = record {
  id = pos (suc (top s));
  verified = true;
  line = pos 0;
  message = "";
  rejected = false;
}

abbrev ended : {S A : Type 0} → Op S A
ended s = none

-- An engine whose thread ends with every operation.
abbrev ending : {S : Type 0} → EngineOps S
ending = record {
  launch = λ req. ended;
  attach_pid = λ pid. ended;
  detach = λ terminate. ended;
  go = λ timeout. ended;
  step = λ kind. ended;
  break_in = ended;
  set_breakpoint = λ loc condition. ended;
  remove_breakpoint = λ id. ended;
  list_breakpoints = ended;
  threads = ended;
  stack_trace = λ thread_id levels. ended;
  locals = λ frame. ended;
  evaluate = λ expr. ended;
  read_memory = λ address size. ended;
  disassemble = λ address count. ended;
  execute = λ command. ended;
  modules = ended;
  open_dump = λ path. ended;
  attach_kernel = λ connection. ended;
  analyze = ended;
  current_source_location = ended;
  set_output_sink = λ s. s;
}

abbrev engine : EngineOps Places
engine = record ending {
  set_breakpoint =
      λ loc condition s. some (ok (placed_at s), Maps.insert (pos (suc (top s))) loc s);
  remove_breakpoint = λ id s. some (ok tt, Maps.remove id s);
}

-- Another one, some of whose commands fail, with an account of what they leave: no set at the line 30
-- comes to its end, and the breakpoint 1 cannot be removed.
abbrev Failing : Type 0
Failing = Places × (ℤ → Bool)

abbrev fails_at : BpLoc → Bool
fails_at (BpLoc.address a) = false
fails_at (file_line file line) = eqb line 30
fails_at (BpLoc.function name) = false

abbrev with_set : BpLoc → Places → Places
with_set loc p = Maps.insert (pos (suc (top p))) loc p

abbrev added : Places → Places → ℤ → Bool
added p p' j = is_some (Maps.get j p') && not (is_some (Maps.get j p))

abbrev set_failing : BpLoc → Bool → Failing → Result String BreakpointResult × Failing
set_failing loc true (p, left) =
    (err "GetId failed", (with_set loc p, λ j. left j || added p (with_set loc p) j))
set_failing loc false (p, left) =
    (ok (placed_at p), (with_set loc p, λ j. if pos (suc (top p)) == j then false else left j))

abbrev still : ℤ → Places → (ℤ → Bool) → ℤ → Bool
still id p left j = if id == j then is_some (Maps.get j p) else left j

abbrev remove_failing : ℤ → Bool → Failing → Result String (Unit {0}) × Failing
remove_failing id true (p, left) = (err "RemoveBreakpoint failed", (p, still id p left))
remove_failing id false (p, left) = (ok tt, (Maps.remove id p, still id (Maps.remove id p) left))

abbrev failing : EngineOps Failing
failing = record ending {
  set_breakpoint = λ loc condition s. some (set_failing loc (fails_at loc) s);
  remove_breakpoint = λ id s. some (remove_failing id (id == pos 1) s);
}

abbrev has : Failing → ℤ → Option BpLoc
has (p, left) j = Maps.get j p

abbrev left_over : Failing → ℤ → Bool
left_over (p, left) j = left j

abbrev no_breakpoints : BreakpointTable
no_breakpoints = record { source = []; function = [] }

abbrev account : Failing → ℤ → Option BpLoc
account = owned has left_over

abbrev blank : Failing
blank = ([], λ j. false)

abbrev at_line : ℕ → SourceBp
at_line n = record { line = pos n; condition = "" }

abbrev result : ℕ → BreakpointResult
result id = record { id = pos id; verified = true; line = pos 0; message = ""; rejected = false }

-- The line 10 is set first, with the id 1.
abbrev line_ten : List SourceBp
line_ten = at_line 10 ∷ []

abbrev ten_table : BreakpointTable
unfolding set_source_breakpoints
ten_table = (set_source_breakpoints failing "main.c" line_ten no_breakpoints (some blank)).1

abbrev ten_engine : Option Failing
unfolding set_source_breakpoints
ten_engine = (set_source_breakpoints failing "main.c" line_ten no_breakpoints (some blank)).2

-- Then the lines 20 and 30 are asked for in its place: the set of 30 fails, and so does the removal.
abbrev request : List SourceBp
request = at_line 20 ∷ at_line 30 ∷ []

abbrev failed_set : BreakpointResult
failed_set = record {
  id = pos 0;
  verified = false;
  line = pos 30;
  message = "debugger error: GetId failed";
  rejected = false;
}

only_twenty :
    lines_of "main.c" (set_source_breakpoints failing "main.c" request ten_table ten_engine).1
    ≡ (20, result 2) ∷ []
unfolding set_source_breakpoints ten_table ten_engine lines_of Maps.get
only_twenty = refl

abbrev places_in : Option Failing → Places
places_in none = []
places_in (some (p, left)) = p

three_left :
    places_in (set_source_breakpoints failing "main.c" request ten_table ten_engine).2
    ≡ (pos 1, file_line "main.c" 10)
      ∷ (pos 2, file_line "main.c" 20)
      ∷ (pos 3, file_line "main.c" 30)
      ∷ []
unfolding set_source_breakpoints ten_table ten_engine
three_left = refl

-- An engine that numbers its breakpoints from 0.
abbrev next : Places → ℕ
next [] = 0
next (p ∷ s) = suc (top (p ∷ s))

abbrev from_zero : EngineOps Places
from_zero = record engine {
  set_breakpoint = λ loc condition s. some (ok (result (next s)), Maps.insert (pos (next s)) loc s);
}

abbrev left_zero : Places
unfolding Maps.insert
left_zero = Maps.insert (pos 0) (file_line "main.c" 10) []

nothing_tracked : lines_of "main.c" no_breakpoints ≡ []
unfolding lines_of Maps.get
nothing_tracked = refl

-- The third request leaves two breakpoints at the line.
set_twice :
    (requests from_zero "main.c"
      ((at_line 10 ∷ []) ∷ [] ∷ (at_line 10 ∷ []) ∷ [])
      (no_breakpoints, some [])).1
    ≡ some ((pos 0, file_line "main.c" 10) ∷ (pos 1, file_line "main.c" 10) ∷ [])
unfolding set_source_breakpoints
set_twice = refl

drop_zero_example :
    (lines_of "main.c"
        (requests from_zero "main.c" ((at_line 10 ∷ []) ∷ [] ∷ []) (no_breakpoints, some [])).0
      ≡ [])
    × (located
          (λ t. at t (pos 0))
          (requests from_zero "main.c" ((at_line 10 ∷ []) ∷ [] ∷ []) (no_breakpoints, some [])).1
        ≡ some (file_line "main.c" 10))
    × ((requests from_zero "main.c"
          ((at_line 10 ∷ []) ∷ [] ∷ (at_line 10 ∷ []) ∷ [])
          (no_breakpoints, some [])).1
        ≡ (call (from_zero.set_breakpoint (file_line "main.c" 10) "") (some left_zero)).1)
unfolding lines_of Maps.get Maps.insert left_zero
drop_zero_example =
    drop_zero from_zero "main.c" at (at_line 10) 10 (result 0) no_breakpoints [] left_zero refl
      nothing_tracked refl refl refl refl

-- A breakpoint is set, removed, and another one set.
abbrev setting : ℕ → EngineCmd
setting ticket = EngineCmd.set_breakpoint (file_line "main.c" 10) "" ticket

abbrev removing : EngineCmd
removing = EngineCmd.remove_breakpoint (pos 1) 2

removed_behind_set :
    answer_on engine removing (left engine (setting 1 ∷ []) []) ≡ some (Answer.of_done (ok tt))
unfolding dispatch
removed_behind_set = refl

command_loop-answer_on_example :
    Maps.get 2 (command_loop engine (setting 1 ∷ removing ∷ setting 3 ∷ []) []).0
    ≡ answer_on engine removing (left engine (setting 1 ∷ []) [])
command_loop-answer_on_example =
    command_loop-answer_on engine 2 (setting 1 ∷ []) (setting 3 ∷ []) removing [] refl (refl, tt)
      (refl, tt)

abbrev printed : Line
printed = (OutputKind.normal, "loaded")

abbrev shown : BackendEvent
shown = BackendEvent.output "stdout" "loaded"

polls-quiet_example :
    polls (quiet 3) (live (printed ∷ []) (some (some (pos 0))) true)
    ≡ shown ∷ BackendEvent.terminated (some (pos 0)) ∷ []
unfolding category_for terminate
polls-quiet_example =
    polls-quiet 3 (printed ∷ []) (some (some (pos 0))) true (some (pos 0)) (omega arith) refl

polls-Busy_example :
    polls ((printed ∷ []) ∷ (printed ∷ []) ∷ []) (live [] (some none) true) ≡ shown ∷ shown ∷ []
unfolding category_for take
polls-Busy_example =
    polls-Busy ((printed ∷ []) ∷ (printed ∷ []) ∷ []) [] (some none) true
      ((λ h. cc), ((λ h. cc), tt))
