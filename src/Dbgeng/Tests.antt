-- ===== src/Dbgeng/Tests.antt =====
-- DbgEng with a number of events left, each of which stops the program with the same callbacks.
use debug_mcp.Prelude.{
  pos, ℕ, zero, suc, ◌<◌, ◌≤◌, ◌≡◌, ◌≢◌, refl, Bool, true, false, Option, none, some, List, [], ◌∷◌,
  Result, ok, arith, nat_eq, string_eq,
}
use debug_mcp.Prelude.Maps
use debug_mcp.Core.Types.{StopOutcome, StepKind}
use debug_mcp.Dbgeng.Error.{EngineError}
use debug_mcp.Dbgeng.Callbacks
use debug_mcp.Dbgeng.Callbacks.{Status, Event, callback, callbacks, CallbackState}
use debug_mcp.Dbgeng.Com.{Com, Texts, Called, SymbolType}
use debug_mcp.Dbgeng.Engine.{Engine, create, attempt, call}
use debug_mcp.Dbgeng.Engine.Wait.{
  WaitResult, event, build_stop_outcome, condition_fails, settled, settle, fired_round, wait_round,
  last_event_fails, breakpoint_condition_met, stored_condition_met, wait_loop, wait_for_event,
}
use debug_mcp.Dbgeng.Engine.Execution.{ensure_runnable, start_step, step}
use debug_mcp.Dbgeng.Engine.Conditions.{false_hit, Ended, wait_for_event-false_hit}
use debug_mcp.Dbgeng.Engine.Ending.{IsFinite, wait_for_event-ne-none}
use debug_mcp.Dbgeng.Engine.Stale.{IsQuiet, NamesHit, HitsNothing, step-NamesHit}

abbrev answers : {A : Type 0} → A → Called ℕ A
answers a c = ((ok a, []), c)

abbrev breaks : List Event → Called ℕ Bool
breaks events zero = ((ok false, []), zero)
breaks events (suc left) = ((ok true, events), left)

abbrev few_events : List Event → Com ℕ
few_events events = record {
  query_control = answers tt;
  get_execution_status = answers Status.break;
  set_execution_status = λ a0. answers tt;
  wait_for_event = λ a0. breaks events;
  last_event = answers (some 3);
  evaluate = λ a0. answers (0, 99);
  execute = λ a0 a1. answers tt;
  set_interrupt = answers tt;
  add_initial_break = answers tt;
  remove_initial_break = answers tt;
  create_process = λ a0 a1. answers tt;
  attach_process = λ a0. answers tt;
  attach_kernel = λ a0. answers tt;
  open_dump_file = λ a0. answers tt;
  end_session = λ a0. answers tt;
  enable_debug_privilege = answers tt;
  reload = λ a0. answers tt;
  add_breakpoint = answers 5;
  set_offset = λ a0 a1. answers tt;
  enable = λ a0. answers tt;
  get_id = λ a0. answers 5;
  get_offset = λ a0. answers 5;
  breakpoint_by_id = λ a0. answers 5;
  breakpoint_by_index = λ a0. answers 5;
  number_breakpoints = answers 5;
  remove_breakpoint = λ a0. answers tt;
  offset_by_line = λ a0 a1. answers 5;
  offset_by_name = λ a0. answers 5;
  number_modules = answers 5;
  module_by_index = λ a0. answers 5;
  module_name = λ a0. answers "main";
  module_parameters = λ a0. answers ((64, SymbolType.pdb));
  name_by_offset = λ a0. answers (("main!run", 0));
  line_by_offset = λ a0. answers ((7, "main.c"));
  instruction_offset = answers 5;
  current_thread = answers 5;
  set_current_thread = λ a0. answers tt;
  number_threads = answers 5;
  thread_ids = λ a0. answers ((1, 100) ∷ []);
  stack_frames = λ a0. answers [];
  set_scope = λ a0. answers tt;
  reset_scope = answers tt;
  scope_group = answers 5;
  number_symbols = λ a0. answers 5;
  symbol_name = λ a0 a1. answers "main";
  symbol_value = λ a0 a1. answers "main";
  symbol_type = λ a0 a1. answers "main";
  read_virtual = λ a0 a1. answers [];
  disassemble = λ a0. answers (("main!run", 0));
  now = λ c. (0, c);
  interrupted = λ c. (false, c);
  kits_root = λ wow c. (none, c);
  sdk_dir = λ c. (none, c);
  exists = λ path c. (false, c);
}

abbrev plain : Texts
plain = record {
  has_nul = λ text. false;
  byte_length = λ text. 30;
  trim = λ text. text;
  is_char_boundary = λ text n. true;
  take = λ n text. text;
  words = λ text. text ∷ [];
  has_bang = λ text. false;
}

-- The breakpoint 3 is hit, and what comes last is something else.
abbrev last_hit : Called ℕ (Option ℕ)
last_hit zero = ((ok none, []), zero)
last_hit (suc left) = ((ok (some 3), []), suc left)

abbrev hits : Com ℕ
hits = record (few_events (Event.breakpoint 3 4096 ∷ [])) { last_event = last_hit }

-- Two events are left, and the breakpoint 3 has a condition.
abbrev conditional : Engine ℕ
unfolding create Callbacks.new
conditional = record (create 2) { breakpoint_conditions = (3, "n > 1") ∷ [] }

abbrev reached : {A : Type 0} → Option (Result EngineError A × Engine ℕ) → Engine ℕ
reached none = conditional
reached (some (r, e)) = e

takes_one : (ms c : ℕ) → (hits.wait_for_event ms c).0.0 ≡ ok true → (hits.wait_for_event ms c).1 < c
takes_one ms zero h = cc
takes_one ms (suc left) h = omega arith

reads_last : (c : ℕ) → (last_hit c).1 ≤ c
reads_last zero = omega arith
reads_last (suc left) = omega arith

finite : IsFinite (λ c. c) hits
finite = record {
  takes = takes_one;
  queries = λ c. omega arith;
  reads_status = λ c. omega arith;
  reads_event = reads_last;
  reads_thread = λ c. omega arith;
  evaluates = λ text c. omega arith;
  resumes = λ status c. omega arith;
}

wait_for_event-ne-none_example : wait_for_event plain hits 5 200 conditional ≢ none
unfolding conditional
wait_for_event-ne-none_example =
    wait_for_event-ne-none (λ c. c) plain hits finite 200 5 conditional (omega arith)

-- The first event is such a hit, the second is not; the wait ends with the second.
first_false : false_hit plain hits 3 "n > 1" 1 ≡ true
first_false = refl

second_other : false_hit plain hits 3 "n > 1" 0 ≡ false
second_other = refl

abbrev stopped_at : Option (Result EngineError WaitResult × Engine ℕ) → Option ℕ
stopped_at (some (ok (event o), e)) = some e.world
stopped_at r = none

ends_second : stopped_at (wait_for_event plain hits 5 200 conditional) ≡ some 0
unfolding wait_for_event wait_loop wait_round fired_round settle settled condition_fails
    last_event_fails breakpoint_condition_met stored_condition_met build_stop_outcome call attempt
    callbacks callback Maps.get conditional
ends_second = refl

wait_for_event-false_hit_example :
    Ended plain hits 3 "n > 1" 200 (wait_for_event plain hits 5 200 conditional)
unfolding Maps.get conditional
wait_for_event-false_hit_example =
    wait_for_event-false_hit plain hits 3 "n > 1" (λ c. c) 5 200 conditional finite (omega arith)
      refl

-- A breakpoint was hit, and a step ends without a callback.
abbrev stepping : Engine ℕ
unfolding create Callbacks.new
stepping = record (create 1) {
  callback_state = record Callbacks.new { last_breakpoint_id = some 3 };
}

abbrev stepped : StopOutcome
stepped =
    StopOutcome.stopped
      (record { reason = ""; thread_id = pos 5; description = ""; hit_breakpoint_ids = pos 3 ∷ [] })

quiet : (ms : ℕ) (c : ℕ) → IsQuiet ((few_events []).wait_for_event ms c).0.1
quiet ms zero = tt
quiet ms (suc left) = tt

none_hit : HitsNothing (few_events [])
none_hit = record {
  queries = λ c. tt;
  waits = quiet;
  reads_status = λ c. tt;
  reads_event = λ c. tt;
  reads_thread = λ c. tt;
  evaluates = λ text c. tt;
  resumes = λ status c. tt;
  runs = λ shown command c. tt;
}

step-NamesHit_example : NamesHit 3 stepped
unfolding step ensure_runnable start_step wait_for_event wait_loop wait_round fired_round settle
    settled condition_fails build_stop_outcome call attempt callbacks callback stepping
step-NamesHit_example =
    step-NamesHit plain (few_events []) 3 none_hit 5 StepKind.over stepping
      (reached (step plain (few_events []) 5 StepKind.over stepping)) stepped refl refl
