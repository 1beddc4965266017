-- ===== src/Session/Tests.antt =====
-- The theorems on the session at concrete sessions, and runs of its operations.
use debug_mcp.Prelude.{
  ℕ, zero, suc, String, ltb, ◌^◌, ◌<◌, ◌≤◌, pos, ◌≡◌, refl, true, false, none, some, List, [], ◌∷◌,
  ◌++◌, arith, eqb, find, length, remove_first, if◌then◌else◌, ◌==◌, string_eq, int_eq,
}
use debug_mcp.Prelude.Maps
use debug_mcp.Prelude.Text.{◌<>◌}
use debug_mcp.Core.Types.{BackendEvent}
use debug_mcp.Session.State.{idle, stopped, terminated, BreakpointInfo}
use debug_mcp.Session.Output.{OutputEntry, empty, max_size}
use debug_mcp.Session.Output.Laws.{
  total, buffer_of, append_all, append_all_lem, Longest, append_all-Longest,
}
use debug_mcp.Session.Pump.{pump_event}
use debug_mcp.Session.Manager.{
  SessionManager, fresh_inner, set_state, set_state_if_generation, terminate_if_generation,
  note_exit, reset,
}
use debug_mcp.Session.Manager.Tracking.{
  source_bp, function_bp, breakpoint_info, list_breakpoints, remove_breakpoint_by_id,
  source_breakpoints_for_file, all_function_breakpoints, flush_pending_breakpoints, same_line,
  same_name,
}
use debug_mcp.Session.Manager.Calls.{Call, apply, run, reset_count, resets, event}
use debug_mcp.Session.Manager.Generation.{guarded_write}
use debug_mcp.Session.Manager.Valid.{IsValid, new-IsBuffer, run-IsValid}
use debug_mcp.Session.Manager.Tracked.{Ascending, has_id, list_breakpoints_lem, remove_known}
use debug_mcp.Session.Manager.Flush.{flush_pending_breakpoints_lem}

abbrev out_entry : OutputEntry
out_entry = record { category = "stdout"; text = "hello" }

abbrev err_entry : OutputEntry
err_entry = record { category = "stderr"; text = "oops" }

abbrev printed : List OutputEntry
printed = out_entry ∷ err_entry ∷ []

abbrev main_info : BreakpointInfo
main_info = record {
  id = pos 3;
  ty = "source";
  file = "main.c";
  line = pos 10;
  function = "";
  condition = "";
  verified = true;
}

abbrev start_info : BreakpointInfo
start_info = record {
  id = pos 1;
  ty = "function";
  file = "";
  line = pos 0;
  function = "start";
  condition = "";
  verified = true;
}

abbrev stopped_session : SessionManager
stopped_session = record {
  inner = record (fresh_inner 7) {
    state = stopped;
    source_bps = ("main.c", source_bp (pos 10) "" ∷ source_bp (pos 12) "n > 2" ∷ []) ∷ [];
    function_bps = function_bp "start" "" ∷ [];
    bp_responses = (pos 3, main_info) ∷ (pos 1, start_info) ∷ [];
    pending_source_bps = ("main.c", source_bp (pos 20) "" ∷ []) ∷ [];
    pending_function_bps = function_bp "finish" "" ∷ [];
  };
  output = empty;
}

stopped_session-IsValid : IsValid stopped_session
unfolding Maps.contains_key
stopped_session-IsValid = record {
  epoch = omega arith;
  responses = (refl, (refl, tt));
  keyed = (refl, (refl, tt));
  sources = (refl, tt);
  pending = (refl, tt);
  buffered = new-IsBuffer;
}

-- A session that is ended during a wait, with output before and behind the end.
abbrev disconnected : List Call
disconnected =
    event 7 (BackendEvent.output "stdout" "bye")
    ∷ resets
    ∷ event 7 (BackendEvent.terminated (some (pos 1)))
    ∷ []

disconnected-few : reset_count disconnected < 2 ^ 64
unfolding reset_count
disconnected-few = omega arith

-- The session keeps its states through a stop, a stale exit and a removal.
stale_exit : (run disconnected stopped_session).state ≡ idle
unfolding run apply reset pump_event terminate_if_generation
stale_exit = refl

listed_ids : list_breakpoints stopped_session ≡ start_info ∷ main_info ∷ []
unfolding list_breakpoints
listed_ids = refl

removed_line :
    source_breakpoints_for_file "main.c" (remove_breakpoint_by_id (pos 3) stopped_session).1
    ≡ source_bp (pos 12) "n > 2" ∷ []
unfolding remove_breakpoint_by_id source_breakpoints_for_file
removed_line = refl

main_known : breakpoint_info (pos 3) stopped_session ≡ some main_info
unfolding breakpoint_info
main_known = refl

printed_fits : total printed ≤ max_size
unfolding total
printed_fits = omega arith

append_all_lem_example : append_all printed empty ≡ buffer_of printed
append_all_lem_example = append_all_lem printed

abbrev doubled : ℕ → String → String
doubled zero text = text
doubled (suc n) text = let rest = doubled n text in rest <> rest

-- An entry above the cap.
abbrev huge : OutputEntry
huge = record { category = "stdout"; text = doubled 20 "." }

huge-exceeds : ltb max_size (total (huge ∷ [])) ≡ true
unfolding total
huge-exceeds = refl

append_all-Longest_example : Longest (huge ∷ printed) printed (append_all (huge ∷ printed) empty)
append_all-Longest_example = append_all-Longest (huge ∷ []) printed printed_fits

guarded_write_example :
    (set_state_if_generation stopped_session.generation stopped (run disconnected stopped_session)
      ≡ (if eqb (reset_count disconnected) 0
          then (true, set_state stopped (run disconnected stopped_session))
          else (false, run disconnected stopped_session)))
    × (terminate_if_generation stopped_session.generation none (run disconnected stopped_session)
        ≡ (if eqb (reset_count disconnected) 0
            then (true, set_state terminated (note_exit none (run disconnected stopped_session)))
            else (false, run disconnected stopped_session)))
    × (pump_event stopped_session.generation
          (BackendEvent.terminated none)
          (run disconnected stopped_session)
        ≡ (if eqb (reset_count disconnected) 0
            then set_state terminated (note_exit none (run disconnected stopped_session))
            else run disconnected stopped_session))
guarded_write_example =
    guarded_write disconnected stopped_session (omega arith) disconnected-few stopped none

run-IsValid_example : IsValid (run disconnected stopped_session)
run-IsValid_example = run-IsValid disconnected stopped_session stopped_session-IsValid

list_breakpoints_lem_example :
    Ascending (list_breakpoints stopped_session)
    × (length (list_breakpoints stopped_session) ≡ length stopped_session.bp_responses)
    × (find (has_id (pos 3)) (list_breakpoints stopped_session)
        ≡ breakpoint_info (pos 3) stopped_session)
list_breakpoints_lem_example = list_breakpoints_lem stopped_session (pos 3) stopped_session-IsValid

remove_known_example :
    (breakpoint_info (pos 1) (remove_breakpoint_by_id (pos 3) stopped_session).1
      ≡ (if (pos 3) == (pos 1) then none else breakpoint_info (pos 1) stopped_session))
    × (source_breakpoints_for_file "main.c" (remove_breakpoint_by_id (pos 3) stopped_session).1 ≡ (
        if main_info.ty == "source"
        then (if main_info.file == "main.c"
            then remove_first
                (same_line main_info)
                (source_breakpoints_for_file "main.c" stopped_session)
            else source_breakpoints_for_file "main.c" stopped_session)
        else source_breakpoints_for_file "main.c" stopped_session))
    × (all_function_breakpoints (remove_breakpoint_by_id (pos 3) stopped_session).1 ≡ (
        if main_info.ty == "function"
        then remove_first (same_name main_info) (all_function_breakpoints stopped_session)
        else all_function_breakpoints stopped_session))
remove_known_example = remove_known (pos 3) (pos 1) "main.c" stopped_session main_info main_known

flush_pending_breakpoints_lem_example :
    (source_breakpoints_for_file "main.c" (flush_pending_breakpoints stopped_session).1
      ≡ source_breakpoints_for_file "main.c" stopped_session
        ++ Maps.get_list "main.c" (flush_pending_breakpoints stopped_session).0.0)
    × (all_function_breakpoints (flush_pending_breakpoints stopped_session).1
        ≡ all_function_breakpoints stopped_session
          ++ (flush_pending_breakpoints stopped_session).0.1)
    × ((flush_pending_breakpoints stopped_session).0
        ≡ (stopped_session.pending_source_bps, stopped_session.pending_function_bps))
    × (flush_pending_breakpoints (flush_pending_breakpoints stopped_session).1
        ≡ (([], []), (flush_pending_breakpoints stopped_session).1))
flush_pending_breakpoints_lem_example =
    flush_pending_breakpoints_lem "main.c" stopped_session stopped_session-IsValid
