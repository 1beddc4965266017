-- ===== src/Session/Manager/Tracking.antt =====
-- crates/mcp-session/src/manager.rs: the breakpoint methods of `SessionManager`.
use debug_mcp.Prelude.{
  ℤ, String, Bool, true, false, Option, none, some, List, [], ◌∷◌, ◌++◌, Dict, leb_ℤ, if◌then◌else◌,
  Result, ok, err, ◌==◌, remove_first, int_eq, string_eq,
}
use debug_mcp.Prelude.Text.{◌<>◌, show_ℤ}
use debug_mcp.Prelude.Maps
use debug_mcp.Core.Types.{SourceBp, FunctionBp}
use debug_mcp.Session.State.{BreakpointInfo}
use debug_mcp.Session.Manager.{SessionManager}

abbrev pub source_bp : ℤ → String → SourceBp
source_bp line condition = record { line = line; condition = condition }

abbrev pub function_bp : String → String → FunctionBp
function_bp name condition = record { name = name; condition = condition }

unfoldable pub add_source_breakpoint :
    String → ℤ → String → SessionManager → SourceBp × SessionManager
unfolding Maps.extend
add_source_breakpoint file line condition s =
    let bp = source_bp line condition in
    (
      bp,
      record s { inner = record s.inner { source_bps = Maps.extend file (bp ∷ []) s.source_bps } },
    )

unfoldable pub add_function_breakpoint :
    String → String → SessionManager → FunctionBp × SessionManager
add_function_breakpoint name condition s =
    let bp = function_bp name condition in
    (bp, record s { inner = record s.inner { function_bps = s.function_bps ++ bp ∷ [] } })

unfoldable pub add_breakpoint_response : BreakpointInfo → SessionManager → SessionManager
unfolding Maps.insert
add_breakpoint_response info s = record s {
  inner = record s.inner { bp_responses = Maps.insert info.id info s.bp_responses };
}

unfoldable pub breakpoint_info : ℤ → SessionManager → Option BreakpointInfo
unfolding Maps.get
breakpoint_info id s = Maps.get id s.bp_responses

-- `bp.line == info.line` and `bp.name == info.function`
abbrev pub same_line : BreakpointInfo → SourceBp → Bool
same_line info bp = bp.line == info.line

abbrev pub same_name : BreakpointInfo → FunctionBp → Bool
same_name info bp = bp.name == info.function

-- The first entry of the file's list with the line goes.
unfoldable pub untrack_source : BreakpointInfo → SessionManager → SessionManager
unfolding Maps.modify remove_first
untrack_source info s = record s {
  inner = record s.inner {
    source_bps = Maps.modify info.file (remove_first (same_line info)) s.source_bps;
  };
}

unfoldable pub untrack_function : BreakpointInfo → SessionManager → SessionManager
unfolding remove_first
untrack_function info s = record s {
  inner = record s.inner { function_bps = remove_first (same_name info) s.function_bps };
}

-- The match on `info.ty`: the file, whether it was a function, and the session without the entry.
unfoldable pub untrack : BreakpointInfo → SessionManager → (String × Bool) × SessionManager
unfolding untrack_source untrack_function
untrack info s =
    if info.ty == "source"
    then ((info.file, false), untrack_source info s)
    else (if info.ty == "function" then (("", true), untrack_function info s) else (("", false), s))

unfoldable pub forget_response : ℤ → SessionManager → SessionManager
forget_response id s = record s {
  inner = record s.inner { bp_responses = Maps.remove id s.bp_responses };
}

unfoldable pub remove_found :
    ℤ → Option BreakpointInfo → SessionManager → Result String (String × Bool) × SessionManager
remove_found id none s = (err ("breakpoint ID " <> show_ℤ id <> " not found"), s)
remove_found id (some info) s =
    let (found, s') = untrack info s in (ok found, forget_response id s')

unfoldable pub remove_breakpoint_by_id :
    ℤ → SessionManager → Result String (String × Bool) × SessionManager
unfolding remove_found forget_response untrack Maps.remove Maps.get
remove_breakpoint_by_id id s = remove_found id (Maps.get id s.bp_responses) s

-- `sort_by_key(|info| info.id)`, the stable sort of the standard library.
unfoldable pub place : BreakpointInfo → List BreakpointInfo → List BreakpointInfo
place x [] = x ∷ []
place x (y ∷ ys) = if leb_ℤ x.id y.id then x ∷ y ∷ ys else y ∷ place x ys

unfoldable pub sort_by_id : List BreakpointInfo → List BreakpointInfo
unfolding place
sort_by_id [] = []
sort_by_id (x ∷ xs) = place x (sort_by_id xs)

unfoldable pub list_breakpoints : SessionManager → List BreakpointInfo
unfolding sort_by_id
list_breakpoints s = sort_by_id (Maps.values s.bp_responses)

unfoldable pub source_breakpoints_for_file : String → SessionManager → List SourceBp
unfolding Maps.get_list
source_breakpoints_for_file file s = Maps.get_list file s.source_bps

abbrev pub all_function_breakpoints : SessionManager → List FunctionBp
all_function_breakpoints s = s.function_bps

unfoldable pub add_pending_source_breakpoint : String → ℤ → String → SessionManager → SessionManager
unfolding Maps.extend
add_pending_source_breakpoint file line condition s = record s {
  inner = record s.inner {
    pending_source_bps = Maps.extend file (source_bp line condition ∷ []) s.pending_source_bps;
  };
}

unfoldable pub add_pending_function_breakpoint : String → String → SessionManager → SessionManager
add_pending_function_breakpoint name condition s = record s {
  inner = record s.inner {
    pending_function_bps = s.pending_function_bps ++ function_bp name condition ∷ [];
  };
}

-- The loop of the flush: the lists of each file are added to the file's active list.
unfoldable pub extend_all :
    Dict String (List SourceBp) → Dict String (List SourceBp) → Dict String (List SourceBp)
unfolding Maps.extend
extend_all [] m = m
extend_all ((file, bps) ∷ rest) m = extend_all rest (Maps.extend file bps m)

unfoldable pub flush_pending_breakpoints :
    SessionManager → (Dict String (List SourceBp) × List FunctionBp) × SessionManager
unfolding extend_all
flush_pending_breakpoints s = (
  (s.pending_source_bps, s.pending_function_bps),
  record s {
    inner = record s.inner {
      source_bps = extend_all s.pending_source_bps s.source_bps;
      function_bps = s.function_bps ++ s.pending_function_bps;
      pending_source_bps = [];
      pending_function_bps = [];
    };
  },
)
