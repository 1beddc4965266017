-- ===== src/Tools/Breakpoints/Removal.antt =====
-- `remove_breakpoint`: the list that is sent and the list that is committed.
use debug_mcp.Prelude.{
  ℤ, String, ◌≡◌, refl, ap, ◌∙◌, ◌⊎◌, inl, inr, true, false, none, some, List, arith, remove_first,
  ok, ◌==◌, ==_refl, string_eq, int_eq,
}
use text.Mathlib.TextEquality.{eq_iff}
use debug_mcp.Core.Types.{BreakpointResult}
use debug_mcp.Session.State.{BreakpointInfo}
use debug_mcp.Session.Manager.{SessionManager}
use debug_mcp.Session.Manager.Tracking.{
  breakpoint_info, same_line, same_name, source_breakpoints_for_file, all_function_breakpoints,
  remove_breakpoint_by_id,
}
use debug_mcp.Session.Manager.Tracked.{remove_known, source_ne_function}
use debug_mcp.Tools.Response.{is_error}
use debug_mcp.Tools.Server.{ToolServer}
use debug_mcp.Tools.Breakpoints.{
  Remaining, sources, functions, PendingRemoval, remaining_of, remove_breakpoint_end,
}

-- What a session tracks of the kind and the file of a list that was sent.
abbrev pub tracked_of : Remaining → SessionManager → Remaining
tracked_of (sources file bps) s = sources file (source_breakpoints_for_file file s)
tracked_of (functions bps) s = functions (all_function_breakpoints s)

-- The two kinds that the handlers record.
abbrev pub HasKind : BreakpointInfo → Type 0
HasKind info = (info.ty ≡ "source") ⊎ (info.ty ≡ "function")

kind-source :
    (ty : String) → ty ≡ "source" → ((ty == "source") ≡ true) × ((ty == "function") ≡ false)
kind-source ty h = ground (arith, eq_iff ty "source", eq_iff ty "function", source_ne_function)

kind-function : (ty : String) → ty ≡ "function" → (ty == "function") ≡ true
kind-function ty h = ground (arith, eq_iff ty "function")

pub remaining-source :
    (info : BreakpointInfo) (s : SessionManager)
    → info.ty ≡ "source"
    → remaining_of info s
      ≡ sources info.file (remove_first (same_line info) (source_breakpoints_for_file info.file s))
unfolding remaining_of
remaining-source info s h = rw (kind-source info.ty h).1

remaining-function :
    (info : BreakpointInfo) (s : SessionManager)
    → info.ty ≡ "function"
    → remaining_of info s ≡ functions (remove_first (same_name info) (all_function_breakpoints s))
unfolding remaining_of
remaining-function info s h = rw (kind-function info.ty h)

pub tracked-source :
    (id : ℤ) (info : BreakpointInfo) (s : SessionManager)
    → breakpoint_info id s ≡ some info
    → info.ty ≡ "source"
    → source_breakpoints_for_file info.file (remove_breakpoint_by_id id s).1
      ≡ remove_first (same_line info) (source_breakpoints_for_file info.file s)
tracked-source id info s e h =
    (remove_known id id info.file s info e).1 ∙ rw ((kind-source info.ty h).0, ==_refl info.file)

tracked-function :
    (id : ℤ) (info : BreakpointInfo) (s : SessionManager)
    → breakpoint_info id s ≡ some info
    → info.ty ≡ "function"
    → all_function_breakpoints (remove_breakpoint_by_id id s).1
      ≡ remove_first (same_name info) (all_function_breakpoints s)
tracked-function id info s e h =
    (remove_known id id info.file s info e).2 ∙ rw (kind-function info.ty h)

removed-remaining :
    (id : ℤ) (info : BreakpointInfo) (s : SessionManager)
    → breakpoint_info id s ≡ some info
    → HasKind info
    → tracked_of (remaining_of info s) (remove_breakpoint_by_id id s).1 ≡ remaining_of info s
removed-remaining id info s e (inl kind) =
    rw (remaining-source info s kind) (ap (sources info.file) (tracked-source id info s e kind))
removed-remaining id info s e (inr kind) =
    rw (remaining-function info s kind) (ap functions (tracked-function id info s e kind))

-- When the id is tracked, as a source or a function breakpoint, and the list that was sent is the
-- remaining one, the backend's answer makes the session track just the list that was sent and forget
-- the id, and is no error.
pub remove_breakpoint-sent :
    (p : PendingRemoval) (info : BreakpointInfo) (results : List BreakpointResult) (sv : ToolServer)
    → breakpoint_info p.id sv.session ≡ some info
    → HasKind info
    → p.remaining ≡ remaining_of info sv.session
    → (is_error (remove_breakpoint_end p (ok results) sv).0 ≡ false)
      × (tracked_of p.remaining (remove_breakpoint_end p (ok results) sv).1.session ≡ p.remaining)
      × (breakpoint_info p.id (remove_breakpoint_end p (ok results) sv).1.session ≡ none)
unfolding remove_breakpoint_end breakpoint_info
remove_breakpoint-sent p info results sv e kind sent = (
  rw e refl,
  rw sent (removed-remaining p.id info sv.session e kind),
  (remove_known p.id p.id "" sv.session info e).0 ∙ rw (==_refl p.id),
)
