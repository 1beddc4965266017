-- ===== src/Tools/Breakpoints/Moved.antt =====
-- A breakpoint that the debugger resolves at another line than the requested one: the active list has
-- the requested line, the metadata the resolved one, and removal compares the two.
use debug_mcp.Prelude.{
  ℤ, ◌≡◌, ◌≢◌, refl, ap, ◌∙◌, false, List, [], ◌∷◌, ◌++◌, arith, any, remove_first,
  remove_first_none, ◌==◌, ==_iff, ==_refl, string_eq, int_eq,
}
use debug_mcp.Core.Types.{SourceBp, BreakpointResult}
use debug_mcp.Session.Manager.{SessionManager}
use debug_mcp.Session.Manager.Tracking.{
  same_line, source_breakpoints_for_file, remove_breakpoint_by_id, source_bp,
}
use debug_mcp.Tools.Breakpoints.{SourceRequest, source_info, commit_source, sources, remaining_of}
use debug_mcp.Tools.Breakpoints.Transactions.{commit_source_lem, commit_source-sent}
use debug_mcp.Tools.Breakpoints.Removal.{remaining-source, tracked-source}

-- No active breakpoint of the file is at the line.
abbrev pub NoneAt : SourceRequest → ℤ → SessionManager → Type 0
NoneAt q line s =
    any (λ (bp : SourceBp). bp.line == line) (source_breakpoints_for_file q.file s) ≡ false

any-append :
    (xs : List SourceBp) (q : SourceRequest) (line : ℤ)
    → q.line ≢ line
    → any (λ (bp : SourceBp). bp.line == line) xs ≡ false
    → any (λ (bp : SourceBp). bp.line == line) (xs ++ source_bp q.line q.condition ∷ []) ≡ false
unfolding any
any-append [] q line moved h = ground (arith, ==_iff q.line line)
any-append (x ∷ xs) q line moved h = ground (arith, any-append xs q line moved)

-- A source breakpoint is set, resolved at a line other than the requested one at which the file has
-- no active breakpoint, and removed by its id. The list that is sent for the removal, and that the
-- session keeps, still has the breakpoint at the requested line.
pub remove_moved :
    (q : SourceRequest) (bp : BreakpointResult) (s : SessionManager)
    → q.line ≢ bp.line
    → NoneAt q bp.line s
    → (remaining_of (source_info q bp) (commit_source q bp s)
        ≡ sources q.file
            (source_breakpoints_for_file q.file s ++ source_bp q.line q.condition ∷ []))
      × (source_breakpoints_for_file q.file (remove_breakpoint_by_id bp.id (commit_source q bp s)).1
          ≡ source_breakpoints_for_file q.file s ++ source_bp q.line q.condition ∷ [])
remove_moved q bp s moved free =
    let kept =
      remove_first_none (same_line (source_info q bp)) _ (any-append _ q bp.line moved free) in
    let listed =
      ap (remove_first (same_line (source_info q bp))) (commit_source-sent q bp s) ∙ kept in
    let known = (commit_source_lem q bp s q.file bp.id).1 ∙ rw (==_refl bp.id) in
    (
      remaining-source (source_info q bp) (commit_source q bp s) refl ∙ ap (sources q.file) listed,
      tracked-source bp.id (source_info q bp) (commit_source q bp s) known refl ∙ listed,
    )
