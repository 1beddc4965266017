-- ===== src/Windbg/Breakpoints/Zero.antt =====
-- The engine's first id, 0, over a sequence of requests.
use mathlib.Core.Path.{subst}
use debug_mcp.Prelude.{
  ℕ, ℤ, pos, String, true, Option, none, some, List, [], ◌∷◌, ok, ◌≡◌, ==_iff, arith, nat_eq,
  string_eq,
}
use debug_mcp.Prelude.Maps
use debug_mcp.Core.Types.{SourceBp, BreakpointResult}
use debug_mcp.Windbg.Engine.{BpLoc, file_line, EngineOps, call, u32_of}
use debug_mcp.Windbg.Breakpoints.{
  BreakpointTable, at_key, wanted_line, lines_of, add_pass, reconcile, remove_pass,
  remove_engine_breakpoint, bp_result_or_continue, note_set, commit_lines, set_source_breakpoints,
}

-- The table and the engine behind a sequence of requests for the lines of a file.
abbrev pub requests :
    {S : Type 0}
    → EngineOps S
    → String
    → List (List SourceBp)
    → BreakpointTable × Option S
    → BreakpointTable × Option S
requests ops file [] (table, e) = (table, e)
requests ops file (bps ∷ more) (table, e) =
    let (r, table', e') = set_source_breakpoints ops file bps table e in
    requests ops file more (table', e')

-- What the engine has at an id, while it runs.
abbrev pub located : {S : Type 0} → (S → Option BpLoc) → Option S → Option BpLoc
located at none = none
located at (some s) = at s

module _ {S : Type 0} (ops : EngineOps S) (file : String) where
  set_one :
      (bp : SourceBp) (line : ℕ) (table : BreakpointTable) (s s' : S) (r : BreakpointResult)
      → wanted_line file bp ≡ at_key line bp.condition bp.line
      → lines_of file table ≡ []
      → ops.set_breakpoint (file_line file line) bp.condition s ≡ some (ok r, s')
      → r.verified ≡ true
      → set_source_breakpoints ops file (bp ∷ []) table (some s) ≡ (
        ok (r ∷ []),
        record table { source = Maps.insert file ((line, r) ∷ []) table.source },
        some s',
      )
  unfolding set_source_breakpoints reconcile add_pass remove_pass commit_lines call
      bp_result_or_continue note_set Maps.get Maps.insert
  set_one bp line table s s' r fits untracked set verified =
      ground (arith, fits, untracked, set, verified)

  drop_one :
      (line : ℕ) (r : BreakpointResult) (table : BreakpointTable) (e : Option S)
      → lines_of file table ≡ (line, r) ∷ []
      → r.id ≡ pos 0
      → set_source_breakpoints ops file [] table e
        ≡ (ok [], record table { source = Maps.remove file table.source }, e)
  unfolding set_source_breakpoints reconcile add_pass remove_pass remove_engine_breakpoint
      commit_lines
  drop_one line r table e tracked zero = ground (arith, tracked, zero)

  sent_again :
      (bp : SourceBp) (line : ℕ) (table : BreakpointTable) (s : S)
      → wanted_line file bp ≡ at_key line bp.condition bp.line
      → lines_of file table ≡ []
      → (set_source_breakpoints ops file (bp ∷ []) table (some s)).2
        ≡ (call (ops.set_breakpoint (file_line file line) bp.condition) (some s)).1
  unfolding set_source_breakpoints reconcile add_pass remove_pass call bp_result_or_continue
      note_set Maps.get
  sent_again bp line table s fits untracked = ground (arith, fits, untracked)

  lines_of-insert :
      (m : Maps.Dict ℕ BreakpointResult) (table : BreakpointTable)
      → lines_of file (record table { source = Maps.insert file m table.source }) ≡ m
  unfolding lines_of
  lines_of-insert m table =
      ground (arith, Maps.get-insert file file m table.source, ==_iff file file)

  lines_of-remove :
      (table : BreakpointTable)
      → lines_of file (record table { source = Maps.remove file table.source }) ≡ []
  unfolding lines_of
  lines_of-remove table = ground (arith, Maps.get-remove file file table.source, ==_iff file file)

  wanted_fits :
      (bp : SourceBp) (line : ℕ)
      → u32_of bp.line ≡ some line
      → wanted_line file bp ≡ at_key line bp.condition bp.line
  unfolding wanted_line
  wanted_fits bp line fits = ground (arith, fits)

  -- When the engine sets a breakpoint at a line that fits, in a file with no tracked line,
  -- verified and with the id 0, and has it there, then behind a request for that line and one for
  -- no line of the file, the table tracks no line of the file but the engine still has the
  -- breakpoint at the id 0 where it was set; and a third request, for the line again, sends the
  -- same command to set it to that engine.
  pub drop_zero :
      (at : S → ℤ → Option BpLoc) (bp : SourceBp) (line : ℕ) (r : BreakpointResult)
      (table : BreakpointTable) (s s' : S)
      → u32_of bp.line ≡ some line
      → lines_of file table ≡ []
      → ops.set_breakpoint (file_line file line) bp.condition s ≡ some (ok r, s')
      → r.verified ≡ true
      → r.id ≡ pos 0
      → at s' r.id ≡ some (file_line file line)
      → (lines_of file (requests ops file ((bp ∷ []) ∷ [] ∷ []) (table, some s)).0 ≡ [])
        × (located (λ t. at t (pos 0)) (requests ops file ((bp ∷ []) ∷ [] ∷ []) (table, some s)).1
            ≡ some (file_line file line))
        × ((requests ops file ((bp ∷ []) ∷ [] ∷ (bp ∷ []) ∷ []) (table, some s)).1
            ≡ (call (ops.set_breakpoint (file_line file line) bp.condition) (some s')).1)
  drop_zero at bp line r table s s' fits untracked set verified zero placed =
      rw (set_one bp line table s s' r (wanted_fits bp line fits) untracked set verified) (
        rw
          (drop_one line r
            (record table { source = Maps.insert file ((line, r) ∷ []) table.source }) (some s')
            (lines_of-insert ((line, r) ∷ []) table) zero)
          (
            lines_of-remove
                (record table { source = Maps.insert file ((line, r) ∷ []) table.source }),
            subst (λ id. at s' id ≡ some (file_line file line)) zero placed,
            sent_again bp line
                (record table {
                  source = Maps.remove file (Maps.insert file ((line, r) ∷ []) table.source);
                })
                s' (wanted_fits bp line fits)
                (lines_of-remove
                  (record table { source = Maps.insert file ((line, r) ∷ []) table.source })),
          ))
