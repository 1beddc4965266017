-- ===== src/Windbg/Breakpoints.antt =====
-- crates/windbg-backend/src/backend.rs: the breakpoints of the WinDbg backend. A request lists all
-- that a file, or the category of functions, is to have; the table knows what the engine has. The
-- code has the two passes once for source lines and once for function names; here they are once,
-- over the keys, with what differs as arguments.
pub mod Adding
pub mod Removing
pub mod Agreement
pub mod Refinement
pub mod Table
pub mod Leftover
pub mod Zero
use package.text.Mathlib.Text.{starts_with}
use debug_mcp.Prelude.{
  ℕ, ℤ, pos, String, Bool, true, false, ◌||◌, Option, none, some, List, [], ◌∷◌, ◌++◌, Dict, any,
  map, is_positive, is_empty, if◌then◌else◌, Result, ok, err, ◌>>◌, ◌==◌, PartialEq, string_eq,
  nat_eq,
}
use debug_mcp.Prelude.Text.{◌<>◌, show_ℤ}
use debug_mcp.Prelude.Maps
use debug_mcp.Core.Types.{SourceBp, FunctionBp, BreakpointResult}
use debug_mcp.Core.Error.{
  BackendError, detect, spawn, send, protocol, dap, closed, timeout, unsupported, display,
}
use debug_mcp.Windbg.Engine.{BpLoc, file_line, function, EngineOps, call, u32_of}

pub record BreakpointTable : Type 0 where
  pub source : Dict String (Dict ℕ BreakpointResult)
  pub function : Dict String BreakpointResult

abbrev unverified : ℤ → String → BreakpointResult
unverified line message = record {
  id = pos 0;
  verified = false;
  line = line;
  message = message;
  rejected = false;
}

-- Only the end of the engine's thread ends the batch.
unfoldable pub bp_result_or_continue :
    Result BackendError BreakpointResult → ℤ → Result BackendError BreakpointResult
unfolding display
bp_result_or_continue (ok r) line = ok r
bp_result_or_continue (err closed) line = err closed
bp_result_or_continue (err (detect m)) line = ok (unverified line (display (detect m)))
bp_result_or_continue (err (spawn m)) line = ok (unverified line (display (spawn m)))
bp_result_or_continue (err (send m)) line = ok (unverified line (display (send m)))
bp_result_or_continue (err (protocol m)) line = ok (unverified line (display (protocol m)))
bp_result_or_continue (err (dap m)) line = ok (unverified line (display (dap m)))
bp_result_or_continue (err timeout) line = ok (unverified line (display timeout))
bp_result_or_continue (err (unsupported m)) line = ok (unverified line (display (unsupported m)))

-- What one removal comes to.
abbrev removal : Result BackendError (Unit {0}) → Result BackendError (Unit {0})
removal (err closed) = err closed
removal r = ok tt

module _ {S : Type 0} (ops : EngineOps S) where
  unfoldable pub remove_engine_breakpoint : ℤ → Option S → Result BackendError (Unit {0}) × Option S
  unfolding call
  remove_engine_breakpoint id e =
      if is_positive id
      then (let (r, e') = call (ops.remove_breakpoint id) e in (removal r, e'))
      else (ok tt, e)

-- A breakpoint that is asked for: refused, or of a key, with its condition and the line of the
-- result when the engine cannot set it.
pub data Wanted (K : Type 0) : Type 0 where
  refused : BreakpointResult → Wanted K
  at_key : K → String → ℤ → Wanted K

-- The keys asked for so far, the results in their order, and the map that is built.
pub record Batch (K : Type 0) : Type 0 where
  pub desired : List K
  pub results : List BreakpointResult
  pub new_map : Dict K BreakpointResult

module _ {K : Type 0} ⦃q : PartialEq K⦄ where
  abbrev pub is_desired : K → List K → Bool
  is_desired k = any (λ j. j == k)

  abbrev pub refuse : BreakpointResult → Batch K → Batch K
  refuse r p = record p { results = p.results ++ r ∷ [] }

  -- One that is set already keeps its result, with the engine's id.
  unfoldable pub reuse : K → BreakpointResult → Batch K → Batch K
  unfolding Maps.insert
  reuse k r p = record {
    desired = k ∷ p.desired;
    results = p.results ++ r ∷ [];
    new_map = Maps.insert k r p.new_map;
  }

  -- Only a verified result is tracked.
  unfoldable pub note_set : K → BreakpointResult → Batch K → Batch K
  unfolding Maps.insert
  note_set k r p = record {
    desired = k ∷ p.desired;
    results = p.results ++ r ∷ [];
    new_map = if r.verified then Maps.insert k r p.new_map else p.new_map;
  }

module _ {S : Type 0} (ops : EngineOps S) {K : Type 0} ⦃q : PartialEq K⦄ where
  -- The loop over what was set before; the end of the thread ends it.
  unfoldable pub remove_pass :
      List K → Dict K BreakpointResult → Option S → Result BackendError (Unit {0}) × Option S
  unfolding remove_engine_breakpoint any
  remove_pass desired [] e = (ok tt, e)
  remove_pass desired ((k, old) ∷ prior) e = elim (is_desired k desired) [
    | true ↦ remove_pass desired prior e
    | false ↦
        let (r, e') = remove_engine_breakpoint ops old.id e in
        elim r [ err failure ↦ (err failure, e') | ok done ↦ remove_pass desired prior e' ]
  ]

module _ {S : Type 0} (ops : EngineOps S) {K : Type 0} ⦃q : PartialEq K⦄ (loc_of : K → BpLoc) where
  -- The loop over the request.
  unfoldable pub add_pass :
      Dict K BreakpointResult
      → List (Wanted K)
      → Batch K
      → Option S
      → Result BackendError (Batch K) × Option S
  unfolding call reuse note_set bp_result_or_continue Maps.get
  add_pass prior [] p e = (ok p, e)
  add_pass prior (refused r ∷ ws) p e = add_pass prior ws (refuse r p) e
  add_pass prior (at_key k condition line ∷ ws) p e = elim (Maps.get k prior) [
    | some existing ↦ add_pass prior ws (reuse k existing p) e
    | none ↦
        let (outcome, e') = call (ops.set_breakpoint (loc_of k) condition) e in
        elim (bp_result_or_continue outcome line) [
          | err failure ↦ (err failure, e')
          | ok r ↦ add_pass prior ws (note_set k r p) e'
        ]
  ]

  -- Behind the first pass: the results, and the map to commit where that pass went through. The
  -- end of the thread in the second pass comes out behind the commit.
  abbrev remove_stale :
      Dict K BreakpointResult
      → Result BackendError (Batch K) × Option S
      → Result BackendError (List BreakpointResult) × Option (Dict K BreakpointResult) × Option S
  remove_stale prior (err failure, e) = (err failure, none, e)
  remove_stale prior (ok p, e) =
      let (removed, e') = remove_pass ops p.desired prior e in
      (removed >> ok p.results, some p.new_map, e')

  unfoldable pub reconcile :
      Dict K BreakpointResult
      → List (Wanted K)
      → Option S
      → Result BackendError (List BreakpointResult) × Option (Dict K BreakpointResult) × Option S
  unfolding add_pass remove_pass
  reconcile prior ws e =
      remove_stale prior (add_pass prior ws (record { desired = []; results = []; new_map = [] }) e)

-- A source line has to fit a `u32`.
unfoldable pub wanted_line : String → SourceBp → Wanted ℕ
unfolding show_ℤ
wanted_line file bp = elim (u32_of bp.line) [
  | none ↦ refused (unverified bp.line (file <> ":" <> show_ℤ bp.line <> ": line out of range"))
  | some line ↦ at_key line bp.condition bp.line
]

-- Of the name without the white space in front.
unfoldable pub is_bare_address_name : String → Bool
is_bare_address_name trimmed = starts_with trimmed "0x" || starts_with trimmed "0X"

abbrev pub address_bp_guidance : String
address_bp_guidance =
    "address breakpoints are not ASLR-stable when set via set_function_breakpoint under WinDbg (they would be misplaced on relaunch); use run_command(\"bp <addr>\") for an address breakpoint instead"

-- The standard library's `trim_start` is an argument.
module _ (trim_start : String → String) where
  unfoldable pub wanted_function : FunctionBp → Wanted String
  unfolding is_bare_address_name
  wanted_function bp =
      if is_bare_address_name (trim_start bp.name)
      then refused (record (unverified (pos 0) address_bp_guidance) { rejected = true })
      else at_key bp.name bp.condition (pos 0)

-- The lines of a file, `get(file).cloned().unwrap_or_default()`.
unfoldable pub lines_of : String → BreakpointTable → Dict ℕ BreakpointResult
unfolding Maps.get
lines_of file table = elim (Maps.get file table.source) [ none ↦ [] | some m ↦ m ]

-- The commit of a file's lines, and of the functions; without a map nothing is committed.
unfoldable pub commit_lines :
    String → Option (Dict ℕ BreakpointResult) → BreakpointTable → BreakpointTable
unfolding Maps.insert Maps.remove
commit_lines file none table = table
commit_lines file (some []) table = record table { source = Maps.remove file table.source }
commit_lines file (some (entry ∷ m)) table = record table {
  source = Maps.insert file (entry ∷ m) table.source;
}

unfoldable pub commit_functions :
    Option (Dict String BreakpointResult) → BreakpointTable → BreakpointTable
commit_functions none table = table
commit_functions (some m) table = record table { function = m }

module _ {S : Type 0} (ops : EngineOps S) where
  unfoldable pub set_source_breakpoints :
      String
      → List SourceBp
      → BreakpointTable
      → Option S
      → Result BackendError (List BreakpointResult) × BreakpointTable × Option S
  unfolding reconcile wanted_line lines_of commit_lines
  set_source_breakpoints file bps table e =
      let (r, m, e') =
        reconcile ops (file_line file) (lines_of file table) (map (wanted_line file) bps) e in
      (r, commit_lines file m table, e')

  unfoldable pub set_function_breakpoints :
      (String → String)
      → List FunctionBp
      → BreakpointTable
      → Option S
      → Result BackendError (List BreakpointResult) × BreakpointTable × Option S
  unfolding reconcile wanted_function commit_functions
  set_function_breakpoints trim_start bps table e =
      let (r, m, e') =
        reconcile ops function table.function (map (wanted_function trim_start) bps) e in
      (r, commit_functions m table, e')
