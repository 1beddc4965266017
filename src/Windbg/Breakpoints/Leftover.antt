-- ===== src/Windbg/Breakpoints/Leftover.antt =====
-- The table of crates/windbg-backend/src/backend.rs against an engine whose commands may fail, as
-- set_breakpoint and remove_breakpoint of crates/dbgeng-sys/src/engine.rs do. A set that fails behind
-- AddBreakpoint leaves a breakpoint, and a removal that fails leaves its own.
use debug_mcp.Prelude.{
  ℤ, String, Bool, false, ◌||◌, ◌&&◌, not, Option, none, some, Result, if◌then◌else◌, ◌≡◌, ◌==◌,
  int_eq, nat_eq, is_some,
}
use debug_mcp.Core.Types.{BreakpointResult}
use debug_mcp.Windbg.Engine.{BpLoc, EngineOps, placed}

-- What the commands do in an engine that has `at s id` at the id, with an account `leftover` of what
-- the table cannot stand for: what a set that failed has added, and what is still there behind a
-- removal of it, whatever that has answered.
pub record IsLawful {S : Type 0} (ops : EngineOps S) (at : S → ℤ → Option BpLoc)
    (leftover : S → ℤ → Bool) : Type 0 where
  -- A set that succeeds puts one at an id that none had, and touches no other.
  pub fresh :
      (loc : BpLoc) (condition : String) (s s' : S) (r : Result String BreakpointResult) (id : ℤ)
      → ops.set_breakpoint loc condition s ≡ some (r, s')
      → placed r ≡ some id
      → at s id ≡ none
  pub set_at :
      (loc : BpLoc) (condition : String) (s s' : S) (r : Result String BreakpointResult) (id j : ℤ)
      → ops.set_breakpoint loc condition s ≡ some (r, s')
      → placed r ≡ some id
      → at s' j ≡ (if id == j then some loc else at s j)
  pub set_leftover :
      (loc : BpLoc) (condition : String) (s s' : S) (r : Result String BreakpointResult) (id j : ℤ)
      → ops.set_breakpoint loc condition s ≡ some (r, s')
      → placed r ≡ some id
      → leftover s' j ≡ (if id == j then false else leftover s j)
  -- One that does not succeed touches none that is there; what it adds is left over.
  pub failed_set_at :
      (loc : BpLoc) (condition : String) (s s' : S) (r : Result String BreakpointResult) (j : ℤ)
      (l : BpLoc)
      → ops.set_breakpoint loc condition s ≡ some (r, s')
      → placed r ≡ none
      → at s j ≡ some l
      → at s' j ≡ some l
  pub failed_set_leftover :
      (loc : BpLoc) (condition : String) (s s' : S) (r : Result String BreakpointResult) (j : ℤ)
      → ops.set_breakpoint loc condition s ≡ some (r, s')
      → placed r ≡ none
      → leftover s' j ≡ (leftover s j || (is_some (at s' j) && not (is_some (at s j))))
  -- No removal touches another.
  pub others_at :
      (id : ℤ) (s s' : S) (r : Result String (Unit {0})) (j : ℤ)
      → ops.remove_breakpoint id s ≡ some (r, s')
      → (id == j) ≡ false
      → at s' j ≡ at s j
  -- What is still there behind a removal of it is left over; a removal makes nothing else so.
  pub removed_leftover :
      (id : ℤ) (s s' : S) (r : Result String (Unit {0})) (j : ℤ)
      → ops.remove_breakpoint id s ≡ some (r, s')
      → leftover s' j ≡ (if id == j then is_some (at s' j) else leftover s j)

-- What is in the engine and not left over.
abbrev pub owned : {S : Type 0} → (S → ℤ → Option BpLoc) → (S → ℤ → Bool) → S → ℤ → Option BpLoc
owned at leftover s j = if leftover s j then none else at s j
