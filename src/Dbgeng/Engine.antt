-- ===== src/Dbgeng/Engine.antt =====
-- crates/dbgeng-sys/src/engine.rs: the engine's own state, and what its operations are made of. An
-- operation answers, or does not come back: a wait that goes on without end.
pub mod Rules
pub mod Wait
pub mod Execution
pub mod Stale
pub mod Conditions
pub mod Ending
pub mod Lifecycle
pub mod Extensions
pub mod Breakpoints
pub mod Inspection
use debug_mcp.Prelude.{
  ℕ, String, Bool, true, false, Option, none, some, List, Dict, [], if◌then◌else◌, Result, ok, err,
  map_err,
}
use debug_mcp.Dbgeng.Error.{ComError, EngineError, op}
use debug_mcp.Dbgeng.Callbacks.{CallbackState, callbacks}
use debug_mcp.Dbgeng.Com.{Called}
use debug_mcp.Dbgeng.Callbacks

pub record Engine (C : Type 0) : Type 0 where
  pub world : C
  pub callback_state : CallbackState
  pub is_dump : Bool
  pub interrupt_flag : Bool
  pub breakpoint_conditions : Dict ℕ String
  pub extensions_loaded : Bool

abbrev pub Act : Type 0 → Type 0 → Type 0
Act C A = Engine C → Option (Result EngineError A × Engine C)

-- The engine over interfaces that were just created.
unfoldable pub create : {C : Type 0} → C → Engine C
unfolding Callbacks.new
create c = record {
  world = c;
  callback_state = Callbacks.new;
  is_dump = false;
  interrupt_flag = false;
  breakpoint_conditions = [];
  extensions_loaded = false;
}

module _ {C A B : Type 0} where
  -- What follows an answer, the `?` operator.
  abbrev pub next :
      Option (Result EngineError A × Engine C)
      → (A → Act C B)
      → Option (Result EngineError B × Engine C)
  next none k = none
  next (some (err x, e)) k = some (err x, e)
  next (some (ok a, e)) k = k a e

  infixl 5 ◌>>=◌
  abbrev pub ◌>>=◌ : Act C A → (A → Act C B) → Act C B
  (m >>= k) e = next (m e) k

module _ {C B : Type 0} where
  infixl 5 ◌>>◌
  abbrev pub ◌>>◌ : Act C (Unit {0}) → Act C B → Act C B
  m >> k = m >>= λ _. k

module _ {C A : Type 0} where
  abbrev pub pure : A → Act C A
  pure a e = some (ok a, e)

  abbrev pub fail : EngineError → Act C A
  fail x e = some (err x, e)

  abbrev pub give : Result EngineError A → Act C A
  give r e = some (r, e)

  -- A value of the engine's state.
  abbrev pub asks : (Engine C → A) → Act C A
  asks f e = some (ok (f e), e)

  -- A call of COM whose error is looked at; the callbacks that it made are run.
  unfoldable pub attempt : Called C A → Act C (Result ComError A)
  unfolding callbacks
  attempt called e =
      let ((r, events), c) = called e.world in
      some (ok r, record e { world = c; callback_state = callbacks events e.callback_state })

  -- A call of COM whose error ends the operation.
  unfoldable pub call : String → Called C A → Act C A
  unfolding attempt
  call context called = attempt called >>= λ r. give (map_err (op context) r)

  -- What is asked of the clock, the other threads and the files.
  abbrev pub outside : (C → A × C) → Act C A
  outside ask e = let (a, c) = ask e.world in some (ok a, record e { world = c })

abbrev pub changes : {C : Type 0} → (Engine C → Engine C) → Act C (Unit {0})
changes f e = some (ok tt, f e)

abbrev pub conditions_cleared : {C : Type 0} → Engine C → Engine C
conditions_cleared e = record e { breakpoint_conditions = [] }
