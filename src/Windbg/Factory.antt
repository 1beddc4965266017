-- ===== src/Windbg/Factory.antt =====
-- crates/windbg-backend/src/factory.rs: the stream of the events of a backend, and the end of
-- `connect`.
pub mod Ends
use debug_mcp.Prelude.{
  ℤ, String, Bool, true, false, Option, none, some, List, [], ◌∷◌, ◌++◌, if◌then◌else◌, Result, ok,
  err,
}
use debug_mcp.Prelude.Text.{◌<>◌}
use debug_mcp.Core.Types.{BackendEvent}
use debug_mcp.Core.Error.{BackendError}
use debug_mcp.Dbgeng.Callbacks.{OutputKind}

unfoldable pub category_for : OutputKind → String
category_for OutputKind.normal = "stdout"
category_for OutputKind.error = "stderr"
category_for OutputKind.warning = "stderr"
category_for OutputKind.prompt = "console"
category_for (OutputKind.other bits) = "console"

-- The channels of a stream as they are at one time: the lines that were sent and are not received yet,
-- what came of the engine's terminated signal (a sender that was dropped leaves no code), whether the
-- backend was dropped, and whether the end was emitted.
pub record StreamState : Type 0 where
  pub lines : List (OutputKind × String)
  pub term : Option (Option ℤ)
  pub backend_dropped : Bool
  pub terminated : Bool

-- The race of the two signals, the engine's first.
unfoldable pub terminate : StreamState → Option (Option ℤ)
terminate s = elim s.term [
  | some code ↦ some code
  | none ↦ if s.backend_dropped then some none else none
]

pub data Poll : Type 0 where
  pending : Poll
  yields : BackendEvent → StreamState → Poll
  ends : Poll

abbrev end_of : Option (Option ℤ) → StreamState → Poll
end_of none s = pending
end_of (some code) s = yields (BackendEvent.terminated code) (record s { terminated = true })

abbrev next_line : List (OutputKind × String) → StreamState → Poll
next_line [] s = end_of (terminate s) s
next_line ((kind, text) ∷ lines) s =
    yields (BackendEvent.output (category_for kind) text) (record s { lines = lines })

-- A poll of the stream: the lines before the end. An output channel that is closed and one that is
-- empty both leave the end to wait for.
unfoldable pub poll : StreamState → Poll
unfolding category_for terminate
poll s = if s.terminated then ends else next_line s.lines s

-- What the engine's thread signalled of its readiness, or that it ended before; and whether it took the
-- output sink.
unfoldable pub connect : Option (Result String (Unit {0})) → Bool → Result BackendError (Unit {0})
connect none sink_taken =
    err (BackendError.spawn "failed to initialize DbgEng: engine thread exited before readiness")
connect (some (err e)) sink_taken = err (BackendError.detect ("failed to initialize DbgEng: " <> e))
connect (some (ok ready)) sink_taken =
    if sink_taken
    then ok tt
    else err
        (BackendError.spawn "failed to initialize DbgEng: engine thread closed before sink install")
