-- ===== src/Session/Pump.antt =====
-- crates/mcp-session/src/pump.rs: the task that drains a backend's events into the session, with the
-- generation that it captured when it was spawned. Other calls run between two events.
use debug_mcp.Prelude.{ℕ, List, [], ◌∷◌}
use debug_mcp.Core.Types.{BackendEvent, output, terminated}
use debug_mcp.Session.Output.{append}
use debug_mcp.Session.Manager.{SessionManager, set_output, terminate_if_generation}

-- One round of the loop.
unfoldable pub pump_event : ℕ → BackendEvent → SessionManager → SessionManager
unfolding append set_output terminate_if_generation
pump_event generation (output category text) s = set_output (append category text s.output) s
pump_event generation (terminated code) s = (terminate_if_generation generation code s).1

unfoldable pub pump : ℕ → List BackendEvent → SessionManager → SessionManager
unfolding pump_event
pump generation [] s = s
pump generation (event ∷ events) s = pump generation events (pump_event generation event s)
