-- ===== src/Tools/Inspection/Backtrace.antt =====
-- What a backtrace leaves behind for `variables` and `evaluate`.
use debug_mcp.Prelude.{ℤ, Option, none, some, List, [], ◌≡◌, arith, ok, int_eq}
use debug_mcp.Prelude.Maps
use debug_mcp.Core.Types.{Frame}
use debug_mcp.Session.Manager.{set_frame_mapping}
use debug_mcp.Tools.Server.{ToolServer}
use debug_mcp.Tools.Execution.{last_thread}
use debug_mcp.Tools.Frames.{Lookup, known, asks, lookup_frame}
use debug_mcp.Tools.Frames.Cached.{last_id, get-index_frames}
use debug_mcp.Tools.Inspection.{PendingTrace, backtrace_end}

-- A frame is known by the last id that its index is listed with, else a stack trace is asked for.
abbrev pub looked_up : Option ℤ → ℤ → Lookup
looked_up none thread_id = asks thread_id
looked_up (some id) thread_id = known id

-- Behind a backtrace that the backend answered, an index is known exactly when the answer lists it,
-- by the last id it is listed with, whatever was known before; for every other index `variables`
-- and `evaluate` ask for the stack of the thread that stopped last.
pub backtrace-lookup :
    (p : PendingTrace) (frames : List Frame) (total i : ℤ) (sv : ToolServer)
    → lookup_frame i (backtrace_end p (ok (frames, total)) sv).1.session
      ≡ looked_up (last_id i frames none) (last_thread sv.session)
unfolding lookup_frame backtrace_end set_frame_mapping Maps.get
backtrace-lookup p frames total i sv = ground (arith, get-index_frames i frames [])
