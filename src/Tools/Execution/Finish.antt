-- ===== src/Tools/Execution/Finish.antt =====
-- What the end of a resume writes to the session, after whatever calls came during the wait.
use debug_mcp.Prelude.{◌^◌, ◌<◌, ◌≡◌, refl, ap, ◌∙◌, none, List, arith, eqb, ok, if◌then◌else◌}
use debug_mcp.Core.Types.{StopOutcome}
use debug_mcp.Session.State.{stopped, terminated}
use debug_mcp.Session.Manager.{SessionManager, set_state, note_exit, set_last_stopped, set_output}
use debug_mcp.Session.Manager.Calls.{Call, run, reset_count}
use debug_mcp.Session.Manager.Generation.{guarded_write}
use debug_mcp.Tools.Server.{ToolServer, replied}
use debug_mcp.Tools.Execution.{
  PendingResume, record_stop, stop_response, handle_stop_result, resume_end,
}

stop_response-inner :
    (outcome : StopOutcome) (s : SessionManager) → (stop_response outcome s).1.inner ≡ s.inner
unfolding stop_response set_output
stop_response-inner (StopOutcome.stopped info) s = refl
stop_response-inner (StopOutcome.exited code) s = refl
stop_response-inner StopOutcome.terminated s = refl

-- The writes of an outcome to the session.
abbrev pub written : StopOutcome → SessionManager → SessionManager
written (StopOutcome.stopped info) s = set_last_stopped info (set_state stopped s)
written (StopOutcome.exited code) s = set_state terminated (note_exit code s)
written StopOutcome.terminated s = set_state terminated s

record_stop_lem :
    (outcome : StopOutcome) (cs : List Call) (s : SessionManager)
    → s.generation < 2 ^ 64
    → reset_count cs < 2 ^ 64
    → record_stop outcome s.generation (run cs s)
      ≡ (if eqb (reset_count cs) 0 then written outcome (run cs s) else run cs s)
unfolding record_stop
record_stop_lem (StopOutcome.stopped info) cs s h few =
    ground (arith, guarded_write cs s h few stopped none)
record_stop_lem (StopOutcome.exited code) cs s h few =
    ground (arith, guarded_write cs s h few stopped code)
record_stop_lem StopOutcome.terminated cs s h few =
    ground (arith, guarded_write cs s h few terminated none)

-- A resume kept the epoch of its session, below 2 ^ 64, and calls with fewer than 2 ^ 64 resets came
-- during its wait. An outcome is then written to the session if none of the calls was a reset; if
-- one was, the state of the new session is left as it is, but for its output.
pub resume_end_outcome :
    (p : PendingResume) (outcome : StopOutcome) (cs : List Call) (s : SessionManager)
    (sv : ToolServer)
    → s.generation < 2 ^ 64
    → reset_count cs < 2 ^ 64
    → p.generation ≡ s.generation
    → sv.session ≡ run cs s
    → (resume_end p (replied (ok outcome)) sv).1.session.inner
      ≡ (if eqb (reset_count cs) 0 then written outcome (run cs s) else run cs s).inner
unfolding resume_end handle_stop_result
resume_end_outcome p outcome cs s sv h few gen now =
    rw (gen, now)
      (stop_response-inner outcome (record_stop outcome s.generation (run cs s))
        ∙ ap (λ (x : SessionManager). x.inner) (record_stop_lem outcome cs s h few))
