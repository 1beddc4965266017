-- ===== src/Tools/Execution/Begin.antt =====
-- When a resume is sent to the backend.
use debug_mcp.Prelude.{
  ℤ, String, ◌≡◌, refl, ◌⊎◌, inl, inr, true, false, some, arith, is_positive, ok, Result-cases,
}
use debug_mcp.Session.State.{stopped, running}
use debug_mcp.Session.Manager.{SessionManager, check_state, set_state}
use debug_mcp.Tools.Json.{Serde}
use debug_mcp.Tools.Args.{Args, explicit_positive_thread_id, positive_thread}
use debug_mcp.Tools.Errors.{OpError}
use debug_mcp.Tools.Response.{error}
use debug_mcp.Tools.Server.{Handle, ToolServer, done, waits, with_session}
use debug_mcp.Tools.Execution.{
  Resume, PendingResume, resume, resume_checks, resolve_thread_id, last_thread, pending,
}

-- The thread is the explicit one, then positive, or that of the last stop.
abbrev pub IsThread : SessionManager → ℤ → Type 0
IsThread s tid = (is_positive tid ≡ true) ⊎ (tid ≡ last_thread s)

resolve-IsThread :
    (serde : Serde) (args : Args) (s : SessionManager) (tid : ℤ)
    → resolve_thread_id serde args s ≡ ok tid
    → IsThread s tid
unfolding resolve_thread_id explicit_positive_thread_id positive_thread
resolve-IsThread serde args s tid h = ground arith

checks-eq-ok :
    (serde : Serde) (args : Args) (op_err : OpError) (sv : ToolServer) (tid : ℤ) (handle : Handle)
    → resume_checks serde args op_err sv ≡ ok (tid, handle)
    → (sv.session.state ≡ stopped)
      × (sv.session.is_dump ≡ false)
      × (sv.backend ≡ some handle)
      × IsThread sv.session tid
unfolding resume_checks check_state
checks-eq-ok serde args op_err sv tid handle h =
    ground (arith, resolve-IsThread serde args sv.session tid)

-- A resume either is refused with an error and changes nothing, or waits for the connected backend;
-- then the session was stopped and no crash dump, its epoch is kept, and its state is `running`.
pub resume_lem :
    (serde : Serde) (args : Args) (call : Resume) (op_err : OpError) (timeout_msg : String)
    (sv : ToolServer)
    → ((e : String) × (resume serde args call op_err timeout_msg sv ≡ (done (error e), sv)))
      ⊎ ((p : PendingResume) × (resume serde args call op_err timeout_msg sv
            ≡ (waits p, with_session (set_state running sv.session) sv))
          × (sv.session.state ≡ stopped)
          × (sv.session.is_dump ≡ false)
          × (sv.backend ≡ some p.handle)
          × (p.generation ≡ sv.session.generation)
          × IsThread sv.session p.thread_id)
unfolding resume
resume_lem serde args call op_err timeout_msg sv =
    elim (Result-cases (resume_checks serde args op_err sv)) [
      | inr (e, refused) ↦ inl (e, rw (refused, resume))
      | inl ((tid, handle), passed) ↦
          let (st, live, connected, thread) = checks-eq-ok serde args op_err sv tid handle passed in
          inr (
            pending args call op_err timeout_msg sv tid handle,
            rw (passed, resume),
            st,
            live,
            connected,
            refl,
            thread,
          )
    ]
