-- ===== src/Tools/Windbg/Connect.antt =====
-- How the load of a crash dump ends.
use debug_mcp.Prelude.{
  ◌≡◌, refl, ◌⊎◌, inl, inr, true, false, Option, none, some, arith, ok, err, String,
}
use debug_mcp.Core.Types.{DumpOutcome, StopInfo}
use debug_mcp.Session.State.{stopped}
use debug_mcp.Session.Manager.{SessionManager, check_state, set_state, set_last_stopped, set_dump}
use debug_mcp.Session.Manager.Valid.{IsValid}
use debug_mcp.Tools.Json.{Serde}
use debug_mcp.Tools.Args.{Args}
use debug_mcp.Tools.Errors.{OpError}
use debug_mcp.Tools.Response.{RespBuilder, error, is_error}
use debug_mcp.Tools.Server.{ToolServer, done, Reply, replied, cancelled}
use debug_mcp.Tools.Execution.{Resume, resume, resume_checks, dump_no_continue}
use debug_mcp.Tools.Lifecycle.Phases.{blank, cleanup-blank}
use debug_mcp.Tools.Windbg.{Opened, dump_loaded, dump_stop, open_crash_dump_end}

-- A stopped session on a crash dump.
pub record OnDump (s : SessionManager) : Type 0 where
  pub state : s.state ≡ stopped
  pub dump : s.is_dump ≡ true

stop-OnDump :
    (stop : Option StopInfo) (b : RespBuilder) (s : SessionManager)
    → OnDump s
    → OnDump (dump_stop stop b s).1
unfolding dump_stop set_last_stopped
stop-OnDump none b s h = h
stop-OnDump (some info) b s h = record { state = h.state; dump = h.dump }

loaded-OnDump :
    (path : String) (outcome : DumpOutcome) (s : SessionManager)
    → OnDump (dump_loaded path outcome s).1
unfolding dump_loaded set_state set_dump
loaded-OnDump path outcome s = stop-OnDump outcome.stop _ _ (record { state = refl; dump = refl })

resume-refused :
    (serde : Serde) (args : Args) (call : Resume) (op_err : OpError) (timeout_msg : String)
    (sv : ToolServer)
    → OnDump sv.session
    → resume serde args call op_err timeout_msg sv ≡ (done (error dump_no_continue), sv)
unfolding resume resume_checks check_state
resume-refused serde args call op_err timeout_msg sv h = ground (arith, h.state, h.dump)

-- The end of the load of a crash dump, in a valid session: either the dump was loaded, the answer is
-- no error, the session is stopped, and every `continue` and step that follows at once is refused as
-- one of a crash dump and changes nothing; or the answer is an error, and the server is as new but
-- for the epoch, which is one further.
pub open_crash_dump_end_lem :
    (serde : Serde) (args : Args) (call : Resume) (op_err : OpError) (timeout_msg : String)
    (o : Opened) (reply : Reply DumpOutcome) (sv : ToolServer)
    → IsValid sv.session
    → ((is_error (open_crash_dump_end o reply sv).0 ≡ false)
        × ((open_crash_dump_end o reply sv).1.session.state ≡ stopped)
        × (resume serde args call op_err timeout_msg (open_crash_dump_end o reply sv).1
            ≡ (done (error dump_no_continue), (open_crash_dump_end o reply sv).1)))
      ⊎ ((is_error (open_crash_dump_end o reply sv).0 ≡ true)
          × ((open_crash_dump_end o reply sv).1 ≡ blank sv))
unfolding open_crash_dump_end
open_crash_dump_end_lem serde args call op_err timeout_msg o cancelled sv v =
    inr (refl, cleanup-blank sv v)
open_crash_dump_end_lem serde args call op_err timeout_msg o (replied (err e)) sv v =
    inr (refl, cleanup-blank sv v)
open_crash_dump_end_lem serde args call op_err timeout_msg o (replied (ok outcome)) sv v =
    let on = loaded-OnDump o.opening.target outcome sv.session in
    inl (refl, on.state, resume-refused serde args call op_err timeout_msg _ on)
