-- ===== src/Tools/Breakpoints/Transactions.antt =====
-- The breakpoint handlers as transactions: what a failure leaves, and what a success commits.
use debug_mcp.Prelude.{
  ℤ, String, ◌≡◌, refl, sym, ap, ◌∙◌, ◌⊎◌, inl, inr, true, false, Option, none, some, List, [], ◌∷◌,
  ◌++◌, arith, get_last?, if◌then◌else◌, Result, ok, err, ◌==◌, ==_refl, string_eq, int_eq,
  Result-cases, Option-cases, Bool-cases,
}
use debug_mcp.Prelude.Maps
use debug_mcp.Core.Types.{BreakpointResult}
use debug_mcp.Core.Error.{BackendError}
use debug_mcp.Session.State.{BreakpointInfo, idle, stopped, eqb_State, eqb_State_iff}
use debug_mcp.Session.Manager.{SessionManager, check_state}
use debug_mcp.Session.Manager.Tracking.{
  source_bp, function_bp, add_source_breakpoint, add_function_breakpoint, add_breakpoint_response,
  breakpoint_info, source_breakpoints_for_file, all_function_breakpoints,
}
use debug_mcp.Tools.Json.{Serde}
use debug_mcp.Tools.Args.{Args}
use debug_mcp.Tools.Response.{error, is_error}
use debug_mcp.Tools.Server.{ToolServer, done, waits}
use debug_mcp.Tools.Breakpoints.{
  SourceRequest, FunctionRequest, PendingSource, PendingFunction, source_info, function_info,
  handle_set_breakpoint, set_requested, source_request, set_breakpoint_end, matched, commit_source,
  set_function_breakpoint_end, function_answered, function_response, commit_function,
}

-- The two active lists and the metadata of a session after a breakpoint was committed.
pub commit_source_lem :
    (q : SourceRequest) (bp : BreakpointResult) (s : SessionManager) (file : String) (id : ℤ)
    → (source_breakpoints_for_file file (commit_source q bp s) ≡ (
        if q.file == file
        then source_breakpoints_for_file file s ++ source_bp q.line q.condition ∷ []
        else source_breakpoints_for_file file s))
      × (breakpoint_info id (commit_source q bp s)
          ≡ (if bp.id == id then some (source_info q bp) else breakpoint_info id s))
      × (all_function_breakpoints (commit_source q bp s) ≡ all_function_breakpoints s)
unfolding commit_source source_breakpoints_for_file breakpoint_info add_source_breakpoint
    add_breakpoint_response
commit_source_lem q bp s file id = (
  Maps.get_list-extend q.file file (source_bp q.line q.condition ∷ []) s.source_bps,
  Maps.get-insert bp.id id (source_info q bp) s.bp_responses,
  refl,
)

pub commit_source-sent :
    (q : SourceRequest) (bp : BreakpointResult) (s : SessionManager)
    → source_breakpoints_for_file q.file (commit_source q bp s)
      ≡ source_breakpoints_for_file q.file s ++ source_bp q.line q.condition ∷ []
commit_source-sent q bp s = (commit_source_lem q bp s q.file bp.id).0 ∙ rw (==_refl q.file)

-- The answer to a source breakpoint is one of two. It is an error that leaves the server as it was.
-- Or it is no error: the backend answered and a result is matched, the file's list has the
-- requested breakpoint behind the others, the matched result stands under its id, and no other list
-- or entry, nor the connection, is touched.
pub set_breakpoint_end_lem :
    (p : PendingSource) (reply : Result BackendError (List BreakpointResult)) (sv : ToolServer)
    (file : String) (id : ℤ)
    → ((is_error (set_breakpoint_end p reply sv).0 ≡ true)
        × ((set_breakpoint_end p reply sv).1 ≡ sv))
      ⊎ ((results : List BreakpointResult) × (bp : BreakpointResult) × (reply ≡ ok results)
          × (matched p.request.line results ≡ some bp)
          × (is_error (set_breakpoint_end p reply sv).0 ≡ false)
          × ((set_breakpoint_end p reply sv).1.backend ≡ sv.backend)
          × (source_breakpoints_for_file file (set_breakpoint_end p reply sv).1.session ≡ (
              if p.request.file == file
              then source_breakpoints_for_file file sv.session
                ++ source_bp p.request.line p.request.condition ∷ []
              else source_breakpoints_for_file file sv.session))
          × (breakpoint_info id (set_breakpoint_end p reply sv).1.session ≡ (
              if bp.id == id
              then some (source_info p.request bp)
              else breakpoint_info id sv.session))
          × (all_function_breakpoints (set_breakpoint_end p reply sv).1.session
              ≡ all_function_breakpoints sv.session))
unfolding set_breakpoint_end
set_breakpoint_end_lem p (err e) sv file id = inl (refl, refl)
set_breakpoint_end_lem p (ok results) sv file id =
    elim (Option-cases (matched p.request.line results)) [
      | inl e ↦ inl (rw (e, set_breakpoint_end), rw (e, set_breakpoint_end))
      | inr (bp, e) ↦
          let (listed, info, rest) = commit_source_lem p.request bp sv.session file id in
          inr (
            results,
            bp,
            refl,
            e,
            rw (e, set_breakpoint_end),
            rw (e, set_breakpoint_end),
            rw (e, set_breakpoint_end) listed,
            rw (e, set_breakpoint_end) info,
            rw (e, set_breakpoint_end) rest,
          )
    ]

-- A request passes its checks in the states `idle` and `stopped`.
source_request-eq-ok :
    (serde : Serde) (args : Args) (sv : ToolServer) (q : SourceRequest)
    → source_request serde args sv ≡ ok q
    → (sv.session.state ≡ idle) ⊎ (sv.session.state ≡ stopped)
unfolding source_request check_state
source_request-eq-ok serde args sv q h =
    ground (arith, eqb_State_iff idle sv.session.state, eqb_State_iff stopped sv.session.state)

requested-waits :
    (q : SourceRequest) (sv : ToolServer) (p : PendingSource)
    → set_requested q sv ≡ (waits p, sv)
    → (eqb_State sv.session.state idle ≡ false)
      × (sv.backend ≡ some p.handle)
      × (p.request ≡ q)
      × (p.bps ≡ source_breakpoints_for_file q.file sv.session ++ source_bp q.line q.condition ∷ [])
unfolding set_requested
requested-waits q sv p h = ground arith

handle-requested :
    (serde : Serde) (args : Args) (sv : ToolServer) (q : SourceRequest)
    → source_request serde args sv ≡ ok q
    → handle_set_breakpoint serde args sv ≡ set_requested q sv
unfolding handle_set_breakpoint
handle-requested serde args sv q e = rw (e, handle_set_breakpoint)

handle-refused :
    (serde : Serde) (args : Args) (sv : ToolServer) (why : String)
    → source_request serde args sv ≡ err why
    → handle_set_breakpoint serde args sv ≡ (done (error why), sv)
unfolding handle_set_breakpoint
handle-refused serde args sv why e = rw (e, handle_set_breakpoint)

-- When nothing came between the request of a source breakpoint that waits and an answer in which a
-- result is matched, the file's list becomes the list that was sent; the session was stopped and the
-- list went to its backend.
pub set_breakpoint-sent :
    (serde : Serde) (args : Args) (sv : ToolServer) (p : PendingSource)
    (results : List BreakpointResult) (bp : BreakpointResult)
    → handle_set_breakpoint serde args sv ≡ (waits p, sv)
    → matched p.request.line results ≡ some bp
    → (sv.session.state ≡ stopped)
      × (sv.backend ≡ some p.handle)
      × (source_breakpoints_for_file p.request.file (set_breakpoint_end p (ok results) sv).1.session
          ≡ p.bps)
unfolding set_breakpoint_end
set_breakpoint-sent serde args sv p results bp h e =
    elim (Result-cases (source_request serde args sv)) [
      | inr (why, refused) ↦ ground (arith, handle-refused serde args sv why refused)
      | inl (q, passed) ↦
          let (awake, connected, asked, sent) =
            requested-waits q sv p (sym (handle-requested serde args sv q passed) ∙ h) in
          (
            ground (arith, source_request-eq-ok serde args sv q passed),
            connected,
            rw (e, set_breakpoint_end)
                (commit_source-sent p.request bp sv.session
                  ∙ ap
                      (λ (r : SourceRequest).
                        source_breakpoints_for_file r.file sv.session
                        ++ source_bp r.line r.condition ∷ [])
                      asked
                  ∙ sym sent),
          )
    ]

-- The entry under an id behind the last result.
abbrev pub function_entry :
    FunctionRequest → Option BreakpointResult → ℤ → SessionManager → Option BreakpointInfo
function_entry q none id s = breakpoint_info id s
function_entry q (some bp) id s =
    if bp.id == id then some (function_info q bp) else breakpoint_info id s

function_answered_lem :
    (q : FunctionRequest) (last : Option BreakpointResult) (sv : ToolServer) (id : ℤ)
    → ((is_error (function_answered q last sv).0 ≡ true) × ((function_answered q last sv).1 ≡ sv))
      ⊎ ((is_error (function_answered q last sv).0 ≡ false)
          × ((function_answered q last sv).1.backend ≡ sv.backend)
          × (all_function_breakpoints (function_answered q last sv).1.session
              ≡ all_function_breakpoints sv.session ++ function_bp q.name q.condition ∷ [])
          × (breakpoint_info id (function_answered q last sv).1.session
              ≡ function_entry q last id sv.session))
unfolding function_answered function_response commit_function add_function_breakpoint
    add_breakpoint_response breakpoint_info
function_answered_lem q none sv id = inr (refl, refl, refl, refl)
function_answered_lem q (some bp) sv id = elim (Bool-cases bp.rejected) [
  | inl e ↦ inl (rw e, rw e)
  | inr e ↦ inr (
    rw e,
    rw e,
    rw e,
    rw e (Maps.get-insert bp.id id (function_info q bp) sv.session.bp_responses),
  )
]

-- The answer to a function breakpoint is one of two. It is an error that leaves the server as it
-- was. Or it is no error: the backend answered, the function list has the requested breakpoint
-- behind the others, the last result, if there is one, stands under its id, no other id and not the
-- connection is touched.
set_function_breakpoint_end_lem :
    (p : PendingFunction) (reply : Result BackendError (List BreakpointResult)) (sv : ToolServer)
    (id : ℤ)
    → ((is_error (set_function_breakpoint_end p reply sv).0 ≡ true)
        × ((set_function_breakpoint_end p reply sv).1 ≡ sv))
      ⊎ ((results : List BreakpointResult) × (reply ≡ ok results)
          × (is_error (set_function_breakpoint_end p reply sv).0 ≡ false)
          × ((set_function_breakpoint_end p reply sv).1.backend ≡ sv.backend)
          × (all_function_breakpoints (set_function_breakpoint_end p reply sv).1.session
              ≡ all_function_breakpoints sv.session
                ++ function_bp p.request.name p.request.condition ∷ [])
          × (breakpoint_info id (set_function_breakpoint_end p reply sv).1.session
              ≡ function_entry p.request (get_last? results) id sv.session))
unfolding set_function_breakpoint_end
set_function_breakpoint_end_lem p (err e) sv id = inl (refl, refl)
set_function_breakpoint_end_lem p (ok results) sv id =
    elim (function_answered_lem p.request (get_last? results) sv id) [
      | inl refused ↦ inl refused
      | inr (accepted, connected, listed, entry) ↦
          inr (results, refl, accepted, connected, listed, entry)
    ]
