-- ===== src/Tools/Lifecycle/Phases.antt =====
-- The ends of a launch and an attach, and `disconnect`: the session and the connection behind each.
use debug_mcp.Prelude.{
  ◌+◌, ◌%◌, ◌^◌, ℤ, String, ◌≡◌, ◌≢◌, refl, ap, ◌∙◌, ◌⊎◌, inl, inr, true, false, Option, none, some,
  List, [], ◌∷◌, arith, Result, ok, err,
}
use debug_mcp.Core.Types.{LaunchSpec, LaunchOutcome, AttachSpec, AttachOutcome}
use debug_mcp.Core.Error.{BackendError}
use debug_mcp.Session.State.{State, idle, configuring, stopped, running, terminated}
use debug_mcp.Session.Output.{empty}
use debug_mcp.Session.Manager.{
  SessionManager, fresh_inner, check_state, state_error, set_state, set_program, set_pid,
  set_last_stopped,
}
use debug_mcp.Session.Manager.Valid.{IsValid, reset-fresh}
use debug_mcp.Tools.Args.{Args, get_bool}
use debug_mcp.Tools.Response.{error, is_error}
use debug_mcp.Tools.Server.{
  Handle, ToolServer, done, waits, Reply, replied, cancelled, set_backend, clear_backend,
}
use debug_mcp.Tools.Lifecycle.{
  Connecting, Handshaking, cleanup, connect_error, connected, launch_end, attach_end, launched,
  attached, note_target, handle_disconnect, drop_backend, disconnect_end,
}

-- The server that a new process has, but for the session's epoch, one further.
abbrev pub blank : ToolServer → ToolServer
blank sv = record {
  session = record { inner = fresh_inner ((sv.session.generation + 1) % 2 ^ 64); output = empty };
  backend = none;
  active_backend_name = none;
}

pub cleanup-blank : (sv : ToolServer) → IsValid sv.session → cleanup sv ≡ blank sv
unfolding cleanup clear_backend
cleanup-blank sv v =
    ap (λ s. record { session = s; backend = none; active_backend_name = none })
      (reset-fresh sv.session v)

-- The state in which an outcome leaves the session.
abbrev pub launch_state : LaunchOutcome → State
launch_state (LaunchOutcome.stopped info) = stopped
launch_state LaunchOutcome.running = running
launch_state (LaunchOutcome.exited code) = terminated

abbrev pub attach_state : AttachOutcome → State
attach_state (AttachOutcome.stopped info) = stopped
attach_state (AttachOutcome.exited code) = terminated
attach_state AttachOutcome.terminated = terminated

-- The second session is the first in the state and about the program, with the same epoch, breakpoints
-- and output.
pub record Entered (st : State) (label : String) (s s' : SessionManager) : Type 0 where
  pub state : s'.state ≡ st
  pub program : s'.program ≡ label
  pub generation : s'.generation ≡ s.generation
  pub sources : s'.source_bps ≡ s.source_bps
  pub functions : s'.function_bps ≡ s.function_bps
  pub responses : s'.bp_responses ≡ s.bp_responses
  pub output : s'.output ≡ s.output

note-Entered :
    (label : String) (a b : Option ℤ) (s : SessionManager)
    → Entered s.state label s (note_target label a b s)
unfolding note_target set_program set_pid
note-Entered label (some n) b s = record {
  state = refl;
  program = refl;
  generation = refl;
  sources = refl;
  functions = refl;
  responses = refl;
  output = refl;
}
note-Entered label none (some n) s = record {
  state = refl;
  program = refl;
  generation = refl;
  sources = refl;
  functions = refl;
  responses = refl;
  output = refl;
}
note-Entered label none none s = record {
  state = refl;
  program = refl;
  generation = refl;
  sources = refl;
  functions = refl;
  responses = refl;
  output = refl;
}

-- What is written behind the program and the pid keeps them.
step-Entered :
    (a b : State) (label : String) (s t u : SessionManager)
    → Entered a label s t
    → Entered b t.program t u
    → Entered b label s u
step-Entered a b label s t u h k = record {
  state = k.state;
  program = k.program ∙ h.program;
  generation = k.generation ∙ h.generation;
  sources = k.sources ∙ h.sources;
  functions = k.functions ∙ h.functions;
  responses = k.responses ∙ h.responses;
  output = k.output ∙ h.output;
}

launched-Entered :
    (outcome : LaunchOutcome) (program : String) (s : SessionManager)
    → (is_error (launched outcome program s).0 ≡ false)
      × Entered (launch_state outcome) s.program s (launched outcome program s).1
unfolding launched set_state set_last_stopped
launched-Entered (LaunchOutcome.stopped info) program s = (
  refl,
  record {
    state = refl;
    program = refl;
    generation = refl;
    sources = refl;
    functions = refl;
    responses = refl;
    output = refl;
  },
)
launched-Entered LaunchOutcome.running program s = (
  refl,
  record {
    state = refl;
    program = refl;
    generation = refl;
    sources = refl;
    functions = refl;
    responses = refl;
    output = refl;
  },
)
launched-Entered (LaunchOutcome.exited code) program s = (
  refl,
  record {
    state = refl;
    program = refl;
    generation = refl;
    sources = refl;
    functions = refl;
    responses = refl;
    output = refl;
  },
)

attached-Entered :
    (outcome : AttachOutcome) (label : String) (s : SessionManager)
    → (is_error (attached outcome label s).0 ≡ false)
      × Entered (attach_state outcome) s.program s (attached outcome label s).1
unfolding attached set_state set_last_stopped
attached-Entered (AttachOutcome.stopped info) label s = (
  refl,
  record {
    state = refl;
    program = refl;
    generation = refl;
    sources = refl;
    functions = refl;
    responses = refl;
    output = refl;
  },
)
attached-Entered (AttachOutcome.exited code) label s = (
  refl,
  record {
    state = refl;
    program = refl;
    generation = refl;
    sources = refl;
    functions = refl;
    responses = refl;
    output = refl;
  },
)
attached-Entered AttachOutcome.terminated label s = (
  refl,
  record {
    state = refl;
    program = refl;
    generation = refl;
    sources = refl;
    functions = refl;
    responses = refl;
    output = refl;
  },
)

-- In a valid session the handshake of a launch ends in one of two ways. It was cancelled or it
-- failed: the answer is an error and the server is blank. Or it has an outcome: the answer is no
-- error, the session is in the outcome's state about the program, and its epoch, breakpoints and
-- output and the connection are as they were.
pub launch_end_lem :
    (h : Handshaking LaunchSpec) (pid : Option ℤ) (reply : Reply LaunchOutcome) (sv : ToolServer)
    → IsValid sv.session
    → ((is_error (launch_end h pid reply sv).0 ≡ true) × ((launch_end h pid reply sv).1 ≡ blank sv))
      ⊎ ((outcome : LaunchOutcome) × (reply ≡ replied (ok outcome))
          × (is_error (launch_end h pid reply sv).0 ≡ false)
          × ((launch_end h pid reply sv).1.backend ≡ sv.backend)
          × Entered
              (launch_state outcome)
              h.connecting.label
              sv.session
              (launch_end h pid reply sv).1.session)
unfolding launch_end
launch_end_lem h pid cancelled sv v = inl (refl, cleanup-blank sv v)
launch_end_lem h pid (replied (err e)) sv v = inl (refl, cleanup-blank sv v)
launch_end_lem h pid (replied (ok outcome)) sv v =
    let (silent, entered) =
      launched-Entered outcome h.connecting.label
        (note_target h.connecting.label none pid sv.session) in
    inr (
      outcome,
      refl,
      silent,
      refl,
      step-Entered _ _ _ _ _ _ (note-Entered h.connecting.label none pid sv.session) entered,
    )

-- In a valid session the handshake of an attach ends in one of two ways. It was cancelled or it
-- failed: the answer is an error and the server is blank. Or it has an outcome: the answer is no
-- error, the session is in the outcome's state under the label, and its epoch, breakpoints and
-- output and the connection are as they were.
pub attach_end_lem :
    (h : Handshaking AttachSpec) (pid : Option ℤ) (reply : Reply AttachOutcome) (sv : ToolServer)
    → IsValid sv.session
    → ((is_error (attach_end h pid reply sv).0 ≡ true) × ((attach_end h pid reply sv).1 ≡ blank sv))
      ⊎ ((outcome : AttachOutcome) × (reply ≡ replied (ok outcome))
          × (is_error (attach_end h pid reply sv).0 ≡ false)
          × ((attach_end h pid reply sv).1.backend ≡ sv.backend)
          × Entered
              (attach_state outcome)
              h.connecting.label
              sv.session
              (attach_end h pid reply sv).1.session)
unfolding attach_end
attach_end_lem h pid cancelled sv v = inl (refl, cleanup-blank sv v)
attach_end_lem h pid (replied (err e)) sv v = inl (refl, cleanup-blank sv v)
attach_end_lem h pid (replied (ok outcome)) sv v =
    let (silent, entered) =
      attached-Entered outcome h.connecting.label
        (note_target h.connecting.label h.connecting.explicit_pid pid sv.session) in
    inr (
      outcome,
      refl,
      silent,
      refl,
      step-Entered _ _ _ _ _ _
          (note-Entered h.connecting.label h.connecting.explicit_pid pid sv.session) entered,
    )

-- In a valid session the connection of a launch or an attach either fails, and the answer is an
-- error and the server is blank; or the backend is stored, the session is as it was, and its epoch
-- is the event pump's.
connected_lem {ℓ} :
    {Spec : Type ℓ} (c : Connecting Spec) (reply : Result BackendError Handle) (sv : ToolServer)
    → IsValid sv.session
    → ((e : String) × (connected c reply sv ≡ (done (error e), blank sv)))
      ⊎ ((h : Handshaking Spec) × (reply ≡ ok h.handle)
          × ((connected c reply sv).0 ≡ waits h)
          × (h.generation ≡ sv.session.generation)
          × (h.connecting ≡ c)
          × ((connected c reply sv).1.backend ≡ some h.handle)
          × ((connected c reply sv).1.session ≡ sv.session))
unfolding connected set_backend
connected_lem c (err e) sv v = inl (
  connect_error c.factory.name e,
  ap (λ x. (done (error (connect_error c.factory.name e)), x)) (cleanup-blank sv v),
)
connected_lem c (ok handle) sv v = inr (_, refl, refl, refl, refl, refl, refl)

abbrev pub connected_states : List State
connected_states = configuring ∷ stopped ∷ running ∷ terminated ∷ []

disconnect_guard :
    (st : State) (s : SessionManager)
    → s.state ≡ st
    → ((st ≡ idle) × (check_state connected_states s ≡ err (state_error connected_states idle)))
      ⊎ ((st ≢ idle) × (check_state connected_states s ≡ ok tt))
unfolding check_state
disconnect_guard idle s e = inl (refl, rw e)
disconnect_guard configuring s e = inr (ground arith, rw e)
disconnect_guard stopped s e = inr (ground arith, rw e)
disconnect_guard running s e = inr (ground arith, rw e)
disconnect_guard terminated s e = inr (ground arith, rw e)

-- In a valid session `disconnect` is refused in the state `idle`, and then changes nothing. In the
-- other states it waits, and when the backend is dropped and the session reset, with nothing in
-- between, the server is blank.
pub disconnect_lem :
    (args : Args) (sv : ToolServer)
    → IsValid sv.session
    → ((sv.session.state ≡ idle)
        × (handle_disconnect args sv ≡ (done (error (state_error connected_states idle)), sv)))
      ⊎ ((sv.session.state ≢ idle)
          × (handle_disconnect args sv ≡ (waits (get_bool "terminate" true args), sv))
          × (is_error (disconnect_end (drop_backend sv)).0 ≡ false)
          × ((disconnect_end (drop_backend sv)).1 ≡ blank sv))
unfolding handle_disconnect disconnect_end drop_backend clear_backend
disconnect_lem args sv v = elim (disconnect_guard sv.session.state sv.session refl) [
  | inl (asleep, refused) ↦ inl (asleep, rw (refused, handle_disconnect))
  | inr (awake, passed) ↦ inr (
    awake,
    rw (passed, handle_disconnect),
    refl,
    ap (λ s. record { session = s; backend = none; active_backend_name = none })
        (reset-fresh sv.session v),
  )
]
