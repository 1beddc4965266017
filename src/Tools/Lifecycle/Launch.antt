-- ===== src/Tools/Lifecycle/Launch.antt =====
-- How a launch begins: the checks, the flush of the pending breakpoints, the choice of the backend.
use debug_mcp.Prelude.{
  String, ◌≡◌, refl, ap, ◌∙◌, ◌⊎◌, inl, inr, Bool, true, Option, none, List, [], string_eq, ◌∷◌,
  ◌++◌, arith, Result, ok, err, Result-cases,
}
use debug_mcp.Prelude.Maps
use debug_mcp.Core.Types.{LaunchSpec}
use debug_mcp.Session.State.{idle, configuring, eqb_State_iff}
use debug_mcp.Session.Manager.{SessionManager, check_state, set_state}
use debug_mcp.Session.Manager.Tracking.{
  flush_pending_breakpoints, source_breakpoints_for_file, all_function_breakpoints,
}
use debug_mcp.Session.Manager.Flush.{flush_pending_breakpoints_lem}
use debug_mcp.Session.Manager.Calls.{apply, run, to_state, flushes}
use debug_mcp.Session.Manager.Valid.{IsValid, run-IsValid}
use debug_mcp.Tools.Json.{Serde}
use debug_mcp.Tools.Args.{Args, get_string, get_bool}
use debug_mcp.Tools.Response.{error}
use debug_mcp.Tools.Registry.{BackendRegistry, Factory, select_with_env}
use debug_mcp.Tools.Server.{ToolServer, done, waits, with_session}
use debug_mcp.Tools.Lifecycle.{
  Connecting, cleanup, backend_select, begin_connect, handle_launch, launch_checks, launch_spec,
}
use debug_mcp.Tools.Lifecycle.Phases.{blank, cleanup-blank}

-- The session with which a launch goes on.
abbrev pub launching : SessionManager → SessionManager
launching s = (flush_pending_breakpoints (set_state configuring s)).1

set_state-IsValid : (s : SessionManager) → IsValid s → IsValid (set_state configuring s)
unfolding run apply
set_state-IsValid s v = run-IsValid (to_state configuring ∷ []) s v

launching-IsValid : (s : SessionManager) → IsValid s → IsValid (launching s)
unfolding run apply
launching-IsValid s v = run-IsValid (to_state configuring ∷ flushes ∷ []) s v

module _ (serde : Serde) (registry : BackendRegistry) (env_value : Option String) (args : Args)
    (sv : ToolServer) where
  abbrev pub chosen : Result String Factory
  chosen = select_with_env registry (backend_select (get_string "backend" "" args)) env_value

  abbrev spec_of : String → List String → List (String × String) → LaunchSpec
  spec_of program program_args env =
      (launch_spec args program program_args env (set_state configuring sv.session)).0

  abbrev connecting : Factory → LaunchSpec → String → Bool → Connecting LaunchSpec
  connecting factory spec program stop_on_entry = record {
    factory = factory;
    spec = spec;
    label = program;
    explicit_pid = none;
    stop_on_entry = stop_on_entry;
  }

  checks-idle :
      (r : String × List String × List (String × String))
      → launch_checks serde args sv ≡ ok r
      → sv.session.state ≡ idle
  unfolding launch_checks check_state
  checks-idle r h = ground (arith, eqb_State_iff idle sv.session.state)

  begins :
      (program : String) (program_args : List String) (env : List (String × String))
      → launch_checks serde args sv ≡ ok (program, program_args, env)
      → handle_launch serde registry env_value args sv
        ≡ begin_connect registry env_value args
            (spec_of program program_args env)
            program
            none
            (get_bool "stop_on_entry" true args)
            (with_session (launching sv.session) sv)
  unfolding launch_spec handle_launch begin_connect
  begins program program_args env passed = rw (passed, handle_launch)

  connects :
      (program : String) (spec : LaunchSpec) (stop_on_entry : Bool) (at : ToolServer)
      (factory : Factory)
      → chosen ≡ ok factory
      → begin_connect registry env_value args spec program none stop_on_entry at
        ≡ (waits (connecting factory spec program stop_on_entry), at)
  unfolding begin_connect
  connects program spec stop_on_entry at factory found = rw (found, begin_connect)

  unchosen :
      (program : String) (spec : LaunchSpec) (stop_on_entry : Bool) (at : ToolServer) (e : String)
      → chosen ≡ err e
      → begin_connect registry env_value args spec program none stop_on_entry at
        ≡ (done (error e), cleanup at)
  unfolding begin_connect cleanup
  unchosen program spec stop_on_entry at e missing = rw (missing, begin_connect)

  -- In a valid session a launch begins in one of three ways. Its checks fail: the answer is an error
  -- and nothing changes. No backend can be chosen: the answer is an error and the server is blank.
  -- Or it waits for the chosen backend to connect: the session was idle and is configuring, the
  -- pending breakpoints are in what the backend will be told and behind the active ones, and nothing
  -- is pending.
  pub handle_launch_lem :
      (file : String)
      → IsValid sv.session
      → ((e : String) × (handle_launch serde registry env_value args sv ≡ (done (error e), sv)))
        ⊎ ((e : String) × (handle_launch serde registry env_value args sv
              ≡ (done (error e), blank sv)))
        ⊎ ((c : Connecting LaunchSpec) × (handle_launch serde registry env_value args sv
              ≡ (waits c, with_session (launching sv.session) sv))
            × (sv.session.state ≡ idle)
            × (chosen ≡ ok c.factory)
            × (c.spec.source_breakpoints ≡ sv.session.pending_source_bps)
            × (c.spec.function_breakpoints ≡ sv.session.pending_function_bps)
            × ((launching sv.session).state ≡ configuring)
            × ((launching sv.session).pending_source_bps ≡ [])
            × ((launching sv.session).pending_function_bps ≡ [])
            × (all_function_breakpoints (launching sv.session)
                ≡ all_function_breakpoints sv.session ++ sv.session.pending_function_bps)
            × (source_breakpoints_for_file file (launching sv.session)
                ≡ source_breakpoints_for_file file sv.session
                  ++ Maps.get_list file sv.session.pending_source_bps))
  unfolding handle_launch launch_spec flush_pending_breakpoints set_state
      source_breakpoints_for_file
  handle_launch_lem file v = elim (Result-cases (launch_checks serde args sv)) [
    | inr (e, refused) ↦ inl (e, rw (refused, handle_launch))
    | inl ((program, program_args, env), passed) ↦
        let begun = begins program program_args env passed in
        let spec = spec_of program program_args env in
        let next = with_session (launching sv.session) sv in
        let stop_on_entry = get_bool "stop_on_entry" true args in
        elim (Result-cases chosen) [
          | inr (e, missing) ↦ inr (
              inl (
                e,
                begun
                    ∙ unchosen program spec stop_on_entry next e missing
                    ∙ ap (λ x. (done (error e), x))
                        (cleanup-blank (with_session (launching sv.session) sv)
                          (launching-IsValid sv.session v)),
              ))
          | inl (factory, found) ↦ inr (
              inr (
                connecting factory spec program stop_on_entry,
                begun ∙ connects program spec stop_on_entry next factory found,
                checks-idle _ passed,
                found,
                refl,
                refl,
                refl,
                refl,
                refl,
                refl,
                (flush_pending_breakpoints_lem file _ (set_state-IsValid sv.session v)).0,
              ))
        ]
  ]
