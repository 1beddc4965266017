-- ===== src/Tools/Dispatch.antt =====
-- crates/mcp-tools/src/server.rs: the dispatch of a call by the name of its tool, up to the first wait
-- of the handler.
pub mod Required
use debug_mcp.Prelude.{String, Bool, Option, none, some, List, [], ◌∷◌, Dict, find, ◌==◌, string_eq}
use debug_mcp.Prelude.Text.{◌<>◌}
use debug_mcp.Prelude.Maps
use debug_mcp.Core.Types.{LaunchSpec, AttachSpec}
use debug_mcp.Tools.Json.{Serde}
use debug_mcp.Tools.Args.{Args}
use debug_mcp.Tools.Response.{ToolOutcome, error}
use debug_mcp.Tools.Server.{ToolServer, Handle, Begun, done, waits}
use debug_mcp.Tools.Registry.{BackendRegistry}
use debug_mcp.Tools.Lifecycle.{Connecting, handle_launch, handle_attach, handle_disconnect}
use debug_mcp.Tools.Breakpoints.{
  PendingSource, PendingFunction, PendingRemoval, handle_set_breakpoint,
  handle_set_function_breakpoint, handle_remove_breakpoint, handle_list_breakpoints,
}
use debug_mcp.Tools.Execution.{
  PendingResume, handle_continue, handle_step_over, handle_step_into, handle_step_out, handle_pause,
}
use debug_mcp.Tools.Inspection.{PendingTrace, handle_status, handle_backtrace, handle_threads}
use debug_mcp.Tools.Inspection.Variables.{
  PendingVariables, PendingEval, handle_variables, handle_evaluate,
}
use debug_mcp.Tools.Memory.{PendingRead, PendingListing, handle_read_memory, handle_disassemble}
use debug_mcp.Tools.Commands.{PendingCommand, handle_read_output, handle_run_command}
use debug_mcp.Tools.Windbg.{Verb, Opening, begin_verb, handle_analyze_crash, handle_get_modules}
use debug_mcp.Tools.Schema.{Tool, all_tools}

-- What a call waits for.
pub data Pending : Type 0 where
  launching : Connecting LaunchSpec → Pending
  attaching : Connecting AttachSpec → Pending
  disconnecting : Bool → Pending
  setting_source : PendingSource → Pending
  setting_function : PendingFunction → Pending
  removing : PendingRemoval → Pending
  resuming : PendingResume → Pending
  pausing : Handle → Pending
  tracing : PendingTrace → Pending
  listing_threads : Handle → Pending
  listing_variables : PendingVariables → Pending
  evaluating : PendingEval → Pending
  reading : PendingRead → Pending
  disassembling : PendingListing → Pending
  commanding : PendingCommand → Pending
  opening : Verb → Opening → Pending
  analyzing : Handle → Pending
  listing_modules : Handle → Pending

abbrev pub Handler : Type 0
Handler = ToolServer → Begun Pending × ToolServer

abbrev pub begun : {P : Type 0} → (P → Pending) → Begun P × ToolServer → Begun Pending × ToolServer
begun f (done outcome, sv) = (done outcome, sv)
begun f (waits p, sv) = (waits (f p), sv)

abbrev answers : (ToolServer → ToolOutcome) → Handler
answers handler sv = (done (handler sv), sv)

abbrev at_once : (ToolServer → ToolOutcome × ToolServer) → Handler
at_once handler sv = let (outcome, sv') = handler sv in (done outcome, sv')

module _ (serde : Serde) (registry : BackendRegistry) (env_value : Option String) where
  -- The branches of the match, in their order.
  abbrev pub handlers : Args → Dict String Handler
  handlers args =
      ("launch", λ sv. begun launching (handle_launch serde registry env_value args sv))
      ∷ ("attach", λ sv. begun attaching (handle_attach serde registry env_value args sv))
      ∷ ("disconnect", λ sv. begun disconnecting (handle_disconnect args sv))
      ∷ ("set_breakpoint", λ sv. begun setting_source (handle_set_breakpoint serde args sv))
      ∷ (
        "set_function_breakpoint",
        λ sv. begun setting_function (handle_set_function_breakpoint args sv),
      )
      ∷ ("remove_breakpoint", λ sv. begun removing (handle_remove_breakpoint serde args sv))
      ∷ ("list_breakpoints", answers handle_list_breakpoints)
      ∷ ("continue", λ sv. begun resuming (handle_continue serde args sv))
      ∷ ("step_over", λ sv. begun resuming (handle_step_over serde args sv))
      ∷ ("step_into", λ sv. begun resuming (handle_step_into serde args sv))
      ∷ ("step_out", λ sv. begun resuming (handle_step_out serde args sv))
      ∷ ("pause", λ sv. begun pausing (handle_pause sv))
      ∷ ("status", answers (handle_status registry))
      ∷ ("backtrace", λ sv. begun tracing (handle_backtrace serde args sv))
      ∷ ("threads", λ sv. begun listing_threads (handle_threads sv))
      ∷ ("variables", λ sv. begun listing_variables (handle_variables serde args sv))
      ∷ ("evaluate", λ sv. begun evaluating (handle_evaluate serde args sv))
      ∷ ("read_output", at_once handle_read_output)
      ∷ ("read_memory", λ sv. begun reading (handle_read_memory serde args sv))
      ∷ ("disassemble", λ sv. begun disassembling (handle_disassemble serde args sv))
      ∷ ("run_command", λ sv. begun commanding (handle_run_command args sv))
      ∷ (
        "open_crash_dump",
        λ sv.
            begun (opening Verb.open_crash_dump)
              (begin_verb registry env_value Verb.open_crash_dump args sv),
      )
      ∷ (
        "attach_kernel",
        λ sv.
            begun (opening Verb.attach_kernel)
              (begin_verb registry env_value Verb.attach_kernel args sv),
      )
      ∷ ("analyze_crash", λ sv. begun analyzing (handle_analyze_crash sv))
      ∷ ("get_modules", λ sv. begun listing_modules (handle_get_modules sv))
      ∷ []

  abbrev handled : String → Option Handler → Handler
  handled name none sv = (done (error ("unknown tool: " <> name)), sv)
  handled name (some handler) sv = handler sv

  unfoldable pub dispatch : String → Args → Handler
  unfolding Maps.get
  dispatch name args = handled name (Maps.get name (handlers args))

-- `tools()`
unfoldable pub tools : BackendRegistry → List Tool
unfolding all_tools
tools registry = all_tools registry.capabilities

abbrev pub is_named : String → Tool → Bool
is_named name t = t.name == name

-- `get_tool`
unfoldable pub get_tool : BackendRegistry → String → Option Tool
unfolding find tools
get_tool registry name = find (is_named name) (tools registry)
