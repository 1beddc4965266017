-- ===== src/Lldb/Backend.antt =====
-- crates/lldb-backend/src/backend.rs: the operations of the LLDB backend over its client. The text
-- that lldb-dap wrote to its standard error, trimmed, is an argument; so are the decoders of the
-- bodies of responses.
pub mod Script
use debug_mcp.Prelude.{
  ℤ, pos, String, Bool, true, false, Option, none, some, List, [], ◌∷◌, is_empty, if◌then◌else◌,
  Result, ok, err, map_err, ◌==◌, string_eq,
}
use debug_mcp.Prelude.Text.{◌<>◌}
use debug_mcp.Core.Types.{
  Granularity, StepKind, EvalMode, StopOutcome, SourceBp, FunctionBp, LaunchSpec, LaunchOutcome,
  AttachSpec, AttachOutcome,
}
use debug_mcp.Core.Error.{BackendError}
use debug_mcp.Tools.Json.{Value}
use debug_mcp.Dap.Wire.{Envelope, Response, DapMessage}
use debug_mcp.Lldb.Requests
use debug_mcp.Lldb.Requests.{Request}
use debug_mcp.Lldb.Client.{DapClient, Ticket, and_then}

unfoldable pub response_type_label : Response → String
response_type_label resp = "response:" <> resp.command

unfoldable pub message_type_label : DapMessage → String
unfolding response_type_label
message_type_label (DapMessage.response resp) = response_type_label resp
message_type_label (DapMessage.event e) = "event"
message_type_label (DapMessage.other env) = elim env.event [
  | some event ↦ "event:" <> event
  | none ↦ elim env.command [ some command ↦ env.ty <> ":" <> command | none ↦ env.ty ]
]

unfoldable pub step_command : StepKind → String
step_command StepKind.over = "next"
step_command StepKind.into = "stepIn"
step_command StepKind.out = "stepOut"

unfoldable pub granularity_str : Granularity → String
granularity_str Granularity.line = "line"
granularity_str Granularity.instruction = "instruction"

unfoldable pub step_granularity : StepKind → Option Granularity → Option String
unfolding granularity_str
step_granularity StepKind.out gran = none
step_granularity StepKind.over gran = elim gran [ none ↦ none | some g ↦ some (granularity_str g) ]
step_granularity StepKind.into gran = elim gran [ none ↦ none | some g ↦ some (granularity_str g) ]

-- A command goes behind a backtick where lldb-dap has no mode for commands.
unfoldable pub evaluate_request : Bool → String → Option ℤ → EvalMode → Request
unfolding Requests.evaluate
evaluate_request is_lldb_dap expr frame_id EvalMode.expression =
    Requests.evaluate expr frame_id "variables"
evaluate_request is_lldb_dap expr frame_id EvalMode.repl =
    Requests.evaluate (if is_lldb_dap then expr else "`" <> expr) none "repl"

-- The end of a wait for a stop; the slot that is dropped counts as the end of the program.
unfoldable pub launch_stop : Option StopOutcome → LaunchOutcome
launch_stop none = LaunchOutcome.exited none
launch_stop (some (StopOutcome.stopped info)) = LaunchOutcome.stopped info
launch_stop (some (StopOutcome.exited code)) = LaunchOutcome.exited code
launch_stop (some StopOutcome.terminated) = LaunchOutcome.exited none

unfoldable pub attach_stop : Option StopOutcome → AttachOutcome
attach_stop none = AttachOutcome.terminated
attach_stop (some (StopOutcome.stopped info)) = AttachOutcome.stopped info
attach_stop (some (StopOutcome.exited code)) = AttachOutcome.exited code
attach_stop (some StopOutcome.terminated) = AttachOutcome.terminated

unfoldable pub resume_stop : Option StopOutcome → StopOutcome
resume_stop none = StopOutcome.terminated
resume_stop (some outcome) = outcome

abbrev launch_request : LaunchSpec → Request
launch_request spec = Requests.launch (
    Requests.launch_args_to_value
      (Requests.launch_args spec.program spec.args spec.cwd spec.env spec.stop_on_entry))

abbrev attach_request : AttachSpec → Request
attach_request spec =
    Requests.attach (Requests.attach_args_to_value (Requests.attach_args spec.pid spec.wait_for))

module _ (stderr : String) where
  unfoldable pub diagnostic : String → String
  diagnostic message =
      if message == ""
      then (if stderr == "" then "no error message provided by lldb-dap" else stderr)
      else message

  unfoldable pub check_response : String → String → DapMessage → Result BackendError Response
  unfolding diagnostic message_type_label
  check_response op failed_op (DapMessage.response resp) =
      if resp.success
      then ok resp
      else err (BackendError.dap (failed_op <> " failed: " <> diagnostic resp.message))
  check_response op failed_op (DapMessage.event e) =
      err (BackendError.protocol (op <> ":" <> message_type_label (DapMessage.event e)))
  check_response op failed_op (DapMessage.other env) =
      err (BackendError.protocol (op <> ":" <> message_type_label (DapMessage.other env)))

  unfoldable pub check_breakpoints : String → DapMessage → Result BackendError (Unit {0})
  unfolding diagnostic message_type_label response_type_label
  check_breakpoints file (DapMessage.response resp) =
      if resp.command == "setBreakpoints"
      then (if resp.success
          then ok tt
          else err (
              BackendError.dap
                ("setBreakpoints failed for " <> file <> ": " <> diagnostic resp.message)))
      else err (BackendError.protocol (response_type_label resp))
  check_breakpoints file (DapMessage.event e) =
      err (BackendError.protocol (message_type_label (DapMessage.event e)))
  check_breakpoints file (DapMessage.other env) =
      err (BackendError.protocol (message_type_label (DapMessage.other env)))

  module _ {C : Type 0} (client : DapClient C) where
    -- `send`, with an error of the client behind `label`.
    abbrev sent : String → Request → C → Result BackendError DapMessage × C
    sent label request c =
        let (r, c') = client.send request c in (map_err (λ e. BackendError.dap (label <> e)) r, c')

    unfoldable pub send_checked : String → Request → C → Result BackendError Response × C
    unfolding check_response
    send_checked op request c =
        and_then (sent (op <> " request failed: ") request c)
          λ message c'. (check_response op op message, c')

    unfoldable pub send_checked_breakpoints_for_file :
        String → List SourceBp → C → Result BackendError (Unit {0}) × C
    unfolding check_breakpoints Requests.set_breakpoints
    send_checked_breakpoints_for_file file bps c =
        and_then
          (sent ("setBreakpoints failed for " <> file <> ": ") (Requests.set_breakpoints file bps)
            c)
          λ message c'. (check_breakpoints file message, c')

    -- The loop over the files.
    unfoldable pub set_files :
        List (String × List SourceBp) → C → Result BackendError (Unit {0}) × C
    unfolding send_checked_breakpoints_for_file
    set_files [] c = (ok tt, c)
    set_files ((file, bps) ∷ files) c =
        and_then (send_checked_breakpoints_for_file file bps c) λ done c'. set_files files c'

    unfoldable pub set_functions : List FunctionBp → C → Result BackendError (Unit {0}) × C
    unfolding check_response Requests.set_function_breakpoints
    set_functions [] c = (ok tt, c)
    set_functions (bp ∷ bps) c =
        and_then
          (sent "setFunctionBreakpoints failed: " (Requests.set_function_breakpoints (bp ∷ bps)) c)
          λ message c'.
            and_then (check_response "setFunctionBreakpoints" "setFunctionBreakpoints" message, c')
              λ resp c''. (ok tt, c'')

    -- The response of the request that was sent first, when it is there.
    unfoldable pub first_response : String → Ticket → C → Result BackendError Response × C
    unfolding check_response
    first_response op ticket c =
        let (answer, c') = client.response ticket c in
        elim answer [
          | none ↦ (err BackendError.closed, c')
          | some (err e) ↦ (err (BackendError.dap (op <> " request failed: " <> e)), c')
          | some (ok message) ↦ (check_response op op message, c')
        ]

    -- Up to `initialized`: the request itself is not answered yet.
    unfoldable pub start_handshake : String → Request → C → Result BackendError Ticket × C
    unfolding send_checked Requests.initialize
    start_handshake op request c =
        and_then (send_checked "initialize" Requests.initialize c) λ resp c'.
          let (r, c'') = client.send_async request c' in
          and_then (map_err (λ e. BackendError.dap (op <> " request failed: " <> e)) r, c'')
            λ ticket c3. (ok ticket, client.wait_initialized c3)

    -- `setExceptionBreakpoints`, whose response is not looked at.
    unfoldable pub set_exceptions : C → Result BackendError DapMessage × C
    unfolding Requests.set_exception_breakpoints
    set_exceptions = sent "setExceptionBreakpoints failed: " Requests.set_exception_breakpoints

    unfoldable pub configured : C → Result BackendError DapMessage × C
    unfolding Requests.configuration_done
    configured = sent "configurationDone failed: " Requests.configuration_done

    -- The waiter of a launch is there before the program runs, where it is to stop on entry.
    abbrev entry_waiter : Bool → C → Option Ticket × C
    entry_waiter false c = (none, c)
    entry_waiter true c = let (ticket, c') = client.register c in (some ticket, c')

    abbrev launch_outcome : Option Ticket → C → Result BackendError LaunchOutcome × C
    launch_outcome none c = (ok LaunchOutcome.running, c)
    launch_outcome (some ticket) c =
        let (outcome, c') = client.stop ticket c in (ok (launch_stop outcome), c')

    unfoldable pub run_launch : LaunchSpec → C → Result BackendError LaunchOutcome × C
    unfolding start_handshake set_files set_functions set_exceptions configured first_response
        launch_stop Requests.launch Requests.launch_args_to_value Requests.launch_args
    run_launch spec c = and_then (start_handshake "launch" (launch_request spec) c) λ ticket c1.
        and_then (set_files spec.source_breakpoints c1) λ files c2.
          and_then (set_functions spec.function_breakpoints c2) λ functions_set c3.
            and_then (set_exceptions c3) λ exceptions c4.
              let (waiter, c5) = entry_waiter spec.stop_on_entry c4 in
              and_then (configured c5) λ done c6.
                and_then (first_response "launch" ticket c6) λ resp c7. launch_outcome waiter c7

    -- The waiter of an attach is registered behind the response.
    unfoldable pub run_attach : AttachSpec → C → Result BackendError AttachOutcome × C
    unfolding start_handshake set_exceptions configured first_response attach_stop Requests.attach
        Requests.attach_args_to_value Requests.attach_args
    run_attach spec c = and_then (start_handshake "attach" (attach_request spec) c) λ ticket c1.
        and_then (set_exceptions c1) λ exceptions c2. and_then (configured c2) λ done c3.
          and_then (first_response "attach" ticket c3) λ resp c4.
            let (waiter, c5) = client.register c4 in
            let (outcome, c6) = client.stop waiter c5 in (ok (attach_stop outcome), c6)

    -- The waiter is there before the request, so that its stop is not missed.
    unfoldable pub resume_and_wait : Request → C → Result BackendError StopOutcome × C
    unfolding resume_stop
    resume_and_wait request c =
        let (waiter, c1) = client.register c in
        let (r, c2) = client.send request c1 in
        and_then (map_err BackendError.send r, c2)
          λ message c3. let (outcome, c4) = client.stop waiter c3 in (ok (resume_stop outcome), c4)

    unfoldable pub cont : ℤ → C → Result BackendError StopOutcome × C
    unfolding resume_and_wait Requests.cont
    cont thread_id = resume_and_wait (Requests.cont thread_id)

    unfoldable pub step :
        StepKind → ℤ → Option Granularity → C → Result BackendError StopOutcome × C
    unfolding resume_and_wait Requests.step step_command step_granularity
    step kind thread_id gran =
        resume_and_wait (Requests.step (step_command kind) thread_id (step_granularity kind gran))

    unfoldable pub pause : C → Result BackendError (Unit {0}) × C
    unfolding send_checked Requests.pause
    pause c = and_then (send_checked "pause" Requests.pause c) λ resp c'. (ok tt, c')

    -- A request whose body is decoded: the breakpoints, the inspection, the memory.
    module _ {A : Type 0} (decode : Option Value → Result BackendError A) where
      unfoldable pub query : String → Request → C → Result BackendError A × C
      unfolding send_checked
      query op request c = and_then (send_checked op request c) λ resp c'. (decode resp.body, c')
