-- ===== src/Lldb/Backend/Script.antt =====
-- What a launch does with a client that succeeds in everything, in its order.
use debug_mcp.Prelude.{
  pos, String, Bool, true, false, Option, none, some, List, [], ◌∷◌, if◌then◌else◌, ok, ◌≡◌, refl,
  string_eq,
}
use debug_mcp.Core.Types.{StopOutcome, SourceBp, FunctionBp, LaunchSpec, LaunchOutcome}
use debug_mcp.Dap.Wire.{DapMessage}
use debug_mcp.Lldb.Requests
use debug_mcp.Lldb.Requests.{Request}
use debug_mcp.Lldb.Client.{DapClient, Ticket, and_then}
use debug_mcp.Lldb.Backend.{
  check_response, check_breakpoints, send_checked, send_checked_breakpoints_for_file, set_files,
  set_functions, first_response, start_handshake, set_exceptions, configured, launch_stop,
  launch_request, entry_waiter, launch_outcome, run_launch,
}

-- What the backend asks of its client.
pub data Action : Type 0 where
  sends : Request → Action
  sends_async : Request → Action
  waits_initialized : Action
  awaits : Ticket → Action
  registers : Action
  waits_stop : Ticket → Action

abbrev success : Request → DapMessage
success request = DapMessage.response (record {
  seq = pos 0;
  ty = "response";
  request_seq = pos 0;
  success = true;
  command = request.command;
  message = "";
  body = none;
})

-- A client that keeps what it was asked, latest first, and whose program stops by `outcome`.
abbrev pub recorder : Option StopOutcome → DapClient (List Action)
recorder outcome = record {
  send = λ request log. (ok (success request), sends request ∷ log);
  send_async = λ request log. (ok 0, sends_async request ∷ log);
  wait_initialized = λ log. waits_initialized ∷ log;
  response = λ ticket log. (some (ok (success (Requests.configuration_done))), awaits ticket ∷ log);
  register = λ log. (1, registers ∷ log);
  stop = λ ticket log. (outcome, waits_stop ticket ∷ log);
}

abbrev pub files_sent : List (String × List SourceBp) → List Action → List Action
files_sent [] log = log
files_sent ((file, bps) ∷ files) log =
    files_sent files (sends (Requests.set_breakpoints file bps) ∷ log)

abbrev pub functions_sent : List FunctionBp → List Action → List Action
functions_sent [] log = log
functions_sent (bp ∷ bps) log = sends (Requests.set_function_breakpoints (bp ∷ bps)) ∷ log

-- The end of the configuration and the waits, where a stop on entry is asked for or not.
abbrev pub launch_ended : Bool → List Action → List Action
launch_ended false log = awaits 0 ∷ sends Requests.configuration_done ∷ log
launch_ended true log =
    waits_stop 1 ∷ awaits 0 ∷ sends Requests.configuration_done ∷ registers ∷ log

-- The actions of a launch, latest first.
abbrev pub launch_script : LaunchSpec → List Action
launch_script spec = launch_ended spec.stop_on_entry (
    sends Requests.set_exception_breakpoints
    ∷ functions_sent spec.function_breakpoints (
        files_sent spec.source_breakpoints
          (waits_initialized ∷ sends_async (launch_request spec) ∷ sends Requests.initialize ∷ [])))

module _ (stderr : String) (outcome : Option StopOutcome) where
  files_set :
      (files : List (String × List SourceBp)) (log : List Action)
      → set_files stderr (recorder outcome) files log ≡ (ok tt, files_sent files log)
  unfolding set_files send_checked_breakpoints_for_file check_breakpoints
  files_set [] log = refl
  files_set ((file, bps) ∷ files) log =
      files_set files (sends (Requests.set_breakpoints file bps) ∷ log)

  functions_set :
      (bps : List FunctionBp) (log : List Action)
      → set_functions stderr (recorder outcome) bps log ≡ (ok tt, functions_sent bps log)
  unfolding set_functions check_response
  functions_set [] log = refl
  functions_set (bp ∷ bps) log = refl

  -- The configuration and the end of a launch, behind the breakpoints.
  rest_of_launch :
      (stop_on_entry : Bool) (log : List Action)
      → and_then (set_exceptions stderr (recorder outcome) log) (λ exceptions c4.
        let (waiter, c5) = entry_waiter stderr (recorder outcome) stop_on_entry c4 in
        and_then (configured stderr (recorder outcome) c5) λ done c6.
          and_then
            (first_response stderr (recorder outcome) "launch" 0 c6)
            λ resp c7. launch_outcome stderr (recorder outcome) waiter c7)
        ≡ (
          ok (if stop_on_entry then launch_stop outcome else LaunchOutcome.running),
          launch_ended stop_on_entry (sends Requests.set_exception_breakpoints ∷ log),
        )
  unfolding set_exceptions configured first_response check_response
  rest_of_launch false log = refl
  rest_of_launch true log = refl

  -- A launch over a client that succeeds in everything initializes, sends the launch without waiting
  -- for its response, waits for `initialized`, sets the breakpoints of every file and the functions
  -- and then the exceptions, and only then ends the configuration and waits for the response. A
  -- launch that is to stop on entry has registered for the stop before it ends the configuration, and
  -- its outcome is that stop; any other is running.
  pub run_launch-recorder :
      (spec : LaunchSpec)
      → run_launch stderr (recorder outcome) spec [] ≡ (
        ok (if spec.stop_on_entry then launch_stop outcome else LaunchOutcome.running),
        launch_script spec,
      )
  unfolding run_launch start_handshake send_checked check_response
  run_launch-recorder spec = rw (
    files_set spec.source_breakpoints _,
    functions_set spec.function_breakpoints _,
    rest_of_launch spec.stop_on_entry _,
  )
