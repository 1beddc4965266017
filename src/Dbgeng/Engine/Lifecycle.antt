-- ===== src/Dbgeng/Engine/Lifecycle.antt =====
-- crates/dbgeng-sys/src/engine.rs: `launch`, `attach_pid`, `attach_kernel`, `open_dump` and `detach`.
use debug_mcp.Prelude.{
  ℕ, ◌-◌, ◌^◌, ℤ, String, Bool, true, false, Option, none, some, List, [], ◌∷◌, if◌then◌else◌,
  Result, ok, err, map_err, ◌==◌, string_eq,
}
use debug_mcp.Prelude.Text.{◌<>◌, show_ℤ}
use debug_mcp.Core.Types.{StopInfo, StopOutcome, DumpOutcome}
use debug_mcp.Windbg.Engine.{LaunchReq}
use debug_mcp.Dbgeng.Error.{EngineError, op}
use debug_mcp.Dbgeng.Com.{Com, Texts, EndFlags}
use debug_mcp.Dbgeng.Engine.{
  Engine, Act, ◌>>=◌, ◌>>◌, pure, fail, give, asks, attempt, call, changes, conditions_cleared,
}
use debug_mcp.Dbgeng.Engine.Wait.{
  WaitResult, event, timed_out, expected, with_reason, is_gone, wait_for_event,
}

abbrev dump_is : {C : Type 0} → Bool → Engine C → Engine C
dump_is dump e = record e { is_dump = dump }

abbrev pub end_flags : Bool → Bool → EndFlags
end_flags true terminate = EndFlags.passive
end_flags false true = EndFlags.active_terminate
end_flags false false = EndFlags.active_detach

-- The program in quotes, and the arguments.
unfoldable pub with_args : String → List String → String
with_args line [] = line
with_args line (arg ∷ args) = with_args (line <> " " <> arg) args

abbrev pub command_line : LaunchReq → String
command_line req = with_args ("\"" <> req.program <> "\"") req.args

abbrev pub stopped_of : StopOutcome → Option StopInfo
stopped_of (StopOutcome.stopped info) = some info
stopped_of (StopOutcome.exited code) = none
stopped_of StopOutcome.terminated = none

abbrev pub infinite : ℕ
infinite = 2 ^ 32 - 1

-- The result of an operation as a value.
abbrev caught : {C A : Type 0} → Act C A → Act C (Result EngineError A)
caught m e = elim (m e) [ none ↦ none | some (r, e') ↦ some (ok r, e') ]

module _ {C : Type 0} (dbg : Com C) where
  -- `line_at`
  unfoldable pub line_at : ℕ → Act C (Option String × ℤ)
  unfolding attempt
  line_at offset = attempt (dbg.line_by_offset offset) >>= λ found. elim found [
    | err x ↦ pure (none, ℤ.pos 0)
    | ok (line, file) ↦ if file == "" then pure (none, ℤ.pos 0) else pure (some file, ℤ.pos line)
  ]

module _ (texts : Texts) {C : Type 0} (dbg : Com C) (fuel : ℕ) where
  abbrev no_nul : String → String → Act C (Unit {0})
  no_nul message text = if texts.has_nul text then fail (EngineError.engine message) else pure tt

  abbrev no_nul_in : String → Option String → Act C (Unit {0})
  no_nul_in message none = pure tt
  no_nul_in message (some text) = no_nul message text

  -- The wait for the initial break: the option is removed whatever comes of it, and the error of the
  -- wait goes before that of the removal.
  unfoldable pub initial_wait : ℕ → Act C WaitResult
  unfolding wait_for_event attempt
  initial_wait timeout_ms = caught (wait_for_event texts dbg fuel timeout_ms) >>= λ wait.
      attempt dbg.remove_initial_break >>= λ removed. give wait >>= λ outcome.
      give (map_err (op "RemoveEngineOptions(INITIAL_BREAK)") removed) >> pure outcome

  unfoldable pub reload_main_module : Act C (Unit {0})
  unfolding attempt
  reload_main_module = attempt (dbg.module_by_index 0) >>= λ base. elim base [
    | err x ↦ pure tt
    | ok b ↦ attempt (dbg.module_name 0) >>= λ name. elim name [
      | err x ↦ pure tt
      | ok main ↦
          if texts.has_nul ("/f " <> main)
          then pure tt
          else (attempt (dbg.reload ("/f " <> main)) >>= λ done. pure tt)
    ]
  ]

  unfoldable pub launch : LaunchReq → Act C StopOutcome
  unfolding call with_args initial_wait reload_main_module with_reason
  launch req =
      changes conditions_cleared
      >> call "AddEngineOptions(INITIAL_BREAK)" dbg.add_initial_break
      >> no_nul "launch: program/args contain an interior NUL byte" (command_line req)
      >> no_nul_in "launch: working directory contains an interior NUL byte" req.cwd
      >> call "CreateProcess2" (dbg.create_process (command_line req) req.cwd)
      >> (initial_wait 10_000 >>= λ result.
          expected "launch: timed out waiting for the initial breakpoint" result >>= λ outcome.
          reload_main_module >> pure (with_reason "Initial breakpoint" outcome))

  unfoldable pub attach_pid : ℕ → Act C StopOutcome
  unfolding attempt call initial_wait
  attach_pid pid =
      changes conditions_cleared
      >> (attempt dbg.enable_debug_privilege >>= λ enabled. pure tt)
      >> call "AddEngineOptions(INITIAL_BREAK)" dbg.add_initial_break
      >> call "AttachProcess" (dbg.attach_process pid)
      >> (initial_wait 10_000 >>= expected "attach: timed out waiting for the initial break")

  -- What a failed wait for a kernel leaves: the session is ended, and the error is that of the wait.
  unfoldable pub kernel_wait : Result EngineError WaitResult → Act C WaitResult
  unfolding attempt
  kernel_wait (ok result) = pure result
  kernel_wait (err x) =
      (attempt (dbg.end_session EndFlags.active_detach) >>= λ ended. pure tt)
      >> changes (dump_is false)
      >> fail x

  unfoldable pub attach_kernel : String → Act C StopOutcome
  unfolding attempt call wait_for_event kernel_wait
  attach_kernel connection =
      changes conditions_cleared
      >> no_nul "attach_kernel: connection string contains an interior NUL byte" connection
      >> call "AddEngineOptions(INITIAL_BREAK)" dbg.add_initial_break
      >> (attempt (dbg.attach_kernel connection) >>= λ attached. elim attached [
        | ok done ↦ pure tt
        | err x ↦
            attempt dbg.remove_initial_break >>= λ removed. fail (EngineError.op "AttachKernel" x)
      ])
      >> changes (dump_is false)
      >> (caught (wait_for_event texts dbg fuel infinite) >>= λ wait.
          attempt dbg.remove_initial_break >>= λ removed. kernel_wait wait >>= λ result.
          give (map_err (op "RemoveEngineOptions(INITIAL_BREAK)") removed)
          >> expected "attach_kernel: kernel wait returned without an event" result)

  unfoldable pub detach : Bool → Act C (Unit {0})
  unfolding call
  detach terminate = asks (λ e. e.is_dump) >>= λ dump.
      call "EndSession" (dbg.end_session (end_flags dump terminate))
      >> changes
          (λ e. record e { is_dump = false; extensions_loaded = false; breakpoint_conditions = [] })

  -- The stop of a dump's load.
  abbrev loaded : WaitResult → Act C (Option StopInfo)
  loaded (event o) = pure (stopped_of o)
  loaded timed_out = fail (EngineError.engine "open_dump: timed out loading dump")

  abbrev with_line : Option String → ℤ → Option (String × ℤ)
  with_line none line = none
  with_line (some file) line = some (file, line)

  unfoldable pub current_source_location : Act C (Option (String × ℤ))
  unfolding call line_at
  current_source_location = call "GetInstructionOffset" dbg.instruction_offset >>= λ ip.
      line_at dbg ip >>= λ at. pure (with_line at.0 at.1)

  -- A location that could not be read is none.
  abbrev place : Result EngineError (Option (String × ℤ)) → Option String
  place (err x) = none
  place (ok none) = none
  place (ok (some (file, line))) = some (file <> ":" <> show_ℤ line)

  unfoldable pub open_dump : String → Act C DumpOutcome
  unfolding call wait_for_event current_source_location show_ℤ
  open_dump path = call "GetExecutionStatus" dbg.get_execution_status >>= λ status.
      (if is_gone status
        then pure tt
        else fail (EngineError.engine "open_dump: a session is already active"))
      >> no_nul "open_dump: dump path contains an interior NUL byte" path
      >> call "OpenDumpFile" (dbg.open_dump_file path)
      >> changes (dump_is true)
      >> (wait_for_event texts dbg fuel 30_000 >>= λ result. loaded result >>= λ stop.
          caught current_source_location >>= λ found.
          pure (record { stop = stop; crash_location = place found }))
