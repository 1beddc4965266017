-- ===== src/Lldb/Tests.antt =====
-- A launch with breakpoints in two files that is to stop on entry, and runs of the other parts.
use debug_mcp.Prelude.{
  if◌then◌else◌, ◌==◌, string_eq, false, pos, true, none, some, [], ◌∷◌, ◌≡◌, refl, ok,
}
use debug_mcp.Core.Types.{LaunchSpec, StopInfo, StopOutcome}
use debug_mcp.Lldb.Body
use debug_mcp.Lldb.Detect
use debug_mcp.Lldb.Backend.{launch_stop, run_launch}
use debug_mcp.Lldb.Backend.Script.{recorder, launch_script, run_launch-recorder}
use debug_mcp.Lldb.Stderr.{new, write}
use debug_mcp.Lldb.Stderr.Tail.{write_all}

abbrev entry : StopInfo
entry = record { reason = "entry"; thread_id = pos 1; description = ""; hit_breakpoint_ids = [] }

abbrev two_files : LaunchSpec
two_files = record {
  program = "/tmp/a.out";
  args = "-v" ∷ [];
  cwd = none;
  env = [];
  stop_on_entry = true;
  source_breakpoints =
      ("main.c", record { line = pos 3; condition = "" } ∷ [])
      ∷ ("lib.c", record { line = pos 8; condition = "n > 1" } ∷ [])
      ∷ [];
  function_breakpoints = record { name = "main"; condition = "" } ∷ [];
}

run_launch-recorder_example :
    run_launch "" (recorder (some (StopOutcome.stopped entry))) two_files []
    ≡ (ok (launch_stop (some (StopOutcome.stopped entry))), launch_script two_files)
run_launch-recorder_example = run_launch-recorder "" (some (StopOutcome.stopped entry)) two_files

-- A buffer of four bytes that is written to three times.
write_three :
    (write_all ((1 ∷ 2 ∷ []) ∷ (3 ∷ 4 ∷ 5 ∷ []) ∷ (6 ∷ []) ∷ []) (new 4)).inner ≡ 3 ∷ 4 ∷ 5 ∷ 6 ∷ []
unfolding new write
write_three = refl

abbrev one_frame : Body.DapStackFrame
one_frame = record {
  id = pos 7;
  name = "main";
  source = some (record { path = "" });
  line = pos 3;
  instruction_pointer_reference = "0x10";
}

-- The empty path of a frame is none, and a body that is missing is read as an empty object.
decode_frame :
    Body.stack_trace
      (λ value. ok (record { stack_frames = one_frame ∷ []; total_frames = pos 1 }))
      none
    ≡ ok (
      record {
        index = pos 0;
        id = pos 7;
        name = "main";
        source_path = none;
        line = pos 3;
        instruction_pointer = some "0x10";
      }
          ∷ [],
      pos 1,
    )
unfolding Body.stack_trace Body.decode Body.frames_from
decode_frame = refl

abbrev old_binary : Detect.Env
old_binary = record {
  var = λ key. none;
  look_path = λ name. if name == "lldb-dap-17" then some "/usr/bin/lldb-dap-17" else none;
  path_exists = λ path. false;
  xcrun_find_lldb_dap = none;
  is_macos = false;
}

-- A binary that carries its version is found.
find_old :
    Detect.find_lldb_dap_with (λ text. text) (λ path. path) (λ text part. false) old_binary
    ≡ ok (record { path = "/usr/bin/lldb-dap-17"; is_lldb_dap = true })
unfolding Detect.find_lldb_dap_with Detect.by_variable Detect.versioned Detect.on_path
find_old = refl
