-- ===== src/Tools/Examples.antt =====
-- The theorems on the frames, the hex dump and the crash dumps at concrete data.
use debug_mcp.Prelude.{
  ℕ, ℤ, pos, ◌≡◌, refl, ◌⊎◌, true, false, Option, none, find, any, ◌==◌, string_eq, some, List, [],
  ◌∷◌, length, arith, Result, ok, err, int_eq,
}
use debug_mcp.Prelude.Text.{join}
use debug_mcp.Prelude.Maps
use debug_mcp.Core.Types.{Frame, DumpOutcome}
use debug_mcp.Core.Error.{BackendError}
use debug_mcp.Session.State.{stopped}
use debug_mcp.Session.Manager.{new, set_state}
use debug_mcp.Session.Manager.Valid.{IsValid, new-IsBuffer}
use debug_mcp.Tools.Json.{Serde, Value}
use debug_mcp.Tools.Errors.{continue_error}
use debug_mcp.Tools.Response.{error, is_error}
use debug_mcp.Tools.Server.{ToolServer, done, Reply, replied}
use debug_mcp.Tools.Registry.{no_capabilities}
use debug_mcp.Tools.Execution.{continues, resume, dump_no_continue, last_thread}
use debug_mcp.Tools.Lifecycle.Phases.{blank}
use debug_mcp.Tools.Frames.{lookup_frame, finish_lookup}
use debug_mcp.Tools.Frames.Cached.{last_id}
use debug_mcp.Tools.Inspection.{PendingTrace, backtrace_end}
use debug_mcp.Tools.Inspection.Backtrace.{looked_up, backtrace-lookup}
use debug_mcp.Tools.HexDump.{format_hex_dump}
use debug_mcp.Tools.HexDump.Rows.{rows, format_hex_dump-rows}
use debug_mcp.Tools.Windbg.{Opened, open_crash_dump_end}
use debug_mcp.Tools.Args.{Args, get_raw}
use debug_mcp.Tools.Registry
use debug_mcp.Tools.Registry.{BackendRegistry}
use debug_mcp.Tools.Schema.{Tool, all_tools, tool, object_schema}
use debug_mcp.Tools.Dispatch.{tools, get_tool}
use debug_mcp.Tools.Dispatch.Required.{required_of, Refused, dispatch-required}
use debug_mcp.Tools.Windbg.Connect.{open_crash_dump_end_lem}

abbrev frame : ℤ → ℤ → Frame
frame index id = record {
  index = index;
  id = id;
  name = "main";
  source_path = none;
  line = pos 0;
  instruction_pointer = none;
}

-- The second frame has the id 1001.
abbrev stack : List Frame
stack = frame (pos 0) (pos 1000) ∷ frame (pos 1) (pos 1001) ∷ []

abbrev trace : ℤ → Result BackendError (List Frame × ℤ)
trace thread_id = ok (stack, pos 2)

second_frame : (finish_lookup trace (pos 1) (lookup_frame (pos 1) new) new).0 ≡ ok (pos 1001)
unfolding finish_lookup lookup_frame
second_frame = refl

abbrev server : ToolServer
server = record { session = new; backend = some 1; active_backend_name = some "windbg" }

abbrev waiting : PendingTrace
waiting = record { handle = 1; thread_id = pos 1; levels = pos 20 }

backtrace-lookup_example :
    lookup_frame (pos 1) (backtrace_end waiting (ok (stack, pos 2)) server).1.session
    ≡ looked_up (last_id (pos 1) stack none) (last_thread server.session)
backtrace-lookup_example = backtrace-lookup waiting stack (pos 2) (pos 1) server

abbrev bytes : List ℕ
bytes = 72 ∷ 105 ∷ 0 ∷ 255 ∷ []

dumped :
    format_hex_dump bytes 4096
    ≡ "0x00001000: 48 69 00 ff                                       |Hi..            |"
unfolding format_hex_dump
dumped = refl

format_hex_dump-rows_example :
    format_hex_dump bytes 4096 ≡ join "\n" (rows (length bytes) 4096 bytes)
format_hex_dump-rows_example = format_hex_dump-rows bytes 4096

abbrev nothing_read : Serde
nothing_read = record { as_f64 = λ n. none; parse_array = λ s. err ""; parse_object = λ s. err "" }

abbrev opened : Opened
opened = record {
  handle = 1;
  generation = 0;
  opening = record {
    factory = record { name = "windbg"; capabilities = no_capabilities };
    target = "crash.dmp";
  };
}

abbrev loaded : Reply DumpOutcome
loaded = replied (ok (record { stop = none; crash_location = some "main.c:7" }))

new-IsValid : IsValid new
unfolding Maps.contains_key
new-IsValid = record {
  epoch = omega arith;
  responses = tt;
  keyed = tt;
  sources = tt;
  pending = tt;
  buffered = new-IsBuffer;
}

open_crash_dump_end_lem_example :
    ((is_error (open_crash_dump_end opened loaded server).0 ≡ false)
      × ((open_crash_dump_end opened loaded server).1.session.state ≡ stopped)
      × (resume nothing_read [] continues continue_error "timeout"
            (open_crash_dump_end opened loaded server).1
          ≡ (done (error dump_no_continue), (open_crash_dump_end opened loaded server).1)))
    ⊎ ((is_error (open_crash_dump_end opened loaded server).0 ≡ true)
        × ((open_crash_dump_end opened loaded server).1 ≡ blank server))
open_crash_dump_end_lem_example =
    open_crash_dump_end_lem nothing_read [] continues continue_error "timeout" opened loaded server
      new-IsValid

abbrev only_lldb : BackendRegistry
only_lldb = Registry.new "lldb"

abbrev tool_or : Option Tool → Tool
tool_or none = record { name = ""; description = ""; input_schema = Value.null }
tool_or (some t) = t

abbrev read_memory_tool : Tool
unfolding get_tool tools all_tools tool object_schema find
read_memory_tool = tool_or (get_tool only_lldb "read_memory")

read_memory-advertised : get_tool only_lldb "read_memory" ≡ some read_memory_tool
unfolding get_tool tools all_tools tool object_schema find read_memory_tool
read_memory-advertised = refl

count-required : any (λ k. k == "count") (required_of read_memory_tool.input_schema) ≡ true
unfolding any read_memory_tool
count-required = refl

-- The address is there, the count is not.
abbrev only_address : Args
only_address = ("address", Value.string "0x1000") ∷ []

no_count : get_raw "count" only_address ≡ none
unfolding get_raw
no_count = refl

abbrev paused : ToolServer
paused = record server { session = set_state stopped new }

dispatch-required_example : Refused nothing_read only_lldb none only_address paused "read_memory"
dispatch-required_example =
    dispatch-required nothing_read only_lldb none only_address paused read_memory_tool "read_memory"
      "count" read_memory-advertised count-required no_count
