-- ===== src/Lib.antt =====
-- debug-mcp: an MCP server that drives a debugger for an agent.
--
-- The program (crates/) is a set of tool handlers over the state of one debug session and a
-- backend, the debugger. A handler guards the session's state, calls the backend, and writes the
-- result to the session; an event pump writes the output and the end of the debuggee to the same
-- session while handlers wait. The session is behind a lock that each of its methods takes once.
--
--   Prelude        the shared names; lists, maps and integers over the native numbers, results, text
--   Core           crates/debugger-core/src: the types, events and errors at the seam to a backend
--                  (Core/Types: types.rs, event.rs, capabilities.rs; Core/Error: error.rs)
--   Session        crates/mcp-session/src
--     State        state.rs and breakpoint.rs
--     Output       output_buffer.rs; its laws in Output/Laws
--     Pump         pump.rs
--     Manager      manager.rs: `SessionManager`, its breakpoint methods in Manager/Tracking; the calls
--                  that come to a session, as values, in Manager/Calls; laws in Generation (epochs),
--                  Guard (`check_state`), Valid (the invariant), Tracked (list and removal), Flush
--   Dap            crates/dap-client/src: Wire (the messages of wire.rs), Framing (its Content-Length
--                  frames, as bytes; laws in Decimal and RoundTrip), StopWaiter (stop_waiter.rs; laws
--                  in SingleShot), Shared (what client.rs shares with the read loop; laws in Once), Client
--                  (its requests; laws in Client/Answered), ReadLoop (read_loop.rs; laws in Recover)
--   Tools          crates/mcp-tools/src
--     Json, Args, Errors, Response, HexDump, Server   the values of serde_json, args.rs, errors.rs,
--                  response.rs with part of format.rs, its hex dump, the state of server.rs
--     Flatten      flatten.rs; Capped and Bounds have its laws
--     Registry     registry.rs; its laws in Registry/Laws
--     Execution    handlers/execution.rs; Begin and Finish have the laws of the two parts of a resume
--     Lifecycle    handlers/lifecycle.rs; Launch and Phases have its laws, Stale those of a late error
--     Breakpoints  handlers/breakpoints.rs; laws in Transactions, Removal, Moved
--     Frames       frame.rs; Frames/Cached has its law
--     Inspection   handlers/inspection.rs, with `variables` and `evaluate` in Inspection/Variables; the
--                  law of a backtrace in Inspection/Backtrace
--     Memory, Commands, Windbg   handlers/memory.rs, output.rs and run_command.rs, windbg.rs; the end of
--                  a crash dump's load is in Windbg/Connect
--     Schema, Dispatch   schema.rs, and the dispatch of server.rs by the name of a tool; the arguments
--                  that a schema requires are in Dispatch/Required
--   Windbg         crates/windbg-backend/src: Engine (the engine's operations of engine_ops.rs, and the
--                  calls to its thread), Breakpoints (the table and its two setters in backend.rs),
--                  Backend (the other operations of backend.rs). Below Breakpoints: Adding and Removing
--                  (the two passes), Agreement with its Steps (what holds between them), Refinement
--                  (one request), Table (the whole table), Leftover (the engine whose commands may fail), Zero
--                  (the id 0). Thread is thread.rs, the commands
--                  of the engine's thread and its loop, with laws in Thread/Served; Factory is the stream
--                  of events of factory.rs, with laws in Factory/Ends
--   Dbgeng         crates/dbgeng-sys/src: Error (error.rs), Callbacks (callbacks.rs), Com (what is used of
--                  DbgEng's COM interfaces), Engine (the state of engine.rs), and below Engine its operations:
--                  Wait (`wait_for_event`), Execution (`go`, `step`, `break_in`), Lifecycle (`launch`, the
--                  attaches, `open_dump`, `detach`), Extensions (`execute`, `analyze`, `evaluate`), Breakpoints,
--                  Inspection. Rules has the rules for sequences of these steps; laws in Conditions (conditional
--                  breakpoints), Ending (the end of a wait) and Stale (what a stop reports). Ops is `impl
--                  EngineOps for Engine` of crates/windbg-backend/src/engine_ops.rs
--   Lldb           crates/lldb-backend/src: Requests (requests.rs and args.rs), Client (what is used of
--                  the DAP client), Backend (the operations of backend.rs; Backend/Script has the order
--                  of a launch), Body (body.rs), Queries (the operations that decode
--                  a body), Detect (detect.rs), Stderr (the buffer of subprocess.rs; its law is in Stderr/Tail)
--   Session/Tests, Dap/Tests, Dap/Framing/Tests, Tools/Tests, Tools/Examples, Windbg/Tests,
--   Dbgeng/Tests and Lldb/Tests run the operations and apply the theorems at concrete data.
--
-- State and operations. An operation keeps the name of its function and takes the state last; it
-- returns the new state, with its value in front if it has one. A method of `SessionManager` is one
-- step. A handler that waits is cut at each wait: its first part returns `done` with an answer or
-- `waits` with what its later part uses, and the later part takes the answer of the wait (a result
-- of the backend, or the cancellation of the request) and the server of that time. What a handler
-- does between two waits is taken as one step; between the parts any calls may come (`Call`,
-- `run`).
--
-- Parameters. A backend is a handle, and what it answers is an argument. So are the connection of a
-- factory, the value of DEBUG_BACKEND, the fetch of a level of variables, Unicode lower-casing, and
-- what serde_json does: reading a number as f64, parsing a text as an array or an object (`Serde`).
-- UTF-8 is the record `Utf8`, of which only that ASCII stands for itself is used. The engine of the
-- WinDbg backend is a record of operations on a state that is not known, `EngineOps`; `IsLawful`
-- of Windbg/Breakpoints/Leftover says what is relied on of its breakpoints, whose places a function
-- `at` reads off the state, those of commands that fail included. The
-- COM interfaces of DbgEng are the record `Com` of calls on a state that is not known: a call
-- answers a value or an error and the callbacks that DbgEng made meanwhile; the clock, the
-- interrupts of other threads, the registry and the files are calls of it too. The text functions
-- of the engine (`is_char_boundary`, splitting at white space and the like) are the record `Texts`.
-- The parse of a u64 in a radix, `trim` and `trim_start` of a text, and the poll for a process are
-- arguments. The DAP client of the LLDB backend is a record of operations on a state that is not
-- known, `DapClient`; the text of the standard error of lldb-dap, trimmed, what serde_json reads a
-- body as, base64, and in the search for lldb-dap the base name of a path and `contains` are
-- arguments.
--
-- One-shot channels. The receiver of a channel is a ticket, given out by a counter, and what was
-- sent on the channels is kept in the state, oldest first; a receiver is ready when its ticket is
-- there.
--
-- Numbers. The sequence number of a request is an i64 that wraps, kept as 64 bits. The epoch is a
-- u64 that wraps. An i64 is an integer of ℤ; the only sum of two, that of `named` and `indexed` in
-- flatten.rs, is taken not to leave i64. A finite f64 is exact, a sign, a mantissa and a power of
-- two, and `as i64` saturates. The byte counts of the output buffer and lengths are those of values
-- in memory, below 2 ^ 64. Fuel: a number is printed by division with 20 digits of fuel, which is
-- enough below 2 ^ 64; the hex dump has as much fuel as there are bytes. A wait of the engine has a
-- round of fuel for each event that it resumes from, and the polls of `go` have the same fuel;
-- DbgEng decides how many there are. A flattening recurs on the depth left, which the code counts
-- down.
--
-- A HashMap is an association list with distinct keys; nothing that is proved depends on its order
-- but the order of the entries itself, where the code sorts (`list_breakpoints`,
-- `available_names`).
--
-- Not modelled: the conversion of an outcome to the result type of rmcp; the JSON of the DAP client
-- and what its writer does with the bytes; of the LLDB backend `disconnect`, the real environment
-- of the search for lldb-dap, its spawn and the event stream; of the WinDbg backend the poll for a
-- process, and the start of the engine's thread with its COM apartment; of the bindings of DbgEng
-- the creation of the interfaces, the calls of the registry and of privileges, and the getters that
-- nothing calls; the binary, the tests. The time limits of `disconnect` are not modelled: its waits
-- end in either way.
pub mod Prelude
pub mod Core
pub mod Session
pub mod Dap
pub mod Tools
pub mod Lldb
pub mod Dbgeng
pub mod Windbg
