-- ===== src/Dbgeng/Ops.antt =====
-- crates/windbg-backend/src/engine_ops.rs: the operations of the engine as the backend takes them.
use debug_mcp.Prelude.{ℕ, none, some, map_err}
use debug_mcp.Windbg.Engine.{EngineOps, Op}
use debug_mcp.Dbgeng.Error.{display}
use debug_mcp.Dbgeng.Callbacks.{set_sink}
use debug_mcp.Dbgeng.Com.{Com, Texts}
use debug_mcp.Dbgeng.Engine.{Engine, Act}
use debug_mcp.Dbgeng.Engine.Execution
use debug_mcp.Dbgeng.Engine.Lifecycle
use debug_mcp.Dbgeng.Engine.Extensions
use debug_mcp.Dbgeng.Engine.Breakpoints
use debug_mcp.Dbgeng.Engine.Inspection

-- An error is passed on as its text.
unfoldable pub shown : {C A : Type 0} → Act C A → Op (Engine C) A
unfolding display
shown m e = elim (m e) [ none ↦ none | some (r, e') ↦ some (map_err display r, e') ]

unfoldable pub sunk : {C : Type 0} → Engine C → Engine C
unfolding set_sink
sunk e = record e { callback_state = set_sink e.callback_state }

-- `impl EngineOps for Engine`
unfoldable pub ops : Texts → {C : Type 0} → Com C → ℕ → EngineOps (Engine C)
unfolding shown sunk
ops texts dbg fuel = record {
  launch = λ req. shown (Lifecycle.launch texts dbg fuel req);
  attach_pid = λ pid. shown (Lifecycle.attach_pid texts dbg fuel pid);
  detach = λ terminate. shown (Lifecycle.detach texts dbg fuel terminate);
  go = λ timeout_ms. shown (Execution.go texts dbg fuel timeout_ms);
  step = λ kind. shown (Execution.step texts dbg fuel kind);
  break_in = shown (Execution.break_in texts dbg fuel);
  set_breakpoint = λ loc condition. shown (Breakpoints.set_breakpoint texts dbg loc condition);
  remove_breakpoint = λ id. shown (Breakpoints.remove_breakpoint texts dbg id);
  list_breakpoints = shown (Breakpoints.list_breakpoints texts dbg);
  threads = shown (Inspection.threads texts dbg);
  stack_trace = λ thread_id max. shown (Inspection.stack_trace texts dbg thread_id max);
  locals = λ frame_index. shown (Inspection.locals texts dbg frame_index);
  evaluate = λ expr. shown (Extensions.evaluate texts dbg expr);
  read_memory = λ address size. shown (Inspection.read_memory texts dbg address size);
  disassemble = λ address count. shown (Inspection.disassemble texts dbg address count);
  execute = λ command. shown (Extensions.execute texts dbg command);
  modules = shown (Inspection.modules texts dbg);
  open_dump = λ path. shown (Lifecycle.open_dump texts dbg fuel path);
  attach_kernel = λ connection. shown (Lifecycle.attach_kernel texts dbg fuel connection);
  analyze = shown (Extensions.analyze texts dbg);
  current_source_location = shown (Lifecycle.current_source_location texts dbg fuel);
  set_output_sink = sunk;
}
