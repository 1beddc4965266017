-- ===== src/Windbg/Thread.antt =====
-- crates/windbg-backend/src/thread.rs: the thread that owns the engine. The channel to it is the list
-- of the commands that it receives before it is closed; an operation of the engine that does not
-- answer has panicked. The one-shot channel of a reply is a ticket.
pub mod Served
use debug_mcp.Prelude.{
  ℕ, ℤ, String, Bool, true, false, Option, none, some, List, [], ◌∷◌, ◌++◌, Result, ok, err,
}
use debug_mcp.Core.Types.{
  StopOutcome, BreakpointResult, ThreadInfo, Frame, Variable, EvalResult, MemoryRead, Instruction,
  ModuleInfo, DumpOutcome, StepKind,
}
use debug_mcp.Windbg.Engine.{BpLoc, LaunchReq, EngineOps}

abbrev pub Ticket : Type 0
Ticket = ℕ

pub data EngineCmd : Type 0 where
  launch : LaunchReq → Ticket → EngineCmd
  attach_pid : ℕ → Ticket → EngineCmd
  detach : Bool → Ticket → EngineCmd
  go : ℕ → Ticket → EngineCmd
  step : StepKind → Ticket → EngineCmd
  break_in : Ticket → EngineCmd
  set_breakpoint : BpLoc → String → Ticket → EngineCmd
  remove_breakpoint : ℤ → Ticket → EngineCmd
  list_breakpoints : Ticket → EngineCmd
  threads : Ticket → EngineCmd
  stack_trace : ℤ → ℤ → Ticket → EngineCmd
  locals : ℤ → Ticket → EngineCmd
  evaluate : String → Ticket → EngineCmd
  read_memory : ℕ → ℕ → Ticket → EngineCmd
  disassemble : ℕ → ℤ → Ticket → EngineCmd
  execute : String → Ticket → EngineCmd
  modules : Ticket → EngineCmd
  current_source_location : Ticket → EngineCmd
  open_dump : String → Ticket → EngineCmd
  attach_kernel : String → Ticket → EngineCmd
  analyze : Ticket → EngineCmd
  set_output_sink : EngineCmd

-- What is sent as a reply, by its type.
pub data Answer : Type 0 where
  of_stop : Result String StopOutcome → Answer
  of_run : Result String (Option StopOutcome) → Answer
  of_done : Result String (Unit {0}) → Answer
  of_breakpoint : Result String BreakpointResult → Answer
  of_breakpoints : Result String (List BreakpointResult) → Answer
  of_threads : Result String (List ThreadInfo) → Answer
  of_frames : Result String (List Frame) → Answer
  of_locals : Result String (List Variable) → Answer
  of_value : Result String EvalResult → Answer
  of_memory : Result String MemoryRead → Answer
  of_instructions : Result String (List Instruction) → Answer
  of_text : Result String String → Answer
  of_modules : Result String (List ModuleInfo) → Answer
  of_place : Result String (Option (String × ℤ)) → Answer
  of_dump : Result String DumpOutcome → Answer

abbrev pub Reply : Type 0
Reply = Ticket × Answer

module _ {S : Type 0} where
  abbrev replied :
      {A : Type 0}
      → Ticket
      → (Result String A → Answer)
      → Option (Result String A × S)
      → Option (List Reply × S)
  replied ticket answer none = none
  replied ticket answer (some (r, s)) = some ((ticket, answer r) ∷ [], s)

  -- The replies of a command, and the engine behind it.
  unfoldable pub dispatch : EngineOps S → EngineCmd → S → Option (List Reply × S)
  dispatch ops (launch req t) s = replied t of_stop (ops.launch req s)
  dispatch ops (attach_pid pid t) s = replied t of_stop (ops.attach_pid pid s)
  dispatch ops (detach terminate t) s = replied t of_done (ops.detach terminate s)
  dispatch ops (go timeout t) s = replied t of_run (ops.go timeout s)
  dispatch ops (step kind t) s = replied t of_stop (ops.step kind s)
  dispatch ops (break_in t) s = replied t of_stop (ops.break_in s)
  dispatch ops (set_breakpoint loc condition t) s =
      replied t of_breakpoint (ops.set_breakpoint loc condition s)
  dispatch ops (remove_breakpoint id t) s = replied t of_done (ops.remove_breakpoint id s)
  dispatch ops (list_breakpoints t) s = replied t of_breakpoints (ops.list_breakpoints s)
  dispatch ops (threads t) s = replied t of_threads (ops.threads s)
  dispatch ops (stack_trace thread max t) s = replied t of_frames (ops.stack_trace thread max s)
  dispatch ops (locals frame t) s = replied t of_locals (ops.locals frame s)
  dispatch ops (evaluate expr t) s = replied t of_value (ops.evaluate expr s)
  dispatch ops (read_memory address size t) s = replied t of_memory (ops.read_memory address size s)
  dispatch ops (disassemble address count t) s =
      replied t of_instructions (ops.disassemble address count s)
  dispatch ops (execute command t) s = replied t of_text (ops.execute command s)
  dispatch ops (modules t) s = replied t of_modules (ops.modules s)
  dispatch ops (current_source_location t) s = replied t of_place (ops.current_source_location s)
  dispatch ops (open_dump path t) s = replied t of_dump (ops.open_dump path s)
  dispatch ops (attach_kernel connection t) s = replied t of_stop (ops.attach_kernel connection s)
  dispatch ops (analyze t) s = replied t of_text (ops.analyze s)
  dispatch ops set_output_sink s = some ([], ops.set_output_sink s)

-- How a run of the thread went: its readiness signal, its replies, oldest first, and the engine where
-- nothing panicked.
pub record Run (S : Type 0) : Type 0 where
  pub ready : Option (Result String (Unit {0}))
  pub replies : List Reply
  pub engine : Option S

-- The rest of the loop behind a command.
abbrev pub continued :
    {S : Type 0} → Option (List Reply × S) → (S → List Reply × Option S) → List Reply × Option S
continued none rest = ([], none)
continued (some (rs, s)) rest = let (replies, engine) = rest s in (rs ++ replies, engine)

module _ {S : Type 0} (ops : EngineOps S) where
  -- The command loop, and the detach at the end of it.
  unfoldable pub command_loop : List EngineCmd → S → List Reply × Option S
  unfolding dispatch
  command_loop [] s = elim (ops.detach false s) [ none ↦ ([], none) | some (r, s') ↦ ([], some s') ]
  command_loop (cmd ∷ cmds) s = continued (dispatch ops cmd s) (command_loop cmds)

  -- `waiting` is whether the caller still waits for the readiness.
  unfoldable pub engine_thread_main :
      Result String (Unit {0}) → Result String S → Bool → List EngineCmd → Run S
  unfolding command_loop
  engine_thread_main (err e) made waiting cmds = record {
    ready = some (err e);
    replies = [];
    engine = none;
  }
  engine_thread_main (ok apartment) (err e) waiting cmds = record {
    ready = some (err e);
    replies = [];
    engine = none;
  }
  engine_thread_main (ok apartment) (ok s) false cmds = record {
    ready = none;
    replies = [];
    engine = elim (ops.detach false s) [ none ↦ none | some (r, s') ↦ some s' ];
  }
  engine_thread_main (ok apartment) (ok s) true cmds =
      let (replies, engine) = command_loop cmds s in
      record { ready = some (ok tt); replies = replies; engine = engine }
