-- ===== src/Dbgeng/Com.antt =====
-- The COM interfaces of DbgEng as crates/dbgeng-sys/src/engine.rs uses them, on a state that is not
-- known here, with the clock, the interrupts of other threads and the files that it asks for. A call
-- answers, and in it DbgEng may call the callbacks.
use debug_mcp.Prelude.{ℕ, String, Bool, Option, List, Result}
use debug_mcp.Dbgeng.Error.{ComError}
use debug_mcp.Dbgeng.Callbacks.{Status, Event}

abbrev pub Called : Type 0 → Type 0 → Type 0
Called C A = C → (Result ComError A × List Event) × C

-- `DEBUG_END_*`
pub data EndFlags : Type 0 where
  passive active_terminate active_detach : EndFlags

pub record StackFrame : Type 0 where
  pub instruction_offset : ℕ

-- `SymbolType` of a module's parameters, by its names.
pub data SymbolType : Type 0 where
  none_loaded pdb codeview coff sym dia export deferred : SymbolType
  unknown : ℕ → SymbolType

pub record Com (C : Type 0) : Type 0 where
  -- The cast of the control interface to its base.
  pub query_control : Called C (Unit {0})
  pub get_execution_status : Called C Status
  pub set_execution_status : Status → Called C (Unit {0})
  -- `S_OK` is true and `S_FALSE` false.
  pub wait_for_event : ℕ → Called C Bool
  -- The id of the last event where it is a breakpoint.
  pub last_event : Called C (Option ℕ)
  -- The value, and how much of the text was read.
  pub evaluate : String → Called C (ℕ × ℕ)
  -- With output to this client, or ignored.
  pub execute : Bool → String → Called C (Unit {0})
  pub set_interrupt : Called C (Unit {0})
  pub add_initial_break : Called C (Unit {0})
  pub remove_initial_break : Called C (Unit {0})
  pub create_process : String → Option String → Called C (Unit {0})
  pub attach_process : ℕ → Called C (Unit {0})
  pub attach_kernel : String → Called C (Unit {0})
  pub open_dump_file : String → Called C (Unit {0})
  pub end_session : EndFlags → Called C (Unit {0})
  pub enable_debug_privilege : Called C (Unit {0})
  pub reload : String → Called C (Unit {0})
  -- Breakpoints: `AddBreakpoint` and what is asked of the object, known by a handle.
  pub add_breakpoint : Called C ℕ
  pub set_offset : ℕ → ℕ → Called C (Unit {0})
  pub enable : ℕ → Called C (Unit {0})
  pub get_id : ℕ → Called C ℕ
  pub get_offset : ℕ → Called C ℕ
  pub breakpoint_by_id : ℕ → Called C ℕ
  pub breakpoint_by_index : ℕ → Called C ℕ
  pub number_breakpoints : Called C ℕ
  pub remove_breakpoint : ℕ → Called C (Unit {0})
  -- Symbols and modules. A name that is read is that up to its NUL.
  pub offset_by_line : ℕ → String → Called C ℕ
  pub offset_by_name : String → Called C ℕ
  pub number_modules : Called C ℕ
  pub module_by_index : ℕ → Called C ℕ
  pub module_name : ℕ → Called C String
  pub module_parameters : ℕ → Called C (ℕ × SymbolType)
  pub name_by_offset : ℕ → Called C (String × ℕ)
  pub line_by_offset : ℕ → Called C (ℕ × String)
  pub instruction_offset : Called C ℕ
  -- Threads, stacks, scopes.
  pub current_thread : Called C ℕ
  pub set_current_thread : ℕ → Called C (Unit {0})
  pub number_threads : Called C ℕ
  -- The ids of the engine and of the system, of so many threads.
  pub thread_ids : ℕ → Called C (List (ℕ × ℕ))
  pub stack_frames : ℕ → Called C (List StackFrame)
  pub set_scope : StackFrame → Called C (Unit {0})
  pub reset_scope : Called C (Unit {0})
  -- The group of the locals in scope, known by a handle.
  pub scope_group : Called C ℕ
  pub number_symbols : ℕ → Called C ℕ
  pub symbol_name : ℕ → ℕ → Called C String
  pub symbol_value : ℕ → ℕ → Called C String
  pub symbol_type : ℕ → ℕ → Called C String
  pub read_virtual : ℕ → ℕ → Called C (List ℕ)
  -- The text of an instruction, and the offset behind it.
  pub disassemble : ℕ → Called C (String × ℕ)
  -- The clock, in milliseconds, and whether another thread has asked for an interrupt since.
  pub now : C → ℕ × C
  pub interrupted : C → Bool × C
  -- `discover_debuggers_root`, from the registry, the environment and the files.
  pub kits_root : Bool → C → Option String × C
  pub sdk_dir : C → Option String × C
  pub exists : String → C → Bool × C

-- What the standard library computes of texts: whether there is a NUL inside, the length in bytes,
-- `trim`, whether a character ends at a count of bytes, the text up to there, the words, and whether
-- there is an exclamation mark.
pub record Texts : Type 0 where
  pub has_nul : String → Bool
  pub byte_length : String → ℕ
  pub trim : String → String
  pub is_char_boundary : String → ℕ → Bool
  pub take : ℕ → String → String
  pub words : String → List String
  pub has_bang : String → Bool
