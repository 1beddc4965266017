-- ===== src/Dbgeng/Engine/Inspection.antt =====
-- crates/dbgeng-sys/src/engine.rs: threads, stacks, locals, memory, instructions and modules.
use debug_mcp.Prelude.{
  ℕ, zero, suc, ◌+◌, ◌-◌, ◌^◌, ℤ, pos, negsuc, String, Option, none, some, List, [], ◌∷◌, map,
  first, drop, length, leb, eqb, if◌then◌else◌, Result, ok, err, ltb,
}
use debug_mcp.Prelude.Text.{◌<>◌, show_ℕ, show_hex, join}
use debug_mcp.Core.Types.{ThreadInfo, Frame, Variable, MemoryRead, Instruction, ModuleInfo}
use debug_mcp.Dbgeng.Error.{ComError, EngineError, op}
use debug_mcp.Dbgeng.Com.{Com, Texts, StackFrame, SymbolType}
use debug_mcp.Dbgeng.Engine.{Act, ◌>>=◌, ◌>>◌, pure, fail, give, attempt, call}
use debug_mcp.Dbgeng.Engine.Lifecycle.{line_at}
use debug_mcp.Dbgeng.Engine.Breakpoints.{as_u32, or_address, symbolicate, module_name, add_found}

abbrev thread_entry : ℕ × ℕ → ThreadInfo
thread_entry (engine, system) = record { id = pos engine; name = "sys=" <> show_ℕ system }

-- `max.clamp(1, 1024)`
unfoldable pub frame_limit : ℤ → ℕ
frame_limit (negsuc n) = 1
frame_limit (pos n) = if ltb n 1 then 1 else if ltb 1024 n then 1024 else n

abbrev text_of : Result ComError String → String
text_of (err x) = ""
text_of (ok text) = text

abbrev thread_or : ℕ → Result ComError ℕ → ℕ
thread_or t (err x) = t
thread_or t (ok n) = n

unfoldable pub symbol_status : SymbolType → String
symbol_status SymbolType.none_loaded = "none"
symbol_status SymbolType.pdb = "pdb"
symbol_status SymbolType.codeview = "pdb"
symbol_status SymbolType.coff = "pdb"
symbol_status SymbolType.sym = "pdb"
symbol_status SymbolType.dia = "pdb"
symbol_status SymbolType.export = "export"
symbol_status SymbolType.deferred = "deferred"
symbol_status (SymbolType.unknown n) = "none"

-- The instruction is what follows the address and the bytes.
unfoldable pub parse_disasm_text : Texts → String → String
unfolding join
parse_disasm_text texts line = elim (texts.words (texts.trim line)) [
  | [] ↦ texts.trim line
  | addr ∷ rest ↦ elim rest [
    | [] ↦ texts.trim line
    | bytes ∷ shown ↦ elim shown [ [] ↦ texts.trim line | w ∷ ws ↦ join " " (w ∷ ws) ]
  ]
]

abbrev parameters_of : Result ComError (ℕ × SymbolType) → ℕ × String
parameters_of (err x) = (0, "none")
parameters_of (ok (size, symbol_type)) = (size, symbol_status symbol_type)

abbrev name_or_empty : Option String → String
name_or_empty none = ""
name_or_empty (some name) = name

abbrev count_of : ℤ → ℕ
count_of (pos n) = n
count_of (negsuc n) = 0

module _ (texts : Texts) {C : Type 0} (dbg : Com C) where
  unfoldable pub threads : Act C (List ThreadInfo)
  unfolding call show_ℕ
  threads = call "GetNumberThreads" dbg.number_threads >>= λ count.
      if eqb count 0
      then pure []
      else (call "GetThreadIdsByIndex" (dbg.thread_ids count) >>= λ ids.
          pure (map thread_entry ids))

  unfoldable pub frames_from : ℕ → List StackFrame → Act C (List Frame)
  unfolding symbolicate line_at or_address show_hex
  frames_from i [] = pure []
  frames_from i (f ∷ fs) = symbolicate texts dbg f.instruction_offset >>= λ name.
      line_at dbg f.instruction_offset >>= λ at. frames_from (suc i) fs >>= λ rest. pure (
        record {
          index = pos i;
          id = pos i;
          name = or_address f.instruction_offset name;
          source_path = at.0;
          line = at.1;
          instruction_pointer = some ("0x" <> show_hex 16 f.instruction_offset);
        }
        ∷ rest)

  -- The thread that was current is current again before an error of the trace is raised.
  unfoldable pub stack_trace : ℤ → ℤ → Act C (List Frame)
  unfolding attempt call frame_limit frames_from as_u32
  stack_trace thread_id max = attempt dbg.current_thread >>= λ current.
      call "SetCurrentThreadId" (dbg.set_current_thread (as_u32 thread_id))
      >> (attempt (dbg.stack_frames (frame_limit max)) >>= λ trace.
          attempt (dbg.set_current_thread (thread_or (as_u32 thread_id) current)) >>= λ restored.
          elim trace [ err x ↦ fail (op "GetStackTrace" x) | ok frames ↦ frames_from 0 frames ])

  unfoldable pub locals_from : ℕ → ℕ → ℕ → Act C (List Variable)
  unfolding attempt
  locals_from group i zero = pure []
  locals_from group i (suc count) = attempt (dbg.symbol_name group i) >>= λ name.
      attempt (dbg.symbol_value group i) >>= λ value. attempt (dbg.symbol_type group i) >>= λ ty.
      locals_from group (suc i) count >>= λ rest. pure (
        record {
          name = text_of name;
          value = text_of value;
          ty = text_of ty;
          variables_reference = pos 0;
          named = pos 0;
          indexed = pos 0;
        }
        ∷ rest)

  unfoldable pub read_scope_locals : Act C (List Variable)
  unfolding call locals_from
  read_scope_locals = call "GetScopeSymbolGroup2" dbg.scope_group >>= λ group.
      call "GetNumberSymbols" (dbg.number_symbols group) >>= λ count. locals_from group 0 count

  abbrev out_of_range : ℕ → ℕ → EngineError
  out_of_range index filled =
      EngineError.engine
        ("locals: frame " <> show_ℕ index <> " is out of range (" <> show_ℕ filled <> " frames)")

  -- The scope of a frame above the first.
  unfoldable pub scoped_to : ℕ → Act C (Unit {0})
  unfolding call drop show_ℕ
  scoped_to index = call "GetStackTrace" (dbg.stack_frames (index + 1)) >>= λ frames.
      elim (first (drop index frames)) [
        | none ↦ fail (out_of_range index (length frames))
        | some frame ↦ call "SetScope" (dbg.set_scope frame)
      ]

  -- The scope is reset whether or not the locals could be read.
  unfoldable pub locals : ℤ → Act C (List Variable)
  unfolding read_scope_locals scoped_to attempt
  locals (negsuc n) = read_scope_locals
  locals (pos zero) = read_scope_locals
  locals (pos (suc n)) = scoped_to (suc n) >> (λ e. elim (read_scope_locals e) [
    | none ↦ none
    | some (r, e') ↦ (attempt dbg.reset_scope >>= λ reset. give r) e'
  ])

  unfoldable pub read_memory : ℕ → ℕ → Act C MemoryRead
  unfolding call show_hex
  read_memory address size =
      call "ReadVirtual"
        (dbg.read_virtual address (if ltb (2 ^ 32 - 1) size then 2 ^ 32 - 1 else size))
      >>= λ bytes. pure (record { address = "0x" <> show_hex 16 address; bytes = bytes })

  -- The loop stops where an instruction cannot be read, or does not advance.
  unfoldable pub disassemble_from : ℕ → ℕ → Act C (List Instruction)
  unfolding attempt parse_disasm_text show_hex
  disassemble_from zero offset = pure []
  disassemble_from (suc count) offset = attempt (dbg.disassemble offset) >>= λ step. elim step [
    | err x ↦ pure []
    | ok (text, end_offset) ↦
        (if leb end_offset offset then pure [] else disassemble_from count end_offset) >>= λ rest.
        pure (
          record {
            address = "0x" <> show_hex 16 offset;
            instruction = parse_disasm_text texts text;
            bytes = "";
            symbol = "";
            source_path = none;
            line = pos 0;
          }
          ∷ rest)
  ]

  unfoldable pub disassemble : ℕ → ℤ → Act C (List Instruction)
  unfolding disassemble_from
  disassemble address count = disassemble_from (count_of count) address

  unfoldable pub module_one : ℕ → Act C (Option ModuleInfo)
  unfolding attempt module_name symbol_status show_hex show_ℕ
  module_one i = attempt (dbg.module_by_index i) >>= λ found. elim found [
    | err x ↦ pure none
    | ok base ↦ module_name texts dbg i >>= λ name. attempt (dbg.module_parameters base) >>= λ read.
        pure (
          some (record {
            name = name_or_empty name;
            base = "0x" <> show_hex 16 base;
            size = show_ℕ (parameters_of read).0;
            symbol_status = (parameters_of read).1;
          }))
  ]

  unfoldable pub modules_from : ℕ → ℕ → Act C (List ModuleInfo)
  unfolding module_one
  modules_from i zero = pure []
  modules_from i (suc count) =
      module_one i >>= λ found. modules_from (suc i) count >>= λ rest. pure (add_found found rest)

  unfoldable pub modules : Act C (List ModuleInfo)
  unfolding call modules_from
  modules = call "GetNumberModules" dbg.number_modules >>= λ loaded. modules_from 0 loaded
