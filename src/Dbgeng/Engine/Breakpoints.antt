-- ===== src/Dbgeng/Engine/Breakpoints.antt =====
-- crates/dbgeng-sys/src/engine.rs: the breakpoints of the engine.
use debug_mcp.Prelude.{
  ℕ, zero, suc, ◌+◌, ◌%◌, ◌^◌, ◌-◌, ℤ, pos, negsuc, String, true, false, Option, none, some, List,
  [], ◌∷◌, if◌then◌else◌, Result, ok, err, ◌==◌, string_eq, nat_eq, ltb,
}
use debug_mcp.Prelude.Text.{◌<>◌, show_hex}
use debug_mcp.Prelude.Maps
use debug_mcp.Core.Types.{BreakpointResult}
use debug_mcp.Windbg.Engine.{BpLoc}
use debug_mcp.Dbgeng.Error.{ComError, EngineError, op}
use debug_mcp.Dbgeng.Com.{Com, Texts}
use debug_mcp.Dbgeng.Engine.{Engine, Act, ◌>>=◌, ◌>>◌, pure, fail, attempt, call, changes}

-- `as u32`
unfoldable pub as_u32 : ℤ → ℕ
as_u32 (pos n) = n % 2 ^ 32
as_u32 (negsuc n) = 2 ^ 32 - 1 - n % 2 ^ 32

abbrev pub line_of : Option ℕ → ℤ
line_of none = pos 0
line_of (some line) = pos line

abbrev pub id_of : Result ComError ℕ → ℕ
id_of (err x) = 0
id_of (ok n) = n

unfoldable pub or_address : ℕ → Option String → String
unfolding show_hex
or_address offset none = "0x" <> show_hex 16 offset
or_address offset (some name) = name

abbrev pub add_found : {A : Type 0} → Option A → List A → List A
add_found none rest = rest
add_found (some a) rest = a ∷ rest

module _ (texts : Texts) {C : Type 0} (dbg : Com C) where
  -- `module_name`
  unfoldable pub module_name : ℕ → Act C (Option String)
  unfolding attempt
  module_name i =
      attempt (dbg.module_name i) >>= λ name. elim name [ err x ↦ pure none | ok m ↦ pure (some m) ]

  unfoldable pub qualified : String → Option String → Act C (Option ℕ)
  unfolding attempt
  qualified name none = pure none
  qualified name (some m) =
      if texts.has_nul (m <> "!" <> name)
      then pure none
      else (attempt (dbg.offset_by_name (m <> "!" <> name)) >>= λ found. elim found [
        | err x ↦ pure none
        | ok offset ↦ pure (some offset)
      ])

  -- The loop over the modules from `i`, of which `count` are left.
  unfoldable pub by_module : String → ℕ → ℕ → Act C (Option ℕ)
  unfolding module_name qualified
  by_module name i zero = pure none
  by_module name i (suc count) = module_name i >>= λ m. qualified name m >>= λ found. elim found [
    | some offset ↦ pure (some offset)
    | none ↦ by_module name (i + 1) count
  ]

  unfoldable pub in_modules : String → Act C (Option ℕ)
  unfolding attempt by_module
  in_modules name =
      if texts.has_bang name
      then pure none
      else (attempt dbg.number_modules >>= λ loaded. elim loaded [
        | err x ↦ pure none
        | ok count ↦ by_module name 0 count
      ])

  -- The error is that of the first lookup.
  unfoldable pub resolve_function : String → Act C ℕ
  unfolding attempt in_modules
  resolve_function name =
      if texts.has_nul name
      then fail (EngineError.engine "set_breakpoint: function name contains an interior NUL byte")
      else (attempt (dbg.offset_by_name name) >>= λ direct. elim direct [
        | ok offset ↦ pure offset
        | err x ↦ in_modules name >>= λ found. elim found [
          | some offset ↦ pure offset
          | none ↦ fail (op "GetOffsetByName" x)
        ]
      ])

  unfoldable pub resolve_bp_loc : BpLoc → Act C (ℕ × Option ℕ)
  unfolding call resolve_function
  resolve_bp_loc (BpLoc.address addr) = pure (addr, none)
  resolve_bp_loc (BpLoc.file_line file line) =
      if texts.has_nul file
      then fail (EngineError.engine "set_breakpoint: file path contains an interior NUL byte")
      else (call "GetOffsetByLine" (dbg.offset_by_line line file) >>= λ offset.
          pure (offset, some line))
  resolve_bp_loc (BpLoc.function name) = resolve_function name >>= λ offset. pure (offset, none)

  abbrev store_condition : ℕ → String → Engine C → Engine C
  store_condition id condition e =
      if condition == ""
      then e
      else record e { breakpoint_conditions = Maps.insert id condition e.breakpoint_conditions }

  unfoldable pub set_breakpoint : BpLoc → String → Act C BreakpointResult
  unfolding resolve_bp_loc call Maps.insert
  set_breakpoint loc condition = resolve_bp_loc loc >>= λ at.
      call "AddBreakpoint" dbg.add_breakpoint >>= λ bp.
      call "SetOffset" (dbg.set_offset bp at.0)
      >> call "AddFlags(ENABLED)" (dbg.enable bp)
      >> (call "GetId" (dbg.get_id bp) >>= λ id.
          changes (store_condition id condition)
          >> pure (record {
            id = pos id;
            verified = true;
            line = line_of at.1;
            message = "";
            rejected = false;
          }))

  unfoldable pub remove_breakpoint : ℤ → Act C (Unit {0})
  unfolding call as_u32 Maps.remove
  remove_breakpoint id = call "GetBreakpointById" (dbg.breakpoint_by_id (as_u32 id)) >>= λ bp.
      changes
        (λ e. record e { breakpoint_conditions = Maps.remove (as_u32 id) e.breakpoint_conditions })
      >> call "RemoveBreakpoint" (dbg.remove_breakpoint bp)

  -- The name, with the displacement where it is not the start of a symbol.
  abbrev named : Result ComError (String × ℕ) → Option String
  named (err x) = none
  named (ok (name, displacement)) =
      if name == ""
      then none
      else some (if ltb 0 displacement then name <> "+0x" <> show_hex 1 displacement else name)

  unfoldable pub symbolicate : ℕ → Act C (Option String)
  unfolding attempt show_hex
  symbolicate offset = attempt (dbg.name_by_offset offset) >>= λ found. pure (named found)

  abbrev listed : ℕ → ℕ → Option String → BreakpointResult
  listed id offset name = record {
    id = pos id;
    verified = true;
    line = pos 0;
    message = or_address offset name;
    rejected = false;
  }

  -- The breakpoint of an index, when it is still there.
  unfoldable pub list_one : ℕ → Act C (Option BreakpointResult)
  unfolding attempt symbolicate or_address
  list_one i = attempt (dbg.breakpoint_by_index i) >>= λ bp. elim bp [
    | err x ↦ pure none
    | ok b ↦ attempt (dbg.get_id b) >>= λ id. attempt (dbg.get_offset b) >>= λ offset.
        symbolicate (id_of offset) >>= λ name. pure (some (listed (id_of id) (id_of offset) name))
  ]

  unfoldable pub list_from : ℕ → ℕ → Act C (List BreakpointResult)
  unfolding list_one
  list_from i zero = pure []
  list_from i (suc count) =
      list_one i >>= λ found. list_from (i + 1) count >>= λ rest. pure (add_found found rest)

  unfoldable pub list_breakpoints : Act C (List BreakpointResult)
  unfolding call list_from
  list_breakpoints =
      call "GetNumberBreakpoints" dbg.number_breakpoints >>= λ count. list_from 0 count
