-- ===== src/Tools/Memory.antt =====
-- crates/mcp-tools/src/handlers/memory.rs: `read_memory` and `disassemble`, each cut at its waits.
use Prim.Native.String.{len, slice}
use package.text.Mathlib.Text.{starts_with}
use debug_mcp.Prelude.{
  ℕ, ℤ, pos, String, Bool, true, ◌&&◌, ◌||◌, Option, none, some, List, [], ◌∷◌, map, length, first,
  if◌then◌else◌, Result, ok, err, ◌>>=◌, ◌>>◌, map_err, ◌==◌, string_eq,
}
use debug_mcp.Prelude.Text.{◌<>◌}
use debug_mcp.Core.Types.{Frame, MemoryRead, Instruction}
use debug_mcp.Core.Error.{BackendError}
use debug_mcp.Session.State.{stopped}
use debug_mcp.Session.Manager.{check_state}
use debug_mcp.Tools.Json.{Serde, F64, Value, as_i64, gt_zero, from_usize, items}
use debug_mcp.Tools.Args.{Args, get_f64, get_string, require_string, require_positive_int}
use debug_mcp.Tools.Errors.{render, read_memory_error, disassemble_error, stack_trace_error}
use debug_mcp.Tools.Response.{ToolOutcome, error, set, set_if, build, into_outcome}
use debug_mcp.Tools.Server.{Handle, ToolServer, Begun, done, waits, backend_or}
use debug_mcp.Tools.Execution.{last_thread}
use debug_mcp.Tools.Inspection.{set_place, present, is_text}
use debug_mcp.Tools.HexDump.{format_hex_dump}

unfoldable pub has_hex_prefix : String → Bool
has_hex_prefix address = starts_with address "0x" || starts_with address "0X"

unfoldable pub normalize_hex : String → String
unfolding has_hex_prefix
normalize_hex address = if has_hex_prefix address then address else "0x" <> address

-- `strip_prefix("0x").or_else(|| strip_prefix("0X")).unwrap_or(address)`
unfoldable pub strip_hex : String → String
unfolding has_hex_prefix
strip_hex address = if has_hex_prefix address then slice address 2 (len address) else address

pub record PendingRead : Type 0 where
  pub handle : Handle
  pub address : String
  pub count : ℤ

pub record PendingListing : Type 0 where
  pub handle : Handle
  pub address : String
  pub count : ℤ
  pub thread_id : ℤ

abbrev count_or : ℤ → Option F64 → ℤ
count_or default none = default
count_or default (some n) = if gt_zero n then as_i64 n else default

module _ (serde : Serde) where
  unfoldable pub read_checks : Args → ToolServer → Result String PendingRead
  unfolding check_state require_string require_positive_int normalize_hex
  read_checks args sv = do
    check_state (stopped ∷ []) sv.session
    address ← require_string "address" args
    count ← require_positive_int serde "count" args
    handle ← backend_or read_memory_error.request_failed sv
    ok (record { handle = handle; address = normalize_hex address; count = count })

  unfoldable pub handle_read_memory : Args → ToolServer → Begun PendingRead × ToolServer
  unfolding read_checks
  handle_read_memory args sv = elim (read_checks args sv) [
    | err e ↦ (done (error e), sv)
    | ok p ↦ (waits p, sv)
  ]

  -- The thread is that of the last stop; it is asked for its top frame when there is no address.
  unfoldable pub listing_checks : Args → ToolServer → Result String PendingListing
  unfolding check_state get_string get_f64 gt_zero as_i64
  listing_checks args sv = do
    check_state (stopped ∷ []) sv.session
    handle ← backend_or disassemble_error.request_failed sv
    ok (record {
      handle = handle;
      address = get_string "address" "" args;
      count = count_or (pos 20) (get_f64 serde "instruction_count" args);
      thread_id = last_thread sv.session;
    })

  unfoldable pub handle_disassemble : Args → ToolServer → Begun PendingListing × ToolServer
  unfolding listing_checks
  handle_disassemble args sv = elim (listing_checks args sv) [
    | err e ↦ (done (error e), sv)
    | ok p ↦ (waits p, sv)
  ]

-- The dump of what was read; `from_str_radix` is the standard library's parse of a hexadecimal
-- `u64`, with the text of its error.
module _ (from_str_radix : String → Result String ℕ) where
  unfoldable pub dump_response : String → MemoryRead → Result String ToolOutcome
  unfolding strip_hex format_hex_dump set
  dump_response address read = do
    start_addr ←
        map_err (λ e. "failed to parse address: " <> e) (from_str_radix (strip_hex address))
    ok (
        into_outcome (
          set "hex_dump" (Value.string (format_hex_dump read.bytes start_addr)) (
            set "bytes_read" (from_usize (length read.bytes))
              (set "address" (Value.string read.address) []))))

  unfoldable pub read_response : String → MemoryRead → ToolOutcome
  unfolding dump_response set
  read_response address read = elim read.bytes [
    | [] ↦
        into_outcome
          (set "bytes_read" (from_usize 0) (set "address" (Value.string read.address) []))
    | b ∷ bs ↦ elim (dump_response address read) [ err e ↦ error e | ok response ↦ response ]
  ]

  unfoldable pub read_memory_end : PendingRead → Result BackendError MemoryRead → ToolOutcome
  unfolding read_response render
  read_memory_end p (err e) = error (render read_memory_error e)
  read_memory_end p (ok read) = read_response p.address read

-- The instruction pointer of the top frame, if it has one.
unfoldable pub top_pointer : List Frame → Option String
top_pointer frames = elim (first frames) [ none ↦ none | some f ↦ present f.instruction_pointer ]

-- Where the listing starts, and the current instruction where that is the start.
unfoldable pub listing_start :
    (ℤ → Result BackendError (List Frame × ℤ)) → PendingListing → Result String (String × String)
unfolding top_pointer normalize_hex render
listing_start stack_trace p =
    if p.address == ""
    then (map_err (render stack_trace_error) (stack_trace p.thread_id) >>= λ (frames, total).
        elim (top_pointer frames) [
          | none ↦ err "no instruction pointer available for current frame"
          | some ip ↦ ok (normalize_hex ip, normalize_hex ip)
        ])
    else ok (normalize_hex p.address, "")

unfoldable pub instruction_entry : String → Instruction → Value
unfolding set set_if set_place
instruction_entry current_pc inst = build (
    set_if (is_text current_pc && (inst.address == current_pc)) "is_current_pc" (Value.bool true) (
      set_place inst.source_path inst.line (
        set_if (is_text inst.symbol) "symbol" (Value.string inst.symbol) (
          set_if (is_text inst.bytes) "bytes" (Value.string inst.bytes) (
            set "instruction" (Value.string inst.instruction)
              (set "address" (Value.string inst.address) []))))))

unfoldable pub listing_response : String → String → List Instruction → ToolOutcome
unfolding instruction_entry set
listing_response address current_pc instructions = into_outcome (
    set "start_address" (Value.string address) (
      set "count" (from_usize (length instructions)) (
        set "instructions" (Value.array (items (map (instruction_entry current_pc) instructions)))
          [])))

module _ (stack_trace : ℤ → Result BackendError (List Frame × ℤ))
    (disassemble : String → ℤ → Result BackendError (List Instruction)) where
  unfoldable pub disassemble_end : PendingListing → ToolOutcome
  unfolding listing_start listing_response render
  disassemble_end p =
      elim (listing_start stack_trace p >>= λ (address, current_pc).
      map_err (render disassemble_error) (disassemble address p.count) >>= λ instructions.
      ok (listing_response address current_pc instructions)) [
        | err e ↦ error e
        | ok response ↦ response
      ]
