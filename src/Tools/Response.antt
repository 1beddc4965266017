-- ===== src/Tools/Response.antt =====
-- crates/mcp-tools/src/response.rs and format.rs (`format_output_entries`): what a handler returns.
-- The object under construction is a map; the order of its keys is that of insertion here.
use debug_mcp.Prelude.{
  String, Bool, true, false, Option, none, some, List, [], ◌∷◌, Dict, length, if◌then◌else◌, ◌==◌,
  string_eq,
}
use debug_mcp.Prelude.Text.{◌<>◌}
use debug_mcp.Prelude.Maps
use debug_mcp.Session.Output.{OutputEntry}
use debug_mcp.Tools.Json.{Value, fields, from_usize}

pub data ToolOutcome : Type 0 where
  json : Value → ToolOutcome
  text : String → ToolOutcome
  error : String → ToolOutcome

abbrev pub is_error : ToolOutcome → Bool
is_error (json v) = false
is_error (text s) = false
is_error (error e) = true

abbrev pub RespBuilder : Type 0
RespBuilder = Dict String Value

-- `set` and `insert`
unfoldable pub set : String → Value → RespBuilder → RespBuilder
unfolding Maps.insert
set key value b = Maps.insert key value b

unfoldable pub set_opt : String → Option Value → RespBuilder → RespBuilder
unfolding set
set_opt key none b = b
set_opt key (some v) b = set key v b

unfoldable pub set_if : Bool → String → Value → RespBuilder → RespBuilder
unfolding set
set_if cond key value b = if cond then set key value b else b

abbrev pub build : RespBuilder → Value
build b = Value.object (fields b)

abbrev pub into_outcome : RespBuilder → ToolOutcome
into_outcome b = json (build b)

-- The texts of the entries by bucket: `stdout`, `stderr`, and `console` for every other category.
pub record Buckets : Type 0 where
  pub stdout : String
  pub stderr : String
  pub console : String

unfoldable pub bucket : List OutputEntry → Buckets → Buckets
bucket [] b = b
bucket (e ∷ es) b = bucket es (
    if e.category == "stdout"
    then record b { stdout = b.stdout <> e.text }
    else (if e.category == "stderr"
        then record b { stderr = b.stderr <> e.text }
        else record b { console = b.console <> e.text }))

-- The object that `format_output_entries` returns, as a map.
unfoldable pub format_output_entries : List OutputEntry → Dict String Value
unfolding bucket set set_if
format_output_entries [] = set "count" (from_usize 0) (set "output" (Value.string "") [])
format_output_entries (e ∷ es) =
    let b = bucket (e ∷ es) (record { stdout = ""; stderr = ""; console = "" }) in
    set_if (non_empty b.console) "console" (Value.string b.console) (
      set_if (non_empty b.stderr) "stderr" (Value.string b.stderr) (
        set_if (non_empty b.stdout) "stdout" (Value.string b.stdout)
          (set "count" (from_usize (length (e ∷ es))) [])))
  where
    non_empty : String → Bool
    non_empty s = if s == "" then false else true

-- Each entry of the second map is inserted into the first.
unfoldable pub merge : Dict String Value → RespBuilder → RespBuilder
unfolding set
merge [] b = b
merge ((k, v) ∷ m) b = merge m (set k v b)

-- `merge_output` (crates/mcp-tools/src/handlers/execution.rs)
unfoldable pub merge_output : List OutputEntry → RespBuilder → RespBuilder
unfolding merge format_output_entries
merge_output entries b = merge (format_output_entries entries) b
