-- ===== src/Tools/Args.antt =====
-- crates/mcp-tools/src/args.rs: the accessors of a call's arguments.
use debug_mcp.Prelude.{
  ◌≡◌, refl, ℤ, String, Bool, Option, none, some, List, [], ◌∷◌, Dict, is_positive, if◌then◌else◌,
  Result, ok, err, ◌>>=◌, map_err, string_eq,
}
use debug_mcp.Prelude.Text.{◌<>◌}
use debug_mcp.Prelude.Maps
use debug_mcp.Tools.Json.{F64, as_i64, Value, Serde}

abbrev pub Args : Type 0
Args = Dict String Value

-- `get_raw`
unfoldable pub get_raw : String → Args → Option Value
unfolding Maps.get
get_raw key args = Maps.get key args

abbrev pub missing_required : String → String
missing_required detail = "missing required parameter: " <> detail

abbrev pub not_found : String → String
not_found key = "required argument \"" <> key <> "\" not found"

abbrev not_of_type : String → String → String
not_of_type key ty = "argument \"" <> key <> "\" is not of type " <> ty

string_of : String → Option Value → Result String String
string_of key none = err (missing_required (not_found key))
string_of key (some (Value.string s)) = ok s
string_of key (some v) = err (missing_required (not_of_type key "string"))

unfoldable pub require_string : String → Args → Result String String
unfolding string_of get_raw
require_string key args = string_of key (get_raw key args)

-- An argument that is not there.
pub require_string-missing :
    (key : String) (args : Args)
    → get_raw key args ≡ none
    → require_string key args ≡ err (missing_required (not_found key))
unfolding require_string
require_string-missing key args h = rw h refl

string_or : String → Option Value → String
string_or default (some (Value.string s)) = s
string_or default other = default

unfoldable pub get_string : String → String → Args → String
unfolding string_or get_raw
get_string key default args = string_or default (get_raw key args)

bool_or : Bool → Option Value → Bool
bool_or default (some (Value.bool b)) = b
bool_or default other = default

unfoldable pub get_bool : String → Bool → Args → Bool
unfolding bool_or get_raw
get_bool key default args = bool_or default (get_raw key args)

-- `json_type_name`
unfoldable pub json_type_name : Value → String
json_type_name Value.null = "null"
json_type_name (Value.bool b) = "bool"
json_type_name (Value.number n) = "number"
json_type_name (Value.string s) = "string"
json_type_name (Value.array vs) = "array"
json_type_name (Value.object fs) = "object"

module _ (serde : Serde) where
  open serde use {as_f64, parse_array, parse_object}

  -- `value_as_f64`: only a number is read.
  abbrev pub value_as_f64 : Value → Option F64
  value_as_f64 (Value.number n) = as_f64 n
  value_as_f64 v = none

  int_read : String → Option F64 → Result String ℤ
  int_read key none = err (missing_required (not_of_type key "int"))
  int_read key (some f) = ok (as_i64 f)

  int_of : String → Option Value → Result String ℤ
  unfolding int_read
  int_of key none = err (missing_required (not_found key))
  int_of key (some v) = int_read key (value_as_f64 v)

  unfoldable pub require_int : String → Args → Result String ℤ
  unfolding int_of get_raw
  require_int key args = int_of key (get_raw key args)

  pub require_int-missing :
      (key : String) (args : Args)
      → get_raw key args ≡ none
      → require_int key args ≡ err (missing_required (not_found key))
  unfolding require_int
  require_int-missing key args h = rw h refl

  abbrev f64_of : Option Value → Option F64
  f64_of none = none
  f64_of (some v) = value_as_f64 v

  unfoldable pub get_f64 : String → Args → Option F64
  unfolding get_raw
  get_f64 key args = f64_of (get_raw key args)

  unfoldable pub positive_thread : Option F64 → Result String (Option ℤ)
  positive_thread none = ok none
  positive_thread (some f) =
      if is_positive (as_i64 f)
      then ok (some (as_i64 f))
      else err "'thread_id' must be a positive integer"

  unfoldable pub explicit_positive_thread_id : Args → Result String (Option ℤ)
  unfolding positive_thread get_f64
  explicit_positive_thread_id args = positive_thread (get_f64 "thread_id" args)

  unfoldable pub require_positive_int : String → Args → Result String ℤ
  unfolding require_int
  require_positive_int key args = require_int key args >>= λ value.
      if is_positive value then ok value else err ("'" <> key <> "' must be a positive integer")

  array_of : String → Option Value → Result String (List String)
  array_of key none = ok []
  array_of key (some Value.null) = ok []
  array_of key (some (Value.string s)) =
      map_err (λ e. "failed to parse '" <> key <> "' as JSON array: " <> e) (parse_array s)
  array_of key (some v) =
      err ("'" <> key <> "' must be a JSON array string, e.g. '[\"--flag\", \"value\"]'")

  unfoldable pub parse_json_array : String → Args → Result String (List String)
  unfolding array_of get_raw
  parse_json_array key args = array_of key (get_raw key args)

  -- The loop over the parsed object: the first value that is no string ends it.
  unfoldable pub strings_of : String → Dict String Value → Result String (List (String × String))
  unfolding json_type_name
  strings_of key [] = ok []
  strings_of key ((k, Value.string v) ∷ m) = strings_of key m >>= λ rest. ok ((k, v) ∷ rest)
  strings_of key ((k, v) ∷ m) = err (
      "failed to parse '"
      <> key
      <> "' as JSON object: cannot unmarshal "
      <> json_type_name v
      <> " into Go value of type string")

  object_of : String → Option Value → Result String (List (String × String))
  unfolding strings_of
  object_of key none = ok []
  object_of key (some Value.null) = ok []
  object_of key (some (Value.string s)) =
      map_err (λ e. "failed to parse '" <> key <> "' as JSON object: " <> e) (parse_object s)
      >>= strings_of key
  object_of key (some v) =
      err ("'" <> key <> "' must be a JSON object string, e.g. '{\"KEY\": \"value\"}'")

  unfoldable pub parse_json_object : String → Args → Result String (List (String × String))
  unfolding object_of get_raw
  parse_json_object key args = object_of key (get_raw key args)
