-- ===== src/Tools/Json.antt =====
-- The values of `serde_json` that the tools match on and build, and the numbers they read as `f64`.
-- What `serde_json` itself computes is a parameter, the record `Serde`.
use Prim.Native.Nat.{min}
use debug_mcp.Prelude.{
  ℕ, zero, suc, ◌-◌, ◌/◌, ◌^◌, ℤ, pos, negsuc, String, Bool, true, not, ◌&&◌, Option, List, [], ◌∷◌,
  Dict, ltb, eqb, if◌then◌else◌, Result,
}

-- A finite `f64`, exactly: (-1)^negative * mantissa / 2 ^ shift.
pub record F64 : Type 0 where
  pub negative : Bool
  pub mantissa : ℕ
  pub shift : ℕ

-- `f as i64`: towards zero, and saturating.
unfoldable pub as_i64 : F64 → ℤ
as_i64 f =
    let whole = f.mantissa / 2 ^ f.shift in
    if f.negative then negate (min whole (2 ^ 63)) else pos (min whole (2 ^ 63 - 1))
  where
    negate : ℕ → ℤ
    negate zero = pos 0
    negate (suc n) = negsuc n

-- `f > 0.0` and `f >= 0.0`
unfoldable pub gt_zero : F64 → Bool
gt_zero f = not f.negative && ltb 0 f.mantissa

unfoldable pub ge_zero : F64 → Bool
ge_zero f = if f.negative then eqb f.mantissa 0 else true

pub data Number : Type 0 where
  int : ℤ → Number
  float : F64 → Number

mutual
  pub data Value : Type 0 where
    null : Value
    bool : Bool → Value
    number : Number → Value
    string : String → Value
    array : Items → Value
    object : Fields → Value

  pub data Items : Type 0 where
    nil : Items
    cons : Value → Items → Items

  pub data Fields : Type 0 where
    end : Fields
    field : String → Value → Fields → Fields

-- `Value::from` of an `i64`, and of the counts.
abbrev pub from_i64 : ℤ → Value
from_i64 n = number (int n)

abbrev pub from_usize : ℕ → Value
from_usize n = number (int (pos n))

abbrev pub items : List Value → Items
items [] = nil
items (v ∷ vs) = cons v (items vs)

abbrev pub fields : Dict String Value → Fields
fields [] = end
fields ((k, v) ∷ m) = field k v (fields m)

-- `serde_json`: a number's `as_f64`, and the parsers of a text as a `Vec<String>` and as an object,
-- with the text of the error.
pub record Serde : Type 0 where
  pub as_f64 : Number → Option F64
  pub parse_array : String → Result String (List String)
  pub parse_object : String → Result String (Dict String Value)
