-- ===== src/Tools/HexDump.antt =====
-- crates/mcp-tools/src/format.rs: `format_hex_dump`. A byte is a number below 256, an address one
-- below 2 ^ 64. The loop over the rows is on fuel, as many steps as there are bytes.
pub mod Rows
use Prim.Native.String.{slice}
use debug_mcp.Prelude.{
  ℕ, zero, suc, ◌+◌, ◌-◌, ◌*◌, ◌/◌, ◌%◌, ◌^◌, String, List, [], ◌∷◌, length, take, drop, ltb, leb,
  eqb, if◌then◌else◌, Bool, ◌&&◌,
}
use debug_mcp.Prelude.Text.{◌<>◌}

abbrev pub hex_digit : ℕ → String
hex_digit d = slice "0123456789abcdef" d (d + 1)

-- The lower-case digits of a number, at least `width` of them: the last `fuel` ones.
unfoldable pub hex_on : ℕ → ℕ → ℕ → String
hex_on zero width n = ""
hex_on (suc fuel) width n =
    let rest = hex_on fuel (width - 1) (n / 16) in
    (if eqb (n / 16) 0 && leb width 1 then "" else rest) <> hex_digit (n % 16)

-- `{:08x}` of a `u64` and `{:02x}` of a byte
unfoldable pub hex_address : ℕ → String
unfolding hex_on
hex_address n = hex_on 16 8 n

unfoldable pub hex_byte : ℕ → String
unfolding hex_on
hex_byte b = hex_on 2 2 b

-- The printable characters, from the space on.
abbrev printable : String
printable =
    " !\"#$%&'()*+,-./0123456789:;<=>?@ABCDEFGHIJKLMNOPQRSTUVWXYZ[\\]^_`abcdefghijklmnopqrstuvwxyz{|}~"

unfoldable pub ascii : ℕ → String
ascii b = if leb 32 b && leb b 126 then slice printable (b - 32) (b - 31) else "."

-- The columns from `i` on, `left` of them: the bytes of the row, then the missing ones.
unfoldable pub byte_columns : ℕ → ℕ → List ℕ → String
unfolding hex_byte
byte_columns zero i row = ""
byte_columns (suc left) i [] =
    (if eqb i 8 then " " else "") <> "   " <> byte_columns left (i + 1) []
byte_columns (suc left) i (b ∷ row) =
    (if eqb i 8 then " " else "") <> hex_byte b <> " " <> byte_columns left (i + 1) row

unfoldable pub gutter : ℕ → List ℕ → String
unfolding ascii
gutter zero row = ""
gutter (suc left) [] = " " <> gutter left []
gutter (suc left) (b ∷ row) = ascii b <> gutter left row

unfoldable pub dump_row : ℕ → List ℕ → String
unfolding hex_address byte_columns gutter
dump_row address row =
    "0x" <> hex_address address <> ": " <> byte_columns 16 0 row <> " |" <> gutter 16 row <> "|"

-- `while offset < data.len()`
unfoldable pub dump_from : ℕ → ℕ → ℕ → List ℕ → String
unfolding dump_row take drop
dump_from zero offset start_addr bytes = ""
dump_from (suc fuel) offset start_addr bytes =
    let rest = dump_from fuel (offset + 16) start_addr bytes in
    if ltb offset (length bytes)
    then (dump_row ((start_addr + offset) % 2 ^ 64) (take 16 (drop offset bytes))
        <> (if ltb (offset + 16) (length bytes) then "\n" else "")
        <> rest)
    else ""

unfoldable pub format_hex_dump : List ℕ → ℕ → String
unfolding dump_from
format_hex_dump bytes start_addr = dump_from (length bytes) 0 start_addr bytes
