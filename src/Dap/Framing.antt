-- ===== src/Dap/Framing.antt =====
-- crates/dap-client/src/wire.rs: the framing of a message. A stream is the list of its bytes that are
-- still to be read, up to its end. The loop over the header lines goes byte by byte, with the line
-- so far. The standard library's UTF-8 is the parameter `Utf8`, serde_json's reading of a body an
-- argument, and the text of an error is kept where the program shows it.
pub mod Decimal
pub mod RoundTrip
pub mod Tests
use debug_mcp.Prelude.{
  ℕ, zero, suc, ◌+◌, ◌-◌, ◌*◌, ◌/◌, ◌%◌, ◌^◌, ◌<◌, ◌≡◌, Bool, true, false, ◌&&◌, ◌||◌, Option, none,
  some, List, [], ◌∷◌, ◌++◌, length, is_empty, take, drop, ltb, leb, eqb, if◌then◌else◌, Result, ok,
  err, ◌>>=◌,
}

-- A text as its code points.
abbrev pub Chars : Type 0
Chars = List ℕ

abbrev pub Bytes : Type 0
Bytes = List ℕ

abbrev pub Ascii : Bytes → Type 0
Ascii [] = Unit {0}
Ascii (b ∷ bs) = (b < 128) × Ascii bs

-- The decoding of UTF-8, which `read_line` does: ASCII is decoded byte by byte.
pub record Utf8 : Type 0 where
  pub decode : Bytes → Option Chars
  pub decode_ascii : (bytes : Bytes) → Ascii bytes → decode bytes ≡ some bytes

pub data WireError : Type 0 where
  eof : WireError
  unexpected_eof : WireError
  invalid_data : WireError
  missing_content_length : WireError
  invalid_content_length : Chars → WireError
  json : WireError

-- 64 MiB
abbrev pub max_content_length : ℕ
max_content_length = 64 * 1024 * 1024

-- `trim_end_matches`, `trim_start_matches`
unfoldable pub trim_end : (ℕ → Bool) → Chars → Chars
trim_end p [] = []
trim_end p (c ∷ cs) = let rest = trim_end p cs in if is_empty rest && p c then [] else c ∷ rest

unfoldable pub trim_start : (ℕ → Bool) → Chars → Chars
trim_start p [] = []
trim_start p (c ∷ cs) = let rest = trim_start p cs in if p c then rest else c ∷ cs

abbrev pub is_line_end : ℕ → Bool
is_line_end c = eqb c b'\r' || eqb c b'\n'

abbrev between : ℕ → ℕ → ℕ → Bool
between low high c = leb low c && leb c high

-- `char::is_whitespace`
unfoldable pub is_whitespace : ℕ → Bool
is_whitespace c =
    between 9 13 c
    || eqb c 32
    || eqb c 133
    || eqb c 160
    || eqb c 5760
    || between 8192 8202 c
    || eqb c 8232
    || eqb c 8233
    || eqb c 8239
    || eqb c 8287
    || eqb c 12288

unfoldable pub trim : Chars → Chars
unfolding trim_end trim_start is_whitespace
trim cs = trim_end is_whitespace (trim_start is_whitespace cs)

unfoldable pub strip_prefix : Chars → Chars → Option Chars
strip_prefix [] cs = some cs
strip_prefix (p ∷ ps) [] = none
strip_prefix (p ∷ ps) (c ∷ cs) = if eqb p c then strip_prefix ps cs else none

-- `parse::<usize>()`: an optional plus, then digits, and a value that fits.
unfoldable pub digits_from : ℕ → Chars → Option ℕ
digits_from acc [] = some acc
digits_from acc (c ∷ cs) = if between 48 57 c then digits_from (acc * 10 + (c - 48)) cs else none

abbrev fitting : Option ℕ → Option ℕ
fitting none = none
fitting (some n) = if ltb n (2 ^ 64) then some n else none

abbrev without_plus : Chars → Chars
without_plus [] = []
without_plus (c ∷ cs) = if eqb c 43 then cs else c ∷ cs

unfoldable pub parse_usize : Chars → Option ℕ
unfolding digits_from
parse_usize cs = elim (without_plus cs) [ [] ↦ none | d ∷ ds ↦ fitting (digits_from 0 (d ∷ ds)) ]

-- The text `Content-Length:`
abbrev pub content_length : Chars
content_length =
    67 ∷ 111 ∷ 110 ∷ 116 ∷ 101 ∷ 110 ∷ 116 ∷ 45 ∷ 76 ∷ 101 ∷ 110 ∷ 103 ∷ 116 ∷ 104 ∷ 58 ∷ []

-- What a header line does: it ends the header, or the loop goes on with the length so far.
pub data LineStep : Type 0 where
  ends : LineStep
  goes : Option ℕ → LineStep
  fails : WireError → LineStep

unfoldable pub length_field : Chars → LineStep
unfolding parse_usize
length_field value = elim (parse_usize value) [
  | none ↦ fails (invalid_content_length value)
  | some parsed ↦
      if ltb max_content_length parsed
      then fails (invalid_content_length value)
      else goes (some parsed)
]

unfoldable pub header_text : Option ℕ → Chars → LineStep
unfolding strip_prefix trim length_field
header_text found [] = ends
header_text found (c ∷ cs) = elim (strip_prefix content_length (c ∷ cs)) [
  | none ↦ goes found
  | some value ↦ length_field (trim value)
]

-- `{}` of a `usize`, as bytes: at most twenty digits.
unfoldable pub decimal_on : ℕ → ℕ → Bytes
decimal_on zero n = []
decimal_on (suc fuel) n =
    let rest = decimal_on fuel (n / 10) ++ (48 + n % 10) ∷ [] in
    if ltb n 10 then (48 + n) ∷ [] else rest

unfoldable pub decimal : ℕ → Bytes
unfolding decimal_on
decimal n = decimal_on 20 n

-- The bytes of `write_message`, of a body that is serialized.
unfoldable pub write_message : Bytes → Bytes
write_message body = content_length ++ (32 ∷ decimal (length body)) ++ (13 ∷ 10 ∷ 13 ∷ 10 ∷ body)

unfoldable pub read_exact_body : ℕ → Bytes → Result WireError (Bytes × Bytes)
unfolding take drop
read_exact_body n input =
    if leb n (length input) then ok (take n input, drop n input) else err unexpected_eof

module _ (utf8 : Utf8) where
  open utf8 use {decode}

  unfoldable pub header_line : Option ℕ → Bytes → LineStep
  unfolding header_text trim_end
  header_line found line = elim (decode line) [
    | none ↦ fails invalid_data
    | some cs ↦ header_text found (trim_end is_line_end cs)
  ]

  abbrev header_end : Option ℕ → Bytes → Result WireError (ℕ × Bytes)
  header_end none rest = err missing_content_length
  header_end (some n) rest = ok (n, rest)

  -- At the end of the stream: with nothing read, or in the header.
  unfoldable pub at_end : Bytes → Bool → Option ℕ → Result WireError (ℕ × Bytes)
  unfolding header_line
  at_end [] first_line found = if first_line then err eof else err unexpected_eof
  at_end (b ∷ bs) first_line found = elim (header_line found (b ∷ bs)) [
    | ends ↦ header_end found []
    | goes found' ↦ err unexpected_eof
    | fails e ↦ err e
  ]

  -- `read_header`
  unfoldable pub read_header_from : Bytes → Bool → Option ℕ → Bytes → Result WireError (ℕ × Bytes)
  unfolding header_line at_end
  read_header_from line first_line found [] = at_end line first_line found
  read_header_from line first_line found (b ∷ rest) = elim (eqb b 10) [
    | true ↦ elim (header_line found (line ++ b ∷ [])) [
      | ends ↦ header_end found rest
      | goes found' ↦ read_header_from [] false found' rest
      | fails e ↦ err e
    ]
    | false ↦ read_header_from (line ++ b ∷ []) first_line found rest
  ]

  unfoldable pub read_header : Bytes → Result WireError (ℕ × Bytes)
  unfolding read_header_from
  read_header input = read_header_from [] true none input

  unfoldable pub read_message :
      {M : Type 0} → (Bytes → Result WireError M) → Bytes → Result WireError (M × Bytes)
  unfolding read_header read_exact_body
  read_message from_slice input = do
    (n, rest) ← read_header input
    (body, rest') ← read_exact_body n rest
    message ← from_slice body
    ok (message, rest')
