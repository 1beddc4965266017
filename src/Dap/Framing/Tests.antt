-- ===== src/Dap/Framing/Tests.antt =====
-- The framing at a concrete message.
use debug_mcp.Prelude.{
  ◌≡◌, refl, Option, some, none, [], ◌∷◌, ◌++◌, length, leb, ltb, if◌then◌else◌, arith, Result, ok,
  err, ◌>>=◌,
}
use debug_mcp.Dap.Framing.{
  Bytes, Chars, Ascii, Utf8, WireError, invalid_content_length, max_content_length, decimal,
  read_message, write_message,
}
use debug_mcp.Dap.Framing.RoundTrip.{read_message-write_message}

-- A decoder of ASCII alone.
abbrev ascii_of : Bytes → Option Chars
ascii_of [] = some []
ascii_of (b ∷ bs) = elim (ascii_of bs) [
  | none ↦ none
  | some cs ↦ if ltb b 128 then some (b ∷ cs) else none
]

ascii_of-Ascii : (bytes : Bytes) → Ascii bytes → ascii_of bytes ≡ some bytes
ascii_of-Ascii [] h = refl
ascii_of-Ascii (b ∷ bs) h = ground (arith, ascii_of-Ascii bs h.1, h.0)

abbrev ascii : Utf8
ascii = record { decode = ascii_of; decode_ascii = ascii_of-Ascii }

-- A body is its own message.
abbrev whole : Bytes → Result WireError Bytes
whole body = ok body

-- `{}` and the beginning of the next frame
abbrev braces : Bytes
braces = 123 ∷ 125 ∷ []

abbrev next : Bytes
next = 67 ∷ 111 ∷ []

framed : read_message ascii whole (write_message braces ++ next) ≡ ok (braces, next)
unfolding read_message write_message decimal
framed = refl

read_message-write_message_example : read_message ascii whole (write_message braces ++ next) ≡ (
    if leb (length braces) max_content_length
    then (whole braces >>= λ m. ok (m, next))
    else err (invalid_content_length (decimal (length braces))))
read_message-write_message_example =
    read_message-write_message ascii whole braces next (omega arith)
