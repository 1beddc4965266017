-- ===== src/Dap/Framing/RoundTrip.antt =====
-- What `write_message` writes, `read_message` reads, with any bytes behind it.
use mathlib.Core.List.{append-nil, append_assoc}
use debug_mcp.Prelude.{
  ℕ, ◌^◌, ◌≤◌, ◌<◌, Bool, true, false, Option, none, some, [], ◌∷◌, ◌++◌, ◌≡◌, refl, sym, ap, ◌∙◌,
  length, take-append, drop-append, length-append, leb, if◌then◌else◌, arith, Result, ok, err,
  ◌>>=◌,
}
use debug_mcp.Dap.Framing.Decimal.{AreDigits, decimal-AreDigits, parse_usize-decimal}
use debug_mcp.Dap.Framing.{
  Chars, Bytes, Ascii, Utf8, WireError, invalid_content_length, max_content_length, content_length,
  trim_end, trim_start, trim, is_line_end, is_whitespace, strip_prefix, LineStep, ends, goes, fails,
  length_field, header_text, header_line, header_end, read_header_from, read_header,
  read_exact_body, read_message, write_message, decimal,
}

-- Printable ASCII: neither the end of a line nor beyond 127.
abbrev Printed : Bytes → Type 0
Printed [] = Unit {0}
Printed (b ∷ bs) = (32 ≤ b) × (b < 128) × Printed bs

digits-Printed : (cs : Chars) → AreDigits cs → Printed cs
digits-Printed [] h = tt
digits-Printed (c ∷ cs) (a, b, h) = (omega (arith, a), omega (arith, b), digits-Printed cs h)

line-Ascii : (bs : Bytes) → Printed bs → Ascii (bs ++ 13 ∷ 10 ∷ [])
line-Ascii [] h = (omega arith, (omega arith, tt))
line-Ascii (b ∷ bs) (a, c, h) = (c, line-Ascii bs h)

trim_end-line : (bs : Bytes) → Printed bs → trim_end is_line_end (bs ++ 13 ∷ 10 ∷ []) ≡ bs
unfolding trim_end
trim_end-line [] h = refl
trim_end-line (b ∷ bs) (a, c, h) = ground (arith, trim_end-line bs h, a)

-- Digits have no white space at their ends.
trim_end-digits : (cs : Chars) → AreDigits cs → trim_end is_whitespace cs ≡ cs
unfolding trim_end is_whitespace
trim_end-digits [] h = refl
trim_end-digits (c ∷ cs) (a, b, h) = ground (arith, trim_end-digits cs h, a, b)

trim_start-digits : (cs : Chars) → AreDigits cs → trim_start is_whitespace cs ≡ cs
unfolding trim_start is_whitespace
trim_start-digits [] h = refl
trim_start-digits (c ∷ cs) (a, b, h) = ground (arith, a, b)

trim-digits : (cs : Chars) → AreDigits cs → trim (32 ∷ cs) ≡ cs
unfolding trim trim_start is_whitespace
trim-digits cs h = ap (trim_end is_whitespace) (trim_start-digits cs h) ∙ trim_end-digits cs h

module _ (utf8 : Utf8) where
  header_line-Printed :
      (found : Option ℕ) (bs : Bytes)
      → Printed bs
      → header_line utf8 found (bs ++ 13 ∷ 10 ∷ []) ≡ header_text found bs
  unfolding header_line
  header_line-Printed found bs h =
      rw (utf8.decode_ascii (bs ++ 13 ∷ 10 ∷ []) (line-Ascii bs h), header_line)
        (ap (header_text found) (trim_end-line bs h))

  header_text-length :
      (found : Option ℕ) (cs : Chars)
      → AreDigits cs
      → header_text found (content_length ++ 32 ∷ cs) ≡ length_field cs
  unfolding header_text strip_prefix
  header_text-length found cs h = ap length_field (trim-digits cs h)

  -- The loop behind a line.
  abbrev after_line : LineStep → Option ℕ → Bytes → Result WireError (ℕ × Bytes)
  after_line step found rest = elim step [
    | ends ↦ header_end utf8 found rest
    | goes found' ↦ read_header_from utf8 [] false found' rest
    | fails e ↦ err e
  ]

  scan_line :
      (line bs rest : Bytes) (first_line : Bool) (found : Option ℕ)
      → Printed bs
      → read_header_from utf8 line first_line found (bs ++ 13 ∷ 10 ∷ rest)
        ≡ after_line (header_line utf8 found (line ++ bs ++ 13 ∷ 10 ∷ [])) found rest
  unfolding read_header_from
  scan_line line [] rest first_line found h =
      ap (λ l. after_line (header_line utf8 found l) found rest)
        (append_assoc line (13 ∷ []) (10 ∷ [])
          ∙ ap (λ l. l ++ 13 ∷ 10 ∷ []) (sym (append-nil line)))
  scan_line line (b ∷ bs) rest first_line found (a, c, h) = ground (
    arith,
    a,
    scan_line (line ++ b ∷ []) bs rest first_line found h,
    append_assoc line (b ∷ []) bs,
  )

  header_bytes-Printed : (n : ℕ) → Printed (content_length ++ 32 ∷ decimal n)
  header_bytes-Printed n = ground (arith, digits-Printed (decimal n) (decimal-AreDigits n))

  -- The blank line ends the header.
  blank_line :
      (n : ℕ) (rest : Bytes)
      → read_header_from utf8 [] false (some n) (13 ∷ 10 ∷ rest) ≡ ok (n, rest)
  unfolding header_text
  blank_line n rest =
      scan_line [] [] rest false (some n) tt
      ∙ ap (λ step. after_line step (some n) rest) (header_line-Printed (some n) [] tt)

  -- What is read of the header that is written for a body of `n` bytes.
  abbrev header_read : ℕ → Bytes → Result WireError (ℕ × Bytes)
  header_read n rest =
      if leb n max_content_length then ok (n, rest) else err (invalid_content_length (decimal n))

  field_read :
      (n : ℕ) (rest : Bytes)
      → n < 2 ^ 64
      → after_line (length_field (decimal n)) none (13 ∷ 10 ∷ rest) ≡ header_read n rest
  unfolding length_field
  field_read n rest h = ground (arith, parse_usize-decimal n h, blank_line n rest)

  header_written :
      (n : ℕ) (rest : Bytes)
      → n < 2 ^ 64
      → read_header utf8 (content_length ++ (32 ∷ decimal n) ++ 13 ∷ 10 ∷ 13 ∷ 10 ∷ rest)
        ≡ header_read n rest
  unfolding read_header
  header_written n rest h =
      let bs = content_length ++ 32 ∷ decimal n in
      scan_line [] bs (13 ∷ 10 ∷ rest) true none (header_bytes-Printed n)
      ∙ ap (λ step. after_line step none (13 ∷ 10 ∷ rest))
          (header_line-Printed none bs (header_bytes-Printed n)
            ∙ header_text-length none (decimal n) (decimal-AreDigits n))
      ∙ field_read n rest h

  exact : (body rest : Bytes) → read_exact_body (length body) (body ++ rest) ≡ ok (body, rest)
  unfolding read_exact_body
  exact body rest =
      ground (arith, length-append body rest, take-append body rest, drop-append body rest)

  abbrev message_of :
      {M : Type 0} → (Bytes → Result WireError M) → ℕ × Bytes → Result WireError (M × Bytes)
  message_of from_slice (n, rest) =
      read_exact_body n rest >>= λ (body, rest'). from_slice body >>= λ m. ok (m, rest')

  body_read :
      {M : Type 0} (from_slice : Bytes → Result WireError M) (body rest : Bytes)
      → (header_read (length body) (body ++ rest) >>= message_of from_slice) ≡ (
          if leb (length body) max_content_length
          then (from_slice body >>= λ m. ok (m, rest))
          else err (invalid_content_length (decimal (length body))))
  body_read from_slice body rest = ground (arith, exact body rest)

  -- A body that was written with its header is read back, whatever bytes come behind it: the
  -- message is what the decoder makes of exactly the body, and exactly those bytes are left. Only a
  -- body of more than 64 MiB, which can be written too, is refused, by its length.
  pub read_message-write_message :
      {M : Type 0} (from_slice : Bytes → Result WireError M) (body rest : Bytes)
      → length body < 2 ^ 64
      → read_message utf8 from_slice (write_message body ++ rest) ≡ (
          if leb (length body) max_content_length
          then (from_slice body >>= λ m. ok (m, rest))
          else err (invalid_content_length (decimal (length body))))
  unfolding read_message write_message
  read_message-write_message from_slice body rest h =
      ap (λ input. read_header utf8 input >>= message_of from_slice)
        (append_assoc (content_length ++ 32 ∷ decimal (length body)) (13 ∷ 10 ∷ 13 ∷ 10 ∷ body)
          rest)
      ∙ ap (λ r. r >>= message_of from_slice) (header_written (length body) (body ++ rest) h)
      ∙ body_read from_slice body rest
