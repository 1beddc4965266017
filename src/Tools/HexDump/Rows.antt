-- ===== src/Tools/HexDump/Rows.antt =====
-- The rows of a hex dump.
use text.Mathlib.TextLemmas.{append-nil}
use debug_mcp.Prelude.{
  ℕ, zero, suc, ◌+◌, ◌%◌, ◌^◌, ◌≤◌, String, List, [], ◌∷◌, length, take, drop, length-drop,
  drop-drop, ltb, if◌then◌else◌, ◌≡◌, refl, sym, ap, ◌∙◌, arith,
}
use debug_mcp.Prelude.Text.{◌<>◌, join}
use debug_mcp.Tools.HexDump.{dump_row, dump_from, format_hex_dump}

-- One row for each full or last group of sixteen bytes, at most `n` of them.
abbrev pub rows : ℕ → ℕ → List ℕ → List String
rows zero address bytes = []
rows (suc n) address [] = []
rows (suc n) address (b ∷ bytes) =
    dump_row (address % 2 ^ 64) (take 16 (b ∷ bytes)) ∷ rows n (address + 16) (drop 16 (b ∷ bytes))

join-rows :
    (x : String) (n address : ℕ) (bytes : List ℕ)
    → length bytes ≤ n
    → join "\n" (x ∷ rows n address bytes)
      ≡ x <> (if ltb 0 (length bytes) then "\n" else "") <> join "\n" (rows n address bytes)
unfolding join
join-rows x zero address [] h = sym (append-nil x)
join-rows x (suc n) address [] h = sym (append-nil x)
join-rows x zero address (b ∷ bytes) h = absurd (omega (arith, h))
join-rows x (suc n) address (b ∷ bytes) h = ground arith

add_zero : (a : ℕ) → a + 0 ≡ a
add_zero a = omega arith

ltb-drop : (k : ℕ) (bytes : List ℕ) → ltb 0 (length (drop k bytes)) ≡ ltb k (length bytes)
ltb-drop k bytes = ground (arith, length-drop k bytes)

fits :
    (fuel offset : ℕ) (bytes rest : List ℕ)
    → rest ≡ drop offset bytes
    → length bytes ≤ suc fuel + offset
    → length (drop 16 rest) ≤ fuel
fits fuel offset bytes rest e h =
    ground (arith, ap length e, length-drop offset bytes, length-drop 16 rest)

dump_from-rows :
    (fuel offset start_addr : ℕ) (bytes rest : List ℕ)
    → rest ≡ drop offset bytes
    → length bytes ≤ fuel + offset
    → dump_from fuel offset start_addr bytes ≡ join "\n" (rows fuel (start_addr + offset) rest)
unfolding dump_from join
dump_from-rows zero offset start_addr bytes rest e h = refl
dump_from-rows (suc fuel) offset start_addr bytes [] e h =
    ground (arith, ap length e, length-drop offset bytes)
dump_from-rows (suc fuel) offset start_addr bytes (b ∷ rest) e h =
    let e' = ap (drop 16) e ∙ drop-drop 16 offset bytes in
    let here = start_addr + offset in
    ground (
      arith,
      ap length e,
      ap (take 16) e,
      length-drop offset bytes,
      ltb-drop (offset + 16) bytes,
      ap length e',
      join-rows (dump_row (here % 2 ^ 64) (take 16 (b ∷ rest))) fuel (here + 16)
          (drop 16 (b ∷ rest)) (fits fuel offset bytes (b ∷ rest) e h),
      dump_from-rows fuel (offset + 16) start_addr bytes (drop 16 (b ∷ rest)) e' (omega (arith, h)),
    )

-- The hex dump of any bytes is the rows of their groups of sixteen, the last one what is left, joined
-- by line breaks; each row has the address of its first byte, which wraps at 2 ^ 64.
pub format_hex_dump-rows :
    (bytes : List ℕ) (start_addr : ℕ)
    → format_hex_dump bytes start_addr ≡ join "\n" (rows (length bytes) start_addr bytes)
unfolding format_hex_dump
format_hex_dump-rows bytes start_addr =
    dump_from-rows (length bytes) 0 start_addr bytes bytes refl (omega arith)
    ∙ ap (λ a. join "\n" (rows (length bytes) a bytes)) (add_zero start_addr)
