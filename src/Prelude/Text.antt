-- ===== src/Prelude/Text.antt =====
-- Texts: concatenation, `join`, and the decimal form that `{}` prints an integer in.
use Prim.Native.Nat.{ℕ, zero, suc, ◌+◌, ◌-◌, ◌/◌, ◌%◌}
use Prim.Native.String.{String, slice}
use Prim.Native.String.{◌++◌ as append}
use mathlib.Core.List.{List, [], ◌∷◌}
use debug_mcp.Prelude.Tests.{ltb, if◌then◌else◌}
use debug_mcp.Prelude.Int.{ℤ, pos, negsuc}

infixr 60 ◌<>◌
abbrev pub ◌<>◌ : String → String → String
◌<>◌ = append

-- `parts.join(sep)`
unfoldable pub join : String → List String → String
join sep [] = ""
join sep (s ∷ []) = s
join sep (s ∷ t ∷ ts) = s <> sep <> join sep (t ∷ ts)

abbrev pub digit : ℕ → String
digit d = slice "0123456789" d (d + 1)

-- On fuel: a number below 2 ^ 64 has at most twenty digits.
unfoldable pub show_on : ℕ → ℕ → String
show_on zero n = ""
show_on (suc fuel) n =
    let rest = show_on fuel (n / 10) <> digit (n % 10) in if ltb n 10 then digit n else rest

unfoldable pub show_ℕ : ℕ → String
unfolding show_on
show_ℕ n = show_on 20 n

unfoldable pub show_ℤ : ℤ → String
unfolding show_ℕ
show_ℤ (pos n) = show_ℕ n
show_ℤ (negsuc n) = "-" <> show_ℕ (n + 1)

-- The last digits of a number in base 16 by the digits given, at least `width` of them, at most the
-- fuel: `{:X}`, `{:016X}`, `{:010x}`.
unfoldable pub hex_on : String → ℕ → ℕ → ℕ → String
hex_on digits zero width n = ""
hex_on digits (suc fuel) width n =
    let rest = hex_on digits fuel (width - 1) (n / 16) in
    (if ltb 0 (n / 16) then rest else (if ltb 1 width then rest else ""))
    <> slice digits (n % 16) (n % 16 + 1)

-- A number below 2 ^ 64.
unfoldable pub show_hex : ℕ → ℕ → String
unfolding hex_on
show_hex width n = hex_on "0123456789ABCDEF" 16 width n

unfoldable pub show_lower_hex : ℕ → ℕ → String
unfolding hex_on
show_lower_hex width n = hex_on "0123456789abcdef" 16 width n
