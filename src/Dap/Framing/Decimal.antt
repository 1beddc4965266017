-- ===== src/Dap/Framing/Decimal.antt =====
-- The decimal form of a length is read back.
use native.Mathlib.Nat.{pow-suc}
use debug_mcp.Prelude.{
  ℕ, zero, suc, ◌+◌, ◌-◌, ◌*◌, ◌/◌, ◌%◌, ◌^◌, ◌≤◌, ◌<◌, some, [], ◌∷◌, ◌++◌, ◌≡◌, refl, false,
  is_empty, arith,
}
use debug_mcp.Dap.Framing.{Chars, decimal_on, decimal, digits_from, parse_usize}

abbrev pub AreDigits : Chars → Type 0
AreDigits [] = Unit {0}
AreDigits (c ∷ cs) = (48 ≤ c) × (c ≤ 57) × AreDigits cs

append-AreDigits : (cs : Chars) (d : ℕ) → AreDigits cs → d < 10 → AreDigits (cs ++ (48 + d) ∷ [])
append-AreDigits [] d h k = (omega arith, omega (arith, k), tt)
append-AreDigits (c ∷ cs) d (a, b, h) k = (a, b, append-AreDigits cs d h k)

digits_from-append :
    (acc v d : ℕ) (cs : Chars)
    → AreDigits cs
    → digits_from acc cs ≡ some v
    → d < 10
    → digits_from acc (cs ++ (48 + d) ∷ []) ≡ some (v * 10 + d)
unfolding digits_from
digits_from-append acc v d [] h e k = ground (arith, k)
digits_from-append acc v d (c ∷ cs) (a, b, h) e k =
    ground (arith, a, b, digits_from-append (acc * 10 + (c - 48)) v d cs h)

pub decimal_on-AreDigits : (fuel n : ℕ) → AreDigits (decimal_on fuel n)
unfolding decimal_on
decimal_on-AreDigits zero n = tt
decimal_on-AreDigits (suc fuel) n = ground (
  arith,
  append-AreDigits (decimal_on fuel (n / 10)) (n % 10) (decimal_on-AreDigits fuel (n / 10))
      (omega arith),
)

digits_from-decimal_on :
    (fuel n : ℕ) → n < 10 ^ suc fuel → digits_from 0 (decimal_on (suc fuel) n) ≡ some n
unfolding decimal_on digits_from
digits_from-decimal_on zero n h = ground (arith, pow-suc 10 0)
digits_from-decimal_on (suc fuel) n h = ground (
  arith,
  digits_from-append 0 (n / 10) (n % 10) (decimal_on (suc fuel) (n / 10))
      (decimal_on-AreDigits (suc fuel) (n / 10))
      (digits_from-decimal_on fuel (n / 10) (omega (arith, h, pow-suc 10 (suc fuel))))
      (omega arith),
)

decimal_on_nonempty : (fuel n : ℕ) → is_empty (decimal_on (suc fuel) n) ≡ false
unfolding decimal_on
decimal_on_nonempty fuel n =
    ground (arith, is_empty-append (decimal_on fuel (n / 10)) (48 + n % 10))
  where
    is_empty-append : (cs : Chars) (d : ℕ) → is_empty (cs ++ d ∷ []) ≡ false
    is_empty-append [] d = refl
    is_empty-append (c ∷ cs) d = refl

parse_digits :
    (cs : Chars) (n : ℕ)
    → AreDigits cs
    → is_empty cs ≡ false
    → digits_from 0 cs ≡ some n
    → n < 2 ^ 64
    → parse_usize cs ≡ some n
unfolding parse_usize
parse_digits [] n h e r k = ground arith
parse_digits (c ∷ cs) n (a, b, h) e r k = ground (arith, a, r, k)

pub decimal-AreDigits : (n : ℕ) → AreDigits (decimal n)
unfolding decimal
decimal-AreDigits n = decimal_on-AreDigits 20 n

pub parse_usize-decimal : (n : ℕ) → n < 2 ^ 64 → parse_usize (decimal n) ≡ some n
unfolding decimal
parse_usize-decimal n h =
    parse_digits (decimal_on 20 n) n (decimal_on-AreDigits 20 n) (decimal_on_nonempty 19 n)
      (digits_from-decimal_on 19 n (omega (arith, h))) h
