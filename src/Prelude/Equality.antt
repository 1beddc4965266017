-- ===== src/Prelude/Equality.antt =====
-- Rust's `Eq` on the key types: an instance interface with the law of its test.
use Prim.Native.Nat.{ℕ}
use Prim.Native.String.{String}
use mathlib.Core.Path.{◌≡◌, refl}
use mathlib.Core.Logic.{◌↔◌}
use mathlib.Core.Bool.{Bool, true}
use text.Mathlib.Text.{◌==◌ as str_eq}
use text.Mathlib.TextEquality.{eq_iff}
use debug_mcp.Prelude.Tests.{eqb, eqb_iff}
use debug_mcp.Prelude.Int.{ℤ, eqb_ℤ, eqb_ℤ_iff}

pub record PartialEq {ℓ} (A : Type ℓ) : Type ℓ where
  pub test : A → A → Bool
  pub test_iff : (x y : A) → (test x y ≡ true) ↔ (x ≡ y)

module _ {ℓ} {A : Type ℓ} ⦃e : PartialEq A⦄ where
  infix 50 ◌==◌
  abbrev pub ◌==◌ : A → A → Bool
  x == y = e.test x y

  pub ==_iff : (x y : A) → ((x == y) ≡ true) ↔ (x ≡ y)
  ==_iff x y = e.test_iff x y

  pub ==_refl : (x : A) → (x == x) ≡ true
  ==_refl x = (==_iff x x).1 refl

instance abbrev pub string_eq : PartialEq String
string_eq = record { test = str_eq; test_iff = eq_iff }

instance abbrev pub int_eq : PartialEq ℤ
int_eq = record { test = eqb_ℤ; test_iff = eqb_ℤ_iff }

instance abbrev pub nat_eq : PartialEq ℕ
nat_eq = record { test = eqb; test_iff = eqb_iff }
