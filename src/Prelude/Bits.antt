-- ===== src/Prelude/Bits.antt =====
-- `|` of a word whose low digit is clear and a hexadecimal digit.
use Prim.Native.Nat.{
  ℕ, zero, suc, ◌+◌, ◌*◌, ◌/◌, ◌%◌, ◌≤◌, ◌<◌, max, bit_or, digits, bit_or-bitwise,
}
use mathlib.Core.Path.{◌≡◌, refl, ap}
use native.Mathlib.Omega.{arith}

-- The digits of a disjunction, on fuel, do not depend on how much fuel is left over.
or_digits-fuel :
    (m n a b : ℕ) → a ≤ m → a ≤ n → digits (λ x. x) max m a b ≡ digits (λ x. x) max n a b
or_digits-fuel zero zero a b p q = refl
or_digits-fuel zero (suc n) zero b p q = refl
or_digits-fuel (suc m) zero zero b p q = refl
or_digits-fuel zero (suc n) (suc a) b p q = absurd (omega arith)
or_digits-fuel (suc m) zero (suc a) b p q = absurd (omega arith)
or_digits-fuel (suc m) (suc n) zero b p q = refl
or_digits-fuel (suc m) (suc n) (suc a) b p q =
    ap (λ r. r * 2 + max (suc a % 2) (b % 2))
      (or_digits-fuel m n (suc a / 2) (b / 2) (omega arith) (omega arith))

-- One binary digit of a disjunction.
bit_or-halves : (a b : ℕ) → bit_or a b ≡ bit_or (a / 2) (b / 2) * 2 + max (a % 2) (b % 2)
bit_or-halves zero b = omega (arith, bit_or-bitwise 0 b, bit_or-bitwise 0 (b / 2))
bit_or-halves (suc a) b = omega (
  arith,
  bit_or-bitwise (suc a) b,
  bit_or-bitwise (suc a / 2) (b / 2),
  or_digits-fuel a (suc a / 2) (suc a / 2) (b / 2) (omega arith) (omega arith),
)

bit_or-zero_fuel : (n a : ℕ) → a ≤ n → bit_or a 0 ≡ a
bit_or-zero_fuel zero zero h = refl
bit_or-zero_fuel (suc n) zero h = refl
bit_or-zero_fuel zero (suc a) h = absurd (omega arith)
bit_or-zero_fuel (suc n) (suc a) h =
    omega (arith, bit_or-halves (suc a) 0, bit_or-zero_fuel n (suc a / 2) (omega arith))

bit_or-even : (a b : ℕ) → bit_or (a * 2) b ≡ bit_or a (b / 2) * 2 + b % 2
bit_or-even a b =
    let e : a * 2 / 2 ≡ a = omega arith in
    omega (arith, bit_or-halves (a * 2) b, ap (λ x. bit_or x (b / 2)) e)

pub bit_or-hex_digit : (t d : ℕ) → d < 16 → bit_or (t * 2 * 2 * 2 * 2) d ≡ t * 16 + d
bit_or-hex_digit t d h =
    let e : d / 2 / 2 / 2 / 2 ≡ 0 = omega arith in
    omega (
      arith,
      bit_or-even (t * 2 * 2 * 2) d,
      bit_or-even (t * 2 * 2) (d / 2),
      bit_or-even (t * 2) (d / 2 / 2),
      bit_or-even t (d / 2 / 2 / 2),
      ap (bit_or t) e,
      bit_or-zero_fuel t t (omega arith),
    )
