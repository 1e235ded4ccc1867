-- ===== src/Output/Hex.antt =====
-- Numbers below 256 in hexadecimal digits, as an output stream writes them.
use frost32_cpu.Prelude.{ℕ, ◌/◌, ◌%◌, ◌<◌, ◌≤◌, ◌≡◌, [], ◌∷◌, arith, some}
use frost32_cpu.Output.{digit, digits}
use frost32_cpu.Assembler.Tokens.{hex_digit}

pub digits-one : (n : ℕ) → n < 16 → digits 16 n ≡ digit n ∷ []
unfolding digits
digits-one n h = ground arith

pub digits-two : (n : ℕ) → 16 ≤ n → n < 256 → digits 16 n ≡ digit (n / 16) ∷ digit (n % 16) ∷ []
unfolding digits
digits-two n l h = ground arith

pub hex_digit-digit : (d : ℕ) → d < 16 → hex_digit (digit d) ≡ some d
unfolding hex_digit
hex_digit-digit d h = ground arith
