-- ===== src/Assembler/Encode/Ranges.antt =====
-- The ranges that the warnings of assembler_class.hpp test, and the values that the functions
-- `__encode_relative_branch` and `__encode_cpya` of assembler_class.cpp put into a word.
use frost32_cpu.Prelude.{ℕ, ◌%◌, ◌^◌, ◌≡◌, ◌==◌, ltb, ap, Bool, arith, if◌then◌else◌}
use frost32_cpu.Prelude.Int.{ℤ, pos, negsuc, IsS64, eqb_ℤ, to_u64, to_s16, to_s12}
use frost32_cpu.Assembler.{Assembler, imm16, simm16, branch_offset, simm12}
use frost32_cpu.Assembler.Encode.{
  warn_unless, warn_if_imm16_out_of_range, warn_if_simm16_out_of_range, warn_if_simm12_out_of_range,
}

-- Whether an integer is at least -low and below high.
abbrev pub within : ℕ → ℕ → ℤ → Bool
within low high (pos n) = ltb n high
within low high (negsuc n) = ltb n low

imm16_test : (a : ℤ) → IsS64 a → (to_u64 a == to_u64 a % 2 ^ 16) ≡ within 0 (2 ^ 16) a
imm16_test (pos n) h = ground arith
imm16_test (negsuc n) h = ground arith

simm16_test : (a : ℤ) → IsS64 a → eqb_ℤ a (to_s16 (to_u64 a % 2 ^ 16)) ≡ within (2 ^ 15) (2 ^ 15) a
simm16_test (pos n) h = ground arith
simm16_test (negsuc n) h = ground arith

simm12_test : (a : ℤ) → IsS64 a → eqb_ℤ a (to_s12 (to_u64 a % 2 ^ 12)) ≡ within (2 ^ 11) (2 ^ 11) a
simm12_test (pos n) h = ground arith
simm12_test (negsuc n) h = ground arith

-- Of an s64, the three functions warn on the second pass exactly when it is not in the range of
-- an unsigned field of 16 bits, or of a signed one of 16 or of 12 bits, and they change nothing
-- else.
pub warn_if-within :
    (a : ℤ) (is_for_branch : Bool) (s : Assembler)
    → IsS64 a
    → (warn_if_imm16_out_of_range a s ≡ warn_unless (within 0 (2 ^ 16) a) (imm16 a) s)
      × (warn_if_simm16_out_of_range a is_for_branch s
          ≡ warn_unless
              (within (2 ^ 15) (2 ^ 15) a)
              (if is_for_branch then branch_offset a else simm16 a)
              s)
      × (warn_if_simm12_out_of_range a s ≡ warn_unless (within (2 ^ 11) (2 ^ 11) a) (simm12 a) s)
unfolding warn_if_imm16_out_of_range warn_if_simm16_out_of_range warn_if_simm12_out_of_range
warn_if-within a is_for_branch s h = (
  ap (λ t. warn_unless t (imm16 a) s) (imm16_test a h),
  ap (λ t. warn_unless t (if is_for_branch then branch_offset a else simm16 a) s) (simm16_test a h),
  ap (λ t. warn_unless t (simm12 a) s) (simm12_test a h),
)
