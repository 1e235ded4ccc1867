-- ===== src/Assembler/Encode/Targets.antt =====
-- The values that `__encode_cpya` and `__encode_relative_branch` of assembler_class.cpp put into
-- their words, as the processor takes them together.
use frost32_cpu.Prelude.{
  ℕ, ◌+◌, ◌-◌, ◌*◌, ◌%◌, ◌^◌, ◌<◌, ◌≡◌, ◌∙◌, Bool-cases, inl, inr, refl, ap, true, String, some,
  arith,
}
use frost32_cpu.Prelude.Int.{ℤ, pos, negsuc, to_u64, to_s64, to_s16, shr_ℤ, to_u64-lt, to_s64-IsS64}
use frost32_cpu.Prelude.Text.{lookup}
use frost32_cpu.Orange.{Orange, Laws}
use frost32_cpu.Outcome.{ok}
use frost32_cpu.Encoding.{encoding_stuff}
use frost32_cpu.Assembler.{Assembler, Warning, branch_offset, is_pass_one}
use frost32_cpu.Assembler.Emit.{gen_32}
use frost32_cpu.Assembler.Groups.{
  word_imm16, encode_instr_opcode_group_1, encode_instr_opcode_group_2,
}
use frost32_cpu.Assembler.Groups.Layout.{imm16_sum, word_imm16-layout}
use frost32_cpu.Assembler.Encode.{
  warn_unless, branch_immediate, encode_cpya, encode_relative_branch, to_u32,
}
use frost32_cpu.Assembler.Encode.Ranges.{warn_if-within, within}

halves :
    (immediate : ℤ)
    → to_u32 (shr_ℤ immediate 16) % 2 ^ 16 * 2 ^ 16 + to_u32 immediate % 2 ^ 16
      ≡ to_u64 immediate % 2 ^ 32
halves (pos n) = omega arith
halves (negsuc n) = omega arith

-- An offset that fits 16 bits is found again in them.
sign_extended :
    (d : ℕ)
    → d < 2 ^ 64
    → within (2 ^ 15) (2 ^ 15) (to_s64 d) ≡ true
    → to_u64 (to_s16 (d % 2 ^ 32 % 2 ^ 16)) ≡ d
sign_extended d h w = ground arith

offset-target :
    (target pc d : ℕ)
    → target < 2 ^ 64
    → pc < 2 ^ 64
    → d ≡ (target + (2 ^ 64 - pc) + (2 ^ 64 - 4)) % 2 ^ 64
    → within (2 ^ 15) (2 ^ 15) (to_s64 d) ≡ true
    → (pc + 4 + to_u64 (to_s16 (d % 2 ^ 32 % 2 ^ 16))) % 2 ^ 64 ≡ target
offset-target target pc d ht hp e w = omega (arith, sign_extended d (omega arith) w)

pub warn_unless-fits : (w : Warning) (s : Assembler) → warn_unless true w s ≡ s
warn_unless-fits w s = elim (Bool-cases (is_pass_one s)) [ inl e ↦ rw e refl | inr e ↦ rw e refl ]

module _ (lib : Orange) (laws : Laws lib) where
  word_imm16-sum :
      (group a b opcode immediate : ℕ)
      → word_imm16 lib group a b opcode immediate % 2 ^ 32 ≡ imm16_sum group a b opcode immediate
  word_imm16-sum group a b opcode immediate =
      omega (arith, word_imm16-layout lib laws group a b opcode immediate)

  -- `cpya` becomes the two words of `addi` with the low half of the value and of `cpyhi` with the
  -- high half, and the halves together are the value modulo 2 ^ 32. There is no warning.
  pub encode_cpya-halves :
      (a : ℕ) (immediate : ℤ) (s : Assembler)
      → (low high : ℕ) × ((encode_cpya lib a immediate s
            ≡ ok (tt, gen_32 lib (imm16_sum 1 a 0 15 high) (gen_32 lib (imm16_sum 1 a 0 0 low) s)))
          × (high % 2 ^ 16 * 2 ^ 16 + low % 2 ^ 16 ≡ to_u64 immediate % 2 ^ 32))
  unfolding encode_cpya encode_instr_opcode_group_1
  encode_cpya-halves a immediate s =
      let low = to_u32 immediate in
      let high = to_u32 (shr_ℤ immediate 16) in
      (
        low,
        high,
        (rw (word_imm16-sum 1 a 0 0 low, word_imm16-sum 1 a 0 15 high) refl, halves immediate),
      )

  -- A branch whose offset fits 16 bits gives no warning, and the offset in its word, with its sign
  -- extended, leads from the following instruction to the address.
  pub encode_relative_branch-target :
      (name : String) (opcode a b : ℕ) (target : ℤ) (s : Assembler)
      → lookup name encoding_stuff.iog2_branch_map ≡ some opcode
      → s.pc.curr < 2 ^ 64
      → within (2 ^ 15) (2 ^ 15) (to_s64 (branch_immediate target s.pc.curr)) ≡ true
      → (offset : ℕ) × ((encode_relative_branch lib name a b target s
            ≡ ok (tt, gen_32 lib (imm16_sum 2 a b opcode offset) s))
          × ((s.pc.curr + 4 + to_u64 (to_s16 (offset % 2 ^ 16))) % 2 ^ 64 ≡ to_u64 target))
  unfolding encode_relative_branch encode_instr_opcode_group_2
  encode_relative_branch-target name opcode a b target s e h w =
      let d = branch_immediate target s.pc.curr in
      let tested = (warn_if-within (to_s64 d) true s (to_s64-IsS64 d (omega arith))).1 in
      let quiet =
        tested
        ∙ ap (λ t. warn_unless t (branch_offset (to_s64 d)) s) w
        ∙ warn_unless-fits (branch_offset (to_s64 d)) s in
      (
        d % 2 ^ 32,
        (
          rw (e) (
              ap (λ t. ok (tt, encode_instr_opcode_group_2 lib a b opcode (d % 2 ^ 32) t)) quiet
              ∙ rw (word_imm16-sum 2 a b opcode (d % 2 ^ 32)) refl),
          offset-target (to_u64 target) s.pc.curr d (to_u64-lt target) h refl w,
        ),
      )
