-- ===== src/Assembler/Groups/Layout.antt =====
-- The words of assembler_class.hpp as sums of their fields.
use frost32_cpu.Prelude.{ℕ, ◌+◌, ◌*◌, ◌%◌, ◌^◌, ◌<◌, ◌≡◌, ◌∙◌, arith}
use frost32_cpu.Orange.{Orange, Laws}
use frost32_cpu.Assembler.Groups.{word_three_regs, word_group_0, word_imm16, word_simm12}

abbrev pub three_regs_sum : ℕ → ℕ → ℕ → ℕ → ℕ → ℕ
three_regs_sum group a b c opcode =
    group % 16 * 2 ^ 28 + a % 16 * 2 ^ 24 + b % 16 * 2 ^ 20 + c % 16 * 2 ^ 16 + opcode % 16

abbrev pub imm16_sum : ℕ → ℕ → ℕ → ℕ → ℕ → ℕ
imm16_sum group a b opcode immediate =
    group % 16 * 2 ^ 28
    + a % 16 * 2 ^ 24
    + b % 16 * 2 ^ 20
    + opcode % 16 * 2 ^ 16
    + immediate % 2 ^ 16

abbrev pub simm12_sum : ℕ → ℕ → ℕ → ℕ → ℕ
simm12_sum a b opcode immediate =
    5 * 2 ^ 28 + a % 16 * 2 ^ 24 + b % 16 * 2 ^ 20 + immediate % 2 ^ 12 * 2 ^ 4 + opcode % 16

module _ (lib : Orange) (laws : Laws lib) where
  open lib use {clear_and_set_bits_with_range as put_bits}

  -- One more field of a word, below all that are set.
  put_31_28 : (w v : ℕ) → w < 2 ^ 32 → w % 2 ^ 32 ≡ 0 → put_bits w v 31 28 ≡ w + v % 16 * 2 ^ 28
  put_31_28 w v h z =
      laws.set_bits_lem w v 31 28 (omega arith) (omega arith) (omega arith) ∙ omega arith

  put_27_24 : (w v : ℕ) → w < 2 ^ 32 → w % 2 ^ 28 ≡ 0 → put_bits w v 27 24 ≡ w + v % 16 * 2 ^ 24
  put_27_24 w v h z =
      laws.set_bits_lem w v 27 24 (omega arith) (omega arith) (omega arith) ∙ omega arith

  put_23_20 : (w v : ℕ) → w < 2 ^ 32 → w % 2 ^ 24 ≡ 0 → put_bits w v 23 20 ≡ w + v % 16 * 2 ^ 20
  put_23_20 w v h z =
      laws.set_bits_lem w v 23 20 (omega arith) (omega arith) (omega arith) ∙ omega arith

  put_19_16 : (w v : ℕ) → w < 2 ^ 32 → w % 2 ^ 20 ≡ 0 → put_bits w v 19 16 ≡ w + v % 16 * 2 ^ 16
  put_19_16 w v h z =
      laws.set_bits_lem w v 19 16 (omega arith) (omega arith) (omega arith) ∙ omega arith

  put_15_4 : (w v : ℕ) → w < 2 ^ 32 → w % 2 ^ 16 ≡ 0 → put_bits w v 15 4 ≡ w + v % 2 ^ 12 * 2 ^ 4
  put_15_4 w v h z =
      laws.set_bits_lem w v 15 4 (omega arith) (omega arith) (omega arith) ∙ omega arith

  put_15_0 : (w v : ℕ) → w < 2 ^ 32 → w % 2 ^ 16 ≡ 0 → put_bits w v 15 0 ≡ w + v % 2 ^ 16
  put_15_0 w v h z =
      laws.set_bits_lem w v 15 0 (omega arith) (omega arith) (omega arith) ∙ omega arith

  put_3_0 : (w v : ℕ) → w < 2 ^ 32 → w % 2 ^ 4 ≡ 0 → put_bits w v 3 0 ≡ w + v % 16
  put_3_0 w v h z =
      laws.set_bits_lem w v 3 0 (omega arith) (omega arith) (omega arith) ∙ omega arith

  -- The fields do not overlap, and each is cut to its width.
  pub word_three_regs-layout :
      (group a b c opcode : ℕ)
      → word_three_regs lib group a b c opcode ≡ three_regs_sum group a b c opcode
  unfolding word_three_regs
  word_three_regs-layout group a b c opcode =
      let e0 = put_31_28 0 group (omega arith) (omega arith) in
      let e1 = put_27_24 (put_bits 0 group 31 28) a (omega (arith, e0)) (omega (arith, e0)) in
      let e2 =
        put_23_20 (put_bits (put_bits 0 group 31 28) a 27 24) b (omega (arith, e0, e1))
          (omega (arith, e0, e1)) in
      let e3 =
        put_19_16 (put_bits (put_bits (put_bits 0 group 31 28) a 27 24) b 23 20) c
          (omega (arith, e0, e1, e2)) (omega (arith, e0, e1, e2)) in
      let e4 =
        put_3_0 (put_bits (put_bits (put_bits (put_bits 0 group 31 28) a 27 24) b 23 20) c 19 16)
          opcode (omega (arith, e0, e1, e2, e3)) (omega (arith, e0, e1, e2, e3)) in
      omega (arith, e0, e1, e2, e3, e4)

  -- The word of group 0 is the sum of its fields, as a word of three registers of the group 0.
  pub word_group_0-layout :
      (a b c opcode : ℕ) → word_group_0 lib a b c opcode ≡ three_regs_sum 0 a b c opcode
  unfolding word_group_0
  word_group_0-layout a b c opcode =
      let e0 = put_27_24 0 a (omega arith) (omega arith) in
      let e1 = put_23_20 (put_bits 0 a 27 24) b (omega (arith, e0)) (omega (arith, e0)) in
      let e2 =
        put_19_16 (put_bits (put_bits 0 a 27 24) b 23 20) c (omega (arith, e0, e1))
          (omega (arith, e0, e1)) in
      let e3 =
        put_3_0 (put_bits (put_bits (put_bits 0 a 27 24) b 23 20) c 19 16) opcode
          (omega (arith, e0, e1, e2)) (omega (arith, e0, e1, e2)) in
      omega (arith, e0, e1, e2, e3)

  -- The word with an immediate of 16 bits is the sum of its fields at their places, each cut to its
  -- width.
  pub word_imm16-layout :
      (group a b opcode immediate : ℕ)
      → word_imm16 lib group a b opcode immediate ≡ imm16_sum group a b opcode immediate
  unfolding word_imm16
  word_imm16-layout group a b opcode immediate =
      let e0 = put_31_28 0 group (omega arith) (omega arith) in
      let e1 = put_27_24 (put_bits 0 group 31 28) a (omega (arith, e0)) (omega (arith, e0)) in
      let e2 =
        put_23_20 (put_bits (put_bits 0 group 31 28) a 27 24) b (omega (arith, e0, e1))
          (omega (arith, e0, e1)) in
      let e3 =
        put_19_16 (put_bits (put_bits (put_bits 0 group 31 28) a 27 24) b 23 20) opcode
          (omega (arith, e0, e1, e2)) (omega (arith, e0, e1, e2)) in
      let e4 =
        put_15_0
          (put_bits (put_bits (put_bits (put_bits 0 group 31 28) a 27 24) b 23 20) opcode 19 16)
          immediate (omega (arith, e0, e1, e2, e3)) (omega (arith, e0, e1, e2, e3)) in
      omega (arith, e0, e1, e2, e3, e4)

  -- The word of a load or store with an offset of 12 bits is the sum of its fields at their places,
  -- each cut to its width.
  pub word_simm12-layout :
      (a b opcode immediate : ℕ)
      → word_simm12 lib a b opcode immediate ≡ simm12_sum a b opcode immediate
  unfolding word_simm12
  word_simm12-layout a b opcode immediate =
      let e0 = put_31_28 0 0b0101 (omega arith) (omega arith) in
      let e1 = put_27_24 (put_bits 0 0b0101 31 28) a (omega (arith, e0)) (omega (arith, e0)) in
      let e2 =
        put_23_20 (put_bits (put_bits 0 0b0101 31 28) a 27 24) b (omega (arith, e0, e1))
          (omega (arith, e0, e1)) in
      let e3 =
        put_15_4 (put_bits (put_bits (put_bits 0 0b0101 31 28) a 27 24) b 23 20) immediate
          (omega (arith, e0, e1, e2)) (omega (arith, e0, e1, e2)) in
      let e4 =
        put_3_0
          (put_bits (put_bits (put_bits (put_bits 0 0b0101 31 28) a 27 24) b 23 20) immediate 15 4)
          opcode (omega (arith, e0, e1, e2, e3)) (omega (arith, e0, e1, e2, e3)) in
      omega (arith, e0, e1, e2, e3, e4)
