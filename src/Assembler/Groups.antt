-- ===== src/Assembler/Groups.antt =====
-- `encode_instr_opcode_group_0` to `_6` of assembler_class.hpp: the fields of an instruction are
-- put into a word, which is then output. The arguments are u32.
pub mod Layout
use frost32_cpu.Prelude.{ℕ, ◌%◌, ◌^◌}
use frost32_cpu.Orange.{Orange}
use frost32_cpu.Assembler.{Assembler}
use frost32_cpu.Assembler.Emit.{gen_32}

module _ (lib : Orange) where
  open lib use {clear_and_set_bits_with_range as put_bits}

  -- `to_gen`, where the group and rA, rB, rC, and the opcode are set.
  unfoldable pub word_three_regs : ℕ → ℕ → ℕ → ℕ → ℕ → ℕ
  word_three_regs group reg_a_index reg_b_index reg_c_index opcode =
      let with_group = put_bits 0 group 31 28 in
      let with_a = put_bits with_group reg_a_index 27 24 in
      let with_b = put_bits with_a reg_b_index 23 20 in
      let with_c = put_bits with_b reg_c_index 19 16 in put_bits with_c opcode 3 0

  -- Group 0 sets no group field: the word starts as 0.
  unfoldable pub word_group_0 : ℕ → ℕ → ℕ → ℕ → ℕ
  word_group_0 reg_a_index reg_b_index reg_c_index opcode =
      let with_a = put_bits 0 reg_a_index 27 24 in
      let with_b = put_bits with_a reg_b_index 23 20 in
      let with_c = put_bits with_b reg_c_index 19 16 in put_bits with_c opcode 3 0

  -- Groups 1 and 2 hold an immediate of 16 bits.
  unfoldable pub word_imm16 : ℕ → ℕ → ℕ → ℕ → ℕ → ℕ
  word_imm16 group reg_a_index reg_b_index opcode immediate =
      let with_group = put_bits 0 group 31 28 in
      let with_a = put_bits with_group reg_a_index 27 24 in
      let with_b = put_bits with_a reg_b_index 23 20 in
      let with_opcode = put_bits with_b opcode 19 16 in put_bits with_opcode immediate 15 0

  -- Group 5 with an immediate of 12 bits.
  unfoldable pub word_simm12 : ℕ → ℕ → ℕ → ℕ → ℕ
  word_simm12 reg_a_index reg_b_index opcode immediate =
      let with_group = put_bits 0 0b0101 31 28 in
      let with_a = put_bits with_group reg_a_index 27 24 in
      let with_b = put_bits with_a reg_b_index 23 20 in
      let with_immediate = put_bits with_b immediate 15 4 in put_bits with_immediate opcode 3 0

  -- `gen_32(to_gen)`: a u64 passed as a u32.
  abbrev gen_word : ℕ → Assembler → Assembler
  gen_word to_gen = gen_32 lib (to_gen % 2 ^ 32)

  unfoldable pub encode_instr_opcode_group_0 : ℕ → ℕ → ℕ → ℕ → Assembler → Assembler
  encode_instr_opcode_group_0 a b c opcode = gen_word (word_group_0 a b c opcode)

  unfoldable pub encode_instr_opcode_group_1 : ℕ → ℕ → ℕ → ℕ → Assembler → Assembler
  encode_instr_opcode_group_1 a b opcode immediate =
      gen_word (word_imm16 0b0001 a b opcode immediate)

  unfoldable pub encode_instr_opcode_group_2 : ℕ → ℕ → ℕ → ℕ → Assembler → Assembler
  encode_instr_opcode_group_2 a b opcode immediate =
      gen_word (word_imm16 0b0010 a b opcode immediate)

  unfoldable pub encode_instr_opcode_group_3 : ℕ → ℕ → ℕ → ℕ → Assembler → Assembler
  encode_instr_opcode_group_3 a b c opcode = gen_word (word_three_regs 0b0011 a b c opcode)

  unfoldable pub encode_instr_opcode_group_4 : ℕ → ℕ → ℕ → ℕ → Assembler → Assembler
  encode_instr_opcode_group_4 a b c opcode = gen_word (word_three_regs 0b0100 a b c opcode)

  unfoldable pub encode_instr_opcode_group_5_no_simm : ℕ → ℕ → ℕ → ℕ → Assembler → Assembler
  encode_instr_opcode_group_5_no_simm a b c opcode = gen_word (word_three_regs 0b0101 a b c opcode)

  unfoldable pub encode_instr_opcode_group_5_with_simm : ℕ → ℕ → ℕ → ℕ → Assembler → Assembler
  encode_instr_opcode_group_5_with_simm a b opcode immediate =
      gen_word (word_simm12 a b opcode immediate)

  unfoldable pub encode_instr_opcode_group_6 : ℕ → ℕ → ℕ → ℕ → Assembler → Assembler
  encode_instr_opcode_group_6 a b c opcode = gen_word (word_three_regs 0b0110 a b c opcode)
