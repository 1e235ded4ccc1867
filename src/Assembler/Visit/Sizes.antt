-- ===== src/Assembler/Visit/Sizes.antt =====
-- What the visitors of instructions in assembler_class.cpp do to the state: each outputs one word.
use frost32_cpu.Prelude.{ℕ, String, List, [], ◌∷◌, Bool-cases, inl, inr, not, ◌&&◌}
use frost32_cpu.Prelude.Int.{ℤ}
use frost32_cpu.Prelude.Text.{str_eq}
use frost32_cpu.Orange.{Orange, Laws}
use frost32_cpu.Assembler.{Assembler}
use frost32_cpu.Assembler.Syntax.{
  Expr, Instruction, grp0_three_regs, grp1_two_regs_one_imm, grp1_two_regs_one_simm,
  grp1_one_reg_one_pc_one_simm, grp1_one_reg_one_imm, grp2_branch, grp3_jump, grp4_call,
  grp5_three_regs_ldst, grp5_two_regs_one_simm12_ldst, grp6_no_args, grp6_one_ireta_one_reg,
  grp6_one_reg_one_ireta, grp6_one_idsta_one_reg, grp6_one_reg_one_idsta,
}
use frost32_cpu.Assembler.Groups.{
  encode_instr_opcode_group_0, encode_instr_opcode_group_1, encode_instr_opcode_group_2,
  encode_instr_opcode_group_3, encode_instr_opcode_group_4, encode_instr_opcode_group_5_no_simm,
  encode_instr_opcode_group_5_with_simm, encode_instr_opcode_group_6,
}
use frost32_cpu.Assembler.Encode.{
  encode_alu_op_three_regs, encode_alu_op_two_regs_one_imm, encode_relative_branch, encode_jump,
  encode_call, encode_ldst_three_regs, encode_ldst_two_regs_one_simm, warn_if_imm16_out_of_range,
  warn_if_simm16_out_of_range, warn_if_simm12_out_of_range,
}
use frost32_cpu.Assembler.Emits.{
  Emits, Post, InScope, gen_32-Emits, warned_word-Emits, lift-Ends, post_rules,
}
use frost32_cpu.Assembler.Visit.{
  visit_grp0_three_regs, visit_grp1_two_regs_one_imm, visit_grp1_two_regs_one_simm,
  visit_grp1_one_reg_one_pc_one_simm, visit_grp1_one_reg_one_imm, visit_grp2_branch,
  visit_grp3_jump, visit_grp4_call, visit_grp5_three_regs_ldst, visit_grp5_two_regs_one_simm12_ldst,
  visit_grp6_no_args, visit_grp6_one_ireta_one_reg, visit_grp6_one_reg_one_ireta,
  visit_grp6_one_idsta_one_reg, visit_grp6_one_reg_one_idsta, visit_instruction,
}

module _ (lib : Orange) (laws : Laws lib) (s : Assembler) where
  -- One word is output.
  abbrev Word : Assembler → Type 0
  Word s' = Emits 4 s s'

  pub encode_alu_op_three_regs-Post :
      (name : String) (a b c : ℕ) → Post (encode_alu_op_three_regs lib name a b c) s Word
  unfolding encode_alu_op_three_regs encode_instr_opcode_group_0
  encode_alu_op_three_regs-Post name a b c = record {
    at = search (lift-Ends Word, gen_32-Emits lib laws);
  }

  pub encode_alu_op_two_regs_one_imm-Post :
      (name : String) (a b : ℕ) (n : ℤ)
      → Post (encode_alu_op_two_regs_one_imm lib name a b n) s Word
  unfolding encode_alu_op_two_regs_one_imm warn_if_imm16_out_of_range warn_if_simm16_out_of_range
      encode_instr_opcode_group_1
  encode_alu_op_two_regs_one_imm-Post name a b n = record {
    at = elim (Bool-cases (not (str_eq name "sltsi") && not (str_eq name "sgtsi"))) [
      | inl e ↦ rw e (search (lift-Ends Word, warned_word-Emits lib laws))
      | inr e ↦ rw e (search (lift-Ends Word, warned_word-Emits lib laws))
    ];
  }

  pub encode_relative_branch-Post :
      (name : String) (a b : ℕ) (n : ℤ) → Post (encode_relative_branch lib name a b n) s Word
  unfolding encode_relative_branch warn_if_simm16_out_of_range encode_instr_opcode_group_2
  encode_relative_branch-Post name a b n = record {
    at = search (lift-Ends Word, warned_word-Emits lib laws);
  }

  pub encode_jump-Post : (name : String) (a b c : ℕ) → Post (encode_jump lib name a b c) s Word
  unfolding encode_jump encode_instr_opcode_group_3
  encode_jump-Post name a b c = record { at = search (lift-Ends Word, gen_32-Emits lib laws) }

  pub encode_call-Post : (name : String) (a b c : ℕ) → Post (encode_call lib name a b c) s Word
  unfolding encode_call encode_instr_opcode_group_4
  encode_call-Post name a b c = record { at = search (lift-Ends Word, gen_32-Emits lib laws) }

  encode_ldst_three_regs-Post :
      (name : String) (a b c : ℕ) → Post (encode_ldst_three_regs lib name a b c) s Word
  unfolding encode_ldst_three_regs encode_instr_opcode_group_5_no_simm
  encode_ldst_three_regs-Post name a b c = record {
    at = search (lift-Ends Word, gen_32-Emits lib laws);
  }

  encode_ldst_two_regs_one_simm-Post :
      (name : String) (a b : ℕ) (n : ℤ) → Post (encode_ldst_two_regs_one_simm lib name a b n) s Word
  unfolding encode_ldst_two_regs_one_simm warn_if_simm12_out_of_range
      encode_instr_opcode_group_5_with_simm
  encode_ldst_two_regs_one_simm-Post name a b n = record {
    at = search (lift-Ends Word, warned_word-Emits lib laws);
  }

  visit_grp0_three_regs-Post :
      (tok : String) (regs : List String) → Post (visit_grp0_three_regs lib tok regs) s Word
  unfolding visit_grp0_three_regs encode_instr_opcode_group_0
  visit_grp0_three_regs-Post tok regs = search (post_rules, gen_32-Emits lib laws) depth 9

  visit_grp1_two_regs_one_imm-Post :
      InScope s
      → (tok : String) (regs : List String) (e : Expr)
      → Post (visit_grp1_two_regs_one_imm lib tok regs e) s Word
  unfolding visit_grp1_two_regs_one_imm
  visit_grp1_two_regs_one_imm-Post scope tok regs e =
      search (post_rules, encode_alu_op_two_regs_one_imm-Post) depth 9

  visit_grp1_two_regs_one_simm-Post :
      InScope s
      → (tok : String) (regs : List String) (e : Expr)
      → Post (visit_grp1_two_regs_one_simm lib tok regs e) s Word
  unfolding visit_grp1_two_regs_one_simm
  visit_grp1_two_regs_one_simm-Post scope tok regs e =
      search (post_rules, encode_alu_op_two_regs_one_imm-Post) depth 9

  visit_grp1_one_reg_one_pc_one_simm-Post :
      InScope s
      → (tok reg : String) (e : Expr)
      → Post (visit_grp1_one_reg_one_pc_one_simm lib tok reg e) s Word
  unfolding visit_grp1_one_reg_one_pc_one_simm encode_instr_opcode_group_1
  visit_grp1_one_reg_one_pc_one_simm-Post scope tok reg e =
      search (post_rules, gen_32-Emits lib laws) depth 9

  visit_grp1_one_reg_one_imm-Post :
      InScope s
      → (tok reg : String) (e : Expr) → Post (visit_grp1_one_reg_one_imm lib tok reg e) s Word
  unfolding visit_grp1_one_reg_one_imm encode_instr_opcode_group_1
  visit_grp1_one_reg_one_imm-Post scope tok reg e =
      search (post_rules, gen_32-Emits lib laws) depth 9

  visit_grp2_branch-Post :
      InScope s
      → (tok : String) (regs : List String) (e : Expr)
      → Post (visit_grp2_branch lib tok regs e) s Word
  unfolding visit_grp2_branch
  visit_grp2_branch-Post scope tok regs e = search (post_rules, encode_relative_branch-Post) depth 9

  visit_grp3_jump-Post :
      (tok : String) (regs : List String) → Post (visit_grp3_jump lib tok regs) s Word
  unfolding visit_grp3_jump
  visit_grp3_jump-Post tok regs = search (post_rules, encode_jump-Post) depth 9

  visit_grp4_call-Post :
      (tok : String) (regs : List String) → Post (visit_grp4_call lib tok regs) s Word
  unfolding visit_grp4_call
  visit_grp4_call-Post tok regs = search (post_rules, encode_call-Post) depth 9

  visit_grp5_three_regs_ldst-Post :
      (tok : String) (regs : List String) → Post (visit_grp5_three_regs_ldst lib tok regs) s Word
  unfolding visit_grp5_three_regs_ldst
  visit_grp5_three_regs_ldst-Post tok regs =
      search (post_rules, encode_ldst_three_regs-Post) depth 9

  visit_grp5_two_regs_one_simm12_ldst-Post :
      InScope s
      → (tok : String) (regs : List String) (e : Expr)
      → Post (visit_grp5_two_regs_one_simm12_ldst lib tok regs e) s Word
  unfolding visit_grp5_two_regs_one_simm12_ldst
  visit_grp5_two_regs_one_simm12_ldst-Post scope tok regs e =
      search (post_rules, encode_ldst_two_regs_one_simm-Post) depth 9

  visit_grp6_no_args-Post : (tok : String) → Post (visit_grp6_no_args lib tok) s Word
  unfolding visit_grp6_no_args encode_instr_opcode_group_6
  visit_grp6_no_args-Post tok = search (post_rules, gen_32-Emits lib laws) depth 9

  visit_grp6_one_ireta_one_reg-Post :
      (reg : String) → Post (visit_grp6_one_ireta_one_reg lib reg) s Word
  unfolding visit_grp6_one_ireta_one_reg encode_instr_opcode_group_6
  visit_grp6_one_ireta_one_reg-Post reg = search (post_rules, gen_32-Emits lib laws) depth 9

  visit_grp6_one_reg_one_ireta-Post :
      (reg : String) → Post (visit_grp6_one_reg_one_ireta lib reg) s Word
  unfolding visit_grp6_one_reg_one_ireta encode_instr_opcode_group_6
  visit_grp6_one_reg_one_ireta-Post reg = search (post_rules, gen_32-Emits lib laws) depth 9

  visit_grp6_one_idsta_one_reg-Post :
      (reg : String) → Post (visit_grp6_one_idsta_one_reg lib reg) s Word
  unfolding visit_grp6_one_idsta_one_reg encode_instr_opcode_group_6
  visit_grp6_one_idsta_one_reg-Post reg = search (post_rules, gen_32-Emits lib laws) depth 9

  visit_grp6_one_reg_one_idsta-Post :
      (reg : String) → Post (visit_grp6_one_reg_one_idsta lib reg) s Word
  unfolding visit_grp6_one_reg_one_idsta encode_instr_opcode_group_6
  visit_grp6_one_reg_one_idsta-Post reg = search (post_rules, gen_32-Emits lib laws) depth 9

  -- In a scope below the root of a tree, an instruction that is accepted, on either pass, moves the
  -- program counter by four modulo 2 ^ 64, and on the first pass outputs and warns of nothing; the
  -- stacks, the symbols and the scope are as before.
  pub visit_instruction-Post :
      InScope s → (i : Instruction) → Post (visit_instruction lib i) s (λ s'. Emits 4 s s')
  unfolding visit_instruction
  visit_instruction-Post scope (grp0_three_regs tok a b c) =
      visit_grp0_three_regs-Post tok (a ∷ b ∷ c ∷ [])
  visit_instruction-Post scope (grp1_two_regs_one_imm tok a b e) =
      visit_grp1_two_regs_one_imm-Post scope tok (a ∷ b ∷ []) e
  visit_instruction-Post scope (grp1_two_regs_one_simm tok a b e) =
      visit_grp1_two_regs_one_simm-Post scope tok (a ∷ b ∷ []) e
  visit_instruction-Post scope (grp1_one_reg_one_pc_one_simm tok a e) =
      visit_grp1_one_reg_one_pc_one_simm-Post scope tok a e
  visit_instruction-Post scope (grp1_one_reg_one_imm tok a e) =
      visit_grp1_one_reg_one_imm-Post scope tok a e
  visit_instruction-Post scope (grp2_branch tok a b e) =
      visit_grp2_branch-Post scope tok (a ∷ b ∷ []) e
  visit_instruction-Post scope (grp3_jump tok a b c) = visit_grp3_jump-Post tok (a ∷ b ∷ c ∷ [])
  visit_instruction-Post scope (grp4_call tok a b c) = visit_grp4_call-Post tok (a ∷ b ∷ c ∷ [])
  visit_instruction-Post scope (grp5_three_regs_ldst tok a b c) =
      visit_grp5_three_regs_ldst-Post tok (a ∷ b ∷ c ∷ [])
  visit_instruction-Post scope (grp5_two_regs_one_simm12_ldst tok a b e) =
      visit_grp5_two_regs_one_simm12_ldst-Post scope tok (a ∷ b ∷ []) e
  visit_instruction-Post scope (grp6_no_args tok) = visit_grp6_no_args-Post tok
  visit_instruction-Post scope (grp6_one_ireta_one_reg reg) = visit_grp6_one_ireta_one_reg-Post reg
  visit_instruction-Post scope (grp6_one_reg_one_ireta reg) = visit_grp6_one_reg_one_ireta-Post reg
  visit_instruction-Post scope (grp6_one_idsta_one_reg reg) = visit_grp6_one_idsta_one_reg-Post reg
  visit_instruction-Post scope (grp6_one_reg_one_idsta reg) = visit_grp6_one_reg_one_idsta-Post reg
