-- ===== src/Assembler/Formats/Instructions.antt =====
-- The visitors of instructions in assembler_class.cpp do not look at the format of the output.
use frost32_cpu.Prelude.{ℕ, String, List, [], ◌∷◌, true, ◌%◌, ◌^◌}
use frost32_cpu.Prelude.Int.{ℤ, to_s64}
use frost32_cpu.Prelude.Text.{lookup}
use frost32_cpu.Orange.{Orange, Laws}
use frost32_cpu.Outcome.{at}
use frost32_cpu.Encoding.{encoding_stuff}
use frost32_cpu.Assembler.{M, modify, ◌>>◌}
use frost32_cpu.Assembler.Syntax.{
  Expr, Instruction, grp0_three_regs, grp1_two_regs_one_imm, grp1_two_regs_one_simm,
  grp1_one_reg_one_pc_one_simm, grp1_one_reg_one_imm, grp2_branch, grp3_jump, grp4_call,
  grp5_three_regs_ldst, grp5_two_regs_one_simm12_ldst, grp6_no_args, grp6_one_ireta_one_reg,
  grp6_one_reg_one_ireta, grp6_one_idsta_one_reg, grp6_one_reg_one_idsta,
}
use frost32_cpu.Assembler.Groups.{
  encode_instr_opcode_group_0, encode_instr_opcode_group_1, encode_instr_opcode_group_2,
  encode_instr_opcode_group_3, encode_instr_opcode_group_4, encode_instr_opcode_group_5_no_simm,
  encode_instr_opcode_group_5_with_simm, encode_instr_opcode_group_6,
}
use frost32_cpu.Assembler.Encode.{
  encode_alu_op_three_regs, encode_alu_op_two_regs_one_imm, encode_relative_branch, encode_jump,
  encode_call, encode_ldst_three_regs, encode_ldst_two_regs_one_simm, warn_if_imm16_out_of_range,
  warn_if_simm16_out_of_range, warn_if_simm12_out_of_range, encode_cpya, branch_immediate,
}
use frost32_cpu.Assembler.Formats.{
  Blind, lift_then-Blind, if-Blind, get_then-Blind, gen_32-Blind, blind_rules,
}
use frost32_cpu.Assembler.Formats.Expressions.{visit_value-Blind}
use frost32_cpu.Assembler.Visit.{
  visit_grp0_three_regs, visit_grp1_two_regs_one_imm, visit_grp1_two_regs_one_simm,
  visit_grp1_one_reg_one_pc_one_simm, visit_grp1_one_reg_one_imm, visit_grp2_branch,
  visit_grp3_jump, visit_grp4_call, visit_grp5_three_regs_ldst, visit_grp5_two_regs_one_simm12_ldst,
  visit_grp6_no_args, visit_grp6_one_ireta_one_reg, visit_grp6_one_reg_one_ireta,
  visit_grp6_one_idsta_one_reg, visit_grp6_one_reg_one_idsta, visit_instruction,
}

module _ (lib : Orange) (laws : Laws lib) where
  pub encode_alu_op_three_regs-Blind :
      (name : String) (a b c : ℕ) → Blind (encode_alu_op_three_regs lib name a b c)
  unfolding encode_alu_op_three_regs encode_instr_opcode_group_0
  encode_alu_op_three_regs-Blind name a b c = search (blind_rules, gen_32-Blind lib laws) depth 6

  pub encode_alu_op_two_regs_one_imm-Blind :
      (name : String) (a b : ℕ) (n : ℤ) → Blind (encode_alu_op_two_regs_one_imm lib name a b n)
  unfolding encode_alu_op_two_regs_one_imm warn_if_imm16_out_of_range warn_if_simm16_out_of_range
      encode_instr_opcode_group_1
  encode_alu_op_two_regs_one_imm-Blind name a b n =
      search (blind_rules, if-Blind, gen_32-Blind lib laws) depth 9

  -- A branch whose offset is known.
  abbrev branch_to : ℕ → ℕ → ℕ → ℕ → M (Unit {0})
  branch_to a b opcode immediate =
      modify (warn_if_simm16_out_of_range (to_s64 immediate) true)
      >> modify (encode_instr_opcode_group_2 lib a b opcode (immediate % 2 ^ 32))

  branch_to-Blind : (a b opcode immediate : ℕ) → Blind (branch_to a b opcode immediate)
  unfolding warn_if_simm16_out_of_range encode_instr_opcode_group_2
  branch_to-Blind a b opcode immediate = search (blind_rules, gen_32-Blind lib laws)

  pub encode_relative_branch-Blind :
      (name : String) (a b : ℕ) (n : ℤ) → Blind (encode_relative_branch lib name a b n)
  unfolding encode_relative_branch
  encode_relative_branch-Blind name a b n =
      lift_then-Blind (at (lookup name encoding_stuff.iog2_branch_map)) _ (λ opcode.
        get_then-Blind (λ s. branch_to a b opcode (branch_immediate n s.pc.curr))
          (λ s. (branch_to-Blind a b opcode (branch_immediate n s.pc.curr)).same s))

  pub encode_jump-Blind : (name : String) (a b c : ℕ) → Blind (encode_jump lib name a b c)
  unfolding encode_jump encode_instr_opcode_group_3
  encode_jump-Blind name a b c = search (blind_rules, gen_32-Blind lib laws) depth 6

  pub encode_call-Blind : (name : String) (a b c : ℕ) → Blind (encode_call lib name a b c)
  unfolding encode_call encode_instr_opcode_group_4
  encode_call-Blind name a b c = search (blind_rules, gen_32-Blind lib laws) depth 6

  encode_ldst_three_regs-Blind :
      (name : String) (a b c : ℕ) → Blind (encode_ldst_three_regs lib name a b c)
  unfolding encode_ldst_three_regs encode_instr_opcode_group_5_no_simm
  encode_ldst_three_regs-Blind name a b c = search (blind_rules, gen_32-Blind lib laws) depth 6

  encode_ldst_two_regs_one_simm-Blind :
      (name : String) (a b : ℕ) (n : ℤ) → Blind (encode_ldst_two_regs_one_simm lib name a b n)
  unfolding encode_ldst_two_regs_one_simm warn_if_simm12_out_of_range
      encode_instr_opcode_group_5_with_simm
  encode_ldst_two_regs_one_simm-Blind name a b n =
      search (blind_rules, gen_32-Blind lib laws) depth 8

  pub encode_cpya-Blind : (a : ℕ) (n : ℤ) → Blind (encode_cpya lib a n)
  unfolding encode_cpya encode_instr_opcode_group_1
  encode_cpya-Blind a n = search (blind_rules, gen_32-Blind lib laws) depth 8

  visit_grp0_three_regs-Blind :
      (tok : String) (regs : List String) → Blind (visit_grp0_three_regs lib tok regs)
  unfolding visit_grp0_three_regs encode_instr_opcode_group_0
  visit_grp0_three_regs-Blind tok regs = search (blind_rules, gen_32-Blind lib laws) depth 14

  visit_grp1_two_regs_one_imm-Blind :
      (tok : String) (regs : List String) (e : Expr)
      → Blind (visit_grp1_two_regs_one_imm lib tok regs e)
  unfolding visit_grp1_two_regs_one_imm
  visit_grp1_two_regs_one_imm-Blind tok regs e =
      search (blind_rules, encode_alu_op_two_regs_one_imm-Blind, visit_value-Blind) depth 14

  visit_grp1_two_regs_one_simm-Blind :
      (tok : String) (regs : List String) (e : Expr)
      → Blind (visit_grp1_two_regs_one_simm lib tok regs e)
  unfolding visit_grp1_two_regs_one_simm
  visit_grp1_two_regs_one_simm-Blind tok regs e =
      search (blind_rules, encode_alu_op_two_regs_one_imm-Blind, visit_value-Blind) depth 14

  visit_grp1_one_reg_one_pc_one_simm-Blind :
      (tok reg : String) (e : Expr) → Blind (visit_grp1_one_reg_one_pc_one_simm lib tok reg e)
  unfolding visit_grp1_one_reg_one_pc_one_simm encode_instr_opcode_group_1
  visit_grp1_one_reg_one_pc_one_simm-Blind tok reg e =
      search (blind_rules, gen_32-Blind lib laws, visit_value-Blind) depth 14

  visit_grp1_one_reg_one_imm-Blind :
      (tok reg : String) (e : Expr) → Blind (visit_grp1_one_reg_one_imm lib tok reg e)
  unfolding visit_grp1_one_reg_one_imm encode_instr_opcode_group_1
  visit_grp1_one_reg_one_imm-Blind tok reg e =
      search (blind_rules, gen_32-Blind lib laws, visit_value-Blind) depth 14

  visit_grp2_branch-Blind :
      (tok : String) (regs : List String) (e : Expr) → Blind (visit_grp2_branch lib tok regs e)
  unfolding visit_grp2_branch
  visit_grp2_branch-Blind tok regs e =
      search (blind_rules, encode_relative_branch-Blind, visit_value-Blind) depth 14

  visit_grp3_jump-Blind : (tok : String) (regs : List String) → Blind (visit_grp3_jump lib tok regs)
  unfolding visit_grp3_jump
  visit_grp3_jump-Blind tok regs = search (blind_rules, encode_jump-Blind) depth 14

  visit_grp4_call-Blind : (tok : String) (regs : List String) → Blind (visit_grp4_call lib tok regs)
  unfolding visit_grp4_call
  visit_grp4_call-Blind tok regs = search (blind_rules, encode_call-Blind) depth 14

  visit_grp5_three_regs_ldst-Blind :
      (tok : String) (regs : List String) → Blind (visit_grp5_three_regs_ldst lib tok regs)
  unfolding visit_grp5_three_regs_ldst
  visit_grp5_three_regs_ldst-Blind tok regs =
      search (blind_rules, encode_ldst_three_regs-Blind) depth 14

  visit_grp5_two_regs_one_simm12_ldst-Blind :
      (tok : String) (regs : List String) (e : Expr)
      → Blind (visit_grp5_two_regs_one_simm12_ldst lib tok regs e)
  unfolding visit_grp5_two_regs_one_simm12_ldst
  visit_grp5_two_regs_one_simm12_ldst-Blind tok regs e =
      search (blind_rules, encode_ldst_two_regs_one_simm-Blind, visit_value-Blind) depth 14

  visit_grp6_no_args-Blind : (tok : String) → Blind (visit_grp6_no_args lib tok)
  unfolding visit_grp6_no_args encode_instr_opcode_group_6
  visit_grp6_no_args-Blind tok = search (blind_rules, gen_32-Blind lib laws) depth 14

  visit_grp6_one_ireta_one_reg-Blind : (reg : String) → Blind (visit_grp6_one_ireta_one_reg lib reg)
  unfolding visit_grp6_one_ireta_one_reg encode_instr_opcode_group_6
  visit_grp6_one_ireta_one_reg-Blind reg = search (blind_rules, gen_32-Blind lib laws) depth 14

  visit_grp6_one_reg_one_ireta-Blind : (reg : String) → Blind (visit_grp6_one_reg_one_ireta lib reg)
  unfolding visit_grp6_one_reg_one_ireta encode_instr_opcode_group_6
  visit_grp6_one_reg_one_ireta-Blind reg = search (blind_rules, gen_32-Blind lib laws) depth 14

  visit_grp6_one_idsta_one_reg-Blind : (reg : String) → Blind (visit_grp6_one_idsta_one_reg lib reg)
  unfolding visit_grp6_one_idsta_one_reg encode_instr_opcode_group_6
  visit_grp6_one_idsta_one_reg-Blind reg = search (blind_rules, gen_32-Blind lib laws) depth 14

  visit_grp6_one_reg_one_idsta-Blind : (reg : String) → Blind (visit_grp6_one_reg_one_idsta lib reg)
  unfolding visit_grp6_one_reg_one_idsta encode_instr_opcode_group_6
  visit_grp6_one_reg_one_idsta-Blind reg = search (blind_rules, gen_32-Blind lib laws) depth 14

  pub visit_instruction-Blind : (i : Instruction) → Blind (visit_instruction lib i)
  unfolding visit_instruction
  visit_instruction-Blind (grp0_three_regs tok a b c) =
      visit_grp0_three_regs-Blind tok (a ∷ b ∷ c ∷ [])
  visit_instruction-Blind (grp1_two_regs_one_imm tok a b e) =
      visit_grp1_two_regs_one_imm-Blind tok (a ∷ b ∷ []) e
  visit_instruction-Blind (grp1_two_regs_one_simm tok a b e) =
      visit_grp1_two_regs_one_simm-Blind tok (a ∷ b ∷ []) e
  visit_instruction-Blind (grp1_one_reg_one_pc_one_simm tok a e) =
      visit_grp1_one_reg_one_pc_one_simm-Blind tok a e
  visit_instruction-Blind (grp1_one_reg_one_imm tok a e) = visit_grp1_one_reg_one_imm-Blind tok a e
  visit_instruction-Blind (grp2_branch tok a b e) = visit_grp2_branch-Blind tok (a ∷ b ∷ []) e
  visit_instruction-Blind (grp3_jump tok a b c) = visit_grp3_jump-Blind tok (a ∷ b ∷ c ∷ [])
  visit_instruction-Blind (grp4_call tok a b c) = visit_grp4_call-Blind tok (a ∷ b ∷ c ∷ [])
  visit_instruction-Blind (grp5_three_regs_ldst tok a b c) =
      visit_grp5_three_regs_ldst-Blind tok (a ∷ b ∷ c ∷ [])
  visit_instruction-Blind (grp5_two_regs_one_simm12_ldst tok a b e) =
      visit_grp5_two_regs_one_simm12_ldst-Blind tok (a ∷ b ∷ []) e
  visit_instruction-Blind (grp6_no_args tok) = visit_grp6_no_args-Blind tok
  visit_instruction-Blind (grp6_one_ireta_one_reg reg) = visit_grp6_one_ireta_one_reg-Blind reg
  visit_instruction-Blind (grp6_one_reg_one_ireta reg) = visit_grp6_one_reg_one_ireta-Blind reg
  visit_instruction-Blind (grp6_one_idsta_one_reg reg) = visit_grp6_one_idsta_one_reg-Blind reg
  visit_instruction-Blind (grp6_one_reg_one_idsta reg) = visit_grp6_one_reg_one_idsta-Blind reg
