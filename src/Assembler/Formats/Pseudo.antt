-- ===== src/Assembler/Formats/Pseudo.antt =====
-- The visitors of pseudo instructions in assembler_class.cpp do not look at the format of the output.
use frost32_cpu.Prelude.{ℕ, String, List, [], ◌∷◌}
use frost32_cpu.Orange.{Orange, Laws}
use frost32_cpu.Assembler.Syntax.{
  Expr, PseudoInstruction, inv, invi, grp_cpy_reg, grp_cpy_pc, cpyi, cpya, bra, jmp, call, jmpa,
  calla, jmpa_calla_conditional, inc_dec, alu_op_two_reg, alu_op_one_reg_one_imm,
  alu_op_one_reg_one_simm,
}
use frost32_cpu.Assembler.Groups.{encode_instr_opcode_group_0, encode_instr_opcode_group_1}
use frost32_cpu.Assembler.Encode.{
  encode_inv, encode_invi, encode_cpy_ra_rb, encode_cpy_ra_pc, encode_cpyi,
}
use frost32_cpu.Assembler.Formats.{Blind, if-Blind, err-Blind, gen_32-Blind, blind_rules}
use frost32_cpu.Assembler.Formats.Expressions.{visit_value-Blind}
use frost32_cpu.Assembler.Pseudo.{
  visit_inv, visit_invi, visit_grp_cpy_reg, visit_grp_cpy_pc, visit_cpyi, visit_cpya, visit_bra,
  visit_jmp, visit_call, visit_jmpa, visit_calla, jump_or_call, visit_jmpa_calla_conditional,
  visit_inc_dec, visit_alu_op_two_reg, visit_alu_op_one_reg_one_imm, visit_alu_op_one_reg_one_simm,
  visit_pseudo_instruction,
}
use frost32_cpu.Assembler.Formats.Instructions.{
  encode_alu_op_three_regs-Blind, encode_alu_op_two_regs_one_imm-Blind,
  encode_relative_branch-Blind, encode_jump-Blind, encode_call-Blind, encode_cpya-Blind,
}

module _ (lib : Orange) (laws : Laws lib) where
  visit_inv-Blind : (regs : List String) → Blind (visit_inv lib regs)
  unfolding visit_inv encode_inv
  visit_inv-Blind regs = search (blind_rules, encode_alu_op_three_regs-Blind lib laws) depth 14

  visit_invi-Blind : (reg : String) (e : Expr) → Blind (visit_invi lib reg e)
  unfolding visit_invi encode_invi
  visit_invi-Blind reg e =
      search (blind_rules, encode_alu_op_two_regs_one_imm-Blind lib laws, visit_value-Blind) depth
        14

  visit_grp_cpy_reg-Blind : (regs : List String) → Blind (visit_grp_cpy_reg lib regs)
  unfolding visit_grp_cpy_reg encode_cpy_ra_rb encode_instr_opcode_group_0
  visit_grp_cpy_reg-Blind regs = search (blind_rules, gen_32-Blind lib laws) depth 14

  visit_grp_cpy_pc-Blind : (regs : List String) → Blind (visit_grp_cpy_pc lib regs)
  unfolding visit_grp_cpy_pc encode_cpy_ra_pc encode_instr_opcode_group_1
  visit_grp_cpy_pc-Blind regs = search (blind_rules, gen_32-Blind lib laws) depth 14

  visit_cpyi-Blind : (reg : String) (e : Expr) → Blind (visit_cpyi lib reg e)
  unfolding visit_cpyi encode_cpyi
  visit_cpyi-Blind reg e =
      search (blind_rules, encode_alu_op_two_regs_one_imm-Blind lib laws, visit_value-Blind) depth
        14

  visit_cpya-Blind : (reg : String) (e : Expr) → Blind (visit_cpya lib reg e)
  unfolding visit_cpya
  visit_cpya-Blind reg e =
      search (blind_rules, encode_cpya-Blind lib laws, visit_value-Blind) depth 14

  visit_bra-Blind : (e : Expr) → Blind (visit_bra lib e)
  unfolding visit_bra
  visit_bra-Blind e =
      search (blind_rules, encode_relative_branch-Blind lib laws, visit_value-Blind) depth 14

  visit_jmp-Blind : (reg : String) → Blind (visit_jmp lib reg)
  unfolding visit_jmp
  visit_jmp-Blind reg = search (blind_rules, encode_jump-Blind lib laws) depth 14

  visit_call-Blind : (reg : String) → Blind (visit_call lib reg)
  unfolding visit_call
  visit_call-Blind reg = search (blind_rules, encode_call-Blind lib laws) depth 14

  visit_jmpa-Blind : (e : Expr) → Blind (visit_jmpa lib e)
  unfolding visit_jmpa
  visit_jmpa-Blind e =
      search
        (blind_rules, encode_cpya-Blind lib laws, encode_jump-Blind lib laws, visit_value-Blind)
        depth 14

  visit_calla-Blind : (e : Expr) → Blind (visit_calla lib e)
  unfolding visit_calla
  visit_calla-Blind e =
      search
        (blind_rules, encode_cpya-Blind lib laws, encode_call-Blind lib laws, visit_value-Blind)
        depth 14

  jump_or_call-Blind : (tok : String) (regs : List ℕ) → Blind (jump_or_call lib tok regs)
  unfolding jump_or_call
  jump_or_call-Blind tok regs =
      search
        (blind_rules, if-Blind, err-Blind, encode_jump-Blind lib laws, encode_call-Blind lib laws)
        depth 14

  visit_jmpa_calla_conditional-Blind :
      (tok : String) (regs : List String) (e : Expr)
      → Blind (visit_jmpa_calla_conditional lib tok regs e)
  unfolding visit_jmpa_calla_conditional
  visit_jmpa_calla_conditional-Blind tok regs e =
      search (blind_rules, encode_cpya-Blind lib laws, jump_or_call-Blind, visit_value-Blind) depth
        14

  visit_inc_dec-Blind : (tok reg : String) → Blind (visit_inc_dec lib tok reg)
  unfolding visit_inc_dec
  visit_inc_dec-Blind tok reg =
      search (blind_rules, if-Blind, err-Blind, encode_alu_op_two_regs_one_imm-Blind lib laws) depth
        14

  visit_alu_op_two_reg-Blind :
      (tok : String) (regs : List String) → Blind (visit_alu_op_two_reg lib tok regs)
  unfolding visit_alu_op_two_reg
  visit_alu_op_two_reg-Blind tok regs =
      search (blind_rules, encode_alu_op_three_regs-Blind lib laws) depth 14

  visit_alu_op_one_reg_one_imm-Blind :
      (tok reg : String) (e : Expr) → Blind (visit_alu_op_one_reg_one_imm lib tok reg e)
  unfolding visit_alu_op_one_reg_one_imm
  visit_alu_op_one_reg_one_imm-Blind tok reg e =
      search (blind_rules, encode_alu_op_two_regs_one_imm-Blind lib laws, visit_value-Blind) depth
        14

  visit_alu_op_one_reg_one_simm-Blind :
      (tok reg : String) (e : Expr) → Blind (visit_alu_op_one_reg_one_simm lib tok reg e)
  unfolding visit_alu_op_one_reg_one_simm
  visit_alu_op_one_reg_one_simm-Blind tok reg e =
      search (blind_rules, encode_alu_op_two_regs_one_imm-Blind lib laws, visit_value-Blind) depth
        14

  pub visit_pseudo_instruction-Blind :
      (p : PseudoInstruction) → Blind (visit_pseudo_instruction lib p)
  unfolding visit_pseudo_instruction
  visit_pseudo_instruction-Blind (inv a b) = visit_inv-Blind (a ∷ b ∷ [])
  visit_pseudo_instruction-Blind (invi a e) = visit_invi-Blind a e
  visit_pseudo_instruction-Blind (grp_cpy_reg a b) = visit_grp_cpy_reg-Blind (a ∷ b ∷ [])
  visit_pseudo_instruction-Blind (grp_cpy_pc a) = visit_grp_cpy_pc-Blind (a ∷ [])
  visit_pseudo_instruction-Blind (cpyi a e) = visit_cpyi-Blind a e
  visit_pseudo_instruction-Blind (cpya a e) = visit_cpya-Blind a e
  visit_pseudo_instruction-Blind (bra e) = visit_bra-Blind e
  visit_pseudo_instruction-Blind (jmp c) = visit_jmp-Blind c
  visit_pseudo_instruction-Blind (call c) = visit_call-Blind c
  visit_pseudo_instruction-Blind (jmpa e) = visit_jmpa-Blind e
  visit_pseudo_instruction-Blind (calla e) = visit_calla-Blind e
  visit_pseudo_instruction-Blind (jmpa_calla_conditional tok a b e) =
      visit_jmpa_calla_conditional-Blind tok (a ∷ b ∷ []) e
  visit_pseudo_instruction-Blind (inc_dec tok a) = visit_inc_dec-Blind tok a
  visit_pseudo_instruction-Blind (alu_op_two_reg tok a b) =
      visit_alu_op_two_reg-Blind tok (a ∷ b ∷ [])
  visit_pseudo_instruction-Blind (alu_op_one_reg_one_imm tok a e) =
      visit_alu_op_one_reg_one_imm-Blind tok a e
  visit_pseudo_instruction-Blind (alu_op_one_reg_one_simm tok a e) =
      visit_alu_op_one_reg_one_simm-Blind tok a e
