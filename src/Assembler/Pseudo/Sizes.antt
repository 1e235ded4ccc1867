-- ===== src/Assembler/Pseudo/Sizes.antt =====
-- What the visitors of pseudo instructions in assembler_class.cpp do to the state: the words that
-- each stands for are output.
use frost32_cpu.Prelude.{ℕ, String, List, [], ◌∷◌}
use frost32_cpu.Prelude.Int.{ℤ}
use frost32_cpu.Orange.{Orange, Laws}
use frost32_cpu.Assembler.{Assembler}
use frost32_cpu.Assembler.Syntax.{
  Expr, PseudoInstruction, inv, invi, grp_cpy_reg, grp_cpy_pc, cpyi, cpya, bra, jmp, call, jmpa,
  calla, jmpa_calla_conditional, inc_dec, alu_op_two_reg, alu_op_one_reg_one_imm,
  alu_op_one_reg_one_simm,
}
use frost32_cpu.Assembler.Emit.{gen_32}
use frost32_cpu.Assembler.Groups.{encode_instr_opcode_group_0, encode_instr_opcode_group_1}
use frost32_cpu.Assembler.Encode.{
  encode_inv, encode_invi, encode_cpy_ra_rb, encode_cpy_ra_pc, encode_cpyi, encode_cpya,
}
use frost32_cpu.Assembler.Emits.{
  Emits, Post, InScope, Emits-trans, gen_32-Emits, post_rules, if-Post, err-Post, Emits-then-Post,
}
use frost32_cpu.Assembler.Visit.Sizes.{
  encode_alu_op_three_regs-Post, encode_alu_op_two_regs_one_imm-Post, encode_relative_branch-Post,
  encode_jump-Post, encode_call-Post,
}
use frost32_cpu.Assembler.Pseudo.{
  visit_inv, visit_invi, visit_grp_cpy_reg, visit_grp_cpy_pc, visit_cpyi, visit_cpya, visit_bra,
  visit_jmp, visit_call, visit_jmpa, visit_calla, jump_or_call, visit_jmpa_calla_conditional,
  visit_inc_dec, visit_alu_op_two_reg, visit_alu_op_one_reg_one_imm, visit_alu_op_one_reg_one_simm,
  visit_pseudo_instruction,
}

-- The bytes of the words that a pseudo instruction stands for.
abbrev pub pseudo_size : PseudoInstruction → ℕ
pseudo_size (cpya a e) = 8
pseudo_size (jmpa e) = 12
pseudo_size (calla e) = 12
pseudo_size (jmpa_calla_conditional tok a b e) = 12
pseudo_size _ = 4

module _ (lib : Orange) (laws : Laws lib) (s : Assembler) where
  abbrev Word : Assembler → Type 0
  Word s' = Emits 4 s s'

  two_words : (v w : ℕ) → Emits 8 s (gen_32 lib w (gen_32 lib v s))
  two_words v w =
      Emits-trans 4 4 s _ _ (gen_32-Emits lib laws v s) (gen_32-Emits lib laws w (gen_32 lib v s))

  encode_cpya-Post : (a : ℕ) (n : ℤ) → Post (encode_cpya lib a n) s (λ s'. Emits 8 s s')
  unfolding encode_cpya encode_instr_opcode_group_1
  encode_cpya-Post a n = search (post_rules, two_words)

  visit_inv-Post : (regs : List String) → Post (visit_inv lib regs) s Word
  unfolding visit_inv encode_inv
  visit_inv-Post regs = search (post_rules, encode_alu_op_three_regs-Post lib laws)

  visit_invi-Post : InScope s → (reg : String) (e : Expr) → Post (visit_invi lib reg e) s Word
  unfolding visit_invi encode_invi
  visit_invi-Post scope reg e = search (post_rules, encode_alu_op_two_regs_one_imm-Post lib laws)

  visit_grp_cpy_reg-Post : (regs : List String) → Post (visit_grp_cpy_reg lib regs) s Word
  unfolding visit_grp_cpy_reg encode_cpy_ra_rb encode_instr_opcode_group_0
  visit_grp_cpy_reg-Post regs = search (post_rules, gen_32-Emits lib laws)

  visit_grp_cpy_pc-Post : (regs : List String) → Post (visit_grp_cpy_pc lib regs) s Word
  unfolding visit_grp_cpy_pc encode_cpy_ra_pc encode_instr_opcode_group_1
  visit_grp_cpy_pc-Post regs = search (post_rules, gen_32-Emits lib laws)

  visit_cpyi-Post : InScope s → (reg : String) (e : Expr) → Post (visit_cpyi lib reg e) s Word
  unfolding visit_cpyi encode_cpyi
  visit_cpyi-Post scope reg e = search (post_rules, encode_alu_op_two_regs_one_imm-Post lib laws)

  visit_cpya-Post :
      InScope s → (reg : String) (e : Expr) → Post (visit_cpya lib reg e) s (λ s'. Emits 8 s s')
  unfolding visit_cpya
  visit_cpya-Post scope reg e = search (post_rules, encode_cpya-Post)

  visit_bra-Post : InScope s → (e : Expr) → Post (visit_bra lib e) s Word
  unfolding visit_bra
  visit_bra-Post scope e = search (post_rules, encode_relative_branch-Post lib laws)

  visit_jmp-Post : (reg : String) → Post (visit_jmp lib reg) s Word
  unfolding visit_jmp
  visit_jmp-Post reg = search (post_rules, encode_jump-Post lib laws)

  visit_call-Post : (reg : String) → Post (visit_call lib reg) s Word
  unfolding visit_call
  visit_call-Post reg = search (post_rules, encode_call-Post lib laws)

  jump_or_call-Post : (tok : String) (regs : List ℕ) → Post (jump_or_call lib tok regs) s Word
  unfolding jump_or_call
  jump_or_call-Post tok regs =
      search
        (
          post_rules,
          if-Post Word,
          err-Post Word,
          encode_jump-Post lib laws,
          encode_call-Post lib laws,
        )
        depth 9

  visit_inc_dec-Post : (tok reg : String) → Post (visit_inc_dec lib tok reg) s Word
  unfolding visit_inc_dec
  visit_inc_dec-Post tok reg =
      search (post_rules, if-Post Word, err-Post Word, encode_alu_op_two_regs_one_imm-Post lib laws)

  visit_alu_op_two_reg-Post :
      (tok : String) (regs : List String) → Post (visit_alu_op_two_reg lib tok regs) s Word
  unfolding visit_alu_op_two_reg
  visit_alu_op_two_reg-Post tok regs =
      search (post_rules, encode_alu_op_three_regs-Post lib laws) depth 9

  visit_alu_op_one_reg_one_imm-Post :
      InScope s
      → (tok reg : String) (e : Expr) → Post (visit_alu_op_one_reg_one_imm lib tok reg e) s Word
  unfolding visit_alu_op_one_reg_one_imm
  visit_alu_op_one_reg_one_imm-Post scope tok reg e =
      search (post_rules, encode_alu_op_two_regs_one_imm-Post lib laws) depth 9

  visit_alu_op_one_reg_one_simm-Post :
      InScope s
      → (tok reg : String) (e : Expr) → Post (visit_alu_op_one_reg_one_simm lib tok reg e) s Word
  unfolding visit_alu_op_one_reg_one_simm
  visit_alu_op_one_reg_one_simm-Post scope tok reg e =
      search (post_rules, encode_alu_op_two_regs_one_imm-Post lib laws) depth 9

module _ (lib : Orange) (laws : Laws lib) (s : Assembler) where
  visit_jmpa-Post : InScope s → (e : Expr) → Post (visit_jmpa lib e) s (λ s'. Emits 12 s s')
  unfolding visit_jmpa
  visit_jmpa-Post scope e =
      search (post_rules, Emits-then-Post 8 4, encode_cpya-Post lib laws, encode_jump-Post lib laws)

  visit_calla-Post : InScope s → (e : Expr) → Post (visit_calla lib e) s (λ s'. Emits 12 s s')
  unfolding visit_calla
  visit_calla-Post scope e =
      search (post_rules, Emits-then-Post 8 4, encode_cpya-Post lib laws, encode_call-Post lib laws)

  visit_jmpa_calla_conditional-Post :
      InScope s
      → (tok : String) (regs : List String) (e : Expr)
      → Post (visit_jmpa_calla_conditional lib tok regs e) s (λ s'. Emits 12 s s')
  unfolding visit_jmpa_calla_conditional
  visit_jmpa_calla_conditional-Post scope tok regs e =
      search
        (post_rules, Emits-then-Post 8 4, encode_cpya-Post lib laws, jump_or_call-Post lib laws)
        depth 9

  -- In a scope below the root of a tree, a pseudo instruction that is accepted, on either pass,
  -- moves the program counter by the bytes of the words that it stands for, modulo 2 ^ 64, and on the
  -- first pass outputs and warns of nothing; the stacks, the symbols and the scope are as before.
  pub visit_pseudo_instruction-Post :
      InScope s
      → (p : PseudoInstruction)
      → Post (visit_pseudo_instruction lib p) s (λ s'. Emits (pseudo_size p) s s')
  unfolding visit_pseudo_instruction
  visit_pseudo_instruction-Post scope (inv a b) = visit_inv-Post lib laws s (a ∷ b ∷ [])
  visit_pseudo_instruction-Post scope (invi a e) = visit_invi-Post lib laws s scope a e
  visit_pseudo_instruction-Post scope (grp_cpy_reg a b) =
      visit_grp_cpy_reg-Post lib laws s (a ∷ b ∷ [])
  visit_pseudo_instruction-Post scope (grp_cpy_pc a) = visit_grp_cpy_pc-Post lib laws s (a ∷ [])
  visit_pseudo_instruction-Post scope (cpyi a e) = visit_cpyi-Post lib laws s scope a e
  visit_pseudo_instruction-Post scope (cpya a e) = visit_cpya-Post lib laws s scope a e
  visit_pseudo_instruction-Post scope (bra e) = visit_bra-Post lib laws s scope e
  visit_pseudo_instruction-Post scope (jmp c) = visit_jmp-Post lib laws s c
  visit_pseudo_instruction-Post scope (call c) = visit_call-Post lib laws s c
  visit_pseudo_instruction-Post scope (jmpa e) = visit_jmpa-Post scope e
  visit_pseudo_instruction-Post scope (calla e) = visit_calla-Post scope e
  visit_pseudo_instruction-Post scope (jmpa_calla_conditional tok a b e) =
      visit_jmpa_calla_conditional-Post scope tok (a ∷ b ∷ []) e
  visit_pseudo_instruction-Post scope (inc_dec tok a) = visit_inc_dec-Post lib laws s tok a
  visit_pseudo_instruction-Post scope (alu_op_two_reg tok a b) =
      visit_alu_op_two_reg-Post lib laws s tok (a ∷ b ∷ [])
  visit_pseudo_instruction-Post scope (alu_op_one_reg_one_imm tok a e) =
      visit_alu_op_one_reg_one_imm-Post lib laws s scope tok a e
  visit_pseudo_instruction-Post scope (alu_op_one_reg_one_simm tok a e) =
      visit_alu_op_one_reg_one_simm-Post lib laws s scope tok a e
