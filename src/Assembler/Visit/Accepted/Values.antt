-- ===== src/Assembler/Visit/Accepted/Values.antt =====
-- The visitors of assembler_class.cpp of instructions with an expression, where they accept.
use frost32_cpu.Prelude.{refl, String, [], ◌∷◌}
use frost32_cpu.Prelude.Text.{lookup}
use frost32_cpu.Orange.{Orange}
use frost32_cpu.Outcome.{at}
use frost32_cpu.Encoding.{encoding_stuff}
use frost32_cpu.Assembler.{Assembler}
use frost32_cpu.Assembler.Syntax.{Expr}
use frost32_cpu.Assembler.Encode.{encode_relative_branch, encode_ldst_two_regs_one_simm}
use frost32_cpu.Assembler.Emits.{InScope}
use frost32_cpu.Assembler.Visit.Accepted.Steps.{Accepts, accept_rules, regs_two, token_found}
use frost32_cpu.Assembler.Visit.{
  two_regs_one_imm_tokens, simm_tokens, branch_tokens, two_regs_one_simm12_ldst_tokens,
  visit_grp1_two_regs_one_imm, visit_grp1_two_regs_one_simm, visit_grp1_one_reg_one_pc_one_simm,
  visit_grp1_one_reg_one_imm, visit_grp2_branch, visit_grp5_two_regs_one_simm12_ldst,
}
use frost32_cpu.Assembler.Visit.Accepted.Tokens.{
  Reg, HasValue, IsOneOf, alu_opcode, encode_alu_op_two_regs_one_imm-Accepts,
}

module _ (lib : Orange) (s : Assembler) where
  pub visit_grp1_two_regs_one_imm-Accepts :
      InScope s
      → (tok a b : String) (e : Expr)
      → IsOneOf tok two_regs_one_imm_tokens × Reg a × Reg b × HasValue s e
      → Accepts (visit_grp1_two_regs_one_imm lib tok (a ∷ b ∷ []) e) s
  unfolding visit_grp1_two_regs_one_imm
  visit_grp1_two_regs_one_imm-Accepts scope tok a b e (t, (ra, ea), (rb, eb), (n, v)) =
      let (opcode, o) = token_found alu_opcode tok two_regs_one_imm_tokens refl t in
      let regs = regs_two a b ra rb ea eb in
      search (accept_rules, t, encode_alu_op_two_regs_one_imm-Accepts, o, regs, v, scope, refl)
        depth 14

  pub visit_grp1_two_regs_one_simm-Accepts :
      InScope s
      → (tok a b : String) (e : Expr) → IsOneOf tok simm_tokens × Reg a × Reg b × HasValue s e
      → Accepts (visit_grp1_two_regs_one_simm lib tok (a ∷ b ∷ []) e) s
  unfolding visit_grp1_two_regs_one_simm
  visit_grp1_two_regs_one_simm-Accepts scope tok a b e (t, (ra, ea), (rb, eb), (n, v)) =
      let (opcode, o) = token_found alu_opcode tok simm_tokens refl t in
      let regs = regs_two a b ra rb ea eb in
      search (accept_rules, t, encode_alu_op_two_regs_one_imm-Accepts, o, regs, v, scope, refl)
        depth 14

  pub visit_grp1_one_reg_one_pc_one_simm-Accepts :
      InScope s
      → (tok a : String) (e : Expr) → IsOneOf tok ("addsi" ∷ []) × Reg a × HasValue s e
      → Accepts (visit_grp1_one_reg_one_pc_one_simm lib tok a e) s
  unfolding visit_grp1_one_reg_one_pc_one_simm
  visit_grp1_one_reg_one_pc_one_simm-Accepts scope tok a e (t, (ra, ea), (n, v)) =
      let (opcode, o) =
        token_found (λ x. at (lookup x encoding_stuff.iog1_one_reg_one_pc_one_simm_map)) tok
          ("addsi" ∷ []) refl t in
      search (accept_rules, t, o, ea, v, scope, refl) depth 14

  pub visit_grp1_one_reg_one_imm-Accepts :
      InScope s
      → (tok a : String) (e : Expr) → IsOneOf tok ("cpyhi" ∷ []) × Reg a × HasValue s e
      → Accepts (visit_grp1_one_reg_one_imm lib tok a e) s
  unfolding visit_grp1_one_reg_one_imm
  visit_grp1_one_reg_one_imm-Accepts scope tok a e (t, (ra, ea), (n, v)) =
      let (opcode, o) =
        token_found (λ x. at (lookup x encoding_stuff.iog1_one_reg_one_imm_map)) tok ("cpyhi" ∷ [])
          refl t in
      search (accept_rules, t, o, ea, v, scope, refl) depth 14

  pub visit_grp2_branch-Accepts :
      InScope s
      → (tok a b : String) (e : Expr) → IsOneOf tok branch_tokens × Reg a × Reg b × HasValue s e
      → Accepts (visit_grp2_branch lib tok (a ∷ b ∷ []) e) s
  unfolding visit_grp2_branch encode_relative_branch
  visit_grp2_branch-Accepts scope tok a b e (t, (ra, ea), (rb, eb), (n, v)) =
      let (opcode, o) =
        token_found (λ x. at (lookup x encoding_stuff.iog2_branch_map)) tok branch_tokens refl t in
      let regs = regs_two a b ra rb ea eb in
      search (accept_rules, t, o, regs, v, scope, refl) depth 14

  pub visit_grp5_two_regs_one_simm12_ldst-Accepts :
      InScope s
      → (tok a b : String) (e : Expr)
      → IsOneOf tok two_regs_one_simm12_ldst_tokens × Reg a × Reg b × HasValue s e
      → Accepts (visit_grp5_two_regs_one_simm12_ldst lib tok (a ∷ b ∷ []) e) s
  unfolding visit_grp5_two_regs_one_simm12_ldst encode_ldst_two_regs_one_simm
  visit_grp5_two_regs_one_simm12_ldst-Accepts scope tok a b e (t, (ra, ea), (rb, eb), (n, v)) =
      let (opcode, o) =
        token_found (λ x. at (lookup x encoding_stuff.iog5_two_regs_one_simm_ldst_map)) tok
          two_regs_one_simm12_ldst_tokens refl t in
      let regs = regs_two a b ra rb ea eb in
      search (accept_rules, t, o, regs, v, scope, refl) depth 14
