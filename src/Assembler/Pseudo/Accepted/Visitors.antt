-- ===== src/Assembler/Pseudo/Accepted/Visitors.antt =====
-- The visitors of the pseudo instructions in assembler_class.cpp, where they accept.
use frost32_cpu.Prelude.{refl, String, [], ◌∷◌}
use frost32_cpu.Prelude.Text.{lookup, str_eq}
use frost32_cpu.Orange.{Orange}
use frost32_cpu.Outcome.{at}
use frost32_cpu.Encoding.{encoding_stuff}
use frost32_cpu.Assembler.{Assembler}
use frost32_cpu.Assembler.Syntax.{Expr}
use frost32_cpu.Assembler.Encode.{
  encode_inv, encode_invi, encode_cpy_ra_rb, encode_cpy_ra_pc, encode_cpyi, get_reg_temp_index,
}
use frost32_cpu.Assembler.Emits.{InScope}
use frost32_cpu.Assembler.Visit.{simm_tokens}
use frost32_cpu.Assembler.Visit.Accepted.Tokens.{
  Reg, HasValue, IsOneOf, HasOpcode, alu_opcode, encode_alu_op_two_regs_one_imm-Accepts,
}
use frost32_cpu.Assembler.Visit.Accepted.Steps.{
  Accepts, accept_rules, regs_two, regs_one, token_found, then-Accepts, test-Accepts,
}
use frost32_cpu.Assembler.Pseudo.{
  two_reg_tokens, one_reg_one_imm_tokens, visit_inv, visit_invi, visit_grp_cpy_reg,
  visit_grp_cpy_pc, visit_cpyi, visit_cpya, visit_bra, visit_jmp, visit_call, visit_jmpa,
  visit_calla, visit_jmpa_calla_conditional, visit_inc_dec, visit_alu_op_two_reg,
  visit_alu_op_one_reg_one_imm, visit_alu_op_one_reg_one_simm,
}
use frost32_cpu.Assembler.Pseudo.Accepted.Encoded.{
  conditional_tokens, inc_dec_tokens, found, encode_cpya-Accepts, encode_alu_op_three_regs-Accepts,
  encode_relative_branch-Accepts, encode_jump-Accepts, encode_call-Accepts, jump_or_call-Accepts,
}

module _ (lib : Orange) (s : Assembler) where
  pub visit_inv-Accepts :
      InScope s → (a b : String) → Reg a × Reg b → Accepts (visit_inv lib (a ∷ b ∷ [])) s
  unfolding visit_inv encode_inv
  visit_inv-Accepts scope a b ((ra, ea), (rb, eb)) =
      let (_, o) = found "nor" encoding_stuff.iog0_three_regs_map refl refl in
      let regs = regs_two a b ra rb ea eb in
      search (accept_rules, encode_alu_op_three_regs-Accepts lib, o, regs, refl) depth 16

  pub visit_invi-Accepts :
      InScope s → (a : String) (e : Expr) → Reg a × HasValue s e → Accepts (visit_invi lib a e) s
  unfolding visit_invi encode_invi
  visit_invi-Accepts scope a e ((ra, ea), (n, v)) =
      let (_, o) = token_found alu_opcode "nori" ("nori" ∷ []) refl refl in
      search (accept_rules, encode_alu_op_two_regs_one_imm-Accepts, o, ea, v, scope, refl) depth 16

  pub visit_grp_cpy_reg-Accepts :
      InScope s → (a b : String) → Reg a × Reg b → Accepts (visit_grp_cpy_reg lib (a ∷ b ∷ [])) s
  unfolding visit_grp_cpy_reg encode_cpy_ra_rb
  visit_grp_cpy_reg-Accepts scope a b ((ra, ea), (rb, eb)) =
      let (_, o) = found "add" encoding_stuff.iog0_three_regs_map refl refl in
      let regs = regs_two a b ra rb ea eb in search (accept_rules, o, regs, refl) depth 16

  pub visit_grp_cpy_pc-Accepts :
      InScope s → (a : String) → Reg a → Accepts (visit_grp_cpy_pc lib (a ∷ [])) s
  unfolding visit_grp_cpy_pc encode_cpy_ra_pc
  visit_grp_cpy_pc-Accepts scope a (ra, ea) =
      let (_, o) = found "addsi" encoding_stuff.iog1_one_reg_one_pc_one_simm_map refl refl in
      let regs = regs_one a ra ea in search (accept_rules, o, regs, refl) depth 16

  pub visit_cpyi-Accepts :
      InScope s → (a : String) (e : Expr) → Reg a × HasValue s e → Accepts (visit_cpyi lib a e) s
  unfolding visit_cpyi encode_cpyi
  visit_cpyi-Accepts scope a e ((ra, ea), (n, v)) =
      let (_, o) = token_found alu_opcode "addi" ("addi" ∷ []) refl refl in
      search (accept_rules, encode_alu_op_two_regs_one_imm-Accepts, o, ea, v, scope, refl) depth 16

  pub visit_cpya-Accepts :
      InScope s → (a : String) (e : Expr) → Reg a × HasValue s e → Accepts (visit_cpya lib a e) s
  unfolding visit_cpya
  visit_cpya-Accepts scope a e ((ra, ea), (n, v)) =
      search (accept_rules, encode_cpya-Accepts lib, ea, v, scope, refl) depth 16

  pub visit_bra-Accepts : InScope s → (e : Expr) → HasValue s e → Accepts (visit_bra lib e) s
  unfolding visit_bra
  visit_bra-Accepts scope e (n, v) =
      let (_, o) = found "beq" encoding_stuff.iog2_branch_map refl refl in
      search (accept_rules, encode_relative_branch-Accepts lib, o, v, scope, refl) depth 16

  pub visit_jmp-Accepts : InScope s → (c : String) → Reg c → Accepts (visit_jmp lib c) s
  unfolding visit_jmp
  visit_jmp-Accepts scope c (rc, ec) =
      let (_, o) = found "jeq" encoding_stuff.iog3_jump_map refl refl in
      search (accept_rules, encode_jump-Accepts lib, o, ec, refl) depth 16

  pub visit_call-Accepts : InScope s → (c : String) → Reg c → Accepts (visit_call lib c) s
  unfolding visit_call
  visit_call-Accepts scope c (rc, ec) =
      let (_, o) = found "ceq" encoding_stuff.iog4_call_map refl refl in
      search (accept_rules, encode_call-Accepts lib, o, ec, refl) depth 16

  pub visit_jmpa-Accepts : InScope s → (e : Expr) → HasValue s e → Accepts (visit_jmpa lib e) s
  unfolding visit_jmpa get_reg_temp_index
  visit_jmpa-Accepts scope e (n, v) =
      let (_, temp) =
        token_found (λ x. at (lookup x encoding_stuff.reg_names_map)) "temp" ("temp" ∷ []) refl
          refl in
      let (_, o) = found "jeq" encoding_stuff.iog3_jump_map refl refl in
      search
        (
          accept_rules,
          temp,
          o,
          then-Accepts,
          encode_cpya-Accepts lib,
          encode_jump-Accepts lib,
          v,
          scope,
          refl,
        )
        depth 16

  pub visit_calla-Accepts : InScope s → (e : Expr) → HasValue s e → Accepts (visit_calla lib e) s
  unfolding visit_calla get_reg_temp_index
  visit_calla-Accepts scope e (n, v) =
      let (_, temp) =
        token_found (λ x. at (lookup x encoding_stuff.reg_names_map)) "temp" ("temp" ∷ []) refl
          refl in
      let (_, o) = found "ceq" encoding_stuff.iog4_call_map refl refl in
      search
        (
          accept_rules,
          temp,
          o,
          then-Accepts,
          encode_cpya-Accepts lib,
          encode_call-Accepts lib,
          v,
          scope,
          refl,
        )
        depth 16

  pub visit_jmpa_calla_conditional-Accepts :
      InScope s
      → (tok a b : String) (e : Expr)
      → IsOneOf tok conditional_tokens × Reg a × Reg b × HasValue s e
      → Accepts (visit_jmpa_calla_conditional lib tok (a ∷ b ∷ []) e) s
  unfolding visit_jmpa_calla_conditional get_reg_temp_index
  visit_jmpa_calla_conditional-Accepts scope tok a b e (t, (ra, ea), (rb, eb), (n, v)) =
      let (_, temp) =
        token_found (λ x. at (lookup x encoding_stuff.reg_names_map)) "temp" ("temp" ∷ []) refl
          refl in
      let regs = regs_two a b ra rb ea eb in
      search
        (
          accept_rules,
          temp,
          t,
          then-Accepts,
          encode_cpya-Accepts lib,
          jump_or_call-Accepts lib,
          regs,
          v,
          scope,
          refl,
        )
        depth 16

  pub visit_inc_dec-Accepts :
      InScope s
      → (tok a : String) → IsOneOf tok inc_dec_tokens × Reg a
      → Accepts (visit_inc_dec lib tok a) s
  unfolding visit_inc_dec
  visit_inc_dec-Accepts scope tok a (t, (ra, ea)) =
      let (_, o) = token_found alu_opcode "addi" ("addi" ∷ []) refl refl in
      let (_, q) = token_found alu_opcode "subi" ("subi" ∷ []) refl refl in
      test-Accepts (str_eq tok "inc") _ _ _ s t
        (search (accept_rules, ea, o, encode_alu_op_two_regs_one_imm-Accepts))
        (λ t.
          test-Accepts (str_eq tok "dec") _ _ _ s t
            (search (accept_rules, ea, q, encode_alu_op_two_regs_one_imm-Accepts)) (λ t. cc))

  pub visit_alu_op_two_reg-Accepts :
      InScope s
      → (tok a b : String) → IsOneOf tok two_reg_tokens × HasOpcode tok × Reg a × Reg b
      → Accepts (visit_alu_op_two_reg lib tok (a ∷ b ∷ [])) s
  unfolding visit_alu_op_two_reg
  visit_alu_op_two_reg-Accepts scope tok a b (t, (_, o), (ra, ea), (rb, eb)) =
      let regs = regs_two a b ra rb ea eb in
      search (accept_rules, t, o, encode_alu_op_three_regs-Accepts lib, regs, refl) depth 16

  pub visit_alu_op_one_reg_one_imm-Accepts :
      InScope s
      → (tok a : String) (e : Expr) → IsOneOf tok one_reg_one_imm_tokens × Reg a × HasValue s e
      → Accepts (visit_alu_op_one_reg_one_imm lib tok a e) s
  unfolding visit_alu_op_one_reg_one_imm
  visit_alu_op_one_reg_one_imm-Accepts scope tok a e (t, (ra, ea), (n, v)) =
      let (_, o) = token_found alu_opcode tok one_reg_one_imm_tokens refl t in
      search (accept_rules, t, o, encode_alu_op_two_regs_one_imm-Accepts, ea, v, scope, refl) depth
        16

  pub visit_alu_op_one_reg_one_simm-Accepts :
      InScope s
      → (tok a : String) (e : Expr) → IsOneOf tok simm_tokens × Reg a × HasValue s e
      → Accepts (visit_alu_op_one_reg_one_simm lib tok a e) s
  unfolding visit_alu_op_one_reg_one_simm
  visit_alu_op_one_reg_one_simm-Accepts scope tok a e (t, (ra, ea), (n, v)) =
      let (_, o) = token_found alu_opcode tok simm_tokens refl t in
      search (accept_rules, t, o, encode_alu_op_two_regs_one_imm-Accepts, ea, v, scope, refl) depth
        16
