-- ===== src/Assembler/Visit/Accepted/Registers.antt =====
-- The visitors of assembler_class.cpp of instructions without an expression, where they accept.
use frost32_cpu.Prelude.{refl, String, [], ◌∷◌}
use frost32_cpu.Prelude.Text.{lookup}
use frost32_cpu.Orange.{Orange}
use frost32_cpu.Outcome.{at}
use frost32_cpu.Encoding.{encoding_stuff}
use frost32_cpu.Assembler.{Assembler}
use frost32_cpu.Assembler.Encode.{encode_jump, encode_call, encode_ldst_three_regs}
use frost32_cpu.Assembler.Emits.{InScope}
use frost32_cpu.Assembler.Visit.Accepted.Steps.{Accepts, accept_rules, regs_three, token_found}
use frost32_cpu.Assembler.Visit.{
  three_regs_tokens, jump_tokens, call_tokens, three_regs_ldst_tokens, visit_grp0_three_regs,
  visit_grp3_jump, visit_grp4_call, visit_grp5_three_regs_ldst, visit_grp6_no_args,
  visit_grp6_one_ireta_one_reg, visit_grp6_one_reg_one_ireta, visit_grp6_one_idsta_one_reg,
  visit_grp6_one_reg_one_idsta,
}
use frost32_cpu.Assembler.Visit.Accepted.Tokens.{Reg, IsOneOf, HasOpcode}

module _ (lib : Orange) (s : Assembler) where
  pub visit_grp0_three_regs-Accepts :
      InScope s
      → (tok a b c : String) → IsOneOf tok three_regs_tokens × HasOpcode tok × Reg a × Reg b × Reg c
      → Accepts (visit_grp0_three_regs lib tok (a ∷ b ∷ c ∷ [])) s
  unfolding visit_grp0_three_regs
  visit_grp0_three_regs-Accepts scope tok a b c (t, (_, o), (ra, ea), (rb, eb), (rc, ec)) =
      let regs = regs_three a b c ra rb rc ea eb ec in
      search (accept_rules, t, o, regs, refl) depth 14

  pub visit_grp3_jump-Accepts :
      InScope s
      → (tok a b c : String) → IsOneOf tok jump_tokens × Reg a × Reg b × Reg c
      → Accepts (visit_grp3_jump lib tok (a ∷ b ∷ c ∷ [])) s
  unfolding visit_grp3_jump encode_jump
  visit_grp3_jump-Accepts scope tok a b c (t, (ra, ea), (rb, eb), (rc, ec)) =
      let (opcode, o) =
        token_found (λ x. at (lookup x encoding_stuff.iog3_jump_map)) tok jump_tokens refl t in
      let regs = regs_three a b c ra rb rc ea eb ec in
      search (accept_rules, t, o, regs, refl) depth 14

  pub visit_grp4_call-Accepts :
      InScope s
      → (tok a b c : String) → IsOneOf tok call_tokens × Reg a × Reg b × Reg c
      → Accepts (visit_grp4_call lib tok (a ∷ b ∷ c ∷ [])) s
  unfolding visit_grp4_call encode_call
  visit_grp4_call-Accepts scope tok a b c (t, (ra, ea), (rb, eb), (rc, ec)) =
      let (opcode, o) =
        token_found (λ x. at (lookup x encoding_stuff.iog4_call_map)) tok call_tokens refl t in
      let regs = regs_three a b c ra rb rc ea eb ec in
      search (accept_rules, t, o, regs, refl) depth 14

  pub visit_grp5_three_regs_ldst-Accepts :
      InScope s
      → (tok a b c : String) → IsOneOf tok three_regs_ldst_tokens × Reg a × Reg b × Reg c
      → Accepts (visit_grp5_three_regs_ldst lib tok (a ∷ b ∷ c ∷ [])) s
  unfolding visit_grp5_three_regs_ldst encode_ldst_three_regs
  visit_grp5_three_regs_ldst-Accepts scope tok a b c (t, (ra, ea), (rb, eb), (rc, ec)) =
      let (opcode, o) =
        token_found (λ x. at (lookup x encoding_stuff.iog5_three_regs_ldst_map)) tok
          three_regs_ldst_tokens refl t in
      let regs = regs_three a b c ra rb rc ea eb ec in
      search (accept_rules, t, o, regs, refl) depth 14

  pub visit_grp6_no_args-Accepts :
      InScope s
      → (tok : String) → IsOneOf tok ("ei" ∷ "di" ∷ "reti" ∷ [])
      → Accepts (visit_grp6_no_args lib tok) s
  unfolding visit_grp6_no_args
  visit_grp6_no_args-Accepts scope tok t =
      let (opcode, o) =
        token_found (λ x. at (lookup x encoding_stuff.iog6_no_args_map)) tok
          ("ei" ∷ "di" ∷ "reti" ∷ []) refl t in
      search (accept_rules, t, o, refl) depth 14

  pub visit_grp6_one_ireta_one_reg-Accepts :
      InScope s → (a : String) → Reg a → Accepts (visit_grp6_one_ireta_one_reg lib a) s
  unfolding visit_grp6_one_ireta_one_reg
  visit_grp6_one_ireta_one_reg-Accepts scope a (ra, ea) =
      let (opcode, o) =
        token_found (λ x. at (lookup x encoding_stuff.iog6_one_ireta_one_reg_map)) "cpy"
          ("cpy" ∷ []) refl refl in
      search (accept_rules, o, ea, refl) depth 14

  pub visit_grp6_one_reg_one_ireta-Accepts :
      InScope s → (a : String) → Reg a → Accepts (visit_grp6_one_reg_one_ireta lib a) s
  unfolding visit_grp6_one_reg_one_ireta
  visit_grp6_one_reg_one_ireta-Accepts scope a (ra, ea) =
      let (opcode, o) =
        token_found (λ x. at (lookup x encoding_stuff.iog6_one_reg_one_ireta_map)) "cpy"
          ("cpy" ∷ []) refl refl in
      search (accept_rules, o, ea, refl) depth 14

  pub visit_grp6_one_idsta_one_reg-Accepts :
      InScope s → (a : String) → Reg a → Accepts (visit_grp6_one_idsta_one_reg lib a) s
  unfolding visit_grp6_one_idsta_one_reg
  visit_grp6_one_idsta_one_reg-Accepts scope a (ra, ea) =
      let (opcode, o) =
        token_found (λ x. at (lookup x encoding_stuff.iog6_one_idsta_one_reg_map)) "cpy"
          ("cpy" ∷ []) refl refl in
      search (accept_rules, o, ea, refl) depth 14

  pub visit_grp6_one_reg_one_idsta-Accepts :
      InScope s → (a : String) → Reg a → Accepts (visit_grp6_one_reg_one_idsta lib a) s
  unfolding visit_grp6_one_reg_one_idsta
  visit_grp6_one_reg_one_idsta-Accepts scope a (ra, ea) =
      let (opcode, o) =
        token_found (λ x. at (lookup x encoding_stuff.iog6_one_reg_one_idsta_map)) "cpy"
          ("cpy" ∷ []) refl refl in
      search (accept_rules, o, ea, refl) depth 14
