-- ===== src/Assembler/Pseudo/Accepted.antt =====
-- Which pseudo instructions the visitors of assembler_class.cpp accept: by the name, the registers
-- and the expression.
pub mod Encoded
pub mod Visitors
use mathlib.Core.Path.{subst}
use frost32_cpu.Prelude.{◌≡◌}
use frost32_cpu.Orange.{Orange, Laws}
use frost32_cpu.Outcome.{ok, at}
use frost32_cpu.Assembler.{Assembler}
use frost32_cpu.Assembler.Syntax.{
  PseudoInstruction, inv, invi, grp_cpy_reg, grp_cpy_pc, cpyi, cpya, bra, jmp, call, jmpa, calla,
  jmpa_calla_conditional, inc_dec, alu_op_two_reg, alu_op_one_reg_one_imm, alu_op_one_reg_one_simm,
}
use frost32_cpu.Assembler.Emits.{Emits, Ends, InScope}
use frost32_cpu.Assembler.Pseudo.Sizes.{pseudo_size, visit_pseudo_instruction-Post}
use frost32_cpu.Assembler.Visit.{simm_tokens}
use frost32_cpu.Assembler.Visit.Accepted.Tokens.{Reg, HasValue, IsOneOf, HasOpcode}
use frost32_cpu.Assembler.Visit.Accepted.Steps.{Accepts}
use frost32_cpu.Assembler.Pseudo.{two_reg_tokens, one_reg_one_imm_tokens, visit_pseudo_instruction}
use frost32_cpu.Assembler.Pseudo.Accepted.Encoded.{conditional_tokens, inc_dec_tokens}
use frost32_cpu.Assembler.Pseudo.Accepted.Visitors.{
  visit_inv-Accepts, visit_invi-Accepts, visit_grp_cpy_reg-Accepts, visit_grp_cpy_pc-Accepts,
  visit_cpyi-Accepts, visit_cpya-Accepts, visit_bra-Accepts, visit_jmp-Accepts, visit_call-Accepts,
  visit_jmpa-Accepts, visit_calla-Accepts, visit_jmpa_calla_conditional-Accepts,
  visit_inc_dec-Accepts, visit_alu_op_two_reg-Accepts, visit_alu_op_one_reg_one_imm-Accepts,
  visit_alu_op_one_reg_one_simm-Accepts,
}

-- A name that the visitor has a token for and that, for an instruction of group 0, the table has,
-- registers of the table, and an expression with a value.
abbrev pub PseudoIsAccepted : Assembler → PseudoInstruction → Type 0
PseudoIsAccepted s (inv a b) = Reg a × Reg b
PseudoIsAccepted s (invi a e) = Reg a × HasValue s e
PseudoIsAccepted s (grp_cpy_reg a b) = Reg a × Reg b
PseudoIsAccepted s (grp_cpy_pc a) = Reg a
PseudoIsAccepted s (cpyi a e) = Reg a × HasValue s e
PseudoIsAccepted s (cpya a e) = Reg a × HasValue s e
PseudoIsAccepted s (bra e) = HasValue s e
PseudoIsAccepted s (jmp c) = Reg c
PseudoIsAccepted s (call c) = Reg c
PseudoIsAccepted s (jmpa e) = HasValue s e
PseudoIsAccepted s (calla e) = HasValue s e
PseudoIsAccepted s (jmpa_calla_conditional tok a b e) =
    IsOneOf tok conditional_tokens × Reg a × Reg b × HasValue s e
PseudoIsAccepted s (inc_dec tok a) = IsOneOf tok inc_dec_tokens × Reg a
PseudoIsAccepted s (alu_op_two_reg tok a b) =
    IsOneOf tok two_reg_tokens × HasOpcode tok × Reg a × Reg b
PseudoIsAccepted s (alu_op_one_reg_one_imm tok a e) =
    IsOneOf tok one_reg_one_imm_tokens × Reg a × HasValue s e
PseudoIsAccepted s (alu_op_one_reg_one_simm tok a e) =
    IsOneOf tok simm_tokens × Reg a × HasValue s e

module _ (lib : Orange) (s : Assembler) where
  visit_pseudo_instruction-Accepts :
      InScope s
      → (p : PseudoInstruction) → PseudoIsAccepted s p
      → Accepts (visit_pseudo_instruction lib p) s
  unfolding visit_pseudo_instruction
  visit_pseudo_instruction-Accepts scope (inv a b) h = visit_inv-Accepts lib s scope a b h
  visit_pseudo_instruction-Accepts scope (invi a e) h = visit_invi-Accepts lib s scope a e h
  visit_pseudo_instruction-Accepts scope (grp_cpy_reg a b) h =
      visit_grp_cpy_reg-Accepts lib s scope a b h
  visit_pseudo_instruction-Accepts scope (grp_cpy_pc a) h = visit_grp_cpy_pc-Accepts lib s scope a h
  visit_pseudo_instruction-Accepts scope (cpyi a e) h = visit_cpyi-Accepts lib s scope a e h
  visit_pseudo_instruction-Accepts scope (cpya a e) h = visit_cpya-Accepts lib s scope a e h
  visit_pseudo_instruction-Accepts scope (bra e) h = visit_bra-Accepts lib s scope e h
  visit_pseudo_instruction-Accepts scope (jmp c) h = visit_jmp-Accepts lib s scope c h
  visit_pseudo_instruction-Accepts scope (call c) h = visit_call-Accepts lib s scope c h
  visit_pseudo_instruction-Accepts scope (jmpa e) h = visit_jmpa-Accepts lib s scope e h
  visit_pseudo_instruction-Accepts scope (calla e) h = visit_calla-Accepts lib s scope e h
  visit_pseudo_instruction-Accepts scope (jmpa_calla_conditional tok a b e) h =
      visit_jmpa_calla_conditional-Accepts lib s scope tok a b e h
  visit_pseudo_instruction-Accepts scope (inc_dec tok a) h =
      visit_inc_dec-Accepts lib s scope tok a h
  visit_pseudo_instruction-Accepts scope (alu_op_two_reg tok a b) h =
      visit_alu_op_two_reg-Accepts lib s scope tok a b h
  visit_pseudo_instruction-Accepts scope (alu_op_one_reg_one_imm tok a e) h =
      visit_alu_op_one_reg_one_imm-Accepts lib s scope tok a e h
  visit_pseudo_instruction-Accepts scope (alu_op_one_reg_one_simm tok a e) h =
      visit_alu_op_one_reg_one_simm-Accepts lib s scope tok a e h

-- In a scope below the root of a tree, on either pass, a pseudo instruction with a name that its
-- visitor has a token for and that, for an instruction of group 0, the table has an opcode for,
-- registers of the table and an expression that has a value is accepted: it moves the program
-- counter by the bytes of the words that it stands for, modulo 2 ^ 64, on the first pass outputs
-- and warns of nothing, and leaves the stacks, the symbols and the scope as before.
pub visit_pseudo_instruction-IsAccepted :
    (lib : Orange) (laws : Laws lib) (s : Assembler) (p : PseudoInstruction)
    → InScope s
    → PseudoIsAccepted s p
    → (s' : Assembler) × ((visit_pseudo_instruction lib p s ≡ ok (tt, s'))
        × Emits (pseudo_size p) s s')
visit_pseudo_instruction-IsAccepted lib laws s p scope h =
    let a = visit_pseudo_instruction-Accepts lib s scope p h in
    (
      a.end,
      (
        a.ends,
        subst (λ r. Ends r (Emits (pseudo_size p) s)) a.ends
            ((visit_pseudo_instruction-Post lib laws s scope p).at),
      ),
    )
