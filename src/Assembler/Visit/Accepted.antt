-- ===== src/Assembler/Visit/Accepted.antt =====
-- Which instructions the visitors of assembler_class.cpp accept: by the name, the registers and the
-- expression.
pub mod Steps
pub mod Tokens
pub mod Registers
pub mod Values
use mathlib.Core.Path.{subst}
use frost32_cpu.Prelude.{◌≡◌, [], ◌∷◌}
use frost32_cpu.Orange.{Orange, Laws}
use frost32_cpu.Outcome.{ok, at}
use frost32_cpu.Assembler.{Assembler}
use frost32_cpu.Assembler.Syntax.{
  Instruction, grp0_three_regs, grp1_two_regs_one_imm, grp1_two_regs_one_simm,
  grp1_one_reg_one_pc_one_simm, grp1_one_reg_one_imm, grp2_branch, grp3_jump, grp4_call,
  grp5_three_regs_ldst, grp5_two_regs_one_simm12_ldst, grp6_no_args, grp6_one_ireta_one_reg,
  grp6_one_reg_one_ireta, grp6_one_idsta_one_reg, grp6_one_reg_one_idsta,
}
use frost32_cpu.Assembler.Emits.{Emits, Ends, InScope}
use frost32_cpu.Assembler.Visit.Sizes.{visit_instruction-Post}
use frost32_cpu.Assembler.Visit.Accepted.Steps.{Accepts}
use frost32_cpu.Assembler.Visit.{
  three_regs_tokens, two_regs_one_imm_tokens, simm_tokens, branch_tokens, jump_tokens, call_tokens,
  three_regs_ldst_tokens, two_regs_one_simm12_ldst_tokens, visit_instruction,
}
use frost32_cpu.Assembler.Visit.Accepted.Tokens.{Reg, HasValue, IsOneOf, HasOpcode}
use frost32_cpu.Assembler.Visit.Accepted.Registers.{
  visit_grp0_three_regs-Accepts, visit_grp3_jump-Accepts, visit_grp4_call-Accepts,
  visit_grp5_three_regs_ldst-Accepts, visit_grp6_no_args-Accepts,
  visit_grp6_one_ireta_one_reg-Accepts, visit_grp6_one_reg_one_ireta-Accepts,
  visit_grp6_one_idsta_one_reg-Accepts, visit_grp6_one_reg_one_idsta-Accepts,
}
use frost32_cpu.Assembler.Visit.Accepted.Values.{
  visit_grp1_two_regs_one_imm-Accepts, visit_grp1_two_regs_one_simm-Accepts,
  visit_grp1_one_reg_one_pc_one_simm-Accepts, visit_grp1_one_reg_one_imm-Accepts,
  visit_grp2_branch-Accepts, visit_grp5_two_regs_one_simm12_ldst-Accepts,
}

-- A name that the visitor has a token for and that, in group 0, the table has, registers of the
-- table, and an expression with a value.
abbrev pub IsAccepted : Assembler → Instruction → Type 0
IsAccepted s (grp0_three_regs tok a b c) =
    IsOneOf tok three_regs_tokens × HasOpcode tok × Reg a × Reg b × Reg c
IsAccepted s (grp1_two_regs_one_imm tok a b e) =
    IsOneOf tok two_regs_one_imm_tokens × Reg a × Reg b × HasValue s e
IsAccepted s (grp1_two_regs_one_simm tok a b e) =
    IsOneOf tok simm_tokens × Reg a × Reg b × HasValue s e
IsAccepted s (grp1_one_reg_one_pc_one_simm tok a e) =
    IsOneOf tok ("addsi" ∷ []) × Reg a × HasValue s e
IsAccepted s (grp1_one_reg_one_imm tok a e) = IsOneOf tok ("cpyhi" ∷ []) × Reg a × HasValue s e
IsAccepted s (grp2_branch tok a b e) = IsOneOf tok branch_tokens × Reg a × Reg b × HasValue s e
IsAccepted s (grp3_jump tok a b c) = IsOneOf tok jump_tokens × Reg a × Reg b × Reg c
IsAccepted s (grp4_call tok a b c) = IsOneOf tok call_tokens × Reg a × Reg b × Reg c
IsAccepted s (grp5_three_regs_ldst tok a b c) =
    IsOneOf tok three_regs_ldst_tokens × Reg a × Reg b × Reg c
IsAccepted s (grp5_two_regs_one_simm12_ldst tok a b e) =
    IsOneOf tok two_regs_one_simm12_ldst_tokens × Reg a × Reg b × HasValue s e
IsAccepted s (grp6_no_args tok) = IsOneOf tok ("ei" ∷ "di" ∷ "reti" ∷ [])
IsAccepted s (grp6_one_ireta_one_reg a) = Reg a
IsAccepted s (grp6_one_reg_one_ireta a) = Reg a
IsAccepted s (grp6_one_idsta_one_reg a) = Reg a
IsAccepted s (grp6_one_reg_one_idsta a) = Reg a

module _ (lib : Orange) (s : Assembler) where
  visit_instruction-Accepts :
      InScope s → (i : Instruction) → IsAccepted s i → Accepts (visit_instruction lib i) s
  unfolding visit_instruction
  visit_instruction-Accepts scope (grp0_three_regs tok a b c) h =
      visit_grp0_three_regs-Accepts lib s scope tok a b c h
  visit_instruction-Accepts scope (grp1_two_regs_one_imm tok a b e) h =
      visit_grp1_two_regs_one_imm-Accepts lib s scope tok a b e h
  visit_instruction-Accepts scope (grp1_two_regs_one_simm tok a b e) h =
      visit_grp1_two_regs_one_simm-Accepts lib s scope tok a b e h
  visit_instruction-Accepts scope (grp1_one_reg_one_pc_one_simm tok a e) h =
      visit_grp1_one_reg_one_pc_one_simm-Accepts lib s scope tok a e h
  visit_instruction-Accepts scope (grp1_one_reg_one_imm tok a e) h =
      visit_grp1_one_reg_one_imm-Accepts lib s scope tok a e h
  visit_instruction-Accepts scope (grp2_branch tok a b e) h =
      visit_grp2_branch-Accepts lib s scope tok a b e h
  visit_instruction-Accepts scope (grp3_jump tok a b c) h =
      visit_grp3_jump-Accepts lib s scope tok a b c h
  visit_instruction-Accepts scope (grp4_call tok a b c) h =
      visit_grp4_call-Accepts lib s scope tok a b c h
  visit_instruction-Accepts scope (grp5_three_regs_ldst tok a b c) h =
      visit_grp5_three_regs_ldst-Accepts lib s scope tok a b c h
  visit_instruction-Accepts scope (grp5_two_regs_one_simm12_ldst tok a b e) h =
      visit_grp5_two_regs_one_simm12_ldst-Accepts lib s scope tok a b e h
  visit_instruction-Accepts scope (grp6_no_args tok) h =
      visit_grp6_no_args-Accepts lib s scope tok h
  visit_instruction-Accepts scope (grp6_one_ireta_one_reg a) h =
      visit_grp6_one_ireta_one_reg-Accepts lib s scope a h
  visit_instruction-Accepts scope (grp6_one_reg_one_ireta a) h =
      visit_grp6_one_reg_one_ireta-Accepts lib s scope a h
  visit_instruction-Accepts scope (grp6_one_idsta_one_reg a) h =
      visit_grp6_one_idsta_one_reg-Accepts lib s scope a h
  visit_instruction-Accepts scope (grp6_one_reg_one_idsta a) h =
      visit_grp6_one_reg_one_idsta-Accepts lib s scope a h

-- In a scope below the root of a tree, on either pass, an instruction with a name that its visitor
-- has a token for and that, in group 0, the table has an opcode for, registers of the table and an
-- expression that has a value is accepted: it moves the program counter by four modulo 2 ^ 64, on
-- the first pass outputs and warns of nothing, and leaves the stacks, the symbols and the scope as
-- before.
pub visit_instruction-IsAccepted :
    (lib : Orange) (laws : Laws lib) (s : Assembler) (i : Instruction)
    → InScope s
    → IsAccepted s i
    → (s' : Assembler) × ((visit_instruction lib i s ≡ ok (tt, s')) × Emits 4 s s')
visit_instruction-IsAccepted lib laws s i scope h =
    let a = visit_instruction-Accepts lib s scope i h in
    (
      a.end,
      (
        a.ends,
        subst (λ r. Ends r (Emits 4 s)) a.ends ((visit_instruction-Post lib laws s scope i).at),
      ),
    )
