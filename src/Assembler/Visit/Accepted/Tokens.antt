-- ===== src/Assembler/Visit/Accepted/Tokens.antt =====
-- What an instruction of AssemblerGrammar.g4 is made of: names, registers and expressions that
-- assembler_class.cpp finds.
use frost32_cpu.Prelude.{ℕ, ◌≡◌, String, List, true, not, ◌&&◌, if◌then◌else◌}
use frost32_cpu.Prelude.Int.{ℤ}
use frost32_cpu.Prelude.Text.{elem, lookup, str_eq}
use frost32_cpu.Orange.{Orange}
use frost32_cpu.Outcome.{Outcome, ok, at}
use frost32_cpu.Encoding.{encoding_stuff}
use frost32_cpu.Assembler.{Assembler}
use frost32_cpu.Assembler.Syntax.{Expr}
use frost32_cpu.Assembler.Encode.{encode_alu_op_two_regs_one_imm}
use frost32_cpu.Assembler.Expr.Value.{eval_expr}
use frost32_cpu.Assembler.Expr.Steps.{env_of}
use frost32_cpu.Assembler.Visit.Accepted.Steps.{Accepts, accept_rules, IsReg, lift_if-Accepts}

abbrev pub Reg : String → Type 0
Reg reg = (r : ℕ) × IsReg reg r

abbrev pub HasValue : Assembler → Expr → Type 0
HasValue s e = (n : ℤ) × (eval_expr (env_of s) e ≡ ok n)

abbrev pub IsOneOf : String → List String → Type 0
IsOneOf tok tokens = elem tok tokens ≡ true

-- A name of the table of group 0.
abbrev pub HasOpcode : String → Type 0
HasOpcode tok = (opcode : ℕ) × (at (lookup tok encoding_stuff.iog0_three_regs_map) ≡ ok opcode)

-- The opcode that `__encode_alu_op_two_regs_one_imm` looks a name up to.
abbrev pub alu_opcode : String → Outcome ℕ
alu_opcode name =
    if not (str_eq name "sltsi") && not (str_eq name "sgtsi")
    then at (lookup name encoding_stuff.iog1_two_regs_one_imm_map)
    else at (lookup name encoding_stuff.iog1_two_regs_one_simm_map)

module _ (lib : Orange) (s : Assembler) where
  pub encode_alu_op_two_regs_one_imm-Accepts :
      (name : String) (a b : ℕ) (n : ℤ) (opcode : ℕ)
      → alu_opcode name ≡ ok opcode
      → Accepts (encode_alu_op_two_regs_one_imm lib name a b n) s
  unfolding encode_alu_op_two_regs_one_imm
  encode_alu_op_two_regs_one_imm-Accepts name a b n opcode e =
      lift_if-Accepts (not (str_eq name "sltsi") && not (str_eq name "sgtsi")) _ _ _ _ s opcode e
        (search accept_rules) (search accept_rules)
