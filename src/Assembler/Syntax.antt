-- ===== src/Assembler/Syntax.antt =====
-- The parse trees of AssemblerGrammar.g4, in assembler_disassembler/src, that the visitors of
-- assembler_class.cpp go through: a constructor for each alternative that a visitor tells apart,
-- and a text for each token whose text is read.
use frost32_cpu.Prelude.{ℕ, List, String}

-- The text of a number token: its characters.
pub data NumExpr : Type 0 where
  dec_num hex_num bin_num : List ℕ → NumExpr

pub data IdentName : Type 0 where
  tok_ident instr_name pseudo_instr_name tok_reg tok_pc_reg tok_ireta_reg tok_idsta_reg :
      String → IdentName

mutual
  pub data Expr : Type 0 where
    expr_logical : ExprLogical → Expr
    op_logical : Expr → String → ExprLogical → Expr

  pub data ExprLogical : Type 0 where
    expr_compare : ExprCompare → ExprLogical
    op_compare : ExprLogical → String → ExprCompare → ExprLogical

  pub data ExprCompare : Type 0 where
    expr_add_sub : ExprAddSub → ExprCompare
    expr_just_add expr_just_sub : ExprAddSub → ExprCompare → ExprCompare

  pub data ExprAddSub : Type 0 where
    expr_mul_div_mod_etc : ExprMulDivModEtc → ExprAddSub
    op_mul_div_mod op_bitwise : ExprAddSub → String → ExprMulDivModEtc → ExprAddSub

  pub data ExprMulDivModEtc : Type 0 where
    expr_unary : ExprUnary → ExprMulDivModEtc
    num_expr : NumExpr → ExprMulDivModEtc
    ident_name : IdentName → ExprMulDivModEtc
    curr_pc : ExprMulDivModEtc
    paren : Expr → ExprMulDivModEtc

  pub data ExprUnary : Type 0 where
    expr_bit_invert expr_negate expr_log_not : Expr → ExprUnary

-- A text for the name of the instruction and for each register, in their order.
pub data Instruction : Type 0 where
  grp0_three_regs : String → String → String → String → Instruction
  grp1_two_regs_one_imm grp1_two_regs_one_simm : String → String → String → Expr → Instruction
  grp1_one_reg_one_pc_one_simm grp1_one_reg_one_imm : String → String → Expr → Instruction
  grp2_branch : String → String → String → Expr → Instruction
  grp3_jump grp4_call : String → String → String → String → Instruction
  grp5_three_regs_ldst : String → String → String → String → Instruction
  grp5_two_regs_one_simm12_ldst : String → String → String → Expr → Instruction
  grp6_no_args : String → Instruction
  grp6_one_ireta_one_reg grp6_one_reg_one_ireta : String → Instruction
  grp6_one_idsta_one_reg grp6_one_reg_one_idsta : String → Instruction

pub data PseudoInstruction : Type 0 where
  inv : String → String → PseudoInstruction
  invi : String → Expr → PseudoInstruction
  grp_cpy_reg : String → String → PseudoInstruction
  grp_cpy_pc : String → PseudoInstruction
  cpyi cpya : String → Expr → PseudoInstruction
  bra : Expr → PseudoInstruction
  jmp call : String → PseudoInstruction
  jmpa calla : Expr → PseudoInstruction
  jmpa_calla_conditional : String → String → String → Expr → PseudoInstruction
  inc_dec : String → String → PseudoInstruction
  alu_op_two_reg : String → String → String → PseudoInstruction
  alu_op_one_reg_one_imm alu_op_one_reg_one_simm : String → String → Expr → PseudoInstruction

pub data Directive : Type 0 where
  dot_org dot_space : Expr → Directive
  dot_db dot_db16 dot_db8 : List Expr → Directive

mutual
  pub data Line : Type 0 where
    scoped_lines : Lines → Line
    label : IdentName → Line
    instruction : Instruction → Line
    pseudo_instruction : PseudoInstruction → Line
    directive : Directive → Line
    blank : Line

  pub data Lines : Type 0 where
    no_lines : Lines
    line_then : Line → Lines → Lines
