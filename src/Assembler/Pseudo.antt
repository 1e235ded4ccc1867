-- ===== src/Assembler/Pseudo.antt =====
-- The visitors of the pseudo instructions in assembler_class.cpp, one for each alternative of
-- `pseudoInstruction` in AssemblerGrammar.g4. Where the grammar gives the token of an alternative,
-- the `else` of its visitor is never reached.
pub mod Sizes
pub mod Accepted
use frost32_cpu.Prelude.{ℕ, List, [], ◌∷◌, String, if◌then◌else◌}
use frost32_cpu.Prelude.Int.{pos}
use frost32_cpu.Prelude.Text.{str_eq}
use frost32_cpu.Orange.{Orange}
use frost32_cpu.Outcome.{eek}
use frost32_cpu.Assembler.{M, ◌>>=◌, ◌>>◌, err, lift, pop_str}
use frost32_cpu.Assembler.Syntax.{
  Expr, PseudoInstruction, inv, invi, grp_cpy_reg, grp_cpy_pc, cpyi, cpya, bra, jmp, call, jmpa,
  calla, jmpa_calla_conditional, inc_dec, alu_op_two_reg, alu_op_one_reg_one_imm,
  alu_op_one_reg_one_simm,
}
use frost32_cpu.Assembler.Tokens.{push_tok_if}
use frost32_cpu.Assembler.Expr.{visit_expr}
use frost32_cpu.Assembler.Encode.{
  encode_alu_op_three_regs, encode_alu_op_two_regs_one_imm, encode_inv, encode_invi,
  encode_cpy_ra_rb, encode_cpy_ra_pc, encode_cpyi, encode_cpya, encode_relative_branch, encode_jump,
  encode_call, get_reg_temp_index,
}
use frost32_cpu.Assembler.Visit.{
  get_one_reg_encoding, get_reg_encodings, reg_at, visit_value, simm_tokens,
}

abbrev pub two_reg_tokens : List String
two_reg_tokens =
    "add" ∷ "sub" ∷ "sltu" ∷ "slts" ∷ "gltu" ∷ "glts" ∷ "mul" ∷ "and" ∷ "orr" ∷ "xor" ∷ "nor"
    ∷ "lsl" ∷ "lsr" ∷ "asr" ∷ "udiv" ∷ "sdiv" ∷ []

abbrev pub one_reg_one_imm_tokens : List String
one_reg_one_imm_tokens =
    "addi" ∷ "subi" ∷ "sltui" ∷ "sgtui" ∷ "muli" ∷ "andi" ∷ "orri" ∷ "xori" ∷ "nori" ∷ "lsli"
    ∷ "lsri" ∷ "asri" ∷ []

module _ (lib : Orange) where
  unfoldable pub visit_inv : List String → M (Unit {0})
  unfolding get_reg_encodings encode_inv
  visit_inv regs = do
    reg_encodings ← lift (get_reg_encodings regs)
    a ← reg_at reg_encodings 0
    b ← reg_at reg_encodings 1
    encode_inv lib a b

  unfoldable pub visit_invi : String → Expr → M (Unit {0})
  unfolding visit_expr encode_invi
  visit_invi reg e = do
    immediate ← visit_value e
    a ← lift (get_one_reg_encoding reg)
    encode_invi lib a immediate

  -- `visitPseudoInstrOpGrpCpy` without and with `pc`.
  unfoldable pub visit_grp_cpy_reg : List String → M (Unit {0})
  unfolding get_reg_encodings encode_cpy_ra_rb
  visit_grp_cpy_reg regs = do
    reg_encodings ← lift (get_reg_encodings regs)
    a ← reg_at reg_encodings 0
    b ← reg_at reg_encodings 1
    encode_cpy_ra_rb lib a b

  unfoldable pub visit_grp_cpy_pc : List String → M (Unit {0})
  unfolding get_reg_encodings encode_cpy_ra_pc
  visit_grp_cpy_pc regs = do
    reg_encodings ← lift (get_reg_encodings regs)
    a ← reg_at reg_encodings 0
    encode_cpy_ra_pc lib a

  unfoldable pub visit_cpyi : String → Expr → M (Unit {0})
  unfolding visit_expr encode_cpyi
  visit_cpyi reg e = do
    immediate ← visit_value e
    a ← lift (get_one_reg_encoding reg)
    encode_cpyi lib a immediate

  unfoldable pub visit_cpya : String → Expr → M (Unit {0})
  unfolding visit_expr encode_cpya
  visit_cpya reg e = do
    immediate ← visit_value e
    a ← lift (get_one_reg_encoding reg)
    encode_cpya lib a immediate

  unfoldable pub visit_bra : Expr → M (Unit {0})
  unfolding visit_expr encode_relative_branch
  visit_bra e = do
    raw_immediate ← visit_value e
    encode_relative_branch lib "beq" 0x0 0x0 raw_immediate

  unfoldable pub visit_jmp : String → M (Unit {0})
  unfolding encode_jump
  visit_jmp reg = do c ← lift (get_one_reg_encoding reg); encode_jump lib "jeq" 0x0 0x0 c

  unfoldable pub visit_call : String → M (Unit {0})
  unfolding encode_call
  visit_call reg = do c ← lift (get_one_reg_encoding reg); encode_call lib "ceq" 0x0 0x0 c

  unfoldable pub visit_jmpa : Expr → M (Unit {0})
  unfolding visit_expr encode_cpya encode_jump get_reg_temp_index
  visit_jmpa e = do
    immediate ← visit_value e
    temp ← lift get_reg_temp_index
    encode_cpya lib temp immediate
    encode_jump lib "jeq" 0x0 0x0 temp

  unfoldable pub visit_calla : Expr → M (Unit {0})
  unfolding visit_expr encode_cpya encode_call get_reg_temp_index
  visit_calla e = do
    immediate ← visit_value e
    temp ← lift get_reg_temp_index
    encode_cpya lib temp immediate
    encode_call lib "ceq" 0x0 0x0 temp

  -- The chain of tests, after the address is in `temp`.
  unfoldable pub jump_or_call : String → List ℕ → M (Unit {0})
  unfolding encode_jump encode_call get_reg_temp_index
  jump_or_call tok reg_encodings = do
    temp ← lift get_reg_temp_index
    a ← reg_at reg_encodings 0
    b ← reg_at reg_encodings 1
    if str_eq tok "jmpane"
        then encode_jump lib "jne" a b temp
        else if str_eq tok "jmpaeq"
        then encode_jump lib "jeq" a b temp
        else if str_eq tok "callane"
        then encode_call lib "cne" a b temp
        else if str_eq tok "callaeq"
        then encode_call lib "ceq" a b temp
        else err (eek "visitPseudoInstrOpJmpaCallaConditional():  Eek!")

  unfoldable pub visit_jmpa_calla_conditional : String → List String → Expr → M (Unit {0})
  unfolding visit_expr get_reg_encodings encode_cpya get_reg_temp_index jump_or_call
  visit_jmpa_calla_conditional tok regs e = do
    immediate ← visit_value e
    reg_encodings ← lift (get_reg_encodings regs)
    temp ← lift get_reg_temp_index
    encode_cpya lib temp immediate
    jump_or_call tok reg_encodings

  unfoldable pub visit_inc_dec : String → String → M (Unit {0})
  unfolding encode_alu_op_two_regs_one_imm
  visit_inc_dec tok reg =
      if str_eq tok "inc"
      then (do
        a ← lift (get_one_reg_encoding reg)
        encode_alu_op_two_regs_one_imm lib "addi" a a (pos 1))
      else if str_eq tok "dec"
      then (do
        a ← lift (get_one_reg_encoding reg)
        encode_alu_op_two_regs_one_imm lib "subi" a a (pos 1))
      else err (eek "visitPseudoInstrOpIncDec():  Eek!")

  unfoldable pub visit_alu_op_two_reg : String → List String → M (Unit {0})
  unfolding push_tok_if pop_str get_reg_encodings encode_alu_op_three_regs
  visit_alu_op_two_reg tok regs = do
    push_tok_if two_reg_tokens "visitPseudoInstrOpAluOpTwoReg():  Eek!" tok
    reg_encodings ← lift (get_reg_encodings regs)
    instr_name ← pop_str
    a ← reg_at reg_encodings 0
    b ← reg_at reg_encodings 1
    encode_alu_op_three_regs lib instr_name a a b

  unfoldable pub visit_alu_op_one_reg_one_imm : String → String → Expr → M (Unit {0})
  unfolding push_tok_if pop_str visit_expr encode_alu_op_two_regs_one_imm
  visit_alu_op_one_reg_one_imm tok reg e = do
    push_tok_if one_reg_one_imm_tokens "visitPseudoInstrOpAluOpOneRegOneImm():  Eek!" tok
    immediate ← visit_value e
    instr_name ← pop_str
    a ← lift (get_one_reg_encoding reg)
    encode_alu_op_two_regs_one_imm lib instr_name a a immediate

  unfoldable pub visit_alu_op_one_reg_one_simm : String → String → Expr → M (Unit {0})
  unfolding push_tok_if pop_str visit_expr encode_alu_op_two_regs_one_imm
  visit_alu_op_one_reg_one_simm tok reg e = do
    push_tok_if simm_tokens "visitPseudoInstrOpAluOpOneRegOneSimm():  Eek!" tok
    immediate ← visit_value e
    instr_name ← pop_str
    a ← lift (get_one_reg_encoding reg)
    encode_alu_op_two_regs_one_imm lib instr_name a a immediate

  unfoldable pub visit_pseudo_instruction : PseudoInstruction → M (Unit {0})
  unfolding visit_inv visit_invi visit_grp_cpy_reg visit_grp_cpy_pc visit_cpyi visit_cpya visit_bra
      visit_jmp visit_call visit_jmpa visit_calla visit_jmpa_calla_conditional visit_inc_dec
      visit_alu_op_two_reg visit_alu_op_one_reg_one_imm visit_alu_op_one_reg_one_simm
  visit_pseudo_instruction (inv a b) = visit_inv (a ∷ b ∷ [])
  visit_pseudo_instruction (invi a e) = visit_invi a e
  visit_pseudo_instruction (grp_cpy_reg a b) = visit_grp_cpy_reg (a ∷ b ∷ [])
  visit_pseudo_instruction (grp_cpy_pc a) = visit_grp_cpy_pc (a ∷ [])
  visit_pseudo_instruction (cpyi a e) = visit_cpyi a e
  visit_pseudo_instruction (cpya a e) = visit_cpya a e
  visit_pseudo_instruction (bra e) = visit_bra e
  visit_pseudo_instruction (jmp c) = visit_jmp c
  visit_pseudo_instruction (call c) = visit_call c
  visit_pseudo_instruction (jmpa e) = visit_jmpa e
  visit_pseudo_instruction (calla e) = visit_calla e
  visit_pseudo_instruction (jmpa_calla_conditional tok a b e) =
      visit_jmpa_calla_conditional tok (a ∷ b ∷ []) e
  visit_pseudo_instruction (inc_dec tok a) = visit_inc_dec tok a
  visit_pseudo_instruction (alu_op_two_reg tok a b) = visit_alu_op_two_reg tok (a ∷ b ∷ [])
  visit_pseudo_instruction (alu_op_one_reg_one_imm tok a e) = visit_alu_op_one_reg_one_imm tok a e
  visit_pseudo_instruction (alu_op_one_reg_one_simm tok a e) = visit_alu_op_one_reg_one_simm tok a e
