-- ===== src/Assembler/Visit.antt =====
-- The visitors of the instructions proper in assembler_class.cpp, one for each alternative of
-- `instruction` in AssemblerGrammar.g4.
pub mod Names
pub mod Branches
pub mod Values
pub mod Sizes
pub mod Accepted
use frost32_cpu.Prelude.{ℕ, List, [], ◌∷◌, String, get_elem?}
use frost32_cpu.Prelude.Text.{lookup}
use frost32_cpu.Prelude.Int.{ℤ}
use frost32_cpu.Orange.{Orange}
use frost32_cpu.Outcome.{Outcome, ok, at, bind}
use frost32_cpu.Encoding.{encoding_stuff}
use frost32_cpu.Assembler.{M, ◌>>=◌, ◌>>◌, modify, lift, pop_num, pop_str}
use frost32_cpu.Assembler.Syntax.{
  Expr, Instruction, grp0_three_regs, grp1_two_regs_one_imm, grp1_two_regs_one_simm,
  grp1_one_reg_one_pc_one_simm, grp1_one_reg_one_imm, grp2_branch, grp3_jump, grp4_call,
  grp5_three_regs_ldst, grp5_two_regs_one_simm12_ldst, grp6_no_args, grp6_one_ireta_one_reg,
  grp6_one_reg_one_ireta, grp6_one_idsta_one_reg, grp6_one_reg_one_idsta,
}
use frost32_cpu.Assembler.Tokens.{push_tok_if}
use frost32_cpu.Assembler.Expr.{visit_expr}
use frost32_cpu.Assembler.Groups.{
  encode_instr_opcode_group_0, encode_instr_opcode_group_1, encode_instr_opcode_group_6,
}
use frost32_cpu.Assembler.Encode.{
  to_u32, encode_alu_op_two_regs_one_imm, encode_relative_branch, encode_jump, encode_call,
  encode_ldst_three_regs, encode_ldst_two_regs_one_simm,
}

abbrev pub get_one_reg_encoding : String → Outcome ℕ
get_one_reg_encoding reg_name = at (lookup reg_name encoding_stuff.reg_names_map)

unfoldable pub get_reg_encodings : List String → Outcome (List ℕ)
get_reg_encodings [] = ok []
get_reg_encodings (reg ∷ regs) =
    bind (get_one_reg_encoding reg) λ r. bind (get_reg_encodings regs) λ rest. ok (r ∷ rest)

-- `reg_encodings.at(i)`
abbrev pub reg_at : List ℕ → ℕ → M ℕ
reg_at reg_encodings i = lift (at (get_elem? reg_encodings i))

-- `expr->accept(this)`, then `pop_num()`.
abbrev pub visit_value : Expr → M ℤ
visit_value e = visit_expr e >>= λ _. pop_num

-- The texts of the tokens that each visitor looks for. AssemblerGrammar.g4 spells TokInstrNameSgtu
-- and TokInstrNameSgts as gltu and glts.
abbrev pub three_regs_tokens : List String
three_regs_tokens =
    "add" ∷ "sub" ∷ "sltu" ∷ "slts" ∷ "gltu" ∷ "glts" ∷ "mul" ∷ "and" ∷ "orr" ∷ "xor" ∷ "lsl"
    ∷ "lsr" ∷ "asr" ∷ "udiv" ∷ "sdiv" ∷ []

abbrev pub two_regs_one_imm_tokens : List String
two_regs_one_imm_tokens =
    "addi" ∷ "subi" ∷ "sltui" ∷ "sgtui" ∷ "muli" ∷ "andi" ∷ "orri" ∷ "xori" ∷ "lsli" ∷ "lsri"
    ∷ "asri" ∷ []

abbrev pub simm_tokens : List String
simm_tokens = "sltsi" ∷ "sgtsi" ∷ []

abbrev pub branch_tokens : List String
branch_tokens =
    "bne" ∷ "beq" ∷ "bltu" ∷ "bgeu" ∷ "bleu" ∷ "bgtu" ∷ "blts" ∷ "bges" ∷ "bles" ∷ "bgts" ∷ []

abbrev pub jump_tokens : List String
jump_tokens =
    "jne" ∷ "jeq" ∷ "jltu" ∷ "jgeu" ∷ "jleu" ∷ "jgtu" ∷ "jlts" ∷ "jges" ∷ "jles" ∷ "jgts" ∷ []

abbrev pub call_tokens : List String
call_tokens =
    "cne" ∷ "ceq" ∷ "cltu" ∷ "cgeu" ∷ "cleu" ∷ "cgtu" ∷ "clts" ∷ "cges" ∷ "cles" ∷ "cgts" ∷ []

abbrev pub three_regs_ldst_tokens : List String
three_regs_ldst_tokens = "ldr" ∷ "ldh" ∷ "ldsh" ∷ "ldb" ∷ "ldsb" ∷ "str" ∷ "sth" ∷ "stb" ∷ []

abbrev pub two_regs_one_simm12_ldst_tokens : List String
two_regs_one_simm12_ldst_tokens =
    "ldri" ∷ "ldhi" ∷ "ldshi" ∷ "ldbi" ∷ "ldsbi" ∷ "stri" ∷ "sthi" ∷ "stbi" ∷ []

module _ (lib : Orange) where
  unfoldable pub visit_grp0_three_regs : String → List String → M (Unit {0})
  unfolding push_tok_if pop_str get_reg_encodings
  visit_grp0_three_regs tok regs = do
    push_tok_if three_regs_tokens "visitInstrOpGrp0ThreeRegs():  Eek!" tok
    instr_name ← pop_str
    opcode ← lift (at (lookup instr_name encoding_stuff.iog0_three_regs_map))
    reg_encodings ← lift (get_reg_encodings regs)
    a ← reg_at reg_encodings 0
    b ← reg_at reg_encodings 1
    c ← reg_at reg_encodings 2
    modify (encode_instr_opcode_group_0 lib a b c opcode)

  unfoldable pub visit_grp1_two_regs_one_imm : String → List String → Expr → M (Unit {0})
  unfolding push_tok_if pop_str get_reg_encodings visit_expr encode_alu_op_two_regs_one_imm
  visit_grp1_two_regs_one_imm tok regs e = do
    push_tok_if two_regs_one_imm_tokens "visitInstrOpGrp1TwoRegsOneImm():  Eek!" tok
    reg_encodings ← lift (get_reg_encodings regs)
    immediate ← visit_value e
    instr_name ← pop_str
    a ← reg_at reg_encodings 0
    b ← reg_at reg_encodings 1
    encode_alu_op_two_regs_one_imm lib instr_name a b immediate

  unfoldable pub visit_grp1_two_regs_one_simm : String → List String → Expr → M (Unit {0})
  unfolding push_tok_if pop_str get_reg_encodings visit_expr encode_alu_op_two_regs_one_imm
  visit_grp1_two_regs_one_simm tok regs e = do
    push_tok_if simm_tokens "visitInstrOpGrp1TwoRegsOneSimm():  Eek!" tok
    reg_encodings ← lift (get_reg_encodings regs)
    immediate ← visit_value e
    instr_name ← pop_str
    a ← reg_at reg_encodings 0
    b ← reg_at reg_encodings 1
    encode_alu_op_two_regs_one_imm lib instr_name a b immediate

  unfoldable pub visit_grp1_one_reg_one_pc_one_simm : String → String → Expr → M (Unit {0})
  unfolding push_tok_if pop_str visit_expr
  visit_grp1_one_reg_one_pc_one_simm tok reg e = do
    push_tok_if ("addsi" ∷ []) "visitInstrOpGrp1OneRegOnePcOneSimm():  Eek!" tok
    instr_name ← pop_str
    opcode ← lift (at (lookup instr_name encoding_stuff.iog1_one_reg_one_pc_one_simm_map))
    immediate ← visit_value e
    a ← lift (get_one_reg_encoding reg)
    modify (encode_instr_opcode_group_1 lib a 0x0 opcode (to_u32 immediate))

  unfoldable pub visit_grp1_one_reg_one_imm : String → String → Expr → M (Unit {0})
  unfolding push_tok_if pop_str visit_expr
  visit_grp1_one_reg_one_imm tok reg e = do
    push_tok_if ("cpyhi" ∷ []) "visitInstrOpGrp1OneRegOneImm():  Eek!" tok
    instr_name ← pop_str
    opcode ← lift (at (lookup instr_name encoding_stuff.iog1_one_reg_one_imm_map))
    immediate ← visit_value e
    a ← lift (get_one_reg_encoding reg)
    modify (encode_instr_opcode_group_1 lib a 0x0 opcode (to_u32 immediate))

  unfoldable pub visit_grp2_branch : String → List String → Expr → M (Unit {0})
  unfolding push_tok_if pop_str get_reg_encodings visit_expr encode_relative_branch
  visit_grp2_branch tok regs e = do
    push_tok_if branch_tokens "visitInstrOpGrp2Branch():  Eek!" tok
    reg_encodings ← lift (get_reg_encodings regs)
    raw_immediate ← visit_value e
    instr_name ← pop_str
    a ← reg_at reg_encodings 0
    b ← reg_at reg_encodings 1
    encode_relative_branch lib instr_name a b raw_immediate

  -- The three visitors of a name and three registers, around what encodes them.
  abbrev visit_three_regs :
      List String
      → String
      → (String → ℕ → ℕ → ℕ → M (Unit {0}))
      → String
      → List String
      → M (Unit {0})
  visit_three_regs tokens message encode tok regs = do
    push_tok_if tokens message tok
    reg_encodings ← lift (get_reg_encodings regs)
    instr_name ← pop_str
    a ← reg_at reg_encodings 0
    b ← reg_at reg_encodings 1
    c ← reg_at reg_encodings 2
    encode instr_name a b c

  unfoldable pub visit_grp3_jump : String → List String → M (Unit {0})
  unfolding push_tok_if pop_str get_reg_encodings encode_jump
  visit_grp3_jump = visit_three_regs jump_tokens "visitInstrOpGrp3Jump():  Eek!" (encode_jump lib)

  unfoldable pub visit_grp4_call : String → List String → M (Unit {0})
  unfolding push_tok_if pop_str get_reg_encodings encode_call
  visit_grp4_call = visit_three_regs call_tokens "visitInstrOpGrp4Call():  Eek!" (encode_call lib)

  unfoldable pub visit_grp5_three_regs_ldst : String → List String → M (Unit {0})
  unfolding push_tok_if pop_str get_reg_encodings encode_ldst_three_regs
  visit_grp5_three_regs_ldst =
      visit_three_regs three_regs_ldst_tokens "visitInstrOpGrp5ThreeRegsLdst():  Eek!"
        (encode_ldst_three_regs lib)

  unfoldable pub visit_grp5_two_regs_one_simm12_ldst : String → List String → Expr → M (Unit {0})
  unfolding push_tok_if pop_str get_reg_encodings visit_expr encode_ldst_two_regs_one_simm
  visit_grp5_two_regs_one_simm12_ldst tok regs e = do
    push_tok_if two_regs_one_simm12_ldst_tokens "visitInstrOpGrp5TwoRegsOneSimm12Ldst():  Eek!" tok
    reg_encodings ← lift (get_reg_encodings regs)
    immediate ← visit_value e
    instr_name ← pop_str
    a ← reg_at reg_encodings 0
    b ← reg_at reg_encodings 1
    encode_ldst_two_regs_one_simm lib instr_name a b immediate

  unfoldable pub visit_grp6_no_args : String → M (Unit {0})
  unfolding push_tok_if pop_str
  visit_grp6_no_args tok = do
    push_tok_if ("ei" ∷ "di" ∷ "reti" ∷ []) "visitInstrOpGrp6NoArgs():  Eek!" tok
    instr_name ← pop_str
    opcode ← lift (at (lookup instr_name encoding_stuff.iog6_no_args_map))
    modify (encode_instr_opcode_group_6 lib 0x0 0x0 0x0 opcode)

  -- The grammar gives the token of these four, so their `else` is never reached.
  unfoldable pub visit_grp6_one_ireta_one_reg : String → M (Unit {0})
  visit_grp6_one_ireta_one_reg reg = do
    opcode ← lift (at (lookup "cpy" encoding_stuff.iog6_one_ireta_one_reg_map))
    a ← lift (get_one_reg_encoding reg)
    modify (encode_instr_opcode_group_6 lib a 0x0 0x0 opcode)

  unfoldable pub visit_grp6_one_reg_one_ireta : String → M (Unit {0})
  visit_grp6_one_reg_one_ireta reg = do
    opcode ← lift (at (lookup "cpy" encoding_stuff.iog6_one_reg_one_ireta_map))
    a ← lift (get_one_reg_encoding reg)
    modify (encode_instr_opcode_group_6 lib a 0x0 0x0 opcode)

  unfoldable pub visit_grp6_one_idsta_one_reg : String → M (Unit {0})
  visit_grp6_one_idsta_one_reg reg = do
    opcode ← lift (at (lookup "cpy" encoding_stuff.iog6_one_idsta_one_reg_map))
    a ← lift (get_one_reg_encoding reg)
    modify (encode_instr_opcode_group_6 lib a 0x0 0x0 opcode)

  unfoldable pub visit_grp6_one_reg_one_idsta : String → M (Unit {0})
  visit_grp6_one_reg_one_idsta reg = do
    opcode ← lift (at (lookup "cpy" encoding_stuff.iog6_one_reg_one_idsta_map))
    a ← lift (get_one_reg_encoding reg)
    modify (encode_instr_opcode_group_6 lib a 0x0 0x0 opcode)

  unfoldable pub visit_instruction : Instruction → M (Unit {0})
  unfolding visit_grp0_three_regs visit_grp1_two_regs_one_imm visit_grp1_two_regs_one_simm
      visit_grp1_one_reg_one_pc_one_simm visit_grp1_one_reg_one_imm visit_grp2_branch
      visit_grp3_jump visit_grp4_call visit_grp5_three_regs_ldst visit_grp5_two_regs_one_simm12_ldst
      visit_grp6_no_args visit_grp6_one_ireta_one_reg visit_grp6_one_reg_one_ireta
      visit_grp6_one_idsta_one_reg visit_grp6_one_reg_one_idsta
  visit_instruction (grp0_three_regs tok a b c) = visit_grp0_three_regs tok (a ∷ b ∷ c ∷ [])
  visit_instruction (grp1_two_regs_one_imm tok a b e) =
      visit_grp1_two_regs_one_imm tok (a ∷ b ∷ []) e
  visit_instruction (grp1_two_regs_one_simm tok a b e) =
      visit_grp1_two_regs_one_simm tok (a ∷ b ∷ []) e
  visit_instruction (grp1_one_reg_one_pc_one_simm tok a e) =
      visit_grp1_one_reg_one_pc_one_simm tok a e
  visit_instruction (grp1_one_reg_one_imm tok a e) = visit_grp1_one_reg_one_imm tok a e
  visit_instruction (grp2_branch tok a b e) = visit_grp2_branch tok (a ∷ b ∷ []) e
  visit_instruction (grp3_jump tok a b c) = visit_grp3_jump tok (a ∷ b ∷ c ∷ [])
  visit_instruction (grp4_call tok a b c) = visit_grp4_call tok (a ∷ b ∷ c ∷ [])
  visit_instruction (grp5_three_regs_ldst tok a b c) =
      visit_grp5_three_regs_ldst tok (a ∷ b ∷ c ∷ [])
  visit_instruction (grp5_two_regs_one_simm12_ldst tok a b e) =
      visit_grp5_two_regs_one_simm12_ldst tok (a ∷ b ∷ []) e
  visit_instruction (grp6_no_args tok) = visit_grp6_no_args tok
  visit_instruction (grp6_one_ireta_one_reg reg) = visit_grp6_one_ireta_one_reg reg
  visit_instruction (grp6_one_reg_one_ireta reg) = visit_grp6_one_reg_one_ireta reg
  visit_instruction (grp6_one_idsta_one_reg reg) = visit_grp6_one_idsta_one_reg reg
  visit_instruction (grp6_one_reg_one_idsta reg) = visit_grp6_one_reg_one_idsta reg
