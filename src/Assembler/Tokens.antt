-- ===== src/Assembler/Tokens.antt =====
-- The visitors of names and numbers in assembler_class.cpp: `visitIdentName`, `visitInstrName`,
-- `visitPseudoInstrName` and `visitNumExpr`.
use Prim.Native.Nat.{bit_or}
use frost32_cpu.Prelude.{
  ℕ, ◌+◌, ◌-◌, ◌*◌, ◌%◌, ◌^◌, List, [], ◌∷◌, String, ◌&&◌, Option, none, some, ltb, leb,
  if◌then◌else◌,
}
use frost32_cpu.Prelude.Int.{ℤ, pos, to_s64}
use frost32_cpu.Prelude.Text.{elem}
use frost32_cpu.Outcome.{eek, binary_literal}
use frost32_cpu.Assembler.{M, err, push_num, push_str}
use frost32_cpu.Assembler.Syntax.{
  NumExpr, dec_num, hex_num, bin_num, IdentName, tok_ident, instr_name, pseudo_instr_name, tok_reg,
  tok_pc_reg, tok_ireta_reg, tok_idsta_reg,
}

-- The tokens that `visitInstrName` and `visitPseudoInstrName` know.
abbrev pub instr_names : List String
instr_names =
    "add" ∷ "sub" ∷ "sltu" ∷ "slts" ∷ "gltu" ∷ "glts" ∷ "mul" ∷ "and" ∷ "orr" ∷ "xor" ∷ "nor"
    ∷ "lsl" ∷ "lsr" ∷ "asr" ∷ "udiv" ∷ "sdiv" ∷ "addi" ∷ "subi" ∷ "sltui" ∷ "sltsi" ∷ "sgtui"
    ∷ "sgtsi" ∷ "muli" ∷ "andi" ∷ "orri" ∷ "xori" ∷ "nori" ∷ "lsli" ∷ "lsri" ∷ "asri" ∷ "addsi"
    ∷ "cpyhi" ∷ "bne" ∷ "beq" ∷ "bltu" ∷ "bgeu" ∷ "bleu" ∷ "bgtu" ∷ "blts" ∷ "bges" ∷ "bles"
    ∷ "bgts" ∷ "jne" ∷ "jeq" ∷ "jltu" ∷ "jgeu" ∷ "jleu" ∷ "jgtu" ∷ "jlts" ∷ "jges" ∷ "jles" ∷ "jgts"
    ∷ "cne" ∷ "ceq" ∷ "cltu" ∷ "cgeu" ∷ "cleu" ∷ "cgtu" ∷ "clts" ∷ "cges" ∷ "cles" ∷ "cgts" ∷ "ldr"
    ∷ "ldh" ∷ "ldsh" ∷ "ldb" ∷ "ldsb" ∷ "str" ∷ "sth" ∷ "stb" ∷ "ldri" ∷ "ldhi" ∷ "ldshi" ∷ "ldbi"
    ∷ "ldsbi" ∷ "stri" ∷ "sthi" ∷ "stbi" ∷ "ei" ∷ "di" ∷ "cpy" ∷ "reti" ∷ []

abbrev pub pseudo_instr_names : List String
pseudo_instr_names =
    "inv" ∷ "invi" ∷ "cpyi" ∷ "cpya" ∷ "bra" ∷ "jmp" ∷ "call" ∷ "jmpa" ∷ "calla" ∷ "jmpane"
    ∷ "jmpaeq" ∷ "callane" ∷ "callaeq" ∷ "inc" ∷ "dec" ∷ []

-- A chain of `ANY_PUSH_TOK_IF`: the text of the token, if it is one of the chain.
unfoldable pub push_tok_if : List String → String → String → M (Unit {0})
push_tok_if names message tok = if elem tok names then push_str tok else err (eek message)

unfoldable pub visit_instr_name : String → M (Unit {0})
unfolding push_tok_if
visit_instr_name = push_tok_if instr_names "visitInstrName():  Eek!"

unfoldable pub visit_pseudo_instr_name : String → M (Unit {0})
unfolding push_tok_if
visit_pseudo_instr_name = push_tok_if pseudo_instr_names "visitPseudoInstrName():  Eek!"

unfoldable pub visit_ident_name : IdentName → M (Unit {0})
unfolding visit_instr_name visit_pseudo_instr_name push_str
visit_ident_name (tok_ident name) = push_str name
visit_ident_name (instr_name name) = visit_instr_name name
visit_ident_name (pseudo_instr_name name) = visit_pseudo_instr_name name
visit_ident_name (tok_reg name) = push_str name
visit_ident_name (tok_pc_reg name) = push_str name
visit_ident_name (tok_ireta_reg name) = push_str name
visit_ident_name (tok_idsta_reg name) = push_str name

-- `sstm >> to_push` on a text of decimal digits: a number that does not fit gives the largest.
unfoldable pub read_decimal : List ℕ → ℕ → ℕ
read_decimal [] acc = acc
read_decimal (c ∷ cs) acc = read_decimal cs (acc * 10 + (c - b'0'))

abbrev pub clamp_s64 : ℕ → ℤ
clamp_s64 n = if ltb n (2 ^ 63) then pos n else pos (2 ^ 63 - 1)

-- The value of a hexadecimal digit, in either case.
unfoldable pub hex_digit : ℕ → Option ℕ
hex_digit c =
    if leb b'0' c && leb c b'9'
    then some (c - b'0')
    else if leb b'a' c && leb c b'f'
    then some (c - b'a' + 0xa)
    else if leb b'A' c && leb c b'F'
    then some (c - b'A' + 0xa)
    else none

-- `if ((i + 1) < str.size()) { temp <<= 4; }` on a word of the width, before the characters left.
abbrev pub shift_before : ℕ → List ℕ → ℕ → ℕ
shift_before width [] temp = temp
shift_before width (c ∷ cs) temp = temp * 2 ^ 4 % 2 ^ width

-- The loop over the digits; `none` is its error.
unfoldable pub read_hex : ℕ → List ℕ → ℕ → Option ℕ
unfolding hex_digit
read_hex width [] temp = some temp
read_hex width (c ∷ cs) temp = elim (hex_digit c) [
  | none ↦ none
  | some d ↦ read_hex width cs (shift_before width cs (bit_or temp d))
]

-- The characters of a text from the third on: the loop starts at 2.
abbrev pub skip_two : List ℕ → List ℕ
skip_two (a ∷ b ∷ cs) = cs
skip_two _ = []

unfoldable pub visit_num_expr : NumExpr → M (Unit {0})
unfolding read_decimal read_hex push_num
visit_num_expr (dec_num str) = push_num (clamp_s64 (read_decimal str 0))
visit_num_expr (hex_num str) = elim (read_hex 64 (skip_two str) 0) [
  | none ↦ err (eek "visitNumExpr():  Eek!")
  | some temp ↦ push_num (to_s64 temp)
]
visit_num_expr (bin_num str) = err binary_literal
