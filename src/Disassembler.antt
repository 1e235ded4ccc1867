-- ===== src/Disassembler.antt =====
-- disassembler_class.hpp and disassembler_class.cpp of assembler_disassembler/src: a line of VMEM
-- text to an instruction or to data. The lines are those of DisassemblerGrammar.g4, a token as the
-- list of its characters; the output is what is printed.
pub mod Decode
pub mod RoundTrip
pub mod Hex
pub mod Listing
pub mod Instructions
pub mod Source
use frost32_cpu.Prelude.{
  ℕ, ◌%◌, ◌^◌, List, [], ◌∷◌, ◌++◌, String, not, ◌&&◌, none, some, ◌==◌, if◌then◌else◌, length,
}
use frost32_cpu.Orange.{Orange}
use frost32_cpu.Outcome.{Outcome, ok, exits, eek, bad_data_size, bind}
use frost32_cpu.Output.{Item, hex, dec, text, number}
use frost32_cpu.Encoding.{
  EncodingStuff, ArgsType, three_regs, two_regs, two_regs_one_imm, two_regs_one_simm,
  one_reg_one_pc_one_simm, one_reg_one_imm, branch, three_regs_ldst, two_regs_one_simm_ldst,
  no_args, one_ireta_one_reg, one_reg_one_ireta, one_idsta_one_reg, one_reg_one_idsta, unknown,
  decode_reg_name,
}
use frost32_cpu.Assembler.Tokens.{read_hex}
use Decode.{Fields, decode_fields}

pub data Line : Type 0 where
  tok_org tok_hex_num : List ℕ → Line
  tok_newline : Line

-- What `temp_str` keeps of the token.
unfoldable pub good_chars : List ℕ → List ℕ
good_chars [] = []
good_chars (c ∷ str) =
    if not (c == b'@') && not (c == b' ') then c ∷ good_chars str else good_chars str

-- The value, a u32, and `num_good_chars`.
unfoldable pub convert_hex_string : List ℕ → Outcome (ℕ × ℕ)
unfolding good_chars read_hex
convert_hex_string str = elim (read_hex 32 (good_chars str) 0) [
  | none ↦ exits (eek "convert_hex_string():  Eek!")
  | some temp ↦ ok (temp, length (good_chars str))
]

abbrev pub display_dot_db : ℕ → List Item
display_dot_db word = text ".db " ∷ hex ∷ text "0x" ∷ number word ∷ dec ∷ []

abbrev pub display_dot_db16 : ℕ → List Item
display_dot_db16 word = text ".db16 " ∷ hex ∷ text "0x" ∷ number (word % 2 ^ 16) ∷ dec ∷ []

abbrev pub display_dot_db8 : ℕ → List Item
display_dot_db8 word = text ".db8 " ∷ hex ∷ text "0x" ∷ number (word % 2 ^ 8) ∷ dec ∷ []

unfoldable pub show_unknown_instruction_as_dot_db : ℕ → ℕ → Outcome (List Item)
show_unknown_instruction_as_dot_db instruction num_good_chars =
    if num_good_chars == 2
    then ok (display_dot_db8 instruction)
    else if num_good_chars == 4
    then ok (display_dot_db16 instruction)
    else if num_good_chars == 8
    then ok (display_dot_db instruction)
    else exits (eek "Disassembler::visitLine():  Eek 1!")

-- The statement that follows each call of the lambda: `printout("\n"); return nullptr;`.
abbrev pub with_newline : Outcome (List Item) → Outcome (List Item)
with_newline r = bind r λ items. ok (items ++ text "\n" ∷ [])

module _ (lib : Orange) where
  open lib use {strappcom2}

  -- The second `switch`, on the arguments that the instruction takes.
  unfoldable pub print_instruction :
      ArgsType
      → String
      → String
      → String
      → String
      → Fields
      → Outcome (List Item)
      → Outcome (List Item)
  print_instruction three_regs name a b c f db =
      ok (text name ∷ text " " ∷ text (strappcom2 (a ∷ b ∷ c ∷ [])) ∷ text "\n" ∷ [])
  print_instruction two_regs name a b c f db =
      ok (text name ∷ text " " ∷ text (strappcom2 (a ∷ b ∷ [])) ∷ text "\n" ∷ [])
  print_instruction two_regs_one_imm name a b c f db = ok (
      hex
      ∷ text name
      ∷ text " "
      ∷ text a
      ∷ text ", "
      ∷ text b
      ∷ text ", 0x"
      ∷ number f.immediate
      ∷ dec
      ∷ text "\n"
      ∷ [])
  print_instruction two_regs_one_simm name a b c f db = ok (
      hex
      ∷ text name
      ∷ text " "
      ∷ text a
      ∷ text ", "
      ∷ text b
      ∷ text ", 0x"
      ∷ number f.immediate
      ∷ dec
      ∷ text "\n"
      ∷ [])
  print_instruction one_reg_one_pc_one_simm name a b c f db = ok (
      hex
      ∷ text name
      ∷ text " "
      ∷ text a
      ∷ text ", "
      ∷ text "pc"
      ∷ text ", 0x"
      ∷ number f.immediate
      ∷ dec
      ∷ text "\n"
      ∷ [])
  print_instruction one_reg_one_imm name a b c f db = ok (
      hex
      ∷ text name
      ∷ text " "
      ∷ text a
      ∷ text ", "
      ∷ text "0x"
      ∷ number f.immediate
      ∷ dec
      ∷ text "\n"
      ∷ [])
  print_instruction branch name a b c f db = ok (
      hex
      ∷ text name
      ∷ text " "
      ∷ text a
      ∷ text ", "
      ∷ text b
      ∷ text ", "
      ∷ text "0x"
      ∷ number f.immediate
      ∷ dec
      ∷ text "\n"
      ∷ [])
  print_instruction three_regs_ldst name a b c f db = ok (
      text name
      ∷ text " "
      ∷ text a
      ∷ text ", "
      ∷ text "["
      ∷ text b
      ∷ text ", "
      ∷ text c
      ∷ text "]"
      ∷ text "\n"
      ∷ [])
  print_instruction two_regs_one_simm_ldst name a b c f db = ok (
      hex
      ∷ text name
      ∷ text " "
      ∷ text a
      ∷ text ", "
      ∷ text "["
      ∷ text b
      ∷ text ", "
      ∷ text "0x"
      ∷ number f.simm12
      ∷ text "]"
      ∷ dec
      ∷ text "\n"
      ∷ [])
  print_instruction no_args name a b c f db = ok (text name ∷ text "\n" ∷ [])
  print_instruction one_ireta_one_reg name a b c f db =
      ok (text name ∷ text (strappcom2 ("ireta" ∷ a ∷ [])) ∷ text "\n" ∷ [])
  print_instruction one_reg_one_ireta name a b c f db =
      ok (text name ∷ text (strappcom2 (a ∷ "ireta" ∷ [])) ∷ text "\n" ∷ [])
  print_instruction one_idsta_one_reg name a b c f db =
      ok (text name ∷ text (strappcom2 ("idsta" ∷ a ∷ [])) ∷ text "\n" ∷ [])
  print_instruction one_reg_one_idsta name a b c f db =
      ok (text name ∷ text (strappcom2 (a ∷ "idsta" ∷ [])) ∷ text "\n" ∷ [])
  print_instruction unknown name a b c f db = with_newline db

  module _ (es : EncodingStuff) where
    -- The branch on eight digits: a whole instruction word.
    unfoldable pub visit_word : ℕ → Outcome (List Item) → Outcome (List Item)
    visit_word instruction db = elim (decode_fields lib es instruction) [
      | none ↦ with_newline db
      | some (f, name, args) ↦ bind (decode_reg_name es f.reg_a_index) λ a.
          bind (decode_reg_name es f.reg_b_index)
            λ b. bind (decode_reg_name es f.reg_c_index) λ c. print_instruction args name a b c f db
    ]

    unfoldable pub visit_hex_num : ℕ → ℕ → Outcome (List Item)
    unfolding show_unknown_instruction_as_dot_db visit_word
    visit_hex_num instruction num_good_chars =
        let db = show_unknown_instruction_as_dot_db instruction num_good_chars in
        if not (num_good_chars == 2) && (not (num_good_chars == 4) && not (num_good_chars == 8))
        then exits bad_data_size
        else if num_good_chars == 8
        then visit_word instruction db
        else with_newline db

    unfoldable pub visit_line : Line → Outcome (List Item)
    unfolding convert_hex_string visit_hex_num
    visit_line (tok_org str) =
        bind (convert_hex_string str)
          λ (addr, n). ok (text ".org " ∷ hex ∷ text "0x" ∷ number addr ∷ dec ∷ text "\n" ∷ [])
    visit_line (tok_hex_num str) =
        bind (convert_hex_string str) λ (instruction, n). visit_hex_num instruction n
    visit_line tok_newline = ok []

    unfoldable pub visit_program : List Line → Outcome (List Item)
    unfolding visit_line
    visit_program [] = ok []
    visit_program (line ∷ lines) =
        bind (visit_line line) λ items. bind (visit_program lines) λ rest. ok (items ++ rest)
