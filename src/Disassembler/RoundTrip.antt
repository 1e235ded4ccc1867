-- ===== src/Disassembler/RoundTrip.antt =====
-- The words that the assembler makes, given to `visitLine` of disassembler_class.cpp.
pub mod ThreeRegs
pub mod Immediates
use frost32_cpu.Prelude.{ℕ, ◌+◌, ◌*◌, ◌/◌, ◌%◌, ◌^◌, ◌<◌, ◌≡◌, ◌∙◌, List, String, some, arith}
use frost32_cpu.Prelude.Text.{lookup}
use frost32_cpu.Orange.{Orange, Laws}
use frost32_cpu.Outcome.{Outcome, ok}
use frost32_cpu.Output.{Item}
use frost32_cpu.Encoding.{ArgsType, encoding_stuff, decode_reg_name}
use frost32_cpu.Disassembler.{visit_word, print_instruction}
use frost32_cpu.Disassembler.Decode.{Fields, decode_fields}

-- The name of a register and its index.
abbrev pub Reg : String → ℕ → Type 0
Reg name i = lookup name encoding_stuff.reg_names_map ≡ some i

-- The words whose fields are those given.
abbrev pub HasFields : (ℕ → ℕ → ℕ → ℕ) → ℕ → ℕ → ℕ → ℕ → ℕ → Type 0
HasFields get_bits w group a b rest =
    (get_bits w 31 28 ≡ group)
    × (get_bits w 27 24 ≡ a)
    × (get_bits w 23 20 ≡ b)
    × (get_bits w 19 16 ≡ rest / 2 ^ 16)
    × (get_bits w 15 0 ≡ rest % 2 ^ 16)
    × (get_bits w 15 4 ≡ rest % 2 ^ 16 / 2 ^ 4)
    × (get_bits w 3 0 ≡ rest % 2 ^ 4)

module _ (lib : Orange) where
  pub visit_word_lem :
      (w : ℕ) (db : Outcome (List Item)) (f : Fields) (name a b c : String) (args : ArgsType)
      → decode_fields lib encoding_stuff w ≡ some (f, name, args)
      → decode_reg_name encoding_stuff f.reg_a_index ≡ ok a
      → decode_reg_name encoding_stuff f.reg_b_index ≡ ok b
      → decode_reg_name encoding_stuff f.reg_c_index ≡ ok c
      → visit_word lib encoding_stuff w db ≡ print_instruction lib args name a b c f db
  unfolding visit_word
  visit_word_lem w db f name a b c args e ea eb ec = ground (arith, e, ea, eb, ec)

  pub has_fields :
      (laws : Laws lib) (w group a b rest : ℕ)
      → group < 16
      → a < 16
      → b < 16
      → rest < 2 ^ 20
      → w ≡ group * 2 ^ 28 + a * 2 ^ 24 + b * 2 ^ 20 + rest
      → HasFields lib.get_bits_with_range w group a b rest
  has_fields laws w group a b rest hg ha hb hr e = (
    laws.get_bits_lem w 31 28 (omega arith) (omega arith) (omega arith) ∙ omega arith,
    laws.get_bits_lem w 27 24 (omega arith) (omega arith) (omega arith) ∙ omega arith,
    laws.get_bits_lem w 23 20 (omega arith) (omega arith) (omega arith) ∙ omega arith,
    laws.get_bits_lem w 19 16 (omega arith) (omega arith) (omega arith) ∙ omega arith,
    laws.get_bits_lem w 15 0 (omega arith) (omega arith) (omega arith) ∙ omega arith,
    laws.get_bits_lem w 15 4 (omega arith) (omega arith) (omega arith) ∙ omega arith,
    laws.get_bits_lem w 3 0 (omega arith) (omega arith) (omega arith) ∙ omega arith,
  )

-- What the text shows besides the name and the registers.
abbrev pub shows : ℕ → ℕ → ℕ → ℕ → ℕ → ℕ → Fields
shows i j k opcode immediate simm12 = record {
  reg_a_index = i;
  reg_b_index = j;
  reg_c_index = k;
  opcode = opcode;
  immediate = immediate;
  simm12 = simm12;
}
