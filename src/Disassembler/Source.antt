-- ===== src/Disassembler/Source.antt =====
-- An instruction of the source text, visited as assembler_class.cpp does, and its line of output,
-- read as disassembler_class.cpp does.
pub mod Offsets
pub mod Immediates
pub mod Reads
pub mod Shows
pub mod Lines
pub mod Programs
use frost32_cpu.Prelude.{ℕ, ◌%◌, ◌^◌, ◌≡◌, List, String, true, some}
use frost32_cpu.Prelude.Text.{lookup, elem}
use frost32_cpu.Orange.{Orange, Laws}
use frost32_cpu.Outcome.{ok}
use frost32_cpu.Encoding.RoundTrip.{entries, args_type}
use frost32_cpu.Assembler.{Assembler, is_pass_one}
use frost32_cpu.Assembler.Emit.Lines.{at_address}
use frost32_cpu.Assembler.Syntax.{
  Instruction, grp0_three_regs, grp3_jump, grp4_call, grp5_three_regs_ldst,
}
use frost32_cpu.Assembler.Visit.{
  three_regs_tokens, jump_tokens, call_tokens, three_regs_ldst_tokens, visit_instruction,
}
use frost32_cpu.Assembler.Visit.Names.{
  visit_grp0-accepts, visit_grp3_jump-names, visit_grp4_call-names,
  visit_grp5_three_regs_ldst-names,
}
use frost32_cpu.Disassembler.{print_instruction, show_unknown_instruction_as_dot_db}
use frost32_cpu.Disassembler.Listing.{AddsLine}
use frost32_cpu.Disassembler.Instructions.{three_regs_encode, encode-visit_line-three_regs}
use frost32_cpu.Disassembler.RoundTrip.{Reg, shows}
use frost32_cpu.Disassembler.RoundTrip.ThreeRegs.{
  ThreeRegs, alu, jump, call, ldst, three_regs_table, three_regs_word,
}

-- The instruction with a name of a table and three registers.
abbrev pub three_regs_instruction : ThreeRegs → String → String → String → String → Instruction
three_regs_instruction alu = grp0_three_regs
three_regs_instruction jump = grp3_jump
three_regs_instruction call = grp4_call
three_regs_instruction ldst = grp5_three_regs_ldst

-- The names that its visitor has a token for.
abbrev pub three_regs_names : ThreeRegs → List String
three_regs_names alu = three_regs_tokens
three_regs_names jump = jump_tokens
three_regs_names call = call_tokens
three_regs_names ldst = three_regs_ldst_tokens

module _ (lib : Orange) where
  visit_instruction-encode :
      (t : ThreeRegs) (tok a b c : String) (opcode i j k : ℕ) (s : Assembler)
      → elem tok (three_regs_names t) ≡ true
      → lookup tok (entries (three_regs_table t)) ≡ some opcode
      → Reg a i
      → Reg b j
      → Reg c k
      → visit_instruction lib (three_regs_instruction t tok a b c) s
        ≡ ok (tt, three_regs_encode lib t i j k opcode s)
  unfolding visit_instruction
  visit_instruction-encode alu tok a b c opcode i j k s n ho ha hb hc =
      visit_grp0-accepts lib s tok a b c opcode i j k n ho ha hb hc
  visit_instruction-encode jump tok a b c opcode i j k s n ho ha hb hc =
      visit_grp3_jump-names lib s tok a b c opcode i j k ho ha hb hc
  visit_instruction-encode call tok a b c opcode i j k s n ho ha hb hc =
      visit_grp4_call-names lib s tok a b c opcode i j k ho ha hb hc
  visit_instruction-encode ldst tok a b c opcode i j k s n ho ha hb hc =
      visit_grp5_three_regs_ldst-names lib s tok a b c opcode i j k ho ha hb hc

  -- On the second pass, with words shown and the address output, an instruction of the source with
  -- three registers, and with a name of the table of group 0, 3, 4 or 5 that its visitor has a
  -- token for, is accepted, and it becomes one line of VMEM text; the disassembler prints that line
  -- with the same name and the same registers.
  pub visit_instruction-visit_line :
      (laws : Laws lib) (t : ThreeRegs) (tok a b c : String) (opcode i j k n : ℕ) (s : Assembler)
      → elem tok (three_regs_names t) ≡ true
      → is_pass_one s ≡ true
      → s.show_words ≡ true
      → s.pc ≡ at_address n
      → lookup tok (entries (three_regs_table t)) ≡ some opcode
      → Reg a i
      → Reg b j
      → Reg c k
      → (s' : Assembler) × ((visit_instruction lib (three_regs_instruction t tok a b c) s
            ≡ ok (tt, s'))
          × AddsLine lib s s' (
              print_instruction lib
                (args_type (three_regs_table t))
                tok
                a
                b
                c
                (shows i j k opcode 0 0)
                (show_unknown_instruction_as_dot_db
                  (three_regs_word lib t i j k opcode % 2 ^ 32)
                  8)))
  visit_instruction-visit_line laws t tok a b c opcode i j k n s ne p w pc ho ha hb hc = (
    three_regs_encode lib t i j k opcode s,
    (
      visit_instruction-encode t tok a b c opcode i j k s ne ho ha hb hc,
      encode-visit_line-three_regs lib laws t tok a b c opcode i j k n s p w pc ho ha hb hc,
    ),
  )
