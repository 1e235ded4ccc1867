-- ===== src/Disassembler/Instructions.antt =====
-- The functions `encode_instr_opcode_group_*` of assembler_class.hpp followed by the disassembler: a
-- line of text goes from the one to the other.
use frost32_cpu.Prelude.{ℕ, ◌%◌, ◌^◌, ◌≡◌, ◌∙◌, refl, ap, List, String, true, some, arith}
use frost32_cpu.Prelude.Text.{lookup}
use frost32_cpu.Orange.{Orange, Laws}
use frost32_cpu.Outcome.{Outcome}
use frost32_cpu.Output.{Item}
use frost32_cpu.Encoding.{encoding_stuff}
use frost32_cpu.Encoding.RoundTrip.{entries, args_type, iog5_two_regs_one_simm_ldst}
use frost32_cpu.Assembler.{Assembler, is_pass_one}
use frost32_cpu.Assembler.Emit.{gen_32}
use frost32_cpu.Assembler.Emit.Lines.{at_address}
use frost32_cpu.Assembler.Groups.{
  word_imm16, word_simm12, encode_instr_opcode_group_0, encode_instr_opcode_group_1,
  encode_instr_opcode_group_2, encode_instr_opcode_group_3, encode_instr_opcode_group_4,
  encode_instr_opcode_group_5_no_simm, encode_instr_opcode_group_5_with_simm,
}
use frost32_cpu.Disassembler.{visit_word, print_instruction, show_unknown_instruction_as_dot_db}
use frost32_cpu.Disassembler.Decode.{extend_simm12}
use frost32_cpu.Disassembler.Listing.{AddsLine, gen_32-visit_line}
use frost32_cpu.Disassembler.RoundTrip.{Reg, shows}
use frost32_cpu.Disassembler.RoundTrip.ThreeRegs.{
  ThreeRegs, alu, jump, call, ldst, three_regs_table, three_regs_word, visit_word-three_regs,
}
use frost32_cpu.Disassembler.RoundTrip.Immediates.{
  Imm16, imm, simm, pc_simm, one_reg, branch_offset, imm16_table, imm16_group, visit_word-imm16,
  visit_word-simm12,
}

-- The function of the group that a table belongs to.
abbrev pub three_regs_encode : Orange → ThreeRegs → ℕ → ℕ → ℕ → ℕ → Assembler → Assembler
three_regs_encode lib alu = encode_instr_opcode_group_0 lib
three_regs_encode lib jump = encode_instr_opcode_group_3 lib
three_regs_encode lib call = encode_instr_opcode_group_4 lib
three_regs_encode lib ldst = encode_instr_opcode_group_5_no_simm lib

abbrev pub imm16_encode : Orange → Imm16 → ℕ → ℕ → ℕ → ℕ → Assembler → Assembler
imm16_encode lib branch_offset = encode_instr_opcode_group_2 lib
imm16_encode lib _ = encode_instr_opcode_group_1 lib

module _ (lib : Orange) (laws : Laws lib) where
  -- One more word, from an operation that is `gen_32` and a word that is printed as given.
  adds_line :
      (s s' : Assembler) (word n : ℕ) (shown : Outcome (List Item))
      → is_pass_one s ≡ true
      → s.show_words ≡ true
      → s.pc ≡ at_address n
      → s' ≡ gen_32 lib (word % 2 ^ 32) s
      → visit_word lib encoding_stuff
          (word % 2 ^ 32)
          (show_unknown_instruction_as_dot_db (word % 2 ^ 32) 8)
        ≡ shown
      → AddsLine lib s s' shown
  adds_line s s' word n shown p w c e f =
      let (items, (str, (out, printed, read, pc, token))) =
        gen_32-visit_line lib laws s (word % 2 ^ 32) n p w c (omega arith) in
      (items, (str, (ap (λ r. r.out) e ∙ out, printed, read ∙ f, ap (λ r. r.pc) e ∙ pc, token)))

  three_regs_encode-gen_32 :
      (t : ThreeRegs) (i j k opcode : ℕ) (s : Assembler)
      → three_regs_encode lib t i j k opcode s
        ≡ gen_32 lib (three_regs_word lib t i j k opcode % 2 ^ 32) s
  unfolding encode_instr_opcode_group_0 encode_instr_opcode_group_3 encode_instr_opcode_group_4
      encode_instr_opcode_group_5_no_simm
  three_regs_encode-gen_32 alu i j k opcode s = refl
  three_regs_encode-gen_32 jump i j k opcode s = refl
  three_regs_encode-gen_32 call i j k opcode s = refl
  three_regs_encode-gen_32 ldst i j k opcode s = refl

  -- On the second pass, with words shown and the address output, an instruction of three
  -- registers from a table of names becomes one line of text, which the disassembler prints as
  -- the same name with the same registers.
  pub encode-visit_line-three_regs :
      (t : ThreeRegs) (tok a b c : String) (opcode i j k n : ℕ) (s : Assembler)
      → is_pass_one s ≡ true
      → s.show_words ≡ true
      → s.pc ≡ at_address n
      → lookup tok (entries (three_regs_table t)) ≡ some opcode
      → Reg a i
      → Reg b j
      → Reg c k
      → AddsLine lib s (three_regs_encode lib t i j k opcode s) (
          print_instruction lib
            (args_type (three_regs_table t))
            tok
            a
            b
            c
            (shows i j k opcode 0 0)
            (show_unknown_instruction_as_dot_db (three_regs_word lib t i j k opcode % 2 ^ 32) 8))
  encode-visit_line-three_regs t tok a b c opcode i j k n s p w pc ht ha hb hc =
      let word = three_regs_word lib t i j k opcode in
      adds_line s _ word n _ p w pc (three_regs_encode-gen_32 t i j k opcode s) (
        visit_word-three_regs lib laws t tok a b c opcode i j k
          (show_unknown_instruction_as_dot_db (word % 2 ^ 32) 8) ht ha hb hc)

  imm16_encode-gen_32 :
      (t : Imm16) (i j opcode immediate : ℕ) (s : Assembler)
      → imm16_encode lib t i j opcode immediate s
        ≡ gen_32 lib (word_imm16 lib (imm16_group t) i j opcode immediate % 2 ^ 32) s
  unfolding encode_instr_opcode_group_1 encode_instr_opcode_group_2
  imm16_encode-gen_32 imm i j opcode immediate s = refl
  imm16_encode-gen_32 simm i j opcode immediate s = refl
  imm16_encode-gen_32 pc_simm i j opcode immediate s = refl
  imm16_encode-gen_32 one_reg i j opcode immediate s = refl
  imm16_encode-gen_32 branch_offset i j opcode immediate s = refl

  -- On the second pass, with words shown and the address output, an instruction of group 1 or 2
  -- becomes one line of text, which the disassembler prints with the instruction's name, the names
  -- of its registers and its immediate of 16 bits without a sign.
  pub encode-visit_line-imm16 :
      (t : Imm16) (tok a b : String) (opcode i j immediate n : ℕ) (s : Assembler)
      → is_pass_one s ≡ true
      → s.show_words ≡ true
      → s.pc ≡ at_address n
      → lookup tok (entries (imm16_table t)) ≡ some opcode
      → Reg a i
      → Reg b j
      → AddsLine lib s (imm16_encode lib t i j opcode immediate s) (
          print_instruction lib
            (args_type (imm16_table t))
            tok
            a
            b
            "zero"
            (shows i j 0 opcode (immediate % 2 ^ 16) 0)
            (show_unknown_instruction_as_dot_db
              (word_imm16 lib (imm16_group t) i j opcode immediate % 2 ^ 32)
              8))
  encode-visit_line-imm16 t tok a b opcode i j immediate n s p w pc ht ha hb =
      let word = word_imm16 lib (imm16_group t) i j opcode immediate in
      adds_line s _ word n _ p w pc (imm16_encode-gen_32 t i j opcode immediate s) (
        visit_word-imm16 lib laws t tok a b opcode i j immediate
          (show_unknown_instruction_as_dot_db (word % 2 ^ 32) 8) ht ha hb)

  encode_group_5-gen_32 :
      (i j opcode immediate : ℕ) (s : Assembler)
      → encode_instr_opcode_group_5_with_simm lib i j opcode immediate s
        ≡ gen_32 lib (word_simm12 lib i j opcode immediate % 2 ^ 32) s
  unfolding encode_instr_opcode_group_5_with_simm
  encode_group_5-gen_32 i j opcode immediate s = refl

  -- On the second pass, with words shown and the address output, a load or store with an offset
  -- becomes one line of text, which the disassembler prints with the instruction's name, the names
  -- of its registers and its offset of 12 bits with the sign extended to 32 bits.
  pub encode-visit_line-simm12 :
      (tok a b : String) (opcode i j immediate n : ℕ) (s : Assembler)
      → is_pass_one s ≡ true
      → s.show_words ≡ true
      → s.pc ≡ at_address n
      → lookup tok (entries iog5_two_regs_one_simm_ldst) ≡ some opcode
      → Reg a i
      → Reg b j
      → AddsLine lib s (encode_instr_opcode_group_5_with_simm lib i j opcode immediate s) (
          print_instruction lib
            (args_type iog5_two_regs_one_simm_ldst)
            tok
            a
            b
            "zero"
            (shows i j 0 opcode 0 (extend_simm12 (immediate % 2 ^ 12)))
            (show_unknown_instruction_as_dot_db (word_simm12 lib i j opcode immediate % 2 ^ 32) 8))
  encode-visit_line-simm12 tok a b opcode i j immediate n s p w pc ht ha hb =
      let word = word_simm12 lib i j opcode immediate in
      adds_line s _ word n _ p w pc (encode_group_5-gen_32 i j opcode immediate s) (
        visit_word-simm12 lib laws tok a b opcode i j immediate
          (show_unknown_instruction_as_dot_db (word % 2 ^ 32) 8) ht ha hb)
