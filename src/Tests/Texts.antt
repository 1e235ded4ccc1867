-- ===== src/Tests/Texts.antt =====
-- Instructions that go through the assembler and the disassembler.
use frost32_cpu.Prelude.{◌≡◌, ◌%◌, ◌^◌, refl, arith}
use frost32_cpu.Outcome.{ok, undefined}
use frost32_cpu.Encoding.{encoding_stuff}
use frost32_cpu.Encoding.RoundTrip.{
  args_type, iog0_three_regs, iog2_branch, iog5_two_regs_one_simm_ldst,
}
use frost32_cpu.Assembler.Emit.{gen_32}
use frost32_cpu.Assembler.Groups.{
  word_three_regs, word_group_0, word_imm16, word_simm12, encode_instr_opcode_group_5_with_simm,
}
use frost32_cpu.Disassembler.{
  print_instruction, show_unknown_instruction_as_dot_db, visit_word, convert_hex_string,
}
use frost32_cpu.Disassembler.Hex.{convert_hex_string-word_text, word_text}
use frost32_cpu.Disassembler.Listing.{AddsLine, gen_32-visit_line}
use frost32_cpu.Disassembler.Instructions.{
  three_regs_encode, imm16_encode, encode-visit_line-three_regs, encode-visit_line-imm16,
  encode-visit_line-simm12,
}
use frost32_cpu.Disassembler.RoundTrip.{shows}
use frost32_cpu.Disassembler.RoundTrip.ThreeRegs.{alu, visit_word-group_6}
use frost32_cpu.Disassembler.RoundTrip.Immediates.{branch_offset}
use frost32_cpu.Tests.{concrete, concrete-Laws, second_pass}

encode-visit_line-three_regs_example :
    AddsLine concrete second_pass (three_regs_encode concrete alu 1 2 15 1 second_pass) (
      print_instruction concrete
        (args_type iog0_three_regs)
        "sub"
        "u0"
        "u1"
        "sp"
        (shows 1 2 15 1 0 0)
        (show_unknown_instruction_as_dot_db (word_group_0 concrete 1 2 15 1 % 2 ^ 32) 8))
encode-visit_line-three_regs_example =
    encode-visit_line-three_regs concrete concrete-Laws alu "sub" "u0" "u1" "sp" 1 1 2 15 0x40
      second_pass refl refl refl refl refl refl refl

encode-visit_line-imm16_example :
    AddsLine concrete second_pass (imm16_encode concrete branch_offset 1 0 1 0xfff8 second_pass) (
      print_instruction concrete
        (args_type iog2_branch)
        "beq"
        "u0"
        "zero"
        "zero"
        (shows 1 0 0 1 0xfff8 0)
        (show_unknown_instruction_as_dot_db (word_imm16 concrete 2 1 0 1 0xfff8 % 2 ^ 32) 8))
encode-visit_line-imm16_example =
    encode-visit_line-imm16 concrete concrete-Laws branch_offset "beq" "u0" "zero" 1 1 0 0xfff8 0x40
      second_pass refl refl refl refl refl refl

encode-visit_line-simm12_example :
    AddsLine concrete second_pass
      (encode_instr_opcode_group_5_with_simm concrete 1 15 8 0xffc second_pass)
      (print_instruction concrete
        (args_type iog5_two_regs_one_simm_ldst)
        "ldri"
        "u0"
        "sp"
        "zero"
        (shows 1 15 0 8 0 0xfffffffc)
        (show_unknown_instruction_as_dot_db (word_simm12 concrete 1 15 8 0xffc % 2 ^ 32) 8))
encode-visit_line-simm12_example =
    encode-visit_line-simm12 concrete concrete-Laws "ldri" "u0" "sp" 8 1 15 0xffc 0x40 second_pass
      refl refl refl refl refl refl

gen_32-visit_line_example : AddsLine concrete second_pass (gen_32 concrete 0x012f0001 second_pass) (
    visit_word concrete encoding_stuff 0x012f0001 (show_unknown_instruction_as_dot_db 0x012f0001 8))
gen_32-visit_line_example =
    gen_32-visit_line concrete concrete-Laws second_pass 0x012f0001 0x40 refl refl refl
      (omega arith)

convert_hex_string-word_text_example :
    convert_hex_string (word_text 0x012f0001) ≡ ok (0x012f0001, 8)
convert_hex_string-word_text_example = convert_hex_string-word_text 0x012f0001 (omega arith)

visit_word-group_6_example :
    visit_word concrete encoding_stuff (word_three_regs concrete 6 0 0 0 1 % 2 ^ 32) undefined
    ≡ visit_word concrete encoding_stuff (word_three_regs concrete 4 0 0 0 1 % 2 ^ 32) undefined
visit_word-group_6_example =
    visit_word-group_6 concrete concrete-Laws 0 0 0 1 undefined (omega arith) (omega arith)
      (omega arith) (omega arith)
