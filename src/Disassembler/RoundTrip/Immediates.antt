-- ===== src/Disassembler/RoundTrip/Immediates.antt =====
-- Words that hold an immediate, of groups 1, 2 and 5, disassembled.
use frost32_cpu.Prelude.{
  ℕ, ◌+◌, ◌*◌, ◌/◌, ◌%◌, ◌^◌, ◌<◌, ◌≡◌, ◌∙◌, refl, ap, List, String, some, arith,
}
use frost32_cpu.Prelude.Text.{lookup}
use frost32_cpu.Orange.{Orange, Laws}
use frost32_cpu.Outcome.{Outcome}
use frost32_cpu.Output.{Item}
use frost32_cpu.Encoding.{encoding_stuff}
use frost32_cpu.Encoding.RoundTrip.{
  Table, entries, decoder-lookup, decode_reg_name-lookup_iff, reg_index-lt, args_type, decoder,
  iog1_two_regs_one_imm, iog1_two_regs_one_simm, iog1_one_reg_one_pc_one_simm, iog1_one_reg_one_imm,
  iog2_branch, iog5_two_regs_one_simm_ldst,
}
use frost32_cpu.Assembler.Groups.{word_imm16, word_simm12}
use frost32_cpu.Assembler.Groups.Layout.{word_imm16-layout, word_simm12-layout}
use frost32_cpu.Disassembler.{visit_word, print_instruction}
use frost32_cpu.Disassembler.Decode.{
  extend_simm12, decode_fields, decode_iog, decode_instr_opcode_group_1,
  decode_instr_opcode_group_2, decode_instr_opcode_group_5,
}
use frost32_cpu.Disassembler.RoundTrip.{Reg, HasFields, visit_word_lem, has_fields, shows}

-- The tables whose instructions take an immediate of 16 bits.
pub data Imm16 : Type 0 where
  imm simm pc_simm one_reg branch_offset : Imm16

abbrev pub imm16_table : Imm16 → Table
imm16_table imm = iog1_two_regs_one_imm
imm16_table simm = iog1_two_regs_one_simm
imm16_table pc_simm = iog1_one_reg_one_pc_one_simm
imm16_table one_reg = iog1_one_reg_one_imm
imm16_table branch_offset = iog2_branch

abbrev pub imm16_group : Imm16 → ℕ
imm16_group branch_offset = 0b0010
imm16_group _ = 0b0001

module _ (lib : Orange) (laws : Laws lib) where
  decode_imm16 :
      (t : Imm16) (w i j opcode immediate : ℕ) (tok : String)
      → opcode < 16
      → immediate < 2 ^ 16
      → HasFields lib.get_bits_with_range w (imm16_group t) i j (opcode * 2 ^ 16 + immediate)
      → decoder (imm16_table t) opcode ≡ (tok, args_type (imm16_table t))
      → decode_fields lib encoding_stuff w
        ≡ some (shows i j 0 opcode immediate 0, tok, args_type (imm16_table t))
  unfolding decode_fields decode_iog decode_instr_opcode_group_1 decode_instr_opcode_group_2
  decode_imm16 imm w i j opcode immediate tok ho hm f hd = ground (arith, f, hd)
  decode_imm16 simm w i j opcode immediate tok ho hm f hd = ground (arith, f, hd)
  decode_imm16 pc_simm w i j opcode immediate tok ho hm f hd = ground (arith, f, hd)
  decode_imm16 one_reg w i j opcode immediate tok ho hm f hd = ground (arith, f, hd)
  decode_imm16 branch_offset w i j opcode immediate tok ho hm f hd = ground (arith, f, hd)

  imm16_group-lt : (t : Imm16) → imm16_group t < 16
  imm16_group-lt imm = omega arith
  imm16_group-lt simm = omega arith
  imm16_group-lt pc_simm = omega arith
  imm16_group-lt one_reg = omega arith
  imm16_group-lt branch_offset = omega arith

  -- A word with an immediate of 16 bits is printed with its name, its two registers and the
  -- immediate without its sign.
  pub visit_word-imm16 :
      (t : Imm16) (tok a b : String) (opcode i j immediate : ℕ) (db : Outcome (List Item))
      → lookup tok (entries (imm16_table t)) ≡ some opcode
      → Reg a i
      → Reg b j
      → visit_word lib encoding_stuff
          (word_imm16 lib (imm16_group t) i j opcode immediate % 2 ^ 32)
          db
        ≡ print_instruction lib
            (args_type (imm16_table t))
            tok
            a
            b
            "zero"
            (shows i j 0 opcode (immediate % 2 ^ 16) 0)
            db
  visit_word-imm16 t tok a b opcode i j immediate db ht ha hb =
      let w = word_imm16 lib (imm16_group t) i j opcode immediate % 2 ^ 32 in
      let (ho, hd) = decoder-lookup (imm16_table t) tok opcode ht in
      let ri = reg_index-lt a i ha in
      let rj = reg_index-lt b j hb in
      let f =
        has_fields lib laws w (imm16_group t) i j (opcode * 2 ^ 16 + immediate % 2 ^ 16)
          (imm16_group-lt t) ri rj (omega arith)
          (omega (
            arith,
            word_imm16-layout lib laws (imm16_group t) i j opcode immediate,
            imm16_group-lt t,
          )) in
      visit_word_lem lib w db (shows i j 0 opcode (immediate % 2 ^ 16) 0) tok a b "zero"
        (args_type (imm16_table t))
        (decode_imm16 t w i j opcode (immediate % 2 ^ 16) tok ho (omega arith) f hd)
        ((decode_reg_name-lookup_iff a i).0 ha) ((decode_reg_name-lookup_iff b j).0 hb)
        ((decode_reg_name-lookup_iff "zero" 0).0 refl)

  decode_simm12 :
      (w i j opcode rest : ℕ) (tok : String)
      → opcode ≡ rest % 2 ^ 4
      → rest < 2 ^ 16
      → HasFields lib.get_bits_with_range w 5 i j rest
      → decoder iog5_two_regs_one_simm_ldst opcode ≡ (tok, args_type iog5_two_regs_one_simm_ldst)
      → decode_fields lib encoding_stuff w
        ≡ some (
          shows i j 0 opcode 0 (extend_simm12 (rest % 2 ^ 16 / 2 ^ 4)),
          tok,
          args_type iog5_two_regs_one_simm_ldst,
        )
  unfolding decode_fields decode_iog decode_instr_opcode_group_5
  decode_simm12 w i j opcode rest tok ho hm f hd = ground (arith, f, hd)

  -- A load or store with an offset of 12 bits is printed with its name, its two registers and
  -- the offset with its sign extended to 32 bits.
  pub visit_word-simm12 :
      (tok a b : String) (opcode i j immediate : ℕ) (db : Outcome (List Item))
      → lookup tok (entries iog5_two_regs_one_simm_ldst) ≡ some opcode
      → Reg a i
      → Reg b j
      → visit_word lib encoding_stuff (word_simm12 lib i j opcode immediate % 2 ^ 32) db
        ≡ print_instruction lib
            (args_type iog5_two_regs_one_simm_ldst)
            tok
            a
            b
            "zero"
            (shows i j 0 opcode 0 (extend_simm12 (immediate % 2 ^ 12)))
            db
  visit_word-simm12 tok a b opcode i j immediate db ht ha hb =
      let w = word_simm12 lib i j opcode immediate % 2 ^ 32 in
      let rest = immediate % 2 ^ 12 * 2 ^ 4 + opcode in
      let (ho, hd) = decoder-lookup iog5_two_regs_one_simm_ldst tok opcode ht in
      let ri = reg_index-lt a i ha in
      let rj = reg_index-lt b j hb in
      let f =
        has_fields lib laws w 5 i j rest (omega arith) ri rj (omega arith)
          (omega (arith, word_simm12-layout lib laws i j opcode immediate)) in
      visit_word_lem lib w db (shows i j 0 opcode 0 (extend_simm12 (rest % 2 ^ 16 / 2 ^ 4))) tok a b
        "zero" (args_type iog5_two_regs_one_simm_ldst)
        (decode_simm12 w i j opcode rest tok (omega arith) (omega arith) f hd)
        ((decode_reg_name-lookup_iff a i).0 ha) ((decode_reg_name-lookup_iff b j).0 hb)
        ((decode_reg_name-lookup_iff "zero" 0).0 refl)
      ∙ ap
          (λ n.
            print_instruction lib (args_type iog5_two_regs_one_simm_ldst) tok a b "zero"
              (shows i j 0 opcode 0 (extend_simm12 n)) db)
          (omega arith)
