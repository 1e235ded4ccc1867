-- ===== src/Disassembler/RoundTrip/ThreeRegs.antt =====
-- Words that hold three registers, of groups 0, 3, 4, 5 and 6, disassembled.
use frost32_cpu.Prelude.{
  ap, none, ℕ, ◌+◌, ◌*◌, ◌/◌, ◌%◌, ◌^◌, ◌<◌, ◌≡◌, ◌∙◌, refl, List, String, some, arith,
}
use frost32_cpu.Prelude.Text.{lookup}
use frost32_cpu.Orange.{Orange, Laws}
use frost32_cpu.Outcome.{bind, Outcome}
use frost32_cpu.Output.{Item}
use frost32_cpu.Encoding.{decode_reg_name, encoding_stuff}
use frost32_cpu.Encoding.RoundTrip.{
  Table, entries, decoder-lookup, decode_reg_name-lookup_iff, reg_index-lt, iog0_three_regs,
  args_type, decoder, iog3_jump, iog4_call, iog5_three_regs_ldst,
}
use frost32_cpu.Assembler.Groups.{word_three_regs, word_group_0}
use frost32_cpu.Assembler.Groups.Layout.{
  word_three_regs-layout, word_group_0-layout, three_regs_sum,
}
use frost32_cpu.Disassembler.{with_newline, visit_word, print_instruction}
use frost32_cpu.Disassembler.Decode.{
  extend_simm12, decode_fields, decode_iog, decode_instr_opcode_group_0,
  decode_instr_opcode_group_3, decode_instr_opcode_group_4, decode_instr_opcode_group_5,
}
use frost32_cpu.Disassembler.RoundTrip.{Reg, HasFields, visit_word_lem, has_fields, shows}

-- The tables whose instructions take three registers, and their words.
pub data ThreeRegs : Type 0 where
  alu jump call ldst : ThreeRegs

abbrev pub three_regs_table : ThreeRegs → Table
three_regs_table alu = iog0_three_regs
three_regs_table jump = iog3_jump
three_regs_table call = iog4_call
three_regs_table ldst = iog5_three_regs_ldst

abbrev pub three_regs_word : Orange → ThreeRegs → ℕ → ℕ → ℕ → ℕ → ℕ
three_regs_word lib alu = word_group_0 lib
three_regs_word lib jump = word_three_regs lib 0b0011
three_regs_word lib call = word_three_regs lib 0b0100
three_regs_word lib ldst = word_three_regs lib 0b0101

abbrev three_regs_group : ThreeRegs → ℕ
three_regs_group alu = 0
three_regs_group jump = 3
three_regs_group call = 4
three_regs_group ldst = 5

module _ (lib : Orange) (laws : Laws lib) where
  three_regs_group-lt : (t : ThreeRegs) → three_regs_group t < 16
  three_regs_group-lt alu = omega arith
  three_regs_group-lt jump = omega arith
  three_regs_group-lt call = omega arith
  three_regs_group-lt ldst = omega arith

  print_instruction-simm12 :
      (t : ThreeRegs) (tok a b c : String) (i j k opcode s : ℕ) (db : Outcome (List Item))
      → print_instruction lib (args_type (three_regs_table t)) tok a b c (shows i j k opcode 0 s) db
        ≡ print_instruction lib
            (args_type (three_regs_table t))
            tok
            a
            b
            c
            (shows i j k opcode 0 0)
            db
  unfolding print_instruction
  print_instruction-simm12 alu tok a b c i j k opcode s db = refl
  print_instruction-simm12 jump tok a b c i j k opcode s db = refl
  print_instruction-simm12 call tok a b c i j k opcode s db = refl
  print_instruction-simm12 ldst tok a b c i j k opcode s db = refl

  three_regs_word-layout :
      (t : ThreeRegs) (i j k opcode : ℕ)
      → three_regs_word lib t i j k opcode ≡ three_regs_sum (three_regs_group t) i j k opcode
  three_regs_word-layout alu = word_group_0-layout lib laws
  three_regs_word-layout jump = word_three_regs-layout lib laws 3
  three_regs_word-layout call = word_three_regs-layout lib laws 4
  three_regs_word-layout ldst = word_three_regs-layout lib laws 5

  decode_three_regs :
      (t : ThreeRegs) (w i j k opcode : ℕ) (tok : String)
      → opcode < 16
      → HasFields lib.get_bits_with_range w (three_regs_group t) i j (k * 2 ^ 16 + opcode)
      → decoder (three_regs_table t) opcode ≡ (tok, args_type (three_regs_table t))
      → (simm12 : ℕ) × (decode_fields lib encoding_stuff w
          ≡ some (shows i j k opcode 0 simm12, tok, args_type (three_regs_table t)))
  unfolding decode_fields decode_iog decode_instr_opcode_group_0 decode_instr_opcode_group_3
      decode_instr_opcode_group_4 decode_instr_opcode_group_5
  decode_three_regs alu w i j k opcode tok ho f hd = (0, ground (arith, f, hd))
  decode_three_regs jump w i j k opcode tok ho f hd = (0, ground (arith, f, hd))
  decode_three_regs call w i j k opcode tok ho f hd = (0, ground (arith, f, hd))
  decode_three_regs ldst w i j k opcode tok ho f hd =
      (extend_simm12 ((k * 2 ^ 16 + opcode) % 2 ^ 16 / 2 ^ 4), ground (arith, f, hd))

  -- A word of three registers is printed with its name and the three names.
  pub visit_word-three_regs :
      (t : ThreeRegs) (tok a b c : String) (opcode i j k : ℕ) (db : Outcome (List Item))
      → lookup tok (entries (three_regs_table t)) ≡ some opcode
      → Reg a i
      → Reg b j
      → Reg c k
      → visit_word lib encoding_stuff (three_regs_word lib t i j k opcode % 2 ^ 32) db
        ≡ print_instruction lib
            (args_type (three_regs_table t))
            tok
            a
            b
            c
            (shows i j k opcode 0 0)
            db
  visit_word-three_regs t tok a b c opcode i j k db ht ha hb hc =
      let w = three_regs_word lib t i j k opcode % 2 ^ 32 in
      let (ho, hd) = decoder-lookup (three_regs_table t) tok opcode ht in
      let ri = reg_index-lt a i ha in
      let rj = reg_index-lt b j hb in
      let rk = reg_index-lt c k hc in
      let f =
        has_fields lib laws w (three_regs_group t) i j (k * 2 ^ 16 + opcode) (three_regs_group-lt t)
          ri rj (omega arith)
          (omega (arith, three_regs_word-layout t i j k opcode, three_regs_group-lt t)) in
      let (s, e) = decode_three_regs t w i j k opcode tok ho f hd in
      visit_word_lem lib w db (shows i j k opcode 0 s) tok a b c (args_type (three_regs_table t)) e
        ((decode_reg_name-lookup_iff a i).0 ha) ((decode_reg_name-lookup_iff b j).0 hb)
        ((decode_reg_name-lookup_iff c k).0 hc)
      ∙ print_instruction-simm12 t tok a b c i j k opcode s db

  decode_fields-group_6 :
      (w v a b rest : ℕ)
      → HasFields lib.get_bits_with_range w 6 a b rest
      → HasFields lib.get_bits_with_range v 4 a b rest
      → decode_fields lib encoding_stuff w ≡ decode_fields lib encoding_stuff v
  unfolding decode_fields decode_iog decode_instr_opcode_group_4
  decode_fields-group_6 w v a b rest f g = ground (arith, f, g)

  -- A word of group 6 is printed as the word of group 4 with the same registers and opcode: the
  -- disassembler shows the instructions on interrupts as calls.
  pub visit_word-group_6 :
      (i j k opcode : ℕ) (db : Outcome (List Item))
      → i < 16
      → j < 16
      → k < 16
      → opcode < 16
      → visit_word lib encoding_stuff (word_three_regs lib 6 i j k opcode % 2 ^ 32) db
        ≡ visit_word lib encoding_stuff (word_three_regs lib 4 i j k opcode % 2 ^ 32) db
  unfolding visit_word
  visit_word-group_6 i j k opcode db hi hj hk ho =
      let w = word_three_regs lib 6 i j k opcode % 2 ^ 32 in
      let v = word_three_regs lib 4 i j k opcode % 2 ^ 32 in
      let rest = k * 2 ^ 16 + opcode in
      let f =
        has_fields lib laws w 6 i j rest (omega arith) hi hj (omega arith)
          (omega (arith, word_three_regs-layout lib laws 6 i j k opcode)) in
      let g =
        has_fields lib laws v 4 i j rest (omega arith) hi hj (omega arith)
          (omega (arith, word_three_regs-layout lib laws 4 i j k opcode)) in
      ap
        (λ r. elim r [
          | none ↦ with_newline db
          | some (fs, name, args) ↦ bind (decode_reg_name encoding_stuff fs.reg_a_index) λ a.
              bind (decode_reg_name encoding_stuff fs.reg_b_index) λ b.
                bind (decode_reg_name encoding_stuff fs.reg_c_index)
                  λ c. print_instruction lib args name a b c fs db
        ])
        (decode_fields-group_6 w v i j rest f g)
