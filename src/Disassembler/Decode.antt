-- ===== src/Disassembler/Decode.antt =====
-- The `decode_*` functions of disassembler_class.hpp, and the `switch` of `visitLine` that chooses
-- among them.
use frost32_cpu.Prelude.{
  ℕ, ◌+◌, ◌-◌, ◌%◌, ◌^◌, String, Option, none, some, ◌==◌, ltb, if◌then◌else◌,
}
use frost32_cpu.Orange.{Orange}
use frost32_cpu.Encoding.{
  EncodingStuff, ArgsType, get_iog0_instr_from_opcode, get_iog1_instr_from_opcode,
  get_iog2_instr_from_opcode, get_iog3_instr_from_opcode, get_iog4_instr_from_opcode,
  get_iog5_instr_from_opcode,
}

-- The local variables of `visitLine`; `simm12` is an s32, kept as the pattern that is printed.
pub record Fields : Type 0 where
  pub reg_a_index : ℕ
  pub reg_b_index : ℕ
  pub reg_c_index : ℕ
  pub opcode : ℕ
  pub immediate : ℕ
  pub simm12 : ℕ

-- A bit field of 12 bits, read as an s16 and widened to an s32.
abbrev pub extend_simm12 : ℕ → ℕ
extend_simm12 bits =
    let kept = bits % 2 ^ 12 in if ltb kept (2 ^ 11) then kept else 2 ^ 32 - 2 ^ 12 + kept

abbrev pub named : Fields → String × ArgsType → Fields × String × ArgsType
named f (name, args) = (f, name, args)

module _ (lib : Orange) where
  open lib use {get_bits_with_range}

  unfoldable pub decode_iog : ℕ → ℕ
  decode_iog instruction = get_bits_with_range instruction 31 28

  -- Groups 0, 3, 4 and 6 have one layout, in a function for each.
  unfoldable pub decode_instr_opcode_group_0 : ℕ → Fields
  decode_instr_opcode_group_0 instruction = record {
    reg_a_index = get_bits_with_range instruction 27 24;
    reg_b_index = get_bits_with_range instruction 23 20;
    reg_c_index = get_bits_with_range instruction 19 16;
    opcode = get_bits_with_range instruction 3 0;
    immediate = 0;
    simm12 = 0;
  }

  unfoldable pub decode_instr_opcode_group_1 : ℕ → Fields
  decode_instr_opcode_group_1 instruction = record {
    reg_a_index = get_bits_with_range instruction 27 24;
    reg_b_index = get_bits_with_range instruction 23 20;
    reg_c_index = 0;
    opcode = get_bits_with_range instruction 19 16;
    immediate = get_bits_with_range instruction 15 0;
    simm12 = 0;
  }

  unfoldable pub decode_instr_opcode_group_2 : ℕ → Fields
  decode_instr_opcode_group_2 instruction = record {
    reg_a_index = get_bits_with_range instruction 27 24;
    reg_b_index = get_bits_with_range instruction 23 20;
    reg_c_index = 0;
    opcode = get_bits_with_range instruction 19 16;
    immediate = get_bits_with_range instruction 15 0;
    simm12 = 0;
  }

  unfoldable pub decode_instr_opcode_group_3 : ℕ → Fields
  decode_instr_opcode_group_3 instruction = record {
    reg_a_index = get_bits_with_range instruction 27 24;
    reg_b_index = get_bits_with_range instruction 23 20;
    reg_c_index = get_bits_with_range instruction 19 16;
    opcode = get_bits_with_range instruction 3 0;
    immediate = 0;
    simm12 = 0;
  }

  unfoldable pub decode_instr_opcode_group_4 : ℕ → Fields
  decode_instr_opcode_group_4 instruction = record {
    reg_a_index = get_bits_with_range instruction 27 24;
    reg_b_index = get_bits_with_range instruction 23 20;
    reg_c_index = get_bits_with_range instruction 19 16;
    opcode = get_bits_with_range instruction 3 0;
    immediate = 0;
    simm12 = 0;
  }

  unfoldable pub decode_instr_opcode_group_5 : ℕ → Fields
  decode_instr_opcode_group_5 instruction = record {
    reg_a_index = get_bits_with_range instruction 27 24;
    reg_b_index = get_bits_with_range instruction 23 20;
    reg_c_index = get_bits_with_range instruction 19 16;
    opcode = get_bits_with_range instruction 3 0;
    immediate = 0;
    simm12 = extend_simm12 (get_bits_with_range instruction 15 4);
  }

  -- Nothing calls this one.
  unfoldable pub decode_instr_opcode_group_6 : ℕ → Fields
  decode_instr_opcode_group_6 instruction = record {
    reg_a_index = get_bits_with_range instruction 27 24;
    reg_b_index = get_bits_with_range instruction 23 20;
    reg_c_index = get_bits_with_range instruction 19 16;
    opcode = get_bits_with_range instruction 3 0;
    immediate = 0;
    simm12 = 0;
  }

  -- The first `switch`: the fields, the name and the kind of arguments; `none` is its default.
  unfoldable pub decode_fields : EncodingStuff → ℕ → Option (Fields × String × ArgsType)
  decode_fields es instruction =
      let iog = decode_iog instruction in
      let f0 = decode_instr_opcode_group_0 instruction in
      let f1 = decode_instr_opcode_group_1 instruction in
      let f2 = decode_instr_opcode_group_2 instruction in
      let f3 = decode_instr_opcode_group_3 instruction in
      let f4 = decode_instr_opcode_group_4 instruction in
      let f5 = decode_instr_opcode_group_5 instruction in
      if iog == 0x0
      then some (named f0 (get_iog0_instr_from_opcode es f0.opcode))
      else if iog == 0x1
      then some (named f1 (get_iog1_instr_from_opcode es f1.opcode))
      else if iog == 0x2
      then some (named f2 (get_iog2_instr_from_opcode es f2.opcode))
      else if iog == 0x3
      then some (named f3 (get_iog3_instr_from_opcode es f3.opcode))
      else if iog == 0x4
      then some (named f4 (get_iog4_instr_from_opcode es f4.opcode))
      else if iog == 0x5
      then some (named f5 (get_iog5_instr_from_opcode es f5.opcode))
      else if iog == 0x6
      then some (named f4 (get_iog4_instr_from_opcode es f4.opcode))
      else none
