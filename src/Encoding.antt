-- ===== src/Encoding.antt =====
-- encoding_stuff_class.hpp and encoding_stuff_class.cpp of assembler_disassembler/src: the tables
-- of registers and opcodes, and the decoding of an opcode field. A `std::map` is the list of its
-- entries in the order of an iteration.
pub mod Order
pub mod RoundTrip
use frost32_cpu.Prelude.{ℕ, ◌+◌, List, [], ◌∷◌, String, ◌==◌, if◌then◌else◌}
use frost32_cpu.Outcome.{Outcome, ok, exits, eek}

pub data ArgsType : Type 0 where
  three_regs two_regs two_regs_one_imm two_regs_one_simm one_reg_one_pc_one_simm : ArgsType
  one_reg_one_imm branch three_regs_ldst two_regs_one_simm_ldst no_args : ArgsType
  one_ireta_one_reg one_reg_one_ireta one_idsta_one_reg one_reg_one_idsta unknown : ArgsType

abbrev pub MapType : Type 0
MapType = List (String × ℕ)

pub record EncodingStuff : Type 0 where
  pub reg_names_map : MapType
  pub iog0_three_regs_map : MapType
  pub iog1_two_regs_one_imm_map : MapType
  pub iog1_two_regs_one_simm_map : MapType
  pub iog1_one_reg_one_pc_one_simm_map : MapType
  pub iog1_one_reg_one_imm_map : MapType
  pub iog2_branch_map : MapType
  pub iog3_jump_map : MapType
  pub iog4_call_map : MapType
  pub iog5_three_regs_ldst_map : MapType
  pub iog5_two_regs_one_simm_ldst_map : MapType
  pub iog6_no_args_map : MapType
  pub iog6_one_ireta_one_reg_map : MapType
  pub iog6_one_reg_one_ireta_map : MapType
  pub iog6_one_idsta_one_reg_map : MapType
  pub iog6_one_reg_one_idsta_map : MapType

-- `map[name] = temp++` for each of the names in turn.
abbrev pub number_from : ℕ → List String → MapType
number_from temp [] = []
number_from temp (name ∷ names) = (name, temp) ∷ number_from (temp + 1) names

-- The constructor of the class: the opcodes of a group are numbered through all its maps.
abbrev pub encoding_stuff : EncodingStuff
encoding_stuff = record {
  reg_names_map = number_from 0 (
      "zero" ∷ "u0" ∷ "u1" ∷ "u2" ∷ "u3" ∷ "u4" ∷ "u5" ∷ "u6" ∷ "u7" ∷ "u8" ∷ "u9" ∷ "u10" ∷ "temp"
      ∷ "lr" ∷ "fp" ∷ "sp" ∷ []);
  iog0_three_regs_map = number_from 0 (
      "add" ∷ "sub" ∷ "sltu" ∷ "slts" ∷ "sgtu" ∷ "sgts" ∷ "mul" ∷ "and" ∷ "orr" ∷ "xor" ∷ "nor"
      ∷ "lsl" ∷ "lsr" ∷ "asr" ∷ "udiv" ∷ "sdiv" ∷ []);
  iog1_two_regs_one_imm_map =
      ("addi", 0)
      ∷ ("subi", 1)
      ∷ ("sltui", 2)
      ∷ ("sgtui", 4)
      ∷ number_from 6 ("muli" ∷ "andi" ∷ "orri" ∷ "xori" ∷ "nori" ∷ "lsli" ∷ "lsri" ∷ "asri" ∷ []);
  iog1_two_regs_one_simm_map = ("sltsi", 3) ∷ ("sgtsi", 5) ∷ [];
  iog1_one_reg_one_pc_one_simm_map = ("addsi", 14) ∷ [];
  iog1_one_reg_one_imm_map = ("cpyhi", 15) ∷ [];
  iog2_branch_map =
      number_from 0 (
        "bne" ∷ "beq" ∷ "bltu" ∷ "bgeu" ∷ "bleu" ∷ "bgtu" ∷ "blts" ∷ "bges" ∷ "bles" ∷ "bgts" ∷ []);
  iog3_jump_map =
      number_from 0 (
        "jne" ∷ "jeq" ∷ "jltu" ∷ "jgeu" ∷ "jleu" ∷ "jgtu" ∷ "jlts" ∷ "jges" ∷ "jles" ∷ "jgts" ∷ []);
  iog4_call_map =
      number_from 0 (
        "cne" ∷ "ceq" ∷ "cltu" ∷ "cgeu" ∷ "cleu" ∷ "cgtu" ∷ "clts" ∷ "cges" ∷ "cles" ∷ "cgts" ∷ []);
  iog5_three_regs_ldst_map =
      number_from 0 ("ldr" ∷ "ldh" ∷ "ldsh" ∷ "ldb" ∷ "ldsb" ∷ "str" ∷ "sth" ∷ "stb" ∷ []);
  iog5_two_regs_one_simm_ldst_map =
      number_from 8 ("ldri" ∷ "ldhi" ∷ "ldshi" ∷ "ldbi" ∷ "ldsbi" ∷ "stri" ∷ "sthi" ∷ "stbi" ∷ []);
  iog6_no_args_map = ("ei", 0) ∷ ("di", 1) ∷ ("reti", 6) ∷ [];
  iog6_one_ireta_one_reg_map = ("cpy", 2) ∷ [];
  iog6_one_reg_one_ireta_map = ("cpy", 3) ∷ [];
  iog6_one_idsta_one_reg_map = ("cpy", 4) ∷ [];
  iog6_one_reg_one_idsta_map = ("cpy", 5) ∷ [];
}

-- The macro: the first entry of one map with the opcode, and what follows where there is none.
unfoldable pub decode_iteration : MapType → ArgsType → ℕ → String × ArgsType → String × ArgsType
decode_iteration [] args opcode rest = rest
decode_iteration ((name, value) ∷ m) args opcode rest =
    if value == opcode then (name, args) else decode_iteration m args opcode rest

abbrev pub unknown_instruction : String × ArgsType
unknown_instruction = ("unknown_instruction", unknown)

-- The loop over the register names.
unfoldable pub find_reg_name : MapType → ℕ → Outcome String
find_reg_name [] reg_index = exits (eek "EncodingStuff::decode_reg_name():  Eek!")
find_reg_name ((name, value) ∷ m) reg_index =
    if value == reg_index then ok name else find_reg_name m reg_index

unfoldable pub decode_reg_name : EncodingStuff → ℕ → Outcome String
unfolding find_reg_name
decode_reg_name es reg_index = find_reg_name es.reg_names_map reg_index

module _ (es : EncodingStuff) (opcode : ℕ) where
  unfoldable pub get_iog0_instr_from_opcode : String × ArgsType
  unfolding decode_iteration
  get_iog0_instr_from_opcode =
      decode_iteration es.iog0_three_regs_map three_regs opcode unknown_instruction

  unfoldable pub get_iog1_instr_from_opcode : String × ArgsType
  unfolding decode_iteration
  get_iog1_instr_from_opcode =
      decode_iteration es.iog1_two_regs_one_imm_map two_regs_one_imm opcode (
        decode_iteration es.iog1_two_regs_one_simm_map two_regs_one_simm opcode (
          decode_iteration es.iog1_one_reg_one_pc_one_simm_map one_reg_one_pc_one_simm opcode (
            decode_iteration es.iog1_one_reg_one_imm_map one_reg_one_imm opcode
              unknown_instruction)))

  unfoldable pub get_iog2_instr_from_opcode : String × ArgsType
  unfolding decode_iteration
  get_iog2_instr_from_opcode = decode_iteration es.iog2_branch_map branch opcode unknown_instruction

  unfoldable pub get_iog3_instr_from_opcode : String × ArgsType
  unfolding decode_iteration
  get_iog3_instr_from_opcode =
      decode_iteration es.iog3_jump_map three_regs opcode unknown_instruction

  unfoldable pub get_iog4_instr_from_opcode : String × ArgsType
  unfolding decode_iteration
  get_iog4_instr_from_opcode =
      decode_iteration es.iog4_call_map three_regs opcode unknown_instruction

  unfoldable pub get_iog5_instr_from_opcode : String × ArgsType
  unfolding decode_iteration
  get_iog5_instr_from_opcode = decode_iteration es.iog5_three_regs_ldst_map three_regs_ldst opcode (
      decode_iteration es.iog5_two_regs_one_simm_ldst_map two_regs_one_simm_ldst opcode
        unknown_instruction)

  unfoldable pub get_iog6_instr_from_opcode : String × ArgsType
  unfolding decode_iteration
  get_iog6_instr_from_opcode = decode_iteration es.iog6_no_args_map no_args opcode (
      decode_iteration es.iog6_one_ireta_one_reg_map one_ireta_one_reg opcode (
        decode_iteration es.iog6_one_reg_one_ireta_map one_reg_one_ireta opcode (
          decode_iteration es.iog6_one_idsta_one_reg_map one_idsta_one_reg opcode (
            decode_iteration es.iog6_one_reg_one_idsta_map one_reg_one_idsta opcode
              unknown_instruction))))
