-- ===== src/Assembler/Encode.antt =====
-- The functions `__encode_*` of assembler_class.cpp, which turn one instruction into its words,
-- and the warnings `__warn_if_*` of assembler_class.hpp.
pub mod Ranges
pub mod Targets
use frost32_cpu.Prelude.{
  ℕ, ◌+◌, ◌-◌, ◌%◌, ◌^◌, [], ◌∷◌, ◌++◌, String, Bool, true, false, not, ◌&&◌, ◌==◌, if◌then◌else◌,
}
use frost32_cpu.Prelude.Int.{ℤ, eqb_ℤ, shr_ℤ, to_u64, to_s64, to_s16, to_s12}
use frost32_cpu.Prelude.Text.{str_eq, lookup}
use frost32_cpu.Orange.{Orange}
use frost32_cpu.Outcome.{Outcome, at}
use frost32_cpu.Encoding.{encoding_stuff}
use frost32_cpu.Assembler.{
  Assembler, Warning, imm16, simm16, branch_offset, simm12, M, ◌>>=◌, ◌>>◌, get, modify, lift,
  is_pass_one,
}
use frost32_cpu.Assembler.Groups.{
  encode_instr_opcode_group_0, encode_instr_opcode_group_1, encode_instr_opcode_group_2,
  encode_instr_opcode_group_3, encode_instr_opcode_group_4, encode_instr_opcode_group_5_no_simm,
  encode_instr_opcode_group_5_with_simm,
}

-- The argument of a u32 parameter.
abbrev pub to_u32 : ℤ → ℕ
to_u32 n = to_u64 n % 2 ^ 32

-- A warning on the second pass, where a value is not what its field keeps of it.
abbrev pub warn_unless : Bool → Warning → Assembler → Assembler
warn_unless fits warning s =
    if is_pass_one s && not fits then record s { warnings = s.warnings ++ warning ∷ [] } else s

unfoldable pub warn_if_imm16_out_of_range : ℤ → Assembler → Assembler
warn_if_imm16_out_of_range immediate =
    let imm64 = to_u64 immediate in warn_unless (imm64 == imm64 % 2 ^ 16) (imm16 immediate)

unfoldable pub warn_if_simm16_out_of_range : ℤ → Bool → Assembler → Assembler
warn_if_simm16_out_of_range immediate is_for_branch =
    let kept = to_s16 (to_u64 immediate % 2 ^ 16) in
    warn_unless (eqb_ℤ immediate kept)
      (if is_for_branch then branch_offset immediate else simm16 immediate)

unfoldable pub warn_if_simm12_out_of_range : ℤ → Assembler → Assembler
warn_if_simm12_out_of_range immediate =
    let kept = to_s12 (to_u64 immediate % 2 ^ 12) in
    warn_unless (eqb_ℤ immediate kept) (simm12 immediate)

unfoldable pub get_reg_temp_index : Outcome ℕ
get_reg_temp_index = at (lookup "temp" encoding_stuff.reg_names_map)

-- `raw_immediate - __pc.curr - sizeof(s32)`, which C++ computes as a u64.
abbrev pub branch_immediate : ℤ → ℕ → ℕ
branch_immediate raw_immediate pc = (to_u64 raw_immediate + (2 ^ 64 - pc) + (2 ^ 64 - 4)) % 2 ^ 64

module _ (lib : Orange) where
  unfoldable pub encode_alu_op_three_regs : String → ℕ → ℕ → ℕ → M (Unit {0})
  encode_alu_op_three_regs instr_name a b c = do
    opcode ← lift (at (lookup instr_name encoding_stuff.iog0_three_regs_map))
    modify (encode_instr_opcode_group_0 lib a b c opcode)

  unfoldable pub encode_alu_op_two_regs_one_imm : String → ℕ → ℕ → ℤ → M (Unit {0})
  encode_alu_op_two_regs_one_imm instr_name a b immediate =
      if not (str_eq instr_name "sltsi") && not (str_eq instr_name "sgtsi")
      then (do
        opcode ← lift (at (lookup instr_name encoding_stuff.iog1_two_regs_one_imm_map))
        modify (warn_if_imm16_out_of_range immediate)
        modify (encode_instr_opcode_group_1 lib a b opcode (to_u32 immediate)))
      else (do
        opcode ← lift (at (lookup instr_name encoding_stuff.iog1_two_regs_one_simm_map))
        modify (warn_if_simm16_out_of_range immediate false)
        modify (encode_instr_opcode_group_1 lib a b opcode (to_u32 immediate)))

  unfoldable pub encode_inv : ℕ → ℕ → M (Unit {0})
  unfolding encode_alu_op_three_regs
  encode_inv a b = encode_alu_op_three_regs "nor" a b 0x0

  unfoldable pub encode_invi : ℕ → ℤ → M (Unit {0})
  unfolding encode_alu_op_two_regs_one_imm
  encode_invi a immediate = encode_alu_op_two_regs_one_imm "nori" a 0x0 immediate

  unfoldable pub encode_cpy_ra_rb : ℕ → ℕ → M (Unit {0})
  encode_cpy_ra_rb a b = do
    opcode ← lift (at (lookup "add" encoding_stuff.iog0_three_regs_map))
    modify (encode_instr_opcode_group_0 lib a b 0x0 opcode)

  unfoldable pub encode_cpy_ra_pc : ℕ → M (Unit {0})
  encode_cpy_ra_pc a = do
    opcode ← lift (at (lookup "addsi" encoding_stuff.iog1_one_reg_one_pc_one_simm_map))
    modify (encode_instr_opcode_group_1 lib a 0x0 opcode 0x0000)

  unfoldable pub encode_cpyi : ℕ → ℤ → M (Unit {0})
  unfolding encode_alu_op_two_regs_one_imm
  encode_cpyi a immediate = encode_alu_op_two_regs_one_imm "addi" a 0x0 immediate

  -- `addi rA, zero, (imm32 & 0xffff)`, then `cpyhi rA, (imm32 >> 16)`.
  unfoldable pub encode_cpya : ℕ → ℤ → M (Unit {0})
  encode_cpya a immediate = do
    first_opcode ← lift (at (lookup "addi" encoding_stuff.iog1_two_regs_one_imm_map))
    modify (encode_instr_opcode_group_1 lib a 0x0 first_opcode (to_u32 immediate))
    second_opcode ← lift (at (lookup "cpyhi" encoding_stuff.iog1_one_reg_one_imm_map))
    modify (encode_instr_opcode_group_1 lib a 0x0 second_opcode (to_u32 (shr_ℤ immediate 16)))

  unfoldable pub encode_relative_branch : String → ℕ → ℕ → ℤ → M (Unit {0})
  encode_relative_branch instr_name a b raw_immediate = do
    opcode ← lift (at (lookup instr_name encoding_stuff.iog2_branch_map))
    s ← get
    let immediate = branch_immediate raw_immediate s.pc.curr
    modify (warn_if_simm16_out_of_range (to_s64 immediate) true)
    modify (encode_instr_opcode_group_2 lib a b opcode (immediate % 2 ^ 32))

  unfoldable pub encode_jump : String → ℕ → ℕ → ℕ → M (Unit {0})
  encode_jump instr_name a b c = do
    opcode ← lift (at (lookup instr_name encoding_stuff.iog3_jump_map))
    modify (encode_instr_opcode_group_3 lib a b c opcode)

  unfoldable pub encode_call : String → ℕ → ℕ → ℕ → M (Unit {0})
  encode_call instr_name a b c = do
    opcode ← lift (at (lookup instr_name encoding_stuff.iog4_call_map))
    modify (encode_instr_opcode_group_4 lib a b c opcode)

  unfoldable pub encode_ldst_three_regs : String → ℕ → ℕ → ℕ → M (Unit {0})
  encode_ldst_three_regs instr_name a b c = do
    opcode ← lift (at (lookup instr_name encoding_stuff.iog5_three_regs_ldst_map))
    modify (encode_instr_opcode_group_5_no_simm lib a b c opcode)

  unfoldable pub encode_ldst_two_regs_one_simm : String → ℕ → ℕ → ℤ → M (Unit {0})
  encode_ldst_two_regs_one_simm instr_name a b immediate = do
    opcode ← lift (at (lookup instr_name encoding_stuff.iog5_two_regs_one_simm_ldst_map))
    modify (warn_if_simm12_out_of_range immediate)
    modify (encode_instr_opcode_group_5_with_simm lib a b opcode (to_u32 immediate))
