-- ===== src/Encoding/RoundTrip.antt =====
-- Names to opcodes and back, over the tables of encoding_stuff_class.cpp.
use mathlib.Core.Path.{subst₂}
use frost32_cpu.Prelude.{
  ◌==◌, ◌<◌, ◌↔◌, ℕ, ◌≡◌, sym, [], ◌∷◌, String, some, arith, Bool-cases, inl, inr,
}
use frost32_cpu.Prelude.Text.{str_eq, str_eq_iff, lookup}
use frost32_cpu.Outcome.{ok}
use frost32_cpu.Encoding.{
  encoding_stuff, MapType, ArgsType, three_regs, two_regs_one_imm, two_regs_one_simm,
  one_reg_one_pc_one_simm, one_reg_one_imm, branch, three_regs_ldst, two_regs_one_simm_ldst,
  no_args, one_ireta_one_reg, one_reg_one_ireta, one_idsta_one_reg, one_reg_one_idsta,
  decode_reg_name, find_reg_name, get_iog0_instr_from_opcode, get_iog1_instr_from_opcode,
  get_iog2_instr_from_opcode, get_iog3_instr_from_opcode, get_iog4_instr_from_opcode,
  get_iog5_instr_from_opcode, get_iog6_instr_from_opcode,
}

-- A statement about each entry of a table.
abbrev pub Each : (String → ℕ → Type 0) → MapType → Type 0
Each P [] = Unit
Each P ((name, value) ∷ m) = P name value × Each P m

pub Each-lookup :
    (P : String → ℕ → Type 0) (m : MapType)
    → Each P m
    → (name : String) (value : ℕ) → lookup name m ≡ some value
    → P name value
Each-lookup P [] h name value e = cc
Each-lookup P ((n, v) ∷ m) h name value e = elim (Bool-cases (str_eq name n)) [
  | inl t ↦ subst₂ P (sym ((str_eq_iff name n).0 t)) (ground arith) h.0
  | inr t ↦ Each-lookup P m h.1 name value (ground arith)
]

-- The tables of opcodes, with what the decoder of their group reports for their names.
pub data Table : Type 0 where
  iog0_three_regs iog1_two_regs_one_imm iog1_two_regs_one_simm iog1_one_reg_one_pc_one_simm
        iog1_one_reg_one_imm :
      Table
  iog2_branch iog3_jump iog4_call iog5_three_regs_ldst iog5_two_regs_one_simm_ldst : Table
  iog6_no_args iog6_one_ireta_one_reg iog6_one_reg_one_ireta iog6_one_idsta_one_reg
        iog6_one_reg_one_idsta :
      Table

abbrev pub entries : Table → MapType
entries iog0_three_regs = encoding_stuff.iog0_three_regs_map
entries iog1_two_regs_one_imm = encoding_stuff.iog1_two_regs_one_imm_map
entries iog1_two_regs_one_simm = encoding_stuff.iog1_two_regs_one_simm_map
entries iog1_one_reg_one_pc_one_simm = encoding_stuff.iog1_one_reg_one_pc_one_simm_map
entries iog1_one_reg_one_imm = encoding_stuff.iog1_one_reg_one_imm_map
entries iog2_branch = encoding_stuff.iog2_branch_map
entries iog3_jump = encoding_stuff.iog3_jump_map
entries iog4_call = encoding_stuff.iog4_call_map
entries iog5_three_regs_ldst = encoding_stuff.iog5_three_regs_ldst_map
entries iog5_two_regs_one_simm_ldst = encoding_stuff.iog5_two_regs_one_simm_ldst_map
entries iog6_no_args = encoding_stuff.iog6_no_args_map
entries iog6_one_ireta_one_reg = encoding_stuff.iog6_one_ireta_one_reg_map
entries iog6_one_reg_one_ireta = encoding_stuff.iog6_one_reg_one_ireta_map
entries iog6_one_idsta_one_reg = encoding_stuff.iog6_one_idsta_one_reg_map
entries iog6_one_reg_one_idsta = encoding_stuff.iog6_one_reg_one_idsta_map

abbrev pub args_type : Table → ArgsType
args_type iog0_three_regs = three_regs
args_type iog1_two_regs_one_imm = two_regs_one_imm
args_type iog1_two_regs_one_simm = two_regs_one_simm
args_type iog1_one_reg_one_pc_one_simm = one_reg_one_pc_one_simm
args_type iog1_one_reg_one_imm = one_reg_one_imm
args_type iog2_branch = branch
args_type iog3_jump = three_regs
args_type iog4_call = three_regs
args_type iog5_three_regs_ldst = three_regs_ldst
args_type iog5_two_regs_one_simm_ldst = two_regs_one_simm_ldst
args_type iog6_no_args = no_args
args_type iog6_one_ireta_one_reg = one_ireta_one_reg
args_type iog6_one_reg_one_ireta = one_reg_one_ireta
args_type iog6_one_idsta_one_reg = one_idsta_one_reg
args_type iog6_one_reg_one_idsta = one_reg_one_idsta

abbrev pub decoder : Table → ℕ → String × ArgsType
decoder iog0_three_regs = get_iog0_instr_from_opcode encoding_stuff
decoder iog1_two_regs_one_imm = get_iog1_instr_from_opcode encoding_stuff
decoder iog1_two_regs_one_simm = get_iog1_instr_from_opcode encoding_stuff
decoder iog1_one_reg_one_pc_one_simm = get_iog1_instr_from_opcode encoding_stuff
decoder iog1_one_reg_one_imm = get_iog1_instr_from_opcode encoding_stuff
decoder iog2_branch = get_iog2_instr_from_opcode encoding_stuff
decoder iog3_jump = get_iog3_instr_from_opcode encoding_stuff
decoder iog4_call = get_iog4_instr_from_opcode encoding_stuff
decoder iog5_three_regs_ldst = get_iog5_instr_from_opcode encoding_stuff
decoder iog5_two_regs_one_simm_ldst = get_iog5_instr_from_opcode encoding_stuff
decoder iog6_no_args = get_iog6_instr_from_opcode encoding_stuff
decoder iog6_one_ireta_one_reg = get_iog6_instr_from_opcode encoding_stuff
decoder iog6_one_reg_one_ireta = get_iog6_instr_from_opcode encoding_stuff
decoder iog6_one_idsta_one_reg = get_iog6_instr_from_opcode encoding_stuff
decoder iog6_one_reg_one_idsta = get_iog6_instr_from_opcode encoding_stuff

-- An opcode fits its field of four bits, and its decoder finds its name.
abbrev Fits : Table → String → ℕ → Type 0
Fits t name opcode = (opcode < 16) × (decoder t opcode ≡ (name, args_type t))

entries-Fits : (t : Table) → Each (Fits t) (entries t)
unfolding get_iog0_instr_from_opcode get_iog1_instr_from_opcode get_iog2_instr_from_opcode
    get_iog3_instr_from_opcode get_iog4_instr_from_opcode get_iog5_instr_from_opcode
    get_iog6_instr_from_opcode
entries-Fits iog0_three_regs = ground arith
entries-Fits iog1_two_regs_one_imm = ground arith
entries-Fits iog1_two_regs_one_simm = ground arith
entries-Fits iog1_one_reg_one_pc_one_simm = ground arith
entries-Fits iog1_one_reg_one_imm = ground arith
entries-Fits iog2_branch = ground arith
entries-Fits iog3_jump = ground arith
entries-Fits iog4_call = ground arith
entries-Fits iog5_three_regs_ldst = ground arith
entries-Fits iog5_two_regs_one_simm_ldst = ground arith
entries-Fits iog6_no_args = ground arith
entries-Fits iog6_one_ireta_one_reg = ground arith
entries-Fits iog6_one_reg_one_ireta = ground arith
entries-Fits iog6_one_idsta_one_reg = ground arith
entries-Fits iog6_one_reg_one_idsta = ground arith

-- In each of the fifteen tables, an opcode that a name is looked up to fits its four bits, and the
-- decoder of the group finds for it that name, with the arguments of the table.
pub decoder-lookup :
    (t : Table) (name : String) (opcode : ℕ)
    → lookup name (entries t) ≡ some opcode
    → (opcode < 16) × (decoder t opcode ≡ (name, args_type t))
decoder-lookup t = Each-lookup (Fits t) (entries t) (entries-Fits t)

abbrev IsReg : String → ℕ → Type 0
IsReg name i = (i < 16) × (decode_reg_name encoding_stuff i ≡ ok name)

reg_names_map-IsReg : Each IsReg encoding_stuff.reg_names_map
unfolding decode_reg_name
reg_names_map-IsReg = ground arith

Each-find :
    (P : String → ℕ → Type 0) (m : MapType)
    → Each P m
    → (name : String) (i : ℕ) → find_reg_name m i ≡ ok name
    → P name i
unfolding find_reg_name
Each-find P [] h name i e = cc
Each-find P ((n, v) ∷ m) h name i e = elim (Bool-cases (v == i)) [
  | inl t ↦ subst₂ P (ground arith) (ground arith) h.0
  | inr t ↦ Each-find P m h.1 name i (ground arith)
]

lookup-decode_reg_name :
    (name : String) (i : ℕ)
    → decode_reg_name encoding_stuff i ≡ ok name
    → lookup name encoding_stuff.reg_names_map ≡ some i
unfolding decode_reg_name
lookup-decode_reg_name =
    Each-find (λ name i. lookup name encoding_stuff.reg_names_map ≡ some i)
      encoding_stuff.reg_names_map (ground arith)

-- A register's index is that of a name exactly when the index decodes to the name; an index fits
-- four bits.
pub decode_reg_name-lookup_iff :
    (name : String) (i : ℕ)
    → (lookup name encoding_stuff.reg_names_map ≡ some i)
      ↔ (decode_reg_name encoding_stuff i ≡ ok name)
decode_reg_name-lookup_iff name i = (
  λ e. (Each-lookup IsReg encoding_stuff.reg_names_map reg_names_map-IsReg name i e).1,
  lookup-decode_reg_name name i,
)

pub reg_index-lt :
    (name : String) (i : ℕ) → lookup name encoding_stuff.reg_names_map ≡ some i → i < 16
reg_index-lt name i e =
    (Each-lookup IsReg encoding_stuff.reg_names_map reg_names_map-IsReg name i e).0
