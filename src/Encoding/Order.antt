-- ===== src/Encoding/Order.antt =====
-- The tables of encoding_stuff_class.cpp are keyed by pointers, so an iteration goes through them
-- in an order that the program does not choose.
use mathlib.Core.HLevel.{hedberg}
use mathlib.Core.List.{Perm, Permᴰ}
use mathlib.Core.Logic.{∥∥₁_elim}
use frost32_cpu.Prelude.{
  ℕ, suc, ◌≤◌, ◌≡◌, ◌≢◌, refl, ap, ◌∙◌, [], ◌∷◌, String, ◌==◌, if◌then◌else◌, arith, inl, inr,
  Bool-cases,
}
use frost32_cpu.Prelude.Text.{str_eq_iff, str_eq}
use frost32_cpu.Encoding.{
  ArgsType, MapType, EncodingStuff, encoding_stuff, decode_iteration, get_iog0_instr_from_opcode,
  get_iog1_instr_from_opcode, get_iog2_instr_from_opcode, get_iog3_instr_from_opcode,
  get_iog4_instr_from_opcode, get_iog5_instr_from_opcode, get_iog6_instr_from_opcode,
}

-- How many entries have the opcode.
abbrev count_value : ℕ → MapType → ℕ
count_value v [] = 0
count_value v ((name, value) ∷ m) = if value == v then suc (count_value v m) else count_value v m

count_value-perm : (v : ℕ) {m m' : MapType} → Permᴰ m m' → count_value v m ≡ count_value v m'
count_value-perm v Permᴰ.nil = refl
count_value-perm v (Permᴰ.cons e p) = ground (arith, e, count_value-perm v p)
count_value-perm v (Permᴰ.swap e f) = ground (arith, e, f)
count_value-perm v (Permᴰ.trans p q) = count_value-perm v p ∙ count_value-perm v q

-- At most one entry has the opcode, so it does not matter which comes first.
decode_iteration-perm :
    (args : ArgsType) (opcode : ℕ) (rest : String × ArgsType) {m m' : MapType}
    → Permᴰ m m'
    → count_value opcode m ≤ 1
    → decode_iteration m args opcode rest ≡ decode_iteration m' args opcode rest
unfolding decode_iteration
decode_iteration-perm args opcode rest Permᴰ.nil d = refl
decode_iteration-perm args opcode rest (Permᴰ.cons e p) d =
    ground (arith, e, decode_iteration-perm args opcode rest p)
decode_iteration-perm args opcode rest (Permᴰ.swap e f) d = ground (arith, e, f)
decode_iteration-perm args opcode rest (Permᴰ.trans p q) d =
    decode_iteration-perm args opcode rest p d
    ∙ decode_iteration-perm args opcode rest q (omega (arith, count_value-perm opcode p))

-- No two entries have one opcode.
abbrev IsAbsent : ℕ → MapType → Type 0
IsAbsent v [] = Unit
IsAbsent v ((name, value) ∷ m) = (value ≢ v) × IsAbsent v m

abbrev IsDistinct : MapType → Type 0
IsDistinct [] = Unit
IsDistinct ((name, value) ∷ m) = IsAbsent value m × IsDistinct m

count_value-IsAbsent : (v : ℕ) (m : MapType) → IsAbsent v m → count_value v m ≡ 0
count_value-IsAbsent v [] h = refl
count_value-IsAbsent v ((name, value) ∷ m) h = ground (arith, count_value-IsAbsent v m h.1)

count_value-IsDistinct : (v : ℕ) (m : MapType) → IsDistinct m → count_value v m ≤ 1
count_value-IsDistinct v [] h = omega arith
count_value-IsDistinct v ((name, value) ∷ m) h =
    ground (arith, count_value-IsAbsent value m h.0, count_value-IsDistinct v m h.1)

String-discrete : Discrete String
String-discrete s t = elim (Bool-cases (str_eq s t)) [
  | inl e ↦ yes ((str_eq_iff s t).0 e)
  | inr e ↦ no λ p. ground (arith, (str_eq_iff s t).1 p)
]

decoded_set : IsSet (String × ArgsType)
decoded_set = hedberg (hlevel String-discrete)

decode_iteration-order :
    (args : ArgsType) (opcode : ℕ) {rest rest' : String × ArgsType} {m m' : MapType}
    → IsDistinct m
    → Perm m m'
    → rest ≡ rest'
    → decode_iteration m args opcode rest ≡ decode_iteration m' args opcode rest'
decode_iteration-order args opcode {rest} {m = m} {m' = m'} d p e =
    ∥∥₁_elim p (decoded_set _ _)
      (λ q. decode_iteration-perm args opcode rest q (count_value-IsDistinct opcode m d))
    ∙ ap (decode_iteration m' args opcode) e

-- The tables of `es` hold the program's entries, in any order.
pub record IsReordered (es : EncodingStuff) : Type 0 where
  pub iog0_three_regs : Perm encoding_stuff.iog0_three_regs_map es.iog0_three_regs_map
  pub iog1_two_regs_one_imm :
      Perm encoding_stuff.iog1_two_regs_one_imm_map es.iog1_two_regs_one_imm_map
  pub iog1_two_regs_one_simm :
      Perm encoding_stuff.iog1_two_regs_one_simm_map es.iog1_two_regs_one_simm_map
  pub iog1_one_reg_one_pc_one_simm :
      Perm encoding_stuff.iog1_one_reg_one_pc_one_simm_map es.iog1_one_reg_one_pc_one_simm_map
  pub iog1_one_reg_one_imm :
      Perm encoding_stuff.iog1_one_reg_one_imm_map es.iog1_one_reg_one_imm_map
  pub iog2_branch : Perm encoding_stuff.iog2_branch_map es.iog2_branch_map
  pub iog3_jump : Perm encoding_stuff.iog3_jump_map es.iog3_jump_map
  pub iog4_call : Perm encoding_stuff.iog4_call_map es.iog4_call_map
  pub iog5_three_regs_ldst :
      Perm encoding_stuff.iog5_three_regs_ldst_map es.iog5_three_regs_ldst_map
  pub iog5_two_regs_one_simm_ldst :
      Perm encoding_stuff.iog5_two_regs_one_simm_ldst_map es.iog5_two_regs_one_simm_ldst_map
  pub iog6_no_args : Perm encoding_stuff.iog6_no_args_map es.iog6_no_args_map
  pub iog6_one_ireta_one_reg :
      Perm encoding_stuff.iog6_one_ireta_one_reg_map es.iog6_one_ireta_one_reg_map
  pub iog6_one_reg_one_ireta :
      Perm encoding_stuff.iog6_one_reg_one_ireta_map es.iog6_one_reg_one_ireta_map
  pub iog6_one_idsta_one_reg :
      Perm encoding_stuff.iog6_one_idsta_one_reg_map es.iog6_one_idsta_one_reg_map
  pub iog6_one_reg_one_idsta :
      Perm encoding_stuff.iog6_one_reg_one_idsta_map es.iog6_one_reg_one_idsta_map

module _ (es : EncodingStuff) (r : IsReordered es) (opcode : ℕ) where
  -- Whatever order the tables are iterated in, an opcode of any of the seven groups decodes to the
  -- same name and arguments.
  pub get_iog_order :
      (get_iog0_instr_from_opcode encoding_stuff opcode ≡ get_iog0_instr_from_opcode es opcode)
      × (get_iog1_instr_from_opcode encoding_stuff opcode ≡ get_iog1_instr_from_opcode es opcode)
      × (get_iog2_instr_from_opcode encoding_stuff opcode ≡ get_iog2_instr_from_opcode es opcode)
      × (get_iog3_instr_from_opcode encoding_stuff opcode ≡ get_iog3_instr_from_opcode es opcode)
      × (get_iog4_instr_from_opcode encoding_stuff opcode ≡ get_iog4_instr_from_opcode es opcode)
      × (get_iog5_instr_from_opcode encoding_stuff opcode ≡ get_iog5_instr_from_opcode es opcode)
      × (get_iog6_instr_from_opcode encoding_stuff opcode ≡ get_iog6_instr_from_opcode es opcode)
  unfolding get_iog0_instr_from_opcode get_iog1_instr_from_opcode get_iog2_instr_from_opcode
      get_iog3_instr_from_opcode get_iog4_instr_from_opcode get_iog5_instr_from_opcode
      get_iog6_instr_from_opcode
  get_iog_order = (
    decode_iteration-order _ opcode (omega arith) r.iog0_three_regs (refl),
    decode_iteration-order _ opcode (omega arith) r.iog1_two_regs_one_imm (
        decode_iteration-order _ opcode (omega arith) r.iog1_two_regs_one_simm (
          decode_iteration-order _ opcode (omega arith) r.iog1_one_reg_one_pc_one_simm
            (decode_iteration-order _ opcode (omega arith) r.iog1_one_reg_one_imm (refl)))),
    decode_iteration-order _ opcode (omega arith) r.iog2_branch (refl),
    decode_iteration-order _ opcode (omega arith) r.iog3_jump (refl),
    decode_iteration-order _ opcode (omega arith) r.iog4_call (refl),
    decode_iteration-order _ opcode (omega arith) r.iog5_three_regs_ldst
        (decode_iteration-order _ opcode (omega arith) r.iog5_two_regs_one_simm_ldst (refl)),
    decode_iteration-order _ opcode (omega arith) r.iog6_no_args (
        decode_iteration-order _ opcode (omega arith) r.iog6_one_ireta_one_reg (
          decode_iteration-order _ opcode (omega arith) r.iog6_one_reg_one_ireta (
            decode_iteration-order _ opcode (omega arith) r.iog6_one_idsta_one_reg
              (decode_iteration-order _ opcode (omega arith) r.iog6_one_reg_one_idsta (refl))))),
  )
