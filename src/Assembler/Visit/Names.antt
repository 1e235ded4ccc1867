-- ===== src/Assembler/Visit/Names.antt =====
-- Which names the visitors of instructions with three registers in assembler_class.cpp accept.
use frost32_cpu.Prelude.{
  ap, ◌∙◌, ℕ, ◌≡◌, ◌⊎◌, refl, List, [], ◌∷◌, String, Bool, true, false, ◌||◌, ◌&&◌, Option, none,
  some, Bool-cases, Option-cases, arith, inl, inr,
}
use frost32_cpu.Prelude.Text.{lookup, elem, str_eq, str_eq_iff, all_of, all_of-elem}
use frost32_cpu.Orange.{Orange}
use frost32_cpu.Outcome.{ok, exits, uncaught, eek}
use frost32_cpu.Encoding.{encoding_stuff}
use frost32_cpu.Encoding.RoundTrip.{Each, Each-lookup}
use frost32_cpu.Assembler.{Assembler, push_str}
use frost32_cpu.Assembler.Groups.{
  encode_instr_opcode_group_0, encode_instr_opcode_group_3, encode_instr_opcode_group_4,
  encode_instr_opcode_group_5_no_simm,
}
use frost32_cpu.Assembler.Visit.{
  get_reg_encodings, three_regs_tokens, jump_tokens, call_tokens, three_regs_ldst_tokens,
  visit_grp0_three_regs, visit_grp3_jump, visit_grp4_call, visit_grp5_three_regs_ldst,
}

-- The names of `instrOpGrp0ThreeRegs` in AssemblerGrammar.g4.
abbrev pub grp0_names : List String
grp0_names =
    "add" ∷ "sub" ∷ "sltu" ∷ "slts" ∷ "gltu" ∷ "glts" ∷ "mul" ∷ "and" ∷ "orr" ∷ "xor" ∷ "nor"
    ∷ "lsl" ∷ "lsr" ∷ "asr" ∷ "udiv" ∷ "sdiv" ∷ []

-- The names of the grammar that the table does not have.
abbrev pub misspelled : List String
misspelled = "gltu" ∷ "glts" ∷ []

abbrev is_some : Option ℕ → Bool
is_some none = false
is_some (some n) = true

abbrev has_opcode : String → Bool
has_opcode name = is_some (lookup name encoding_stuff.iog0_three_regs_map)

abbrev behaves : String → Bool
behaves name =
    str_eq name "nor" || elem name three_regs_tokens && (elem name misspelled || has_opcode name)

all_names : all_of behaves grp0_names ≡ true
all_names = refl

jump_names : Each (λ name opcode. elem name jump_tokens ≡ true) encoding_stuff.iog3_jump_map
jump_names = ground arith

call_names : Each (λ name opcode. elem name call_tokens ≡ true) encoding_stuff.iog4_call_map
call_names = ground arith

ldst_names :
    Each
      (λ name opcode. elem name three_regs_ldst_tokens ≡ true)
      encoding_stuff.iog5_three_regs_ldst_map
ldst_names = ground arith

get_reg_encodings-three :
    (a b c : String) (i j k : ℕ)
    → lookup a encoding_stuff.reg_names_map ≡ some i
    → lookup b encoding_stuff.reg_names_map ≡ some j
    → lookup c encoding_stuff.reg_names_map ≡ some k
    → get_reg_encodings (a ∷ b ∷ c ∷ []) ≡ ok (i ∷ j ∷ k ∷ [])
unfolding get_reg_encodings
get_reg_encodings-three a b c i j k ha hb hc = rw (ha, hb, hc) refl

pub get_reg_encodings-two :
    (a b : String) (i j : ℕ)
    → lookup a encoding_stuff.reg_names_map ≡ some i
    → lookup b encoding_stuff.reg_names_map ≡ some j
    → get_reg_encodings (a ∷ b ∷ []) ≡ ok (i ∷ j ∷ [])
unfolding get_reg_encodings
get_reg_encodings-two a b i j ha hb = rw (ha, hb) refl

module _ (lib : Orange) (s : Assembler) where
  pub visit_grp0-accepts :
      (tok a b c : String) (opcode i j k : ℕ)
      → elem tok three_regs_tokens ≡ true
      → lookup tok encoding_stuff.iog0_three_regs_map ≡ some opcode
      → lookup a encoding_stuff.reg_names_map ≡ some i
      → lookup b encoding_stuff.reg_names_map ≡ some j
      → lookup c encoding_stuff.reg_names_map ≡ some k
      → visit_grp0_three_regs lib tok (a ∷ b ∷ c ∷ []) s
        ≡ ok (tt, encode_instr_opcode_group_0 lib i j k opcode s)
  unfolding visit_grp0_three_regs push_str encode_instr_opcode_group_0
  visit_grp0-accepts tok a b c opcode i j k he ho ha hb hc =
      rw (visit_grp0_three_regs, he, ho, get_reg_encodings-three a b c i j k ha hb hc) refl

  visit_grp0-nor :
      (regs : List String)
      → visit_grp0_three_regs lib "nor" regs s ≡ exits (eek "visitInstrOpGrp0ThreeRegs():  Eek!")
  unfolding visit_grp0_three_regs
  visit_grp0-nor regs = refl

  visit_grp0-misspelled :
      (tok : String) (regs : List String)
      → elem tok three_regs_tokens ≡ true
      → lookup tok encoding_stuff.iog0_three_regs_map ≡ none
      → visit_grp0_three_regs lib tok regs s ≡ uncaught
  unfolding visit_grp0_three_regs push_str
  visit_grp0-misspelled tok regs he ho = rw (visit_grp0_three_regs, he, ho) refl

  -- With a name that the grammar has for group 0 and three registers of the table, the visitor of
  -- group 0 outputs the word of the name's opcode and the registers' indices, except that nor is an
  -- error, and that gltu and glts, which the table does not have, throw an exception.
  pub visit_grp0_three_regs-names :
      (tok a b c : String) (i j k : ℕ)
      → elem tok grp0_names ≡ true
      → lookup a encoding_stuff.reg_names_map ≡ some i
      → lookup b encoding_stuff.reg_names_map ≡ some j
      → lookup c encoding_stuff.reg_names_map ≡ some k
      → ((opcode : ℕ) × ((lookup tok encoding_stuff.iog0_three_regs_map ≡ some opcode)
            × (visit_grp0_three_regs lib tok (a ∷ b ∷ c ∷ []) s
                ≡ ok (tt, encode_instr_opcode_group_0 lib i j k opcode s))))
        ⊎ (((tok ≡ "nor")
              × (visit_grp0_three_regs lib tok (a ∷ b ∷ c ∷ []) s
                  ≡ exits (eek "visitInstrOpGrp0ThreeRegs():  Eek!")))
            ⊎ ((elem tok misspelled ≡ true)
                × (visit_grp0_three_regs lib tok (a ∷ b ∷ c ∷ []) s ≡ uncaught)))
  visit_grp0_three_regs-names tok a b c i j k h ha hb hc =
      let all = all_of-elem behaves tok grp0_names all_names h in
      elim (Bool-cases (str_eq tok "nor")) [
        | inl n ↦
            let e = (str_eq_iff tok "nor").0 n in
            inr (
              inl (
                e,
                ap (λ name. visit_grp0_three_regs lib name (a ∷ b ∷ c ∷ []) s) e
                    ∙ visit_grp0-nor (a ∷ b ∷ c ∷ []),
              ))
        | inr n ↦
            let he : elem tok three_regs_tokens ≡ true = ground (arith, all, n) in
            elim (Option-cases (lookup tok encoding_stuff.iog0_three_regs_map)) [
              | inr (opcode, ho) ↦
                  inl (opcode, (ho, visit_grp0-accepts tok a b c opcode i j k he ho ha hb hc))
              | inl ho ↦
                  let absent : has_opcode tok ≡ false = ap is_some ho in
                  inr (
                    inr (
                      ground (arith, all, n, absent),
                      visit_grp0-misspelled tok (a ∷ b ∷ c ∷ []) he ho,
                    ))
            ]
      ]

  visit_grp3_jump-accepts :
      (tok a b c : String) (opcode i j k : ℕ)
      → elem tok jump_tokens ≡ true
      → lookup tok encoding_stuff.iog3_jump_map ≡ some opcode
      → lookup a encoding_stuff.reg_names_map ≡ some i
      → lookup b encoding_stuff.reg_names_map ≡ some j
      → lookup c encoding_stuff.reg_names_map ≡ some k
      → visit_grp3_jump lib tok (a ∷ b ∷ c ∷ []) s
        ≡ ok (tt, encode_instr_opcode_group_3 lib i j k opcode s)
  unfolding visit_grp3_jump push_str encode_instr_opcode_group_3
  visit_grp3_jump-accepts tok a b c opcode i j k he ho ha hb hc =
      rw (visit_grp3_jump, he, get_reg_encodings-three a b c i j k ha hb hc, ho) refl

  -- With a name of its table and three registers, the visitor outputs the word.
  pub visit_grp3_jump-names :
      (tok a b c : String) (opcode i j k : ℕ)
      → lookup tok encoding_stuff.iog3_jump_map ≡ some opcode
      → lookup a encoding_stuff.reg_names_map ≡ some i
      → lookup b encoding_stuff.reg_names_map ≡ some j
      → lookup c encoding_stuff.reg_names_map ≡ some k
      → visit_grp3_jump lib tok (a ∷ b ∷ c ∷ []) s
        ≡ ok (tt, encode_instr_opcode_group_3 lib i j k opcode s)
  visit_grp3_jump-names tok a b c opcode i j k ho =
      visit_grp3_jump-accepts tok a b c opcode i j k
        (Each-lookup (λ name value. elem name jump_tokens ≡ true) encoding_stuff.iog3_jump_map
          jump_names tok opcode ho)
        ho

  visit_grp4_call-accepts :
      (tok a b c : String) (opcode i j k : ℕ)
      → elem tok call_tokens ≡ true
      → lookup tok encoding_stuff.iog4_call_map ≡ some opcode
      → lookup a encoding_stuff.reg_names_map ≡ some i
      → lookup b encoding_stuff.reg_names_map ≡ some j
      → lookup c encoding_stuff.reg_names_map ≡ some k
      → visit_grp4_call lib tok (a ∷ b ∷ c ∷ []) s
        ≡ ok (tt, encode_instr_opcode_group_4 lib i j k opcode s)
  unfolding visit_grp4_call push_str encode_instr_opcode_group_4
  visit_grp4_call-accepts tok a b c opcode i j k he ho ha hb hc =
      rw (visit_grp4_call, he, get_reg_encodings-three a b c i j k ha hb hc, ho) refl

  -- With a name of its table and three registers, the visitor outputs the word.
  pub visit_grp4_call-names :
      (tok a b c : String) (opcode i j k : ℕ)
      → lookup tok encoding_stuff.iog4_call_map ≡ some opcode
      → lookup a encoding_stuff.reg_names_map ≡ some i
      → lookup b encoding_stuff.reg_names_map ≡ some j
      → lookup c encoding_stuff.reg_names_map ≡ some k
      → visit_grp4_call lib tok (a ∷ b ∷ c ∷ []) s
        ≡ ok (tt, encode_instr_opcode_group_4 lib i j k opcode s)
  visit_grp4_call-names tok a b c opcode i j k ho =
      visit_grp4_call-accepts tok a b c opcode i j k
        (Each-lookup (λ name value. elem name call_tokens ≡ true) encoding_stuff.iog4_call_map
          call_names tok opcode ho)
        ho

  visit_grp5_three_regs_ldst-accepts :
      (tok a b c : String) (opcode i j k : ℕ)
      → elem tok three_regs_ldst_tokens ≡ true
      → lookup tok encoding_stuff.iog5_three_regs_ldst_map ≡ some opcode
      → lookup a encoding_stuff.reg_names_map ≡ some i
      → lookup b encoding_stuff.reg_names_map ≡ some j
      → lookup c encoding_stuff.reg_names_map ≡ some k
      → visit_grp5_three_regs_ldst lib tok (a ∷ b ∷ c ∷ []) s
        ≡ ok (tt, encode_instr_opcode_group_5_no_simm lib i j k opcode s)
  unfolding visit_grp5_three_regs_ldst push_str encode_instr_opcode_group_5_no_simm
  visit_grp5_three_regs_ldst-accepts tok a b c opcode i j k he ho ha hb hc =
      rw (visit_grp5_three_regs_ldst, he, get_reg_encodings-three a b c i j k ha hb hc, ho) refl

  -- With a name of its table and three registers, the visitor outputs the word.
  pub visit_grp5_three_regs_ldst-names :
      (tok a b c : String) (opcode i j k : ℕ)
      → lookup tok encoding_stuff.iog5_three_regs_ldst_map ≡ some opcode
      → lookup a encoding_stuff.reg_names_map ≡ some i
      → lookup b encoding_stuff.reg_names_map ≡ some j
      → lookup c encoding_stuff.reg_names_map ≡ some k
      → visit_grp5_three_regs_ldst lib tok (a ∷ b ∷ c ∷ []) s
        ≡ ok (tt, encode_instr_opcode_group_5_no_simm lib i j k opcode s)
  visit_grp5_three_regs_ldst-names tok a b c opcode i j k ho =
      visit_grp5_three_regs_ldst-accepts tok a b c opcode i j k
        (Each-lookup (λ name value. elem name three_regs_ldst_tokens ≡ true)
          encoding_stuff.iog5_three_regs_ldst_map ldst_names tok opcode ho)
        ho
