-- ===== src/Assembler/Pseudo/Accepted/Encoded.antt =====
-- The functions __encode_* of assembler_class.cpp that pseudo instructions use, where they accept.
use frost32_cpu.Prelude.{ℕ, ◌≡◌, refl, String, List, [], ◌∷◌, true, if◌then◌else◌}
use frost32_cpu.Prelude.Int.{ℤ}
use frost32_cpu.Prelude.Text.{all_of, lookup, str_eq}
use frost32_cpu.Orange.{Orange}
use frost32_cpu.Outcome.{ok, at, eek}
use frost32_cpu.Encoding.{encoding_stuff}
use frost32_cpu.Assembler.{Assembler, err}
use frost32_cpu.Assembler.Encode.{
  encode_alu_op_three_regs, encode_cpya, encode_relative_branch, encode_jump, encode_call,
  get_reg_temp_index,
}
use frost32_cpu.Assembler.Visit.Accepted.Tokens.{IsOneOf}
use frost32_cpu.Assembler.Visit.Accepted.Steps.{
  is_ok, Accepts, accept_rules, token_found, test-Accepts,
}
use frost32_cpu.Assembler.Pseudo.{jump_or_call}

abbrev pub conditional_tokens : List String
conditional_tokens = "jmpane" ∷ "jmpaeq" ∷ "callane" ∷ "callaeq" ∷ []

abbrev pub inc_dec_tokens : List String
inc_dec_tokens = "inc" ∷ "dec" ∷ []

-- A name that the program itself looks up.
abbrev pub Found : String → List (String × ℕ) → Type 0
Found name opcodes = (n : ℕ) × (at (lookup name opcodes) ≡ ok n)

pub found :
    (name : String) (opcodes : List (String × ℕ))
    → IsOneOf name (name ∷ [])
    → all_of (λ x. is_ok (at (lookup x opcodes))) (name ∷ []) ≡ true
    → Found name opcodes
found name opcodes e h = token_found (λ x. at (lookup x opcodes)) name (name ∷ []) h e

module _ (lib : Orange) (s : Assembler) where
  pub encode_cpya-Accepts : (a : ℕ) (n : ℤ) → Accepts (encode_cpya lib a n) s
  unfolding encode_cpya
  encode_cpya-Accepts a n =
      let (_, o) = found "addi" encoding_stuff.iog1_two_regs_one_imm_map refl refl in
      let (_, q) = found "cpyhi" encoding_stuff.iog1_one_reg_one_imm_map refl refl in
      search (accept_rules, o, q)

  pub encode_alu_op_three_regs-Accepts :
      (name : String) (opcode : ℕ) (a b c : ℕ)
      → at (lookup name encoding_stuff.iog0_three_regs_map) ≡ ok opcode
      → Accepts (encode_alu_op_three_regs lib name a b c) s
  unfolding encode_alu_op_three_regs
  encode_alu_op_three_regs-Accepts name opcode a b c o = search (accept_rules, o)

  pub encode_relative_branch-Accepts :
      (name : String) (opcode : ℕ) (a b : ℕ) (n : ℤ)
      → at (lookup name encoding_stuff.iog2_branch_map) ≡ ok opcode
      → Accepts (encode_relative_branch lib name a b n) s
  unfolding encode_relative_branch
  encode_relative_branch-Accepts name opcode a b n o = search (accept_rules, o)

  pub encode_jump-Accepts :
      (name : String) (opcode : ℕ) (a b c : ℕ)
      → at (lookup name encoding_stuff.iog3_jump_map) ≡ ok opcode
      → Accepts (encode_jump lib name a b c) s
  unfolding encode_jump
  encode_jump-Accepts name opcode a b c o = search (accept_rules, o)

  pub encode_call-Accepts :
      (name : String) (opcode : ℕ) (a b c : ℕ)
      → at (lookup name encoding_stuff.iog4_call_map) ≡ ok opcode
      → Accepts (encode_call lib name a b c) s
  unfolding encode_call
  encode_call-Accepts name opcode a b c o = search (accept_rules, o)

  -- The chain of tests of the name.
  jump_chain-Accepts :
      (tok : String) (a b temp : ℕ)
      → IsOneOf tok conditional_tokens
      → Accepts
          (if str_eq tok "jmpane"
            then encode_jump lib "jne" a b temp
            else if str_eq tok "jmpaeq"
            then encode_jump lib "jeq" a b temp
            else if str_eq tok "callane"
            then encode_call lib "cne" a b temp
            else if str_eq tok "callaeq"
            then encode_call lib "ceq" a b temp
            else err (eek "visitPseudoInstrOpJmpaCallaConditional():  Eek!"))
          s
  jump_chain-Accepts tok a b temp t =
      let (_, p) = found "jne" encoding_stuff.iog3_jump_map refl refl in
      let (_, q) = found "jeq" encoding_stuff.iog3_jump_map refl refl in
      let (_, u) = found "cne" encoding_stuff.iog4_call_map refl refl in
      let (_, v) = found "ceq" encoding_stuff.iog4_call_map refl refl in
      test-Accepts (str_eq tok "jmpane") _ _ _ s t (encode_jump-Accepts "jne" _ a b temp p) (λ t.
        test-Accepts (str_eq tok "jmpaeq") _ _ _ s t (encode_jump-Accepts "jeq" _ a b temp q) (λ t.
          test-Accepts (str_eq tok "callane") _ _ _ s t (encode_call-Accepts "cne" _ a b temp u)
            (λ t.
              test-Accepts (str_eq tok "callaeq") _ _ _ s t (encode_call-Accepts "ceq" _ a b temp v)
                (λ t. cc))))

  pub jump_or_call-Accepts :
      (tok : String) (ra rb : ℕ)
      → IsOneOf tok conditional_tokens
      → Accepts (jump_or_call lib tok (ra ∷ rb ∷ [])) s
  unfolding jump_or_call get_reg_temp_index
  jump_or_call-Accepts tok ra rb t =
      let (_, temp) =
        token_found (λ x. at (lookup x encoding_stuff.reg_names_map)) "temp" ("temp" ∷ []) refl
          refl in
      search (accept_rules, temp, refl, jump_chain-Accepts, t) depth 12
