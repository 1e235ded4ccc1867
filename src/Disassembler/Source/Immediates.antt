-- ===== src/Disassembler/Source/Immediates.antt =====
-- An instruction with an immediate of 16 bits, visited as assembler_class.cpp does, and its line of
-- output, read as disassembler_class.cpp does.
use frost32_cpu.Prelude.{
  ℕ, ◌+◌, ◌%◌, ◌^◌, ◌≡◌, ◌∙◌, refl, ap, List, [], ◌∷◌, ◌++◌, String, Bool, true, false, not, ◌&&◌,
  some, Bool-cases, inl, inr, arith,
}
use frost32_cpu.Prelude.Int.{ℤ, to_s64}
use frost32_cpu.Prelude.Text.{lookup, elem, str_eq, all_of-elem}
use frost32_cpu.Orange.{Orange, Laws}
use frost32_cpu.Outcome.{Outcome, ok}
use frost32_cpu.Output.{Item}
use frost32_cpu.Encoding.RoundTrip.{entries, args_type}
use frost32_cpu.Assembler.{Assembler, Warning, is_pass_one, push_str, pop_str}
use frost32_cpu.Assembler.Syntax.{
  Expr, Instruction, grp1_two_regs_one_imm, grp1_two_regs_one_simm, grp1_one_reg_one_pc_one_simm,
  grp1_one_reg_one_imm, grp2_branch,
}
use frost32_cpu.Assembler.Emit.Lines.{at_address}
use frost32_cpu.Assembler.Emits.{InScope}
use frost32_cpu.Assembler.Encode.{
  to_u32, warn_unless, warn_if_imm16_out_of_range, warn_if_simm16_out_of_range, branch_immediate,
  encode_alu_op_two_regs_one_imm, encode_relative_branch,
}
use frost32_cpu.Assembler.Expr.Value.{eval_expr}
use frost32_cpu.Assembler.Expr.Steps.{env_of}
use frost32_cpu.Assembler.Expr.Refinement.{visit_expr-eval_expr}
use frost32_cpu.Assembler.Visit.{
  two_regs_one_imm_tokens, simm_tokens, branch_tokens, visit_grp1_two_regs_one_imm,
  visit_grp1_two_regs_one_simm, visit_grp1_one_reg_one_pc_one_simm, visit_grp1_one_reg_one_imm,
  visit_grp2_branch, visit_instruction,
}
use frost32_cpu.Assembler.Visit.Names.{get_reg_encodings-two}
use frost32_cpu.Assembler.Visit.Values.{value_then}
use frost32_cpu.Assembler.Groups.{word_imm16}
use frost32_cpu.Disassembler.{print_instruction, show_unknown_instruction_as_dot_db}
use frost32_cpu.Disassembler.Listing.{AddsLine}
use frost32_cpu.Disassembler.Instructions.{imm16_encode, encode-visit_line-imm16}
use frost32_cpu.Disassembler.RoundTrip.{Reg, shows}
use frost32_cpu.Disassembler.RoundTrip.Immediates.{
  Imm16, imm, simm, pc_simm, one_reg, branch_offset, imm16_table, imm16_group,
}

-- The instruction with a name and an immediate; some have no second register.
abbrev pub imm16_instruction : Imm16 → String → String → String → Expr → Instruction
imm16_instruction imm tok a b e = grp1_two_regs_one_imm tok a b e
imm16_instruction simm tok a b e = grp1_two_regs_one_simm tok a b e
imm16_instruction pc_simm tok a b e = grp1_one_reg_one_pc_one_simm tok a e
imm16_instruction one_reg tok a b e = grp1_one_reg_one_imm tok a e
imm16_instruction branch_offset tok a b e = grp2_branch tok a b e

abbrev pub imm16_tokens : Imm16 → List String
imm16_tokens imm = two_regs_one_imm_tokens
imm16_tokens simm = simm_tokens
imm16_tokens pc_simm = "addsi" ∷ []
imm16_tokens one_reg = "cpyhi" ∷ []
imm16_tokens branch_offset = branch_tokens

-- The register that is encoded in the second place.
abbrev pub second : Imm16 → String → String
second pc_simm b = "zero"
second one_reg b = "zero"
second _ b = b

-- What is encoded for a value at an address.
abbrev pub imm16_value : Imm16 → ℤ → ℕ → ℕ
imm16_value branch_offset n pc = branch_immediate n pc % 2 ^ 32
imm16_value _ n pc = to_u32 n

-- The state after the warning, if there is one.
abbrev pub warned : Imm16 → ℤ → Assembler → Assembler
warned imm n s = warn_if_imm16_out_of_range n s
warned simm n s = warn_if_simm16_out_of_range n false s
warned pc_simm n s = s
warned one_reg n s = s
warned branch_offset n s =
    warn_if_simm16_out_of_range (to_s64 (branch_immediate n s.pc.curr)) true s

-- A step leaves all of the state but the warnings.
abbrev Same : Assembler → Assembler → Type 0
Same s t = (t.out ≡ s.out) × (t.pc ≡ s.pc) × (t.pass ≡ s.pass) × (t.show_words ≡ s.show_words)

warn_unless-Same : (fits : Bool) (w : Warning) (s : Assembler) → Same s (warn_unless fits w s)
warn_unless-Same fits w s = elim (Bool-cases (is_pass_one s && not fits)) [
  | inl e ↦ rw e (refl, refl, refl, refl)
  | inr e ↦ rw e (refl, refl, refl, refl)
]

warned-Same : (t : Imm16) (n : ℤ) (s : Assembler) → Same s (warned t n s)
unfolding warn_if_imm16_out_of_range warn_if_simm16_out_of_range
warned-Same imm n s = warn_unless-Same _ _ s
warned-Same simm n s = warn_unless-Same _ _ s
warned-Same pc_simm n s = (refl, refl, refl, refl)
warned-Same one_reg n s = (refl, refl, refl, refl)
warned-Same branch_offset n s = warn_unless-Same _ _ s

not_signed :
    (tok : String)
    → elem tok two_regs_one_imm_tokens ≡ true
    → (not (str_eq tok "sltsi") && not (str_eq tok "sgtsi")) ≡ true
not_signed tok e =
    all_of-elem (λ t. not (str_eq t "sltsi") && not (str_eq t "sgtsi")) tok two_regs_one_imm_tokens
      refl e

signed :
    (tok : String)
    → elem tok simm_tokens ≡ true
    → (not (str_eq tok "sltsi") && not (str_eq tok "sgtsi")) ≡ false
signed tok e =
    let h =
      all_of-elem (λ t. not (not (str_eq t "sltsi") && not (str_eq t "sgtsi"))) tok simm_tokens refl
        e in
    ground (arith, h)

zero_index : (j : ℕ) → Reg "zero" j → j ≡ 0
zero_index j e = ground (arith, e)

module _ (lib : Orange) where
  visit_instruction-imm16_encode :
      (t : Imm16) (tok a b : String) (e : Expr) (i j opcode : ℕ) (n : ℤ) (s : Assembler)
      → elem tok (imm16_tokens t) ≡ true
      → lookup tok (entries (imm16_table t)) ≡ some opcode
      → Reg a i
      → Reg (second t b) j
      → InScope s
      → eval_expr (env_of s) e ≡ ok n
      → visit_instruction lib (imm16_instruction t tok a b e) s
        ≡ ok (tt, imm16_encode lib t i j opcode (imm16_value t n s.pc.curr) (warned t n s))
  unfolding visit_instruction push_str pop_str visit_grp1_two_regs_one_imm
      visit_grp1_two_regs_one_simm visit_grp1_one_reg_one_pc_one_simm visit_grp1_one_reg_one_imm
      visit_grp2_branch encode_alu_op_two_regs_one_imm encode_relative_branch
  visit_instruction-imm16_encode imm tok a b e i j opcode n s he ho ha hb (t, c, z) v =
      rw (he, get_reg_encodings-two a b i j ha hb)
        (value_then e (eval_expr (env_of s) e) _ _
            (visit_expr-eval_expr e (record s { str_stack = tok ∷ s.str_stack }) t c z)
          ∙ rw (v, not_signed tok he, ho) refl)
  visit_instruction-imm16_encode simm tok a b e i j opcode n s he ho ha hb (t, c, z) v =
      rw (he, get_reg_encodings-two a b i j ha hb)
        (value_then e (eval_expr (env_of s) e) _ _
            (visit_expr-eval_expr e (record s { str_stack = tok ∷ s.str_stack }) t c z)
          ∙ rw (v, signed tok he, ho) refl)
  visit_instruction-imm16_encode pc_simm tok a b e i j opcode n s he ho ha hb (t, c, z) v =
      rw (he, ho, zero_index j hb)
        (value_then e (eval_expr (env_of s) e) _ _ (visit_expr-eval_expr e s t c z)
          ∙ rw (v, ha) refl)
  visit_instruction-imm16_encode one_reg tok a b e i j opcode n s he ho ha hb (t, c, z) v =
      rw (he, ho, zero_index j hb)
        (value_then e (eval_expr (env_of s) e) _ _ (visit_expr-eval_expr e s t c z)
          ∙ rw (v, ha) refl)
  visit_instruction-imm16_encode branch_offset tok a b e i j opcode n s he ho ha hb (t, c, z) v =
      rw (he, get_reg_encodings-two a b i j ha hb)
        (value_then e (eval_expr (env_of s) e) _ _
            (visit_expr-eval_expr e (record s { str_stack = tok ∷ s.str_stack }) t c z)
          ∙ rw (v, ho) refl)

  AddsLine-Same :
      (s t u : Assembler) (shown : Outcome (List Item))
      → Same s t
      → AddsLine lib t u shown
      → AddsLine lib s u shown
  AddsLine-Same s t u shown (o, p, q, w) (items, (str, (out, printed, read, pc, token))) = (
    items,
    (
      str,
      (
        out ∙ ap (λ l. l ++ items) o,
        printed,
        read,
        pc ∙ ap (λ x. at_address ((x.curr + 4) % 2 ^ 64)) p,
        token,
      ),
    ),
  )

  -- On the second pass, in a scope below the root of a tree, with words shown and the address
  -- output, an instruction with an immediate of 16 bits whose name has a token and an opcode and
  -- whose expression has a value is accepted, and it becomes one line of text, which the
  -- disassembler prints with the same name, the same registers and what 16 bits keep of the value,
  -- or of the offset from the following instruction for a branch.
  pub visit_instruction-visit_line-imm16 :
      (laws : Laws lib) (t : Imm16) (tok a b : String) (e : Expr) (opcode i j m : ℕ) (n : ℤ)
      (s : Assembler)
      → is_pass_one s ≡ true
      → s.show_words ≡ true
      → s.pc ≡ at_address m
      → elem tok (imm16_tokens t) ≡ true
      → lookup tok (entries (imm16_table t)) ≡ some opcode
      → Reg a i
      → Reg (second t b) j
      → InScope s
      → eval_expr (env_of s) e ≡ ok n
      → (s' : Assembler) × ((visit_instruction lib (imm16_instruction t tok a b e) s ≡ ok (tt, s'))
          × AddsLine lib s s' (
              print_instruction lib
                (args_type (imm16_table t))
                tok
                a
                (second t b)
                "zero"
                (shows i j 0 opcode (imm16_value t n s.pc.curr % 2 ^ 16) 0)
                (show_unknown_instruction_as_dot_db
                  (word_imm16 lib (imm16_group t) i j opcode (imm16_value t n s.pc.curr) % 2 ^ 32)
                  8)))
  visit_instruction-visit_line-imm16 laws t tok a b e opcode i j m n s p w pc he ho ha hb scope v =
      let (o, q, r, words) = warned-Same t n s in
      let next = imm16_encode lib t i j opcode (imm16_value t n s.pc.curr) (warned t n s) in
      (
        next,
        (
          visit_instruction-imm16_encode t tok a b e i j opcode n s he ho ha hb scope v,
          AddsLine-Same s (warned t n s) next _ (o, q, r, words)
              (encode-visit_line-imm16 lib laws t tok a (second t b) opcode i j
                (imm16_value t n s.pc.curr) m (warned t n s)
                (ap (λ x. is_pass_one (record s { pass = x })) r ∙ p) (words ∙ w) (q ∙ pc) ho ha
                hb),
        ),
      )
