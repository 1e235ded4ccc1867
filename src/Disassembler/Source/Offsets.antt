-- ===== src/Disassembler/Source/Offsets.antt =====
-- A load or store with an offset, visited as assembler_class.cpp does, and its line of output, read
-- as disassembler_class.cpp does.
use frost32_cpu.Prelude.{
  ℕ, ◌%◌, ◌^◌, ◌<◌, ◌≡◌, ◌≢◌, ◌∙◌, ap, sym, List, length, [], ◌∷◌, String, true, some, arith,
}
use frost32_cpu.Prelude.Int.{ℤ, pos, negsuc, to_u64, IsS64}
use frost32_cpu.Prelude.Text.{lookup, elem}
use frost32_cpu.Orange.{Orange, Laws}
use frost32_cpu.Outcome.{Outcome, ok, bind}
use frost32_cpu.Output.{Item}
use frost32_cpu.Assembler.Emit.{gen_32}
use frost32_cpu.Assembler.Emit.Counter.{gen_32-moved}
use frost32_cpu.Encoding.{encoding_stuff}
use frost32_cpu.Encoding.RoundTrip.{Each, Each-lookup, args_type, iog5_two_regs_one_simm_ldst}
use frost32_cpu.SymbolTable.Scopes.{IsTree}
use frost32_cpu.Assembler.{Assembler, simm12, is_pass_one, push_str, pop_str}
use frost32_cpu.Assembler.Syntax.{Expr, grp5_two_regs_one_simm12_ldst}
use frost32_cpu.Assembler.Emit.Lines.{at_address}
use frost32_cpu.Assembler.Groups.{word_simm12, encode_instr_opcode_group_5_with_simm}
use frost32_cpu.Assembler.Encode.{to_u32, warn_unless, encode_ldst_two_regs_one_simm}
use frost32_cpu.Assembler.Encode.Ranges.{within, warn_if-within}
use frost32_cpu.Assembler.Encode.Targets.{warn_unless-fits}
use frost32_cpu.Assembler.Expr.Value.{eval_expr}
use frost32_cpu.Assembler.Expr.Steps.{env_of}
use frost32_cpu.Assembler.Expr.Refinement.{visit_expr-eval_expr}
use frost32_cpu.Assembler.Visit.{
  two_regs_one_simm12_ldst_tokens, visit_grp5_two_regs_one_simm12_ldst, visit_instruction,
}
use frost32_cpu.Assembler.Visit.Names.{get_reg_encodings-two}
use frost32_cpu.Assembler.Visit.Values.{value_then}
use frost32_cpu.Disassembler.{print_instruction, show_unknown_instruction_as_dot_db}
use frost32_cpu.Disassembler.Decode.{extend_simm12}
use frost32_cpu.Disassembler.Listing.{AddsLine}
use frost32_cpu.Disassembler.Instructions.{encode-visit_line-simm12}
use frost32_cpu.Disassembler.RoundTrip.{Reg, shows}

ldst_names :
    Each
      (λ name opcode. elem name two_regs_one_simm12_ldst_tokens ≡ true)
      encoding_stuff.iog5_two_regs_one_simm_ldst_map
ldst_names = ground arith

within-IsS64 : (a : ℤ) → within (2 ^ 11) (2 ^ 11) a ≡ true → IsS64 a
within-IsS64 (pos n) h = ground arith
within-IsS64 (negsuc n) h = ground arith

-- An offset in range is the one that its field of 12 bits is extended to.
extended :
    (a : ℤ) → within (2 ^ 11) (2 ^ 11) a ≡ true → extend_simm12 (to_u32 a % 2 ^ 12) ≡ to_u32 a
extended (pos n) h = ground arith
extended (negsuc n) h = ground arith

module _ (lib : Orange) where
  visit_ldst-eval_expr :
      (tok a b : String) (e : Expr) (i j : ℕ) (s : Assembler)
      → elem tok two_regs_one_simm12_ldst_tokens ≡ true
      → Reg a i
      → Reg b j
      → IsTree s.sym_tbl
      → s.curr_scope_node < length s.sym_tbl.nodes
      → s.curr_scope_node ≢ 0
      → visit_grp5_two_regs_one_simm12_ldst lib tok (a ∷ b ∷ []) e s
        ≡ bind (eval_expr (env_of s) e) (λ n. encode_ldst_two_regs_one_simm lib tok i j n s)
  unfolding visit_grp5_two_regs_one_simm12_ldst push_str pop_str
  visit_ldst-eval_expr tok a b e i j s he ha hb t c z =
      rw (he, get_reg_encodings-two a b i j ha hb)
        (value_then e (eval_expr (env_of s) e) _ _
          (visit_expr-eval_expr e (record s { str_stack = tok ∷ s.str_stack }) t c z))

  encode_ldst-within :
      (tok : String) (opcode i j : ℕ) (n : ℤ) (s : Assembler)
      → lookup tok encoding_stuff.iog5_two_regs_one_simm_ldst_map ≡ some opcode
      → within (2 ^ 11) (2 ^ 11) n ≡ true
      → encode_ldst_two_regs_one_simm lib tok i j n s
        ≡ ok (tt, encode_instr_opcode_group_5_with_simm lib i j opcode (to_u32 n) s)
  unfolding encode_ldst_two_regs_one_simm
  encode_ldst-within tok opcode i j n s ho w =
      let quiet =
        (warn_if-within n true s (within-IsS64 n w)).2
        ∙ ap (λ t. warn_unless t (simm12 n) s) w
        ∙ warn_unless-fits (simm12 n) s in
      rw (ho)
        (ap (λ t. ok (tt, encode_instr_opcode_group_5_with_simm lib i j opcode (to_u32 n) t)) quiet)

  gen_warnings :
      (laws : Laws lib) (word : ℕ) (s : Assembler) → (gen_32 lib word s).warnings ≡ s.warnings
  gen_warnings laws word s = ap (λ t. t.warnings) (gen_32-moved lib laws word s)

  shows_offset :
      (tok a b : String) (i j opcode : ℕ) (db : Outcome (List Item)) (s s' : Assembler) (x y : ℕ)
      → x ≡ y
      → AddsLine lib s s' (
          print_instruction lib
            (args_type iog5_two_regs_one_simm_ldst)
            tok
            a
            b
            "zero"
            (shows i j 0 opcode 0 x)
            db)
      → AddsLine lib s s' (
          print_instruction lib
            (args_type iog5_two_regs_one_simm_ldst)
            tok
            a
            b
            "zero"
            (shows i j 0 opcode 0 y)
            db)
  shows_offset tok a b i j opcode db s s' x y e h = rw (sym e) h

  -- On the second pass, in a scope below the root of a tree, with words shown and the address
  -- output, a load or store of the source whose offset is an expression with a value of 12 bits is
  -- accepted without a warning, and it becomes one line of text, which the disassembler prints with
  -- the same name, the same registers and the value modulo 2 ^ 32.
  pub visit_instruction-visit_line-simm12 :
      (laws : Laws lib) (tok a b : String) (e : Expr) (opcode i j m : ℕ) (n : ℤ) (s : Assembler)
      → is_pass_one s ≡ true
      → s.show_words ≡ true
      → s.pc ≡ at_address m
      → lookup tok encoding_stuff.iog5_two_regs_one_simm_ldst_map ≡ some opcode
      → Reg a i
      → Reg b j
      → IsTree s.sym_tbl
      → s.curr_scope_node < length s.sym_tbl.nodes
      → s.curr_scope_node ≢ 0
      → eval_expr (env_of s) e ≡ ok n
      → within (2 ^ 11) (2 ^ 11) n ≡ true
      → (s' : Assembler) × ((visit_instruction lib (grp5_two_regs_one_simm12_ldst tok a b e) s
            ≡ ok (tt, s'))
          × (s'.warnings ≡ s.warnings)
          × AddsLine lib s s' (
              print_instruction lib
                (args_type iog5_two_regs_one_simm_ldst)
                tok
                a
                b
                "zero"
                (shows i j 0 opcode 0 (to_u64 n % 2 ^ 32))
                (show_unknown_instruction_as_dot_db
                  (word_simm12 lib i j opcode (to_u64 n % 2 ^ 32) % 2 ^ 32)
                  8)))
  unfolding visit_instruction encode_instr_opcode_group_5_with_simm
  visit_instruction-visit_line-simm12 laws tok a b e opcode i j m n s p w pc ho ha hb t c z v r =
      let he =
        Each-lookup (λ name value. elem name two_regs_one_simm12_ldst_tokens ≡ true)
          encoding_stuff.iog5_two_regs_one_simm_ldst_map ldst_names tok opcode ho in
      let word = word_simm12 lib i j opcode (to_u32 n) in
      let db = show_unknown_instruction_as_dot_db (word % 2 ^ 32) 8 in
      let next = encode_instr_opcode_group_5_with_simm lib i j opcode (to_u32 n) s in
      (
        next,
        (
          visit_ldst-eval_expr tok a b e i j s he ha hb t c z
              ∙ ap (λ q. bind q (λ k. encode_ldst_two_regs_one_simm lib tok i j k s)) v
              ∙ encode_ldst-within tok opcode i j n s ho r,
          gen_warnings laws (word % 2 ^ 32) s,
          shows_offset tok a b i j opcode db s next _ _ (extended n r)
              (encode-visit_line-simm12 lib laws tok a b opcode i j (to_u32 n) m s p w pc ho ha hb),
        ),
      )
