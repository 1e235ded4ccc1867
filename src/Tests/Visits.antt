-- ===== src/Tests/Visits.antt =====
-- Expressions and instructions of assembler_class.cpp visited at concrete states.
use frost32_cpu.Prelude.Text.{lookup, elem}
use frost32_cpu.Prelude.{ℕ, ◌≡◌, ◌+◌, ◌⊎◌, ◌%◌, ◌^◌, refl, [], ◌∷◌, String, some, true, arith}
use frost32_cpu.Outcome.{uncaught, ok, exits, eek, bind}
use frost32_cpu.Encoding.{encoding_stuff}
use frost32_cpu.Encoding.RoundTrip.{args_type, iog0_three_regs, iog5_two_regs_one_simm_ldst}
use frost32_cpu.Assembler.{Assembler}
use frost32_cpu.Assembler.Syntax.{
  instr_name, Expr, expr_logical, expr_compare, expr_add_sub, expr_just_sub, expr_mul_div_mod_etc,
  num_expr, ident_name, dec_num, tok_ident, grp2_branch, grp5_two_regs_one_simm12_ldst,
}
use frost32_cpu.Assembler.Expr.{visit_expr, visit_symbol}
use frost32_cpu.Assembler.Expr.Value.{eval_expr}
use frost32_cpu.Assembler.Expr.Steps.{env_of, pushed}
use frost32_cpu.Prelude.Int.{ℤ, to_u64, to_s16, to_s64, ◌-ℤ◌, pos, IsS64}
use frost32_cpu.Assembler.Expr.Bounds.Values.{visit_expr-IsS64}
use frost32_cpu.Assembler.Expr.Refinement.{visit_expr-eval_expr}
use frost32_cpu.Assembler.Groups.{encode_instr_opcode_group_0, word_simm12}
use frost32_cpu.Assembler.Visit.{visit_grp0_three_regs, visit_instruction}
use frost32_cpu.Assembler.Tokens.{read_decimal}
use frost32_cpu.Assembler.Groups.{word_imm16}
use frost32_cpu.Encoding.{encoding_stuff}
use frost32_cpu.Encoding.RoundTrip.{iog2_branch}
use frost32_cpu.Disassembler.RoundTrip.Immediates.{branch_offset}
use frost32_cpu.Disassembler.Source.Immediates.{
  imm16_instruction, imm16_value, visit_instruction-visit_line-imm16,
}
use frost32_cpu.Disassembler.Source.Offsets.{visit_instruction-visit_line-simm12}
use frost32_cpu.Assembler.Program.{visit_label}
use frost32_cpu.Assembler.Program.Labels.{visit_label-visit_symbol}
use frost32_cpu.Assembler.Emit.{gen_32}
use frost32_cpu.Assembler.Groups.Layout.{imm16_sum}
use frost32_cpu.Assembler.Visit.Branches.{visit_instruction-target}
use frost32_cpu.Assembler.Visit.Names.{visit_grp0_three_regs-names, misspelled}
use frost32_cpu.Disassembler.{print_instruction, show_unknown_instruction_as_dot_db}
use frost32_cpu.Disassembler.Listing.{AddsLine}
use frost32_cpu.Disassembler.RoundTrip.{shows}
use frost32_cpu.Disassembler.RoundTrip.ThreeRegs.{alu, three_regs_word}
use frost32_cpu.Disassembler.Source.{three_regs_instruction, visit_instruction-visit_line}
use frost32_cpu.Tests.{concrete, concrete-Laws, second_pass}
use frost32_cpu.Tests.States.{symbol_table-IsPooled, symbol_table-IsTree}

-- In the scope below the root, on the first pass.
abbrev in_scope : Assembler
in_scope = record second_pass { curr_scope_node = 1; pass = 0 }

-- 5 - a - 3, where a stands for 0 on the first pass.
abbrev difference : Expr
difference = expr_logical (
    expr_compare (
      expr_just_sub (expr_mul_div_mod_etc (num_expr (dec_num (b'5' ∷ [])))) (
        expr_just_sub (expr_mul_div_mod_etc (ident_name (tok_ident "a")))
          (expr_add_sub (expr_mul_div_mod_etc (num_expr (dec_num (b'3' ∷ []))))))))

visit_expr-eval_expr_example :
    visit_expr difference in_scope ≡ bind (eval_expr (env_of in_scope) difference) (pushed in_scope)
visit_expr-eval_expr_example =
    visit_expr-eval_expr difference in_scope symbol_table-IsTree (omega arith) (omega arith)

-- What is left of the visit of 5 - a - 3 on the stack, which C++ would group as (5 - a) - 3.
abbrev after_difference : Assembler
after_difference = record in_scope { num_stack = pos 8 ∷ [] }

visits_difference : visit_expr difference in_scope ≡ ok (tt, after_difference)
unfolding visit_expr ◌-ℤ◌
visits_difference = refl

visit_expr-IsS64_example :
    (n : ℤ) × (IsS64 n
      × (after_difference ≡ record in_scope { num_stack = n ∷ in_scope.num_stack }))
visit_expr-IsS64_example =
    visit_expr-IsS64 difference in_scope after_difference symbol_table-IsTree (omega arith)
      (omega arith) visits_difference

visit_grp0_three_regs-names_example :
    ((opcode : ℕ) × ((lookup "gltu" encoding_stuff.iog0_three_regs_map ≡ some opcode)
        × (visit_grp0_three_regs concrete "gltu" ("u0" ∷ "u1" ∷ "sp" ∷ []) second_pass
            ≡ ok (tt, encode_instr_opcode_group_0 concrete 1 2 15 opcode second_pass))))
    ⊎ (((◌≡◌ {A = String} "gltu" "nor")
          × (visit_grp0_three_regs concrete "gltu" ("u0" ∷ "u1" ∷ "sp" ∷ []) second_pass
              ≡ exits (eek "visitInstrOpGrp0ThreeRegs():  Eek!")))
        ⊎ ((elem "gltu" misspelled ≡ true)
            × (visit_grp0_three_regs concrete "gltu" ("u0" ∷ "u1" ∷ "sp" ∷ []) second_pass
                ≡ uncaught)))
visit_grp0_three_regs-names_example =
    visit_grp0_three_regs-names concrete second_pass "gltu" "u0" "u1" "sp" 1 2 15 refl refl refl
      refl

visit_instruction-visit_line_example :
    (s' : Assembler) × ((visit_instruction concrete
          (three_regs_instruction alu "sub" "u0" "u1" "sp")
          second_pass
        ≡ ok (tt, s'))
      × AddsLine concrete second_pass s' (
          print_instruction concrete
            (args_type iog0_three_regs)
            "sub"
            "u0"
            "u1"
            "sp"
            (shows 1 2 15 1 0 0)
            (show_unknown_instruction_as_dot_db
              (three_regs_word concrete alu 1 2 15 1 % 2 ^ 32)
              8)))
visit_instruction-visit_line_example =
    visit_instruction-visit_line concrete concrete-Laws alu "sub" "u0" "u1" "sp" 1 1 2 15 0x40
      second_pass refl refl refl refl refl refl refl refl

-- The scope below the root, on the second pass, and the address 0x20.
abbrev branching : Assembler
branching = record second_pass { curr_scope_node = 1 }

abbrev thirty_two : Expr
thirty_two =
    expr_logical
      (expr_compare (expr_add_sub (expr_mul_div_mod_etc (num_expr (dec_num (b'3' ∷ b'2' ∷ []))))))

thirty_two_value : eval_expr (env_of branching) thirty_two ≡ ok (pos 0x20)
unfolding eval_expr read_decimal
thirty_two_value = refl

visit_instruction-target_example :
    (offset : ℕ) × ((visit_instruction concrete (grp2_branch "bne" "u0" "u1" thirty_two) branching
        ≡ ok (tt, gen_32 concrete (imm16_sum 2 1 2 0 offset) branching))
      × ((0x40 + 4 + to_u64 (to_s16 (offset % 2 ^ 16))) % 2 ^ 64 ≡ 0x20))
visit_instruction-target_example =
    visit_instruction-target concrete concrete-Laws "bne" "u0" "u1" thirty_two 0 1 2 (pos 0x20)
      branching refl refl refl symbol_table-IsTree (omega arith) (omega arith) thirty_two_value
      (omega arith) refl

visit_instruction-visit_line-simm12_example :
    (s' : Assembler) × ((visit_instruction concrete
          (grp5_two_regs_one_simm12_ldst "ldri" "u0" "sp" thirty_two)
          branching
        ≡ ok (tt, s'))
      × (s'.warnings ≡ [])
      × AddsLine concrete branching s' (
          print_instruction concrete
            (args_type iog5_two_regs_one_simm_ldst)
            "ldri"
            "u0"
            "sp"
            "zero"
            (shows 1 15 0 8 0 0x20)
            (show_unknown_instruction_as_dot_db (word_simm12 concrete 1 15 8 0x20 % 2 ^ 32) 8)))
visit_instruction-visit_line-simm12_example =
    visit_instruction-visit_line-simm12 concrete concrete-Laws "ldri" "u0" "sp" thirty_two 8 1 15
      0x40 (pos 0x20) branching refl refl refl refl refl refl symbol_table-IsTree (omega arith)
      (omega arith) thirty_two_value refl

visit_label-visit_symbol_example :
    (s' : Assembler) × ((visit_label (instr_name "gltu") branching ≡ ok (tt, s'))
      × (visit_symbol (tok_ident "gltu") s' ≡ pushed s' (to_s64 0x40)))
visit_label-visit_symbol_example =
    visit_label-visit_symbol "gltu" branching refl (instr_name "gltu") (tok_ident "gltu") refl refl
      symbol_table-IsTree (omega arith) (omega arith) symbol_table-IsPooled

visit_instruction-visit_line-imm16_example :
    (s' : Assembler) × ((visit_instruction concrete
          (imm16_instruction branch_offset "bne" "u0" "u1" thirty_two)
          branching
        ≡ ok (tt, s'))
      × AddsLine concrete branching s' (
          print_instruction concrete
            (args_type iog2_branch)
            "bne"
            "u0"
            "u1"
            "zero"
            (shows 1 2 0 0 0xffdc 0)
            (show_unknown_instruction_as_dot_db
              (word_imm16 concrete 2 1 2 0 (imm16_value branch_offset (pos 0x20) 0x40) % 2 ^ 32)
              8)))
visit_instruction-visit_line-imm16_example =
    visit_instruction-visit_line-imm16 concrete concrete-Laws branch_offset "bne" "u0" "u1"
      thirty_two 0 1 2 0x40 (pos 0x20) branching refl refl refl refl refl refl refl
      (symbol_table-IsTree, omega arith, omega arith) thirty_two_value
