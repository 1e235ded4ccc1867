-- ===== src/Tests/Passes.antt =====
-- Blocks and both passes of assembler_class.cpp on concrete programs.
use frost32_cpu.Prelude.{◌<◌, ◌^◌, ◌≡◌, refl, [], ◌∷◌, true, false, arith}
use frost32_cpu.Prelude.Int.{pos}
use frost32_cpu.Outcome.{Outcome, ok, bind}
use frost32_cpu.Assembler.Expr.Nameless.{IsNameless}
use frost32_cpu.SymbolTable.{SymbolTable, symbol_table}
use frost32_cpu.SymbolTable.Shape.{IsWell, Scope, scopes}
use frost32_cpu.SymbolTable.Forest.{IsChild, with_block}
use frost32_cpu.Assembler.{Assembler, assembler}
use frost32_cpu.Assembler.Formats.{seen}
use frost32_cpu.Assembler.Formats.Programs.{run-seen}
use frost32_cpu.Assembler.Syntax.{
  Instruction, PseudoInstruction, Lines, no_lines, line_then, scoped_lines, grp0_three_regs, jmpa,
  label, directive, dot_space, dot_db8, tok_ident,
}
use frost32_cpu.Assembler.Emits.{Emits, InScope, Post}
use frost32_cpu.Assembler.Visit.{visit_instruction}
use frost32_cpu.Assembler.Visit.Accepted.{visit_instruction-IsAccepted}
use frost32_cpu.Assembler.Pseudo.{visit_pseudo_instruction}
use frost32_cpu.Assembler.Pseudo.Accepted.{visit_pseudo_instruction-IsAccepted}
use frost32_cpu.Assembler.Expr.Value.{eval_expr}
use frost32_cpu.Assembler.Expr.Steps.{env_of}
use frost32_cpu.Assembler.Tokens.{read_decimal}
use frost32_cpu.Assembler.Program.{visit_line, visit_lines, run}
use frost32_cpu.Assembler.Program.Layout.{Placed, IsFixed}
use frost32_cpu.Assembler.Program.Addresses.{visit_lines-Placed}
use frost32_cpu.Assembler.Program.Leaves.{IsReady}
use frost32_cpu.Assembler.Program.Blocks.{LineFollows}
use frost32_cpu.Assembler.Program.First.{visit_line-inner, visit_lines-Grown}
use frost32_cpu.Assembler.Program.First.Steps.{Grown, in_scope, inner}
use frost32_cpu.Assembler.Program.Second.{visit_line-left}
use frost32_cpu.Assembler.Program.Second.Steps.{left}
use frost32_cpu.Assembler.Program.Runs.{symbol_table-IsWell, begun, started, run-visit_lines}
use frost32_cpu.Tests.{concrete, concrete-Laws, program, second_pass, value}
use frost32_cpu.Tests.Scopes.{with_scope, with_scope-IsWell}
use frost32_cpu.Tests.States.{symbol_table-IsTree}

-- The program, after the program in a block of its own.
abbrev nested : Lines
nested = line_then (scoped_lines program) program

run-visit_lines_example :
    run concrete nested (assembler true)
    ≡ bind
        (visit_lines concrete nested (begun concrete concrete-Laws nested true))
        (λ (_, s). visit_lines concrete nested (started concrete 1 1 s))
run-visit_lines_example = run-visit_lines concrete concrete-Laws nested true

-- In the scope below the root, on the first pass.
abbrev pub first_pass : Assembler
first_pass = record second_pass { curr_scope_node = 1; pass = 0 }

pub first_pass-IsReady : IsReady first_pass
first_pass-IsReady = record {
  well = symbol_table-IsWell;
  in_range = omega arith;
  below_root = λ z. absurd (omega (arith, z));
}

abbrev pub outermost : Scope
outermost = record { parent = 0; children = [] }

visit_line-inner_example :
    (u : SymbolTable) × (IsWell u
      × (scopes u ≡ with_block (scopes symbol_table) 1 outermost)
      × (visit_line concrete (scoped_lines nested) first_pass
          ≡ bind
              (visit_lines concrete nested (inner u first_pass))
              (λ (_, t). ok (tt, in_scope 1 t))))
visit_line-inner_example =
    visit_line-inner concrete concrete-Laws nested first_pass outermost refl first_pass-IsReady refl

visit_lines-Grown_example :
    Post (visit_lines concrete nested) first_pass (Grown (Placed nested) 1 first_pass)
visit_lines-Grown_example =
    visit_lines-Grown concrete concrete-Laws nested first_pass outermost refl first_pass-IsReady
      refl

-- The outermost scope on the second pass, before its block.
abbrev before_block : Assembler
before_block = record second_pass {
  sym_tbl = with_scope;
  curr_scope_node = 1;
  scope_child_num_stack = 0 ∷ [];
}

before_block-IsReady : IsReady before_block
before_block-IsReady = record {
  well = with_scope-IsWell;
  in_range = omega arith;
  below_root = λ z. absurd (omega (arith, z));
}

first-IsChild : IsChild (scopes with_scope) 1 0 2
first-IsChild = record {
  above = record { parent = 0; children = 2 ∷ [] };
  is_above = refl;
  is_child = refl;
  below = record { parent = 1; children = [] };
  is_below = refl;
  has_parent = refl;
  inside = λ z. absurd (omega (arith, z));
}

visit_line-left_example :
    visit_line concrete (scoped_lines program) before_block
    ≡ bind
        (visit_lines concrete program (left 2 (0 ∷ 0 ∷ []) before_block))
        (λ (_, t). ok (tt, left 1 (1 ∷ []) t))
unfolding LineFollows
visit_line-left_example =
    visit_line-left concrete concrete-Laws program before_block 0 2 [] refl before_block-IsReady
      refl first-IsChild (tt, (tt, (tt, (tt, (tt, tt)))))

abbrev sub_three : Instruction
sub_three = grp0_three_regs "sub" "u0" "u1" "sp"

first_pass-InScope : InScope first_pass
first_pass-InScope = (symbol_table-IsTree, omega arith, λ z. absurd (omega (arith, z)))

visit_instruction-IsAccepted_example :
    (s' : Assembler) × ((visit_instruction concrete sub_three first_pass ≡ ok (tt, s'))
      × Emits 4 first_pass s')
visit_instruction-IsAccepted_example =
    visit_instruction-IsAccepted concrete concrete-Laws first_pass sub_three first_pass-InScope
      (refl, (1, refl), (1, refl), (2, refl), (15, refl))

abbrev jump_away : PseudoInstruction
jump_away = jmpa (value b'8')

eight : eval_expr (env_of first_pass) (value b'8') ≡ ok (pos 8)
unfolding eval_expr read_decimal
eight = refl

visit_pseudo_instruction-IsAccepted_example :
    (s' : Assembler) × ((visit_pseudo_instruction concrete jump_away first_pass ≡ ok (tt, s'))
      × Emits 12 first_pass s')
visit_pseudo_instruction-IsAccepted_example =
    visit_pseudo_instruction-IsAccepted concrete concrete-Laws first_pass jump_away
      first_pass-InScope (pos 8, eight)

-- A label, eight bytes of space, and a byte.
abbrev spaced : Lines
spaced = line_then (label (tok_ident "a")) (
    line_then (directive (dot_space (value b'8')))
      (line_then (directive (dot_db8 (value b'1' ∷ []))) no_lines))

-- The outermost scope on the second pass, without a block.
abbrev again : Assembler
again = record second_pass { curr_scope_node = 1; scope_child_num_stack = 0 ∷ [] }

again-IsReady : IsReady again
again-IsReady = record {
  well = symbol_table-IsWell;
  in_range = omega arith;
  below_root = λ z. absurd (omega (arith, z));
}

-- The state that a visit ends in.
abbrev end_of : Outcome (Unit {0} × Assembler) → Assembler
end_of (ok (_, s)) = s
end_of _ = again

spaced_first :
    visit_lines concrete spaced first_pass
    ≡ ok (tt, end_of (visit_lines concrete spaced first_pass))
unfolding visit_lines
spaced_first = refl

spaced_second :
    visit_lines concrete spaced again ≡ ok (tt, end_of (visit_lines concrete spaced again))
unfolding visit_lines
spaced_second = refl

visit_lines-Placed_example :
    ((end_of (visit_lines concrete spaced first_pass)).pc.curr < 2 ^ 64)
    × ((end_of (visit_lines concrete spaced first_pass)).pc.curr
        ≡ (end_of (visit_lines concrete spaced again)).pc.curr)
unfolding LineFollows IsFixed IsNameless
visit_lines-Placed_example =
    visit_lines-Placed concrete concrete-Laws spaced first_pass again
      (end_of (visit_lines concrete spaced first_pass)) (end_of (visit_lines concrete spaced again))
      outermost 0 [] refl refl first_pass-IsReady again-IsReady refl refl (tt, (tt, (tt, tt)))
      (tt, (tt, (tt, tt))) (omega arith) refl spaced_first spaced_second

run-seen_example :
    seen (run concrete nested (assembler false)) ≡ seen (run concrete nested (assembler true))
run-seen_example = run-seen concrete concrete-Laws nested
