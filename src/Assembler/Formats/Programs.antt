-- ===== src/Assembler/Formats/Programs.antt =====
-- Directives, lines and `run` of assembler_class.cpp do not look at the format of the
-- output.
use frost32_cpu.Prelude.{
  ℕ, ◌%◌, ◌^◌, ◌≡◌, ◌∙◌, refl, ap, sym, List, [], ◌∷◌, true, false, get_elem?,
}
use frost32_cpu.Prelude.Int.{to_u64}
use frost32_cpu.Orange.{Orange, Laws}
use frost32_cpu.Outcome.{deref}
use frost32_cpu.SymbolTable.{tree}
use frost32_cpu.Assembler.{Assembler, modify, push_scope_child_num, assembler}
use frost32_cpu.Assembler.Emit.{gen_8, gen_16, gen_32}
use frost32_cpu.Assembler.Syntax.{
  Expr, Directive, dot_org, dot_space, dot_db, dot_db16, dot_db8, Line, scoped_lines, label,
  instruction, pseudo_instruction, directive, blank, Lines, no_lines, line_then,
}
use frost32_cpu.Assembler.Visit.{visit_value}
use frost32_cpu.Assembler.Program.{
  set_pc, visit_dot_org, visit_dot_space, visit_data, enter_scope, visit_directive, visit_line,
  visit_lines, visit_program, run_pass, run,
}
use frost32_cpu.Assembler.Formats.{
  unseen, seen, Blind, bind-Blind, pure-Blind, modify-Blind, push_scope_child_num-Blind,
  gen_8-Blind, gen_16-Blind, gen_32-Blind,
}
use frost32_cpu.Assembler.Formats.Scopes.{
  lift_same, visit_label-Blind, enter_scope-Blind, leave_scope-Blind,
}
use frost32_cpu.Assembler.Formats.Expressions.{visit_value-Blind}
use frost32_cpu.Assembler.Formats.Instructions.{visit_instruction-Blind}
use frost32_cpu.Assembler.Formats.Pseudo.{visit_pseudo_instruction-Blind}

visit_dot_org-Blind : (e : Expr) → Blind (visit_dot_org e)
unfolding visit_dot_org
visit_dot_org-Blind e =
    bind-Blind (visit_value e) _ (visit_value-Blind e)
      (λ n. modify-Blind (set_pc (to_u64 n)) (λ s. refl))

visit_dot_space-Blind : (e : Expr) → Blind (visit_dot_space e)
unfolding visit_dot_space
visit_dot_space-Blind e =
    bind-Blind (visit_value e) _ (visit_value-Blind e) (λ n. record { same = λ s. refl })

visit_data-Blind :
    (width : ℕ) (gen : ℕ → Assembler → Assembler) (es : List Expr)
    → ((w : ℕ) → Blind (modify (gen w)))
    → Blind (visit_data width gen es)
unfolding visit_data
visit_data-Blind width gen [] h = pure-Blind tt
visit_data-Blind width gen (e ∷ es) h = bind-Blind (visit_value e) _ (visit_value-Blind e) (λ n.
    bind-Blind (modify (gen (to_u64 n % 2 ^ width))) _ (h (to_u64 n % 2 ^ width))
      (λ _. visit_data-Blind width gen es h))

module _ (lib : Orange) (laws : Laws lib) where
  visit_directive-Blind : (d : Directive) → Blind (visit_directive lib d)
  unfolding visit_directive
  visit_directive-Blind (dot_org e) = visit_dot_org-Blind e
  visit_directive-Blind (dot_space e) = visit_dot_space-Blind e
  visit_directive-Blind (dot_db es) = visit_data-Blind 32 (gen_32 lib) es (gen_32-Blind lib laws)
  visit_directive-Blind (dot_db16 es) = visit_data-Blind 16 (gen_16 lib) es (gen_16-Blind lib laws)
  visit_directive-Blind (dot_db8 es) = visit_data-Blind 8 (gen_8 lib) es (gen_8-Blind lib laws)

  mutual
    unfolding visit_line

    visit_line-Blind : (line : Line) → Blind (visit_line lib line)
    visit_line-Blind (scoped_lines lines) = bind-Blind enter_scope _ enter_scope-Blind (λ _.
        bind-Blind (visit_lines lib lines) _ (visit_lines-Blind lines) (λ _. leave_scope-Blind))
    visit_line-Blind (label name) = visit_label-Blind name
    visit_line-Blind (instruction i) = visit_instruction-Blind lib laws i
    visit_line-Blind (pseudo_instruction p) = visit_pseudo_instruction-Blind lib laws p
    visit_line-Blind (directive d) = visit_directive-Blind d
    visit_line-Blind blank = pure-Blind tt

    visit_lines-Blind : (lines : Lines) → Blind (visit_lines lib lines)
    visit_lines-Blind no_lines = pure-Blind tt
    visit_lines-Blind (line_then line lines) =
        bind-Blind (visit_line lib line) _ (visit_line-Blind line) (λ _. visit_lines-Blind lines)

  -- The start of a pass.
  abbrev starting : ℕ → ℕ → Assembler → Assembler
  starting pass front s = record s {
    pass = pass;
    pc = lib.back_up (record s.pc { curr = 0 });
    curr_scope_node = front;
  }

  starting-unseen :
      (pass front : ℕ) (s : Assembler)
      → unseen (starting pass front s) ≡ unseen (starting pass front (unseen s))
  starting-unseen pass front s =
      let p = laws.back_up_lem (record s.pc { curr = 0 }) in
      let q = laws.back_up_lem (record { prev = 0; curr = 0 }) in
      ap (λ r. unseen (record s { pass = pass; pc = r; curr_scope_node = front })) p
      ∙ sym (ap (λ r. unseen (record s { pass = pass; pc = r; curr_scope_node = front })) q)

  run_pass-Blind : (pass : ℕ) (lines : Lines) → Blind (run_pass lib pass lines)
  unfolding run_pass visit_program
  run_pass-Blind pass lines = record {
    same = λ s. lift_same (deref (get_elem? s.sym_tbl.nodes tree)) _ _ s (λ root.
        lift_same (deref (get_elem? root.children 0)) _ _ s (λ front.
          let visit = visit_lines-Blind lines in
          visit.same (starting pass front s)
          ∙ ap (λ t. seen (visit_lines lib lines t)) (starting-unseen pass front s)
          ∙ sym (visit.same (starting pass front (unseen s)))));
  }

  run-Blind : (lines : Lines) → Blind (run lib lines)
  unfolding run
  run-Blind lines = bind-Blind (push_scope_child_num 0) _ (push_scope_child_num-Blind 0) (λ _.
      bind-Blind (run_pass lib 0 lines) _ (run_pass-Blind 0 lines) (λ _. run_pass-Blind 1 lines))

  -- In bytes and in words, `run` ends in the same way, with the same state but for the output, the
  -- format and the last address of the program counter.
  pub run-seen :
      (lines : Lines)
      → seen (run lib lines (assembler false)) ≡ seen (run lib lines (assembler true))
  run-seen lines =
      (run-Blind lines).same (assembler false) ∙ sym ((run-Blind lines).same (assembler true))
