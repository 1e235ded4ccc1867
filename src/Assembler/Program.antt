-- ===== src/Assembler/Program.antt =====
-- The visitors of directives, labels, scopes and lines in assembler_class.cpp, and `run`, which
-- goes through the program twice.
pub mod Labels
pub mod Layout
pub mod Leaves
pub mod Blocks
pub mod First
pub mod Second
pub mod Addresses
pub mod Runs
pub mod Held
pub mod Total
use frost32_cpu.Prelude.{
  ℕ, ◌+◌, ◌%◌, ◌^◌, List, [], ◌∷◌, String, Option, none, some, not, ◌&&◌, leb, if◌then◌else◌,
  get_elem?, length,
}
use frost32_cpu.Prelude.Int.{to_u64}
use frost32_cpu.Orange.{Orange}
use frost32_cpu.Outcome.{at, deref, duplicate_label}
use frost32_cpu.SymbolTable.{
  mkscope, rmscope, find_in_this_blklev, find_or_insert, define_label, tree,
}
use frost32_cpu.Assembler.{
  Assembler, M, ◌>>=◌, ◌>>◌, nothing, get, put, modify, err, lift, pop_num, pop_str,
  push_scope_child_num, get_top_scope_child_num, pop_scope_child_num, is_pass_one,
}
use frost32_cpu.Assembler.Emit.{gen_8, gen_16, gen_32}
use frost32_cpu.Assembler.Syntax.{
  Expr, IdentName, Directive, dot_org, dot_space, dot_db, dot_db16, dot_db8, Line, scoped_lines,
  label, instruction, pseudo_instruction, directive, blank, Lines, no_lines, line_then,
}
use frost32_cpu.Assembler.Tokens.{visit_ident_name}
use frost32_cpu.Assembler.Expr.{visit_expr}
use frost32_cpu.Assembler.Visit.{visit_value, visit_instruction}
use frost32_cpu.Assembler.Pseudo.{visit_pseudo_instruction}

-- `__pc.curr = value`, which leaves the previous value for `has_changed`.
abbrev pub set_pc : ℕ → Assembler → Assembler
set_pc value s = record s { pc = record s.pc { curr = value } }

unfoldable pub visit_dot_org : Expr → M (Unit {0})
unfolding visit_expr pop_num
visit_dot_org e = do n ← visit_value e; modify (set_pc (to_u64 n))

unfoldable pub visit_dot_space : Expr → M (Unit {0})
unfolding visit_expr pop_num
visit_dot_space e = do n ← visit_value e; s ← get; put (set_pc ((s.pc.curr + to_u64 n) % 2 ^ 64) s)

-- The loop of the three data directives, over what outputs a value of the width.
unfoldable pub visit_data : ℕ → (ℕ → Assembler → Assembler) → List Expr → M (Unit {0})
unfolding visit_expr pop_num
visit_data width gen [] = nothing
visit_data width gen (e ∷ expressions) = do
  n ← visit_value e
  modify (gen (to_u64 n % 2 ^ width))
  visit_data width gen expressions

-- What `visitLabel` checks on the first pass: a symbol of this scope that is a label already.
abbrev pub check_duplicate : String → Option ℕ → M (Unit {0})
check_duplicate name none = nothing
check_duplicate name (some sym) = do
  s ← get
  symbol ← lift (deref (get_elem? s.sym_tbl.data_pool sym))
  if not (is_pass_one s) && symbol.found_as_label then err (duplicate_label name) else nothing

unfoldable pub visit_label : IdentName → M (Unit {0})
unfolding visit_ident_name pop_str find_in_this_blklev find_or_insert define_label
visit_label ident = do
  visit_ident_name ident
  name ← pop_str
  s ← get
  here ← lift (find_in_this_blklev s.sym_tbl s.curr_scope_node name)
  check_duplicate name here
  (t, found) ← lift (find_or_insert s.sym_tbl s.curr_scope_node name)
  sym ← lift (deref found)
  t' ← lift (define_label t sym s.pc.curr)
  put (record s { sym_tbl = t' })

-- Into a scope: the first pass makes it, the second finds it as the next child.
unfoldable pub enter_scope : M (Unit {0})
unfolding mkscope get_top_scope_child_num push_scope_child_num
enter_scope = do
  s ← get
  if not (is_pass_one s)
      then (do
        (t, made) ← lift (mkscope s.sym_tbl s.curr_scope_node)
        put (record s { sym_tbl = t; curr_scope_node = made }))
      else (do
        node ← lift (deref (get_elem? s.sym_tbl.nodes s.curr_scope_node))
        i ← get_top_scope_child_num
        child ← lift (at (get_elem? node.children i))
        put (record s { curr_scope_node = child })
        push_scope_child_num 0)

-- `auto temp = pop_scope_child_num(); ++temp; push_scope_child_num(temp);`
unfoldable pub count_child : M (Unit {0})
unfolding pop_scope_child_num push_scope_child_num
count_child = do temp ← pop_scope_child_num; push_scope_child_num (temp + 1)

-- Out of a scope, to its parent.
unfoldable pub leave_scope : M (Unit {0})
unfolding rmscope pop_scope_child_num count_child
leave_scope = do
  s ← get
  if not (is_pass_one s)
      then (do
        parent ← lift (rmscope s.sym_tbl s.curr_scope_node)
        put (record s { curr_scope_node = parent }))
      else (do
        last ← pop_scope_child_num
        t ← get
        if leb 1 (length t.scope_child_num_stack) then count_child else nothing
        u ← get
        node ← lift (deref (get_elem? u.sym_tbl.nodes u.curr_scope_node))
        put (record u { curr_scope_node = node.parent }))

module _ (lib : Orange) where
  unfoldable pub visit_directive : Directive → M (Unit {0})
  unfolding visit_dot_org visit_dot_space visit_data gen_8 gen_16 gen_32
  visit_directive (dot_org e) = visit_dot_org e
  visit_directive (dot_space e) = visit_dot_space e
  visit_directive (dot_db expressions) = visit_data 32 (gen_32 lib) expressions
  visit_directive (dot_db16 expressions) = visit_data 16 (gen_16 lib) expressions
  visit_directive (dot_db8 expressions) = visit_data 8 (gen_8 lib) expressions

  unfoldable mutual
    unfolding enter_scope leave_scope visit_label visit_instruction visit_pseudo_instruction
        visit_directive

    pub visit_line : Line → M (Unit {0})
    visit_line (scoped_lines lines) = do enter_scope; visit_lines lines; leave_scope
    visit_line (label name) = visit_label name
    visit_line (instruction i) = visit_instruction lib i
    visit_line (pseudo_instruction p) = visit_pseudo_instruction lib p
    visit_line (directive d) = visit_directive d
    visit_line blank = nothing

    pub visit_lines : Lines → M (Unit {0})
    visit_lines no_lines = nothing
    visit_lines (line_then line lines) = do visit_line line; visit_lines lines

  unfoldable pub visit_program : Lines → M (Unit {0})
  unfolding visit_line
  visit_program lines = visit_lines lines

  -- One round of the loop: the program counter and the scope start afresh.
  unfoldable pub run_pass : ℕ → Lines → M (Unit {0})
  unfolding visit_program
  run_pass pass lines = do
    s ← get
    root ← lift (deref (get_elem? s.sym_tbl.nodes tree))
    front ← lift (deref (get_elem? root.children 0))
    put (record s {
      pass = pass;
      pc = lib.back_up (record s.pc { curr = 0 });
      curr_scope_node = front;
    })
    visit_program lines

  unfoldable pub run : Lines → M (Unit {0})
  unfolding run_pass push_scope_child_num
  run lines = do push_scope_child_num 0; run_pass 0 lines; run_pass 1 lines
