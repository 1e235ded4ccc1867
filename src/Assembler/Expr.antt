-- ===== src/Assembler/Expr.antt =====
-- The visitors of expressions in assembler_class.cpp. Each leaves its value on the stack of
-- numbers; the name of a symbol goes through the stack of texts.
pub mod Value
pub mod Nameless
pub mod Steps
pub mod Symbols
pub mod Bounds
pub mod Refinement
use frost32_cpu.Prelude.{if◌then◌else◌, get_elem?}
use frost32_cpu.Prelude.Int.{pos, ◌+ℤ◌, ◌-ℤ◌, eqb_ℤ, negate, bit_invert, to_s64}
use frost32_cpu.Outcome.{unknown_symbol, deref}
use frost32_cpu.SymbolTable.{find_or_insert}
use frost32_cpu.Assembler.{
  M, ◌>>=◌, ◌>>◌, get, put, err, lift, push_num, pop_num, pop_str, is_pass_one,
}
use frost32_cpu.Assembler.Syntax.{
  IdentName, Expr, expr_logical, op_logical, ExprLogical, expr_compare, op_compare, ExprCompare,
  expr_add_sub, expr_just_add, expr_just_sub, ExprAddSub, expr_mul_div_mod_etc, op_mul_div_mod,
  op_bitwise, ExprMulDivModEtc, expr_unary, num_expr, ident_name, curr_pc, paren, ExprUnary,
  expr_bit_invert, expr_negate, expr_log_not,
}
use frost32_cpu.Assembler.Operators.{
  push_checked, from_bool, apply_logical, apply_compare, apply_mul_div_etc,
}
use frost32_cpu.Assembler.Tokens.{visit_ident_name, visit_num_expr}

unfoldable pub visit_curr_pc : M (Unit {0})
unfolding push_num
visit_curr_pc = do s ← get; push_num (to_s64 s.pc.curr)

-- A symbol on the second pass: it must be a label by then.
unfoldable pub push_symbol : M (Unit {0})
unfolding pop_str find_or_insert push_num
push_symbol = do
  name ← pop_str
  s ← get
  (t, found) ← lift (find_or_insert s.sym_tbl s.curr_scope_node name)
  put (record s { sym_tbl = t })
  sym ← lift (deref found)
  symbol ← lift (deref (get_elem? t.data_pool sym))
  if symbol.found_as_label then push_num (to_s64 symbol.addr) else err (unknown_symbol name)

-- On the first pass every symbol stands for 0.
unfoldable pub visit_symbol : IdentName → M (Unit {0})
unfolding visit_ident_name pop_str push_num push_symbol
visit_symbol name = do
  visit_ident_name name
  s ← get
  if is_pass_one s then push_symbol else pop_str >>= λ _. push_num (pos 0)

unfoldable mutual
  unfolding visit_num_expr visit_symbol visit_curr_pc pop_num push_num

  pub visit_expr : Expr → M (Unit {0})
  visit_expr (expr_logical e) = visit_expr_logical e
  visit_expr (op_logical e op f) = do
    visit_expr e
    left ← pop_num
    visit_expr_logical f
    right ← pop_num
    apply_logical op left right

  pub visit_expr_logical : ExprLogical → M (Unit {0})
  visit_expr_logical (expr_compare e) = visit_expr_compare e
  visit_expr_logical (op_compare e op f) = do
    visit_expr_logical e
    left ← pop_num
    visit_expr_compare f
    right ← pop_num
    apply_compare op left right

  pub visit_expr_compare : ExprCompare → M (Unit {0})
  visit_expr_compare (expr_add_sub e) = visit_expr_add_sub e
  visit_expr_compare (expr_just_add e f) = do
    visit_expr_add_sub e
    left ← pop_num
    visit_expr_compare f
    right ← pop_num
    push_checked (left +ℤ right)
  visit_expr_compare (expr_just_sub e f) = do
    visit_expr_add_sub e
    left ← pop_num
    visit_expr_compare f
    right ← pop_num
    push_checked (left -ℤ right)

  pub visit_expr_add_sub : ExprAddSub → M (Unit {0})
  visit_expr_add_sub (expr_mul_div_mod_etc e) = visit_expr_mul_div_mod_etc e
  visit_expr_add_sub (op_mul_div_mod e op f) = do
    visit_expr_add_sub e
    left ← pop_num
    visit_expr_mul_div_mod_etc f
    right ← pop_num
    apply_mul_div_etc op left right
  visit_expr_add_sub (op_bitwise e op f) = do
    visit_expr_add_sub e
    left ← pop_num
    visit_expr_mul_div_mod_etc f
    right ← pop_num
    apply_mul_div_etc op left right

  pub visit_expr_mul_div_mod_etc : ExprMulDivModEtc → M (Unit {0})
  visit_expr_mul_div_mod_etc (expr_unary e) = visit_expr_unary e
  visit_expr_mul_div_mod_etc (num_expr e) = visit_num_expr e
  visit_expr_mul_div_mod_etc (ident_name name) = visit_symbol name
  visit_expr_mul_div_mod_etc curr_pc = visit_curr_pc
  visit_expr_mul_div_mod_etc (paren e) = visit_expr e

  pub visit_expr_unary : ExprUnary → M (Unit {0})
  visit_expr_unary (expr_bit_invert e) = do visit_expr e; n ← pop_num; push_num (bit_invert n)
  visit_expr_unary (expr_negate e) = do visit_expr e; n ← pop_num; push_checked (negate n)
  visit_expr_unary (expr_log_not e) = do
    visit_expr e
    n ← pop_num
    push_num (from_bool (eqb_ℤ n (pos 0)))
