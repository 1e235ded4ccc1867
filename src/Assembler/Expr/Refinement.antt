-- ===== src/Assembler/Expr/Refinement.antt =====
-- The visitors of expressions in assembler_class.cpp compute the value of the expression.
use frost32_cpu.Prelude.{◌<◌, ◌≡◌, ◌≢◌, refl, length}
use frost32_cpu.Prelude.Int.{pos, ◌+ℤ◌, ◌-ℤ◌, negate, bit_invert, eqb_ℤ}
use frost32_cpu.Outcome.{ok, bind}
use frost32_cpu.SymbolTable.Scopes.{IsTree}
use frost32_cpu.Assembler.{Assembler}
use frost32_cpu.Assembler.Syntax.{
  Expr, expr_logical, op_logical, ExprLogical, expr_compare, op_compare, ExprCompare, expr_add_sub,
  expr_just_add, expr_just_sub, ExprAddSub, expr_mul_div_mod_etc, op_mul_div_mod, op_bitwise,
  ExprMulDivModEtc, expr_unary, num_expr, ident_name, curr_pc, paren, ExprUnary, expr_bit_invert,
  expr_negate, expr_log_not,
}
use frost32_cpu.Assembler.Operators.{from_bool}
use frost32_cpu.Assembler.Expr.{
  visit_curr_pc, visit_expr, visit_expr_logical, visit_expr_compare, visit_expr_add_sub,
  visit_expr_mul_div_mod_etc, visit_expr_unary,
}
use frost32_cpu.Assembler.Expr.Value.{
  logical_value, compare_value, arithmetic_value, checked, eval_expr, eval_expr_logical,
  eval_expr_compare, eval_expr_add_sub, eval_expr_mul_div_mod_etc, eval_expr_unary,
}
use frost32_cpu.Assembler.Expr.Steps.{
  env_of, pushed, Pushes, unary-Pushes, binary-Pushes, push_num-Gives, push_checked-Gives,
  apply_logical-Gives, apply_compare-Gives, apply_mul_div_etc-Gives,
}
use frost32_cpu.Assembler.Expr.Symbols.{visit_num_expr-Pushes, visit_symbol-Pushes}

mutual
  unfolding visit_expr eval_expr visit_curr_pc

  expr : (e : Expr) → Pushes (visit_expr e) (λ env. eval_expr env e)
  expr (expr_logical e) = logical e
  expr (op_logical e op f) =
      binary-Pushes _ _ (λ env. eval_expr env e) (λ env. eval_expr_logical env f) _
        (λ env a b. logical_value op a b) (expr e) (logical f)
        (λ a b s t c z. apply_logical-Gives s op a b)

  logical : (e : ExprLogical) → Pushes (visit_expr_logical e) (λ env. eval_expr_logical env e)
  logical (expr_compare e) = compare e
  logical (op_compare e op f) =
      binary-Pushes _ _ (λ env. eval_expr_logical env e) (λ env. eval_expr_compare env f) _
        (λ env a b. compare_value op a b) (logical e) (compare f)
        (λ a b s t c z. apply_compare-Gives s op a b)

  compare : (e : ExprCompare) → Pushes (visit_expr_compare e) (λ env. eval_expr_compare env e)
  compare (expr_add_sub e) = add_sub e
  compare (expr_just_add e f) =
      binary-Pushes _ _ (λ env. eval_expr_add_sub env e) (λ env. eval_expr_compare env f) _
        (λ env a b. checked (a +ℤ b)) (add_sub e) (compare f)
        (λ a b s t c z. push_checked-Gives s (a +ℤ b))
  compare (expr_just_sub e f) =
      binary-Pushes _ _ (λ env. eval_expr_add_sub env e) (λ env. eval_expr_compare env f) _
        (λ env a b. checked (a -ℤ b)) (add_sub e) (compare f)
        (λ a b s t c z. push_checked-Gives s (a -ℤ b))

  add_sub : (e : ExprAddSub) → Pushes (visit_expr_add_sub e) (λ env. eval_expr_add_sub env e)
  add_sub (expr_mul_div_mod_etc e) = mul_div_mod_etc e
  add_sub (op_mul_div_mod e op f) =
      binary-Pushes _ _ (λ env. eval_expr_add_sub env e) (λ env. eval_expr_mul_div_mod_etc env f) _
        (λ env a b. arithmetic_value env.pass op a b) (add_sub e) (mul_div_mod_etc f)
        (λ a b s t c z. apply_mul_div_etc-Gives s op a b)
  add_sub (op_bitwise e op f) =
      binary-Pushes _ _ (λ env. eval_expr_add_sub env e) (λ env. eval_expr_mul_div_mod_etc env f) _
        (λ env a b. arithmetic_value env.pass op a b) (add_sub e) (mul_div_mod_etc f)
        (λ a b s t c z. apply_mul_div_etc-Gives s op a b)

  mul_div_mod_etc :
      (e : ExprMulDivModEtc)
      → Pushes (visit_expr_mul_div_mod_etc e) (λ env. eval_expr_mul_div_mod_etc env e)
  mul_div_mod_etc (expr_unary e) = unary e
  mul_div_mod_etc (num_expr e) = visit_num_expr-Pushes e
  mul_div_mod_etc (ident_name name) = visit_symbol-Pushes name
  mul_div_mod_etc curr_pc = λ s t c z. refl
  mul_div_mod_etc (paren e) = expr e

  unary : (e : ExprUnary) → Pushes (visit_expr_unary e) (λ env. eval_expr_unary env e)
  unary (expr_bit_invert e) =
      unary-Pushes _ (λ env. eval_expr env e) _ (λ env a. ok (bit_invert a)) (expr e)
        (λ a s t c z. push_num-Gives s (bit_invert a))
  unary (expr_negate e) =
      unary-Pushes _ (λ env. eval_expr env e) _ (λ env a. checked (negate a)) (expr e)
        (λ a s t c z. push_checked-Gives s (negate a))
  unary (expr_log_not e) =
      unary-Pushes _ (λ env. eval_expr env e) _ (λ env a. ok (from_bool (eqb_ℤ a (pos 0)))) (expr e)
        (λ a s t c z. push_num-Gives s (from_bool (eqb_ℤ a (pos 0))))

-- In a scope below the root of a tree, an expression is visited as it is evaluated: its value is
-- pushed on the stack of numbers and nothing else of the state changes, or the visit stops as the
-- evaluation does.
pub visit_expr-eval_expr :
    (e : Expr) (s : Assembler)
    → IsTree s.sym_tbl
    → s.curr_scope_node < length s.sym_tbl.nodes
    → s.curr_scope_node ≢ 0
    → visit_expr e s ≡ bind (eval_expr (env_of s) e) (pushed s)
visit_expr-eval_expr e s t c z = expr e s t c z
