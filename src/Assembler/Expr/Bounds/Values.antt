-- ===== src/Assembler/Expr/Bounds/Values.antt =====
-- What a visit of an expression in assembler_class.cpp leaves on the stack fits an s64.
use frost32_cpu.Prelude.{◌<◌, ◌≡◌, ◌≢◌, ◌∙◌, sym, length, ◌∷◌}
use frost32_cpu.Prelude.Int.{ℤ, pos, ◌+ℤ◌, ◌-ℤ◌, negate, eqb_ℤ, IsS64}
use frost32_cpu.Outcome.{Outcome, ok, exits, uncaught, undefined, bind}
use frost32_cpu.SymbolTable.Scopes.{IsTree}
use frost32_cpu.Assembler.{Assembler}
use frost32_cpu.Assembler.Syntax.{
  Expr, expr_logical, op_logical, ExprLogical, expr_compare, op_compare, ExprCompare, expr_add_sub,
  expr_just_add, expr_just_sub, ExprAddSub, expr_mul_div_mod_etc, op_mul_div_mod, op_bitwise,
  ExprMulDivModEtc, expr_unary, num_expr, ident_name, curr_pc, paren, ExprUnary, expr_bit_invert,
  expr_negate, expr_log_not,
}
use frost32_cpu.Assembler.Expr.{visit_expr}
use frost32_cpu.Assembler.Expr.Value.{
  Env, eval_expr, eval_expr_logical, eval_expr_compare, eval_expr_add_sub,
  eval_expr_mul_div_mod_etc, eval_expr_unary,
}
use frost32_cpu.Assembler.Expr.Steps.{env_of, pushed}
use frost32_cpu.Assembler.Expr.Refinement.{visit_expr-eval_expr}
use frost32_cpu.Assembler.Expr.Bounds.{
  Fits, bind-Fits, to_s64-Fits, from_bool-Fits, checked-Fits, bit_invert-Fits, logical_value-Fits,
  compare_value-Fits, arithmetic_value-Fits, num_value-Fits, symbol_value-Fits,
}

module _ (env : Env) where
  mutual
    unfolding eval_expr

    expr : (e : Expr) → Fits (eval_expr env e)
    expr (expr_logical e) = logical e
    expr (op_logical e op f) =
        bind-Fits _ _ (expr e) λ a p. bind-Fits _ _ (logical f) λ b q. logical_value-Fits op a b

    logical : (e : ExprLogical) → Fits (eval_expr_logical env e)
    logical (expr_compare e) = compare e
    logical (op_compare e op f) =
        bind-Fits _ _ (logical e) λ a p. bind-Fits _ _ (compare f) λ b q. compare_value-Fits op a b

    compare : (e : ExprCompare) → Fits (eval_expr_compare env e)
    compare (expr_add_sub e) = add_sub e
    compare (expr_just_add e f) =
        bind-Fits _ _ (add_sub e) λ a p. bind-Fits _ _ (compare f) λ b q. checked-Fits (a +ℤ b)
    compare (expr_just_sub e f) =
        bind-Fits _ _ (add_sub e) λ a p. bind-Fits _ _ (compare f) λ b q. checked-Fits (a -ℤ b)

    add_sub : (e : ExprAddSub) → Fits (eval_expr_add_sub env e)
    add_sub (expr_mul_div_mod_etc e) = mul_div_mod_etc e
    add_sub (op_mul_div_mod e op f) =
        bind-Fits _ _ (add_sub e)
          λ a p. bind-Fits _ _ (mul_div_mod_etc f) λ b q. arithmetic_value-Fits env.pass op a b p
    add_sub (op_bitwise e op f) =
        bind-Fits _ _ (add_sub e)
          λ a p. bind-Fits _ _ (mul_div_mod_etc f) λ b q. arithmetic_value-Fits env.pass op a b p

    mul_div_mod_etc : (e : ExprMulDivModEtc) → Fits (eval_expr_mul_div_mod_etc env e)
    mul_div_mod_etc (expr_unary e) = unary e
    mul_div_mod_etc (num_expr e) = num_value-Fits e
    mul_div_mod_etc (ident_name name) = symbol_value-Fits env name
    mul_div_mod_etc curr_pc = to_s64-Fits env.pc
    mul_div_mod_etc (paren e) = expr e

    unary : (e : ExprUnary) → Fits (eval_expr_unary env e)
    unary (expr_bit_invert e) = bind-Fits _ _ (expr e) bit_invert-Fits
    unary (expr_negate e) = bind-Fits _ _ (expr e) λ a p. checked-Fits (negate a)
    unary (expr_log_not e) = bind-Fits _ _ (expr e) λ a p. from_bool-Fits (eqb_ℤ a (pos 0))

-- The state after a value that fits was pushed.
after_push :
    (r : Outcome ℤ) (s s' : Assembler)
    → Fits r
    → bind r (pushed s) ≡ ok (tt, s')
    → (n : ℤ) × (IsS64 n × (s' ≡ record s { num_stack = n ∷ s.num_stack }))
after_push (ok n) s s' h e = (n, (h, cc))
after_push (exits x) s s' h e = cc
after_push uncaught s s' h e = cc
after_push undefined s s' h e = cc

-- A visit of an expression that ends, in a scope below the root of a tree, pushes one number, which
-- fits an s64, and changes nothing else.
pub visit_expr-IsS64 :
    (e : Expr) (s s' : Assembler)
    → IsTree s.sym_tbl
    → s.curr_scope_node < length s.sym_tbl.nodes
    → s.curr_scope_node ≢ 0
    → visit_expr e s ≡ ok (tt, s')
    → (n : ℤ) × (IsS64 n × (s' ≡ record s { num_stack = n ∷ s.num_stack }))
visit_expr-IsS64 e s s' t c z r =
    after_push (eval_expr (env_of s) e) s s' (expr (env_of s) e)
      (sym (visit_expr-eval_expr e s t c z) ∙ r)
