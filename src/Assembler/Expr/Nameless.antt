-- ===== src/Assembler/Expr/Nameless.antt =====
-- Expressions of AssemblerGrammar.g4 without a name: their value does not depend on the symbols,
-- nor, where the second pass accepts them, on the pass.
use frost32_cpu.Prelude.{
  ℕ, ◌≡◌, if◌then◌else◌, String, Bool, true, false, not, ◌==◌, Bool-cases, inl, inr, arith,
}
use frost32_cpu.Prelude.Int.{ℤ}
use frost32_cpu.Prelude.Text.{str_eq}
use frost32_cpu.Outcome.{Outcome, ok, exits, uncaught, undefined, bind}
use frost32_cpu.SymbolTable.{symbol_table}
use frost32_cpu.Assembler.Syntax.{
  Expr, expr_logical, op_logical, ExprLogical, expr_compare, op_compare, ExprCompare, expr_add_sub,
  expr_just_add, expr_just_sub, ExprAddSub, expr_mul_div_mod_etc, op_mul_div_mod, op_bitwise,
  ExprMulDivModEtc, expr_unary, num_expr, ident_name, curr_pc, paren, ExprUnary, expr_bit_invert,
  expr_negate, expr_log_not,
}
use frost32_cpu.Assembler.Operators.{is_true}
use frost32_cpu.Assembler.Expr.Value.{
  Env, eval_expr, eval_expr_logical, eval_expr_compare, eval_expr_add_sub,
  eval_expr_mul_div_mod_etc, eval_expr_unary, arithmetic_value, quotient,
}

unfoldable mutual
  -- No name stands in the expression; `.` may, which is the program counter.
  pub IsNameless : Expr → Type 0
  IsNameless (expr_logical e) = LogicalIsNameless e
  IsNameless (op_logical e op f) = IsNameless e × LogicalIsNameless f

  pub LogicalIsNameless : ExprLogical → Type 0
  LogicalIsNameless (expr_compare e) = CompareIsNameless e
  LogicalIsNameless (op_compare e op f) = LogicalIsNameless e × CompareIsNameless f

  pub CompareIsNameless : ExprCompare → Type 0
  CompareIsNameless (expr_add_sub e) = AddSubIsNameless e
  CompareIsNameless (expr_just_add e f) = AddSubIsNameless e × CompareIsNameless f
  CompareIsNameless (expr_just_sub e f) = AddSubIsNameless e × CompareIsNameless f

  pub AddSubIsNameless : ExprAddSub → Type 0
  AddSubIsNameless (expr_mul_div_mod_etc e) = MulDivModIsNameless e
  AddSubIsNameless (op_mul_div_mod e op f) = AddSubIsNameless e × MulDivModIsNameless f
  AddSubIsNameless (op_bitwise e op f) = AddSubIsNameless e × MulDivModIsNameless f

  pub MulDivModIsNameless : ExprMulDivModEtc → Type 0
  MulDivModIsNameless (expr_unary e) = UnaryIsNameless e
  MulDivModIsNameless (num_expr e) = Unit
  MulDivModIsNameless (ident_name name) = ⊥
  MulDivModIsNameless curr_pc = Unit
  MulDivModIsNameless (paren e) = IsNameless e

  pub UnaryIsNameless : ExprUnary → Type 0
  UnaryIsNameless (expr_bit_invert e) = IsNameless e
  UnaryIsNameless (expr_negate e) = IsNameless e
  UnaryIsNameless (expr_log_not e) = IsNameless e

-- A value that the one has, the other has too.
abbrev pub Refines : Outcome ℤ → Outcome ℤ → Type 0
Refines r q = (n : ℤ) → r ≡ ok n → q ≡ ok n

bind-Refines :
    (r q : Outcome ℤ) (f g : ℤ → Outcome ℤ)
    → Refines r q
    → ((a : ℤ) → Refines (f a) (g a))
    → Refines (bind r f) (bind q g)
bind-Refines (ok a) q f g h k n e = rw (h a (λ i. ok a)) (k a n e)
bind-Refines (exits x) q f g h k n e = cc
bind-Refines uncaught q f g h k n e = cc
bind-Refines undefined q f g h k n e = cc

quotient-Refines : (pass : ℕ) (a b : ℤ) → Refines (quotient pass a b) (quotient 0 a b)
quotient-Refines pass a b n e = elim (Bool-cases (is_true b)) [
  | inl t ↦ ground (arith, t, e)
  | inr f ↦ elim (Bool-cases (not (pass == 0))) [
    | inl p ↦ ground (arith, f, p, e)
    | inr p ↦ ground (arith, f, p, e)
  ]
]

test-Refines :
    (t u : Bool) (x q z r : Outcome ℤ)
    → Refines q z
    → Refines (if t then x else if u then q else r) (if t then x else if u then z else r)
test-Refines true u x q z r h n e = e
test-Refines false true x q z r h n e = h n e
test-Refines false false x q z r h n e = e

arithmetic_value-Refines :
    (pass : ℕ) (op : String) (a b : ℤ)
    → Refines (arithmetic_value pass op a b) (arithmetic_value 0 op a b)
arithmetic_value-Refines pass op a b =
    test-Refines (str_eq op "*") (str_eq op "/") _ _ _ _ (quotient-Refines pass a b)

-- What stands for an expression without a name at an address, on the first pass.
abbrev pub at_pc : ℕ → Env
at_pc pc = record { pass = 0; pc = pc; sym_tbl = symbol_table; curr_scope_node = 1 }

module _ (env : Env) where
  same : (r : Outcome ℤ) → Refines r r
  same r n e = e

  mutual
    unfolding eval_expr IsNameless

    pub eval_expr-at_pc :
        (e : Expr) → IsNameless e → Refines (eval_expr env e) (eval_expr (at_pc env.pc) e)
    eval_expr-at_pc (expr_logical e) h = eval_expr_logical-at_pc e h
    eval_expr-at_pc (op_logical e op f) (h, k) =
        bind-Refines _ _ _ _ (eval_expr-at_pc e h)
          (λ a. bind-Refines _ _ _ _ (eval_expr_logical-at_pc f k) (λ b. same _))

    eval_expr_logical-at_pc :
        (e : ExprLogical)
        → LogicalIsNameless e
        → Refines (eval_expr_logical env e) (eval_expr_logical (at_pc env.pc) e)
    eval_expr_logical-at_pc (expr_compare e) h = eval_expr_compare-at_pc e h
    eval_expr_logical-at_pc (op_compare e op f) (h, k) =
        bind-Refines _ _ _ _ (eval_expr_logical-at_pc e h)
          (λ a. bind-Refines _ _ _ _ (eval_expr_compare-at_pc f k) (λ b. same _))

    eval_expr_compare-at_pc :
        (e : ExprCompare)
        → CompareIsNameless e
        → Refines (eval_expr_compare env e) (eval_expr_compare (at_pc env.pc) e)
    eval_expr_compare-at_pc (expr_add_sub e) h = eval_expr_add_sub-at_pc e h
    eval_expr_compare-at_pc (expr_just_add e f) (h, k) =
        bind-Refines _ _ _ _ (eval_expr_add_sub-at_pc e h)
          (λ a. bind-Refines _ _ _ _ (eval_expr_compare-at_pc f k) (λ b. same _))
    eval_expr_compare-at_pc (expr_just_sub e f) (h, k) =
        bind-Refines _ _ _ _ (eval_expr_add_sub-at_pc e h)
          (λ a. bind-Refines _ _ _ _ (eval_expr_compare-at_pc f k) (λ b. same _))

    eval_expr_add_sub-at_pc :
        (e : ExprAddSub)
        → AddSubIsNameless e
        → Refines (eval_expr_add_sub env e) (eval_expr_add_sub (at_pc env.pc) e)
    eval_expr_add_sub-at_pc (expr_mul_div_mod_etc e) h = eval_expr_mul_div_mod_etc-at_pc e h
    eval_expr_add_sub-at_pc (op_mul_div_mod e op f) (h, k) =
        bind-Refines _ _ _ _ (eval_expr_add_sub-at_pc e h) (λ a.
          bind-Refines _ _ _ _ (eval_expr_mul_div_mod_etc-at_pc f k)
            (λ b. arithmetic_value-Refines env.pass op a b))
    eval_expr_add_sub-at_pc (op_bitwise e op f) (h, k) =
        bind-Refines _ _ _ _ (eval_expr_add_sub-at_pc e h) (λ a.
          bind-Refines _ _ _ _ (eval_expr_mul_div_mod_etc-at_pc f k)
            (λ b. arithmetic_value-Refines env.pass op a b))

    eval_expr_mul_div_mod_etc-at_pc :
        (e : ExprMulDivModEtc)
        → MulDivModIsNameless e
        → Refines (eval_expr_mul_div_mod_etc env e) (eval_expr_mul_div_mod_etc (at_pc env.pc) e)
    eval_expr_mul_div_mod_etc-at_pc (expr_unary e) h = eval_expr_unary-at_pc e h
    eval_expr_mul_div_mod_etc-at_pc (num_expr e) h = same _
    eval_expr_mul_div_mod_etc-at_pc (ident_name name) h = absurd h
    eval_expr_mul_div_mod_etc-at_pc curr_pc h = same _
    eval_expr_mul_div_mod_etc-at_pc (paren e) h = eval_expr-at_pc e h

    eval_expr_unary-at_pc :
        (e : ExprUnary)
        → UnaryIsNameless e
        → Refines (eval_expr_unary env e) (eval_expr_unary (at_pc env.pc) e)
    eval_expr_unary-at_pc (expr_bit_invert e) h =
        bind-Refines _ _ _ _ (eval_expr-at_pc e h) (λ a. same _)
    eval_expr_unary-at_pc (expr_negate e) h =
        bind-Refines _ _ _ _ (eval_expr-at_pc e h) (λ a. same _)
    eval_expr_unary-at_pc (expr_log_not e) h =
        bind-Refines _ _ _ _ (eval_expr-at_pc e h) (λ a. same _)
