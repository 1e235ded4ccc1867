-- ===== src/Assembler/Formats/Expressions.antt =====
-- The visitors of expressions in assembler_class.cpp do not look at the format of the output.
use frost32_cpu.Prelude.{
  ℕ, ◌≡◌, refl, String, Option, none, some, if◌then◌else◌, get_elem?, Bool-cases, inl, inr,
}
use frost32_cpu.Prelude.Int.{ℤ, pos, ◌+ℤ◌, ◌-ℤ◌, eqb_ℤ, quot, fits_s64, negate, bit_invert, to_s64}
use frost32_cpu.Outcome.{
  Error, Outcome, ok, exits, uncaught, undefined, unknown_symbol, binary_literal, deref,
}
use frost32_cpu.SymbolTable.{SymbolTable, find_or_insert}
use frost32_cpu.Assembler.{
  Assembler, M, ◌>>=◌, ◌>>◌, put, err, lift, push_num, pop_num, pop_str, is_pass_one,
}
use frost32_cpu.Assembler.Syntax.{
  NumExpr, dec_num, hex_num, bin_num, IdentName, tok_ident, instr_name, pseudo_instr_name, tok_reg,
  tok_pc_reg, tok_ireta_reg, tok_idsta_reg, Expr, expr_logical, op_logical, ExprLogical,
  expr_compare, op_compare, ExprCompare, expr_add_sub, expr_just_add, expr_just_sub, ExprAddSub,
  expr_mul_div_mod_etc, op_mul_div_mod, op_bitwise, ExprMulDivModEtc, expr_unary, num_expr,
  ident_name, curr_pc, paren, ExprUnary, expr_bit_invert, expr_negate, expr_log_not,
}
use frost32_cpu.Assembler.Operators.{
  push_checked, is_true, divide, remainder, shift_left, shift_right_logical, shift_right_arithmetic,
  apply_logical, apply_compare, apply_mul_div_etc, from_bool,
}
use frost32_cpu.Assembler.Tokens.{
  read_hex, skip_two, visit_instr_name, visit_pseudo_instr_name, visit_ident_name, visit_num_expr,
  instr_names, pseudo_instr_names,
}
use frost32_cpu.Assembler.Expr.{
  visit_curr_pc, push_symbol, visit_symbol, visit_expr, visit_expr_logical, visit_expr_compare,
  visit_expr_add_sub, visit_expr_mul_div_mod_etc, visit_expr_unary,
}
use frost32_cpu.Assembler.Visit.{visit_value}
use frost32_cpu.Assembler.Formats.{
  unseen, seen, Blind, bind-Blind, lift_then-Blind, if-Blind, err-Blind, undefined_behaviour-Blind,
  get_then-Blind, push_num-Blind, push_str-Blind, pop_num-Blind, pop_str-Blind, push_tok_if-Blind,
}

ruleset branch_rules = (if-Blind, err-Blind, undefined_behaviour-Blind, push_num-Blind)

push_checked-Blind : (n : ℤ) → Blind (push_checked n)
push_checked-Blind n = if-Blind (fits_s64 n) _ _ (push_num-Blind n) undefined_behaviour-Blind

apply_logical-Blind : (op : String) (a b : ℤ) → Blind (apply_logical op a b)
unfolding apply_logical
apply_logical-Blind op a b = search branch_rules depth 9

apply_compare-Blind : (op : String) (a b : ℤ) → Blind (apply_compare op a b)
unfolding apply_compare
apply_compare-Blind op a b = search branch_rules depth 15

divide-Blind : (a b : ℤ) → Blind (divide a b)
unfolding divide
divide-Blind a b = elim (Bool-cases (is_true b)) [
  | inl e ↦ record { same = λ s. rw e ((push_checked-Blind (quot a b)).same s) }
  | inr e ↦ record {
    same = λ s. elim (Bool-cases (is_pass_one s)) [
      | inl p ↦ rw (e, p) refl
      | inr p ↦ rw (e, p) ((push_num-Blind (pos 0)).same s)
    ];
  }
]

remainder-Blind : (a b : ℤ) → Blind (remainder a b)
unfolding remainder
remainder-Blind a b = search branch_rules

shift_left-Blind : (a b : ℤ) → Blind (shift_left a b)
unfolding shift_left
shift_left-Blind a b = search branch_rules

shift_right_logical-Blind : (a b : ℤ) → Blind (shift_right_logical a b)
unfolding shift_right_logical
shift_right_logical-Blind a b = search branch_rules

shift_right_arithmetic-Blind : (a b : ℤ) → Blind (shift_right_arithmetic a b)
unfolding shift_right_arithmetic
shift_right_arithmetic-Blind a b = search branch_rules

apply_mul_div_etc-Blind : (op : String) (a b : ℤ) → Blind (apply_mul_div_etc op a b)
unfolding apply_mul_div_etc
apply_mul_div_etc-Blind op a b =
    search
      (
        branch_rules, push_checked-Blind, divide-Blind, remainder-Blind, shift_left-Blind,
        shift_right_logical-Blind, shift_right_arithmetic-Blind,
      )
      depth 20

pub visit_ident_name-Blind : (i : IdentName) → Blind (visit_ident_name i)
unfolding visit_ident_name visit_instr_name visit_pseudo_instr_name
visit_ident_name-Blind (tok_ident name) = push_str-Blind name
visit_ident_name-Blind (instr_name name) = push_tok_if-Blind instr_names _ name
visit_ident_name-Blind (pseudo_instr_name name) = push_tok_if-Blind pseudo_instr_names _ name
visit_ident_name-Blind (tok_reg name) = push_str-Blind name
visit_ident_name-Blind (tok_pc_reg name) = push_str-Blind name
visit_ident_name-Blind (tok_ireta_reg name) = push_str-Blind name
visit_ident_name-Blind (tok_idsta_reg name) = push_str-Blind name

read-Blind :
    (e : Error) (r : Option ℕ)
    → Blind (elim r [ none ↦ err {A = Unit {0}} e | some temp ↦ push_num (to_s64 temp) ])
read-Blind e none = err-Blind e
read-Blind e (some temp) = push_num-Blind (to_s64 temp)

visit_num_expr-Blind : (e : NumExpr) → Blind (visit_num_expr e)
unfolding visit_num_expr
visit_num_expr-Blind (dec_num str) = push_num-Blind _
visit_num_expr-Blind (hex_num str) = read-Blind _ (read_hex 64 (skip_two str) 0)
visit_num_expr-Blind (bin_num str) = err-Blind binary_literal

visit_curr_pc-Blind : Blind visit_curr_pc
unfolding visit_curr_pc
visit_curr_pc-Blind =
    get_then-Blind (λ s. push_num (to_s64 s.pc.curr))
      (λ s. (push_num-Blind (to_s64 s.pc.curr)).same s)

-- What follows the search of a symbol.
abbrev symbol_value : String → Option ℕ → SymbolTable → M (Unit {0})
symbol_value name found t = lift (deref found) >>= λ sym.
    lift (deref (get_elem? t.data_pool sym)) >>= λ symbol.
    if symbol.found_as_label then push_num (to_s64 symbol.addr) else err (unknown_symbol name)

symbol_value-Blind :
    (name : String) (found : Option ℕ) (t : SymbolTable) → Blind (symbol_value name found t)
symbol_value-Blind name found t = search (branch_rules, lift_then-Blind)

symbol_found :
    (name : String) (r : Outcome (SymbolTable × Option ℕ)) (s : Assembler)
    → let k : Assembler → (SymbolTable × Option ℕ) → M (Unit {0}) =
        λ u (t, found). put (record u { sym_tbl = t }) >> symbol_value name found t in
      seen ((lift r >>= k s) s) ≡ seen ((lift r >>= k (unseen s)) (unseen s))
symbol_found name (ok (t, found)) s =
    (symbol_value-Blind name found t).same (record s { sym_tbl = t })
symbol_found name (exits e) s = refl
symbol_found name uncaught s = refl
symbol_found name undefined s = refl

push_symbol-Blind : Blind push_symbol
unfolding push_symbol
push_symbol-Blind = bind-Blind pop_str _ pop_str-Blind (λ name.
    get_then-Blind
      (λ s. lift (find_or_insert s.sym_tbl s.curr_scope_node name) >>= λ (t, found).
        put (record s { sym_tbl = t }) >> symbol_value name found t)
      (λ s. symbol_found name (find_or_insert s.sym_tbl s.curr_scope_node name) s))

visit_symbol-Blind : (i : IdentName) → Blind (visit_symbol i)
unfolding visit_symbol
visit_symbol-Blind i = bind-Blind _ _ (visit_ident_name-Blind i) (λ _.
    get_then-Blind (λ s. if is_pass_one s then push_symbol else pop_str >>= λ _. push_num (pos 0))
      (λ s.
        (if-Blind (is_pass_one s) push_symbol (pop_str >>= λ _. push_num (pos 0)) push_symbol-Blind
            (bind-Blind pop_str _ pop_str-Blind (λ _. push_num-Blind (pos 0)))).same
          s))

-- Two values, one after the other, and what is done with them.
both-Blind :
    (m n : M (Unit {0})) (f : ℤ → ℤ → M (Unit {0}))
    → Blind m
    → Blind n
    → ((a b : ℤ) → Blind (f a b))
    → Blind (m >> (pop_num >>= λ a. n >> (pop_num >>= λ b. f a b)))
both-Blind m n f h g k = bind-Blind m _ h (λ _.
    bind-Blind pop_num _ pop_num-Blind
      (λ a. bind-Blind n _ g (λ _. bind-Blind pop_num _ pop_num-Blind (λ b. k a b))))

one-Blind :
    (m : M (Unit {0})) (f : ℤ → M (Unit {0}))
    → Blind m
    → ((a : ℤ) → Blind (f a))
    → Blind (m >> (pop_num >>= f))
one-Blind m f h k = bind-Blind m _ h (λ _. bind-Blind pop_num _ pop_num-Blind k)

mutual
  unfolding visit_expr

  pub visit_expr-Blind : (e : Expr) → Blind (visit_expr e)
  visit_expr-Blind (expr_logical e) = visit_expr_logical-Blind e
  visit_expr-Blind (op_logical e op f) =
      both-Blind _ _ (apply_logical op) (visit_expr-Blind e) (visit_expr_logical-Blind f)
        (apply_logical-Blind op)

  visit_expr_logical-Blind : (e : ExprLogical) → Blind (visit_expr_logical e)
  visit_expr_logical-Blind (expr_compare e) = visit_expr_compare-Blind e
  visit_expr_logical-Blind (op_compare e op f) =
      both-Blind _ _ (apply_compare op) (visit_expr_logical-Blind e) (visit_expr_compare-Blind f)
        (apply_compare-Blind op)

  visit_expr_compare-Blind : (e : ExprCompare) → Blind (visit_expr_compare e)
  visit_expr_compare-Blind (expr_add_sub e) = visit_expr_add_sub-Blind e
  visit_expr_compare-Blind (expr_just_add e f) =
      both-Blind _ _ (λ a b. push_checked (a +ℤ b)) (visit_expr_add_sub-Blind e)
        (visit_expr_compare-Blind f) (λ a b. push_checked-Blind (a +ℤ b))
  visit_expr_compare-Blind (expr_just_sub e f) =
      both-Blind _ _ (λ a b. push_checked (a -ℤ b)) (visit_expr_add_sub-Blind e)
        (visit_expr_compare-Blind f) (λ a b. push_checked-Blind (a -ℤ b))

  visit_expr_add_sub-Blind : (e : ExprAddSub) → Blind (visit_expr_add_sub e)
  visit_expr_add_sub-Blind (expr_mul_div_mod_etc e) = visit_expr_mul_div_mod_etc-Blind e
  visit_expr_add_sub-Blind (op_mul_div_mod e op f) =
      both-Blind _ _ (apply_mul_div_etc op) (visit_expr_add_sub-Blind e)
        (visit_expr_mul_div_mod_etc-Blind f) (apply_mul_div_etc-Blind op)
  visit_expr_add_sub-Blind (op_bitwise e op f) =
      both-Blind _ _ (apply_mul_div_etc op) (visit_expr_add_sub-Blind e)
        (visit_expr_mul_div_mod_etc-Blind f) (apply_mul_div_etc-Blind op)

  visit_expr_mul_div_mod_etc-Blind : (e : ExprMulDivModEtc) → Blind (visit_expr_mul_div_mod_etc e)
  visit_expr_mul_div_mod_etc-Blind (expr_unary e) = visit_expr_unary-Blind e
  visit_expr_mul_div_mod_etc-Blind (num_expr e) = visit_num_expr-Blind e
  visit_expr_mul_div_mod_etc-Blind (ident_name name) = visit_symbol-Blind name
  visit_expr_mul_div_mod_etc-Blind curr_pc = visit_curr_pc-Blind
  visit_expr_mul_div_mod_etc-Blind (paren e) = visit_expr-Blind e

  visit_expr_unary-Blind : (e : ExprUnary) → Blind (visit_expr_unary e)
  visit_expr_unary-Blind (expr_bit_invert e) =
      one-Blind _ _ (visit_expr-Blind e) (λ n. push_num-Blind (bit_invert n))
  visit_expr_unary-Blind (expr_negate e) =
      one-Blind _ _ (visit_expr-Blind e) (λ n. push_checked-Blind (negate n))
  visit_expr_unary-Blind (expr_log_not e) =
      one-Blind _ _ (visit_expr-Blind e) (λ n. push_num-Blind (from_bool (eqb_ℤ n (pos 0))))

pub visit_value-Blind : (e : Expr) → Blind (visit_value e)
visit_value-Blind e = bind-Blind (visit_expr e) _ (visit_expr-Blind e) (λ _. pop_num-Blind)
