-- ===== src/Assembler/Expr/Value.antt =====
-- The value of an expression, without stacks: what the visitors of expressions in
-- assembler_class.cpp are to compute.
use Prim.Native.Nat.{bit_and, bit_or, bit_xor}
use frost32_cpu.Prelude.{
  ℕ, ◌*◌, ◌/◌, ◌^◌, String, Option, none, some, not, ◌&&◌, ◌||◌, ltb, if◌then◌else◌, get_elem?,
  ◌==◌,
}
use frost32_cpu.Prelude.Int.{
  ℤ, pos, ◌+ℤ◌, ◌-ℤ◌, ◌*ℤ◌, ltb_ℤ, eqb_ℤ, is_neg, quot, rem, shr_ℤ, fits_s64, to_u64, to_s64, abs,
  negate, bit_invert,
}
use frost32_cpu.Prelude.Text.{str_eq, elem}
use frost32_cpu.Outcome.{
  Outcome, ok, exits, undefined, eek, divide_by_zero, unknown_symbol, binary_literal, deref, bind,
}
use frost32_cpu.SymbolTable.{SymbolTable, find}
use frost32_cpu.Assembler.Syntax.{
  NumExpr, dec_num, hex_num, bin_num, IdentName, tok_ident, instr_name, pseudo_instr_name, tok_reg,
  tok_pc_reg, tok_ireta_reg, tok_idsta_reg, Expr, expr_logical, op_logical, ExprLogical,
  expr_compare, op_compare, ExprCompare, expr_add_sub, expr_just_add, expr_just_sub, ExprAddSub,
  expr_mul_div_mod_etc, op_mul_div_mod, op_bitwise, ExprMulDivModEtc, expr_unary, num_expr,
  ident_name, curr_pc, paren, ExprUnary, expr_bit_invert, expr_negate, expr_log_not,
}
use frost32_cpu.Assembler.Operators.{from_bool, is_true, is_shift}
use frost32_cpu.Assembler.Tokens.{
  instr_names, pseudo_instr_names, read_decimal, clamp_s64, read_hex, skip_two,
}

-- What an expression depends on.
pub record Env : Type 0 where
  pub pass : ℕ
  pub pc : ℕ
  pub sym_tbl : SymbolTable
  pub curr_scope_node : ℕ

abbrev pub checked : ℤ → Outcome ℤ
checked n = if fits_s64 n then ok n else undefined

abbrev pub logical_value : String → ℤ → ℤ → Outcome ℤ
logical_value op a b =
    if str_eq op "&&"
    then ok (from_bool (is_true a && is_true b))
    else if str_eq op "||"
    then ok (from_bool (is_true a || is_true b))
    else exits (eek "visitExpr():  Eek!")

abbrev pub compare_value : String → ℤ → ℤ → Outcome ℤ
compare_value op a b =
    if str_eq op "=="
    then ok (from_bool (eqb_ℤ a b))
    else if str_eq op "!="
    then ok (from_bool (not (eqb_ℤ a b)))
    else if str_eq op "<"
    then ok (from_bool (ltb_ℤ a b))
    else if str_eq op ">"
    then ok (from_bool (ltb_ℤ b a))
    else if str_eq op "<="
    then ok (from_bool (not (ltb_ℤ b a)))
    else if str_eq op ">="
    then ok (from_bool (not (ltb_ℤ a b)))
    else exits (eek "visitExprLogical():  Eek!")

abbrev pub quotient : ℕ → ℤ → ℤ → Outcome ℤ
quotient pass a b =
    if is_true b
    then checked (quot a b)
    else if not (pass == 0)
    then exits divide_by_zero
    else ok (pos 0)

abbrev pub arithmetic_value : ℕ → String → ℤ → ℤ → Outcome ℤ
arithmetic_value pass op a b =
    if str_eq op "*"
    then checked (a *ℤ b)
    else if str_eq op "/"
    then quotient pass a b
    else if str_eq op "%"
    then (if is_true b && fits_s64 (quot a b) then ok (rem a b) else undefined)
    else if str_eq op "&"
    then ok (to_s64 (bit_and (to_u64 a) (to_u64 b)))
    else if str_eq op "|"
    then ok (to_s64 (bit_or (to_u64 a) (to_u64 b)))
    else if str_eq op "^"
    then ok (to_s64 (bit_xor (to_u64 a) (to_u64 b)))
    else if str_eq op "<<"
    then (if is_shift b && (not (is_neg a) && ltb (abs a * 2 ^ abs b) (2 ^ 64))
        then ok (to_s64 (abs a * 2 ^ abs b))
        else undefined)
    else if str_eq op ">>"
    then (if ltb (to_u64 b) 64 then ok (to_s64 (to_u64 a / 2 ^ to_u64 b)) else undefined)
    else if str_eq op ">>>"
    then (if is_shift b then ok (shr_ℤ a (abs b)) else undefined)
    else exits (eek "visitExprAddSub():  Eek!")

abbrev pub num_value : NumExpr → Outcome ℤ
num_value (dec_num str) = ok (clamp_s64 (read_decimal str 0))
num_value (hex_num str) = elim (read_hex 64 (skip_two str) 0) [
  | none ↦ exits (eek "visitNumExpr():  Eek!")
  | some w ↦ ok (to_s64 w)
]
num_value (bin_num str) = exits binary_literal

abbrev pub ident_text : IdentName → Outcome String
ident_text (tok_ident name) = ok name
ident_text (instr_name name) =
    if elem name instr_names then ok name else exits (eek "visitInstrName():  Eek!")
ident_text (pseudo_instr_name name) =
    if elem name pseudo_instr_names then ok name else exits (eek "visitPseudoInstrName():  Eek!")
ident_text (tok_reg name) = ok name
ident_text (tok_pc_reg name) = ok name
ident_text (tok_ireta_reg name) = ok name
ident_text (tok_idsta_reg name) = ok name

-- The address of a symbol that is found, if it is a label.
abbrev pub label_of : Env → String → Option ℕ → Outcome ℤ
label_of env name none = exits (unknown_symbol name)
label_of env name (some sym) =
    bind (deref (get_elem? env.sym_tbl.data_pool sym)) λ symbol.
      if symbol.found_as_label then ok (to_s64 symbol.addr) else exits (unknown_symbol name)

-- A name on the second pass: the address of the label that is visible.
abbrev pub label_value : Env → String → Outcome ℤ
label_value env name = bind (find env.sym_tbl env.curr_scope_node name) (label_of env name)

abbrev pub symbol_value : Env → IdentName → Outcome ℤ
symbol_value env ident =
    bind (ident_text ident) λ name. if not (env.pass == 0) then label_value env name else ok (pos 0)

unfoldable mutual
  pub eval_expr : Env → Expr → Outcome ℤ
  eval_expr env (expr_logical e) = eval_expr_logical env e
  eval_expr env (op_logical e op f) =
      bind (eval_expr env e) λ a. bind (eval_expr_logical env f) λ b. logical_value op a b

  pub eval_expr_logical : Env → ExprLogical → Outcome ℤ
  eval_expr_logical env (expr_compare e) = eval_expr_compare env e
  eval_expr_logical env (op_compare e op f) =
      bind (eval_expr_logical env e) λ a. bind (eval_expr_compare env f) λ b. compare_value op a b

  pub eval_expr_compare : Env → ExprCompare → Outcome ℤ
  eval_expr_compare env (expr_add_sub e) = eval_expr_add_sub env e
  eval_expr_compare env (expr_just_add e f) =
      bind (eval_expr_add_sub env e) λ a. bind (eval_expr_compare env f) λ b. checked (a +ℤ b)
  eval_expr_compare env (expr_just_sub e f) =
      bind (eval_expr_add_sub env e) λ a. bind (eval_expr_compare env f) λ b. checked (a -ℤ b)

  pub eval_expr_add_sub : Env → ExprAddSub → Outcome ℤ
  eval_expr_add_sub env (expr_mul_div_mod_etc e) = eval_expr_mul_div_mod_etc env e
  eval_expr_add_sub env (op_mul_div_mod e op f) =
      bind (eval_expr_add_sub env e)
        λ a. bind (eval_expr_mul_div_mod_etc env f) λ b. arithmetic_value env.pass op a b
  eval_expr_add_sub env (op_bitwise e op f) =
      bind (eval_expr_add_sub env e)
        λ a. bind (eval_expr_mul_div_mod_etc env f) λ b. arithmetic_value env.pass op a b

  pub eval_expr_mul_div_mod_etc : Env → ExprMulDivModEtc → Outcome ℤ
  eval_expr_mul_div_mod_etc env (expr_unary e) = eval_expr_unary env e
  eval_expr_mul_div_mod_etc env (num_expr e) = num_value e
  eval_expr_mul_div_mod_etc env (ident_name name) = symbol_value env name
  eval_expr_mul_div_mod_etc env curr_pc = ok (to_s64 env.pc)
  eval_expr_mul_div_mod_etc env (paren e) = eval_expr env e

  pub eval_expr_unary : Env → ExprUnary → Outcome ℤ
  eval_expr_unary env (expr_bit_invert e) = bind (eval_expr env e) λ a. ok (bit_invert a)
  eval_expr_unary env (expr_negate e) = bind (eval_expr env e) λ a. checked (negate a)
  eval_expr_unary env (expr_log_not e) =
      bind (eval_expr env e) λ a. ok (from_bool (eqb_ℤ a (pos 0)))
