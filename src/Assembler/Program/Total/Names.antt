-- ===== src/Assembler/Program/Total/Names.antt =====
-- A name in an expression of assembler_class.cpp, where it is a label of the program.
use frost32_cpu.Prelude.{◌≡◌, refl, List, String, true, ◌==◌, get_elem?-lt, Bool-cases, inl, inr}
use frost32_cpu.Prelude.Text.{elem}
use frost32_cpu.Prelude.Int.{pos, to_s64}
use frost32_cpu.Outcome.{ok}
use frost32_cpu.SymbolTable.Scopes.{find_iff}
use frost32_cpu.SymbolTable.Shape.{IsWell-IsPooled}
use frost32_cpu.Assembler.{Assembler, is_pass_one}
use frost32_cpu.Assembler.Syntax.{
  Expr, IdentName, expr_logical, expr_compare, expr_add_sub, expr_mul_div_mod_etc, ident_name,
}
use frost32_cpu.Assembler.Expr.Value.{eval_expr, ident_text}
use frost32_cpu.Assembler.Expr.Steps.{env_of}
use frost32_cpu.Assembler.Visit.Accepted.Tokens.{HasValue}
use frost32_cpu.Assembler.Program.Leaves.{IsReady}
use frost32_cpu.Assembler.Program.Total.Sound.{text_of, Knows, IsTotal}

-- An expression that is a name.
abbrev pub of_name : IdentName → Expr
of_name i = expr_logical (expr_compare (expr_add_sub (expr_mul_div_mod_etc (ident_name i))))

module _ (i : IdentName) (e : ident_text i ≡ ok (text_of i)) (names : List String)
    (m : elem (text_of i) names ≡ true) (s : Assembler) (r : IsReady s) where
  value_first : (s.pass == 0) ≡ true → eval_expr (env_of s) (of_name i) ≡ ok (pos 0)
  unfolding eval_expr
  value_first first = rw (e, first) refl

  value_second : Knows names s → is_pass_one s ≡ true → HasValue s (of_name i)
  unfolding eval_expr
  value_second k second =
      let t = s.sym_tbl in
      let curr = s.curr_scope_node in
      let name = text_of i in
      let (labels, sees) = k second in
      let (j, v) = sees name m in
      let found = (find_iff t name curr j r.well.is_tree r.in_range).1.1 v in
      let (symbol, there) = get_elem?-lt t.data_pool j (IsWell-IsPooled t r.well name curr j v) in
      let labelled = labels j symbol there in
      (to_s64 symbol.addr, rw (e, second, found, there, labelled) refl)

-- A name that may be used has a value: 0 on the first pass, and on the second the address of the
-- label.
pub of_name-IsTotal :
    (i : IdentName) (names : List String)
    → ident_text i ≡ ok (text_of i)
    → elem (text_of i) names ≡ true
    → IsTotal names (of_name i)
of_name-IsTotal i names e m s r k = elim (Bool-cases (s.pass == 0)) [
  | inl first ↦ (pos 0, value_first i e names m s r first)
  | inr second ↦ value_second i e names m s r k (rw second refl)
]
