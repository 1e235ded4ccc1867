-- ===== src/Assembler/Expr/Symbols.antt =====
-- The names and numbers in an expression of assembler_class.cpp: `visitIdentName`, `visitNumExpr`
-- and the symbols of `visitExprMulDivModEtc`.
use mathlib.Core.Path.{subst}
use frost32_cpu.Prelude.{
  ℕ, ◌<◌, ◌≡◌, ◌≢◌, ◌∙◌, refl, ap, sym, length, List, [], ◌∷◌, ◌++◌, String, Bool, true, false,
  Option, none, some, Option-cases, if◌then◌else◌, get_elem?, get_elem?-append_length, Bool-cases,
  inl, inr,
}
use frost32_cpu.Prelude.Int.{ℤ, pos, to_s64}
use frost32_cpu.Prelude.Text.{elem}
use frost32_cpu.Outcome.{Outcome, ok, exits, uncaught, undefined, bind, unknown_symbol, deref}
use frost32_cpu.SymbolTable.{Symbol, SymbolTable, find, find_or_insert}
use frost32_cpu.SymbolTable.Scopes.{IsTree, find_iff, Visible}
use frost32_cpu.SymbolTable.Insert.{fresh, find_or_insert-found, find_or_insert-Visible}
use frost32_cpu.Assembler.{
  lift, put, Assembler, M, ◌>>=◌, ◌>>◌, push_num, pop_str, err, is_pass_one,
}
use frost32_cpu.Assembler.Syntax.{
  NumExpr, dec_num, hex_num, bin_num, IdentName, tok_ident, instr_name, pseudo_instr_name, tok_reg,
  tok_pc_reg, tok_ireta_reg, tok_idsta_reg,
}
use frost32_cpu.Assembler.Tokens.{
  visit_ident_name, visit_num_expr, push_tok_if, instr_names, pseudo_instr_names, read_hex,
  skip_two,
}
use frost32_cpu.Assembler.Expr.{push_symbol, visit_symbol}
use frost32_cpu.Assembler.Expr.Value.{num_value, ident_text, label_of, label_value, symbol_value}
use frost32_cpu.Assembler.Expr.Steps.{env_of, pushed, Pushes}

-- A state with a text on its stack.
abbrev pub named : Assembler → String → Assembler
named s name = record s { str_stack = name ∷ s.str_stack }

pub visit_ident_name-named :
    (i : IdentName) (s : Assembler)
    → visit_ident_name i s ≡ bind (ident_text i) (λ name. ok (tt, named s name))
unfolding visit_ident_name
visit_ident_name-named (tok_ident name) s = refl
visit_ident_name-named (instr_name name) s = elim (Bool-cases (elem name instr_names)) [
  | inl e ↦ rw (push_tok_if, e) refl
  | inr e ↦ rw (push_tok_if, e) refl
]
visit_ident_name-named (pseudo_instr_name name) s =
    elim (Bool-cases (elem name pseudo_instr_names)) [
      | inl e ↦ rw (push_tok_if, e) refl
      | inr e ↦ rw (push_tok_if, e) refl
    ]
visit_ident_name-named (tok_reg name) s = refl
visit_ident_name-named (tok_pc_reg name) s = refl
visit_ident_name-named (tok_ireta_reg name) s = refl
visit_ident_name-named (tok_idsta_reg name) s = refl

pub visit_num_expr-Pushes : (e : NumExpr) → Pushes (visit_num_expr e) (λ env. num_value e)
unfolding visit_num_expr
visit_num_expr-Pushes (dec_num str) s t c z = refl
visit_num_expr-Pushes (hex_num str) s t c z = elim (Option-cases (read_hex 64 (skip_two str) 0)) [
  | inl e ↦ rw (visit_num_expr, num_value, e) refl
  | inr (w, e) ↦ rw (visit_num_expr, num_value, e) refl
]
visit_num_expr-Pushes (bin_num str) s t c z = refl

-- What `push_symbol` does with a symbol that it has found or made.
abbrev symbol_step : Assembler → String → SymbolTable × Option ℕ → Outcome (Unit {0} × Assembler)
symbol_step s name (t, found) = bind (deref found) λ i.
    bind (deref (get_elem? t.data_pool i)) λ symbol.
      if symbol.found_as_label
      then pushed (record s { sym_tbl = t }) (to_s64 symbol.addr)
      else exits (unknown_symbol name)

-- The rest of `push_symbol` after its search.
abbrev after_search : Assembler → String → SymbolTable × Option ℕ → M (Unit {0})
after_search s name (t, found) =
    put (record s { sym_tbl = t })
    >> (lift (deref found) >>= λ sym. lift (deref (get_elem? t.data_pool sym)) >>= λ symbol.
        if symbol.found_as_label then push_num (to_s64 symbol.addr) else err (unknown_symbol name))

after_search-step :
    (s : Assembler) (name : String) (t : SymbolTable) (i : ℕ)
    → after_search s name (t, some i) s ≡ symbol_step s name (t, some i)
unfolding push_num
after_search-step s name t i = elim (Option-cases (get_elem? t.data_pool i)) [
  | inl e ↦ rw e refl
  | inr (symbol, e) ↦ elim (Bool-cases symbol.found_as_label) [
    | inl f ↦ rw (e, f) refl
    | inr f ↦ rw (e, f) refl
  ]
]

push_symbol-step :
    (s : Assembler) (name : String) (t : SymbolTable) (i : ℕ)
    → find_or_insert s.sym_tbl s.curr_scope_node name ≡ ok (t, some i)
    → push_symbol (named s name) ≡ symbol_step s name (t, some i)
unfolding push_symbol
push_symbol-step s name t i e =
    ap (λ r. (lift r >>= after_search s name) s) e ∙ after_search-step s name t i

symbol_step-found :
    (s : Assembler) (name : String) (i : ℕ)
    → symbol_step s name (s.sym_tbl, some i) ≡ bind (label_of (env_of s) name (some i)) (pushed s)
symbol_step-found s name i = elim (Option-cases (get_elem? s.sym_tbl.data_pool i)) [
  | inl e ↦ rw e refl
  | inr (symbol, e) ↦ elim (Bool-cases symbol.found_as_label) [
    | inl f ↦ rw (e, f) refl
    | inr f ↦ rw (e, f) refl
  ]
]

symbol_step-fresh :
    (s : Assembler) (name : String) (t : SymbolTable) (pool : List Symbol) (i : ℕ)
    → i ≡ length pool
    → t.data_pool ≡ pool ++ fresh name ∷ []
    → symbol_step s name (t, some i) ≡ exits (unknown_symbol name)
symbol_step-fresh s name t pool i p q =
    let e =
      ap (λ l. get_elem? l i) q
      ∙ ap (get_elem? (pool ++ fresh name ∷ [])) p
      ∙ get_elem?-append_length pool (fresh name) in
    rw e refl

not_found :
    (t t' : SymbolTable) (curr : ℕ) (name : String) (i : ℕ)
    → t' ≡ t
    → find t curr name ≡ ok none
    → Visible t' name i curr
    → IsTree t
    → curr < length t.nodes
    → ⊥
not_found t t' curr name i same none_found seen v c =
    let found = (find_iff t name curr i v c).1.1 (subst (λ u. Visible u name i curr) same seen) in
    cc (none_found, found)

push_symbol-named :
    (s : Assembler) (name : String)
    → IsTree s.sym_tbl
    → s.curr_scope_node < length s.sym_tbl.nodes
    → s.curr_scope_node ≢ 0
    → push_symbol (named s name) ≡ bind (label_value (env_of s) name) (pushed s)
push_symbol-named s name v c z =
    let t = s.sym_tbl in
    let curr = s.curr_scope_node in
    let (found, r) = (find_iff t name curr 0 v c).0 in
    elim (Option-cases found) [
      | inr (i, present) ↦
          push_symbol-step s name t i (find_or_insert-found t curr name i (r ∙ ap (ok) present))
          ∙ symbol_step-found s name i
          ∙ sym
              (ap (λ q. bind (bind q (label_of (env_of s) name)) (pushed s)) (r ∙ ap (ok) present))
      | inl absent ↦
          let (t', i, (e, seen, v', how)) = find_or_insert-Visible t curr name v c z in
          push_symbol-step s name t' i e
          ∙ elim how [
            | inr (p, q) ↦ symbol_step-fresh s name t' t.data_pool i p q
            | inl same ↦ absurd (not_found t t' curr name i same (r ∙ ap (ok) absent) seen v c)
          ]
          ∙ sym (ap (λ q. bind (bind q (label_of (env_of s) name)) (pushed s)) (r ∙ ap (ok) absent))
    ]

-- What follows the name, on either pass.
after_name-named :
    (test : Bool) (s : Assembler) (name : String)
    → IsTree s.sym_tbl
    → s.curr_scope_node < length s.sym_tbl.nodes
    → s.curr_scope_node ≢ 0
    → (if test then push_symbol else pop_str >>= λ _. push_num (pos 0)) (named s name)
      ≡ bind (if test then label_value (env_of s) name else ok (pos 0)) (pushed s)
unfolding pop_str push_num
after_name-named true s name v c z = push_symbol-named s name v c z
after_name-named false s name v c z = refl

-- A name that is read, and what follows it.
name_after :
    (r : Outcome String) (m k : M (Unit {0})) (f : String → Outcome ℤ) (s : Assembler)
    → m s ≡ bind r (λ name. ok (tt, named s name))
    → ((name : String) → k (named s name) ≡ bind (f name) (pushed s))
    → (m >>= λ _. k) s ≡ bind (bind r f) (pushed s)
name_after (ok name) m k f s e h = rw (◌>>=◌, e) (h name)
name_after (exits x) m k f s e h = rw (◌>>=◌, e) refl
name_after uncaught m k f s e h = rw (◌>>=◌, e) refl
name_after undefined m k f s e h = rw (◌>>=◌, e) refl

-- A name on either pass.
pub visit_symbol-Pushes : (i : IdentName) → Pushes (visit_symbol i) (λ env. symbol_value env i)
unfolding visit_symbol
visit_symbol-Pushes i s v c z =
    name_after (ident_text i) (visit_ident_name i) _ _ s (visit_ident_name-named i s)
      (λ name. after_name-named (is_pass_one s) s name v c z)
