-- ===== src/Assembler/Program/Labels.antt =====
-- A label of the source, as `visitLabel` of assembler_class.cpp defines it, and its later use.
use frost32_cpu.Prelude.{
  ℕ, ◌<◌, ◌≡◌, ◌≢◌, ◌∙◌, refl, ap, String, true, Option, none, some, length, get_elem?,
  get_elem?-lt,
}
use frost32_cpu.Prelude.Int.{to_s64}
use frost32_cpu.Prelude.Text.{lookup}
use frost32_cpu.Outcome.{ok, bind}
use frost32_cpu.SymbolTable.{SymbolTable, Symbol, find}
use frost32_cpu.SymbolTable.Scopes.{IsTree, here}
use frost32_cpu.SymbolTable.Labels.{IsPooled, labelled, define_label-find}
use frost32_cpu.Assembler.{Assembler, is_pass_one}
use frost32_cpu.Assembler.Syntax.{IdentName}
use frost32_cpu.Assembler.Expr.{visit_symbol}
use frost32_cpu.Assembler.Expr.Value.{ident_text, symbol_value}
use frost32_cpu.Assembler.Expr.Steps.{env_of, pushed}
use frost32_cpu.Assembler.Expr.Symbols.{visit_symbol-Pushes}
use frost32_cpu.Assembler.Program.{check_duplicate, visit_label}
use frost32_cpu.Assembler.Program.Leaves.Labels.{visit_label-checked, blklev-node}

module _ (name : String) (s : Assembler) (second : is_pass_one s ≡ true) where
  pub check_duplicate-second :
      (found : Option ℕ)
      → ((j : ℕ) → found ≡ some j → j < length s.sym_tbl.data_pool)
      → check_duplicate name found s ≡ ok (tt, s)
  check_duplicate-second none h = refl
  check_duplicate-second (some j) h =
      let (symbol, e) = get_elem?-lt s.sym_tbl.data_pool j (h j refl) in rw (e, second) refl

  value_of :
      (i : IdentName) (defined : SymbolTable) (k addr : ℕ) (symbol : Symbol)
      → ident_text i ≡ ok name
      → find defined s.curr_scope_node name ≡ ok (some k)
      → get_elem? defined.data_pool k ≡ some (labelled symbol addr)
      → symbol_value (env_of (record s { sym_tbl = defined })) i ≡ ok (to_s64 addr)
  value_of i defined k addr symbol e f g = rw (e, second, f, g) refl

  -- On the second pass, in a scope below the root of a tree whose visible symbols are in the pool,
  -- a label with any name that has a text is accepted, and in the state right after it the name in
  -- an expression of that scope, or any other with the same text, stands for the address of the
  -- label.
  pub visit_label-visit_symbol :
      (i use_of : IdentName)
      → ident_text i ≡ ok name
      → ident_text use_of ≡ ok name
      → IsTree s.sym_tbl
      → s.curr_scope_node < length s.sym_tbl.nodes
      → s.curr_scope_node ≢ 0
      → IsPooled s.sym_tbl s.curr_scope_node name
      → (s' : Assembler) × ((visit_label i s ≡ ok (tt, s'))
          × (visit_symbol use_of s' ≡ pushed s' (to_s64 s.pc.curr)))
  visit_label-visit_symbol i use_of ei eu v c z pooled =
      let t = s.sym_tbl in
      let curr = s.curr_scope_node in
      let (node, there) = get_elem?-lt t.nodes curr c in
      let (made, defined, k, symbol, (e, d, v', inside, f, g)) =
        define_label-find t curr s.pc.curr name v c z pooled in
      let checked =
        check_duplicate-second (lookup name node.table)
          (λ j h. pooled j (here curr node z there h)) in
      let s' : Assembler = record s { sym_tbl = defined } in
      (
        s',
        (
          visit_label-checked i name s (lookup name node.table) made defined k ei
              (blklev-node t curr name node there) checked e d,
          visit_symbol-Pushes use_of s' v' inside z
              ∙ ap (λ r. bind r (pushed s')) (value_of use_of defined k s.pc.curr symbol eu f g),
        ),
      )
