-- ===== src/Assembler/Program/Total/Filled.antt =====
-- What the first pass of assembler_class.cpp adds to the tables of the scopes: the labels of a block,
-- to the scope of the block.
use mathlib.Core.Path.{subst}
use frost32_cpu.Prelude.{
  ℕ, ◌<◌, ◌≤◌, ◌≡◌, ◌≢◌, ◌⊎◌, ◌∙◌, ap, sym, List, [], ◌∷◌, ◌++◌, String, true, some, length, inl,
  inr, arith,
}
use frost32_cpu.Prelude.Text.{elem, elem-left, elem-right, lookup, str_eq_iff}
use frost32_cpu.SymbolTable.Names.{table_at}
use frost32_cpu.SymbolTable.Sees.{AllLabels, Widens, Widens-nodes, Widens-trans}
use frost32_cpu.Assembler.{Assembler}
use frost32_cpu.Assembler.Program.Total.Leaves.{SameTable}
use frost32_cpu.Assembler.Program.Total.Labels.{Defined}

-- Names may be added to the table of the scope of a state, and scopes; all other tables stay, and
-- symbols that are labels stay so.
pub record Filled (names : List String) (s t : Assembler) : Type 0 where
  pub elsewhere :
      (p : ℕ)
      → p < length s.sym_tbl.nodes
      → p ≢ s.curr_scope_node
      → table_at t.sym_tbl p ≡ table_at s.sym_tbl p
  pub named :
      (name : String) (k : ℕ)
      → lookup name (table_at t.sym_tbl s.curr_scope_node) ≡ some k
      → (elem name names ≡ true)
        ⊎ ((j : ℕ) × (lookup name (table_at s.sym_tbl s.curr_scope_node) ≡ some j))
  pub widens : Widens s.sym_tbl t.sym_tbl
  pub labelled : AllLabels s.sym_tbl.data_pool → AllLabels t.sym_tbl.data_pool

pub SameTable-Filled : (s t : Assembler) → SameTable s t → Filled [] s t
SameTable-Filled s t same = record {
  elsewhere = λ p h z. ap (λ u. table_at u p) same.table;
  named = λ name k e.
      inr (k, ap (λ u. lookup name (table_at u s.curr_scope_node)) (sym same.table) ∙ e);
  widens = Widens-nodes s.sym_tbl t.sym_tbl (ap (λ u. u.nodes) same.table);
  labelled = λ h. subst (λ u. AllLabels u.data_pool) (sym same.table) h;
}

pub Defined-Filled : (name : String) (s t : Assembler) → Defined name s t → Filled (name ∷ []) s t
Defined-Filled name s t d = record {
  elsewhere = λ p h z. d.defines.adds.elsewhere p z;
  named = λ other k e. elim (d.defines.adds.added other k e) [
    | inl same ↦ inl (ground (arith, (str_eq_iff other name).1 same))
    | inr old ↦ inr (k, old)
  ];
  widens = d.defines.widens;
  labelled = d.defines.labels;
}

pub Filled-trans :
    (a b : List String) (s t u : Assembler)
    → t.curr_scope_node ≡ s.curr_scope_node
    → length s.sym_tbl.nodes ≤ length t.sym_tbl.nodes
    → Filled a s t
    → Filled b t u
    → Filled (a ++ b) s u
Filled-trans a b s t u scope longer p q = record {
  elsewhere =
      λ n h z. q.elsewhere n (omega (arith, h, longer)) (λ e. z (e ∙ scope)) ∙ p.elsewhere n h z;
  named = λ name k e.
      elim (q.named name k (ap (λ c. lookup name (table_at u.sym_tbl c)) scope ∙ e)) [
        | inl new ↦ inl (elem-right name a b new)
        | inr (j, old) ↦
            elim (p.named name j (ap (λ c. lookup name (table_at t.sym_tbl c)) (sym scope) ∙ old)) [
              | inl new ↦ inl (elem-left name a b new)
              | inr older ↦ inr older
            ]
      ];
  widens = Widens-trans s.sym_tbl t.sym_tbl u.sym_tbl p.widens q.widens;
  labelled = λ h. q.labelled (p.labelled h);
}
