-- ===== src/Tests/Scopes.antt =====
-- The scopes of a table and the symbols that are put into it, at a concrete table.
use mathlib.Core.List.{Memᴰ}
use mathlib.Core.List.Memᴰ.{head, tail}
use mathlib.Core.Path.{subst}
use mathlib.Core.Option.{some-injective}
use frost32_cpu.Prelude.{
  ℕ, zero, suc, sym, ap, ◌-◌, ◌<◌, ◌≤◌, ◌≡◌, refl, [], ◌∷◌, String, List, some, get_elem?, length,
  arith, length,
}
use frost32_cpu.Prelude.Text.{lookup}
use frost32_cpu.Prelude.Int.{pos}
use frost32_cpu.Outcome.{ok}
use frost32_cpu.SymbolTable.{
  SymbolTable, Node, symbol_table, find_or_insert, get_all_children_tables,
}
use frost32_cpu.SymbolTable.Below.{Below, IsDownward, get_all_children_tables-Below}
use frost32_cpu.SymbolTable.Shape.{IsWell}
use frost32_cpu.SymbolTable.Shape.Steps.{find_or_insert-Keeps, Keeps}

-- The table with a scope in the outermost one.
abbrev pub with_scope : SymbolTable
with_scope = record symbol_table {
  nodes =
      record { table = []; parent = 0; children = 1 ∷ [] }
      ∷ record { table = []; parent = 0; children = 2 ∷ [] }
      ∷ record { table = []; parent = 1; children = [] }
      ∷ [];
  scope_num = pos 1;
}

pub with_scope-IsWell : IsWell with_scope
with_scope-IsWell = record {
  is_tree = λ p node e. first_parents p node e;
  pooled = λ p node name i e f. no_symbols p node name i e f;
  counted = (1, refl);
}
  where
    first_parents :
        (p : ℕ) (node : Node) → get_elem? with_scope.nodes p ≡ some node → node.parent ≤ p - 1
    first_parents zero node e = ground arith
    first_parents (suc zero) node e = ground arith
    first_parents (suc (suc zero)) node e = ground arith
    first_parents (suc (suc (suc p))) node e = cc

    no_symbols :
        (p : ℕ) (node : Node) (name : String) (i : ℕ)
        → get_elem? with_scope.nodes p ≡ some node
        → lookup name node.table ≡ some i
        → i < 0
    no_symbols zero node name i e f = ground (arith, e, f)
    no_symbols (suc zero) node name i e f = ground (arith, e, f)
    no_symbols (suc (suc zero)) node name i e f = ground (arith, e, f)
    no_symbols (suc (suc (suc p))) node name i e f = cc

find_or_insert-Keeps_example :
    (u : SymbolTable) × (i : ℕ) × ((find_or_insert with_scope 2 "a" ≡ ok (u, some i))
      × Keeps with_scope u
      × (i < length u.data_pool))
find_or_insert-Keeps_example =
    find_or_insert-Keeps with_scope 2 "a" with_scope-IsWell (omega arith)
      (λ z. absurd (omega (arith, z)))

one_child :
    (p d : ℕ) (node : Node) (c : ℕ)
    → d ∷ [] ≡ node.children
    → Memᴰ c node.children
    → p < d
    → d < 3
    → (p < c) × (c < 3)
one_child p d node c e m below inside = elim (subst (Memᴰ c) (sym e) m) [
  | head same ↦ (omega (arith, same, below), omega (arith, same, inside))
  | tail n ↦ elim n [ ]
]

with_scope-IsDownward : IsDownward with_scope
with_scope-IsDownward zero node c e m =
    one_child 0 1 node c (ap (λ (n : Node). n.children) (some-injective _ _ e)) m (omega arith)
      (omega arith)
with_scope-IsDownward (suc zero) node c e m =
    one_child 1 2 node c (ap (λ (n : Node). n.children) (some-injective _ _ e)) m (omega arith)
      (omega arith)
with_scope-IsDownward (suc (suc zero)) node c e m =
    elim (subst (Memᴰ c) (sym (ap (λ (n : Node). n.children) (some-injective _ _ e))) m) [ ]
with_scope-IsDownward (suc (suc (suc p))) node c e m = cc

get_all_children_tables-Below_example :
    (r : List ℕ) × ((get_all_children_tables with_scope 0 ≡ ok r)
      × ((q : ℕ) → (Memᴰ q r → Below with_scope 0 q) × (Below with_scope 0 q → Memᴰ q r)))
get_all_children_tables-Below_example =
    get_all_children_tables-Below with_scope 0 with_scope-IsDownward (omega arith)
