-- ===== src/SymbolTable/Insert.antt =====
-- `find_or_insert` of ident_table_classes.hpp on the tree of scopes.
use frost32_cpu.Prelude.{
  get_elem?-lt, lt-get_elem?, get_elem?-set_cases, ℕ, ◌<◌, ◌≡◌, ◌≢◌, ◌⊎◌, ◌∙◌, refl, ap, [], ◌∷◌,
  ◌++◌, String, none, some, Option-cases, length, length-set, get_elem?, set, get_elem?-set_self,
  arith, inl, inr, Bool-cases, false,
}
use frost32_cpu.Prelude.Text.{lookup, str_eq, str_eq_iff}
use frost32_cpu.Outcome.{ok}
use frost32_cpu.SymbolTable.{
  SymbolTable, Symbol, Node, IdentTable, insert_ident, insert_or_assign, find, find_or_insert,
}
use frost32_cpu.SymbolTable.Scopes.{IsTree, Visible, here, find_iff}

pub lookup-insert_ident :
    (m : IdentTable) (name : String) (p : ℕ) → lookup name (insert_ident m name p) ≡ some p
unfolding insert_ident
lookup-insert_ident [] name p = ground (arith, str_eq_iff name name)
lookup-insert_ident ((n, q) ∷ m) name p = elim (Bool-cases (str_eq name n)) [
  | inl e ↦ ground (arith, e)
  | inr e ↦ ground (arith, e, lookup-insert_ident m name p)
]

-- The table with one more symbol, in a scope.
abbrev pub inserted : SymbolTable → ℕ → Node → Symbol → SymbolTable
inserted t curr node symbol = record t {
  nodes =
      set t.nodes curr
        (record node { table = insert_ident node.table symbol.name (length t.data_pool) });
  data_pool = t.data_pool ++ symbol ∷ [];
}

pub insert_or_assign-inserted :
    (t : SymbolTable) (curr : ℕ) (node : Node) (symbol : Symbol)
    → get_elem? t.nodes curr ≡ some node
    → insert_or_assign t curr symbol ≡ ok (inserted t curr node symbol)
unfolding insert_or_assign
insert_or_assign-inserted t curr node symbol e = rw e refl

pub inserted-IsTree :
    (t : SymbolTable) (curr : ℕ) (node : Node) (symbol : Symbol)
    → IsTree t
    → get_elem? t.nodes curr ≡ some node
    → IsTree (inserted t curr node symbol)
inserted-IsTree t curr node symbol v e i other f =
    elim (get_elem?-set_cases t.nodes curr _ i other f) [
      | inl (p, q) ↦ omega (arith, v curr node e, p, ap (λ n. n.parent) q)
      | inr f' ↦ v i other f'
    ]

pub inserted-length :
    (t : SymbolTable) (curr : ℕ) (node : Node) (symbol : Symbol)
    → length (inserted t curr node symbol).nodes ≡ length t.nodes
inserted-length t curr node symbol = length-set t.nodes curr _

pub inserted-Visible :
    (t : SymbolTable) (curr : ℕ) (node : Node) (symbol : Symbol)
    → curr ≢ 0
    → get_elem? t.nodes curr ≡ some node
    → Visible (inserted t curr node symbol) symbol.name (length t.data_pool) curr
inserted-Visible t curr node symbol h e =
    here curr _ h (get_elem?-set_self t.nodes curr _ (lt-get_elem? t.nodes curr node e))
      (lookup-insert_ident node.table symbol.name (length t.data_pool))

-- The symbol that is made for a name which is not visible.
abbrev pub fresh : String → Symbol
fresh name = record { name = name; addr = 0; found_as_label = false }

module _ (t : SymbolTable) (curr : ℕ) (name : String) where
  pub find_or_insert-found :
      (s : ℕ) → find t curr name ≡ ok (some s) → find_or_insert t curr name ≡ ok (t, some s)
  unfolding find_or_insert
  find_or_insert-found s e = rw e refl

  pub find_or_insert-fresh :
      (t' : SymbolTable) (s : ℕ)
      → find t curr name ≡ ok none
      → insert_or_assign t curr (fresh name) ≡ ok t'
      → find t' curr name ≡ ok (some s)
      → find_or_insert t curr name ≡ ok (t', some s)
  unfolding find_or_insert
  find_or_insert-fresh t' s e i f = rw (e, i, f) refl

  -- In a scope below the root, `find_or_insert` ends with a symbol that is visible there, in a
  -- tree; it is one that was visible before, and nothing has changed, or it is a new symbol with
  -- the name, address 0 and no label, at the end of the pool.
  pub find_or_insert-Visible :
      IsTree t
      → curr < length t.nodes
      → curr ≢ 0
      → (t' : SymbolTable) × (s : ℕ) × ((find_or_insert t curr name ≡ ok (t', some s))
          × Visible t' name s curr
          × IsTree t'
          × ((t' ≡ t)
              ⊎ ((s ≡ length t.data_pool) × (t'.data_pool ≡ t.data_pool ++ fresh name ∷ []))))
  find_or_insert-Visible v h n =
      let (found, r) = (find_iff t name curr 0 v h).0 in
      elim (Option-cases found) [
        | inr (s, present) ↦
            let e = r ∙ ap (ok) present in
            (t, s, (find_or_insert-found s e, (find_iff t name curr s v h).1.0 e, v, inl refl))
        | inl absent ↦
            let (node, there) = get_elem?-lt t.nodes curr h in
            let t' = inserted t curr node (fresh name) in
            let s = length t.data_pool in
            let seen = inserted-Visible t curr node (fresh name) n there in
            let v' = inserted-IsTree t curr node (fresh name) v there in
            let again =
              (find_iff t' name curr s v'
                  (omega (arith, inserted-length t curr node (fresh name)))).1.1
                seen in
            (
              t',
              s,
              (
                find_or_insert-fresh t' s (r ∙ ap (ok) absent)
                    (insert_or_assign-inserted t curr node (fresh name) there) again,
                seen,
                v',
                inr (refl, refl),
              ),
            )
      ]
