-- ===== src/SymbolTable/Names.antt =====
-- Which names stand in the table of each scope of scoped_table_base_class.hpp, through the
-- operations that add scopes and names.
use frost32_cpu.Prelude.{
  ℕ, ◌<◌, ◌≡◌, ◌≢◌, ◌⊎◌, ◌∙◌, refl, ap, sym, ◌∷◌, [], String, Option, none, some, length, get_elem?,
  get_elem?-lt, lt-get_elem?, get_elem?-set_self, get_elem?-set_ne, Bool-cases, inl, inr, arith,
}
use frost32_cpu.Prelude.Text.{lookup, str_eq, str_eq_iff}
use frost32_cpu.SymbolTable.{SymbolTable, Symbol, Node, IdentTable, insert_ident}
use frost32_cpu.SymbolTable.Insert.{inserted}
use frost32_cpu.SymbolTable.Blocks.{entered, entered-same, entered-new}

abbrev pub names_of : Option Node → IdentTable
names_of none = []
names_of (some node) = node.table

-- The names of a scope, in a table.
abbrev pub table_at : SymbolTable → ℕ → IdentTable
table_at t p = names_of (get_elem? t.nodes p)

lookup-insert_ident_names :
    (m : IdentTable) (name other : String) (p i : ℕ)
    → lookup other (insert_ident m name p) ≡ some i
    → (other ≡ name) ⊎ (lookup other m ≡ some i)
unfolding insert_ident
lookup-insert_ident_names [] name other p i e = elim (Bool-cases (str_eq other name)) [
  | inl same ↦ inl ((str_eq_iff other name).0 same)
  | inr different ↦ inr (ground (arith, different, e))
]
lookup-insert_ident_names ((n, q) ∷ m) name other p i e = elim (Bool-cases (str_eq name n)) [
  | inl same ↦ elim (Bool-cases (str_eq other n)) [
    | inl o ↦ inl ((str_eq_iff other n).0 o ∙ sym ((str_eq_iff name n).0 same))
    | inr o ↦ inr (ground (arith, same, o, e))
  ]
  | inr different ↦ elim (Bool-cases (str_eq other n)) [
    | inl o ↦ inr (ground (arith, different, o, e))
    | inr o ↦ elim (lookup-insert_ident_names m name other p i (ground (arith, different, o, e))) [
      | inl x ↦ inl x
      | inr x ↦ inr (ground (arith, o, x))
    ]
  ]
]

-- At most a name is added to the table of a scope, and the other tables stay.
pub record AddsName (curr : ℕ) (name : String) (t u : SymbolTable) : Type 0 where
  pub elsewhere : (p : ℕ) → p ≢ curr → table_at u p ≡ table_at t p
  pub added :
      (other : String) (i : ℕ)
      → lookup other (table_at u curr) ≡ some i
      → (other ≡ name) ⊎ (lookup other (table_at t curr) ≡ some i)

pub AddsName-same : (curr : ℕ) (name : String) (t : SymbolTable) → AddsName curr name t t
AddsName-same curr name t = record { elsewhere = λ p ne. refl; added = λ other i e. inr e }

pub inserted-AddsName :
    (t : SymbolTable) (curr : ℕ) (node : Node) (symbol : Symbol)
    → get_elem? t.nodes curr ≡ some node
    → AddsName curr symbol.name t (inserted t curr node symbol)
inserted-AddsName t curr node symbol there = record {
  elsewhere = λ p ne. ap names_of (get_elem?-set_ne t.nodes curr p _ (λ e. ne (sym e)));
  added = λ other i e.
      let h = lt-get_elem? t.nodes curr node there in
      let new = ap names_of (get_elem?-set_self t.nodes curr _ h) in
      let old = ap (λ n. lookup other (names_of n)) there in
      elim (lookup-insert_ident_names node.table symbol.name other (length t.data_pool) i
        (sym (ap (lookup other) new) ∙ e)) [ inl x ↦ inl x | inr x ↦ inr (old ∙ x) ];
}

-- A new scope has no names, and all other tables stay.
pub entered-tables :
    (t : SymbolTable) (curr num : ℕ) (node : Node)
    → get_elem? t.nodes curr ≡ some node
    → ((p : ℕ) → p < length t.nodes → table_at (entered t curr node num) p ≡ table_at t p)
      × (table_at (entered t curr node num) (length t.nodes) ≡ [])
entered-tables t curr num node there = (
  (λ p h.
      let (n, e) = get_elem?-lt t.nodes p h in
      let (m, (f, same, _)) = entered-same t curr node num there p n e in
      ap names_of f ∙ same ∙ sym (ap names_of e)),
  ap names_of (entered-new t curr node num there),
)
