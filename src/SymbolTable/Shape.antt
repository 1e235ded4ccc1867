-- ===== src/SymbolTable/Shape.antt =====
-- The scopes of scoped_table_base_class.hpp without the symbols that they hold, and the invariant
-- of the table of symbols: `find_or_insert` and a label keep both.
pub mod Steps
use frost32_cpu.Prelude.{
  ℕ, zero, suc, ◌+◌, ◌<◌, ◌≡◌, ◌⊎◌, ◌∙◌, refl, ap, sym, List, [], ◌∷◌, ◌++◌, map, String, some,
  length, get_elem?, set, get_elem?-set_cases, length-append, Bool-cases, arith, inl, inr,
}
use frost32_cpu.Prelude.Int.{pos}
use frost32_cpu.Prelude.Text.{lookup, str_eq}
use frost32_cpu.SymbolTable.{SymbolTable, Symbol, Node, IdentTable, insert_ident}
use frost32_cpu.SymbolTable.Scopes.{IsTree, Visible, here, outer}
use frost32_cpu.SymbolTable.Insert.{inserted, inserted-IsTree}
use frost32_cpu.SymbolTable.Labels.{IsPooled}

pub record Scope : Type 0 where
  pub parent : ℕ
  pub children : List ℕ

abbrev pub scope_of : Node → Scope
scope_of node = record { parent = node.parent; children = node.children }

abbrev pub scopes : SymbolTable → List Scope
scopes t = map scope_of t.nodes

module _ {A B : Type 0} (f : A → B) where
  pub get_elem?-map :
      (xs : List A) (i : ℕ) (x : A) → get_elem? xs i ≡ some x → get_elem? (map f xs) i ≡ some (f x)
  get_elem?-map [] i x e = cc
  get_elem?-map (y ∷ xs) zero x e = cc
  get_elem?-map (y ∷ xs) (suc i) x e = get_elem?-map xs i x e

  pub length-map : (xs : List A) → length (map f xs) ≡ length xs
  length-map [] = refl
  length-map (x ∷ xs) = ap suc (length-map xs)

  pub map-set : (xs : List A) (i : ℕ) (v : A) → map f (set xs i v) ≡ set (map f xs) i (f v)
  map-set [] i v = refl
  map-set (x ∷ xs) zero v = refl
  map-set (x ∷ xs) (suc i) v = ap (λ l. f x ∷ l) (map-set xs i v)

set-same : {A : Type 0} (xs : List A) (i : ℕ) (v : A) → get_elem? xs i ≡ some v → set xs i v ≡ xs
set-same [] i v e = refl
set-same (x ∷ xs) zero v e = cc
set-same (x ∷ xs) (suc i) v e = ap (λ l. x ∷ l) (set-same xs i v e)

-- Each parent comes before its children, each pointer of a scope is in the pool, and the number
-- that the next scope is counted by does not overflow.
pub record IsWell (t : SymbolTable) : Type 0 where
  pub is_tree : IsTree t
  pub pooled :
      (p : ℕ) (node : Node) (name : String) (i : ℕ)
      → get_elem? t.nodes p ≡ some node
      → lookup name node.table ≡ some i
      → i < length t.data_pool
  pub counted : (num : ℕ) × (t.scope_num ≡ pos num)

in_pool :
    (t : SymbolTable) (w : IsWell t) (name : String) (i p : ℕ)
    → Visible t name i p
    → i < length t.data_pool
in_pool t w name i p (here _ node h e f) = w.pooled p node name i e f
in_pool t w name i p (outer _ node h e f d) = in_pool t w name i node.parent d

pub IsWell-IsPooled : (t : SymbolTable) → IsWell t → (name : String) (p : ℕ) → IsPooled t p name
IsWell-IsPooled t w name p i d = in_pool t w name i p d

lookup-insert_ident_cases :
    (m : IdentTable) (name other : String) (p i : ℕ)
    → lookup other (insert_ident m name p) ≡ some i
    → (i ≡ p) ⊎ (lookup other m ≡ some i)
unfolding insert_ident
lookup-insert_ident_cases [] name other p i e = elim (Bool-cases (str_eq other name)) [
  | inl same ↦ inl (ground (arith, same, e))
  | inr different ↦ inl (ground (arith, different, e))
]
lookup-insert_ident_cases ((n, q) ∷ m) name other p i e = elim (Bool-cases (str_eq name n)) [
  | inl same ↦ elim (Bool-cases (str_eq other n)) [
    | inl o ↦ inl (ground (arith, same, o, e))
    | inr o ↦ inr (ground (arith, same, o, e))
  ]
  | inr different ↦ elim (Bool-cases (str_eq other n)) [
    | inl o ↦ inr (ground (arith, different, o, e))
    | inr o ↦ elim (lookup-insert_ident_cases m name other p i (ground (arith, different, o, e))) [
      | inl x ↦ inl x
      | inr x ↦ inr (ground (arith, o, x))
    ]
  ]
]

module _ (t : SymbolTable) (curr : ℕ) (node : Node) (symbol : Symbol)
    (there : get_elem? t.nodes curr ≡ some node) where
  pub inserted-IsWell : IsWell t → IsWell (inserted t curr node symbol)
  inserted-IsWell w = record {
    is_tree = inserted-IsTree t curr node symbol w.is_tree there;
    pooled = λ p other name i e f.
        let grown : length (t.data_pool ++ symbol ∷ []) ≡ length t.data_pool + 1 =
          length-append t.data_pool (symbol ∷ []) in
        elim (get_elem?-set_cases t.nodes curr _ p other e) [
          | inr old ↦ omega (arith, grown, w.pooled p other name i old f)
          | inl (same, n) ↦
              elim (lookup-insert_ident_cases node.table symbol.name name (length t.data_pool) i
                (sym (ap (λ n. lookup name n.table) n) ∙ f)) [
                  | inl new ↦ omega (arith, grown, new)
                  | inr old ↦ omega (arith, grown, w.pooled curr node name i there old)
                ]
        ];
    counted = w.counted;
  }

  pub inserted-scopes : scopes (inserted t curr node symbol) ≡ scopes t
  inserted-scopes =
      map-set scope_of t.nodes curr _
      ∙ set-same (scopes t) curr (scope_of node) (get_elem?-map scope_of t.nodes curr node there)
