-- ===== src/SymbolTable/Scopes.antt =====
-- The tree of scopes of scoped_table_base_class.hpp: its shape, and the loop of `find` through it.
use frost32_cpu.Prelude.{
  get_elem?-lt, ℕ, zero, suc, ◌-◌, ◌<◌, ◌≤◌, ◌≡◌, ◌≢◌, ◌↔◌, ◌∙◌, refl, sym, String, Option, none,
  some, Option-cases, length, get_elem?, arith, inl, inr,
}
use frost32_cpu.Prelude.Text.{lookup}
use frost32_cpu.Outcome.{undefined, ok}
use frost32_cpu.SymbolTable.{SymbolTable, Node, find_from, find}

-- The parent of a scope was made before it; the root is its own.
abbrev pub IsTree : SymbolTable → Type 0
IsTree t = (i : ℕ) (node : Node) → get_elem? t.nodes i ≡ some node → node.parent ≤ i - 1

-- A name that is visible in a scope, and its symbol: that of the innermost scope which has the
-- name, and the root has none.
pub data Visible (t : SymbolTable) (name : String) (s : ℕ) : ℕ → Type 0 where
  here :
      (p : ℕ) (node : Node)
      → p ≢ 0
      → get_elem? t.nodes p ≡ some node
      → lookup name node.table ≡ some s
      → Visible t name s p
  outer :
      (p : ℕ) (node : Node)
      → p ≢ 0
      → get_elem? t.nodes p ≡ some node
      → lookup name node.table ≡ none
      → Visible t name s node.parent
      → Visible t name s p

module _ (t : SymbolTable) (name : String) where
  pub find_from-spent : (p : ℕ) → find_from 0 t p name ≡ undefined
  unfolding find_from
  find_from-spent p = refl

  pub find_from-root : (fuel : ℕ) → find_from (suc fuel) t 0 name ≡ ok none
  unfolding find_from
  find_from-root fuel = refl

  pub find_from-here :
      (fuel p : ℕ) (node : Node) (s : ℕ)
      → p ≢ 0
      → get_elem? t.nodes p ≡ some node
      → lookup name node.table ≡ some s
      → find_from (suc fuel) t p name ≡ ok (some s)
  unfolding find_from
  find_from-here fuel p node s h e f = ground (arith, e, f)

  pub find_from-outer :
      (fuel p : ℕ) (node : Node)
      → p ≢ 0
      → get_elem? t.nodes p ≡ some node
      → lookup name node.table ≡ none
      → find_from (suc fuel) t p name ≡ find_from fuel t node.parent name
  unfolding find_from
  find_from-outer fuel p node h e f = ground (arith, e, f)

  find_from-dangling :
      (fuel p : ℕ) → p ≢ 0 → get_elem? t.nodes p ≡ none → find_from (suc fuel) t p name ≡ undefined
  unfolding find_from
  find_from-dangling fuel p h e = ground (arith, e)

  find_from-total :
      IsTree t
      → (fuel p : ℕ) → p < fuel
      → p < length t.nodes
      → (r : Option ℕ) × (find_from fuel t p name ≡ ok r)
  find_from-total v zero p f h = absurd (omega arith)
  find_from-total v (suc fuel) zero f h = (none, find_from-root fuel)
  find_from-total v (suc fuel) (suc p) f h =
      let (node, e) = get_elem?-lt t.nodes (suc p) h in
      let up = v (suc p) node e in
      elim (Option-cases (lookup name node.table)) [
        | inl absent ↦
            let (r, found) = find_from-total v fuel node.parent (omega arith) (omega arith) in
            (r, find_from-outer fuel (suc p) node (ground arith) e absent ∙ found)
        | inr (s, present) ↦ (some s, find_from-here fuel (suc p) node s (ground arith) e present)
      ]

  find_from-Visible : (fuel p s : ℕ) → find_from fuel t p name ≡ ok (some s) → Visible t name s p
  find_from-Visible zero p s e = cc (e, find_from-spent p)
  find_from-Visible (suc fuel) zero s e = cc (e, find_from-root fuel)
  find_from-Visible (suc fuel) (suc p) s e = elim (Option-cases (get_elem? t.nodes (suc p))) [
    | inl gone ↦ cc (e, find_from-dangling fuel (suc p) (ground arith) gone)
    | inr (node, there) ↦ elim (Option-cases (lookup name node.table)) [
      | inl absent ↦ outer (suc p) node (ground arith) there absent (
          find_from-Visible fuel node.parent s
            (sym (find_from-outer fuel (suc p) node (ground arith) there absent) ∙ e))
      | inr (s', present) ↦ here (suc p) node (ground arith) there (
          ground
            (arith, e, present, find_from-here fuel (suc p) node s' (ground arith) there present))
    ]
  ]

  Visible-find_from :
      IsTree t
      → (fuel p s : ℕ) → p < fuel
      → Visible t name s p
      → find_from fuel t p name ≡ ok (some s)
  Visible-find_from v zero p s f d = absurd (omega arith)
  Visible-find_from v (suc fuel) p s f (here _ node h there present) =
      find_from-here fuel p node s h there present
  Visible-find_from v (suc fuel) p s f (outer _ node h there absent d) =
      let up = v p node there in
      find_from-outer fuel p node h there absent
      ∙ Visible-find_from v fuel node.parent s (ground arith) d

  -- From a scope of a tree, `find` ends, and it finds a symbol exactly when the name is visible
  -- with that symbol: its fuel, one more than the number of scopes, is enough.
  pub find_iff :
      (p s : ℕ)
      → IsTree t
      → p < length t.nodes
      → ((r : Option ℕ) × (find t p name ≡ ok r))
        × ((find t p name ≡ ok (some s)) ↔ Visible t name s p)
  unfolding find
  find_iff p s v h = (
    find_from-total v (suc (length t.nodes)) p (omega arith) h,
    (
      find_from-Visible (suc (length t.nodes)) p s,
      Visible-find_from v (suc (length t.nodes)) p s (omega arith),
    ),
  )
