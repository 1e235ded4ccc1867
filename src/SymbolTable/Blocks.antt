-- ===== src/SymbolTable/Blocks.antt =====
-- `mkscope` and `rmscope` of scoped_table_base_class.hpp: a scope is entered and left.
use frost32_cpu.Prelude.{
  get_elem?-lt, lt-get_elem?, get_elem?-set_cases, get_elem?-append_cases, get_elem?-append_left,
  length-append, ℕ, zero, suc, ◌<◌, ◌≡◌, ◌≢◌, ◌==◌, ◌∙◌, refl, sym, ap, [], ◌∷◌, ◌++◌, String, some,
  Option-cases, length, length-set, get_elem?, set, get_elem?-set_self, get_elem?-set_ne,
  get_elem?-append_length, arith, inl, inr, Bool-cases, false, ==_iff,
}
use frost32_cpu.Prelude.Int.{pos, ltb_ℤ}
use frost32_cpu.Prelude.Text.{lookup}
use frost32_cpu.Outcome.{ok}
use frost32_cpu.SymbolTable.{find_from, SymbolTable, Node, new_node, mkscope, rmscope, find}
use frost32_cpu.SymbolTable.Scopes.{
  IsTree, find_from-root, find_from-here, find_from-outer, find_from-spent,
}

-- A scope with one more child.
abbrev pub with_child : Node → ℕ → Node
with_child node made = record node { children = node.children ++ made ∷ [] }

-- The tree with one more scope, below another.
abbrev pub entered : SymbolTable → ℕ → Node → ℕ → SymbolTable
entered t curr node num = record t {
  nodes = set t.nodes curr (with_child node (length t.nodes)) ++ new_node curr ∷ [];
  scope_num = pos (suc num);
}

module _ (t : SymbolTable) (curr : ℕ) (node : Node) (num : ℕ)
    (there : get_elem? t.nodes curr ≡ some node) where
  pub mkscope-entered :
      t.scope_num ≡ pos num → mkscope t curr ≡ ok (entered t curr node num, length t.nodes)
  unfolding mkscope
  mkscope-entered e =
      let q : ltb_ℤ (pos (suc num)) (pos 0) ≡ false = ground arith in rw (e, q, there) refl

  pub entered-length : length (entered t curr node num).nodes ≡ suc (length t.nodes)
  entered-length =
      let made = with_child node (length t.nodes) in
      omega (
        arith,
        length-append (set t.nodes curr made) (new_node curr ∷ []),
        length-set t.nodes curr made,
      )

  pub entered-new :
      get_elem? (entered t curr node num).nodes (length t.nodes) ≡ some (new_node curr)
  entered-new =
      let made = with_child node (length t.nodes) in
      ap (get_elem? (set t.nodes curr made ++ new_node curr ∷ []))
        (sym (length-set t.nodes curr made))
      ∙ get_elem?-append_length (set t.nodes curr made) (new_node curr)

  pub entered-IsTree : IsTree t → IsTree (entered t curr node num)
  entered-IsTree v i other e =
      let made = with_child node (length t.nodes) in
      let inside = lt-get_elem? t.nodes curr node there in
      elim (get_elem?-append_cases (set t.nodes curr made) (new_node curr) i other e) [
        | inl (p, q) ↦ omega (arith, inside, p, length-set t.nodes curr made, ap (λ n. n.parent) q)
        | inr f ↦ elim (get_elem?-set_cases t.nodes curr made i other f) [
          | inl (p, q) ↦ omega (arith, v curr node there, p, ap (λ n. n.parent) q)
          | inr g ↦ v i other g
        ]
      ]

  -- Every other scope has the table and the parent that it had.
  pub entered-same :
      (p : ℕ) (n : Node)
      → get_elem? t.nodes p ≡ some n
      → (m : Node) × ((get_elem? (entered t curr node num).nodes p ≡ some m)
          × (m.table ≡ n.table)
          × (m.parent ≡ n.parent))
  entered-same p n e =
      let made = with_child node (length t.nodes) in
      let inside = lt-get_elem? t.nodes p n e in
      let left =
        get_elem?-append_left (set t.nodes curr made) (new_node curr ∷ []) p
          (omega (arith, inside, length-set t.nodes curr made)) in
      elim (Bool-cases (curr == p)) [
        | inl same ↦
            let c : curr ≡ p = (==_iff curr p).0 same in
            let k : node ≡ n = cc (there, e, c) in
            (
              with_child n (length t.nodes),
              (
                left
                    ∙ ap (get_elem? (set t.nodes curr made)) (sym c)
                    ∙ get_elem?-set_self t.nodes curr made (omega (arith, inside))
                    ∙ ap (λ k. some (with_child k (length t.nodes))) k,
                refl,
                refl,
              ),
            )
        | inr different ↦ (
          n,
          (left ∙ get_elem?-set_ne t.nodes curr p made (ground (arith, different)) ∙ e, refl, refl),
        )
      ]

  find_from-entered :
      (name : String)
      → IsTree t
      → (fuel p : ℕ) → p < length t.nodes
      → find_from fuel (entered t curr node num) p name ≡ find_from fuel t p name
  find_from-entered name v zero p h =
      find_from-spent (entered t curr node num) name p ∙ sym (find_from-spent t name p)
  find_from-entered name v (suc fuel) zero h =
      find_from-root (entered t curr node num) name fuel ∙ sym (find_from-root t name fuel)
  find_from-entered name v (suc fuel) (suc p) h =
      let t' = entered t curr node num in
      let (n, e) = get_elem?-lt t.nodes (suc p) h in
      let (m, (e', table, parent)) = entered-same (suc p) n e in
      let up = v (suc p) n e in
      let ne : suc p ≢ 0 = λ z. absurd (omega (arith, z)) in
      elim (Option-cases (lookup name n.table)) [
        | inl absent ↦
            find_from-outer t' name fuel (suc p) m ne e' (ap (lookup name) table ∙ absent)
            ∙ ap (λ q. find_from fuel t' q name) parent
            ∙ find_from-entered name v fuel n.parent (omega arith)
            ∙ sym (find_from-outer t name fuel (suc p) n ne e absent)
        | inr (s, present) ↦
            find_from-here t' name fuel (suc p) m s ne e' (ap (lookup name) table ∙ present)
            ∙ sym (find_from-here t name fuel (suc p) n s ne e present)
      ]

  find-entered :
      (name : String)
      → IsTree t
      → find (entered t curr node num) (length t.nodes) name ≡ find t curr name
  unfolding find
  find-entered name v =
      let t' = entered t curr node num in
      let inside = lt-get_elem? t.nodes curr node there in
      let ne : length t.nodes ≢ 0 = λ z. absurd (omega (arith, z, inside)) in
      ap (λ n. find_from (suc n) t' (length t.nodes) name) entered-length
      ∙ find_from-outer t' name (suc (length t.nodes)) (length t.nodes) (new_node curr) ne
          entered-new refl
      ∙ find_from-entered name v (suc (length t.nodes)) curr inside

  pub rmscope-entered : rmscope (entered t curr node num) (length t.nodes) ≡ ok curr
  unfolding rmscope
  rmscope-entered =
      let inside = lt-get_elem? t.nodes curr node there in
      let q : (length t.nodes == 0) ≡ false = ground (arith, inside) in rw (q, entered-new) refl

-- In a tree, entering a scope makes a tree with a new scope: each name is found there as it is
-- where the scope was entered, and leaving it leads back.
pub mkscope-rmscope :
    (t : SymbolTable) (curr num : ℕ) (name : String)
    → IsTree t
    → curr < length t.nodes
    → t.scope_num ≡ pos num
    → (t' : SymbolTable) × (made : ℕ) × ((mkscope t curr ≡ ok (t', made))
        × IsTree t'
        × (find t' made name ≡ find t curr name)
        × (rmscope t' made ≡ ok curr))
mkscope-rmscope t curr num name v h e =
    let (node, there) = get_elem?-lt t.nodes curr h in
    (
      entered t curr node num,
      length t.nodes,
      (
        mkscope-entered t curr node num there e,
        entered-IsTree t curr node num there v,
        find-entered t curr node num there name v,
        rmscope-entered t curr node num there,
      ),
    )
