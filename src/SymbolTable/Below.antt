-- ===== src/SymbolTable/Below.antt =====
-- The scopes below a scope of scoped_table_base_class.hpp, and `get_all_children_tables`.
use mathlib.Core.List.{Memᴰ}
use mathlib.Core.List.Memᴰ
use mathlib.Core.List.Memᴰ.{head, tail}
use mathlib.Core.Path.{subst}
use frost32_cpu.Prelude.{
  get_elem?-append_cases, get_elem?-set_cases, lt-get_elem?, set, suc, ℕ, zero, suc, ◌+◌, ◌<◌, ◌≤◌,
  ◌≡◌, ◌⊎◌, ◌∙◌, refl, sym, List, [], ◌∷◌, ◌++◌, some, length, get_elem?, get_elem?-lt, arith, inl,
  inr,
}
use frost32_cpu.Outcome.{ok}
use frost32_cpu.SymbolTable.{
  SymbolTable, Node, children_tables, get_all_children_tables, mkscope, new_node,
}
use frost32_cpu.SymbolTable.Blocks.{entered, with_child, mkscope-entered, entered-length}
use frost32_cpu.Prelude.Int.{pos}

-- Each child was made after its parent.
abbrev pub IsDownward : SymbolTable → Type 0
IsDownward t =
    (p : ℕ) (node : Node) (c : ℕ)
    → get_elem? t.nodes p ≡ some node
    → Memᴰ c node.children
    → (p < c) × (c < length t.nodes)

-- A scope is below another: its child, or below its child.
pub data Below (t : SymbolTable) : ℕ → ℕ → Type 0 where
  child :
      (p : ℕ) (node : Node) (c : ℕ)
      → get_elem? t.nodes p ≡ some node
      → Memᴰ c node.children
      → Below t p c
  deeper :
      (p : ℕ) (node : Node) (c q : ℕ)
      → get_elem? t.nodes p ≡ some node
      → Memᴰ c node.children
      → Below t c q
      → Below t p q

module _ (t : SymbolTable) where
  -- One of the scopes, or below one of them.
  abbrev Under : List ℕ → ℕ → Type 0
  Under cs q = (c : ℕ) × (Memᴰ c cs × ((q ≡ c) ⊎ Below t c q))

  Under-Below :
      (p : ℕ) (node : Node) (q : ℕ)
      → get_elem? t.nodes p ≡ some node
      → Under node.children q
      → Below t p q
  Under-Below p node q e (c, (m, inl same)) =
      child p node q e (subst (λ x. Memᴰ x node.children) (sym same) m)
  Under-Below p node q e (c, (m, inr b)) = deeper p node c q e m b

  Below-Under :
      (p : ℕ) (node : Node) (q : ℕ)
      → get_elem? t.nodes p ≡ some node
      → Below t p q
      → Under node.children q
  Below-Under p node q e (child _ other c f m) =
      let same : other ≡ node = cc (e, f) in
      (q, (subst (λ (n : Node). Memᴰ q n.children) same m, inl refl))
  Below-Under p node q e (deeper _ other c _ f m b) =
      let same : other ≡ node = cc (e, f) in
      (c, (subst (λ (n : Node). Memᴰ c n.children) same m, inr b))

  -- The list has exactly what is one of the scopes, or below one of them.
  abbrev Collects : List ℕ → List ℕ → Type 0
  Collects cs r = (q : ℕ) → (Memᴰ q r → Under cs q) × (Under cs q → Memᴰ q r)

  children_tables-step :
      (fuel c : ℕ) (cs below rest : List ℕ) (node : Node)
      → get_elem? t.nodes c ≡ some node
      → children_tables fuel t node.children ≡ ok below
      → children_tables (suc fuel) t cs ≡ ok rest
      → children_tables (suc fuel) t (c ∷ cs) ≡ ok (c ∷ below ++ rest)
  unfolding children_tables
  children_tables-step fuel c cs below rest node e f g = rw (e, f, g) refl

  Collects-step :
      (c : ℕ) (cs below rest : List ℕ) (node : Node)
      → get_elem? t.nodes c ≡ some node
      → Collects node.children below
      → Collects cs rest
      → Collects (c ∷ cs) (c ∷ below ++ rest)
  Collects-step c cs below rest node e b r q = (sound, complete)
    where
      sound : Memᴰ q (c ∷ below ++ rest) → Under (c ∷ cs) q
      sound (head same) = (c, (head refl, inl same))
      sound (tail m) = elim (Memᴰ.append_cases below m) [
        | inl m ↦ (c, (head refl, inr (Under-Below c node q e ((b q).0 m))))
        | inr m ↦ let (d, (n, u)) = (r q).0 m in (d, (tail n, u))
      ]

      complete : Under (c ∷ cs) q → Memᴰ q (c ∷ below ++ rest)
      complete (d, (head same, inl here)) = head (here ∙ same)
      complete (d, (head same, inr under)) = tail (
          Memᴰ.append_left rest
            ((b q).1 (Below-Under c node q e (subst (λ x. Below t x q) same under))))
      complete (d, (tail n, u)) = tail (Memᴰ.append_right below ((r q).1 (d, (n, u))))

  children_tables-Collects :
      (v : IsDownward t) (fuel : ℕ) (cs : List ℕ)
      → ((c : ℕ) → Memᴰ c cs → (c < length t.nodes) × (length t.nodes ≤ fuel + c))
      → (r : List ℕ) × ((children_tables fuel t cs ≡ ok r) × Collects cs r)
  unfolding children_tables
  children_tables-Collects v fuel [] h =
      ([], (refl, λ q. (λ m. elim m [ ], λ (c, (m, u)). elim m [ ])))
  children_tables-Collects v zero (c ∷ cs) h =
      let (small, enough) = h c (head refl) in absurd (omega (arith, small, enough))
  children_tables-Collects v (suc fuel) (c ∷ cs) h =
      let (small, enough) = h c (head refl) in
      let (node, e) = get_elem?-lt t.nodes c small in
      let (below, (f, b)) =
        children_tables-Collects v fuel node.children
          (λ d m. let (later, inside) = v c node d e m in (inside, omega (arith, later, enough))) in
      let (rest, (g, r)) = children_tables-Collects v (suc fuel) cs (λ d m. h d (tail m)) in
      (
        c ∷ below ++ rest,
        (
          children_tables-step fuel c cs below rest node e f g,
          Collects-step c cs below rest node e b r,
        ),
      )

  get_all_children_tables-node :
      (p : ℕ) (node : Node)
      → get_elem? t.nodes p ≡ some node
      → get_all_children_tables t p ≡ children_tables (length t.nodes) t node.children
  unfolding get_all_children_tables
  get_all_children_tables-node p node e = rw e refl

-- Where each child was made after its parent, `get_all_children_tables` of a scope ends with a list
-- that has exactly the scopes below it.
pub get_all_children_tables-Below :
    (t : SymbolTable) (p : ℕ)
    → IsDownward t
    → p < length t.nodes
    → (r : List ℕ) × ((get_all_children_tables t p ≡ ok r)
        × ((q : ℕ) → (Memᴰ q r → Below t p q) × (Below t p q → Memᴰ q r)))
get_all_children_tables-Below t p v small =
    let (node, e) = get_elem?-lt t.nodes p small in
    let (r, (f, c)) =
      children_tables-Collects t v (length t.nodes) node.children
        (λ d m. let (later, inside) = v p node d e m in (inside, omega arith)) in
    (
      r,
      (
        get_all_children_tables-node t p node e ∙ f,
        λ q. (λ m. Under-Below t p node q e ((c q).0 m), λ b. (c q).1 (Below-Under t p node q e b)),
      ),
    )

-- `mkscope` keeps that each child was made after its parent.
mkscope-IsDownward :
    (t : SymbolTable) (curr num : ℕ) (node : Node)
    → t.scope_num ≡ pos num
    → get_elem? t.nodes curr ≡ some node
    → IsDownward t
    → (u : SymbolTable) × ((mkscope t curr ≡ ok (u, length t.nodes)) × IsDownward u)
mkscope-IsDownward t curr num node counted there v = (
  entered t curr node num,
  (mkscope-entered t curr node num there counted, λ p other c e m. later p other c e m),
)
  where
    longer : length (entered t curr node num).nodes ≡ suc (length t.nodes)
    longer = entered-length t curr node num there

    later : IsDownward (entered t curr node num)
    later p other c e m =
        let inside = lt-get_elem? t.nodes curr node there in
        elim (get_elem?-append_cases (set t.nodes curr (with_child node (length t.nodes)))
          (new_node curr) p other e) [
            | inl (_, n) ↦ elim (subst (λ (x : Node). Memᴰ c x.children) n m) [ ]
            | inr old ↦
                elim (get_elem?-set_cases t.nodes curr (with_child node (length t.nodes)) p other
                  old) [
                    | inr older ↦ let (a, b) = v p other c older m in (a, omega (arith, b, longer))
                    | inl (q, n) ↦
                        elim (Memᴰ.append_cases node.children
                          (subst (λ (x : Node). Memᴰ c x.children) n m)) [
                            | inl before ↦
                                let (a, b) = v curr node c there before in
                                (omega (arith, q, a), omega (arith, b, longer))
                            | inr (head same) ↦
                                (omega (arith, q, inside, same), omega (arith, same, longer))
                            | inr (tail none_left) ↦ elim none_left [ ]
                          ]
                  ]
          ]
