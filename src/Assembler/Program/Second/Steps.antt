-- ===== src/Assembler/Program/Second/Steps.antt =====
-- Into and out of a scope on the second pass of assembler_class.cpp: `visitScopedLines` takes
-- the next child and counts it.
use frost32_cpu.Prelude.{
  leb, ℕ, suc, ◌+◌, ◌^◌, ◌<◌, ◌≡◌, ◌∙◌, refl, ap, sym, List, ◌∷◌, true, some, length, get_elem?,
  get_elem?-lt, lt-get_elem?, arith,
}
use frost32_cpu.Outcome.{ok}
use frost32_cpu.SymbolTable.{SymbolTable, Node}
use frost32_cpu.SymbolTable.Shape.{IsWell, Scope, scopes, scope_of, length-map, get_elem?-map}
use frost32_cpu.SymbolTable.Forest.{IsChild}
use frost32_cpu.Assembler.{
  Assembler, is_pass_one, get_top_scope_child_num, pop_scope_child_num, push_scope_child_num,
}
use frost32_cpu.Assembler.Emits.{Post, exact-Post}
use frost32_cpu.Assembler.Program.{enter_scope, leave_scope, count_child}
use frost32_cpu.Assembler.Program.Leaves.{IsReady, changed, Leaves}

-- The state with the symbols, the program counter and the output of another, and with a stack of
-- numbers of children.
abbrev pub walked : Assembler → List ℕ → Assembler → Assembler
walked u stack s = record (changed u s) { scope_child_num_stack = stack }

-- The scopes of the table and the scope of the state are as they were, the number of the next child
-- is as given, the invariant of the table holds, and nothing else changes but the symbols, the
-- program counter and the output; the program counter goes from one address to another.
pub record Walked (R : ℕ → ℕ → Type 0) (stack : List ℕ) (s s' : Assembler) : Type 0 where
  pub kept : s' ≡ walked s' stack s
  pub well : IsWell s'.sym_tbl
  pub shape : scopes s'.sym_tbl ≡ scopes s.sym_tbl
  pub bounded : s.pc.curr < 2 ^ 64 → s'.pc.curr < 2 ^ 64
  pub placed : R s.pc.curr s'.pc.curr

pub Leaves-Walked :
    (R : ℕ → ℕ → Type 0) (stack : List ℕ) (s s' : Assembler)
    → s.scope_child_num_stack ≡ stack
    → Leaves R s s'
    → Walked R stack s s'
Leaves-Walked R stack s s' e l = record {
  kept = l.kept ∙ ap (λ k. walked s' k s) e;
  well = l.well;
  shape = l.shape;
  bounded = l.bounded;
  placed = l.placed;
}

pub Walked-trans :
    (R Q T : ℕ → ℕ → Type 0) (k l : List ℕ) (s t u : Assembler)
    → ((a b c : ℕ) → R a b → Q b c → T a c)
    → Walked R k s t
    → Walked Q l t u
    → Walked T l s u
Walked-trans R Q T k l s t u comp p q = record {
  kept = q.kept ∙ ap (walked u l) p.kept;
  well = q.well;
  shape = q.shape ∙ p.shape;
  bounded = λ h. q.bounded (p.bounded h);
  placed = comp _ _ _ p.placed q.placed;
}

pub Walked-IsReady :
    (R : ℕ → ℕ → Type 0) (k : List ℕ) (s s' : Assembler) → IsReady s → Walked R k s s' → IsReady s'
Walked-IsReady R k s s' r w =
    let scope : s'.curr_scope_node ≡ s.curr_scope_node = ap (λ x. x.curr_scope_node) w.kept in
    record {
      well = w.well;
      in_range = omega (
        arith,
        scope,
        r.in_range,
        ap (length) w.shape,
        length-map scope_of s.sym_tbl.nodes,
        length-map scope_of s'.sym_tbl.nodes,
      );
      below_root = λ z. r.below_root (sym scope ∙ z);
    }

-- The node of a scope.
pub node_of :
    (t : SymbolTable) (p : ℕ) (x : Scope)
    → get_elem? (scopes t) p ≡ some x
    → (node : Node) × ((get_elem? t.nodes p ≡ some node) × (scope_of node ≡ x))
node_of t p x e =
    let h : p < length t.nodes =
      omega (arith, lt-get_elem? (scopes t) p x e, length-map scope_of t.nodes) in
    let (node, there) = get_elem?-lt t.nodes p h in
    (node, (there, cc (get_elem?-map scope_of t.nodes p node there, e)))

-- The state in another scope, with a stack of numbers of children.
abbrev pub left : ℕ → List ℕ → Assembler → Assembler
left p stack s = record s { curr_scope_node = p; scope_child_num_stack = stack }

module _ (s : Assembler) (second : is_pass_one s ≡ true) (k : ℕ) (rest : List ℕ) where
  enter_scope-node :
      (c : ℕ) (node : Node)
      → s.scope_child_num_stack ≡ k ∷ rest
      → get_elem? s.sym_tbl.nodes s.curr_scope_node ≡ some node
      → get_elem? node.children k ≡ some c
      → enter_scope s
        ≡ ok (
          tt,
          record s { curr_scope_node = c; scope_child_num_stack = 0 ∷ s.scope_child_num_stack },
        )
  unfolding enter_scope get_top_scope_child_num push_scope_child_num
  enter_scope-node c node e there child = rw (second, there, e, child) refl

  -- On the second pass, a scope is entered without an error where the table has the child whose
  -- number is on top of the stack.
  pub enter_scope-IsChild :
      (c : ℕ)
      → s.scope_child_num_stack ≡ k ∷ rest
      → IsChild (scopes s.sym_tbl) s.curr_scope_node k c
      → enter_scope s
        ≡ ok (
          tt,
          record s { curr_scope_node = c; scope_child_num_stack = 0 ∷ s.scope_child_num_stack },
        )
  enter_scope-IsChild c e i =
      let (node, (there, same)) = node_of s.sym_tbl s.curr_scope_node i.above i.is_above in
      enter_scope-node c node e there (ap (λ x. get_elem? x.children k) same ∙ i.is_child)

  leave_scope-stacked :
      (j : ℕ) (node : Node)
      → get_elem? s.sym_tbl.nodes s.curr_scope_node ≡ some node
      → leave_scope (left s.curr_scope_node (j ∷ k ∷ rest) s)
        ≡ ok (tt, left node.parent ((k + 1) ∷ rest) s)
  unfolding leave_scope count_child pop_scope_child_num push_scope_child_num
  leave_scope-stacked j node there =
      let nested : leb 1 (suc (length rest)) ≡ true = ground arith in
      rw (second, nested, there) refl

  leave_scope-node :
      (j : ℕ) (node : Node)
      → s.scope_child_num_stack ≡ j ∷ k ∷ rest
      → get_elem? s.sym_tbl.nodes s.curr_scope_node ≡ some node
      → leave_scope s ≡ ok (tt, left node.parent ((k + 1) ∷ rest) s)
  leave_scope-node j node e there =
      ap (λ l. leave_scope (left s.curr_scope_node l s)) e ∙ leave_scope-stacked j node there

  leave_scope-second :
      (j : ℕ) (x : Scope)
      → s.scope_child_num_stack ≡ j ∷ k ∷ rest
      → get_elem? (scopes s.sym_tbl) s.curr_scope_node ≡ some x
      → leave_scope s
        ≡ ok (tt, record s { curr_scope_node = x.parent; scope_child_num_stack = (k + 1) ∷ rest })
  leave_scope-second j x e there =
      let (node, (there', same)) = node_of s.sym_tbl s.curr_scope_node x there in
      leave_scope-node j node e there'
      ∙ ap
          (λ y.
            ok
              (tt, record s { curr_scope_node = y.parent; scope_child_num_stack = (k + 1) ∷ rest }))
          same

pub no_block : (k : ℕ) (rest : List ℕ) → (k ∷ rest) ≡ ((k + 0) ∷ rest)
no_block k rest = ap (λ n. n ∷ rest) (omega arith)

module _ (R : ℕ → ℕ → Type 0) (s t : Assembler) (k c j : ℕ) (rest : List ℕ)
    (second : is_pass_one s ≡ true) (e : s.scope_child_num_stack ≡ k ∷ rest)
    (i : IsChild (scopes s.sym_tbl) s.curr_scope_node k c)
    (w : Walked R (j ∷ s.scope_child_num_stack) (left c (0 ∷ s.scope_child_num_stack) s) t) where
  -- Out of a block, after its lines, to where the block was entered.
  pub left_block : leave_scope t ≡ ok (tt, left s.curr_scope_node ((k + 1) ∷ rest) t)
  left_block =
      let stack : t.scope_child_num_stack ≡ j ∷ k ∷ rest =
        ap (λ y. y.scope_child_num_stack) w.kept ∙ ap (λ l. j ∷ l) e in
      let scope : t.curr_scope_node ≡ c = ap (λ y. y.curr_scope_node) w.kept in
      let below =
        ap (get_elem? (scopes t.sym_tbl)) scope ∙ ap (λ f. get_elem? f c) w.shape ∙ i.is_below in
      leave_scope-second t (ap is_pass_one w.kept ∙ second) k rest j i.below stack below
      ∙ ap (λ q. ok (tt, left q ((k + 1) ∷ rest) t)) i.has_parent

  pub leave_block : Post leave_scope t (Walked R ((k + 1) ∷ rest) s)
  leave_block =
      exact-Post leave_scope t (left s.curr_scope_node ((k + 1) ∷ rest) t)
        (Walked R ((k + 1) ∷ rest) s) left_block
        (record {
          kept = ap (left s.curr_scope_node ((k + 1) ∷ rest)) w.kept;
          well = w.well;
          shape = w.shape;
          bounded = w.bounded;
          placed = w.placed;
        })

pub IsChild-IsReady :
    (s : Assembler) (k c : ℕ) (stack : List ℕ)
    → IsReady s
    → IsChild (scopes s.sym_tbl) s.curr_scope_node k c
    → IsReady (left c stack s)
IsChild-IsReady s k c stack r i = record {
  well = r.well;
  in_range = omega (
    arith,
    lt-get_elem? (scopes s.sym_tbl) c i.below i.is_below,
    length-map scope_of s.sym_tbl.nodes,
  );
  below_root = i.inside;
}
