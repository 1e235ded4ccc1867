-- ===== src/Assembler/Program/First/Steps.antt =====
-- Into and out of a scope on the first pass of assembler_class.cpp: `visitScopedLines` makes
-- the scope and goes back to its parent.
use mathlib.Core.Path.{subst}
use frost32_cpu.Prelude.{
  ℕ, ◌+◌, ◌^◌, ◌<◌, ◌≡◌, ◌≢◌, ◌∙◌, refl, ap, sym, [], false, ◌==◌, some, length, get_elem?,
  get_elem?-lt, lt-get_elem?, arith,
}
use frost32_cpu.Outcome.{ok}
use frost32_cpu.SymbolTable.{SymbolTable, Node, rmscope}
use frost32_cpu.SymbolTable.Shape.{IsWell, Scope, scopes, scope_of, length-map, get_elem?-map}
use frost32_cpu.SymbolTable.Shape.Steps.{mkscope-with_block}
use frost32_cpu.SymbolTable.Forest.{
  Grows, Grows-same, Grows-trans, Grows-Extends, with_block, with_more, with_block-new,
  with_block-IsChild, IsChild, IsChild-Extends, with_block-length, with_block-Grows,
}
use frost32_cpu.Assembler.{Assembler, is_pass_one}
use frost32_cpu.Assembler.Syntax.{Line, scoped_lines, Lines}
use frost32_cpu.Assembler.Emits.{Post, exact-Post}
use frost32_cpu.Assembler.Program.{enter_scope, leave_scope}
use frost32_cpu.Assembler.Program.Layout.{LinePlaced, Placed}
use frost32_cpu.Assembler.Program.Leaves.{IsReady, Leaves}
use frost32_cpu.Assembler.Program.Blocks.{block, blocks, LineFollows, Follows}

-- The state with the symbols and the program counter of another.
abbrev pub with_table : Assembler → Assembler → Assembler
with_table u s = record s { sym_tbl = u.sym_tbl; pc = u.pc }

-- The scope of the state has some children more; the invariant of the table holds; all of the state
-- but the symbols and the program counter is as it was, and nothing is output; the program counter
-- goes from one address to another.
pub record Grown (R : ℕ → ℕ → Type 0) (n : ℕ) (s s' : Assembler) : Type 0 where
  pub kept : s' ≡ with_table s' s
  pub well : IsWell s'.sym_tbl
  pub bounded : s.pc.curr < 2 ^ 64 → s'.pc.curr < 2 ^ 64
  pub placed : R s.pc.curr s'.pc.curr
  pub grows : Grows s.curr_scope_node n (scopes s.sym_tbl) (scopes s'.sym_tbl)

pub Leaves-Grown :
    (R : ℕ → ℕ → Type 0) (s s' : Assembler) → is_pass_one s ≡ false → Leaves R s s' → Grown R 0 s s'
Leaves-Grown R s s' first l =
    let (o, w) = l.quiet first in
    record {
      kept =
          l.kept
          ∙ ap (λ x. record s { sym_tbl = s'.sym_tbl; pc = s'.pc; out = x; warnings = s'.warnings })
              o
          ∙ ap (λ x. record s { sym_tbl = s'.sym_tbl; pc = s'.pc; warnings = x }) w;
      well = l.well;
      bounded = l.bounded;
      placed = l.placed;
      grows =
          subst (λ g. Grows s.curr_scope_node 0 (scopes s.sym_tbl) g) (sym l.shape)
            (Grows-same s.curr_scope_node (scopes s.sym_tbl));
    }

pub Grown-IsReady :
    (R : ℕ → ℕ → Type 0) (n : ℕ) (s s' : Assembler) → IsReady s → Grown R n s s' → IsReady s'
Grown-IsReady R n s s' r g =
    let scope : s'.curr_scope_node ≡ s.curr_scope_node = ap (λ x. x.curr_scope_node) g.kept in
    record {
      well = g.well;
      in_range = omega (
        arith,
        scope,
        r.in_range,
        g.grows.longer,
        length-map scope_of s.sym_tbl.nodes,
        length-map scope_of s'.sym_tbl.nodes,
      );
      below_root = λ z. r.below_root (sym scope ∙ z);
    }

pub Grown-trans :
    (R Q T : ℕ → ℕ → Type 0) (m n : ℕ) (s t u : Assembler)
    → ((a b c : ℕ) → R a b → Q b c → T a c)
    → Grown R m s t
    → Grown Q n t u
    → Grown T (m + n) s u
Grown-trans R Q T m n s t u comp p q =
    let scope : t.curr_scope_node ≡ s.curr_scope_node = ap (λ x. x.curr_scope_node) p.kept in
    record {
      kept = q.kept ∙ ap (with_table u) p.kept;
      well = q.well;
      bounded = λ h. q.bounded (p.bounded h);
      placed = comp _ _ _ p.placed q.placed;
      grows =
          Grows-trans s.curr_scope_node m n _ _ _ p.grows
            (subst (λ c. Grows c n (scopes t.sym_tbl) (scopes u.sym_tbl)) scope q.grows);
    }

module _ (s : Assembler) (first : is_pass_one s ≡ false) where
  pub enter_scope-first :
      (x : Scope)
      → IsWell s.sym_tbl
      → get_elem? (scopes s.sym_tbl) s.curr_scope_node ≡ some x
      → (u : SymbolTable) × ((enter_scope s
            ≡ ok (tt, record s { sym_tbl = u; curr_scope_node = length (scopes s.sym_tbl) }))
          × IsWell u
          × (scopes u ≡ with_block (scopes s.sym_tbl) s.curr_scope_node x))
  unfolding enter_scope
  enter_scope-first x w there =
      let (u, (e, w', shape)) = mkscope-with_block s.sym_tbl s.curr_scope_node x w there in
      (u, (rw (first, e) refl, w', shape))

  leave_scope-node :
      (node : Node)
      → s.curr_scope_node ≢ 0
      → get_elem? s.sym_tbl.nodes s.curr_scope_node ≡ some node
      → leave_scope s ≡ ok (tt, record s { curr_scope_node = node.parent })
  unfolding leave_scope rmscope
  leave_scope-node node z there =
      let below : (s.curr_scope_node == 0) ≡ false = ground (arith, z) in
      rw (first, below, there) refl

  leave_scope-first :
      (y : Scope)
      → IsReady s
      → get_elem? (scopes s.sym_tbl) s.curr_scope_node ≡ some y
      → leave_scope s ≡ ok (tt, record s { curr_scope_node = y.parent })
  leave_scope-first y r there =
      let (node, e) = get_elem?-lt s.sym_tbl.nodes s.curr_scope_node r.in_range in
      let same : scope_of node ≡ y =
        cc (get_elem?-map scope_of s.sym_tbl.nodes s.curr_scope_node node e, there) in
      leave_scope-node node r.below_root e
      ∙ ap (λ k. ok (tt, record s { curr_scope_node = k.parent })) same

-- The state after the first pass went through a line or lines in a scope.
abbrev pub LineDone : Line → Scope → Assembler → Assembler → Type 0
LineDone line x s s' =
    Grown (LinePlaced line) (block line) s s'
    × LineFollows (scopes s'.sym_tbl) s.curr_scope_node (length x.children) line

abbrev pub Done : Lines → Scope → Assembler → Assembler → Type 0
Done lines x s s' =
    Grown (Placed lines) (blocks lines) s s'
    × Follows (scopes s'.sym_tbl) s.curr_scope_node (length x.children) lines

abbrev pub in_scope : ℕ → Assembler → Assembler
in_scope p s = record s { curr_scope_node = p }

-- A scope that was just made.
abbrev pub empty : ℕ → Scope
empty p = record { parent = p; children = [] }

pub entered-IsReady :
    (s : Assembler) (u : SymbolTable) (x : Scope)
    → IsReady s
    → get_elem? (scopes s.sym_tbl) s.curr_scope_node ≡ some x
    → IsWell u
    → scopes u ≡ with_block (scopes s.sym_tbl) s.curr_scope_node x
    → IsReady (record s { sym_tbl = u; curr_scope_node = length (scopes s.sym_tbl) })
entered-IsReady s u x r there w shape =
    let f = scopes s.sym_tbl in
    let inside = lt-get_elem? f s.curr_scope_node x there in
    record {
      well = w;
      in_range = omega (
        arith,
        sym (length-map scope_of u.nodes),
        ap (length) shape,
        with_block-length f s.curr_scope_node x there,
      );
      below_root = λ z. absurd (omega (arith, z, inside));
    }

-- The state in a new scope.
abbrev pub inner : SymbolTable → Assembler → Assembler
inner u s = record s { sym_tbl = u; curr_scope_node = length (scopes s.sym_tbl) }

module _ (lines : Lines) (s t : Assembler) (u : SymbolTable) (x : Scope)
    (first : is_pass_one s ≡ false) (r : IsReady s)
    (there : get_elem? (scopes s.sym_tbl) s.curr_scope_node ≡ some x) (w : IsWell u)
    (shape : scopes u ≡ with_block (scopes s.sym_tbl) s.curr_scope_node x)
    (g : Grown (Placed lines) (blocks lines) (inner u s) t) where
  -- Out of a block, after its lines, to where the block was entered.
  pub left_block : leave_scope t ≡ ok (tt, in_scope s.curr_scope_node t)
  left_block =
      let f = scopes s.sym_tbl in
      let p = s.curr_scope_node in
      let r' =
        Grown-IsReady (Placed lines) (blocks lines) (inner u s) t
          (entered-IsReady s u x r there w shape) g in
      let new = ap (λ g. get_elem? g (length f)) shape ∙ with_block-new f p x there in
      let (added, (_, there')) = g.grows.more (empty p) new in
      let scope : t.curr_scope_node ≡ length f = ap (λ y. y.curr_scope_node) g.kept in
      leave_scope-first t (ap is_pass_one g.kept ∙ first) (with_more (empty p) added) r'
        (ap (get_elem? (scopes t.sym_tbl)) scope ∙ there')

  -- The block is the next child of the scope that it is in.
  pub block_IsChild :
      IsChild (scopes t.sym_tbl) s.curr_scope_node (length x.children) (length (scopes s.sym_tbl))
  block_IsChild =
      let f = scopes s.sym_tbl in
      let p = s.curr_scope_node in
      let inside = lt-get_elem? f p x there in
      let z : length f ≢ 0 = λ z. absurd (omega (arith, z, inside)) in
      let grows = subst (λ k. Grows (length f) (blocks lines) k (scopes t.sym_tbl)) shape g.grows in
      IsChild-Extends (with_block f p x) (scopes t.sym_tbl) p (length x.children) (length f)
        (Grows-Extends (length f) (blocks lines) _ _ grows) (with_block-IsChild f p x there z)

  pub leave_block :
      Follows (scopes t.sym_tbl) (length (scopes s.sym_tbl)) 0 lines
      → Post leave_scope t (LineDone (scoped_lines lines) x s)
  unfolding LineFollows LinePlaced
  leave_block h =
      let f = scopes s.sym_tbl in
      let p = s.curr_scope_node in
      let c = length f in
      let grows = subst (λ k. Grows c (blocks lines) k (scopes t.sym_tbl)) shape g.grows in
      exact-Post leave_scope t (in_scope p t) (LineDone (scoped_lines lines) x s) left_block (
        record {
          kept = ap (in_scope p) g.kept;
          well = g.well;
          bounded = g.bounded;
          placed = g.placed;
          grows = with_block-Grows f p x there (blocks lines) (scopes t.sym_tbl) grows;
        },
        (c, block_IsChild, h),
      )
