-- ===== src/Assembler/Program/First.antt =====
-- The first pass of `run` in assembler_class.cpp: it makes a scope for each block.
pub mod Steps
use mathlib.Core.Path.{subst}
use frost32_cpu.Prelude.{
  ◌+◌, ◌≡◌, ◌∙◌, refl, ap, ◌++◌, false, some, length, get_elem?, length-append,
}
use frost32_cpu.Orange.{Orange, Laws}
use frost32_cpu.Outcome.{Outcome, ok, bind, exits, uncaught, undefined}
use frost32_cpu.SymbolTable.{SymbolTable}
use frost32_cpu.SymbolTable.Shape.{IsWell, Scope, scopes}
use frost32_cpu.SymbolTable.Forest.{Grows-Extends, with_block, with_more, with_block-new}
use frost32_cpu.Assembler.{Assembler, ◌>>◌, is_pass_one}
use frost32_cpu.Assembler.Syntax.{
  Line, scoped_lines, label, instruction, pseudo_instruction, directive, blank, Lines, no_lines,
  line_then,
}
use frost32_cpu.Assembler.Emits.{
  Emits, Ends, Post, then-Post, weaken-Post, exact_then-Post, exact_then,
}
use frost32_cpu.Assembler.Visit.Sizes.{visit_instruction-Post}
use frost32_cpu.Assembler.Pseudo.Sizes.{pseudo_size, visit_pseudo_instruction-Post}
use frost32_cpu.Assembler.Visit.{visit_instruction}
use frost32_cpu.Assembler.Pseudo.{visit_pseudo_instruction}
use frost32_cpu.Assembler.Program.{
  visit_directive, visit_label, enter_scope, leave_scope, visit_line, visit_lines,
}
use frost32_cpu.Assembler.Program.Leaves.{
  IsReady, IsReady-InScope, Leaves, Emits-Leaves, Leaves-same, visit_directive-Post,
}
use frost32_cpu.Assembler.Program.Leaves.Labels.{visit_label-Post}
use frost32_cpu.Assembler.Program.Layout.{Sized, DirectivePlaced, LinePlaced, Placed}
use frost32_cpu.Assembler.Program.Blocks.{block, blocks, LineFollows, Follows, LineFollows-Extends}
use frost32_cpu.Assembler.Program.First.Steps.{
  in_scope, Grown, Leaves-Grown, Grown-IsReady, Grown-trans, enter_scope-first, LineDone, Done,
  empty, inner, entered-IsReady, left_block, leave_block,
}

module _ (lib : Orange) (laws : Laws lib) where
  mutual
    unfolding visit_line LineFollows LinePlaced

    pub visit_line-Done :
        (line : Line) (s : Assembler) (x : Scope)
        → is_pass_one s ≡ false
        → IsReady s
        → get_elem? (scopes s.sym_tbl) s.curr_scope_node ≡ some x
        → Post (visit_line lib line) s (LineDone line x s)
    visit_line-Done (scoped_lines lines) s x first r there =
        let f = scopes s.sym_tbl in
        let p = s.curr_scope_node in
        let (u, (e, w, shape)) = enter_scope-first s first x r.well there in
        let into : Assembler = inner u s in
        let new = ap (λ g. get_elem? g (length f)) shape ∙ with_block-new f p x there in
        exact_then-Post enter_scope _ s into (LineDone (scoped_lines lines) x s) e (
          then-Post (visit_lines lib lines) (λ _. leave_scope) into (Done lines (empty p) into)
            (LineDone (scoped_lines lines) x s)
            (visit_lines-Done lines into (empty p) first (entered-IsReady s u x r there w shape)
              new)
            (λ t (g, h). leave_block lines s t u x first r there w shape g h))
    visit_line-Done (label name) s x first r there =
        weaken-Post (visit_label name) s (Leaves (Sized 0) s) (LineDone (label name) x s)
          (visit_label-Post name s r) (λ t l. (Leaves-Grown (Sized 0) s t first l, tt))
    visit_line-Done (instruction i) s x first r there =
        weaken-Post (visit_instruction lib i) s (λ t. Emits 4 s t) (LineDone (instruction i) x s)
          (visit_instruction-Post lib laws s (IsReady-InScope s r) i)
          (λ t e. (Leaves-Grown (Sized 4) s t first (Emits-Leaves 4 s t r e), tt))
    visit_line-Done (pseudo_instruction p) s x first r there =
        weaken-Post (visit_pseudo_instruction lib p) s (λ t. Emits (pseudo_size p) s t)
          (LineDone (pseudo_instruction p) x s)
          (visit_pseudo_instruction-Post lib laws s (IsReady-InScope s r) p)
          (λ t e. (
            Leaves-Grown (Sized (pseudo_size p)) s t first (Emits-Leaves (pseudo_size p) s t r e),
            tt,
          ))
    visit_line-Done (directive d) s x first r there =
        weaken-Post (visit_directive lib d) s (Leaves (DirectivePlaced d) s)
          (LineDone (directive d) x s) (visit_directive-Post lib laws d s r)
          (λ t l. (Leaves-Grown (DirectivePlaced d) s t first l, tt))
    visit_line-Done blank s x first r there = record {
      at = (Leaves-Grown (Sized 0) s s first (Leaves-same s r), tt);
    }

    pub visit_lines-Done :
        (lines : Lines) (s : Assembler) (x : Scope)
        → is_pass_one s ≡ false
        → IsReady s
        → get_elem? (scopes s.sym_tbl) s.curr_scope_node ≡ some x
        → Post (visit_lines lib lines) s (Done lines x s)
    visit_lines-Done no_lines s x first r there = record {
      at = (Leaves-Grown (Sized 0) s s first (Leaves-same s r), tt);
    }
    visit_lines-Done (line_then line lines) s x first r there =
        then-Post (visit_line lib line) (λ u. visit_lines lib lines) s (LineDone line x s)
          (Done (line_then line lines) x s) (visit_line-Done line s x first r there)
          (λ t (g, h).
            let (added, (size, there')) = g.grows.more x there in
            let scope : t.curr_scope_node ≡ s.curr_scope_node =
              ap (λ y. y.curr_scope_node) g.kept in
            let count : length (x.children ++ added) ≡ length x.children + block line =
              length-append x.children added ∙ ap (λ n. length x.children + n) size in
            weaken-Post (visit_lines lib lines) t (Done lines (with_more x added) t)
              (Done (line_then line lines) x s)
              (visit_lines-Done lines t (with_more x added) (ap is_pass_one g.kept ∙ first)
                (Grown-IsReady (LinePlaced line) (block line) s t r g)
                (ap (get_elem? (scopes t.sym_tbl)) scope ∙ there'))
              (λ u (g', h'). (
                Grown-trans (LinePlaced line) (Placed lines) (Placed (line_then line lines))
                    (block line) (blocks lines) s t u (λ a b c p q. (b, (p, q))) g g',
                (
                  LineFollows-Extends (scopes t.sym_tbl) (scopes u.sym_tbl)
                      (Grows-Extends t.curr_scope_node (blocks lines) _ _ g'.grows) line
                      s.curr_scope_node (length x.children) h,
                  subst (λ k. Follows (scopes u.sym_tbl) s.curr_scope_node k lines) count
                      (subst
                        (λ p. Follows (scopes u.sym_tbl) p (length (x.children ++ added)) lines)
                        scope h'),
                ),
              )))

  block_then :
      (lines : Lines) (s : Assembler) (u : SymbolTable) (x : Scope)
      → is_pass_one s ≡ false
      → IsReady s
      → get_elem? (scopes s.sym_tbl) s.curr_scope_node ≡ some x
      → IsWell u
      → scopes u ≡ with_block (scopes s.sym_tbl) s.curr_scope_node x
      → (r : Outcome (Unit {0} × Assembler))
      → Ends r (Done lines (empty s.curr_scope_node) (inner u s))
      → ((λ (v : Assembler). r) >> leave_scope) s
        ≡ bind r (λ (_, t). ok (tt, in_scope s.curr_scope_node t))
  block_then lines s u x first r there w shape (ok (_, t)) (g, h) =
      left_block lines s t u x first r there w shape g
  block_then lines s u x first r there w shape (exits e) h = refl
  block_then lines s u x first r there w shape uncaught h = refl
  block_then lines s u x first r there w shape undefined h = refl

  block-visit_lines :
      (lines : Lines) (s : Assembler) (u : SymbolTable)
      → enter_scope s ≡ ok (tt, inner u s)
      → visit_line lib (scoped_lines lines) s ≡ (visit_lines lib lines >> leave_scope) (inner u s)
  unfolding visit_line
  block-visit_lines lines s u e =
      exact_then enter_scope (λ _. visit_lines lib lines >> leave_scope) s (inner u s) e

  -- On the first pass, in a scope of a well-formed table, a block does what its lines do in a new
  -- scope, the last child of the scope it stands in, and goes back; only its lines can stop it.
  pub visit_line-inner :
      (lines : Lines) (s : Assembler) (x : Scope)
      → is_pass_one s ≡ false
      → IsReady s
      → get_elem? (scopes s.sym_tbl) s.curr_scope_node ≡ some x
      → (u : SymbolTable) × (IsWell u
          × (scopes u ≡ with_block (scopes s.sym_tbl) s.curr_scope_node x)
          × (visit_line lib (scoped_lines lines) s
              ≡ bind
                  (visit_lines lib lines (inner u s))
                  (λ (_, t). ok (tt, in_scope s.curr_scope_node t))))
  visit_line-inner lines s x first r there =
      let (u, (e, w, shape)) = enter_scope-first s first x r.well there in
      let new =
        ap (λ g. get_elem? g (length (scopes s.sym_tbl))) shape
        ∙ with_block-new (scopes s.sym_tbl) s.curr_scope_node x there in
      let done =
        visit_lines-Done lines (inner u s) (empty s.curr_scope_node) first
          (entered-IsReady s u x r there w shape) new in
      (
        u,
        (
          w,
          shape,
          block-visit_lines lines s u e
              ∙ block_then lines s u x first r there w shape (visit_lines lib lines (inner u s))
                  done.at,
        ),
      )

  -- Where the visit of lines ends on the first pass, in a scope of a well-formed table, nothing is
  -- output or warned of, the table is well formed, and all of the state but the symbols and the
  -- program counter is as before; the scope has as many children more as the lines have blocks, all
  -- other scopes that were there are as before, and the program counter is where the lines lead.
  pub visit_lines-Grown :
      (lines : Lines) (s : Assembler) (x : Scope)
      → is_pass_one s ≡ false
      → IsReady s
      → get_elem? (scopes s.sym_tbl) s.curr_scope_node ≡ some x
      → Post (visit_lines lib lines) s (Grown (Placed lines) (blocks lines) s)
  visit_lines-Grown lines s x first r there =
      weaken-Post (visit_lines lib lines) s (Done lines x s) (Grown (Placed lines) (blocks lines) s)
        (visit_lines-Done lines s x first r there) (λ t (g, h). g)
