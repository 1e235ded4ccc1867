-- ===== src/Assembler/Program/Second.antt =====
-- The second pass of `run` in assembler_class.cpp: it goes through the scopes of the first.
pub mod Steps
use mathlib.Core.Path.{subst}
use frost32_cpu.Prelude.{ℕ, ◌+◌, ◌≡◌, ◌∙◌, refl, ap, sym, List, ◌∷◌, true, arith}
use frost32_cpu.Orange.{Orange, Laws}
use frost32_cpu.Outcome.{Outcome, ok, bind, exits, uncaught, undefined}
use frost32_cpu.SymbolTable.Shape.{scopes}
use frost32_cpu.SymbolTable.Forest.{IsChild}
use frost32_cpu.Assembler.{Assembler, ◌>>◌, is_pass_one}
use frost32_cpu.Assembler.Syntax.{
  Line, scoped_lines, label, instruction, pseudo_instruction, directive, blank, Lines, no_lines,
  line_then,
}
use frost32_cpu.Assembler.Emits.{
  Emits, Ends, Post, then-Post, weaken-Post, exact_then-Post, exact_then,
}
use frost32_cpu.Assembler.Visit.{visit_instruction}
use frost32_cpu.Assembler.Pseudo.{visit_pseudo_instruction}
use frost32_cpu.Assembler.Visit.Sizes.{visit_instruction-Post}
use frost32_cpu.Assembler.Pseudo.Sizes.{pseudo_size, visit_pseudo_instruction-Post}
use frost32_cpu.Assembler.Program.{
  visit_directive, visit_label, enter_scope, leave_scope, visit_line, visit_lines,
}
use frost32_cpu.Assembler.Program.Leaves.{
  IsReady, IsReady-InScope, Leaves, Emits-Leaves, Leaves-same, visit_directive-Post,
}
use frost32_cpu.Assembler.Program.Leaves.Labels.{visit_label-Post}
use frost32_cpu.Assembler.Program.Layout.{Sized, DirectivePlaced, LinePlaced, Placed}
use frost32_cpu.Assembler.Program.Blocks.{block, blocks, LineFollows, Follows}
use frost32_cpu.Assembler.Program.Second.Steps.{
  Walked, Leaves-Walked, Walked-trans, Walked-IsReady, left, enter_scope-IsChild, no_block,
  left_block, leave_block, IsChild-IsReady,
}

module _ (lib : Orange) (laws : Laws lib) where
  mutual
    unfolding visit_line LineFollows LinePlaced

    pub visit_line-Walked :
        (line : Line) (s : Assembler) (k : ℕ) (rest : List ℕ)
        → is_pass_one s ≡ true
        → IsReady s
        → s.scope_child_num_stack ≡ k ∷ rest
        → LineFollows (scopes s.sym_tbl) s.curr_scope_node k line
        → Post (visit_line lib line) s (Walked (LinePlaced line) ((k + block line) ∷ rest) s)
    visit_line-Walked (scoped_lines lines) s k rest second r e (c, child, h) =
        let stack = s.scope_child_num_stack in
        let inner = left c (0 ∷ stack) s in
        exact_then-Post enter_scope _ s inner (Walked (Placed lines) ((k + 1) ∷ rest) s)
          (enter_scope-IsChild s second k rest c e child)
          (then-Post (visit_lines lib lines) (λ _. leave_scope) inner
            (Walked (Placed lines) ((0 + blocks lines) ∷ stack) inner)
            (Walked (Placed lines) ((k + 1) ∷ rest) s)
            (visit_lines-Walked lines inner 0 stack second
              (IsChild-IsReady s k c (0 ∷ stack) r child) refl h)
            (λ t w. leave_block (Placed lines) s t k c (0 + blocks lines) rest second e child w))
    visit_line-Walked (label name) s k rest second r e h =
        weaken-Post (visit_label name) s (Leaves (Sized 0) s) (Walked (Sized 0) ((k + 0) ∷ rest) s)
          (visit_label-Post name s r)
          (λ t l. Leaves-Walked (Sized 0) ((k + 0) ∷ rest) s t (e ∙ no_block k rest) l)
    visit_line-Walked (instruction i) s k rest second r e h =
        weaken-Post (visit_instruction lib i) s (λ t. Emits 4 s t)
          (Walked (Sized 4) ((k + 0) ∷ rest) s)
          (visit_instruction-Post lib laws s (IsReady-InScope s r) i)
          (λ t q.
            Leaves-Walked (Sized 4) ((k + 0) ∷ rest) s t (e ∙ no_block k rest)
              (Emits-Leaves 4 s t r q))
    visit_line-Walked (pseudo_instruction p) s k rest second r e h =
        weaken-Post (visit_pseudo_instruction lib p) s (λ t. Emits (pseudo_size p) s t)
          (Walked (Sized (pseudo_size p)) ((k + 0) ∷ rest) s)
          (visit_pseudo_instruction-Post lib laws s (IsReady-InScope s r) p)
          (λ t q.
            Leaves-Walked (Sized (pseudo_size p)) ((k + 0) ∷ rest) s t (e ∙ no_block k rest)
              (Emits-Leaves (pseudo_size p) s t r q))
    visit_line-Walked (directive d) s k rest second r e h =
        weaken-Post (visit_directive lib d) s (Leaves (DirectivePlaced d) s)
          (Walked (DirectivePlaced d) ((k + 0) ∷ rest) s) (visit_directive-Post lib laws d s r)
          (λ t l. Leaves-Walked (DirectivePlaced d) ((k + 0) ∷ rest) s t (e ∙ no_block k rest) l)
    visit_line-Walked blank s k rest second r e h = record {
      at = Leaves-Walked (Sized 0) ((k + 0) ∷ rest) s s (e ∙ no_block k rest) (Leaves-same s r);
    }

    pub visit_lines-Walked :
        (lines : Lines) (s : Assembler) (k : ℕ) (rest : List ℕ)
        → is_pass_one s ≡ true
        → IsReady s
        → s.scope_child_num_stack ≡ k ∷ rest
        → Follows (scopes s.sym_tbl) s.curr_scope_node k lines
        → Post (visit_lines lib lines) s (Walked (Placed lines) ((k + blocks lines) ∷ rest) s)
    visit_lines-Walked no_lines s k rest second r e h = record {
      at = Leaves-Walked (Sized 0) ((k + 0) ∷ rest) s s (e ∙ no_block k rest) (Leaves-same s r);
    }
    visit_lines-Walked (line_then line lines) s k rest second r e (h, hs) =
        let k' = k + block line in
        let end = (k + (block line + blocks lines)) ∷ rest in
        then-Post (visit_line lib line) (λ _. visit_lines lib lines) s
          (Walked (LinePlaced line) (k' ∷ rest) s) (Walked (Placed (line_then line lines)) end s)
          (visit_line-Walked line s k rest second r e h)
          (λ t w.
            let scope : t.curr_scope_node ≡ s.curr_scope_node =
              ap (λ y. y.curr_scope_node) w.kept in
            let stack : t.scope_child_num_stack ≡ k' ∷ rest =
              ap (λ y. y.scope_child_num_stack) w.kept in
            let same : ((k' + blocks lines) ∷ rest) ≡ end = ap (λ n. n ∷ rest) (omega arith) in
            weaken-Post (visit_lines lib lines) t
              (Walked (Placed lines) ((k' + blocks lines) ∷ rest) t)
              (Walked (Placed (line_then line lines)) end s)
              (visit_lines-Walked lines t k' rest (ap is_pass_one w.kept ∙ second)
                (Walked-IsReady (LinePlaced line) (k' ∷ rest) s t r w) stack
                (subst (λ f. Follows f t.curr_scope_node k' lines) (sym w.shape)
                  (subst (λ p. Follows (scopes s.sym_tbl) p k' lines) (sym scope) hs)))
              (λ u w'.
                subst (λ l. Walked (Placed (line_then line lines)) l s u) same
                  (Walked-trans (LinePlaced line) (Placed lines) (Placed (line_then line lines))
                    (k' ∷ rest) ((k' + blocks lines) ∷ rest) s t u (λ a b c p q. (b, (p, q))) w
                    w')))

  block_then :
      (lines : Lines) (s : Assembler) (k c j : ℕ) (rest : List ℕ)
      → is_pass_one s ≡ true
      → s.scope_child_num_stack ≡ k ∷ rest
      → IsChild (scopes s.sym_tbl) s.curr_scope_node k c
      → (r : Outcome (Unit {0} × Assembler))
      → Ends r (
          Walked
            (Placed lines)
            (j ∷ s.scope_child_num_stack)
            (left c (0 ∷ s.scope_child_num_stack) s))
      → ((λ (v : Assembler). r) >> leave_scope) s
        ≡ bind r (λ (_, t). ok (tt, left s.curr_scope_node ((k + 1) ∷ rest) t))
  block_then lines s k c j rest second e i (ok (_, t)) w =
      left_block (Placed lines) s t k c j rest second e i w
  block_then lines s k c j rest second e i (exits x) h = refl
  block_then lines s k c j rest second e i uncaught h = refl
  block_then lines s k c j rest second e i undefined h = refl

  block-visit_lines :
      (lines : Lines) (s t : Assembler)
      → enter_scope s ≡ ok (tt, t)
      → visit_line lib (scoped_lines lines) s ≡ (visit_lines lib lines >> leave_scope) t
  unfolding visit_line
  block-visit_lines lines s t e =
      exact_then enter_scope (λ _. visit_lines lib lines >> leave_scope) s t e

  -- On the second pass, in a scope of a well-formed table that has the child whose number is on top
  -- of the stack, with the blocks of the lines as its children in turn, a block does what its lines
  -- do in that child, then goes back and counts the child; only its lines can stop it.
  pub visit_line-left :
      (lines : Lines) (s : Assembler) (k c : ℕ) (rest : List ℕ)
      → is_pass_one s ≡ true
      → IsReady s
      → s.scope_child_num_stack ≡ k ∷ rest
      → IsChild (scopes s.sym_tbl) s.curr_scope_node k c
      → Follows (scopes s.sym_tbl) c 0 lines
      → visit_line lib (scoped_lines lines) s
        ≡ bind
            (visit_lines lib lines (left c (0 ∷ s.scope_child_num_stack) s))
            (λ (_, t). ok (tt, left s.curr_scope_node ((k + 1) ∷ rest) t))
  visit_line-left lines s k c rest second r e i h =
      let stack = s.scope_child_num_stack in
      let into = left c (0 ∷ stack) s in
      block-visit_lines lines s into (enter_scope-IsChild s second k rest c e i)
      ∙ block_then lines s k c (0 + blocks lines) rest second e i (visit_lines lib lines into) (
          (visit_lines-Walked lines into 0 stack second (IsChild-IsReady s k c (0 ∷ stack) r i) refl
            h).at)
