-- ===== src/Assembler/Program/Total/Second.antt =====
-- The second pass of `run` in assembler_class.cpp through the lines of a program that it has no
-- reason to refuse, over a table that has the labels in the scopes of their blocks: it ends.
use mathlib.Core.Path.{subst}
use frost32_cpu.Prelude.{
  ℕ, ◌+◌, ◌≡◌, ◌∙◌, refl, ap, sym, List, [], ◌∷◌, ◌++◌, append-nil, String, true, get_elem?,
}
use frost32_cpu.Prelude.Text.{elem}
use frost32_cpu.Orange.{Orange, Laws}
use frost32_cpu.SymbolTable.Sees.{Sees, Sees-Widens, AllLabels, Widens, Widens-nodes, Widens-trans}
use frost32_cpu.SymbolTable.Shape.{Scope}
use frost32_cpu.SymbolTable.Forest.{Extends}
use frost32_cpu.Assembler.{Assembler, ◌>>◌, is_pass_one}
use frost32_cpu.Assembler.Emits.{exact_then}
use frost32_cpu.Assembler.Syntax.{
  Line, scoped_lines, label, instruction, pseudo_instruction, directive, blank, Lines, no_lines,
  line_then,
}
use frost32_cpu.Assembler.Program.{enter_scope, leave_scope, visit_line, visit_lines}
use frost32_cpu.Assembler.Program.Blocks.{block, blocks}
use frost32_cpu.Assembler.Program.Layout.{LinePlaced, Placed}
use frost32_cpu.Assembler.Program.Leaves.{IsReady}
use frost32_cpu.Assembler.Program.Second.Steps.{
  Walked, Walked-IsReady, left, enter_scope-IsChild, left_block, IsChild-IsReady,
}
use frost32_cpu.Assembler.Program.Second.{visit_line-Walked, visit_lines-Walked}
use frost32_cpu.Assembler.Program.Total.Sound.{labels, IsSoundLine, IsSound}
use frost32_cpu.Assembler.Program.Total.Seen.{
  LineSees, AllSees, AllSees-Widens, LineSees-LineFollows, AllSees-Follows, block-Sees,
}
use frost32_cpu.Assembler.Program.Total.Leaves.{
  Ended, Post-at, SameTable, visit_directive-Ended, visit_instruction-Ended,
  visit_pseudo_instruction-Ended,
}
use frost32_cpu.Assembler.Program.Total.Labels.{visit_label-second}

-- Each scope of a table sees what it saw, and symbols that are labels stay so.
pub record Still (s t : Assembler) : Type 0 where
  pub widens : Widens s.sym_tbl t.sym_tbl
  pub labelled : AllLabels s.sym_tbl.data_pool → AllLabels t.sym_tbl.data_pool

SameTable-Still : (s t : Assembler) → SameTable s t → Still s t
SameTable-Still s t same = record {
  widens = Widens-nodes s.sym_tbl t.sym_tbl (ap (λ u. u.nodes) same.table);
  labelled = λ h. subst (λ u. AllLabels u.data_pool) (sym same.table) h;
}

same_Extends : (f g : List Scope) → g ≡ f → Extends f g
same_Extends f g e p x there =
    (x, [], (ap (λ l. get_elem? l p) e ∙ there, refl, sym (append-nil x.children)))

-- What the scope of a state sees.
abbrev pub SeesNames : List String → Assembler → Type 0
SeesNames names s = (name : String) → elem name names ≡ true → Sees s.sym_tbl name s.curr_scope_node

module _ (lib : Orange) (laws : Laws lib) where
  mutual
    unfolding visit_line IsSoundLine LineSees

    visit_line-Still :
        (line : Line) (names : List String) (s : Assembler) (k : ℕ) (rest : List ℕ)
        → is_pass_one s ≡ true
        → IsReady s
        → s.scope_child_num_stack ≡ k ∷ rest
        → LineSees s.sym_tbl s.curr_scope_node k line
        → AllLabels s.sym_tbl.data_pool
        → SeesNames names s
        → IsSoundLine names line
        → Ended (visit_line lib line) s (Still s)
    visit_line-Still (scoped_lines lines) names s k rest second r e (c, child, l) a v h =
        let stack = s.scope_child_num_stack in
        let into = left c (0 ∷ stack) s in
        let r' = IsChild-IsReady s k c (0 ∷ stack) r child in
        let b =
          visit_lines-Still lines (labels lines ++ names) into 0 stack second r' refl l a
            (block-Sees s.sym_tbl lines names s.curr_scope_node k c child l v) h in
        let w =
          Post-at (visit_lines lib lines) into b.end
            (Walked (Placed lines) ((0 + blocks lines) ∷ stack) into)
            (visit_lines-Walked lib laws lines into 0 stack second r' refl
              (AllSees-Follows s.sym_tbl lines c 0 l))
            b.ends in
        record {
          end = left s.curr_scope_node ((k + 1) ∷ rest) b.end;
          ends =
              exact_then enter_scope (λ _. visit_lines lib lines >> leave_scope) s into
                (enter_scope-IsChild s second k rest c e child)
              ∙ exact_then (visit_lines lib lines) (λ _. leave_scope) into b.end b.ends
              ∙ left_block (Placed lines) s b.end k c (0 + blocks lines) rest second e child w;
          at = record { widens = b.at.widens; labelled = b.at.labelled };
        }
    visit_line-Still (label i) names s k rest second r e l a v h =
        let b = visit_label-second i s r h second in
        record {
          end = b.end;
          ends = b.ends;
          at = record { widens = b.at.defines.widens; labelled = b.at.defines.labels };
        }
    visit_line-Still (instruction i) names s k rest second r e l a v h =
        let b = visit_instruction-Ended lib laws names s r i (h s r (λ _. (a, v))) in
        record { end = b.end; ends = b.ends; at = SameTable-Still s b.end b.at }
    visit_line-Still (pseudo_instruction p) names s k rest second r e l a v h =
        let b = visit_pseudo_instruction-Ended lib laws names s r p (h s r (λ _. (a, v))) in
        record { end = b.end; ends = b.ends; at = SameTable-Still s b.end b.at }
    visit_line-Still (directive d) names s k rest second r e l a v h =
        let b = visit_directive-Ended lib laws names s r d (λ _. (a, v)) h in
        record { end = b.end; ends = b.ends; at = SameTable-Still s b.end b.at }
    visit_line-Still blank names s k rest second r e l a v h = record {
      end = s;
      ends = refl;
      at = SameTable-Still s s (record { table = refl; scope = refl; pass = refl });
    }

    pub visit_lines-Still :
        (lines : Lines) (names : List String) (s : Assembler) (k : ℕ) (rest : List ℕ)
        → is_pass_one s ≡ true
        → IsReady s
        → s.scope_child_num_stack ≡ k ∷ rest
        → AllSees s.sym_tbl s.curr_scope_node k lines
        → AllLabels s.sym_tbl.data_pool
        → SeesNames names s
        → IsSound names lines
        → Ended (visit_lines lib lines) s (Still s)
    visit_lines-Still no_lines names s k rest second r e l a v h = record {
      end = s;
      ends = refl;
      at = SameTable-Still s s (record { table = refl; scope = refl; pass = refl });
    }
    visit_lines-Still (line_then line lines) names s k rest second r e (l, ls) a v (h, hs) =
        let k' = k + block line in
        let b = visit_line-Still line names s k rest second r e l a v h in
        let t = b.end in
        let w =
          Post-at (visit_line lib line) s t (Walked (LinePlaced line) (k' ∷ rest) s)
            (visit_line-Walked lib laws line s k rest second r e
              (LineSees-LineFollows s.sym_tbl line s.curr_scope_node k l))
            b.ends in
        let scope : t.curr_scope_node ≡ s.curr_scope_node = ap (λ y. y.curr_scope_node) w.kept in
        let ls' =
          subst (λ p. AllSees t.sym_tbl p k' lines) (sym scope)
            (AllSees-Widens s.sym_tbl t.sym_tbl b.at.widens (same_Extends _ _ w.shape) lines
              s.curr_scope_node k' ls) in
        let v' : SeesNames names t = λ name f.
          Sees-Widens s.sym_tbl t.sym_tbl b.at.widens name t.curr_scope_node
            (subst (Sees s.sym_tbl name) (sym scope) (v name f)) in
        let c =
          visit_lines-Still lines names t k' rest (ap is_pass_one w.kept ∙ second)
            (Walked-IsReady (LinePlaced line) (k' ∷ rest) s t r w)
            (ap (λ y. y.scope_child_num_stack) w.kept) ls' (b.at.labelled a) v' hs in
        record {
          end = c.end;
          ends = exact_then (visit_line lib line) (λ _. visit_lines lib lines) s t b.ends ∙ c.ends;
          at = record {
            widens = Widens-trans s.sym_tbl t.sym_tbl c.end.sym_tbl b.at.widens c.at.widens;
            labelled = λ x. c.at.labelled (b.at.labelled x);
          };
        }
