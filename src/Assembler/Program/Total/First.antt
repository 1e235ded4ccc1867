-- ===== src/Assembler/Program/Total/First.antt =====
-- The first pass of `run` in assembler_class.cpp through the lines of a program that it has no reason
-- to refuse: it ends, and the table has the labels in the scopes of their blocks.
use mathlib.Core.Path.{subst}
use frost32_cpu.Prelude.{
  ℕ, ◌+◌, ◌<◌, ◌≤◌, ◌≡◌, ◌∙◌, refl, ap, sym, List, [], ◌++◌, String, true, false, some, length,
  get_elem?, get_elem?-lt, length-append, inl, inr, arith,
}
use frost32_cpu.Prelude.Text.{elem, elem-left, elem-right, lookup}
use frost32_cpu.Orange.{Orange, Laws}
use frost32_cpu.Outcome.{Outcome, ok}
use frost32_cpu.SymbolTable.{SymbolTable, symbol_table}
use frost32_cpu.SymbolTable.Blocks.{entered, mkscope-entered}
use frost32_cpu.SymbolTable.Names.{table_at}
use frost32_cpu.SymbolTable.Sees.{Opens, entered-Opens, Widens-trans, AllLabels}
use frost32_cpu.SymbolTable.Shape.{Scope, scopes, scope_of, length-map, IsWell}
use frost32_cpu.SymbolTable.Forest.{Grows-Extends, with_more, with_block-new}
use frost32_cpu.Assembler.{Assembler, ◌>>◌, is_pass_one}
use frost32_cpu.Assembler.Emits.{exact_then}
use frost32_cpu.Assembler.Syntax.{
  Line, scoped_lines, label, instruction, pseudo_instruction, directive, blank, Lines, no_lines,
  line_then,
}
use frost32_cpu.Assembler.Program.{enter_scope, leave_scope, visit_line, visit_lines}
use frost32_cpu.Assembler.Program.Blocks.{block, blocks}
use frost32_cpu.Assembler.Program.Layout.{LinePlaced, Placed}
use frost32_cpu.Assembler.Program.Leaves.{IsReady}
use frost32_cpu.Assembler.Program.First.Steps.{
  in_scope, Grown, Grown-IsReady, LineDone, Done, empty, inner, enter_scope-first, entered-IsReady,
  left_block, block_IsChild,
}
use frost32_cpu.Assembler.Program.First.{visit_line-Done, visit_lines-Done}
use frost32_cpu.Assembler.Program.Total.Sound.{
  text_of, line_labels, labels, IsSoundLine, IsSound, IsDistinctLine, IsDistinct,
}
use frost32_cpu.Assembler.Program.Total.Seen.{LineSees, AllSees, LineSees-Widens}
use frost32_cpu.Assembler.Program.Total.Leaves.{
  Ended, Post-at, visit_directive-Ended, visit_instruction-Ended, visit_pseudo_instruction-Ended,
}
use frost32_cpu.Assembler.Program.Total.Labels.{visit_label-first}
use frost32_cpu.Assembler.Program.Total.Filled.{
  Filled, SameTable-Filled, Defined-Filled, Filled-trans,
}

abbrev table_of : Outcome (Unit {0} × Assembler) → SymbolTable
table_of (ok (_, s)) = s.sym_tbl
table_of _ = symbol_table

-- On the first pass, a scope that is entered is a new one.
pub enter_scope-Opens :
    (s : Assembler) (u : SymbolTable)
    → is_pass_one s ≡ false
    → IsReady s
    → enter_scope s ≡ ok (tt, inner u s)
    → Opens s.sym_tbl u
unfolding enter_scope
enter_scope-Opens s u first r e =
    let t = s.sym_tbl in
    let (num, counted) = r.well.counted in
    let (node, there) = get_elem?-lt t.nodes s.curr_scope_node r.in_range in
    let made = entered t s.curr_scope_node node num in
    let step : enter_scope s
        ≡ ok (tt, record s { sym_tbl = made; curr_scope_node = length t.nodes }) =
      rw (first, mkscope-entered t s.curr_scope_node node num there counted) refl in
    subst (Opens t) (ap table_of (sym step ∙ e)) (entered-Opens t s.curr_scope_node num node there)

-- The table has no names in a scope but some.
abbrev pub OnlyNames : List String → Assembler → Type 0
OnlyNames seen s =
    (name : String) (k : ℕ)
    → lookup name (table_at s.sym_tbl s.curr_scope_node) ≡ some k
    → elem name seen ≡ true

Filled-OnlyNames :
    (names seen : List String) (s t : Assembler)
    → t.curr_scope_node ≡ s.curr_scope_node
    → Filled names s t
    → OnlyNames seen s
    → OnlyNames (names ++ seen) t
Filled-OnlyNames names seen s t scope f h name k e =
    elim (f.named name k (ap (λ c. lookup name (table_at t.sym_tbl c)) (sym scope) ∙ e)) [
      | inl new ↦ elem-left name names seen new
      | inr (j, old) ↦ elem-right name names seen (h name j old)
    ]

-- What the visit of a line or of some lines on the first pass leaves.
abbrev pub LineFilled : Line → ℕ → Assembler → Assembler → Type 0
LineFilled line k s t = Filled (line_labels line) s t × LineSees t.sym_tbl s.curr_scope_node k line

abbrev pub AllFilled : Lines → ℕ → Assembler → Assembler → Type 0
AllFilled lines k s t = Filled (labels lines) s t × AllSees t.sym_tbl s.curr_scope_node k lines

-- Lines after a line.
lines_Filled :
    (line : Line) (lines : Lines) (s t u : Assembler) (x : Scope) (added : List ℕ)
    → Grown (LinePlaced line) (block line) s t
    → Grown (Placed lines) (blocks lines) t u
    → length added ≡ block line
    → LineFilled line (length x.children) s t
    → AllFilled lines (length (x.children ++ added)) t u
    → AllFilled (line_then line lines) (length x.children) s u
unfolding LineSees
lines_Filled line lines s t u x added g g' size (f, l) (f', l') =
    let scope : t.curr_scope_node ≡ s.curr_scope_node = ap (λ y. y.curr_scope_node) g.kept in
    let count : length (x.children ++ added) ≡ length x.children + block line =
      length-append x.children added ∙ ap (λ n. length x.children + n) size in
    let extends = Grows-Extends t.curr_scope_node (blocks lines) _ _ g'.grows in
    let longer : length s.sym_tbl.nodes ≤ length t.sym_tbl.nodes = omega (
      arith,
      g.grows.longer,
      length-map scope_of s.sym_tbl.nodes,
      length-map scope_of t.sym_tbl.nodes,
    ) in
    (
      Filled-trans (line_labels line) (labels lines) s t u scope longer f f',
      (
        LineSees-Widens t.sym_tbl u.sym_tbl f'.widens extends line s.curr_scope_node
            (length x.children) l,
        subst (λ k. AllSees u.sym_tbl s.curr_scope_node k lines) count
            (subst (λ p. AllSees u.sym_tbl p (length (x.children ++ added)) lines) scope l'),
      ),
    )

-- A block adds no name to the scope that it is in.
block_Filled :
    (names : List String) (s t : Assembler) (u : SymbolTable)
    → IsReady s
    → IsWell u
    → length s.sym_tbl.nodes < length u.nodes
    → Opens s.sym_tbl u
    → Filled names (inner u s) t
    → Filled [] s (in_scope s.curr_scope_node t)
block_Filled names s t u r w longer opens f =
    let c : length (scopes s.sym_tbl) ≡ length s.sym_tbl.nodes =
      length-map scope_of s.sym_tbl.nodes in
    let kept : (p : ℕ) → p < length s.sym_tbl.nodes → table_at t.sym_tbl p ≡ table_at s.sym_tbl p =
      λ p h.
        f.elsewhere p (omega (arith, h, longer)) (λ e. absurd (omega (arith, h, e, c)))
        ∙ opens.tables p h in
    record {
      elsewhere = λ p h z. kept p h;
      named = λ name k e. inr (k, ap (lookup name) (sym (kept s.curr_scope_node r.in_range)) ∙ e);
      widens = Widens-trans s.sym_tbl u t.sym_tbl opens.widens f.widens;
      labelled = λ h. f.labelled (subst AllLabels (sym opens.same_pool) h);
    }

module _ (lib : Orange) (laws : Laws lib) where
  mutual
    unfolding visit_line IsSoundLine IsDistinctLine LineSees

    visit_line-Filled :
        (line : Line) (names seen : List String) (s : Assembler) (x : Scope)
        → is_pass_one s ≡ false
        → IsReady s
        → get_elem? (scopes s.sym_tbl) s.curr_scope_node ≡ some x
        → IsSoundLine names line
        → IsDistinctLine seen line
        → OnlyNames seen s
        → Ended (visit_line lib line) s (LineFilled line (length x.children) s)
    visit_line-Filled (scoped_lines lines) names seen s x first r there h d o =
        let p = s.curr_scope_node in
        let c = length (scopes s.sym_tbl) in
        let size : c ≡ length s.sym_tbl.nodes = length-map scope_of s.sym_tbl.nodes in
        let (u, (e, w, shape)) = enter_scope-first s first x r.well there in
        let into : Assembler = inner u s in
        let opens = enter_scope-Opens s u first r e in
        let new = ap (λ g. get_elem? g c) shape ∙ with_block-new (scopes s.sym_tbl) p x there in
        let r' = entered-IsReady s u x r there w shape in
        let b =
          visit_lines-Filled lines (labels lines ++ names) [] into (empty p) first r' new h d
            (λ name k q. cc (sym (ap (lookup name) (ap (table_at u) size ∙ opens.no_names)) ∙ q)) in
        let t = b.end in
        let (f, l) = b.at in
        let (g, _) =
          Post-at (visit_lines lib lines) into t (Done lines (empty p) into)
            (visit_lines-Done lib laws lines into (empty p) first r' new) b.ends in
        record {
          end = in_scope p t;
          ends =
              exact_then enter_scope (λ _. visit_lines lib lines >> leave_scope) s into e
              ∙ exact_then (visit_lines lib lines) (λ _. leave_scope) into t b.ends
              ∙ left_block lines s t u x first r there w shape g;
          at = (
            block_Filled (labels lines) s t u r w (omega (arith, r'.in_range, size)) opens f,
            (c, block_IsChild lines s t u x first r there w shape g, l),
          );
        }
    visit_line-Filled (label i) names seen s x first r there h d o =
        let a = visit_label-first i s r h seen o d in
        record {
          end = a.end;
          ends = a.ends;
          at = (Defined-Filled (text_of i) s a.end a.at, a.at.defines.sees);
        }
    visit_line-Filled (instruction i) names seen s x first r there h d o =
        let a =
          visit_instruction-Ended lib laws names s r i (h s r (λ second. cc (first, second))) in
        record { end = a.end; ends = a.ends; at = (SameTable-Filled s a.end a.at, tt) }
    visit_line-Filled (pseudo_instruction p) names seen s x first r there h d o =
        let a =
          visit_pseudo_instruction-Ended lib laws names s r p
            (h s r (λ second. cc (first, second))) in
        record { end = a.end; ends = a.ends; at = (SameTable-Filled s a.end a.at, tt) }
    visit_line-Filled (directive e) names seen s x first r there h d o =
        let a = visit_directive-Ended lib laws names s r e (λ second. cc (first, second)) h in
        record { end = a.end; ends = a.ends; at = (SameTable-Filled s a.end a.at, tt) }
    visit_line-Filled blank names seen s x first r there h d o = record {
      end = s;
      ends = refl;
      at = (SameTable-Filled s s (record { table = refl; scope = refl; pass = refl }), tt);
    }

    pub visit_lines-Filled :
        (lines : Lines) (names seen : List String) (s : Assembler) (x : Scope)
        → is_pass_one s ≡ false
        → IsReady s
        → get_elem? (scopes s.sym_tbl) s.curr_scope_node ≡ some x
        → IsSound names lines
        → IsDistinct seen lines
        → OnlyNames seen s
        → Ended (visit_lines lib lines) s (AllFilled lines (length x.children) s)
    visit_lines-Filled no_lines names seen s x first r there h d o = record {
      end = s;
      ends = refl;
      at = (SameTable-Filled s s (record { table = refl; scope = refl; pass = refl }), tt);
    }
    visit_lines-Filled (line_then line lines) names seen s x first r there (h, hs) (d, ds) o =
        let a = visit_line-Filled line names seen s x first r there h d o in
        let t = a.end in
        let (f, l) = a.at in
        let (g, _) =
          Post-at (visit_line lib line) s t (LineDone line x s)
            (visit_line-Done lib laws line s x first r there) a.ends in
        let (added, (size, there')) = g.grows.more x there in
        let scope : t.curr_scope_node ≡ s.curr_scope_node = ap (λ y. y.curr_scope_node) g.kept in
        let first' = ap is_pass_one g.kept ∙ first in
        let r' = Grown-IsReady (LinePlaced line) (block line) s t r g in
        let there'' = ap (get_elem? (scopes t.sym_tbl)) scope ∙ there' in
        let b =
          visit_lines-Filled lines names (line_labels line ++ seen) t (with_more x added) first' r'
            there'' hs ds (Filled-OnlyNames (line_labels line) seen s t scope f o) in
        let (g', _) =
          Post-at (visit_lines lib lines) t b.end (Done lines (with_more x added) t)
            (visit_lines-Done lib laws lines t (with_more x added) first' r' there'') b.ends in
        record {
          end = b.end;
          ends = exact_then (visit_line lib line) (λ _. visit_lines lib lines) s t a.ends ∙ b.ends;
          at = lines_Filled line lines s t b.end x added g g' size a.at b.at;
        }
