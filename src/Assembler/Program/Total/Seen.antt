-- ===== src/Assembler/Program/Total/Seen.antt =====
-- Where the labels of a program are seen, in the scopes of its blocks: what the first pass of
-- assembler_class.cpp leaves in the table, and the second relies on.
use mathlib.Core.Path.{subst}
use frost32_cpu.Prelude.{
  ℕ, ◌+◌, ◌≡◌, ◌∙◌, ap, sym, List, ◌++◌, String, true, Option-cases, inl, inr, arith,
}
use frost32_cpu.Prelude.Text.{elem, elem-append, lookup, str_eq_iff}
use frost32_cpu.SymbolTable.{SymbolTable}
use frost32_cpu.SymbolTable.Scopes.{here, outer, Visible}
use frost32_cpu.SymbolTable.Sees.{Sees, Widens, Sees-Widens}
use frost32_cpu.SymbolTable.Shape.{scopes}
use frost32_cpu.SymbolTable.Forest.{IsChild, Extends, IsChild-Extends}
use frost32_cpu.Assembler.Syntax.{
  Line, scoped_lines, label, instruction, pseudo_instruction, directive, blank, Lines, no_lines,
  line_then,
}
use frost32_cpu.Assembler.Program.Blocks.{block, LineFollows, Follows}
use frost32_cpu.Assembler.Program.Second.Steps.{node_of}
use frost32_cpu.Assembler.Program.Total.Sound.{text_of, line_labels, labels}

unfoldable mutual
  -- The label of the line is seen in a scope; the line, if it is a block, is the child of the scope
  -- that has a number, and so in the child.
  pub LineSees : SymbolTable → ℕ → ℕ → Line → Type 0
  LineSees t p k (scoped_lines lines) = (c : ℕ) × IsChild (scopes t) p k c × AllSees t c 0 lines
  LineSees t p k (label i) = Sees t (text_of i) p
  LineSees t p k (instruction i) = Unit
  LineSees t p k (pseudo_instruction i) = Unit
  LineSees t p k (directive d) = Unit
  LineSees t p k blank = Unit

  pub AllSees : SymbolTable → ℕ → ℕ → Lines → Type 0
  AllSees t p k no_lines = Unit
  AllSees t p k (line_then line lines) = LineSees t p k line × AllSees t p (k + block line) lines

module _ (t u : SymbolTable) (w : Widens t u) (e : Extends (scopes t) (scopes u)) where
  mutual
    unfolding LineSees

    pub LineSees-Widens : (line : Line) (p k : ℕ) → LineSees t p k line → LineSees u p k line
    LineSees-Widens (scoped_lines lines) p k (c, child, h) =
        (c, IsChild-Extends (scopes t) (scopes u) p k c e child, AllSees-Widens lines c 0 h)
    LineSees-Widens (label i) p k h = Sees-Widens t u w (text_of i) p h
    LineSees-Widens (instruction i) p k h = h
    LineSees-Widens (pseudo_instruction i) p k h = h
    LineSees-Widens (directive d) p k h = h
    LineSees-Widens blank p k h = h

    pub AllSees-Widens : (lines : Lines) (p k : ℕ) → AllSees t p k lines → AllSees u p k lines
    AllSees-Widens no_lines p k h = h
    AllSees-Widens (line_then line lines) p k (h, hs) =
        (LineSees-Widens line p k h, AllSees-Widens lines p (k + block line) hs)

module _ (t : SymbolTable) where
  mutual
    unfolding LineSees LineFollows

    pub LineSees-LineFollows :
        (line : Line) (p k : ℕ) → LineSees t p k line → LineFollows (scopes t) p k line
    LineSees-LineFollows (scoped_lines lines) p k (c, child, h) =
        (c, child, AllSees-Follows lines c 0 h)
    LineSees-LineFollows (label i) p k h = tt
    LineSees-LineFollows (instruction i) p k h = tt
    LineSees-LineFollows (pseudo_instruction i) p k h = tt
    LineSees-LineFollows (directive d) p k h = tt
    LineSees-LineFollows blank p k h = tt

    pub AllSees-Follows :
        (lines : Lines) (p k : ℕ) → AllSees t p k lines → Follows (scopes t) p k lines
    AllSees-Follows no_lines p k h = h
    AllSees-Follows (line_then line lines) p k (h, hs) =
        (LineSees-LineFollows line p k h, AllSees-Follows lines p (k + block line) hs)

  -- A scope sees what the scope around it sees.
  pub Sees-child :
      (name : String) (p k c : ℕ) → IsChild (scopes t) p k c → Sees t name p → Sees t name c
  Sees-child name p k c child (i, v) =
      let (node, (there, same)) = node_of t c child.below child.is_below in
      let parent = ap (λ x. x.parent) same ∙ child.has_parent in
      elim (Option-cases (lookup name node.table)) [
        | inr (j, found) ↦ (j, here c node child.inside there found)
        | inl absent ↦
            (i, outer c node child.inside there absent (subst (Visible t name i) (sym parent) v))
      ]

  line_label-Sees :
      (line : Line) (name : String) (p k : ℕ)
      → LineSees t p k line
      → elem name (line_labels line) ≡ true
      → Sees t name p
  unfolding LineSees
  line_label-Sees (scoped_lines lines) name p k h e = cc
  line_label-Sees (label i) name p k h e =
      subst (λ n. Sees t n p) (sym ((str_eq_iff name (text_of i)).0 (ground (arith, e)))) h
  line_label-Sees (instruction i) name p k h e = cc
  line_label-Sees (pseudo_instruction i) name p k h e = cc
  line_label-Sees (directive d) name p k h e = cc
  line_label-Sees blank name p k h e = cc

  -- A scope sees the labels that stand in its block.
  pub label-Sees :
      (lines : Lines) (name : String) (p k : ℕ)
      → AllSees t p k lines
      → elem name (labels lines) ≡ true
      → Sees t name p
  unfolding LineSees
  label-Sees no_lines name p k h e = cc
  label-Sees (line_then line lines) name p k (h, hs) e =
      elim (elem-append name (line_labels line) (labels lines) e) [
        | inl x ↦ line_label-Sees line name p k h x
        | inr x ↦ label-Sees lines name p (k + block line) hs x
      ]

  -- A block in a scope sees its labels and what that scope sees.
  pub block-Sees :
      (lines : Lines) (names : List String) (p k c : ℕ)
      → IsChild (scopes t) p k c
      → AllSees t c 0 lines
      → ((name : String) → elem name names ≡ true → Sees t name p)
      → (name : String) → elem name (labels lines ++ names) ≡ true
      → Sees t name c
  block-Sees lines names p k c child h outside name e =
      elim (elem-append name (labels lines) names e) [
        | inl x ↦ label-Sees lines name c 0 h x
        | inr x ↦ Sees-child name p k c child (outside name x)
      ]
