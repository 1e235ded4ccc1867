-- ===== src/Assembler/Program/Blocks.antt =====
-- Which scope each block of a program stands for: the blocks of the source text in
-- AssemblerGrammar.g4 against the scopes of scoped_table_base_class.hpp.
use frost32_cpu.Prelude.{ℕ, ◌+◌, List}
use frost32_cpu.SymbolTable.Shape.{Scope}
use frost32_cpu.SymbolTable.Forest.{IsChild, Extends, IsChild-Extends}
use frost32_cpu.Assembler.Syntax.{
  Line, scoped_lines, label, instruction, pseudo_instruction, directive, blank, Lines, no_lines,
  line_then,
}

-- How many blocks a line is, and how many stand side by side in some lines.
abbrev pub block : Line → ℕ
block (scoped_lines lines) = 1
block (label name) = 0
block (instruction i) = 0
block (pseudo_instruction p) = 0
block (directive d) = 0
block blank = 0

abbrev pub blocks : Lines → ℕ
blocks no_lines = 0
blocks (line_then line lines) = block line + blocks lines

unfoldable mutual
  -- The line, if it is a block, is the child of a scope that has a number, and so its lines.
  pub LineFollows : List Scope → ℕ → ℕ → Line → Type 0
  LineFollows f p k (scoped_lines lines) = (c : ℕ) × IsChild f p k c × Follows f c 0 lines
  LineFollows f p k (label name) = Unit
  LineFollows f p k (instruction i) = Unit
  LineFollows f p k (pseudo_instruction i) = Unit
  LineFollows f p k (directive d) = Unit
  LineFollows f p k blank = Unit

  -- The blocks of the lines are the children of a scope from a number on, in their order.
  pub Follows : List Scope → ℕ → ℕ → Lines → Type 0
  Follows f p k no_lines = Unit
  Follows f p k (line_then line lines) = LineFollows f p k line × Follows f p (k + block line) lines

module _ (f g : List Scope) (e : Extends f g) where
  mutual
    unfolding LineFollows

    pub LineFollows-Extends :
        (line : Line) (p k : ℕ) → LineFollows f p k line → LineFollows g p k line
    LineFollows-Extends (scoped_lines lines) p k (c, child, h) =
        (c, IsChild-Extends f g p k c e child, Follows-Extends lines c 0 h)
    LineFollows-Extends (label name) p k h = h
    LineFollows-Extends (instruction i) p k h = h
    LineFollows-Extends (pseudo_instruction i) p k h = h
    LineFollows-Extends (directive d) p k h = h
    LineFollows-Extends blank p k h = h

    pub Follows-Extends : (lines : Lines) (p k : ℕ) → Follows f p k lines → Follows g p k lines
    Follows-Extends no_lines p k h = h
    Follows-Extends (line_then line lines) p k (h, hs) =
        (LineFollows-Extends line p k h, Follows-Extends lines p (k + block line) hs)
