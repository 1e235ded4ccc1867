-- ===== src/Assembler/Program/Total/Sound.antt =====
-- Programs of AssemblerGrammar.g4 that assembler_class.cpp has no reason to refuse: names, registers
-- and values that are found, and labels that are distinct within each block.
use frost32_cpu.Prelude.{◌≡◌, List, [], ◌∷◌, ◌++◌, String, true, false}
use frost32_cpu.Prelude.Text.{elem}
use frost32_cpu.Outcome.{ok}
use frost32_cpu.SymbolTable.Sees.{Sees, AllLabels}
use frost32_cpu.Assembler.{Assembler, is_pass_one}
use frost32_cpu.Assembler.Syntax.{
  Expr, IdentName, tok_ident, instr_name, pseudo_instr_name, tok_reg, tok_pc_reg, tok_ireta_reg,
  tok_idsta_reg, Directive, dot_org, dot_space, dot_db, dot_db16, dot_db8, Line, scoped_lines,
  label, instruction, pseudo_instruction, directive, blank, Lines, no_lines, line_then,
}
use frost32_cpu.Assembler.Expr.Value.{ident_text}
use frost32_cpu.Assembler.Visit.Accepted.Tokens.{HasValue}
use frost32_cpu.Assembler.Visit.Accepted.{IsAccepted}
use frost32_cpu.Assembler.Pseudo.Accepted.{PseudoIsAccepted}
use frost32_cpu.Assembler.Program.Leaves.{IsReady}

abbrev pub text_of : IdentName → String
text_of (tok_ident name) = name
text_of (instr_name name) = name
text_of (pseudo_instr_name name) = name
text_of (tok_reg name) = name
text_of (tok_pc_reg name) = name
text_of (tok_ireta_reg name) = name
text_of (tok_idsta_reg name) = name

-- The labels of a line, and those that stand in some lines but not in a block among them.
abbrev pub line_labels : Line → List String
line_labels (scoped_lines lines) = []
line_labels (label name) = text_of name ∷ []
line_labels (instruction i) = []
line_labels (pseudo_instruction p) = []
line_labels (directive d) = []
line_labels blank = []

abbrev pub labels : Lines → List String
labels no_lines = []
labels (line_then line lines) = line_labels line ++ labels lines

-- On the second pass, each symbol is a label, and the scope of the state sees some names.
abbrev pub Knows : List String → Assembler → Type 0
Knows names s =
    is_pass_one s ≡ true
    → AllLabels s.sym_tbl.data_pool
      × ((name : String) → elem name names ≡ true → Sees s.sym_tbl name s.curr_scope_node)

-- An expression that has a value on both passes, wherever the names that it may use are labels.
abbrev pub IsTotal : List String → Expr → Type 0
IsTotal names e = (s : Assembler) → IsReady s → Knows names s → HasValue s e

abbrev pub AreTotal : List String → List Expr → Type 0
AreTotal names [] = Unit
AreTotal names (e ∷ es) = IsTotal names e × AreTotal names es

abbrev pub IsSoundDirective : List String → Directive → Type 0
IsSoundDirective names (dot_org e) = IsTotal names e
IsSoundDirective names (dot_space e) = IsTotal names e
IsSoundDirective names (dot_db es) = AreTotal names es
IsSoundDirective names (dot_db16 es) = AreTotal names es
IsSoundDirective names (dot_db8 es) = AreTotal names es

unfoldable mutual
  -- A line that may use some names and is accepted wherever they are labels.
  pub IsSoundLine : List String → Line → Type 0
  IsSoundLine names (scoped_lines lines) = IsSound (labels lines ++ names) lines
  IsSoundLine names (label i) = ident_text i ≡ ok (text_of i)
  IsSoundLine names (instruction i) = (s : Assembler) → IsReady s → Knows names s → IsAccepted s i
  IsSoundLine names (pseudo_instruction p) =
      (s : Assembler) → IsReady s → Knows names s → PseudoIsAccepted s p
  IsSoundLine names (directive d) = IsSoundDirective names d
  IsSoundLine names blank = Unit

  pub IsSound : List String → Lines → Type 0
  IsSound names no_lines = Unit
  IsSound names (line_then line lines) = IsSoundLine names line × IsSound names lines

unfoldable mutual
  -- No label of the line is among some names, and in each block the labels are distinct.
  pub IsDistinctLine : List String → Line → Type 0
  IsDistinctLine seen (scoped_lines lines) = IsDistinct [] lines
  IsDistinctLine seen (label i) = elem (text_of i) seen ≡ false
  IsDistinctLine seen (instruction i) = Unit
  IsDistinctLine seen (pseudo_instruction p) = Unit
  IsDistinctLine seen (directive d) = Unit
  IsDistinctLine seen blank = Unit

  pub IsDistinct : List String → Lines → Type 0
  IsDistinct seen no_lines = Unit
  IsDistinct seen (line_then line lines) =
      IsDistinctLine seen line × IsDistinct (line_labels line ++ seen) lines
