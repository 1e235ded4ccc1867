-- ===== src/Disassembler/Source/Lines.antt =====
-- Programs of AssemblerGrammar.g4 whose instructions disassembler_class.cpp prints as they were
-- written, and what it prints of them.
use frost32_cpu.Prelude.{ℕ, ◌+◌, ◌%◌, ◌^◌, ◌≡◌, List, [], ◌++◌, String}
use frost32_cpu.Orange.{Orange}
use frost32_cpu.Outcome.{ok}
use frost32_cpu.Output.{Item}
use frost32_cpu.Assembler.Expr.Value.{ident_text}
use frost32_cpu.Assembler.Syntax.{
  Line, scoped_lines, label, instruction, pseudo_instruction, directive, blank, Lines, no_lines,
  line_then,
}
use frost32_cpu.Assembler.Program.Total.Sound.{text_of, labels, IsSoundLine, IsSound}
use frost32_cpu.Disassembler.Source.Shows.{Shows, Shows-IsAccepted}

unfoldable mutual
  -- The address after a line of such instructions, labels, blocks and blank lines.
  pub line_end : ℕ → Line → ℕ
  line_end a (scoped_lines lines) = lines_end a lines
  line_end a (label i) = a
  line_end a (instruction i) = (a + 4) % 2 ^ 64
  line_end a (pseudo_instruction p) = a
  line_end a (directive d) = a
  line_end a blank = a

  pub lines_end : ℕ → Lines → ℕ
  lines_end a no_lines = a
  lines_end a (line_then line lines) = lines_end (line_end a line) lines

unfoldable mutual
  unfolding line_end

  -- What is printed for a line at an address.
  pub LineShows : Orange → ℕ → Line → List Item → Type 0
  LineShows lib a (scoped_lines lines) shown = AllShows lib a lines shown
  LineShows lib a (label i) shown = (ident_text i ≡ ok (text_of i)) × (shown ≡ [])
  LineShows lib a (instruction i) shown = Shows lib a i shown
  LineShows lib a (pseudo_instruction p) shown = ⊥
  LineShows lib a (directive d) shown = ⊥
  LineShows lib a blank shown = shown ≡ []

  -- What is printed for some lines from an address on: no pseudo instructions and no directives.
  pub AllShows : Orange → ℕ → Lines → List Item → Type 0
  AllShows lib a no_lines shown = shown ≡ []
  AllShows lib a (line_then line lines) shown =
      (first rest : List Item) × ((shown ≡ first ++ rest)
        × LineShows lib a line first
        × AllShows lib (line_end a line) lines rest)

module _ (lib : Orange) where
  -- Such programs are accepted.
  mutual
    unfolding LineShows IsSoundLine

    LineShows-IsSoundLine :
        (line : Line) (names : List String) (a : ℕ) (shown : List Item)
        → LineShows lib a line shown
        → IsSoundLine names line
    LineShows-IsSoundLine (scoped_lines lines) names a shown h =
        AllShows-IsSound lines (labels lines ++ names) a shown h
    LineShows-IsSoundLine (label i) names a shown (h, e) = h
    LineShows-IsSoundLine (instruction i) names a shown h =
        λ s r k. Shows-IsAccepted lib a i shown s h
    LineShows-IsSoundLine (pseudo_instruction p) names a shown h = absurd h
    LineShows-IsSoundLine (directive d) names a shown h = absurd h
    LineShows-IsSoundLine blank names a shown h = tt

    pub AllShows-IsSound :
        (lines : Lines) (names : List String) (a : ℕ) (shown : List Item)
        → AllShows lib a lines shown
        → IsSound names lines
    AllShows-IsSound no_lines names a shown h = tt
    AllShows-IsSound (line_then line lines) names a shown (x, y, (e, h, hs)) = (
      LineShows-IsSoundLine line names a x h,
      AllShows-IsSound lines names (line_end a line) y hs,
    )
