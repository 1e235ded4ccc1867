-- ===== src/Assembler/Program/Held.antt =====
-- The labels of a program in the scopes of its blocks, with their addresses: what visitLabel of
-- assembler_class.cpp leaves in the table of symbols.
pub mod First
pub mod Second
pub mod Runs
pub mod Branches
use frost32_cpu.Prelude.{ℕ, ◌+◌, ◌≡◌, List, [], ◌∷◌, ◌++◌, String, Bool, true, false, not, arith}
use frost32_cpu.Prelude.Text.{elem, elem-left, elem-right, all_of, all_of-elem}
use frost32_cpu.SymbolTable.{SymbolTable}
use frost32_cpu.SymbolTable.Addresses.{Holds, Untouched, Holds-Untouched, elem_self}
use frost32_cpu.SymbolTable.Shape.{scopes}
use frost32_cpu.SymbolTable.Forest.{IsChild, Extends, IsChild-Extends}
use frost32_cpu.Assembler.Syntax.{
  Line, scoped_lines, label, instruction, pseudo_instruction, directive, blank, Lines, no_lines,
  line_then,
}
use frost32_cpu.Assembler.Program.Blocks.{block, LineFollows, Follows}
use frost32_cpu.Assembler.Program.Layout.{Sized, LinePlaced, Placed}
use frost32_cpu.Assembler.Program.Total.Sound.{text_of}

unfoldable mutual
  -- The labels of a line, and of some lines, with those of the blocks among them.
  pub line_names : Line → List String
  line_names (scoped_lines lines) = names lines
  line_names (label i) = text_of i ∷ []
  line_names (instruction i) = []
  line_names (pseudo_instruction p) = []
  line_names (directive d) = []
  line_names blank = []

  pub names : Lines → List String
  names no_lines = []
  names (line_then line lines) = line_names line ++ names lines

-- No name of the first list is in the second.
abbrev pub are_apart : List String → List String → Bool
are_apart xs ys = all_of (λ name. not (elem name ys)) xs

abbrev pub Apart : List String → List String → Type 0
Apart xs ys = (name : String) → elem name xs ≡ true → elem name ys ≡ false

pub are_apart-Apart : (xs ys : List String) → are_apart xs ys ≡ true → Apart xs ys
are_apart-Apart xs ys h name e =
    let absent = all_of-elem (λ n. not (elem n ys)) name xs h e in ground (arith, absent)

unfoldable mutual
  unfolding line_names

  -- Each label stands once.
  pub LineOnce : Line → Type 0
  LineOnce (scoped_lines lines) = Once lines
  LineOnce (label i) = Unit
  LineOnce (instruction i) = Unit
  LineOnce (pseudo_instruction p) = Unit
  LineOnce (directive d) = Unit
  LineOnce blank = Unit

  pub Once : Lines → Type 0
  Once no_lines = Unit
  Once (line_then line lines) =
      LineOnce line × Once lines × (are_apart (line_names line) (names lines) ≡ true)

unfoldable mutual
  unfolding LinePlaced

  -- A line from one address to another, in a scope: a label stands for its address there, and a
  -- block is the child of the scope that has a number.
  pub LineHolds : SymbolTable → ℕ → ℕ → Line → ℕ → ℕ → Type 0
  LineHolds t p k (scoped_lines lines) a b =
      (c : ℕ) × IsChild (scopes t) p k c × AllHold t c 0 lines a b
  LineHolds t p k (label i) a b = Sized 0 a b × Holds t (text_of i) p a
  LineHolds t p k (instruction i) a b = LinePlaced (instruction i) a b
  LineHolds t p k (pseudo_instruction i) a b = LinePlaced (pseudo_instruction i) a b
  LineHolds t p k (directive d) a b = LinePlaced (directive d) a b
  LineHolds t p k blank a b = LinePlaced blank a b

  pub AllHold : SymbolTable → ℕ → ℕ → Lines → ℕ → ℕ → Type 0
  AllHold t p k no_lines a c = Sized 0 a c
  AllHold t p k (line_then line lines) a c =
      (b : ℕ) × LineHolds t p k line a b × AllHold t p (k + block line) lines b c

module _ (ns : List String) (t u : SymbolTable) (r : Untouched ns t u)
    (e : Extends (scopes t) (scopes u)) where
  mutual
    unfolding LineHolds line_names

    -- Labels that are not touched stay where they are.
    pub LineHolds-Untouched :
        (line : Line) (p k a b : ℕ)
        → Apart (line_names line) ns
        → LineHolds t p k line a b
        → LineHolds u p k line a b
    LineHolds-Untouched (scoped_lines lines) p k a b d (c, child, h) = (
      c,
      IsChild-Extends (scopes t) (scopes u) p k c e child,
      AllHold-Untouched lines c 0 a b d h,
    )
    LineHolds-Untouched (label i) p k a b d (h, holds) =
        let new = d (text_of i) (elem_self (text_of i)) in
        (h, Holds-Untouched ns t u r (text_of i) new p a holds)
    LineHolds-Untouched (instruction i) p k a b d h = h
    LineHolds-Untouched (pseudo_instruction i) p k a b d h = h
    LineHolds-Untouched (directive i) p k a b d h = h
    LineHolds-Untouched blank p k a b d h = h

    pub AllHold-Untouched :
        (lines : Lines) (p k a c : ℕ)
        → Apart (names lines) ns
        → AllHold t p k lines a c
        → AllHold u p k lines a c
    AllHold-Untouched no_lines p k a c d h = h
    AllHold-Untouched (line_then line lines) p k a c d (b, h, hs) = (
      b,
      LineHolds-Untouched line p k a b
          (λ name m. d name (elem-left name (line_names line) (names lines) m)) h,
      AllHold-Untouched lines p (k + block line) b c
          (λ name m. d name (elem-right name (line_names line) (names lines) m)) hs,
    )

module _ (t : SymbolTable) where
  mutual
    unfolding LineHolds LinePlaced

    pub LineHolds-LinePlaced :
        (line : Line) (p k a b : ℕ) → LineHolds t p k line a b → LinePlaced line a b
    LineHolds-LinePlaced (scoped_lines lines) p k a b (c, child, h) = AllHold-Placed lines c 0 a b h
    LineHolds-LinePlaced (label i) p k a b (h, holds) = h
    LineHolds-LinePlaced (instruction i) p k a b h = h
    LineHolds-LinePlaced (pseudo_instruction i) p k a b h = h
    LineHolds-LinePlaced (directive i) p k a b h = h
    LineHolds-LinePlaced blank p k a b h = h

    pub AllHold-Placed : (lines : Lines) (p k a b : ℕ) → AllHold t p k lines a b → Placed lines a b
    AllHold-Placed no_lines p k a c h = h
    AllHold-Placed (line_then line lines) p k a c (b, h, hs) =
        (b, (LineHolds-LinePlaced line p k a b h, AllHold-Placed lines p (k + block line) b c hs))

  mutual
    unfolding LineHolds LineFollows

    pub LineHolds-LineFollows :
        (line : Line) (p k a b : ℕ) → LineHolds t p k line a b → LineFollows (scopes t) p k line
    LineHolds-LineFollows (scoped_lines lines) p k a b (c, child, h) =
        (c, child, AllHold-Follows lines c 0 a b h)
    LineHolds-LineFollows (label i) p k a b h = tt
    LineHolds-LineFollows (instruction i) p k a b h = tt
    LineHolds-LineFollows (pseudo_instruction i) p k a b h = tt
    LineHolds-LineFollows (directive i) p k a b h = tt
    LineHolds-LineFollows blank p k a b h = tt

    pub AllHold-Follows :
        (lines : Lines) (p k a b : ℕ) → AllHold t p k lines a b → Follows (scopes t) p k lines
    AllHold-Follows no_lines p k a c h = tt
    AllHold-Follows (line_then line lines) p k a c (b, h, hs) =
        (LineHolds-LineFollows line p k a b h, AllHold-Follows lines p (k + block line) b c hs)
