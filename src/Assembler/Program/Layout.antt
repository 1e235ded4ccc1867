-- ===== src/Assembler/Program/Layout.antt =====
-- Where the lines of a program are placed by assembler_class.cpp: the program counter before and
-- after them, on either pass.
use mathlib.Core.Path.{subst}
use frost32_cpu.Prelude.{ℕ, ◌+◌, ◌%◌, ◌^◌, ◌<◌, ◌≡◌, ◌∙◌, ap, sym, List, [], ◌∷◌, arith}
use frost32_cpu.Prelude.Int.{ℤ, to_u64, to_u64-lt}
use frost32_cpu.Outcome.{ok}
use frost32_cpu.Assembler.Syntax.{
  Expr, Directive, dot_org, dot_space, dot_db, dot_db16, dot_db8, Line, scoped_lines, label,
  instruction, pseudo_instruction, directive, blank, Lines, no_lines, line_then,
}
use frost32_cpu.Assembler.Expr.Value.{eval_expr}
use frost32_cpu.Assembler.Expr.Nameless.{IsNameless, at_pc}
use frost32_cpu.Assembler.Pseudo.Sizes.{pseudo_size}

-- An address that fits 64 bits, and the one that is a number of bytes after it.
abbrev pub Sized : ℕ → ℕ → ℕ → Type 0
Sized n a b = a < 2 ^ 64 → (b < 2 ^ 64) × (b ≡ (a + n) % 2 ^ 64)

pub Sized-same : (a : ℕ) → Sized 0 a a
Sized-same a h = (h, omega (arith, h))

pub Sized-trans : (m n a b c : ℕ) → Sized m a b → Sized n b c → Sized (m + n) a c
Sized-trans m n a b c p q h =
    let (small, moved) = p h in
    let (small', moved') = q small in (small', omega (arith, moved, moved'))

-- The bytes of the expressions of a data directive.
abbrev pub data_size : ℕ → List Expr → ℕ
data_size width [] = 0
data_size width (e ∷ expressions) = width + data_size width expressions

-- The number is the value of the expression at the address, if no name stands in it.
abbrev pub Valued : Expr → ℕ → ℤ → Type 0
Valued e a n = IsNameless e → eval_expr (at_pc a) e ≡ ok n

abbrev pub DirectivePlaced : Directive → ℕ → ℕ → Type 0
DirectivePlaced (dot_org e) a b = (n : ℤ) × (Valued e a n × (b ≡ to_u64 n))
DirectivePlaced (dot_space e) a b = (n : ℤ) × (Valued e a n × (b ≡ (a + to_u64 n) % 2 ^ 64))
DirectivePlaced (dot_db expressions) a b = Sized (data_size 4 expressions) a b
DirectivePlaced (dot_db16 expressions) a b = Sized (data_size 2 expressions) a b
DirectivePlaced (dot_db8 expressions) a b = Sized (data_size 1 expressions) a b

unfoldable mutual
  -- From one address to another with a line, or with lines: an instruction is four bytes, a pseudo
  -- instruction those of its words.
  pub LinePlaced : Line → ℕ → ℕ → Type 0
  LinePlaced (scoped_lines lines) a b = Placed lines a b
  LinePlaced (label name) a b = Sized 0 a b
  LinePlaced (instruction i) a b = Sized 4 a b
  LinePlaced (pseudo_instruction p) a b = Sized (pseudo_size p) a b
  LinePlaced (directive d) a b = DirectivePlaced d a b
  LinePlaced blank a b = Sized 0 a b

  pub Placed : Lines → ℕ → ℕ → Type 0
  Placed no_lines a c = Sized 0 a c
  Placed (line_then line lines) a c = (b : ℕ) × (LinePlaced line a b × Placed lines b c)

abbrev pub DirectiveIsFixed : Directive → Type 0
DirectiveIsFixed (dot_org e) = IsNameless e
DirectiveIsFixed (dot_space e) = IsNameless e
DirectiveIsFixed _ = Unit

unfoldable mutual
  -- No name stands in the expressions of .org and .space.
  pub LineIsFixed : Line → Type 0
  LineIsFixed (scoped_lines lines) = IsFixed lines
  LineIsFixed (label name) = Unit
  LineIsFixed (instruction i) = Unit
  LineIsFixed (pseudo_instruction p) = Unit
  LineIsFixed (directive d) = DirectiveIsFixed d
  LineIsFixed blank = Unit

  pub IsFixed : Lines → Type 0
  IsFixed no_lines = Unit
  IsFixed (line_then line lines) = LineIsFixed line × IsFixed lines

-- The same end below 2 ^ 64.
abbrev EndsAt : ℕ → ℕ → Type 0
EndsAt b c = (b < 2 ^ 64) × (b ≡ c)

Sized-unique : (n a b c : ℕ) → a < 2 ^ 64 → Sized n a b → Sized n a c → EndsAt b c
Sized-unique n a b c h p q = let (small, e) = p h in let (_, f) = q h in (small, e ∙ sym f)

Valued-unique : (e : Expr) (a : ℕ) (m n : ℤ) → IsNameless e → Valued e a m → Valued e a n → m ≡ n
Valued-unique e a m n h p q = cc (p h, q h)

directive_unique :
    (d : Directive) (a b c : ℕ)
    → a < 2 ^ 64
    → DirectiveIsFixed d
    → DirectivePlaced d a b
    → DirectivePlaced d a c
    → EndsAt b c
directive_unique (dot_org e) a b c h fixed (m, (v, p)) (n, (w, q)) =
    let same = Valued-unique e a m n fixed v w in
    (omega (arith, p, to_u64-lt m), p ∙ ap to_u64 same ∙ sym q)
directive_unique (dot_space e) a b c h fixed (m, (v, p)) (n, (w, q)) =
    let same = Valued-unique e a m n fixed v w in
    (omega (arith, p), p ∙ ap (λ k. (a + to_u64 k) % 2 ^ 64) same ∙ sym q)
directive_unique (dot_db es) a b c h fixed p q = Sized-unique (data_size 4 es) a b c h p q
directive_unique (dot_db16 es) a b c h fixed p q = Sized-unique (data_size 2 es) a b c h p q
directive_unique (dot_db8 es) a b c h fixed p q = Sized-unique (data_size 1 es) a b c h p q

mutual
  unfolding LinePlaced LineIsFixed

  pub line_unique :
      (line : Line) (a b c : ℕ)
      → a < 2 ^ 64
      → LineIsFixed line
      → LinePlaced line a b
      → LinePlaced line a c
      → EndsAt b c
  line_unique (scoped_lines lines) a b c h fixed p q = Placed-unique lines a b c h fixed p q
  line_unique (label name) a b c h fixed p q = Sized-unique 0 a b c h p q
  line_unique (instruction i) a b c h fixed p q = Sized-unique 4 a b c h p q
  line_unique (pseudo_instruction i) a b c h fixed p q = Sized-unique (pseudo_size i) a b c h p q
  line_unique (directive d) a b c h fixed p q = directive_unique d a b c h fixed p q
  line_unique blank a b c h fixed p q = Sized-unique 0 a b c h p q

  pub Placed-unique :
      (lines : Lines) (a b c : ℕ)
      → a < 2 ^ 64
      → IsFixed lines
      → Placed lines a b
      → Placed lines a c
      → EndsAt b c
  Placed-unique no_lines a b c h fixed p q = Sized-unique 0 a b c h p q
  Placed-unique (line_then line lines) a c d h (fixed, all) (b, (p, ps)) (b', (q, qs)) =
      let (small, same) = line_unique line a b b' h fixed p q in
      Placed-unique lines b c d small all ps (subst (λ k. Placed lines k d) (sym same) qs)
