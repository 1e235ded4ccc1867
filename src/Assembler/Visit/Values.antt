-- ===== src/Assembler/Visit/Values.antt =====
-- What the visitors of assembler_class.cpp do with the value of an expression.
use frost32_cpu.Prelude.{◌≡◌, refl}
use frost32_cpu.Prelude.Int.{ℤ}
use frost32_cpu.Outcome.{Outcome, ok, exits, uncaught, undefined, bind}
use frost32_cpu.Assembler.{Assembler, M, ◌>>=◌, pop_num}
use frost32_cpu.Assembler.Syntax.{Expr}
use frost32_cpu.Assembler.Expr.{visit_expr}
use frost32_cpu.Assembler.Expr.Steps.{pushed}
use frost32_cpu.Assembler.Visit.{visit_value}

-- What follows the value of an expression.
pub value_then :
    (e : Expr) (r : Outcome ℤ) (k : ℤ → M (Unit {0})) (s : Assembler)
    → visit_expr e s ≡ bind r (pushed s)
    → (visit_value e >>= k) s ≡ bind r (λ n. k n s)
unfolding pop_num
value_then e (ok n) k s h = rw (◌>>=◌, h) refl
value_then e (exits x) k s h = rw (◌>>=◌, h) refl
value_then e uncaught k s h = rw (◌>>=◌, h) refl
value_then e undefined k s h = rw (◌>>=◌, h) refl
