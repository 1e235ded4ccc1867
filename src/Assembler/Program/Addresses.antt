-- ===== src/Assembler/Program/Addresses.antt =====
-- The addresses of both passes of assembler_class.cpp.
use mathlib.Core.Path.{subst}
use frost32_cpu.Prelude.{ℕ, ◌^◌, ◌<◌, ◌≡◌, sym, List, ◌∷◌, false, true, some, get_elem?}
use frost32_cpu.Orange.{Orange, Laws}
use frost32_cpu.Outcome.{ok}
use frost32_cpu.SymbolTable.Shape.{Scope, scopes}
use frost32_cpu.Assembler.{Assembler, M, is_pass_one}
use frost32_cpu.Assembler.Syntax.{Lines}
use frost32_cpu.Assembler.Emits.{Ends, Post}
use frost32_cpu.Assembler.Program.{visit_lines}
use frost32_cpu.Assembler.Program.Leaves.{IsReady}
use frost32_cpu.Assembler.Program.Layout.{IsFixed, Placed, Placed-unique}
use frost32_cpu.Assembler.Program.Blocks.{Follows}
use frost32_cpu.Assembler.Program.First.{visit_lines-Done}
use frost32_cpu.Assembler.Program.First.Steps.{Done}
use frost32_cpu.Assembler.Program.Second.{visit_lines-Walked}

-- What holds after a step that ends.
ended :
    (m : M (Unit {0})) (s t : Assembler) (P : Assembler → Type 0)
    → m s ≡ ok (tt, t)
    → Post m s P
    → P t
ended m s t P e h = subst (λ r. Ends r P) e h.at

module _ (lib : Orange) (laws : Laws lib) (lines : Lines) (s t s' t' : Assembler) where
  -- Lines with no name in a .org or .space, visited from one address of 64 bits on both passes, lead
  -- to one address, whatever else the two states are: on the first pass in a scope of a well-formed
  -- table, on the second in the scope that has the blocks of the lines as its next children.
  pub visit_lines-Placed :
      (x : Scope) (k : ℕ) (rest : List ℕ)
      → is_pass_one s ≡ false
      → is_pass_one t ≡ true
      → IsReady s
      → IsReady t
      → get_elem? (scopes s.sym_tbl) s.curr_scope_node ≡ some x
      → t.scope_child_num_stack ≡ k ∷ rest
      → Follows (scopes t.sym_tbl) t.curr_scope_node k lines
      → IsFixed lines
      → s.pc.curr < 2 ^ 64
      → s.pc.curr ≡ t.pc.curr
      → visit_lines lib lines s ≡ ok (tt, s')
      → visit_lines lib lines t ≡ ok (tt, t')
      → (s'.pc.curr < 2 ^ 64) × (s'.pc.curr ≡ t'.pc.curr)
  visit_lines-Placed x k rest first second r q there stack follows fixed small same e f =
      let (g, _) =
        ended (visit_lines lib lines) s s' (Done lines x s) e
          (visit_lines-Done lib laws lines s x first r there) in
      let w =
        ended (visit_lines lib lines) t t' _ f
          (visit_lines-Walked lib laws lines t k rest second q stack follows) in
      Placed-unique lines s.pc.curr s'.pc.curr t'.pc.curr small fixed g.placed
        (subst (λ a. Placed lines a t'.pc.curr) (sym same) w.placed)
