-- ===== src/Assembler/Program/Total.antt =====
-- When `run` of assembler_class.cpp accepts a program: both passes end where its names, registers and
-- values are found and its labels are distinct within each block.
pub mod Sound
pub mod Names
pub mod Labels
pub mod Seen
pub mod Leaves
pub mod Filled
pub mod First
pub mod Second
use frost32_cpu.Prelude.{ℕ, ◌≡◌, ◌∙◌, refl, ap, String, List, [], ◌∷◌, Bool}
use frost32_cpu.Orange.{Orange, Laws}
use frost32_cpu.Outcome.{ok, bind}
use frost32_cpu.Assembler.{Assembler, assembler}
use frost32_cpu.Assembler.Syntax.{Lines}
use frost32_cpu.Assembler.Program.{visit_lines, run}
use frost32_cpu.Assembler.Program.First.Steps.{Done}
use frost32_cpu.Assembler.Program.Runs.{
  started, begun, begun-IsReady, started_again-IsReady, first-Done, empty_scope, run-visit_lines,
  run-Assembled, Assembled,
}
use frost32_cpu.Assembler.Program.Total.Sound.{labels, IsSound, IsDistinct}
use frost32_cpu.Assembler.Program.Total.Seen.{label-Sees}
use frost32_cpu.Assembler.Program.Total.Leaves.{Ended, Post-at}
use frost32_cpu.Assembler.Program.Total.First.{AllFilled, visit_lines-Filled}
use frost32_cpu.Assembler.Program.Total.Second.{Still, visit_lines-Still}

module _ (lib : Orange) (laws : Laws lib) (lines : Lines) (distinct : IsDistinct [] lines)
    (sound : IsSound (labels lines) lines) (w : Bool) where
  pub first_pass :
      Ended
        (visit_lines lib lines)
        (begun lib laws lines w)
        (AllFilled lines 0 (begun lib laws lines w))
  first_pass =
      visit_lines-Filled lib laws lines (labels lines) [] (begun lib laws lines w)
        (empty_scope lib laws lines) refl (begun-IsReady lib laws lines w) refl sound distinct
        (λ name k e. cc e)

  pub first_pass-Done :
      Done lines (empty_scope lib laws lines) (begun lib laws lines w) first_pass.end
  first_pass-Done =
      Post-at (visit_lines lib lines) (begun lib laws lines w) first_pass.end
        (Done lines (empty_scope lib laws lines) (begun lib laws lines w))
        (first-Done lib laws lines w) first_pass.ends

  pub run-first_pass :
      run lib lines (assembler w) ≡ visit_lines lib lines (started lib 1 1 first_pass.end)
  run-first_pass =
      run-visit_lines lib laws lines w
      ∙ ap (λ r. bind r (λ (u, s). visit_lines lib lines (started lib 1 1 s))) first_pass.ends

  -- The first pass leaves all that the second relies on.
  second_pass :
      Ended
        (visit_lines lib lines)
        (started lib 1 1 first_pass.end)
        (Still (started lib 1 1 first_pass.end))
  second_pass =
      let t = first_pass.end in
      let (filled, seen) = first_pass.at in
      visit_lines-Still lib laws lines (labels lines) (started lib 1 1 t) 0 [] refl
        (started_again-IsReady lib laws lines w t first_pass-Done)
        (ap (λ y. y.scope_child_num_stack) first_pass-Done.0.kept) seen
        (filled.labelled (λ i symbol e. cc e))
        (λ name e. label-Sees t.sym_tbl lines name 1 0 seen e) sound

-- A program whose labels are distinct within each block, and each of whose instructions has a name
-- that the visitor has a token for and the table an opcode, registers of the table, and values on
-- the first pass anyway and on the second wherever the labels of a block and of those around it are
-- known, and so its directives, is accepted in either format: run ends, with the table, the scopes,
-- the stacks and the program counter as it leaves them for every program that it accepts.
pub run-IsSound :
    (lib : Orange) (laws : Laws lib) (lines : Lines) (w : Bool)
    → IsDistinct [] lines
    → IsSound (labels lines) lines
    → (s : Assembler) × ((run lib lines (assembler w) ≡ ok (tt, s)) × Assembled lines s)
run-IsSound lib laws lines w distinct sound =
    let s = (second_pass lib laws lines distinct sound w).end in
    let e =
      run-first_pass lib laws lines distinct sound w
      ∙ (second_pass lib laws lines distinct sound w).ends in
    (
      s,
      (
        e,
        Post-at (run lib lines) (assembler w) s (Assembled lines) (run-Assembled lib laws lines w)
            e,
      ),
    )
