-- ===== src/Assembler/Program/Held/Runs.antt =====
-- The labels of a program after both passes of `run` in assembler_class.cpp.
use mathlib.Core.Path.{subst}
use frost32_cpu.Prelude.{zero, suc, ◌^◌, ◌<◌, ◌≡◌, refl, ap, sym, [], Bool, arith}
use frost32_cpu.Orange.{Orange, Laws}
use frost32_cpu.SymbolTable.{symbol_table}
use frost32_cpu.SymbolTable.Addresses.{IsNamed}
use frost32_cpu.Assembler.{Assembler, assembler}
use frost32_cpu.Assembler.Syntax.{Lines}
use frost32_cpu.Assembler.Emits.{Post, weaken-Post}
use frost32_cpu.Assembler.Program.{visit_lines, run}
use frost32_cpu.Assembler.Program.Layout.{Placed, IsFixed, Placed-unique}
use frost32_cpu.Assembler.Program.First.Steps.{Done}
use frost32_cpu.Assembler.Program.Second.{visit_lines-Walked}
use frost32_cpu.Assembler.Program.Runs.{
  started, begun, begun-IsReady, empty_scope, first-Done, started_again-IsReady, run-Post,
  backed_up,
}
use frost32_cpu.Assembler.Program.Held.{Once, AllHold, AllHold-Follows, AllHold-Placed}
use frost32_cpu.Assembler.Program.Held.First.{Held, both-Post, visit_lines-Held}
use frost32_cpu.Assembler.Program.Held.Second.{SameSymbols, visit_lines-SameSymbols}

pub symbol_table-IsNamed : IsNamed symbol_table
symbol_table-IsNamed zero node name i e f = ground (arith, e, f)
symbol_table-IsNamed (suc zero) node name i e f = ground (arith, e, f)
symbol_table-IsNamed (suc (suc p)) node name i e f = cc

-- In the outermost scope, from address 0 to the program counter, each label stands for the address
-- where it is.
abbrev pub Addressed : Lines → Assembler → Type 0
Addressed lines s = AllHold s.sym_tbl 1 0 lines 0 s.pc.curr

module _ (lib : Orange) (laws : Laws lib) (lines : Lines) (once : Once lines)
    (fixed : IsFixed lines) where
  abbrev FirstHeld : Bool → Assembler → Type 0
  FirstHeld w s =
      Done lines (empty_scope lib laws lines) (begun lib laws lines w) s
      × Held lines 0 (begun lib laws lines w) s

  first-Held : (w : Bool) → Post (visit_lines lib lines) (begun lib laws lines w) (FirstHeld w)
  first-Held w =
      let s = begun lib laws lines w in
      both-Post (visit_lines lib lines) s (Done lines (empty_scope lib laws lines) s)
        (Held lines 0 s) (first-Done lib laws lines w)
        (visit_lines-Held lib laws lines s (empty_scope lib laws lines) refl
          (begun-IsReady lib laws lines w) refl symbol_table-IsNamed once)

  second-Addressed :
      (w : Bool) (s : Assembler)
      → FirstHeld w s
      → Post (visit_lines lib lines) (started lib 1 1 s) (Addressed lines)
  second-Addressed w s (done, (n, touched, held)) =
      let again = started lib 1 1 s in
      let zero_again : again.pc.curr ≡ 0 = backed_up lib laws lines s.pc in
      let small : again.pc.curr < 2 ^ 64 = omega (arith, zero_again) in
      let stack = ap (λ y. y.scope_child_num_stack) done.0.kept in
      let ready = started_again-IsReady lib laws lines w s done in
      let from_zero : AllHold s.sym_tbl 1 0 lines 0 s.pc.curr =
        subst (λ a. AllHold s.sym_tbl 1 0 lines a s.pc.curr)
          (backed_up lib laws lines (assembler w).pc) held in
      let h = subst (λ a. AllHold s.sym_tbl 1 0 lines a s.pc.curr) (sym zero_again) from_zero in
      weaken-Post (visit_lines lib lines) again _ (Addressed lines)
        (both-Post (visit_lines lib lines) again _ (SameSymbols again)
          (visit_lines-Walked lib laws lines again 0 [] refl ready stack
            (AllHold-Follows s.sym_tbl lines 1 0 0 s.pc.curr from_zero))
          (visit_lines-SameSymbols lib laws lines again 0 s.pc.curr [] refl ready stack small fixed
            h))
        (λ t (v, same).
          let placed = subst (λ a. Placed lines a t.pc.curr) zero_again v.placed in
          let (_, there) =
            Placed-unique lines 0 s.pc.curr t.pc.curr (omega arith) fixed
              (AllHold-Placed s.sym_tbl lines 1 0 0 s.pc.curr from_zero) placed in
          subst (λ c. AllHold t.sym_tbl 1 0 lines 0 c) there
            (subst (λ u. AllHold u 1 0 lines 0 s.pc.curr) (sym same) from_zero))

-- Where run ends from the constructor on, for a program in which no label stands twice and no name
-- stands in a .org or .space, each label of the program stands for the address where it is, in the
-- scope of its block, and the addresses are those of the lines one after the other from 0 to the
-- program counter.
pub run-Addressed :
    (lib : Orange) (laws : Laws lib) (lines : Lines) (w : Bool)
    → Once lines
    → IsFixed lines
    → Post (run lib lines) (assembler w) (Addressed lines)
run-Addressed lib laws lines w once fixed =
    run-Post lib laws lines w _ (Addressed lines) (first-Held lib laws lines once fixed w)
      (second-Addressed lib laws lines once fixed w)
