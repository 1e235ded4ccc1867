-- ===== src/Tests/Labels.antt =====
-- The addresses of labels in assembler_class.cpp, on concrete programs and tables.
use frost32_cpu.Prelude.{
  ℕ, zero, suc, ◌+◌, ◌-◌, ◌%◌, ◌^◌, ◌<◌, ◌≤◌, ◌≡◌, refl, String, [], ◌∷◌, true, some, get_elem?,
  arith,
}
use frost32_cpu.Prelude.Int.{to_u64, to_s16}
use frost32_cpu.Prelude.Text.{lookup}
use frost32_cpu.Outcome.{ok}
use frost32_cpu.SymbolTable.{SymbolTable, Symbol, Node, symbol_table}
use frost32_cpu.SymbolTable.Scopes.{here}
use frost32_cpu.SymbolTable.Addresses.{Holds}
use frost32_cpu.SymbolTable.Shape.{IsWell}
use frost32_cpu.Assembler.{Assembler, assembler}
use frost32_cpu.Assembler.Syntax.{Lines, no_lines, line_then, label, tok_ident, grp2_branch}
use frost32_cpu.Assembler.Emit.{gen_32}
use frost32_cpu.Assembler.Emit.Lines.{at_address}
use frost32_cpu.Assembler.Emits.{Post}
use frost32_cpu.Assembler.Groups.Layout.{imm16_sum}
use frost32_cpu.Assembler.Visit.{visit_instruction}
use frost32_cpu.Assembler.Program.{run, visit_lines}
use frost32_cpu.Assembler.Program.Layout.{IsFixed, Sized-same}
use frost32_cpu.Assembler.Program.Leaves.{IsReady}
use frost32_cpu.Assembler.Program.Held.{Once, AllHold}
use frost32_cpu.Assembler.Program.Held.Second.{SameSymbols, visit_lines-SameSymbols}
use frost32_cpu.Assembler.Program.Held.Runs.{Addressed, run-Addressed}
use frost32_cpu.Assembler.Program.Held.Branches.{visit_instruction-label}
use frost32_cpu.Assembler.Program.Total.Names.{of_name}
use frost32_cpu.Tests.{concrete, concrete-Laws, second_pass}
use frost32_cpu.Tests.Programs.{looping}

looping-Once : Once looping
unfolding Once
looping-Once = (tt, (tt, ((tt, (tt, tt, refl), refl), (tt, tt, refl), refl), refl), refl)

run-Addressed_example : Post (run concrete looping) (assembler true) (Addressed looping)
unfolding IsFixed
run-Addressed_example =
    run-Addressed concrete concrete-Laws looping true looping-Once
      (tt, (tt, ((tt, (tt, tt)), (tt, tt))))

-- A table with one label, at address 0x60 in the outermost scope.
abbrev done : Symbol
done = record { name = "done"; addr = 0x60; found_as_label = true }

abbrev with_label : SymbolTable
with_label = record symbol_table {
  nodes =
      record { table = []; parent = 0; children = 1 ∷ [] }
      ∷ record { table = ("done", 0) ∷ []; parent = 0; children = [] }
      ∷ [];
  data_pool = done ∷ [];
}

with_label-IsWell : IsWell with_label
with_label-IsWell = record {
  is_tree = λ p node e. first_parents p node e;
  pooled = λ p node name i e f. one_symbol p node name i e f;
  counted = (0, refl);
}
  where
    first_parents :
        (p : ℕ) (node : Node) → get_elem? with_label.nodes p ≡ some node → node.parent ≤ p - 1
    first_parents zero node e = ground arith
    first_parents (suc zero) node e = ground arith
    first_parents (suc (suc p)) node e = cc

    one_symbol :
        (p : ℕ) (node : Node) (name : String) (i : ℕ)
        → get_elem? with_label.nodes p ≡ some node
        → lookup name node.table ≡ some i
        → i < 1
    one_symbol zero node name i e f = ground (arith, e, f)
    one_symbol (suc zero) node name i e f = ground (arith, e, f)
    one_symbol (suc (suc p)) node name i e f = cc

done-Holds : Holds with_label "done" 1 0x60
done-Holds = (0, done, (here 1 _ (λ z. absurd (omega (arith, z))) refl refl, refl, refl, refl))

-- The outermost scope of the second pass, at an address.
abbrev at : ℕ → Assembler
at a = record second_pass {
  sym_tbl = with_label;
  curr_scope_node = 1;
  scope_child_num_stack = 0 ∷ [];
  pc = at_address a;
}

at-IsReady : (a : ℕ) → IsReady (at a)
at-IsReady a = record {
  well = with_label-IsWell;
  in_range = omega arith;
  below_root = λ z. absurd (omega (arith, z));
}

abbrev only_done : Lines
only_done = line_then (label (tok_ident "done")) no_lines

visit_lines-SameSymbols_example :
    Post (visit_lines concrete only_done) (at 0x60) (SameSymbols (at 0x60))
unfolding AllHold IsFixed
visit_lines-SameSymbols_example =
    visit_lines-SameSymbols concrete concrete-Laws only_done (at 0x60) 0 0x60 [] refl
      (at-IsReady 0x60) refl (omega arith) (tt, tt)
      (0x60, (Sized-same 0x60, done-Holds), Sized-same 0x60)

visit_instruction-label_example :
    (offset : ℕ) × ((visit_instruction concrete
          (grp2_branch "bne" "u0" "u1" (of_name (tok_ident "done")))
          (at 0x40)
        ≡ ok (tt, gen_32 concrete (imm16_sum 2 1 2 0 offset) (at 0x40)))
      × ((0x40 + 4 + to_u64 (to_s16 (offset % 2 ^ 16))) % 2 ^ 64 ≡ 0x60))
visit_instruction-label_example =
    visit_instruction-label concrete concrete-Laws "bne" "u0" "u1" (tok_ident "done") 0 1 2 0x60
      (at 0x40) refl (at-IsReady 0x40) refl refl refl refl done-Holds (omega arith) (omega arith)
      refl
