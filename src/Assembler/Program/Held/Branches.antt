-- ===== src/Assembler/Program/Held/Branches.antt =====
-- A branch of the source text to a label, on the second pass of assembler_class.cpp.
use frost32_cpu.Prelude.{ℕ, ◌+◌, ◌%◌, ◌^◌, ◌<◌, ◌≡◌, ◌∙◌, refl, String, true, some, ap}
use frost32_cpu.Prelude.Int.{to_u64, to_s64, to_s16, to_u64-to_s64}
use frost32_cpu.Prelude.Text.{lookup}
use frost32_cpu.Orange.{Orange, Laws}
use frost32_cpu.Outcome.{ok}
use frost32_cpu.Encoding.{encoding_stuff}
use frost32_cpu.SymbolTable.Scopes.{find_iff}
use frost32_cpu.SymbolTable.Addresses.{Holds}
use frost32_cpu.Assembler.{Assembler, is_pass_one}
use frost32_cpu.Assembler.Syntax.{IdentName, grp2_branch}
use frost32_cpu.Assembler.Emit.{gen_32}
use frost32_cpu.Assembler.Groups.Layout.{imm16_sum}
use frost32_cpu.Assembler.Encode.{branch_immediate}
use frost32_cpu.Assembler.Encode.Ranges.{within}
use frost32_cpu.Assembler.Expr.Value.{eval_expr, ident_text}
use frost32_cpu.Assembler.Expr.Steps.{env_of}
use frost32_cpu.Assembler.Visit.{visit_instruction}
use frost32_cpu.Assembler.Visit.Branches.{visit_instruction-target}
use frost32_cpu.Assembler.Program.Leaves.{IsReady}
use frost32_cpu.Assembler.Program.Total.Sound.{text_of}
use frost32_cpu.Assembler.Program.Total.Names.{of_name}

-- A name that a scope holds has its address as its value.
of_name-Holds :
    (i : IdentName) (a : ℕ) (s : Assembler)
    → is_pass_one s ≡ true
    → IsReady s
    → ident_text i ≡ ok (text_of i)
    → Holds s.sym_tbl (text_of i) s.curr_scope_node a
    → eval_expr (env_of s) (of_name i) ≡ ok (to_s64 a)
unfolding eval_expr
of_name-Holds i a s second r e (j, symbol, (v, there, own, same)) =
    let found =
      (find_iff s.sym_tbl (text_of i) s.curr_scope_node j r.well.is_tree r.in_range).1.1 v in
    let label : symbol.found_as_label ≡ true = ap (λ y. y.found_as_label) same in
    let addr : symbol.addr ≡ a = ap (λ y. y.addr) same in
    rw (e, second, found, there, label, addr) refl

-- On the second pass, in a scope below the root of a well-formed table that holds a label with an
-- address of 64 bits, a branch to the label, with an offset that fits 16 bits, is accepted, and the
-- offset in its word, with its sign extended, leads from the following instruction to the address.
pub visit_instruction-label :
    (lib : Orange) (laws : Laws lib) (tok a b : String) (i : IdentName) (opcode j k addr : ℕ)
    (s : Assembler)
    → is_pass_one s ≡ true
    → IsReady s
    → lookup tok encoding_stuff.iog2_branch_map ≡ some opcode
    → lookup a encoding_stuff.reg_names_map ≡ some j
    → lookup b encoding_stuff.reg_names_map ≡ some k
    → ident_text i ≡ ok (text_of i)
    → Holds s.sym_tbl (text_of i) s.curr_scope_node addr
    → addr < 2 ^ 64
    → s.pc.curr < 2 ^ 64
    → within (2 ^ 15) (2 ^ 15) (to_s64 (branch_immediate (to_s64 addr) s.pc.curr)) ≡ true
    → (offset : ℕ) × ((visit_instruction lib (grp2_branch tok a b (of_name i)) s
          ≡ ok (tt, gen_32 lib (imm16_sum 2 j k opcode offset) s))
        × ((s.pc.curr + 4 + to_u64 (to_s16 (offset % 2 ^ 16))) % 2 ^ 64 ≡ addr))
visit_instruction-label lib laws tok a b i opcode j k addr s second r ho ha hb e holds h p w =
    let value = of_name-Holds i addr s second r e holds in
    let (offset, (encoded, reached)) =
      visit_instruction-target lib laws tok a b (of_name i) opcode j k (to_s64 addr) s ho ha hb
        r.well.is_tree r.in_range r.below_root value p w in
    (offset, (encoded, reached ∙ to_u64-to_s64 addr h))
