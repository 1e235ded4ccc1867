-- ===== src/Assembler/Visit/Branches.antt =====
-- Branches of the source text, visited as assembler_class.cpp does.
use frost32_cpu.Prelude.{
  ℕ, ◌+◌, ◌%◌, ◌^◌, ◌<◌, ◌≡◌, ◌≢◌, ◌∙◌, length, [], ◌∷◌, String, true, some, arith, ap,
}
use frost32_cpu.Prelude.Int.{ℤ, to_u64, to_s64, to_s16}
use frost32_cpu.Prelude.Text.{lookup, elem}
use frost32_cpu.Orange.{Orange, Laws}
use frost32_cpu.Outcome.{ok, bind}
use frost32_cpu.Encoding.{encoding_stuff}
use frost32_cpu.Encoding.RoundTrip.{Each, Each-lookup}
use frost32_cpu.SymbolTable.Scopes.{IsTree}
use frost32_cpu.Assembler.{Assembler, push_str, pop_str}
use frost32_cpu.Assembler.Syntax.{Expr, grp2_branch}
use frost32_cpu.Assembler.Emit.{gen_32}
use frost32_cpu.Assembler.Groups.Layout.{imm16_sum}
use frost32_cpu.Assembler.Encode.{encode_relative_branch, branch_immediate}
use frost32_cpu.Assembler.Encode.Ranges.{within}
use frost32_cpu.Assembler.Encode.Targets.{encode_relative_branch-target}
use frost32_cpu.Assembler.Expr.Value.{eval_expr}
use frost32_cpu.Assembler.Expr.Steps.{env_of}
use frost32_cpu.Assembler.Expr.Refinement.{visit_expr-eval_expr}
use frost32_cpu.Assembler.Visit.{branch_tokens, visit_grp2_branch, visit_instruction}
use frost32_cpu.Assembler.Visit.Values.{value_then}
use frost32_cpu.Assembler.Visit.Names.{get_reg_encodings-two}

branch_names : Each (λ name opcode. elem name branch_tokens ≡ true) encoding_stuff.iog2_branch_map
branch_names = ground arith

module _ (lib : Orange) where
  visit_grp2_branch-eval_expr :
      (tok a b : String) (e : Expr) (i j : ℕ) (s : Assembler)
      → elem tok branch_tokens ≡ true
      → lookup a encoding_stuff.reg_names_map ≡ some i
      → lookup b encoding_stuff.reg_names_map ≡ some j
      → IsTree s.sym_tbl
      → s.curr_scope_node < length s.sym_tbl.nodes
      → s.curr_scope_node ≢ 0
      → visit_grp2_branch lib tok (a ∷ b ∷ []) e s
        ≡ bind (eval_expr (env_of s) e) (λ n. encode_relative_branch lib tok i j n s)
  unfolding visit_grp2_branch push_str pop_str
  visit_grp2_branch-eval_expr tok a b e i j s he ha hb t c z =
      rw (he, get_reg_encodings-two a b i j ha hb)
        (value_then e (eval_expr (env_of s) e) _ _
          (visit_expr-eval_expr e (record s { str_stack = tok ∷ s.str_stack }) t c z))

  -- A branch of the source whose expression has a value, in a scope below the root of a tree and
  -- with an offset that fits 16 bits, is accepted, and the offset in its word, with its sign
  -- extended, leads from the following instruction to the value of the expression.
  pub visit_instruction-target :
      (laws : Laws lib) (tok a b : String) (e : Expr) (opcode i j : ℕ) (target : ℤ) (s : Assembler)
      → lookup tok encoding_stuff.iog2_branch_map ≡ some opcode
      → lookup a encoding_stuff.reg_names_map ≡ some i
      → lookup b encoding_stuff.reg_names_map ≡ some j
      → IsTree s.sym_tbl
      → s.curr_scope_node < length s.sym_tbl.nodes
      → s.curr_scope_node ≢ 0
      → eval_expr (env_of s) e ≡ ok target
      → s.pc.curr < 2 ^ 64
      → within (2 ^ 15) (2 ^ 15) (to_s64 (branch_immediate target s.pc.curr)) ≡ true
      → (offset : ℕ) × ((visit_instruction lib (grp2_branch tok a b e) s
            ≡ ok (tt, gen_32 lib (imm16_sum 2 i j opcode offset) s))
          × ((s.pc.curr + 4 + to_u64 (to_s16 (offset % 2 ^ 16))) % 2 ^ 64 ≡ to_u64 target))
  unfolding visit_instruction
  visit_instruction-target laws tok a b e opcode i j target s ho ha hb t c z v p w =
      let he =
        Each-lookup (λ name value. elem name branch_tokens ≡ true) encoding_stuff.iog2_branch_map
          branch_names tok opcode ho in
      let (offset, (encoded, reached)) =
        encode_relative_branch-target lib laws tok opcode i j target s ho p w in
      (
        offset,
        (
          visit_grp2_branch-eval_expr tok a b e i j s he ha hb t c z
              ∙ ap (λ r. bind r (λ n. encode_relative_branch lib tok i j n s)) v
              ∙ encoded,
          reached,
        ),
      )
