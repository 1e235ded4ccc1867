-- ===== src/Assembler/Program/Total/Labels.antt =====
-- When `visitLabel` of assembler_class.cpp accepts a label, and what it then does to the table of
-- symbols.
use frost32_cpu.Prelude.{
  ℕ, ◌≡◌, ◌∙◌, refl, ap, List, String, some, true, false, get_elem?, get_elem?-lt, Option-cases,
  inl, inr,
}
use frost32_cpu.Prelude.Text.{lookup, elem}
use frost32_cpu.Outcome.{ok}
use frost32_cpu.SymbolTable.{Node}
use frost32_cpu.SymbolTable.Names.{names_of, table_at}
use frost32_cpu.SymbolTable.Sees.{Defines, define_label-Defines}
use frost32_cpu.Assembler.{Assembler, is_pass_one}
use frost32_cpu.Assembler.Syntax.{IdentName}
use frost32_cpu.Assembler.Expr.Value.{ident_text}
use frost32_cpu.Assembler.Program.{check_duplicate, visit_label}
use frost32_cpu.Assembler.Program.Labels.{check_duplicate-second}
use frost32_cpu.Assembler.Program.Leaves.{IsReady}
use frost32_cpu.Assembler.Program.Leaves.Labels.{visit_label-checked, blklev-node}
use frost32_cpu.Assembler.Program.Total.Sound.{text_of}
use frost32_cpu.Assembler.Program.Total.Leaves.{Ended}

-- Only the table is new, by the definition of a label in the scope of the state.
pub record Defined (name : String) (s t : Assembler) : Type 0 where
  pub kept : t ≡ record s { sym_tbl = t.sym_tbl }
  pub defines : Defines s.curr_scope_node name s.sym_tbl t.sym_tbl

module _ (i : IdentName) (s : Assembler) (r : IsReady s) (e : ident_text i ≡ ok (text_of i)) where
  visit_label-Defined :
      (node : Node)
      → get_elem? s.sym_tbl.nodes s.curr_scope_node ≡ some node
      → check_duplicate (text_of i) (lookup (text_of i) node.table) s ≡ ok (tt, s)
      → Ended (visit_label i) s (Defined (text_of i) s)
  visit_label-Defined node there c =
      let name = text_of i in
      let (made, defined, k, (f, d, how)) =
        define_label-Defines s.sym_tbl s.curr_scope_node s.pc.curr name r.well r.in_range
          r.below_root in
      record {
        end = record s { sym_tbl = defined };
        ends =
            visit_label-checked i name s (lookup name node.table) made defined k e
              (blklev-node s.sym_tbl s.curr_scope_node name node there) c f d;
        at = record { kept = refl; defines = how };
      }

  -- A label is accepted where its scope has no such name.
  pub visit_label-first :
      (seen : List String)
      → ((name : String) (k : ℕ)
          → lookup name (table_at s.sym_tbl s.curr_scope_node) ≡ some k
          → elem name seen ≡ true)
      → elem (text_of i) seen ≡ false
      → Ended (visit_label i) s (Defined (text_of i) s)
  visit_label-first seen h new =
      let (node, there) = get_elem?-lt s.sym_tbl.nodes s.curr_scope_node r.in_range in
      let name = text_of i in
      elim (Option-cases (lookup name node.table)) [
        | inl absent ↦ visit_label-Defined node there (ap (λ o. check_duplicate name o s) absent)
        | inr (k, present) ↦
            let old = h name k (ap (λ n. lookup name (names_of n)) there ∙ present) in cc (old, new)
      ]

  -- On the second pass, a label is accepted.
  pub visit_label-second : is_pass_one s ≡ true → Ended (visit_label i) s (Defined (text_of i) s)
  visit_label-second second =
      let (node, there) = get_elem?-lt s.sym_tbl.nodes s.curr_scope_node r.in_range in
      visit_label-Defined node there (
        check_duplicate-second (text_of i) s second (lookup (text_of i) node.table)
          (λ k f. r.well.pooled s.curr_scope_node node (text_of i) k there f))
