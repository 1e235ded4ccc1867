-- ===== src/Assembler/Program/Total/Leaves.antt =====
-- When the directives of assembler_class.cpp are accepted, and that they, the instructions and the
-- pseudo instructions leave the table of symbols as it is.
use mathlib.Core.Path.{subst}
use frost32_cpu.Prelude.{
  ℕ, ◌%◌, ◌^◌, ◌≡◌, ◌∙◌, refl, ap, sym, List, [], ◌∷◌, ◌+◌, String, length, arith,
}
use frost32_cpu.Prelude.Int.{to_u64}
use frost32_cpu.Orange.{Orange, Laws}
use frost32_cpu.Outcome.{ok}
use frost32_cpu.SymbolTable.Shape.{IsWell}
use frost32_cpu.SymbolTable.Sees.{Sees, AllLabels}
use frost32_cpu.Assembler.{Assembler, M, is_pass_one}
use frost32_cpu.Assembler.Emit.{gen_8, gen_16, gen_32}
use frost32_cpu.Assembler.Emits.{
  Emits, Ends, Post, modify-Post, modify_then-Post, visit_value-Post, weaken-Post, gen_8-Emits,
  gen_16-Emits, gen_32-Emits,
}
use frost32_cpu.Assembler.Syntax.{
  Expr, Instruction, PseudoInstruction, Directive, dot_org, dot_space, dot_db, dot_db16, dot_db8,
}
use frost32_cpu.Assembler.Visit.{visit_instruction}
use frost32_cpu.Assembler.Visit.Accepted.Steps.{
  Accepts, modify-Accepts, modify_then-Accepts, visit_value-Accepts,
}
use frost32_cpu.Assembler.Visit.Accepted.{IsAccepted, visit_instruction-IsAccepted}
use frost32_cpu.Assembler.Pseudo.{visit_pseudo_instruction}
use frost32_cpu.Assembler.Pseudo.Accepted.{PseudoIsAccepted, visit_pseudo_instruction-IsAccepted}
use frost32_cpu.Assembler.Program.{
  set_pc, visit_dot_org, visit_dot_space, visit_data, visit_directive,
}
use frost32_cpu.Assembler.Program.Leaves.{IsReady, IsReady-InScope}
use frost32_cpu.Assembler.Program.Total.Sound.{Knows, AreTotal, IsSoundDirective}

-- A step that ends, and what holds of the state that it ends with.
pub record Ended (m : M (Unit {0})) (s : Assembler) (P : Assembler → Type 0) : Type 0 where
  pub end : Assembler
  pub ends : m s ≡ ok (tt, end)
  pub at : P end

-- What holds wherever a step ends, where it does.
pub Post-at :
    (m : M (Unit {0})) (s t : Assembler) (P : Assembler → Type 0)
    → Post m s P
    → m s ≡ ok (tt, t)
    → P t
Post-at m s t P h e = subst (λ r. Ends r P) e h.at

-- The symbols, the scope and the pass are as they were.
pub record SameTable (s t : Assembler) : Type 0 where
  pub table : t.sym_tbl ≡ s.sym_tbl
  pub scope : t.curr_scope_node ≡ s.curr_scope_node
  pub pass : t.pass ≡ s.pass

SameTable-trans : (s t u : Assembler) → SameTable s t → SameTable t u → SameTable s u
SameTable-trans s t u p q = record {
  table = q.table ∙ p.table;
  scope = q.scope ∙ p.scope;
  pass = q.pass ∙ p.pass;
}

pub Emits-SameTable : (n : ℕ) (s t : Assembler) → Emits n s t → SameTable s t
Emits-SameTable n s t e = record {
  table = ap (λ x. x.sym_tbl) e.kept;
  scope = ap (λ x. x.curr_scope_node) e.kept;
  pass = ap (λ x. x.pass) e.kept;
}

module _ (s t : Assembler) (same : SameTable s t) where
  pub SameTable-IsReady : IsReady s → IsReady t
  SameTable-IsReady r = record {
    well = subst IsWell (sym same.table) r.well;
    in_range = omega (arith, same.scope, ap (λ x. length x.nodes) same.table, r.in_range);
    below_root = λ z. r.below_root (sym same.scope ∙ z);
  }

  pub SameTable-Knows : (names : List String) → Knows names s → Knows names t
  SameTable-Knows names k second =
      let (labels, sees) =
        k (ap (λ p. is_pass_one (record s { pass = p })) (sym same.pass) ∙ second) in
      (
        subst (λ x. AllLabels x.data_pool) (sym same.table) labels,
        (λ name e.
            subst (λ x. Sees x name t.curr_scope_node) (sym same.table)
              (subst (Sees s.sym_tbl name) (sym same.scope) (sees name e))),
      )

module _ (names : List String) where
  visit_data-Accepts :
      (width size : ℕ) (gen : ℕ → Assembler → Assembler) (es : List Expr) (s : Assembler)
      → ((w : ℕ) (t : Assembler) → Emits size t (gen w t))
      → IsReady s
      → Knows names s
      → AreTotal names es
      → Accepts (visit_data width gen es) s
  unfolding visit_data
  visit_data-Accepts width size gen [] s g r k h = record { end = s; ends = refl }
  visit_data-Accepts width size gen (e ∷ es) s g r k (h, hs) =
      let (n, v) = h s r k in
      let t = gen (to_u64 n % 2 ^ width) s in
      let same = Emits-SameTable size s t (g (to_u64 n % 2 ^ width) s) in
      visit_value-Accepts e _ s n (IsReady-InScope s r) v (
        modify_then-Accepts (gen (to_u64 n % 2 ^ width)) (λ _. visit_data width gen es) s
          (visit_data-Accepts width size gen es t g (SameTable-IsReady s t same r)
            (SameTable-Knows s t same names k) hs))

visit_data-SameTable :
    (width size : ℕ) (gen : ℕ → Assembler → Assembler) (es : List Expr) (s : Assembler)
    → ((w : ℕ) (t : Assembler) → Emits size t (gen w t))
    → IsReady s
    → Post (visit_data width gen es) s (SameTable s)
unfolding visit_data
visit_data-SameTable width size gen [] s g r = record {
  at = record { table = refl; scope = refl; pass = refl };
}
visit_data-SameTable width size gen (e ∷ es) s g r =
    visit_value-Post (SameTable s) e _ s (IsReady-InScope s r) (λ n.
      let t = gen (to_u64 n % 2 ^ width) s in
      let same = Emits-SameTable size s t (g (to_u64 n % 2 ^ width) s) in
      modify_then-Post (SameTable s) (gen (to_u64 n % 2 ^ width)) (λ _. visit_data width gen es) s
        (weaken-Post (visit_data width gen es) t (SameTable t) (SameTable s)
          (visit_data-SameTable width size gen es t g (SameTable-IsReady s t same r))
          (λ u q. SameTable-trans s t u same q)))

module _ (lib : Orange) (laws : Laws lib) (names : List String) (s : Assembler)
    (r : IsReady s) where
  visit_directive-Accepts :
      (d : Directive) → Knows names s → IsSoundDirective names d → Accepts (visit_directive lib d) s
  unfolding visit_directive visit_dot_org visit_dot_space
  visit_directive-Accepts (dot_org e) k h =
      let (n, v) = h s r k in
      visit_value-Accepts e _ s n (IsReady-InScope s r) v (modify-Accepts (set_pc (to_u64 n)) s)
  visit_directive-Accepts (dot_space e) k h =
      let (n, v) = h s r k in
      visit_value-Accepts e _ s n (IsReady-InScope s r) v
        (record { end = set_pc ((s.pc.curr + to_u64 n) % 2 ^ 64) s; ends = refl })
  visit_directive-Accepts (dot_db es) k h =
      visit_data-Accepts names 32 4 (gen_32 lib) es s (gen_32-Emits lib laws) r k h
  visit_directive-Accepts (dot_db16 es) k h =
      visit_data-Accepts names 16 2 (gen_16 lib) es s (gen_16-Emits lib laws) r k h
  visit_directive-Accepts (dot_db8 es) k h =
      visit_data-Accepts names 8 1 (gen_8 lib) es s (gen_8-Emits lib laws) r k h

  pub visit_directive-SameTable : (d : Directive) → Post (visit_directive lib d) s (SameTable s)
  unfolding visit_directive visit_dot_org visit_dot_space
  visit_directive-SameTable (dot_org e) =
      visit_value-Post (SameTable s) e _ s (IsReady-InScope s r) (λ n.
        modify-Post (SameTable s) (set_pc (to_u64 n)) s
          (record { table = refl; scope = refl; pass = refl }))
  visit_directive-SameTable (dot_space e) =
      visit_value-Post (SameTable s) e _ s (IsReady-InScope s r)
        (λ n. record { at = record { table = refl; scope = refl; pass = refl } })
  visit_directive-SameTable (dot_db es) =
      visit_data-SameTable 32 4 (gen_32 lib) es s (gen_32-Emits lib laws) r
  visit_directive-SameTable (dot_db16 es) =
      visit_data-SameTable 16 2 (gen_16 lib) es s (gen_16-Emits lib laws) r
  visit_directive-SameTable (dot_db8 es) =
      visit_data-SameTable 8 1 (gen_8 lib) es s (gen_8-Emits lib laws) r

  -- A directive whose expressions have values is accepted.
  pub visit_directive-Ended :
      (d : Directive)
      → Knows names s
      → IsSoundDirective names d
      → Ended (visit_directive lib d) s (SameTable s)
  visit_directive-Ended d k h =
      let a = visit_directive-Accepts d k h in
      record {
        end = a.end;
        ends = a.ends;
        at =
            Post-at (visit_directive lib d) s a.end (SameTable s) (visit_directive-SameTable d)
              a.ends;
      }

  pub visit_instruction-Ended :
      (i : Instruction) → IsAccepted s i → Ended (visit_instruction lib i) s (SameTable s)
  visit_instruction-Ended i h =
      let (t, (e, emits)) = visit_instruction-IsAccepted lib laws s i (IsReady-InScope s r) h in
      record { end = t; ends = e; at = Emits-SameTable 4 s t emits }

  pub visit_pseudo_instruction-Ended :
      (p : PseudoInstruction)
      → PseudoIsAccepted s p
      → Ended (visit_pseudo_instruction lib p) s (SameTable s)
  visit_pseudo_instruction-Ended p h =
      let (t, (e, emits)) =
        visit_pseudo_instruction-IsAccepted lib laws s p (IsReady-InScope s r) h in
      record { end = t; ends = e; at = Emits-SameTable _ s t emits }
