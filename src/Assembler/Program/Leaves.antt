-- ===== src/Assembler/Program/Leaves.antt =====
-- What the lines of a program that open no scope do to the state in assembler_class.cpp: directives,
-- labels, instructions and pseudo instructions, on either pass.
pub mod Labels
use mathlib.Core.Path.{subst}
use frost32_cpu.Prelude.{
  ℕ, ◌+◌, ◌%◌, ◌^◌, ◌<◌, ◌≡◌, ◌≢◌, ◌∙◌, refl, ap, sym, List, [], ◌∷◌, false, length, arith,
}
use frost32_cpu.Prelude.Int.{to_u64, to_u64-lt}
use frost32_cpu.Orange.{Orange, Laws}
use frost32_cpu.SymbolTable.Shape.{IsWell, scopes, scope_of, length-map}
use frost32_cpu.Assembler.{Assembler, is_pass_one}
use frost32_cpu.Assembler.Syntax.{Expr, Directive, dot_org, dot_space, dot_db, dot_db16, dot_db8}
use frost32_cpu.Assembler.Emit.{gen_8, gen_16, gen_32}
use frost32_cpu.Assembler.Emits.{
  modify_then-Post, Emits, Post, InScope, gen_8-Emits, gen_16-Emits, gen_32-Emits, modify-Post,
  visit_value-Post, valued-Post, weaken-Post,
}
use frost32_cpu.Assembler.Expr.Steps.{env_of}
use frost32_cpu.Assembler.Expr.Nameless.{eval_expr-at_pc}
use frost32_cpu.Assembler.Program.Layout.{
  Sized, Sized-same, Sized-trans, data_size, DirectivePlaced,
}
use frost32_cpu.Assembler.Program.{
  set_pc, visit_dot_org, visit_dot_space, visit_data, visit_directive,
}

-- A well-formed table, with the scope one below the root.
pub record IsReady (s : Assembler) : Type 0 where
  pub well : IsWell s.sym_tbl
  pub in_range : s.curr_scope_node < length s.sym_tbl.nodes
  pub below_root : s.curr_scope_node ≢ 0

pub IsReady-InScope : (s : Assembler) → IsReady s → InScope s
IsReady-InScope s r = (r.well.is_tree, r.in_range, r.below_root)

-- What a line may change of the state.
abbrev pub changed : Assembler → Assembler → Assembler
changed u s = record s { sym_tbl = u.sym_tbl; pc = u.pc; out = u.out; warnings = u.warnings }

-- A line that opens no scope keeps the scopes of the table, its invariant and all of the state but
-- the symbols, the program counter and the output, and outputs nothing on the first pass.
pub record Leaves (R : ℕ → ℕ → Type 0) (s s' : Assembler) : Type 0 where
  pub kept : s' ≡ changed s' s
  pub well : IsWell s'.sym_tbl
  pub shape : scopes s'.sym_tbl ≡ scopes s.sym_tbl
  pub bounded : s.pc.curr < 2 ^ 64 → s'.pc.curr < 2 ^ 64
  pub placed : R s.pc.curr s'.pc.curr
  pub quiet : is_pass_one s ≡ false → (s'.out ≡ s.out) × (s'.warnings ≡ s.warnings)

pub Emits-Leaves : (n : ℕ) (s s' : Assembler) → IsReady s → Emits n s s' → Leaves (Sized n) s s'
Emits-Leaves n s s' r e =
    let table : s'.sym_tbl ≡ s.sym_tbl = ap (λ x. x.sym_tbl) e.kept in
    record {
      kept =
          e.kept
          ∙ ap (λ t. record s { sym_tbl = t; pc = s'.pc; out = s'.out; warnings = s'.warnings })
              (sym table);
      well = subst IsWell (sym table) r.well;
      shape = ap scopes table;
      bounded = e.bounded;
      placed = λ h. (e.bounded h, omega (arith, e.bounded h, e.counted));
      quiet = e.quiet;
    }

pub Leaves-same : (s : Assembler) → IsReady s → Leaves (Sized 0) s s
Leaves-same s r = record {
  kept = refl;
  well = r.well;
  shape = refl;
  bounded = λ h. h;
  placed = Sized-same s.pc.curr;
  quiet = λ h. (refl, refl);
}

pub Leaves-trans :
    (m n : ℕ) (s t u : Assembler)
    → Leaves (Sized m) s t
    → Leaves (Sized n) t u
    → Leaves (Sized (m + n)) s u
Leaves-trans m n s t u p q = record {
  kept = q.kept ∙ ap (changed u) p.kept;
  well = q.well;
  shape = q.shape ∙ p.shape;
  bounded = λ h. q.bounded (p.bounded h);
  placed = Sized-trans m n _ _ _ p.placed q.placed;
  quiet = λ h.
      let (o, w) = p.quiet h in
      let (o', w') = q.quiet (ap is_pass_one p.kept ∙ h) in (o' ∙ o, w' ∙ w);
}

set_pc-Leaves :
    (R : ℕ → ℕ → Type 0) (n : ℕ) (s : Assembler)
    → n < 2 ^ 64
    → R s.pc.curr n
    → IsReady s
    → Leaves R s (set_pc n s)
set_pc-Leaves R n s h q r = record {
  kept = refl;
  well = r.well;
  shape = refl;
  bounded = λ p. h;
  placed = q;
  quiet = λ p. (refl, refl);
}

visit_dot_org-Post :
    (e : Expr) (s : Assembler)
    → IsReady s
    → Post (visit_dot_org e) s (Leaves (DirectivePlaced (dot_org e)) s)
unfolding visit_dot_org
visit_dot_org-Post e s r =
    let R = DirectivePlaced (dot_org e) in
    valued-Post (Leaves R s) e _ s (IsReady-InScope s r) (λ n v.
      modify-Post (Leaves R s) (set_pc (to_u64 n)) s (
        set_pc-Leaves R (to_u64 n) s (to_u64-lt n)
          (n, (λ h. eval_expr-at_pc (env_of s) e h n v, refl)) r))

pub Leaves-IsReady :
    (R : ℕ → ℕ → Type 0) (s s' : Assembler) → IsReady s → Leaves R s s' → IsReady s'
Leaves-IsReady R s s' r l =
    let scope : s'.curr_scope_node ≡ s.curr_scope_node = ap (λ x. x.curr_scope_node) l.kept in
    let size : length s'.sym_tbl.nodes ≡ length s.sym_tbl.nodes =
      sym (length-map scope_of s'.sym_tbl.nodes)
      ∙ ap (length) l.shape
      ∙ length-map scope_of s.sym_tbl.nodes in
    record {
      well = l.well;
      in_range = omega (arith, scope, size, r.in_range);
      below_root = λ z. r.below_root (sym scope ∙ z);
    }

visit_dot_space-Post :
    (e : Expr) (s : Assembler)
    → IsReady s
    → Post (visit_dot_space e) s (Leaves (DirectivePlaced (dot_space e)) s)
unfolding visit_dot_space
visit_dot_space-Post e s r =
    let R = DirectivePlaced (dot_space e) in
    valued-Post (Leaves R s) e _ s (IsReady-InScope s r) (λ n v. record {
      at =
          set_pc-Leaves R ((s.pc.curr + to_u64 n) % 2 ^ 64) s (omega arith)
            (n, (λ h. eval_expr-at_pc (env_of s) e h n v, refl)) r;
    })

visit_data-Post :
    (width size : ℕ) (gen : ℕ → Assembler → Assembler) (es : List Expr) (s : Assembler)
    → ((w : ℕ) (t : Assembler) → IsReady t → Leaves (Sized size) t (gen w t))
    → IsReady s
    → Post (visit_data width gen es) s (Leaves (Sized (data_size size es)) s)
unfolding visit_data
visit_data-Post width size gen [] s g r = record { at = Leaves-same s r }
visit_data-Post width size gen (e ∷ es) s g r =
    let rest = data_size size es in
    let P = Leaves (Sized (size + rest)) s in
    visit_value-Post P e _ s (IsReady-InScope s r) (λ n.
      let t = gen (to_u64 n % 2 ^ width) s in
      let l = g (to_u64 n % 2 ^ width) s r in
      modify_then-Post P (gen (to_u64 n % 2 ^ width)) (λ x. visit_data width gen es) s
        (weaken-Post (visit_data width gen es) t (Leaves (Sized rest) t) P
          (visit_data-Post width size gen es t g (Leaves-IsReady (Sized size) s t r l))
          (λ u q. Leaves-trans size rest s t u l q)))

module _ (lib : Orange) (laws : Laws lib) where
  pub visit_directive-Post :
      (d : Directive) (s : Assembler)
      → IsReady s
      → Post (visit_directive lib d) s (Leaves (DirectivePlaced d) s)
  unfolding visit_directive
  visit_directive-Post (dot_org e) s r = visit_dot_org-Post e s r
  visit_directive-Post (dot_space e) s r = visit_dot_space-Post e s r
  visit_directive-Post (dot_db es) s r =
      visit_data-Post 32 4 (gen_32 lib) es s
        (λ w t q. Emits-Leaves 4 t (gen_32 lib w t) q (gen_32-Emits lib laws w t)) r
  visit_directive-Post (dot_db16 es) s r =
      visit_data-Post 16 2 (gen_16 lib) es s
        (λ w t q. Emits-Leaves 2 t (gen_16 lib w t) q (gen_16-Emits lib laws w t)) r
  visit_directive-Post (dot_db8 es) s r =
      visit_data-Post 8 1 (gen_8 lib) es s
        (λ w t q. Emits-Leaves 1 t (gen_8 lib w t) q (gen_8-Emits lib laws w t)) r
