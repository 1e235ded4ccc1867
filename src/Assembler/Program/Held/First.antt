-- ===== src/Assembler/Program/Held/First.antt =====
-- The first pass of `run` in assembler_class.cpp: each label gets the address where it stands.
use mathlib.Core.Path.{subst}
use frost32_cpu.Prelude.{
  ℕ, ◌+◌, ◌≡◌, ◌∙◌, refl, ap, sym, List, [], ◌++◌, String, Bool-cases, inl, inr, false, some,
  length, get_elem?, length-append, arith,
}
use frost32_cpu.Prelude.Text.{elem, elem-left, elem-right}
use frost32_cpu.Orange.{Orange, Laws}
use frost32_cpu.Outcome.{Outcome, ok, exits, uncaught, undefined}
use frost32_cpu.SymbolTable.{SymbolTable}
use frost32_cpu.SymbolTable.Addresses.{
  IsNamed, Untouched, Untouched-same, Untouched-trans, Untouched-more, Places, define_label-Places,
  Opens-Untouched, Opens-IsNamed,
}
use frost32_cpu.SymbolTable.Shape.{Scope, scopes, scope_of, length-map}
use frost32_cpu.SymbolTable.Forest.{Grows-Extends, with_more, with_block-new, with_block-length}
use frost32_cpu.Assembler.{Assembler, M, is_pass_one}
use frost32_cpu.Assembler.Emits.{
  Emits, Ends, Post, then-Post, weaken-Post, exact_then-Post, exact-Post,
}
use frost32_cpu.Assembler.Expr.Value.{ident_text}
use frost32_cpu.Assembler.Syntax.{
  IdentName, tok_ident, instr_name, pseudo_instr_name, tok_reg, tok_pc_reg, tok_ireta_reg,
  tok_idsta_reg, Line, scoped_lines, label, instruction, pseudo_instruction, directive, blank,
  Lines, no_lines, line_then,
}
use frost32_cpu.Assembler.Tokens.{instr_names, pseudo_instr_names}
use frost32_cpu.Assembler.Visit.{visit_instruction}
use frost32_cpu.Assembler.Visit.Sizes.{visit_instruction-Post}
use frost32_cpu.Assembler.Pseudo.{visit_pseudo_instruction}
use frost32_cpu.Assembler.Pseudo.Sizes.{pseudo_size, visit_pseudo_instruction-Post}
use frost32_cpu.Assembler.Program.{visit_label, enter_scope, leave_scope, visit_line, visit_lines}
use frost32_cpu.Assembler.Program.Blocks.{block, blocks}
use frost32_cpu.Assembler.Program.Layout.{Sized, Sized-same, LinePlaced, Placed}
use frost32_cpu.Assembler.Program.Leaves.{IsReady, IsReady-InScope}
use frost32_cpu.Assembler.Program.Leaves.Labels.{
  after_check, after_check-steps, visit_label-after_check,
}
use frost32_cpu.Assembler.Program.First.Steps.{
  in_scope, Grown, Grown-IsReady, LineDone, Done, empty, inner, enter_scope-first, entered-IsReady,
  left_block, block_IsChild,
}
use frost32_cpu.Assembler.Program.First.{visit_line-Done, visit_lines-Done}
use frost32_cpu.Assembler.Program.Total.Sound.{text_of}
use frost32_cpu.Assembler.Program.Total.Leaves.{
  SameTable, Emits-SameTable, visit_directive-SameTable,
}
use frost32_cpu.Assembler.Program.Total.First.{enter_scope-Opens}
use frost32_cpu.Assembler.Program.Held.{
  line_names, names, Apart, are_apart-Apart, LineOnce, Once, LineHolds, AllHold,
  LineHolds-Untouched,
}

-- What holds by two arguments wherever a step ends.
pub both-Post :
    (m : M (Unit {0})) (s : Assembler) (P Q : Assembler → Type 0)
    → Post m s P
    → Post m s Q
    → Post m s (λ t. P t × Q t)
both-Post m s P Q p q = record { at = both (m s) p.at q.at }
  where
    both : (r : Outcome (Unit {0} × Assembler)) → Ends r P → Ends r Q → Ends r (λ t. P t × Q t)
    both (ok (u, t)) h k = (h, k)
    both (exits e) h k = tt
    both uncaught h k = tt
    both undefined h k = tt

-- The text of a name, where it is a text.
pub ident_text-text_of : (i : IdentName) (name : String) → ident_text i ≡ ok name → text_of i ≡ name
ident_text-text_of (tok_ident n) name e = cc
ident_text-text_of (instr_name n) name e = elim (Bool-cases (elem n instr_names)) [
  | inl h ↦ ground (arith, h, e)
  | inr h ↦ ground (arith, h, e)
]
ident_text-text_of (pseudo_instr_name n) name e = elim (Bool-cases (elem n pseudo_instr_names)) [
  | inl h ↦ ground (arith, h, e)
  | inr h ↦ ground (arith, h, e)
]
ident_text-text_of (tok_reg n) name e = cc
ident_text-text_of (tok_pc_reg n) name e = cc
ident_text-text_of (tok_ireta_reg n) name e = cc
ident_text-text_of (tok_idsta_reg n) name e = cc

-- A label is placed at the program counter.
visit_label-Places :
    (i : IdentName) (s : Assembler)
    → IsReady s
    → IsNamed s.sym_tbl
    → Post (visit_label i) s (λ t.
      (t ≡ record s { sym_tbl = t.sym_tbl })
      × Places s.curr_scope_node (text_of i) s.pc.curr s.sym_tbl t.sym_tbl)
visit_label-Places i s r n = visit_label-after_check i s _ (λ name e.
    let (made, u, k, (f, d, places)) =
      define_label-Places s.sym_tbl s.curr_scope_node s.pc.curr name r.well n r.in_range
        r.below_root in
    exact-Post (after_check name s) s (record s { sym_tbl = u }) _
      (after_check-steps name s made u k f d)
      (
        refl,
        subst (λ x. Places s.curr_scope_node x s.pc.curr s.sym_tbl u)
            (sym (ident_text-text_of i name e)) places,
      ))

-- What a line, or some lines, leave in the table on the first pass.
abbrev pub LineHeld : Line → ℕ → Assembler → Assembler → Type 0
LineHeld line k s t =
    IsNamed t.sym_tbl
    × Untouched (line_names line) s.sym_tbl t.sym_tbl
    × LineHolds t.sym_tbl s.curr_scope_node k line s.pc.curr t.pc.curr

abbrev pub Held : Lines → ℕ → Assembler → Assembler → Type 0
Held lines k s t =
    IsNamed t.sym_tbl
    × Untouched (names lines) s.sym_tbl t.sym_tbl
    × AllHold t.sym_tbl s.curr_scope_node k lines s.pc.curr t.pc.curr

same_Held :
    (line : Line) (k : ℕ) (s t : Assembler)
    → IsNamed s.sym_tbl
    → SameTable s t
    → LineHolds t.sym_tbl s.curr_scope_node k line s.pc.curr t.pc.curr
    → LineHeld line k s t
same_Held line k s t n same h = (
  subst IsNamed (sym same.table) n,
  subst (Untouched (line_names line) s.sym_tbl) (sym same.table)
      (Untouched-same (line_names line) s.sym_tbl),
  h,
)

-- Lines after a line.
lines_Held :
    (line : Line) (lines : Lines) (s t u : Assembler) (x : Scope) (added : List ℕ)
    → Apart (line_names line) (names lines)
    → Grown (LinePlaced line) (block line) s t
    → Grown (Placed lines) (blocks lines) t u
    → length added ≡ block line
    → LineHeld line (length x.children) s t
    → Held lines (length (x.children ++ added)) t u
    → Held (line_then line lines) (length x.children) s u
unfolding LineHolds line_names
lines_Held line lines s t u x added apart g g' size (_, a, h) (n, b, hs) =
    let scope : t.curr_scope_node ≡ s.curr_scope_node = ap (λ y. y.curr_scope_node) g.kept in
    let count : length (x.children ++ added) ≡ length x.children + block line =
      length-append x.children added ∙ ap (λ n. length x.children + n) size in
    let extends = Grows-Extends t.curr_scope_node (blocks lines) _ _ g'.grows in
    let p = s.curr_scope_node in
    let all = line_names line ++ names lines in
    (
      n,
      Untouched-trans all s.sym_tbl t.sym_tbl u.sym_tbl
          (Untouched-more (line_names line) all s.sym_tbl t.sym_tbl (absent_left line lines) a)
          (Untouched-more (names lines) all t.sym_tbl u.sym_tbl (absent_right line lines) b),
      (
        t.pc.curr,
        LineHolds-Untouched (names lines) t.sym_tbl u.sym_tbl b extends line p (length x.children)
            s.pc.curr t.pc.curr apart h,
        subst (λ k. AllHold u.sym_tbl p k lines t.pc.curr u.pc.curr) count
            (subst
              (λ p. AllHold u.sym_tbl p (length (x.children ++ added)) lines t.pc.curr u.pc.curr)
              scope hs),
      ),
    )
  where
    absent_left :
        (line : Line) (lines : Lines) (name : String)
        → elem name (line_names line ++ names lines) ≡ false
        → elem name (line_names line) ≡ false
    absent_left line lines name h = elim (Bool-cases (elem name (line_names line))) [
      | inl e ↦ cc (h, elem-left name (line_names line) (names lines) e)
      | inr e ↦ e
    ]

    absent_right :
        (line : Line) (lines : Lines) (name : String)
        → elem name (line_names line ++ names lines) ≡ false
        → elem name (names lines) ≡ false
    absent_right line lines name h = elim (Bool-cases (elem name (names lines))) [
      | inl e ↦ cc (h, elem-right name (line_names line) (names lines) e)
      | inr e ↦ e
    ]

module _ (lib : Orange) (laws : Laws lib) where
  -- A line that opens no scope and is no label.
  leaf :
      (line : Line) (s : Assembler) (x : Scope)
      → is_pass_one s ≡ false
      → IsReady s
      → get_elem? (scopes s.sym_tbl) s.curr_scope_node ≡ some x
      → IsNamed s.sym_tbl
      → ((t : SymbolTable) (a b : ℕ)
          → LinePlaced line a b
          → LineHolds t s.curr_scope_node (length x.children) line a b)
      → Post (visit_line lib line) s (SameTable s)
      → Post (visit_line lib line) s (LineHeld line (length x.children) s)
  leaf line s x first r there n h p =
      weaken-Post (visit_line lib line) s _ (LineHeld line (length x.children) s)
        (both-Post (visit_line lib line) s (SameTable s) (LineDone line x s) p
          (visit_line-Done lib laws line s x first r there))
        (λ t (same, (g, _)).
          same_Held line (length x.children) s t n same (h t.sym_tbl s.pc.curr t.pc.curr g.placed))

  mutual
    unfolding visit_line LineOnce LineHolds line_names LinePlaced

    visit_line-Held :
        (line : Line) (s : Assembler) (x : Scope)
        → is_pass_one s ≡ false
        → IsReady s
        → get_elem? (scopes s.sym_tbl) s.curr_scope_node ≡ some x
        → IsNamed s.sym_tbl
        → LineOnce line
        → Post (visit_line lib line) s (LineHeld line (length x.children) s)
    visit_line-Held (scoped_lines lines) s x first r there n once =
        let p = s.curr_scope_node in
        let c = length (scopes s.sym_tbl) in
        let (u, (e, w, shape)) = enter_scope-first s first x r.well there in
        let into : Assembler = inner u s in
        let opens = enter_scope-Opens s u first r e in
        let new = ap (λ g. get_elem? g c) shape ∙ with_block-new (scopes s.sym_tbl) p x there in
        let r' = entered-IsReady s u x r there w shape in
        let size : length u.nodes ≡ length s.sym_tbl.nodes + 1 = omega (
          arith,
          length-map scope_of u.nodes,
          length-map scope_of s.sym_tbl.nodes,
          ap (length) shape,
          with_block-length (scopes s.sym_tbl) p x there,
        ) in
        exact_then-Post enter_scope _ s into (LineHeld (scoped_lines lines) (length x.children) s) e
          (then-Post (visit_lines lib lines) (λ _. leave_scope) into _
            (LineHeld (scoped_lines lines) (length x.children) s)
            (both-Post (visit_lines lib lines) into (Done lines (empty p) into) (Held lines 0 into)
              (visit_lines-Done lib laws lines into (empty p) first r' new)
              (visit_lines-Held lines into (empty p) first r' new
                (Opens-IsNamed s.sym_tbl u opens size n) once))
            (λ t ((g, _), (m, touched, h)).
              exact-Post leave_scope t (in_scope p t) _
                (left_block lines s t u x first r there w shape g)
                (
                  m,
                  Untouched-trans (names lines) s.sym_tbl u t.sym_tbl
                      (Untouched-more [] (names lines) s.sym_tbl u (λ name k. refl)
                        (Opens-Untouched s.sym_tbl u opens))
                      touched,
                  (c, block_IsChild lines s t u x first r there w shape g, h),
                )))
    visit_line-Held (label i) s x first r there n once =
        weaken-Post (visit_label i) s _ (LineHeld (label i) (length x.children) s)
          (visit_label-Places i s r n)
          (λ t (kept, places). (
            places.named,
            places.untouched,
            (
              subst (λ y. Sized 0 s.pc.curr y) (sym (ap (λ y. y.pc.curr) kept))
                  (Sized-same s.pc.curr),
              places.holds,
            ),
          ))
    visit_line-Held (instruction i) s x first r there n once =
        leaf (instruction i) s x first r there n (λ t a b h. h)
          (weaken-Post (visit_instruction lib i) s (λ t. Emits 4 s t) (SameTable s)
            (visit_instruction-Post lib laws s (IsReady-InScope s r) i) (Emits-SameTable 4 s))
    visit_line-Held (pseudo_instruction p) s x first r there n once =
        leaf (pseudo_instruction p) s x first r there n (λ t a b h. h)
          (weaken-Post (visit_pseudo_instruction lib p) s (λ t. Emits (pseudo_size p) s t)
            (SameTable s) (visit_pseudo_instruction-Post lib laws s (IsReady-InScope s r) p)
            (Emits-SameTable (pseudo_size p) s))
    visit_line-Held (directive d) s x first r there n once =
        leaf (directive d) s x first r there n (λ t a b h. h)
          (visit_directive-SameTable lib laws [] s r d)
    visit_line-Held blank s x first r there n once =
        leaf blank s x first r there n (λ t a b h. h)
          (record { at = record { table = refl; scope = refl; pass = refl } })

    -- Where the visit of lines ends on the first pass, in a scope of a well-formed table in which
    -- each name stands for a symbol with this name, and no label stands twice in the lines, each
    -- label stands for the address where it is, in the scope of its block.
    pub visit_lines-Held :
        (lines : Lines) (s : Assembler) (x : Scope)
        → is_pass_one s ≡ false
        → IsReady s
        → get_elem? (scopes s.sym_tbl) s.curr_scope_node ≡ some x
        → IsNamed s.sym_tbl
        → Once lines
        → Post (visit_lines lib lines) s (Held lines (length x.children) s)
    visit_lines-Held no_lines s x first r there n once = record {
      at = (n, Untouched-same [] s.sym_tbl, Sized-same s.pc.curr);
    }
    visit_lines-Held (line_then line lines) s x first r there n (once, onces, apart) =
        then-Post (visit_line lib line) (λ _. visit_lines lib lines) s _
          (Held (line_then line lines) (length x.children) s)
          (both-Post (visit_line lib line) s (LineDone line x s)
            (LineHeld line (length x.children) s) (visit_line-Done lib laws line s x first r there)
            (visit_line-Held line s x first r there n once))
          (λ t ((g, _), h).
            let (added, (size, there')) = g.grows.more x there in
            let y = with_more x added in
            let first' = ap is_pass_one g.kept ∙ first in
            let r' = Grown-IsReady (LinePlaced line) (block line) s t r g in
            let there'' =
              ap (get_elem? (scopes t.sym_tbl)) (ap (λ y. y.curr_scope_node) g.kept) ∙ there' in
            weaken-Post (visit_lines lib lines) t _
              (Held (line_then line lines) (length x.children) s)
              (both-Post (visit_lines lib lines) t (Done lines y t)
                (Held lines (length y.children) t)
                (visit_lines-Done lib laws lines t y first' r' there'')
                (visit_lines-Held lines t y first' r' there'' h.0 onces))
              (λ u ((g', _), h').
                lines_Held line lines s t u x added
                  (are_apart-Apart (line_names line) (names lines) apart) g g' size h h'))
