-- ===== src/Assembler/Program/Held/Second.antt =====
-- The second pass of `run` in assembler_class.cpp: each label is defined again, at the address that
-- it has.
use mathlib.Core.Path.{subst}
use frost32_cpu.Prelude.{
  ℕ, zero, suc, ◌+◌, ◌^◌, ◌<◌, ◌≡◌, ◌∙◌, refl, ap, sym, List, [], ◌∷◌, true, some, get_elem?, set,
}
use frost32_cpu.Orange.{Orange, Laws}
use frost32_cpu.Outcome.{ok}
use frost32_cpu.SymbolTable.{SymbolTable, Symbol, find_or_insert, define_label}
use frost32_cpu.SymbolTable.Scopes.{find_iff}
use frost32_cpu.SymbolTable.Insert.{find_or_insert-found}
use frost32_cpu.SymbolTable.Labels.{labelled, define_label-written}
use frost32_cpu.SymbolTable.Addresses.{Holds}
use frost32_cpu.Assembler.{Assembler, is_pass_one}
use frost32_cpu.Assembler.Emits.{Emits, Post, then-Post, weaken-Post, exact_then-Post, exact-Post}
use frost32_cpu.Assembler.Syntax.{
  IdentName, Line, scoped_lines, label, instruction, pseudo_instruction, directive, blank, Lines,
  no_lines, line_then,
}
use frost32_cpu.Assembler.Visit.{visit_instruction}
use frost32_cpu.Assembler.Visit.Sizes.{visit_instruction-Post}
use frost32_cpu.Assembler.Pseudo.{visit_pseudo_instruction}
use frost32_cpu.Assembler.Pseudo.Sizes.{pseudo_size, visit_pseudo_instruction-Post}
use frost32_cpu.Assembler.Program.{
  visit_directive, visit_label, enter_scope, leave_scope, visit_line, visit_lines,
}
use frost32_cpu.Assembler.Program.Blocks.{block, blocks}
use frost32_cpu.Assembler.Program.Layout.{LinePlaced, Placed, LineIsFixed, IsFixed, line_unique}
use frost32_cpu.Assembler.Program.Leaves.{IsReady, IsReady-InScope}
use frost32_cpu.Assembler.Program.Leaves.Labels.{
  after_check, after_check-steps, visit_label-after_check,
}
use frost32_cpu.Assembler.Program.Second.Steps.{
  Walked-IsReady, left, enter_scope-IsChild, left_block, IsChild-IsReady,
}
use frost32_cpu.Assembler.Program.Second.{visit_line-Walked, visit_lines-Walked}
use frost32_cpu.Assembler.Program.Total.Sound.{text_of}
use frost32_cpu.Assembler.Program.Total.Leaves.{
  SameTable, Emits-SameTable, visit_directive-SameTable,
}
use frost32_cpu.Assembler.Program.Held.{
  LineHolds, AllHold, LineHolds-LinePlaced, LineHolds-LineFollows, AllHold-Follows,
}
use frost32_cpu.Assembler.Program.Held.First.{both-Post, ident_text-text_of}

set-get_elem? :
    {A : Type 0} (xs : List A) (i : ℕ) (v : A) → get_elem? xs i ≡ some v → set xs i v ≡ xs
set-get_elem? [] i v e = refl
set-get_elem? (x ∷ xs) zero v e = ap (λ y. y ∷ xs) (cc e)
set-get_elem? (x ∷ xs) (suc i) v e = ap (λ l. x ∷ l) (set-get_elem? xs i v e)

-- The table of a state.
abbrev pub SameSymbols : Assembler → Assembler → Type 0
SameSymbols s t = t.sym_tbl ≡ s.sym_tbl

-- A label that stands for an address is defined there again.
define_label-again :
    (t : SymbolTable) (i addr : ℕ) (symbol : Symbol)
    → get_elem? t.data_pool i ≡ some symbol
    → symbol ≡ labelled symbol addr
    → define_label t i addr ≡ ok t
define_label-again t i addr symbol there same =
    define_label-written t i addr symbol there
    ∙ ap (λ l. ok (record t { data_pool = l }))
        (ap (set t.data_pool i) (sym same) ∙ set-get_elem? t.data_pool i symbol there)

visit_label-again :
    (i : IdentName) (s : Assembler)
    → IsReady s
    → Holds s.sym_tbl (text_of i) s.curr_scope_node s.pc.curr
    → Post (visit_label i) s (SameSymbols s)
visit_label-again i s r (j, symbol, (v, there, own, same)) =
    visit_label-after_check i s (SameSymbols s) (λ name e.
      let t = s.sym_tbl in
      let found = (find_iff t (text_of i) s.curr_scope_node j r.well.is_tree r.in_range).1.1 v in
      exact-Post (after_check name s) s (record s { sym_tbl = t }) (SameSymbols s)
        (after_check-steps name s t t j
          (subst (λ x. find_or_insert t s.curr_scope_node x ≡ ok (t, some j))
            (ident_text-text_of i name e)
            (find_or_insert-found t s.curr_scope_node (text_of i) j found))
          (define_label-again t j s.pc.curr symbol there same))
        refl)

module _ (lib : Orange) (laws : Laws lib) where
  mutual
    unfolding visit_line LineHolds LineIsFixed

    line_SameSymbols :
        (line : Line) (s : Assembler) (k b : ℕ) (rest : List ℕ)
        → is_pass_one s ≡ true
        → IsReady s
        → s.scope_child_num_stack ≡ k ∷ rest
        → s.pc.curr < 2 ^ 64
        → LineIsFixed line
        → LineHolds s.sym_tbl s.curr_scope_node k line s.pc.curr b
        → Post (visit_line lib line) s (SameSymbols s)
    line_SameSymbols (scoped_lines lines) s k b rest second r e small fixed (c, child, h) =
        let stack = s.scope_child_num_stack in
        let into = left c (0 ∷ stack) s in
        let r' = IsChild-IsReady s k c (0 ∷ stack) r child in
        let follows = AllHold-Follows s.sym_tbl lines c 0 s.pc.curr b h in
        exact_then-Post enter_scope _ s into (SameSymbols s)
          (enter_scope-IsChild s second k rest c e child)
          (then-Post (visit_lines lib lines) (λ _. leave_scope) into _ (SameSymbols s)
            (both-Post (visit_lines lib lines) into _ (SameSymbols into)
              (visit_lines-Walked lib laws lines into 0 stack second r' refl follows)
              (lines_SameSymbols lines into 0 b stack second r' refl small fixed h))
            (λ t (w, same).
              exact-Post leave_scope t (left s.curr_scope_node ((k + 1) ∷ rest) t) (SameSymbols s)
                (left_block (Placed lines) s t k c (0 + blocks lines) rest second e child w) same))
    line_SameSymbols (label i) s k b rest second r e small fixed (h, holds) =
        visit_label-again i s r holds
    line_SameSymbols (instruction i) s k b rest second r e small fixed h =
        weaken-Post (visit_instruction lib i) s (λ t. Emits 4 s t) (SameSymbols s)
          (visit_instruction-Post lib laws s (IsReady-InScope s r) i)
          (λ t q. (Emits-SameTable 4 s t q).table)
    line_SameSymbols (pseudo_instruction p) s k b rest second r e small fixed h =
        weaken-Post (visit_pseudo_instruction lib p) s (λ t. Emits (pseudo_size p) s t)
          (SameSymbols s) (visit_pseudo_instruction-Post lib laws s (IsReady-InScope s r) p)
          (λ t q. (Emits-SameTable (pseudo_size p) s t q).table)
    line_SameSymbols (directive d) s k b rest second r e small fixed h =
        weaken-Post (visit_directive lib d) s (SameTable s) (SameSymbols s)
          (visit_directive-SameTable lib laws [] s r d) (λ t q. q.table)
    line_SameSymbols blank s k b rest second r e small fixed h = record { at = refl }

    lines_SameSymbols :
        (lines : Lines) (s : Assembler) (k b : ℕ) (rest : List ℕ)
        → is_pass_one s ≡ true
        → IsReady s
        → s.scope_child_num_stack ≡ k ∷ rest
        → s.pc.curr < 2 ^ 64
        → IsFixed lines
        → AllHold s.sym_tbl s.curr_scope_node k lines s.pc.curr b
        → Post (visit_lines lib lines) s (SameSymbols s)
    lines_SameSymbols no_lines s k b rest second r e small fixed h = record { at = refl }
    lines_SameSymbols (line_then line lines) s k c rest second r e small (fixed, fs) (b, h, hs) =
        let p = s.curr_scope_node in
        let k' = k + block line in
        let follows = LineHolds-LineFollows s.sym_tbl line p k s.pc.curr b h in
        then-Post (visit_line lib line) (λ _. visit_lines lib lines) s _ (SameSymbols s)
          (both-Post (visit_line lib line) s _ (SameSymbols s)
            (visit_line-Walked lib laws line s k rest second r e follows)
            (line_SameSymbols line s k b rest second r e small fixed h))
          (λ t (w, same).
            let placed = LineHolds-LinePlaced s.sym_tbl line p k s.pc.curr b h in
            let (small', there) =
              line_unique line s.pc.curr t.pc.curr b small fixed w.placed placed in
            let scope : t.curr_scope_node ≡ p = ap (λ y. y.curr_scope_node) w.kept in
            weaken-Post (visit_lines lib lines) t (SameSymbols t) (SameSymbols s)
              (lines_SameSymbols lines t k' c rest (ap is_pass_one w.kept ∙ second)
                (Walked-IsReady (LinePlaced line) (k' ∷ rest) s t r w)
                (ap (λ y. y.scope_child_num_stack) w.kept) small' fs
                (subst (λ u. AllHold u t.curr_scope_node k' lines t.pc.curr c) (sym same)
                  (subst (λ q. AllHold s.sym_tbl q k' lines t.pc.curr c) (sym scope)
                    (subst (λ a. AllHold s.sym_tbl p k' lines a c) (sym there) hs))))
              (λ u q. q ∙ same))

  -- On the second pass, in a scope of a well-formed table where each label of the lines stands
  -- for the address where it is from the program counter on, which fits 64 bits, and with no name
  -- in a .org or .space, the visit of the lines leaves the symbols as they are where it ends.
  pub visit_lines-SameSymbols :
      (lines : Lines) (s : Assembler) (k b : ℕ) (rest : List ℕ)
      → is_pass_one s ≡ true
      → IsReady s
      → s.scope_child_num_stack ≡ k ∷ rest
      → s.pc.curr < 2 ^ 64
      → IsFixed lines
      → AllHold s.sym_tbl s.curr_scope_node k lines s.pc.curr b
      → Post (visit_lines lib lines) s (SameSymbols s)
  visit_lines-SameSymbols = lines_SameSymbols
