-- ===== src/Assembler/Program/Runs.antt =====
-- Both passes of `run` in assembler_class.cpp, from the constructor on.
use mathlib.Core.Path.{subst}
use frost32_cpu.Prelude.{
  String, ◌-◌, ℕ, zero, suc, ◌+◌, ◌^◌, ◌<◌, ◌≤◌, ◌≡◌, ◌∙◌, refl, ap, sym, [], ◌∷◌, Bool, some,
  get_elem?, arith,
}
use frost32_cpu.Prelude.Text.{lookup}
use frost32_cpu.Orange.{Orange, Laws, PrevCurrPair}
use frost32_cpu.Outcome.{Outcome, bind, ok, exits, uncaught, undefined}
use frost32_cpu.SymbolTable.{Node, symbol_table}
use frost32_cpu.SymbolTable.Shape.{IsWell, Scope, scopes, scope_of, length-map}
use frost32_cpu.Assembler.{Assembler, M, ◌>>◌, assembler, push_scope_child_num}
use frost32_cpu.Assembler.Syntax.{Lines}
use frost32_cpu.Assembler.Emits.{Ends, Post, weaken-Post}
use frost32_cpu.Assembler.Program.{visit_program, visit_lines, run_pass, run}
use frost32_cpu.Assembler.Program.Leaves.{IsReady}
use frost32_cpu.Assembler.Program.Layout.{Placed}
use frost32_cpu.Assembler.Program.Blocks.{blocks, Follows}
use frost32_cpu.Assembler.Program.First.Steps.{Done}
use frost32_cpu.Assembler.Program.First.{visit_lines-Done}
use frost32_cpu.Assembler.Program.Second.Steps.{node_of, Walked}
use frost32_cpu.Assembler.Program.Second.{visit_lines-Walked}

-- The state that a pass starts the program in.
abbrev pub started : Orange → ℕ → ℕ → Assembler → Assembler
started lib pass front s = record s {
  pass = pass;
  pc = lib.back_up (record s.pc { curr = 0 });
  curr_scope_node = front;
}

-- After both passes the table is well formed, and the blocks of the program are the children of the
-- outermost scope, in their order, and so in each block; the state is in the outermost scope, its
-- stacks are as before the run but for the number of outermost blocks, and the program counter is
-- where the lines lead from 0.
pub record Assembled (lines : Lines) (s : Assembler) : Type 0 where
  pub well : IsWell s.sym_tbl
  pub follows : Follows (scopes s.sym_tbl) 1 0 lines
  pub outermost : s.curr_scope_node ≡ 1
  pub counted : s.scope_child_num_stack ≡ blocks lines ∷ []
  pub no_nums : s.num_stack ≡ []
  pub no_strs : s.str_stack ≡ []
  pub bounded : s.pc.curr < 2 ^ 64
  pub placed : Placed lines 0 s.pc.curr

pub symbol_table-IsWell : IsWell symbol_table
symbol_table-IsWell = record {
  is_tree = λ p node e. first_parents p node e;
  pooled = λ p node name i e f. no_symbols p node name i e f;
  counted = (0, refl);
}
  where
    first_parents :
        (p : ℕ) (node : Node) → get_elem? symbol_table.nodes p ≡ some node → node.parent ≤ p - 1
    first_parents zero node e = ground arith
    first_parents (suc zero) node e = ground arith
    first_parents (suc (suc p)) node e = cc

    no_symbols :
        (p : ℕ) (node : Node) (name : String) (i : ℕ)
        → get_elem? symbol_table.nodes p ≡ some node
        → lookup name node.table ≡ some i
        → i < 0
    no_symbols zero node name i e f = ground (arith, e, f)
    no_symbols (suc zero) node name i e f = ground (arith, e, f)
    no_symbols (suc (suc p)) node name i e f = cc

module _ (lib : Orange) (laws : Laws lib) (lines : Lines) where
  run_pass-node :
      (pass front : ℕ) (s : Assembler) (root : Node)
      → get_elem? s.sym_tbl.nodes 0 ≡ some root
      → get_elem? root.children 0 ≡ some front
      → run_pass lib pass lines s ≡ visit_lines lib lines (started lib pass front s)
  unfolding run_pass visit_program
  run_pass-node pass front s root e f = rw (e, f) refl

  run_pass-started :
      (pass front : ℕ) (s : Assembler) (x : Scope)
      → get_elem? (scopes s.sym_tbl) 0 ≡ some x
      → get_elem? x.children 0 ≡ some front
      → run_pass lib pass lines s ≡ visit_lines lib lines (started lib pass front s)
  run_pass-started pass front s x e f =
      let (root, (there, same)) = node_of s.sym_tbl 0 x e in
      run_pass-node pass front s root there (ap (λ y. get_elem? y.children 0) same ∙ f)

  -- The scope below the root, before the program is read.
  abbrev pub empty_scope : Scope
  empty_scope = record { parent = 0; children = [] }

  abbrev pushed_once : Bool → Assembler
  pushed_once w = record (assembler w) { scope_child_num_stack = 0 ∷ [] }

  -- The state that the first pass starts the program in.
  abbrev pub begun : Bool → Assembler
  begun w = started lib 0 1 (pushed_once w)

  pub backed_up : (p : PrevCurrPair) → (lib.back_up (record p { curr = 0 })).curr ≡ 0
  backed_up p = ap (λ q. q.curr) (laws.back_up_lem (record p { curr = 0 }))

  pub begun-IsReady : (w : Bool) → IsReady (begun w)
  begun-IsReady w = record {
    well = symbol_table-IsWell;
    in_range = omega arith;
    below_root = λ z. absurd (omega (arith, z));
  }

  pub started_again-IsReady :
      (w : Bool) (s : Assembler) → Done lines empty_scope (begun w) s → IsReady (started lib 1 1 s)
  started_again-IsReady w s (g, h) = record {
    well = g.well;
    in_range = omega (arith, g.grows.longer, length-map scope_of s.sym_tbl.nodes);
    below_root = λ z. absurd (omega (arith, z));
  }

  -- The second pass starts in the scope that the first one did.
  run_pass-again :
      (w : Bool) (s : Assembler)
      → Done lines empty_scope (begun w) s
      → run_pass lib 1 lines s ≡ visit_lines lib lines (started lib 1 1 s)
  run_pass-again w s (g, h) =
      let root : Scope = record { parent = 0; children = 1 ∷ [] } in
      run_pass-started 1 1 s root (g.grows.others 0 root (λ z. absurd (omega (arith, z))) refl) refl

  visit_again :
      (w : Bool) (s : Assembler)
      → Done lines empty_scope (begun w) s
      → Post (visit_lines lib lines) (started lib 1 1 s) (Assembled lines)
  visit_again w s (g, h) =
      let again = started lib 1 1 s in
      let end = (0 + blocks lines) ∷ [] in
      let start : again.pc.curr < 2 ^ 64 = omega (arith, backed_up s.pc) in
      weaken-Post (visit_lines lib lines) again (Walked (Placed lines) end again) (Assembled lines)
        (visit_lines-Walked lib laws lines again 0 [] refl (started_again-IsReady w s (g, h))
          (ap (λ y. y.scope_child_num_stack) g.kept) h)
        (λ t v. record {
          well = v.well;
          follows = subst (λ f. Follows f 1 0 lines) (sym v.shape) h;
          outermost = ap (λ y. y.curr_scope_node) v.kept;
          counted = ap (λ y. y.scope_child_num_stack) v.kept ∙ ap (λ n. n ∷ []) (omega arith);
          no_nums = ap (λ y. y.num_stack) v.kept ∙ ap (λ y. y.num_stack) g.kept;
          no_strs = ap (λ y. y.str_stack) v.kept ∙ ap (λ y. y.str_stack) g.kept;
          bounded = v.bounded start;
          placed = subst (λ a. Placed lines a t.pc.curr) (backed_up s.pc) v.placed;
        })

  pub first-Done :
      (w : Bool) → Post (visit_lines lib lines) (begun w) (Done lines empty_scope (begun w))
  first-Done w = visit_lines-Done lib laws lines (begun w) empty_scope refl (begun-IsReady w) refl

  run_then :
      (w : Bool) (r : Outcome (Unit {0} × Assembler))
      → Ends r (Done lines empty_scope (begun w))
      → bind r (λ (u, s). run_pass lib 1 lines s)
        ≡ bind r (λ (u, s). visit_lines lib lines (started lib 1 1 s))
  run_then w (ok (u, s)) h = run_pass-again w s h
  run_then w (exits e) h = refl
  run_then w uncaught h = refl
  run_then w undefined h = refl

  then-bind :
      (r : Outcome (Unit {0} × Assembler)) (n : M (Unit {0})) (s : Assembler)
      → ((λ (x : Assembler). r) >> n) s ≡ bind r (λ (u, t). n t)
  then-bind (ok (u, t)) n s = refl
  then-bind (exits e) n s = refl
  then-bind uncaught n s = refl
  then-bind undefined n s = refl

  run-run_pass :
      (w : Bool)
      → run lib lines (assembler w)
        ≡ bind (run_pass lib 0 lines (pushed_once w)) (λ (u, s). run_pass lib 1 lines s)
  unfolding run push_scope_child_num
  run-run_pass w =
      then-bind (run_pass lib 0 lines (pushed_once w)) (run_pass lib 1 lines) (pushed_once w)

  -- From the constructor on, `run` visits the program twice, each time from address 0 in the scope
  -- below the root, the second time with the symbols of the first, and what stops a visit is all
  -- that stops it.
  pub run-visit_lines :
      (w : Bool)
      → run lib lines (assembler w)
        ≡ bind
            (visit_lines lib lines (begun w))
            (λ (u, s). visit_lines lib lines (started lib 1 1 s))
  run-visit_lines w =
      run-run_pass w
      ∙ ap (λ r. bind r (λ (u, s). run_pass lib 1 lines s))
          (run_pass-started 0 1 (pushed_once w) (record { parent = 0; children = 1 ∷ [] }) refl
            refl)
      ∙ run_then w (visit_lines lib lines (begun w)) ((first-Done w).at)

  both_then :
      (P Q : Assembler → Type 0) (r : Outcome (Unit {0} × Assembler))
      → Ends r P
      → ((s : Assembler) → P s → Post (visit_lines lib lines) (started lib 1 1 s) Q)
      → Ends (bind r (λ (u, s). visit_lines lib lines (started lib 1 1 s))) Q
  both_then P Q (ok (u, s)) h k = (k s h).at
  both_then P Q (exits e) h k = tt
  both_then P Q uncaught h k = tt
  both_then P Q undefined h k = tt

  -- What holds after `run`, by what holds after its first pass.
  pub run-Post :
      (w : Bool) (P Q : Assembler → Type 0)
      → Post (visit_lines lib lines) (begun w) P
      → ((s : Assembler) → P s → Post (visit_lines lib lines) (started lib 1 1 s) Q)
      → Post (run lib lines) (assembler w) Q
  run-Post w P Q h k = record {
    at =
        subst (λ r. Ends r Q) (sym (run-visit_lines w))
          (both_then P Q (visit_lines lib lines (begun w)) h.at k);
  }

  pub run-Assembled : (w : Bool) → Post (run lib lines) (assembler w) (Assembled lines)
  run-Assembled w =
      run-Post w (Done lines empty_scope (begun w)) (Assembled lines) (first-Done w) (visit_again w)
