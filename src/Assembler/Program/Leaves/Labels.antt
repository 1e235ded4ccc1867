-- ===== src/Assembler/Program/Leaves/Labels.antt =====
-- What `visitLabel` of assembler_class.cpp does to the state, on either pass.
use mathlib.Core.Path.{subst}
use frost32_cpu.Prelude.{
  ℕ, ◌≡◌, ◌∙◌, refl, sym, String, not, ◌&&◌, Option, none, some, get_elem?, ap,
}
use frost32_cpu.Outcome.{Outcome, ok, exits, uncaught, undefined, deref, bind}
use frost32_cpu.Prelude.Text.{lookup}
use frost32_cpu.SymbolTable.{SymbolTable, Node, find_in_this_blklev, find_or_insert, define_label}
use frost32_cpu.SymbolTable.Shape.Steps.{find_or_insert-Keeps, define_label-Keeps}
use frost32_cpu.Assembler.{Assembler, M, ◌>>=◌, lift, put, is_pass_one, pop_str}
use frost32_cpu.Assembler.Syntax.{IdentName}
use frost32_cpu.Assembler.Emits.{exact_then, if-Post, Ends, Post, lift-Post, then-Post}
use frost32_cpu.Assembler.Expr.Value.{ident_text}
use frost32_cpu.Assembler.Expr.Symbols.{named, visit_ident_name-named}
use frost32_cpu.Assembler.Tokens.{visit_ident_name}
use frost32_cpu.Assembler.Program.{check_duplicate, visit_label}
use frost32_cpu.Assembler.Program.Layout.{Sized, Sized-same}
use frost32_cpu.Assembler.Program.Leaves.{IsReady, Leaves}

-- A name that is read, and what follows it.
ident_then :
    (r : Outcome String) (m : M (Unit {0})) (k : Unit {0} → M (Unit {0})) (s : Assembler)
    (P : Assembler → Type 0)
    → m s ≡ bind r (λ name. ok (tt, named s name))
    → ((name : String) → r ≡ ok name → Post (k tt) (named s name) P)
    → Post (m >>= k) s P
ident_then (ok name) m k s P e h = record { at = rw (◌>>=◌, e) (h name refl).at }
ident_then (exits x) m k s P e h = record { at = rw (◌>>=◌, e) tt }
ident_then uncaught m k s P e h = record { at = rw (◌>>=◌, e) tt }
ident_then undefined m k s P e h = record { at = rw (◌>>=◌, e) tt }

check_duplicate-Post :
    (name : String) (found : Option ℕ) (s : Assembler)
    → Post (check_duplicate name found) s (λ t. t ≡ s)
check_duplicate-Post name none s = record { at = refl }
check_duplicate-Post name (some j) s = record {
  at =
      (lift-Post (λ t. t ≡ s) (deref (get_elem? s.sym_tbl.data_pool j)) _ s
        (λ symbol.
          if-Post (λ t. t ≡ s) (not (is_pass_one s) && symbol.found_as_label) _ _ s
            (record { at = tt }) (record { at = refl }))).at;
}

-- What `visitLabel` does after its check.
abbrev pub after_check : String → Assembler → M (Unit {0})
after_check name s = lift (find_or_insert s.sym_tbl s.curr_scope_node name) >>= λ (t, found).
    lift (deref found) >>= λ sym.
    lift (define_label t sym s.pc.curr) >>= λ t'. put (record s { sym_tbl = t' })

pub after_check-steps :
    (name : String) (s : Assembler) (t u : SymbolTable) (i : ℕ)
    → find_or_insert s.sym_tbl s.curr_scope_node name ≡ ok (t, some i)
    → define_label t i s.pc.curr ≡ ok u
    → after_check name s s ≡ ok (tt, record s { sym_tbl = u })
after_check-steps name s t u i f d = rw (f, d) refl

after_check-Post :
    (name : String) (s : Assembler) → IsReady s → Post (after_check name s) s (Leaves (Sized 0) s)
after_check-Post name s r =
    let (t, i, (e, (w, shape), lt)) =
      find_or_insert-Keeps s.sym_tbl s.curr_scope_node name r.well r.in_range r.below_root in
    let (u, (d, (w', shape'))) = define_label-Keeps t i s.pc.curr w lt in
    let l : Leaves (Sized 0) s (record s { sym_tbl = u }) = record {
      kept = refl;
      well = w';
      shape = shape' ∙ shape;
      bounded = λ h. h;
      placed = Sized-same s.pc.curr;
      quiet = λ h. (refl, refl);
    } in
    record {
      at = subst (λ x. Ends x (Leaves (Sized 0) s)) (sym (after_check-steps name s t u i e d)) l;
    }

-- A label, up to the check of its name.
pub visit_label-after_check :
    (i : IdentName) (s : Assembler) (P : Assembler → Type 0)
    → ((name : String) → ident_text i ≡ ok name → Post (after_check name s) s P)
    → Post (visit_label i) s P
unfolding visit_label pop_str
visit_label-after_check i s P h =
    ident_then (ident_text i) (visit_ident_name i) _ s P (visit_ident_name-named i s) (λ name e.
      record {
        at =
            (lift-Post P (find_in_this_blklev s.sym_tbl s.curr_scope_node name) _ s (λ found.
              then-Post (check_duplicate name found) (λ x. after_check name s) s (λ t. t ≡ s) P
                (check_duplicate-Post name found s)
                (λ t same. subst (λ x. Post (after_check name s) x P) (sym same) (h name e)))).at;
      })

pub visit_label-Post :
    (i : IdentName) (s : Assembler) → IsReady s → Post (visit_label i) s (Leaves (Sized 0) s)
visit_label-Post i s r =
    visit_label-after_check i s (Leaves (Sized 0) s) (λ name e. after_check-Post name s r)

-- A label whose name passes the check.
pub visit_label-checked :
    (i : IdentName) (name : String) (s : Assembler) (found : Option ℕ) (t u : SymbolTable) (k : ℕ)
    → ident_text i ≡ ok name
    → find_in_this_blklev s.sym_tbl s.curr_scope_node name ≡ ok found
    → check_duplicate name found s ≡ ok (tt, s)
    → find_or_insert s.sym_tbl s.curr_scope_node name ≡ ok (t, some k)
    → define_label t k s.pc.curr ≡ ok u
    → visit_label i s ≡ ok (tt, record s { sym_tbl = u })
unfolding visit_label pop_str
visit_label-checked i name s found t u k e f c g d =
    exact_then (visit_ident_name i) _ s (named s name)
      (visit_ident_name-named i s ∙ ap (λ r. bind r (λ name. ok (tt, named s name))) e)
    ∙ rw f (exact_then (check_duplicate name found) (λ _. after_check name s) s s c)
    ∙ after_check-steps name s t u k g d

pub blklev-node :
    (t : SymbolTable) (curr : ℕ) (name : String) (node : Node)
    → get_elem? t.nodes curr ≡ some node
    → find_in_this_blklev t curr name ≡ ok (lookup name node.table)
unfolding find_in_this_blklev
blklev-node t curr name node e = rw e refl
