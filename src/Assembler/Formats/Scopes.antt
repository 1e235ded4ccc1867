-- ===== src/Assembler/Formats/Scopes.antt =====
-- Labels, and into and out of a scope, in assembler_class.cpp: they do not look at the format of the
-- output.
use frost32_cpu.Prelude.{
  ℕ, ◌+◌, ◌≡◌, refl, List, [], ◌∷◌, String, Bool, true, false, not, ◌&&◌, Option, none, some, leb,
  length, if◌then◌else◌, get_elem?, Bool-cases, inl, inr,
}
use frost32_cpu.Outcome.{Outcome, ok, exits, uncaught, undefined, at, deref, duplicate_label}
use frost32_cpu.SymbolTable.{
  Symbol, mkscope, rmscope, find_in_this_blklev, find_or_insert, define_label,
}
use frost32_cpu.Assembler.{
  Assembler, M, ◌>>=◌, ◌>>◌, nothing, get, put, err, lift, push_scope_child_num,
  get_top_scope_child_num, pop_scope_child_num, pop_str, is_pass_one,
}
use frost32_cpu.Assembler.Syntax.{IdentName}
use frost32_cpu.Assembler.Tokens.{visit_ident_name}
use frost32_cpu.Assembler.Program.{
  check_duplicate, visit_label, enter_scope, count_child, leave_scope,
}
use frost32_cpu.Assembler.Formats.{
  unseen, seen, Blind, bind-Blind, if-Blind, pure-Blind, get_then-Blind, pop_str-Blind,
  push_scope_child_num-Blind, pop_scope_child_num-Blind,
}
use frost32_cpu.Assembler.Formats.Expressions.{visit_ident_name-Blind}

-- What follows a result that the state gives, where it may put a new state.
pub lift_same :
    {A B : Type 0} (r : Outcome A) (k l : A → M B) (s : Assembler)
    → ((a : A) → seen (k a s) ≡ seen (l a (unseen s)))
    → seen ((lift r >>= k) s) ≡ seen ((lift r >>= l) (unseen s))
lift_same (ok a) k l s h = h a
lift_same (exits e) k l s h = refl
lift_same uncaught k l s h = refl
lift_same undefined k l s h = refl

-- What `visitLabel` does after its check.
abbrev define : String → Assembler → M (Unit {0})
define name s = lift (find_or_insert s.sym_tbl s.curr_scope_node name) >>= λ (t, found).
    lift (deref found) >>= λ sym.
    lift (define_label t sym s.pc.curr) >>= λ t'. put (record s { sym_tbl = t' })

define-same :
    (name : String) (s : Assembler)
    → seen (define name s s) ≡ seen (define name (unseen s) (unseen s))
define-same name s =
    lift_same (find_or_insert s.sym_tbl s.curr_scope_node name) _ _ s (λ (t, found).
      lift_same (deref found) _ _ s
        (λ sym. lift_same (define_label t sym s.pc.curr) _ _ s (λ t'. refl)))

checked_test-same :
    (name : String) (test : Bool) (s : Assembler)
    → let check : M (Unit {0}) = if test then err (duplicate_label name) else nothing in
      seen ((check >> define name s) s) ≡ seen ((check >> define name (unseen s)) (unseen s))
checked_test-same name true s = refl
checked_test-same name false s = define-same name s

checked_symbol-same :
    (name : String) (r : Outcome Symbol) (s : Assembler)
    → let check : Assembler → M (Unit {0}) = λ u. lift r >>= λ symbol.
        if not (is_pass_one u) && symbol.found_as_label
        then err (duplicate_label name)
        else nothing in
      seen ((check s >> define name s) s)
      ≡ seen ((check (unseen s) >> define name (unseen s)) (unseen s))
checked_symbol-same name (ok symbol) s =
    checked_test-same name (not (is_pass_one s) && symbol.found_as_label) s
checked_symbol-same name (exits e) s = refl
checked_symbol-same name uncaught s = refl
checked_symbol-same name undefined s = refl

checked-same :
    (name : String) (here : Option ℕ) (s : Assembler)
    → seen ((check_duplicate name here >> define name s) s)
      ≡ seen ((check_duplicate name here >> define name (unseen s)) (unseen s))
checked-same name none s = define-same name s
checked-same name (some i) s = checked_symbol-same name (deref (get_elem? s.sym_tbl.data_pool i)) s

pub visit_label-Blind : (i : IdentName) → Blind (visit_label i)
unfolding visit_label
visit_label-Blind i = bind-Blind (visit_ident_name i) _ (visit_ident_name-Blind i) (λ _.
    bind-Blind pop_str _ pop_str-Blind (λ name.
      get_then-Blind
        (λ s. lift (find_in_this_blklev s.sym_tbl s.curr_scope_node name) >>= λ here.
          check_duplicate name here >> define name s)
        (λ s.
          lift_same (find_in_this_blklev s.sym_tbl s.curr_scope_node name) _ _ s
            (λ here. checked-same name here s))))

top-same :
    {A : Type 0} (numbers : List ℕ) (k l : ℕ → M A) (s : Assembler)
    → ((i : ℕ) → seen (k i s) ≡ seen (l i (unseen s)))
    → let top : Assembler → M ℕ = λ u v. elim numbers [ [] ↦ undefined | n ∷ rest ↦ ok (n, u) ] in
      seen ((top s >>= k) s) ≡ seen ((top (unseen s) >>= l) (unseen s))
top-same [] k l s h = refl
top-same (n ∷ rest) k l s h = h n

pub enter_scope-Blind : Blind enter_scope
unfolding enter_scope get_top_scope_child_num push_scope_child_num
enter_scope-Blind = record {
  same = λ s. elim (Bool-cases (is_pass_one s)) [
    | inr p ↦ rw p (lift_same (mkscope s.sym_tbl s.curr_scope_node) _ _ s (λ (t, made). refl))
    | inl p ↦ rw p (
        lift_same (deref (get_elem? s.sym_tbl.nodes s.curr_scope_node)) _ _ s (λ node.
          top-same s.scope_child_num_stack _ _ s
            (λ i. lift_same (at (get_elem? node.children i)) _ _ s (λ child. refl))))
  ];
}

count_child-Blind : Blind count_child
unfolding count_child
count_child-Blind =
    bind-Blind pop_scope_child_num _ pop_scope_child_num-Blind
      (λ temp. push_scope_child_num-Blind (temp + 1))

-- To the parent of the scope, on the second pass.
abbrev to_parent : M (Unit {0})
to_parent = get >>= λ u. lift (deref (get_elem? u.sym_tbl.nodes u.curr_scope_node)) >>= λ node.
    put (record u { curr_scope_node = node.parent })

to_parent-Blind : Blind to_parent
to_parent-Blind = record {
  same = λ u. lift_same (deref (get_elem? u.sym_tbl.nodes u.curr_scope_node)) _ _ u (λ node. refl);
}

abbrev count_if_nested : Assembler → M (Unit {0})
count_if_nested t = if leb 1 (length t.scope_child_num_stack) then count_child else nothing

count_and_leave-Blind :
    Blind (pop_scope_child_num >>= λ _. get >>= λ t. count_if_nested t >> to_parent)
count_and_leave-Blind = bind-Blind pop_scope_child_num _ pop_scope_child_num-Blind (λ _.
    get_then-Blind (λ t. count_if_nested t >> to_parent)
      (λ t.
        (bind-Blind (count_if_nested t) (λ _. to_parent)
            (if-Blind (leb 1 (length t.scope_child_num_stack)) _ _ count_child-Blind
              (pure-Blind tt))
            (λ _. to_parent-Blind)).same
          t))

pub leave_scope-Blind : Blind leave_scope
unfolding leave_scope
leave_scope-Blind = record {
  same = λ s. elim (Bool-cases (is_pass_one s)) [
    | inr p ↦ rw p (lift_same (rmscope s.sym_tbl s.curr_scope_node) _ _ s (λ parent. refl))
    | inl p ↦ rw p (count_and_leave-Blind.same s)
  ];
}
