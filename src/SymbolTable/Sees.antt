-- ===== src/SymbolTable/Sees.antt =====
-- Which names a scope of scoped_table_base_class.hpp sees, its own and those of the scopes around it,
-- while the table grows.
use mathlib.Core.Path.{subst}
use frost32_cpu.Prelude.{
  ℕ, ◌<◌, ◌≡◌, ◌≢◌, ◌∙◌, refl, ap, sym, List, ◌∷◌, [], ◌++◌, String, some, true, ◌==◌, ==_iff,
  length, get_elem?, get_elem?-lt, lt-get_elem?, set, get_elem?-set_self, get_elem?-set_ne,
  get_elem?-set_cases, get_elem?-append_cases, get_elem?-append_length, Option-cases, Bool-cases,
  inl, inr, arith,
}
use frost32_cpu.Prelude.Text.{lookup, str_eq}
use frost32_cpu.Outcome.{ok}
use frost32_cpu.SymbolTable.{
  SymbolTable, Symbol, Node, IdentTable, insert_ident, find_or_insert, define_label,
}
use frost32_cpu.SymbolTable.Scopes.{find_iff, Visible, here, outer}
use frost32_cpu.SymbolTable.Insert.{
  fresh, inserted, inserted-length, inserted-Visible, insert_or_assign-inserted,
  find_or_insert-found, find_or_insert-fresh,
}
use frost32_cpu.SymbolTable.Labels.{labelled, define_label-written, Visible-nodes}
use frost32_cpu.SymbolTable.Blocks.{entered, entered-same}
use frost32_cpu.SymbolTable.Names.{AddsName, inserted-AddsName, table_at, entered-tables}
use frost32_cpu.SymbolTable.Shape.Steps.{Keeps, labelled-Keeps}
use frost32_cpu.SymbolTable.Shape.{IsWell, IsWell-IsPooled, inserted-IsWell, inserted-scopes}

-- A name that a scope or one around it has.
abbrev pub Sees : SymbolTable → String → ℕ → Type 0
Sees t name p = (i : ℕ) × Visible t name i p

-- Each scope stays where it is, with the names that it has.
pub record Widens (t u : SymbolTable) : Type 0 where
  pub has :
      (p : ℕ) (node : Node)
      → get_elem? t.nodes p ≡ some node
      → (m : Node) × ((get_elem? u.nodes p ≡ some m)
          × (m.parent ≡ node.parent)
          × ((name : String) (i : ℕ)
              → lookup name node.table ≡ some i
              → (j : ℕ) × (lookup name m.table ≡ some j)))

module _ (t u : SymbolTable) (w : Widens t u) (name : String) where
  widened : (i p : ℕ) → Visible t name i p → Sees u name p
  widened i p (here _ node z e f) =
      let (m, (there, parent, kept)) = w.has p node e in
      let (j, found) = kept name i f in (j, here p m z there found)
  widened i p (outer q node z e f d) =
      let (m, (there, parent, kept)) = w.has q node e in
      let (j, v) = widened i node.parent d in
      elim (Option-cases (lookup name m.table)) [
        | inl absent ↦ (j, outer q m z there absent (subst (Visible u name j) (sym parent) v))
        | inr (k, found) ↦ (k, here q m z there found)
      ]

  pub Sees-Widens : (p : ℕ) → Sees t name p → Sees u name p
  Sees-Widens p (i, v) = widened i p v

pub Widens-trans : (t u v : SymbolTable) → Widens t u → Widens u v → Widens t v
Widens-trans t u v a b = record {
  has = λ p node e.
      let (m, (there, parent, kept)) = a.has p node e in
      let (n, (there', parent', kept')) = b.has p m there in
      (n, (there', parent' ∙ parent, (λ name i f. let (j, g) = kept name i f in kept' name j g)));
}

pub Widens-nodes : (t u : SymbolTable) → u.nodes ≡ t.nodes → Widens t u
Widens-nodes t u e = record {
  has = λ p node there. (node, (ap (λ n. get_elem? n p) e ∙ there, refl, (λ name i f. (i, f))));
}

insert_ident-has :
    (m : IdentTable) (name other : String) (p i : ℕ)
    → lookup other m ≡ some i
    → (j : ℕ) × (lookup other (insert_ident m name p) ≡ some j)
unfolding insert_ident
insert_ident-has [] name other p i e = cc
insert_ident-has ((n, q) ∷ m) name other p i e = elim (Bool-cases (str_eq name n)) [
  | inl same ↦ elim (Bool-cases (str_eq other n)) [
    | inl o ↦ (p, rw (same, o) refl)
    | inr o ↦ (i, ground (arith, same, o, e))
  ]
  | inr different ↦ elim (Bool-cases (str_eq other n)) [
    | inl o ↦ (q, rw (different, o) refl)
    | inr o ↦
        let (j, f) = insert_ident-has m name other p i (ground (arith, o, e)) in
        (j, rw (different, o) f)
  ]
]

module _ (t : SymbolTable) (curr : ℕ) (node : Node)
    (there : get_elem? t.nodes curr ≡ some node) where
  inserted-Widens : (symbol : Symbol) → Widens t (inserted t curr node symbol)
  inserted-Widens symbol = record {
    has = λ p n e. elim (Bool-cases (curr == p)) [
      | inl same ↦
          let c : curr ≡ p = (==_iff curr p).0 same in
          let k : node ≡ n = cc (there, e, c) in
          let made = record node {
            table = insert_ident node.table symbol.name (length t.data_pool);
          } in
          let h = lt-get_elem? t.nodes curr node there in
          (
            made,
            (
              ap (get_elem? (set t.nodes curr made)) (sym c)
                  ∙ get_elem?-set_self t.nodes curr made h,
              ap (λ n. n.parent) k,
              (λ name i f.
                  insert_ident-has node.table symbol.name name (length t.data_pool) i
                    (ap (λ n. lookup name n.table) k ∙ f)),
            ),
          )
      | inr different ↦ (
        n,
        (
          get_elem?-set_ne t.nodes curr p _ (ground (arith, different)) ∙ e,
          refl,
          (λ name i f. (i, f)),
        ),
      )
    ];
  }

  entered-Widens : (num : ℕ) → Widens t (entered t curr node num)
  entered-Widens num = record {
    has = λ p n e.
        let (m, (f, same, parent)) = entered-same t curr node num there p n e in
        (m, (f, parent, (λ name i g. (i, ap (lookup name) same ∙ g))));
  }

-- Each symbol of the pool is a label.
abbrev pub AllLabels : List Symbol → Type 0
AllLabels pool =
    (i : ℕ) (symbol : Symbol) → get_elem? pool i ≡ some symbol → symbol.found_as_label ≡ true

set-AllLabels :
    (pool : List Symbol) (i addr : ℕ) (symbol : Symbol)
    → AllLabels pool
    → AllLabels (set pool i (labelled symbol addr))
set-AllLabels pool i addr symbol h j other e =
    elim (get_elem?-set_cases pool i (labelled symbol addr) j other e) [
      | inl (_, same) ↦ ap (λ s. s.found_as_label) same
      | inr old ↦ h j other old
    ]

set-append :
    (pool : List Symbol) (x y : Symbol) → set (pool ++ x ∷ []) (length pool) y ≡ pool ++ y ∷ []
set-append [] x y = refl
set-append (z ∷ pool) x y = ap (λ l. z ∷ l) (set-append pool x y)

append-AllLabels :
    (pool : List Symbol) (addr : ℕ) (x symbol : Symbol)
    → AllLabels pool
    → AllLabels (set (pool ++ x ∷ []) (length pool) (labelled symbol addr))
append-AllLabels pool addr x symbol h j other e =
    elim (get_elem?-append_cases pool (labelled symbol addr) j other
      (sym (ap (λ l. get_elem? l j) (set-append pool x (labelled symbol addr))) ∙ e)) [
        | inl (_, same) ↦ ap (λ s. s.found_as_label) same
        | inr old ↦ h j other old
      ]

-- What a label of a scope does to the table: the symbol that its name stands for is found or made,
-- and is then a label; nothing but this name is added, to this scope.
pub record Defines (curr : ℕ) (name : String) (t u : SymbolTable) : Type 0 where
  pub keeps : Keeps t u
  pub adds : AddsName curr name t u
  pub widens : Widens t u
  pub sees : Sees u name curr
  pub labels : AllLabels t.data_pool → AllLabels u.data_pool

-- In a scope below the root of a well-formed table, `find_or_insert` and `define_label` define a
-- label.
pub define_label-Defines :
    (t : SymbolTable) (curr addr : ℕ) (name : String)
    → IsWell t
    → curr < length t.nodes
    → curr ≢ 0
    → (made defined : SymbolTable) × (i : ℕ) × ((find_or_insert t curr name ≡ ok (made, some i))
        × (define_label made i addr ≡ ok defined)
        × Defines curr name t defined)
define_label-Defines t curr addr name w h z =
    let (found, r) = (find_iff t name curr 0 w.is_tree h).0 in
    elim (Option-cases found) [
      | inr (i, present) ↦
          let e = r ∙ ap (ok) present in
          let v = (find_iff t name curr i w.is_tree h).1.0 e in
          let (symbol, there) = get_elem?-lt t.data_pool i (IsWell-IsPooled t w name curr i v) in
          let u : SymbolTable = record t { data_pool = set t.data_pool i (labelled symbol addr) } in
          (
            t,
            u,
            i,
            (
              find_or_insert-found t curr name i e,
              define_label-written t i addr symbol there,
              record {
                keeps = labelled-Keeps t i addr symbol w;
                adds = record { elsewhere = λ p ne. refl; added = λ other i e. inr e };
                widens = Widens-nodes t u refl;
                sees = (i, Visible-nodes t u name i curr refl v);
                labels = set-AllLabels t.data_pool i addr symbol;
              },
            ),
          )
      | inl absent ↦
          let (node, there) = get_elem?-lt t.nodes curr h in
          let i = length t.data_pool in
          let made = inserted t curr node (fresh name) in
          let w' = inserted-IsWell t curr node (fresh name) there w in
          let v = inserted-Visible t curr node (fresh name) z there in
          let again =
            (find_iff made name curr i w'.is_tree
                (omega (arith, h, inserted-length t curr node (fresh name)))).1.1
              v in
          let u : SymbolTable = record made {
            data_pool = set made.data_pool i (labelled (fresh name) addr);
          } in
          let a = inserted-AddsName t curr node (fresh name) there in
          let (well, shape) = labelled-Keeps made i addr (fresh name) w' in
          (
            made,
            u,
            i,
            (
              find_or_insert-fresh t curr name made i (r ∙ ap (ok) absent)
                  (insert_or_assign-inserted t curr node (fresh name) there) again,
              define_label-written made i addr (fresh name)
                  (get_elem?-append_length t.data_pool (fresh name)),
              record {
                keeps = (well, shape ∙ inserted-scopes t curr node (fresh name) there);
                adds = record { elsewhere = a.elsewhere; added = a.added };
                widens = record { has = (inserted-Widens t curr node there (fresh name)).has };
                sees = (i, Visible-nodes made u name i curr refl v);
                labels = append-AllLabels t.data_pool addr (fresh name) (fresh name);
              },
            ),
          )
    ]

-- A new scope: it has no names, and all other tables and the pool stay.
pub record Opens (t u : SymbolTable) : Type 0 where
  pub tables : (p : ℕ) → p < length t.nodes → table_at u p ≡ table_at t p
  pub no_names : table_at u (length t.nodes) ≡ []
  pub widens : Widens t u
  pub same_pool : u.data_pool ≡ t.data_pool

pub entered-Opens :
    (t : SymbolTable) (curr num : ℕ) (node : Node)
    → get_elem? t.nodes curr ≡ some node
    → Opens t (entered t curr node num)
entered-Opens t curr num node there =
    let (kept, new) = entered-tables t curr num node there in
    record {
      tables = kept;
      no_names = new;
      widens = entered-Widens t curr node there num;
      same_pool = refl;
    }
