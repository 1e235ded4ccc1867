-- ===== src/SymbolTable/Shape/Steps.antt =====
-- The operations of the table of symbols of ident_table_classes.hpp keep its invariant, and all but
-- `mkscope` keep its scopes.
use frost32_cpu.Prelude.{
  ℕ, List, suc, ◌<◌, ◌≡◌, ◌≢◌, ◌∙◌, refl, ap, sym, [], ◌∷◌, ◌++◌, String, some, length, get_elem?,
  set, get_elem?-lt, lt-get_elem?, get_elem?-set_cases, get_elem?-append_cases, length-set,
  length-append, Option-cases, arith, inl, inr,
}
use frost32_cpu.Prelude.Text.{lookup}
use frost32_cpu.Outcome.{ok}
use frost32_cpu.SymbolTable.{
  SymbolTable, Symbol, Node, new_node, find_or_insert, define_label, mkscope,
}
use frost32_cpu.SymbolTable.Scopes.{find_iff}
use frost32_cpu.SymbolTable.Insert.{
  fresh, inserted, inserted-length, inserted-Visible, insert_or_assign-inserted,
  find_or_insert-found, find_or_insert-fresh,
}
use frost32_cpu.SymbolTable.Labels.{labelled, define_label-written}
use frost32_cpu.SymbolTable.Blocks.{entered, with_child, mkscope-entered, entered-IsTree}
use mathlib.Core.List.{map-append}
use frost32_cpu.SymbolTable.Forest.{with_block, with_more}
use frost32_cpu.SymbolTable.Shape.{
  Scope, length-map, scopes, scope_of, IsWell, IsWell-IsPooled, inserted-IsWell, inserted-scopes,
  map-set, get_elem?-map,
}

-- The table is well formed and has the scopes of another.
abbrev pub Keeps : SymbolTable → SymbolTable → Type 0
Keeps t u = IsWell u × (scopes u ≡ scopes t)

-- In a scope below the root of a well-formed table, `find_or_insert` ends with a symbol in the
-- pool, and it keeps the scopes and the invariant.
pub find_or_insert-Keeps :
    (t : SymbolTable) (curr : ℕ) (name : String)
    → IsWell t
    → curr < length t.nodes
    → curr ≢ 0
    → (u : SymbolTable) × (i : ℕ) × ((find_or_insert t curr name ≡ ok (u, some i))
        × Keeps t u
        × (i < length u.data_pool))
find_or_insert-Keeps t curr name w h z =
    let (found, r) = (find_iff t name curr 0 w.is_tree h).0 in
    elim (Option-cases found) [
      | inr (i, present) ↦
          let e = r ∙ ap (ok) present in
          (
            t,
            i,
            (
              find_or_insert-found t curr name i e,
              (w, refl),
              IsWell-IsPooled t w name curr i ((find_iff t name curr i w.is_tree h).1.0 e),
            ),
          )
      | inl absent ↦
          let (node, there) = get_elem?-lt t.nodes curr h in
          let u = inserted t curr node (fresh name) in
          let i = length t.data_pool in
          let w' = inserted-IsWell t curr node (fresh name) there w in
          let seen = inserted-Visible t curr node (fresh name) z there in
          let again =
            (find_iff u name curr i w'.is_tree
                (omega (arith, h, inserted-length t curr node (fresh name)))).1.1
              seen in
          (
            u,
            i,
            (
              find_or_insert-fresh t curr name u i (r ∙ ap (ok) absent)
                  (insert_or_assign-inserted t curr node (fresh name) there) again,
              (w', inserted-scopes t curr node (fresh name) there),
              omega (arith, length-append t.data_pool (fresh name ∷ [])),
            ),
          )
    ]

-- A symbol of the pool becomes a label.
pub labelled-Keeps :
    (t : SymbolTable) (i addr : ℕ) (symbol : Symbol)
    → IsWell t
    → Keeps t (record t { data_pool = set t.data_pool i (labelled symbol addr) })
labelled-Keeps t i addr symbol w = (
  record {
    is_tree = w.is_tree;
    pooled = λ p node name j e f.
        omega (arith, w.pooled p node name j e f, length-set t.data_pool i (labelled symbol addr));
    counted = w.counted;
  },
  refl,
)

pub define_label-Keeps :
    (t : SymbolTable) (i addr : ℕ)
    → IsWell t
    → i < length t.data_pool
    → (u : SymbolTable) × ((define_label t i addr ≡ ok u) × Keeps t u)
define_label-Keeps t i addr w h =
    let (symbol, there) = get_elem?-lt t.data_pool i h in
    (
      record t { data_pool = set t.data_pool i (labelled symbol addr) },
      (define_label-written t i addr symbol there, labelled-Keeps t i addr symbol w),
    )

entered-IsWell :
    (t : SymbolTable) (curr num : ℕ) (node : Node)
    → get_elem? t.nodes curr ≡ some node
    → IsWell t
    → IsWell (entered t curr node num)
entered-IsWell t curr num node there w = record {
  is_tree = entered-IsTree t curr node num there w.is_tree;
  pooled = λ p other name i e f.
      let made = with_child node (length t.nodes) in
      elim (get_elem?-append_cases (set t.nodes curr made) (new_node curr) p other e) [
        | inl (_, n) ↦ cc (f, ap (λ x. lookup name x.table) n)
        | inr old ↦ elim (get_elem?-set_cases t.nodes curr made p other old) [
          | inr older ↦ w.pooled p other name i older f
          | inl (_, n) ↦ w.pooled curr node name i there (sym (ap (λ x. lookup name x.table) n) ∙ f)
        ]
      ];
  counted = (suc num, refl);
}

entered-scopes :
    (t : SymbolTable) (curr num : ℕ) (node : Node)
    → scopes (entered t curr node num) ≡ with_block (scopes t) curr (scope_of node)
entered-scopes t curr num node =
    let made = with_child node (length t.nodes) in
    let below : List Scope = record { parent = curr; children = [] } ∷ [] in
    map-append scope_of (set t.nodes curr made) (new_node curr ∷ [])
    ∙ ap (λ l. l ++ below) (map-set scope_of t.nodes curr made)
    ∙ ap (λ n. set (scopes t) curr (with_more (scope_of node) (n ∷ [])) ++ below)
        (sym (length-map scope_of t.nodes))

-- In a well-formed table, `mkscope` ends with the next scope, below the current one, and it keeps
-- the invariant.
pub mkscope-with_block :
    (t : SymbolTable) (curr : ℕ) (x : Scope)
    → IsWell t
    → get_elem? (scopes t) curr ≡ some x
    → (u : SymbolTable) × ((mkscope t curr ≡ ok (u, length (scopes t)))
        × IsWell u
        × (scopes u ≡ with_block (scopes t) curr x))
mkscope-with_block t curr x w e =
    let (num, counted) = w.counted in
    let h : curr < length t.nodes =
      omega (arith, lt-get_elem? (scopes t) curr x e, length-map scope_of t.nodes) in
    let (node, there) = get_elem?-lt t.nodes curr h in
    let same : scope_of node ≡ x = cc (get_elem?-map scope_of t.nodes curr node there, e) in
    (
      entered t curr node num,
      (
        mkscope-entered t curr node num there counted
            ∙ ap (λ n. ok (entered t curr node num, n)) (sym (length-map scope_of t.nodes)),
        entered-IsWell t curr num node there w,
        entered-scopes t curr num node ∙ ap (with_block (scopes t) curr) same,
      ),
    )
