-- ===== src/SymbolTable/Labels.antt =====
-- A label that is defined, as `visitLabel` of assembler_class.cpp does with the tables of
-- scoped_table_base_class.hpp and the symbols of symbol_table_classes.hpp.
use mathlib.Core.Path.{subst}
use frost32_cpu.Prelude.{
  ℕ, ◌+◌, ◌<◌, ◌≡◌, ◌≢◌, ◌⊎◌, ◌∙◌, refl, ap, sym, [], ◌∷◌, ◌++◌, String, true, some, length,
  get_elem?, set, get_elem?-lt, lt-get_elem?, get_elem?-set_self, length-append, arith, inl, inr,
}
use frost32_cpu.Outcome.{ok}
use frost32_cpu.SymbolTable.{SymbolTable, Symbol, find, find_or_insert, define_label}
use frost32_cpu.SymbolTable.Scopes.{IsTree, Visible, here, outer, find_iff}
use frost32_cpu.SymbolTable.Insert.{fresh, find_or_insert-Visible}

-- The symbols that a scope sees under a name are in the pool.
abbrev pub IsPooled : SymbolTable → ℕ → String → Type 0
IsPooled t curr name = (i : ℕ) → Visible t name i curr → i < length t.data_pool

Visible-lt : (t : SymbolTable) (name : String) (i p : ℕ) → Visible t name i p → p < length t.nodes
Visible-lt t name i p (here _ node h e f) = lt-get_elem? t.nodes p node e
Visible-lt t name i p (outer _ node h e f d) = lt-get_elem? t.nodes p node e

-- What is visible depends on the scopes alone.
pub Visible-nodes :
    (t u : SymbolTable) (name : String) (i p : ℕ)
    → t.nodes ≡ u.nodes
    → Visible t name i p
    → Visible u name i p
Visible-nodes t u name i p e (here _ node h there f) =
    here p node h (sym (ap (λ l. get_elem? l p) e) ∙ there) f
Visible-nodes t u name i p e (outer _ node h there f d) =
    outer p node h (sym (ap (λ l. get_elem? l p) e) ∙ there) f
      (Visible-nodes t u name i node.parent e d)

-- The symbol that `find_or_insert` gives is in the pool.
inside :
    (t t' : SymbolTable) (curr i : ℕ) (name : String)
    → IsPooled t curr name
    → Visible t' name i curr
    → (t' ≡ t) ⊎ ((i ≡ length t.data_pool) × (t'.data_pool ≡ t.data_pool ++ fresh name ∷ []))
    → i < length t'.data_pool
inside t t' curr i name pooled seen (inl same) =
    subst (λ u. i < length u.data_pool) (sym same)
      (pooled i (subst (λ u. Visible u name i curr) same seen))
inside t t' curr i name pooled seen (inr (p, q)) =
    let e : length t'.data_pool ≡ length t.data_pool + 1 =
      ap (length) q ∙ length-append t.data_pool (fresh name ∷ []) in
    omega (arith, p, e)

-- The symbol as a label at an address.
abbrev pub labelled : Symbol → ℕ → Symbol
labelled symbol addr = record symbol { found_as_label = true; addr = addr }

pub define_label-written :
    (t : SymbolTable) (i addr : ℕ) (symbol : Symbol)
    → get_elem? t.data_pool i ≡ some symbol
    → define_label t i addr ≡ ok (record t { data_pool = set t.data_pool i (labelled symbol addr) })
unfolding define_label
define_label-written t i addr symbol e = rw e refl

-- In a scope below the root of a tree whose visible symbols are in the pool, the search or
-- insertion of a name and the definition of its symbol as a label both succeed, and the table is
-- still a tree with the scope, which finds the name with a symbol that is a label at the address.
pub define_label-find :
    (t : SymbolTable) (curr addr : ℕ) (name : String)
    → IsTree t
    → curr < length t.nodes
    → curr ≢ 0
    → IsPooled t curr name
    → (made defined : SymbolTable) × (i : ℕ) × (symbol : Symbol) × ((find_or_insert t curr name
          ≡ ok (made, some i))
        × (define_label made i addr ≡ ok defined)
        × IsTree defined
        × (curr < length defined.nodes)
        × (find defined curr name ≡ ok (some i))
        × (get_elem? defined.data_pool i ≡ some (labelled symbol addr)))
define_label-find t curr addr name v c z pooled =
    let (made, i, (e, seen, v', how)) = find_or_insert-Visible t curr name v c z in
    let h = inside t made curr i name pooled seen how in
    let (symbol, there) = get_elem?-lt made.data_pool i h in
    let defined : SymbolTable = record made {
      data_pool = set made.data_pool i (labelled symbol addr);
    } in
    let d = Visible-nodes made defined name i curr refl seen in
    (
      made,
      defined,
      i,
      symbol,
      (
        e,
        define_label-written made i addr symbol there,
        v',
        Visible-lt defined name i curr d,
        (find_iff defined name curr i v' (Visible-lt defined name i curr d)).1.1 d,
        get_elem?-set_self made.data_pool i (labelled symbol addr) h,
      ),
    )
