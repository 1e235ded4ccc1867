-- ===== src/SymbolTable.antt =====
-- scoped_table_base_class.hpp, ident_table_classes.hpp and symbol_table_classes.hpp of
-- assembler_disassembler/src: the tree of scopes and the symbols that they hold. A pointer to a
-- scope is its place in the list of all scopes, the root first; a pointer to a symbol is its place
-- in the pool.
pub mod Scopes
pub mod Insert
pub mod Blocks
pub mod Labels
pub mod Shape
pub mod Forest
pub mod Below
pub mod Names
pub mod Sees
pub mod Addresses
use frost32_cpu.Prelude.{
  ℕ, zero, suc, List, [], ◌∷◌, ◌++◌, String, Bool, true, false, Option, none, some, ◌==◌,
  if◌then◌else◌, length, get_elem?, set,
}
use frost32_cpu.Prelude.Int.{ℤ, pos, negsuc, ltb_ℤ}
use frost32_cpu.Prelude.Text.{str_eq, lookup}
use frost32_cpu.Outcome.{
  Outcome, ok, exits, undefined, deref, bind, too_many_scopes, rmscope_at_root,
}

pub record Symbol : Type 0 where
  pub name : String
  pub addr : ℕ
  pub found_as_label : Bool

-- `IdentToPointerTable`: a map from names to pointers.
abbrev pub IdentTable : Type 0
IdentTable = List (String × ℕ)

pub record Node : Type 0 where
  pub table : IdentTable
  pub parent : ℕ
  pub children : List ℕ

pub record SymbolTable : Type 0 where
  pub nodes : List Node
  pub scope_num : ℤ
  pub data_pool : List Symbol

-- `&__tree`.
abbrev pub tree : ℕ
tree = 0

-- `table.at(name) = pointer`
unfoldable pub insert_ident : IdentTable → String → ℕ → IdentTable
insert_ident [] name p = (name, p) ∷ []
insert_ident ((j, q) ∷ m) name p =
    if str_eq name j then (j, p) ∷ m else (j, q) ∷ insert_ident m name p

-- `++__scope_num`
abbrev increment : ℤ → ℤ
increment (pos n) = pos (suc n)
increment (negsuc zero) = pos 0
increment (negsuc (suc n)) = negsuc n

abbrev pub new_node : ℕ → Node
new_node parent = record { table = []; parent = parent; children = [] }

infixl 5 ◌>>=◌
abbrev ◌>>=◌ {ℓ κ} : {A : Type ℓ} {B : Type κ} → Outcome A → (A → Outcome B) → Outcome B
m >>= f = bind m f

-- The new table and the scope that `some_curr_node` is left at.
unfoldable pub mkscope : SymbolTable → ℕ → Outcome (SymbolTable × ℕ)
mkscope t curr =
    let num = increment t.scope_num in
    let made = length t.nodes in
    if ltb_ℤ num (pos 0) then exits too_many_scopes else do
      node ← deref (get_elem? t.nodes curr)
      let appended = record node { children = node.children ++ made ∷ [] }
      ok (
        record t { nodes = set t.nodes curr appended ++ new_node curr ∷ []; scope_num = num },
        made,
      )

unfoldable pub rmscope : SymbolTable → ℕ → Outcome ℕ
rmscope t curr =
    if curr == tree
    then exits rmscope_at_root
    else do node ← deref (get_elem? t.nodes curr); ok node.parent

-- The constructor: the root, and one scope below it.
abbrev pub symbol_table : SymbolTable
symbol_table = record {
  nodes =
      record { table = []; parent = tree; children = 1 ∷ [] }
      ∷ record { table = []; parent = tree; children = [] }
      ∷ [];
  scope_num = pos 0;
  data_pool = [];
}

-- `insert_or_assign` of the table: the symbol goes to the pool, its pointer into the scope.
unfoldable pub insert_or_assign : SymbolTable → ℕ → Symbol → Outcome SymbolTable
unfolding insert_ident
insert_or_assign t curr sym = do
  node ← deref (get_elem? t.nodes curr)
  let inserted = record node { table = insert_ident node.table sym.name (length t.data_pool) }
  ok (record t { nodes = set t.nodes curr inserted; data_pool = t.data_pool ++ sym ∷ [] })

-- The loop of `find` from the scope `p` outwards, with fuel. The root is not searched.
unfoldable pub find_from : ℕ → SymbolTable → ℕ → String → Outcome (Option ℕ)
find_from zero t p name = undefined
find_from (suc fuel) t p name = if p == tree then ok none else do
  node ← deref (get_elem? t.nodes p)
  elim (lookup name node.table) [ none ↦ find_from fuel t node.parent name | some s ↦ ok (some s) ]

unfoldable pub find : SymbolTable → ℕ → String → Outcome (Option ℕ)
unfolding find_from
find t p name = find_from (suc (length t.nodes)) t p name

unfoldable pub find_in_this_blklev : SymbolTable → ℕ → String → Outcome (Option ℕ)
find_in_this_blklev t curr name = do
  node ← deref (get_elem? t.nodes curr)
  ok (lookup name node.table)

-- A symbol that is not found is made in the current scope, and is then found by a second search.
unfoldable pub find_or_insert : SymbolTable → ℕ → String → Outcome (SymbolTable × Option ℕ)
unfolding find insert_or_assign
find_or_insert t curr name = do
  search ← find t curr name
  elim search [
    | some s ↦ ok (t, some s)
    | none ↦ do
      t' ← insert_or_assign t curr (record { name = name; addr = 0; found_as_label = false })
      again ← find t' curr name
      ok (t', again)
  ]

-- `sym->set_found_as_label(true); sym->set_addr(addr);`
unfoldable pub define_label : SymbolTable → ℕ → ℕ → Outcome SymbolTable
define_label t s addr = do
  sym ← deref (get_elem? t.data_pool s)
  ok (record t {
    data_pool = set t.data_pool s (record sym { found_as_label = true; addr = addr });
  })

-- The name in the first scope below a scope; `front` of no children is undefined.
unfoldable pub find_func_arg : SymbolTable → ℕ → String → Outcome (Option ℕ)
find_func_arg t func_node name = do
  node ← deref (get_elem? t.nodes func_node)
  front ← deref (get_elem? node.children 0)
  child ← deref (get_elem? t.nodes front)
  ok (lookup name child.table)

-- `__inner_func_get_all_children_tables`: the tables of some children and of all that is below them,
-- with fuel for the depth. The pointer to a table is that of its scope.
unfoldable pub children_tables : ℕ → SymbolTable → List ℕ → Outcome (List ℕ)
children_tables fuel t [] = ok []
children_tables zero t (c ∷ children) = undefined
children_tables (suc fuel) t (c ∷ children) = do
  node ← deref (get_elem? t.nodes c)
  below ← children_tables fuel t node.children
  rest ← children_tables (suc fuel) t children
  ok (c ∷ below ++ rest)

unfoldable pub get_all_children_tables : SymbolTable → ℕ → Outcome (List ℕ)
unfolding children_tables
get_all_children_tables t p = do
  node ← deref (get_elem? t.nodes p)
  children_tables (length t.nodes) t node.children
