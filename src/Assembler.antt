-- ===== src/Assembler.antt =====
-- assembler_class.hpp of assembler_disassembler/src: the state of the assembler and its stacks.
-- A visitor takes the state and returns the new one with its result, or stops.
pub mod Emit
pub mod Groups
pub mod Syntax
pub mod Operators
pub mod Tokens
pub mod Expr
pub mod Encode
pub mod Visit
pub mod Pseudo
pub mod Program
pub mod Emits
pub mod Formats
use frost32_cpu.Prelude.{ℕ, List, [], ◌∷◌, String, Bool, not, ◌==◌}
use frost32_cpu.Prelude.Int.{ℤ}
use frost32_cpu.Outcome.{Outcome, ok, exits, uncaught, undefined, Error}
use frost32_cpu.Orange.{PrevCurrPair}
use frost32_cpu.Output.{Item}
use frost32_cpu.SymbolTable.{SymbolTable, symbol_table, tree}

-- What goes to std::cerr besides an error that ends the run.
pub data Warning : Type 0 where
  imm16 simm16 branch_offset simm12 : ℤ → Warning

-- `curr_scope_node` is null in the source until `run` sets it, before any use.
pub record Assembler : Type 0 where
  pub sym_tbl : SymbolTable
  pub pc : PrevCurrPair
  pub num_stack : List ℤ
  pub scope_child_num_stack : List ℕ
  pub str_stack : List String
  pub pass : ℕ
  pub show_words : Bool
  pub curr_scope_node : ℕ
  pub out : List Item
  pub warnings : List Warning

-- The constructor.
abbrev pub assembler : Bool → Assembler
assembler show_words = record {
  sym_tbl = symbol_table;
  pc = record { prev = 0; curr = 0 };
  num_stack = [];
  scope_child_num_stack = [];
  str_stack = [];
  pass = 0;
  show_words = show_words;
  curr_scope_node = tree;
  out = [];
  warnings = [];
}

-- `if (__pass)`
abbrev pub is_pass_one : Assembler → Bool
is_pass_one s = not (s.pass == 0)

abbrev pub M : Type 0 → Type 0
M A = Assembler → Outcome (A × Assembler)

infixl 5 ◌>>=◌ ◌>>◌
abbrev pub ◌>>=◌ : {A B : Type 0} → M A → (A → M B) → M B
◌>>=◌ m f s = elim (m s) [
  | ok (a, s') ↦ f a s'
  | exits e ↦ exits e
  | uncaught ↦ uncaught
  | undefined ↦ undefined
]

abbrev pub ◌>>◌ : {B : Type 0} → M (Unit {0}) → M B → M B
m >> k = m >>= λ _. k

abbrev pub pure : {A : Type 0} → A → M A
pure a s = ok (a, s)

abbrev pub nothing : M (Unit {0})
nothing = pure tt

abbrev pub get : M Assembler
get s = ok (s, s)

abbrev pub put : Assembler → M (Unit {0})
put s' s = ok (tt, s')

-- A step that cannot fail.
abbrev pub modify : (Assembler → Assembler) → M (Unit {0})
modify f s = ok (tt, f s)

abbrev pub err : {A : Type 0} → Error → M A
err e s = exits e

abbrev pub undefined_behaviour : {A : Type 0} → M A
undefined_behaviour s = undefined

-- A result that does not depend on the state.
abbrev pub lift : {A : Type 0} → Outcome A → M A
lift r s = elim r [
  | ok a ↦ ok (a, s)
  | exits e ↦ exits e
  | uncaught ↦ uncaught
  | undefined ↦ undefined
]

unfoldable pub push_num : ℤ → M (Unit {0})
push_num n s = ok (tt, record s { num_stack = n ∷ s.num_stack })

unfoldable pub pop_num : M ℤ
pop_num s = elim s.num_stack [ [] ↦ undefined | n ∷ rest ↦ ok (n, record s { num_stack = rest }) ]

unfoldable pub push_str : String → M (Unit {0})
push_str name s = ok (tt, record s { str_stack = name ∷ s.str_stack })

unfoldable pub pop_str : M String
pop_str s = elim s.str_stack [
  | [] ↦ undefined
  | name ∷ rest ↦ ok (name, record s { str_stack = rest })
]

unfoldable pub push_scope_child_num : ℕ → M (Unit {0})
push_scope_child_num n s = ok (tt, record s { scope_child_num_stack = n ∷ s.scope_child_num_stack })

unfoldable pub get_top_scope_child_num : M ℕ
get_top_scope_child_num s = elim s.scope_child_num_stack [ [] ↦ undefined | n ∷ rest ↦ ok (n, s) ]

unfoldable pub pop_scope_child_num : M ℕ
pop_scope_child_num s = elim s.scope_child_num_stack [
  | [] ↦ undefined
  | n ∷ rest ↦ ok (n, record s { scope_child_num_stack = rest })
]
