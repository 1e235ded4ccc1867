-- ===== src/Outcome.antt =====
-- How a run of either program can end: assembler_disassembler/src/assembler_class.hpp and
-- disassembler_class.hpp (`err`), and the ways of C++ to stop without it.
use frost32_cpu.Prelude.{Option, none, some, String}

-- What `err` and the other calls of `exit(1)` report.
pub data Error : Type 0 where
  eek : String → Error
  duplicate_label : String → Error
  unknown_symbol : String → Error
  divide_by_zero : Error
  binary_literal : Error
  too_many_scopes : Error
  rmscope_at_root : Error
  bad_data_size : Error
  usage : Error
  syntax_error : Error

-- `exits` is an error that the program reports; `uncaught` is std::out_of_range, which nothing
-- catches; `undefined` is a step that the language leaves undefined, such as a signed overflow.
pub data Outcome {ℓ} (A : Type ℓ) : Type ℓ where
  ok : A → Outcome A
  exits : Error → Outcome A
  uncaught undefined : Outcome A

-- `std::map::at` and `std::vector::at`.
abbrev pub at {ℓ} : {A : Type ℓ} → Option A → Outcome A
at none = uncaught
at (some a) = ok a

-- A pointer that is followed, or the top of a stack that is read.
abbrev pub deref {ℓ} : {A : Type ℓ} → Option A → Outcome A
deref none = undefined
deref (some a) = ok a

abbrev pub bind {ℓ κ} : {A : Type ℓ} {B : Type κ} → Outcome A → (A → Outcome B) → Outcome B
bind (ok a) f = f a
bind (exits e) f = exits e
bind uncaught f = uncaught
bind undefined f = undefined
