-- ===== src/Assembler/Emits/Posts.antt =====
-- How an outcome of a visitor of assembler_class.cpp is taken apart step by step: what holds of the
-- state where a step ends.
use mathlib.Core.Path.{subst}
use frost32_cpu.Prelude.{
  ◌<◌, ◌≡◌, ◌≢◌, refl, sym, length, Bool, true, false, List, ◌∷◌, String, Bool-cases, inl, inr,
  if◌then◌else◌,
}
use frost32_cpu.Prelude.Int.{ℤ}
use frost32_cpu.Prelude.Text.{elem}
use frost32_cpu.Outcome.{Outcome, Error, ok, exits, uncaught, undefined, bind}
use frost32_cpu.SymbolTable.Scopes.{IsTree}
use frost32_cpu.Assembler.{err, Assembler, M, ◌>>=◌, lift, push_str, pop_str, modify}
use frost32_cpu.Assembler.Syntax.{Expr}
use frost32_cpu.Assembler.Tokens.{push_tok_if}
use frost32_cpu.Assembler.Expr.Value.{eval_expr}
use frost32_cpu.Assembler.Expr.Steps.{env_of}
use frost32_cpu.Assembler.Expr.Refinement.{visit_expr-eval_expr}
use frost32_cpu.Assembler.Visit.{visit_value}
use frost32_cpu.Assembler.Visit.Values.{value_then}

-- What holds of the state where an outcome has one.
abbrev pub Ends : Outcome (Unit {0} × Assembler) → (Assembler → Type 0) → Type 0
Ends (ok (u, s)) P = P s
Ends (exits e) P = Unit
Ends uncaught P = Unit
Ends undefined P = Unit

-- The scope of a state is one below the root of a tree.
abbrev pub InScope : Assembler → Type 0
InScope s =
    IsTree s.sym_tbl × (s.curr_scope_node < length s.sym_tbl.nodes) × (s.curr_scope_node ≢ 0)

weaken-Ends :
    (r : Outcome (Unit {0} × Assembler)) (P Q : Assembler → Type 0)
    → Ends r P
    → ((t : Assembler) → P t → Q t)
    → Ends r Q
weaken-Ends (ok (u, t)) P Q h g = g t h
weaken-Ends (exits e) P Q h g = tt
weaken-Ends uncaught P Q h g = tt
weaken-Ends undefined P Q h g = tt

-- What holds of the state where a step that starts in a state ends with one.
pub record Post (m : M (Unit {0})) (s : Assembler) (P : Assembler → Type 0) : Type 0 where
  pub at : Ends (m s) P

module _ (P : Assembler → Type 0) where
  pub bind-Ends :
      {A : Type 0} (r : Outcome A) (f : A → Outcome (Unit {0} × Assembler))
      → ((a : A) → r ≡ ok a → Ends (f a) P)
      → Ends (bind r f) P
  bind-Ends (ok a) f h = h a refl
  bind-Ends (exits e) f h = tt
  bind-Ends uncaught f h = tt
  bind-Ends undefined f h = tt

  pub lift-Ends :
      {A : Type 0} (r : Outcome A) (k : A → M (Unit {0})) (s : Assembler)
      → ((a : A) → Ends (k a s) P)
      → Ends ((lift r >>= k) s) P
  lift-Ends (ok a) k s h = h a
  lift-Ends (exits e) k s h = tt
  lift-Ends uncaught k s h = tt
  lift-Ends undefined k s h = tt

  pub if-Post :
      (test : Bool) (m n : M (Unit {0})) (s : Assembler)
      → Post m s P
      → Post n s P
      → Post (if test then m else n) s P
  if-Post true m n s h g = h
  if-Post false m n s h g = g

  pub err-Post : (e : Error) (s : Assembler) → Post (err e) s P
  err-Post e s = record { at = tt }

  pub modify-Post : (f : Assembler → Assembler) (s : Assembler) → P (f s) → Post (modify f) s P
  modify-Post f s h = record { at = h }

  pub modify_then-Post :
      (f : Assembler → Assembler) (k : Unit {0} → M (Unit {0})) (s : Assembler)
      → Post (k tt) (f s) P
      → Post (modify f >>= k) s P
  modify_then-Post f k s h = record { at = h.at }

  pub lift-Post :
      {A : Type 0} (r : Outcome A) (k : A → M (Unit {0})) (s : Assembler)
      → ((a : A) → Post (k a) s P)
      → Post (lift r >>= k) s P
  lift-Post (ok a) k s h = record { at = (h a).at }
  lift-Post (exits e) k s h = record { at = tt }
  lift-Post uncaught k s h = record { at = tt }
  lift-Post undefined k s h = record { at = tt }

  pub push_tok_if-Post :
      (tokens : List String) (message tok : String) (k : Unit {0} → M (Unit {0})) (s : Assembler)
      → Post (k tt) (record s { str_stack = tok ∷ s.str_stack }) P
      → Post (push_tok_if tokens message tok >>= k) s P
  unfolding push_tok_if push_str
  push_tok_if-Post tokens message tok k s h = elim (Bool-cases (elem tok tokens)) [
    | inl e ↦ record { at = rw e (h.at) }
    | inr e ↦ record { at = rw e tt }
  ]

  pub pop_str-Post :
      (tok : String) (k : String → M (Unit {0})) (s : Assembler)
      → Post (k tok) s P
      → Post (pop_str >>= k) (record s { str_stack = tok ∷ s.str_stack }) P
  unfolding pop_str
  pop_str-Post tok k s h = record { at = h.at }

  pub valued-Post :
      (e : Expr) (k : ℤ → M (Unit {0})) (s : Assembler)
      → InScope s
      → ((n : ℤ) → eval_expr (env_of s) e ≡ ok n → Post (k n) s P)
      → Post (visit_value e >>= k) s P
  valued-Post e k s (t, c, z) h = record {
    at =
        subst (λ r. Ends r P)
          (sym (value_then e (eval_expr (env_of s) e) k s (visit_expr-eval_expr e s t c z)))
          (bind-Ends (eval_expr (env_of s) e) (λ n. k n s) (λ n v. (h n v).at));
  }

  pub visit_value-Post :
      (e : Expr) (k : ℤ → M (Unit {0})) (s : Assembler)
      → InScope s
      → ((n : ℤ) → Post (k n) s P)
      → Post (visit_value e >>= k) s P
  visit_value-Post e k s c h = valued-Post e k s c (λ n v. h n)

pub ruleset post_rules =
    (modify-Post, modify_then-Post, lift-Post, push_tok_if-Post, pop_str-Post, visit_value-Post)

then-Ends :
    (r : Outcome (Unit {0} × Assembler)) (k : Unit {0} → M (Unit {0})) (s : Assembler)
    (P Q : Assembler → Type 0)
    → Ends r P
    → ((t : Assembler) → P t → Ends (k tt t) Q)
    → Ends (((λ (x : Assembler). r) >>= k) s) Q
then-Ends (ok (u, t)) k s P Q h g = g t h
then-Ends (exits e) k s P Q h g = tt
then-Ends uncaught k s P Q h g = tt
then-Ends undefined k s P Q h g = tt

-- One step after another.
pub then-Post :
    (m : M (Unit {0})) (k : Unit {0} → M (Unit {0})) (s : Assembler) (P Q : Assembler → Type 0)
    → Post m s P
    → ((t : Assembler) → P t → Post (k tt) t Q)
    → Post (m >>= k) s Q
then-Post m k s P Q h g = record { at = then-Ends (m s) k s P Q h.at (λ t p. (g t p).at) }

-- A step whose end is known.
pub exact_then :
    (m : M (Unit {0})) (k : Unit {0} → M (Unit {0})) (s t : Assembler)
    → m s ≡ ok (tt, t)
    → (m >>= k) s ≡ k tt t
exact_then m k s t e = rw (◌>>=◌, e) refl

pub exact_then-Post :
    (m : M (Unit {0})) (k : Unit {0} → M (Unit {0})) (s t : Assembler) (P : Assembler → Type 0)
    → m s ≡ ok (tt, t)
    → Post (k tt) t P
    → Post (m >>= k) s P
exact_then-Post m k s t P e h = record { at = rw (◌>>=◌, e) h.at }

pub exact-Post :
    (m : M (Unit {0})) (s t : Assembler) (P : Assembler → Type 0)
    → m s ≡ ok (tt, t)
    → P t
    → Post m s P
exact-Post m s t P e h = record { at = rw e h }

-- A weaker statement of the same step.
pub weaken-Post :
    (m : M (Unit {0})) (s : Assembler) (P Q : Assembler → Type 0)
    → Post m s P
    → ((t : Assembler) → P t → Q t)
    → Post m s Q
weaken-Post m s P Q h g = record { at = weaken-Ends (m s) P Q h.at g }
