-- ===== src/Assembler/Visit/Accepted/Steps.antt =====
-- How a step of assembler_class.cpp is shown to end with a state, and the names and registers that are
-- found in the tables.
use frost32_cpu.Prelude.{
  if◌then◌else◌, ℕ, ◌≡◌, ◌∙◌, refl, ap, String, List, [], ◌∷◌, Bool, true, false, ◌||◌,
}
use frost32_cpu.Prelude.Int.{ℤ}
use frost32_cpu.Prelude.Text.{all_of, all_of-elem, elem}
use frost32_cpu.Outcome.{Outcome, ok, exits, uncaught, undefined, bind}
use frost32_cpu.Assembler.{Assembler, M, ◌>>=◌, lift, modify, push_str, pop_str, get}
use frost32_cpu.Assembler.Syntax.{Expr}
use frost32_cpu.Assembler.Tokens.{push_tok_if}
use frost32_cpu.Assembler.Expr.Value.{eval_expr}
use frost32_cpu.Assembler.Expr.Steps.{env_of}
use frost32_cpu.Assembler.Expr.Refinement.{visit_expr-eval_expr}
use frost32_cpu.Assembler.Emits.{InScope, exact_then}
use frost32_cpu.Assembler.Visit.Values.{value_then}
use frost32_cpu.Assembler.Visit.{visit_value, get_one_reg_encoding, get_reg_encodings}

-- The step ends with a state.
pub record Accepts (m : M (Unit {0})) (s : Assembler) : Type 0 where
  pub end : Assembler
  pub ends : m s ≡ ok (tt, end)

pub modify-Accepts : (f : Assembler → Assembler) (s : Assembler) → Accepts (modify f) s
modify-Accepts f s = record { end = f s; ends = refl }

pub modify_then-Accepts :
    (f : Assembler → Assembler) (k : Unit {0} → M (Unit {0})) (s : Assembler)
    → Accepts (k tt) (f s)
    → Accepts (modify f >>= k) s
modify_then-Accepts f k s h = record { end = h.end; ends = h.ends }

pub get_then-Accepts :
    (k : Assembler → M (Unit {0})) (s : Assembler) → Accepts (k s) s → Accepts (get >>= k) s
get_then-Accepts k s h = record { end = h.end; ends = h.ends }

pub then-Accepts :
    (m : M (Unit {0})) (k : Unit {0} → M (Unit {0})) (s : Assembler)
    → Accepts m s
    → ((t : Assembler) → Accepts (k tt) t)
    → Accepts (m >>= k) s
then-Accepts m k s h g = record {
  end = (g h.end).end;
  ends = exact_then m k s h.end h.ends ∙ (g h.end).ends;
}

-- One of a chain of tests.
pub test-Accepts :
    (test rest : Bool) (m n : M (Unit {0})) (s : Assembler)
    → (test || rest) ≡ true
    → Accepts m s
    → (rest ≡ true → Accepts n s)
    → Accepts (if test then m else n) s
test-Accepts true rest m n s e h g = h
test-Accepts false rest m n s e h g = g e

pub lift-Accepts :
    {A : Type 0} (r : Outcome A) (k : A → M (Unit {0})) (s : Assembler) (a : A)
    → r ≡ ok a
    → Accepts (k a) s
    → Accepts (lift r >>= k) s
lift-Accepts r k s a e h = record { end = h.end; ends = rw e h.ends }

pub lift_if-Accepts :
    {A : Type 0} (test : Bool) (r q : Outcome A) (k l : A → M (Unit {0})) (s : Assembler) (a : A)
    → (if test then r else q) ≡ ok a
    → Accepts (k a) s
    → Accepts (l a) s
    → Accepts (if test then (lift r >>= k) else (lift q >>= l)) s
lift_if-Accepts true r q k l s a e h g = lift-Accepts r k s a e h
lift_if-Accepts false r q k l s a e h g = lift-Accepts q l s a e g

pub push_tok_if-Accepts :
    (tokens : List String) (message tok : String) (k : Unit {0} → M (Unit {0})) (s : Assembler)
    → elem tok tokens ≡ true
    → Accepts (k tt) (record s { str_stack = tok ∷ s.str_stack })
    → Accepts (push_tok_if tokens message tok >>= k) s
unfolding push_tok_if push_str
push_tok_if-Accepts tokens message tok k s e h = record { end = h.end; ends = rw e h.ends }

pub pop_str-Accepts :
    (tok : String) (k : String → M (Unit {0})) (s : Assembler)
    → Accepts (k tok) s
    → Accepts (pop_str >>= k) (record s { str_stack = tok ∷ s.str_stack })
unfolding pop_str
pop_str-Accepts tok k s h = record { end = h.end; ends = h.ends }

pub visit_value-Accepts :
    (e : Expr) (k : ℤ → M (Unit {0})) (s : Assembler) (n : ℤ)
    → InScope s
    → eval_expr (env_of s) e ≡ ok n
    → Accepts (k n) s
    → Accepts (visit_value e >>= k) s
visit_value-Accepts e k s n (t, c, z) v h = record {
  end = h.end;
  ends =
      value_then e (eval_expr (env_of s) e) k s (visit_expr-eval_expr e s t c z)
      ∙ ap (λ r. bind r (λ n. k n s)) v
      ∙ h.ends;
}

pub ruleset accept_rules = (
  modify-Accepts, modify_then-Accepts, get_then-Accepts, lift-Accepts, push_tok_if-Accepts,
  pop_str-Accepts, visit_value-Accepts,
)

-- A register of the table.
abbrev pub IsReg : String → ℕ → Type 0
IsReg reg r = get_one_reg_encoding reg ≡ ok r

pub regs_one : (a : String) (ra : ℕ) → IsReg a ra → get_reg_encodings (a ∷ []) ≡ ok (ra ∷ [])
unfolding get_reg_encodings
regs_one a ra e = rw e refl

pub regs_two :
    (a b : String) (ra rb : ℕ)
    → IsReg a ra
    → IsReg b rb
    → get_reg_encodings (a ∷ b ∷ []) ≡ ok (ra ∷ rb ∷ [])
unfolding get_reg_encodings
regs_two a b ra rb e f = rw (e, f) refl

pub regs_three :
    (a b c : String) (ra rb rc : ℕ)
    → IsReg a ra
    → IsReg b rb
    → IsReg c rc
    → get_reg_encodings (a ∷ b ∷ c ∷ []) ≡ ok (ra ∷ rb ∷ rc ∷ [])
unfolding get_reg_encodings
regs_three a b c ra rb rc e f g = rw (e, f, g) refl

abbrev pub is_ok : Outcome ℕ → Bool
is_ok (ok n) = true
is_ok _ = false

is_ok-ok : (r : Outcome ℕ) → is_ok r ≡ true → (n : ℕ) × (r ≡ ok n)
is_ok-ok (ok n) e = (n, refl)
is_ok-ok (exits x) e = cc
is_ok-ok uncaught e = cc
is_ok-ok undefined e = cc

-- What is found for each of some names is found for one of them.
pub token_found :
    (find : String → Outcome ℕ) (tok : String) (tokens : List String)
    → all_of (λ t. is_ok (find t)) tokens ≡ true
    → elem tok tokens ≡ true
    → (n : ℕ) × (find tok ≡ ok n)
token_found find tok tokens a e =
    is_ok-ok (find tok) (all_of-elem (λ t. is_ok (find t)) tok tokens a e)
