-- ===== src/Assembler/Expr/Steps.antt =====
-- A visitor of an expression, as one that leaves a value on the stack of numbers: the steps that
-- the visitors of assembler_class.cpp are made of, and their operators.
use frost32_cpu.Prelude.{
  ◌*◌, ◌/◌, ◌^◌, ◌<◌, ◌≡◌, ◌≢◌, ◌∙◌, refl, length, ◌∷◌, String, Bool, true, false, not, ◌&&◌, ltb,
  if◌then◌else◌,
}
use frost32_cpu.Prelude.Int.{ℤ, pos, to_s64, to_u64, ◌*ℤ◌, shr_ℤ, abs, is_neg, quot, rem, fits_s64}
use frost32_cpu.Prelude.Text.{str_eq}
use frost32_cpu.Outcome.{Outcome, divide_by_zero, ok, exits, uncaught, undefined, bind}
use frost32_cpu.SymbolTable.Scopes.{IsTree}
use frost32_cpu.Assembler.{Assembler, M, ◌>>=◌, push_num, pop_num, undefined_behaviour, is_pass_one}
use frost32_cpu.Assembler.Operators.{
  push_checked, is_true, is_shift, apply_logical, apply_compare, divide, remainder, shift_left,
  shift_right_logical, shift_right_arithmetic, apply_mul_div_etc,
}
use frost32_cpu.Assembler.Expr.Value.{
  Env, checked, logical_value, compare_value, quotient, arithmetic_value,
}

abbrev pub env_of : Assembler → Env
env_of s = record {
  pass = s.pass;
  pc = s.pc.curr;
  sym_tbl = s.sym_tbl;
  curr_scope_node = s.curr_scope_node;
}

abbrev pub pushed : Assembler → ℤ → Outcome (Unit {0} × Assembler)
pushed s n = ok (tt, record s { num_stack = n ∷ s.num_stack })

-- In a scope below the root of a tree, a visitor ends as the value does: it pushes it and changes
-- nothing else, or it stops in the same way.
abbrev pub Pushes : M (Unit {0}) → (Env → Outcome ℤ) → Type 0
Pushes m r =
    (s : Assembler)
    → IsTree s.sym_tbl
    → s.curr_scope_node < length s.sym_tbl.nodes
    → s.curr_scope_node ≢ 0
    → m s ≡ bind (r (env_of s)) (pushed s)

-- A value that is popped by what follows.
pub pop_after :
    (r : Outcome ℤ) (m : M (Unit {0})) (k : ℤ → M (Unit {0}))
    (f : ℤ → Outcome (Unit {0} × Assembler)) (s : Assembler)
    → m s ≡ bind r (pushed s)
    → ((n : ℤ) → k n s ≡ f n)
    → (m >>= λ _. pop_num >>= k) s ≡ bind r f
unfolding pop_num
pop_after (ok n) m k f s e h = rw (◌>>=◌, e) (h n)
pop_after (exits x) m k f s e h = rw (◌>>=◌, e) refl
pop_after uncaught m k f s e h = rw (◌>>=◌, e) refl
pop_after undefined m k f s e h = rw (◌>>=◌, e) refl

bind-bind :
    (r : Outcome ℤ) (f : ℤ → Outcome ℤ) (g : ℤ → Outcome (Unit {0} × Assembler))
    → bind r (λ n. bind (f n) g) ≡ bind (bind r f) g
bind-bind (ok n) f g = refl
bind-bind (exits x) f g = refl
bind-bind uncaught f g = refl
bind-bind undefined f g = refl

-- A visit and an operator on its value.
pub unary-Pushes :
    (m : M (Unit {0})) (r : Env → Outcome ℤ) (k : ℤ → M (Unit {0})) (f : Env → ℤ → Outcome ℤ)
    → Pushes m r
    → ((n : ℤ) → Pushes (k n) (λ env. f env n))
    → Pushes (m >>= λ _. pop_num >>= k) (λ env. bind (r env) (f env))
unary-Pushes m r k f h g s t c z =
    pop_after (r (env_of s)) m k (λ n. bind (f (env_of s) n) (pushed s)) s (h s t c z)
      (λ n. g n s t c z)
    ∙ bind-bind (r (env_of s)) (f (env_of s)) (pushed s)

-- Two visits and an operator on their values.
pub binary-Pushes :
    (m n : M (Unit {0})) (r q : Env → Outcome ℤ) (k : ℤ → ℤ → M (Unit {0}))
    (f : Env → ℤ → ℤ → Outcome ℤ)
    → Pushes m r
    → Pushes n q
    → ((a b : ℤ) → Pushes (k a b) (λ env. f env a b))
    → Pushes
        (m >>= λ _. pop_num >>= λ a. n >>= λ _. pop_num >>= k a)
        (λ env. bind (r env) λ a. bind (q env) λ b. f env a b)
binary-Pushes m n r q k f h j g =
    unary-Pushes m r (λ a. n >>= λ _. pop_num >>= k a) (λ env a. bind (q env) (f env a)) h
      (λ a. unary-Pushes n q (k a) (λ env. f env a) j (g a))

-- An operator that ends as the outcome does.
abbrev pub Gives : Assembler → M (Unit {0}) → Outcome ℤ → Type 0
Gives s m r = m s ≡ bind r (pushed s)

module _ (s : Assembler) where
  pub push_num-Gives : (n : ℤ) → Gives s (push_num n) (ok n)
  unfolding push_num
  push_num-Gives n = refl

  if-Gives :
      (test : Bool) (m n : M (Unit {0})) (r q : Outcome ℤ)
      → Gives s m r
      → Gives s n q
      → Gives s (if test then m else n) (if test then r else q)
  if-Gives true m n r q h k = h
  if-Gives false m n r q h k = k

  -- A chain of tests on the operator, one link.
  chain :
      (test : Bool) (n : ℤ) (m : M (Unit {0})) (r : Outcome ℤ)
      → Gives s m r
      → Gives s (if test then push_num n else m) (if test then ok n else r)
  chain test n m r h = if-Gives test (push_num n) m (ok n) r (push_num-Gives n) h

  -- A number that is pushed where the operator is defined.
  push_if-Gives :
      (test : Bool) (n : ℤ)
      → Gives s
          (if test then push_num n else undefined_behaviour)
          (if test then ok n else undefined)
  push_if-Gives test n = chain test n undefined_behaviour undefined refl

  if_at-Gives :
      (test : Bool) (x y : Outcome (Unit {0} × Assembler)) (r q : Outcome ℤ)
      → x ≡ bind r (pushed s)
      → y ≡ bind q (pushed s)
      → (if test then x else y) ≡ bind (if test then r else q) (pushed s)
  if_at-Gives true x y r q h k = h
  if_at-Gives false x y r q h k = k

  pub push_checked-Gives : (n : ℤ) → Gives s (push_checked n) (checked n)
  push_checked-Gives n = push_if-Gives (fits_s64 n) n

  pub apply_logical-Gives :
      (op : String) (a b : ℤ) → Gives s (apply_logical op a b) (logical_value op a b)
  unfolding apply_logical
  apply_logical-Gives op a b = chain (str_eq op "&&") _ _ _ (chain (str_eq op "||") _ _ _ refl)

  pub apply_compare-Gives :
      (op : String) (a b : ℤ) → Gives s (apply_compare op a b) (compare_value op a b)
  unfolding apply_compare
  apply_compare-Gives op a b = chain (str_eq op "==") _ _ _ (
      chain (str_eq op "!=") _ _ _ (
        chain (str_eq op "<") _ _ _ (
          chain (str_eq op ">") _ _ _
            (chain (str_eq op "<=") _ _ _ (chain (str_eq op ">=") _ _ _ refl)))))

  divide-Gives : (a b : ℤ) → Gives s (divide a b) (quotient s.pass a b)
  unfolding divide
  divide-Gives a b =
      if_at-Gives (is_true b) _ _ _ _ (push_checked-Gives (quot a b))
        (if_at-Gives (is_pass_one s) _ _ (exits divide_by_zero) _ refl (push_num-Gives (pos 0)))

  remainder-Gives :
      (a b : ℤ)
      → Gives s
          (remainder a b)
          (if is_true b && fits_s64 (quot a b) then ok (rem a b) else undefined)
  unfolding remainder
  remainder-Gives a b = push_if-Gives (is_true b && fits_s64 (quot a b)) (rem a b)

  shift_left-Gives :
      (a b : ℤ)
      → Gives s (shift_left a b) (
          if is_shift b && (not (is_neg a) && ltb (abs a * 2 ^ abs b) (2 ^ 64))
          then ok (to_s64 (abs a * 2 ^ abs b))
          else undefined)
  unfolding shift_left
  shift_left-Gives a b =
      push_if-Gives (is_shift b && (not (is_neg a) && ltb (abs a * 2 ^ abs b) (2 ^ 64)))
        (to_s64 (abs a * 2 ^ abs b))

  shift_right_logical-Gives :
      (a b : ℤ)
      → Gives s
          (shift_right_logical a b)
          (if ltb (to_u64 b) 64 then ok (to_s64 (to_u64 a / 2 ^ to_u64 b)) else undefined)
  unfolding shift_right_logical
  shift_right_logical-Gives a b =
      push_if-Gives (ltb (to_u64 b) 64) (to_s64 (to_u64 a / 2 ^ to_u64 b))

  shift_right_arithmetic-Gives :
      (a b : ℤ)
      → Gives s
          (shift_right_arithmetic a b)
          (if is_shift b then ok (shr_ℤ a (abs b)) else undefined)
  unfolding shift_right_arithmetic
  shift_right_arithmetic-Gives a b = push_if-Gives (is_shift b) (shr_ℤ a (abs b))

  pub apply_mul_div_etc-Gives :
      (op : String) (a b : ℤ) → Gives s (apply_mul_div_etc op a b) (arithmetic_value s.pass op a b)
  unfolding apply_mul_div_etc
  apply_mul_div_etc-Gives op a b = if-Gives (str_eq op "*") _ _ _ _ (push_checked-Gives (a *ℤ b)) (
      if-Gives (str_eq op "/") _ _ _ _ (divide-Gives a b) (
        if-Gives (str_eq op "%") _ _ _ _ (remainder-Gives a b) (
          chain (str_eq op "&") _ _ _ (
            chain (str_eq op "|") _ _ _ (
              chain (str_eq op "^") _ _ _ (
                if-Gives (str_eq op "<<") _ _ _ _ (shift_left-Gives a b) (
                  if-Gives (str_eq op ">>") _ _ _ _ (shift_right_logical-Gives a b) (
                    if-Gives (str_eq op ">>>") _ _ _ _ (shift_right_arithmetic-Gives a b)
                      refl))))))))
