-- ===== src/Assembler/Expr/Bounds.antt =====
-- The values of expressions in assembler_class.cpp fit the 64 bits of an s64.
pub mod Values
use native.Mathlib.Nat.{div-le_self, mod-le}
use Prim.Native.Nat.{bit_and, bit_or, bit_xor}
use frost32_cpu.Prelude.{
  ℕ, suc, ◌*◌, ◌/◌, ◌%◌, ◌^◌, ◌<◌, ◌≡◌, refl, String, Bool, true, false, Option, none, some, not,
  ◌&&◌, ◌||◌, ltb, if◌then◌else◌, get_elem?, ◌==◌, arith,
}
use frost32_cpu.Prelude.Int.{
  ℤ, pos, negsuc, ◌*ℤ◌, eqb_ℤ, ltb_ℤ, is_neg, IsS64, quot, rem, shr_ℤ, fits_s64, fits_s64-IsS64,
  to_u64, to_s64, abs, bit_invert,
}
use frost32_cpu.Prelude.Text.{str_eq}
use frost32_cpu.Outcome.{Outcome, ok, exits, uncaught, undefined, eek, bind, deref}
use frost32_cpu.SymbolTable.{find}
use frost32_cpu.Assembler.Syntax.{NumExpr, dec_num, hex_num, bin_num, IdentName}
use frost32_cpu.Assembler.Operators.{from_bool, is_true, is_shift}
use frost32_cpu.Assembler.Tokens.{read_decimal, clamp_s64, read_hex, skip_two}
use frost32_cpu.Assembler.Expr.Value.{
  Env, checked, logical_value, compare_value, quotient, arithmetic_value, num_value, ident_text,
  label_of, symbol_value,
}

-- An outcome whose result, if it has one, fits an s64.
abbrev pub Fits : Outcome ℤ → Type 0
Fits (ok n) = IsS64 n
Fits (exits x) = Unit
Fits uncaught = Unit
Fits undefined = Unit

-- What follows a value that fits, or any value.
pub bind-Fits :
    (r : Outcome ℤ) (f : ℤ → Outcome ℤ)
    → Fits r
    → ((n : ℤ) → IsS64 n → Fits (f n))
    → Fits (bind r f)
bind-Fits (ok n) f h g = g n h
bind-Fits (exits x) f h g = tt
bind-Fits uncaught f h g = tt
bind-Fits undefined f h g = tt

after-Fits :
    {A : Type 0} → (r : Outcome A) (f : A → Outcome ℤ) → ((a : A) → Fits (f a)) → Fits (bind r f)
after-Fits (ok n) f g = g n
after-Fits (exits x) f g = tt
after-Fits uncaught f g = tt
after-Fits undefined f g = tt

if-Fits :
    (test : Bool) (r q : Outcome ℤ) → (test ≡ true → Fits r) → Fits q → Fits (if test then r else q)
if-Fits true r q h g = h refl
if-Fits false r q h g = g

test-Fits : (test : Bool) (n : ℤ) → IsS64 n → Fits (if test then ok n else undefined)
test-Fits true n h = h
test-Fits false n h = tt

pub to_s64-Fits : (w : ℕ) → IsS64 (to_s64 w)
to_s64-Fits w = ground arith

pub from_bool-Fits : (b : Bool) → IsS64 (from_bool b)
from_bool-Fits true = ground arith
from_bool-Fits false = ground arith

pub checked-Fits : (n : ℤ) → Fits (checked n)
checked-Fits n = if-Fits (fits_s64 n) (ok n) undefined (fits_s64-IsS64 n) tt

pub bit_invert-Fits : (n : ℤ) → IsS64 n → IsS64 (bit_invert n)
bit_invert-Fits (pos n) h = ground arith
bit_invert-Fits (negsuc n) h = ground arith

clamp_s64-Fits : (n : ℕ) → IsS64 (clamp_s64 n)
clamp_s64-Fits n = ground arith

shr_ℤ-Fits : (n : ℤ) (k : ℕ) → IsS64 n → IsS64 (shr_ℤ n k)
shr_ℤ-Fits (pos n) k h = ground (arith, div-le_self n (2 ^ k))
shr_ℤ-Fits (negsuc n) k h = ground (arith, div-le_self n (2 ^ k))

rem-Fits : (a b : ℤ) → IsS64 a → IsS64 (rem a b)
rem-Fits (pos a) b h = ground (arith, mod-le a (abs b))
rem-Fits (negsuc a) b h = ground (arith, mod-le (suc a) (abs b))

pub logical_value-Fits : (op : String) (a b : ℤ) → Fits (logical_value op a b)
logical_value-Fits op a b =
    if-Fits (str_eq op "&&") _ _ (λ _. from_bool-Fits (is_true a && is_true b))
      (if-Fits (str_eq op "||") _ _ (λ _. from_bool-Fits (is_true a || is_true b)) tt)

pub compare_value-Fits : (op : String) (a b : ℤ) → Fits (compare_value op a b)
compare_value-Fits op a b =
    if-Fits (str_eq op "==") _ _ (λ _. from_bool-Fits (eqb_ℤ a b))
      (if-Fits (str_eq op "!=") _ _ (λ _. from_bool-Fits (not (eqb_ℤ a b)))
        (if-Fits (str_eq op "<") _ _ (λ _. from_bool-Fits (ltb_ℤ a b))
          (if-Fits (str_eq op ">") _ _ (λ _. from_bool-Fits (ltb_ℤ b a))
            (if-Fits (str_eq op "<=") _ _ (λ _. from_bool-Fits (not (ltb_ℤ b a)))
              (if-Fits (str_eq op ">=") _ _ (λ _. from_bool-Fits (not (ltb_ℤ a b))) tt)))))

quotient-Fits : (pass : ℕ) (a b : ℤ) → Fits (quotient pass a b)
quotient-Fits pass a b =
    if-Fits (is_true b) _ _ (λ _. checked-Fits (quot a b))
      (if-Fits (not (pass == 0)) _ _ (λ _. tt) (ground arith))

shift-Fits :
    (op : String) (a b : ℤ)
    → IsS64 a
    → Fits (
        if str_eq op "<<"
        then (if is_shift b && (not (is_neg a) && ltb (abs a * 2 ^ abs b) (2 ^ 64))
            then ok (to_s64 (abs a * 2 ^ abs b))
            else undefined)
        else if str_eq op ">>"
        then (if ltb (to_u64 b) 64 then ok (to_s64 (to_u64 a / 2 ^ to_u64 b)) else undefined)
        else if str_eq op ">>>"
        then (if is_shift b then ok (shr_ℤ a (abs b)) else undefined)
        else exits (eek "visitExprAddSub():  Eek!"))
shift-Fits op a b h =
    if-Fits (str_eq op "<<") _ _
      (λ _.
        test-Fits (is_shift b && (not (is_neg a) && ltb (abs a * 2 ^ abs b) (2 ^ 64)))
          (to_s64 (abs a * 2 ^ abs b)) (to_s64-Fits (abs a * 2 ^ abs b)))
      (if-Fits (str_eq op ">>") _ _
        (λ _.
          test-Fits (ltb (to_u64 b) 64) (to_s64 (to_u64 a / 2 ^ to_u64 b))
            (to_s64-Fits (to_u64 a / 2 ^ to_u64 b)))
        (if-Fits (str_eq op ">>>") _ _
          (λ _. test-Fits (is_shift b) (shr_ℤ a (abs b)) (shr_ℤ-Fits a (abs b) h)) tt))

pub arithmetic_value-Fits :
    (pass : ℕ) (op : String) (a b : ℤ) → IsS64 a → Fits (arithmetic_value pass op a b)
arithmetic_value-Fits pass op a b h =
    if-Fits (str_eq op "*") _ _ (λ _. checked-Fits (a *ℤ b))
      (if-Fits (str_eq op "/") _ _ (λ _. quotient-Fits pass a b)
        (if-Fits (str_eq op "%") _ _
          (λ _. test-Fits (is_true b && fits_s64 (quot a b)) (rem a b) (rem-Fits a b h))
          (if-Fits (str_eq op "&") _ _ (λ _. to_s64-Fits (bit_and (to_u64 a) (to_u64 b)))
            (if-Fits (str_eq op "|") _ _ (λ _. to_s64-Fits (bit_or (to_u64 a) (to_u64 b)))
              (if-Fits (str_eq op "^") _ _ (λ _. to_s64-Fits (bit_xor (to_u64 a) (to_u64 b)))
                (shift-Fits op a b h))))))

pub num_value-Fits : (e : NumExpr) → Fits (num_value e)
num_value-Fits (dec_num str) = clamp_s64-Fits (read_decimal str 0)
num_value-Fits (hex_num str) =
    elim (read_hex 64 (skip_two str) 0)
      as (λ r.
        Fits (elim r [ none ↦ exits (eek "visitNumExpr():  Eek!") | some w ↦ ok (to_s64 w) ])) [
          | none ↦ tt
          | some w ↦ to_s64-Fits w
        ]
num_value-Fits (bin_num str) = tt

label_of-Fits : (env : Env) (name : String) (found : Option ℕ) → Fits (label_of env name found)
label_of-Fits env name none = tt
label_of-Fits env name (some sym) =
    after-Fits (deref (get_elem? env.sym_tbl.data_pool sym)) _
      (λ symbol. if-Fits symbol.found_as_label _ _ (λ _. to_s64-Fits symbol.addr) tt)

pub symbol_value-Fits : (env : Env) (ident : IdentName) → Fits (symbol_value env ident)
symbol_value-Fits env ident = after-Fits (ident_text ident) _ (λ name.
    if-Fits (not (env.pass == 0)) _ _
      (λ _. after-Fits (find env.sym_tbl env.curr_scope_node name) _ (label_of-Fits env name))
      (ground arith))
