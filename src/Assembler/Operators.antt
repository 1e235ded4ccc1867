-- ===== src/Assembler/Operators.antt =====
-- The operators of the expressions, in the visitors of assembler_class.cpp, on s64 values.
use Prim.Native.Nat.{bit_and, bit_or, bit_xor}
use frost32_cpu.Prelude.{◌*◌, ◌/◌, ◌^◌, String, Bool, not, ◌&&◌, ◌||◌, ltb, if◌then◌else◌}
use frost32_cpu.Prelude.Int.{
  ℤ, pos, ◌*ℤ◌, ltb_ℤ, eqb_ℤ, is_neg, quot, rem, shr_ℤ, fits_s64, to_u64, to_s64, abs,
}
use frost32_cpu.Prelude.Text.{str_eq}
use frost32_cpu.Outcome.{eek, divide_by_zero}
use frost32_cpu.Assembler.{M, err, undefined_behaviour, push_num, is_pass_one}

-- A signed result that its type cannot hold is undefined.
abbrev pub push_checked : ℤ → M (Unit {0})
push_checked n = if fits_s64 n then push_num n else undefined_behaviour

abbrev pub from_bool : Bool → ℤ
from_bool b = if b then pos 1 else pos 0

abbrev pub is_true : ℤ → Bool
is_true n = not (eqb_ℤ n (pos 0))

-- The operators of `visitExpr`, applied to what the two visits leave on the stack.
unfoldable pub apply_logical : String → ℤ → ℤ → M (Unit {0})
apply_logical op left right =
    if str_eq op "&&"
    then push_num (from_bool (is_true left && is_true right))
    else if str_eq op "||"
    then push_num (from_bool (is_true left || is_true right))
    else err (eek "visitExpr():  Eek!")

unfoldable pub apply_compare : String → ℤ → ℤ → M (Unit {0})
apply_compare op left right =
    if str_eq op "=="
    then push_num (from_bool (eqb_ℤ left right))
    else if str_eq op "!="
    then push_num (from_bool (not (eqb_ℤ left right)))
    else if str_eq op "<"
    then push_num (from_bool (ltb_ℤ left right))
    else if str_eq op ">"
    then push_num (from_bool (ltb_ℤ right left))
    else if str_eq op "<="
    then push_num (from_bool (not (ltb_ℤ right left)))
    else if str_eq op ">="
    then push_num (from_bool (not (ltb_ℤ left right)))
    else err (eek "visitExprLogical():  Eek!")

-- Division by zero is an error on the second pass, and 0 on the first.
unfoldable pub divide : ℤ → ℤ → M (Unit {0})
divide left right s =
    if is_true right
    then push_checked (quot left right) s
    else if is_pass_one s
    then err divide_by_zero s
    else push_num (pos 0) s

-- `left % right`: undefined by zero, and where the quotient does not fit.
unfoldable pub remainder : ℤ → ℤ → M (Unit {0})
remainder left right =
    if is_true right && fits_s64 (quot left right)
    then push_num (rem left right)
    else undefined_behaviour

-- A shift by a negative amount or by 64 and more is undefined. A left shift is defined of a number
-- that is not negative and whose product fits a u64.
abbrev pub is_shift : ℤ → Bool
is_shift right = not (is_neg right) && ltb (abs right) 64

unfoldable pub shift_left : ℤ → ℤ → M (Unit {0})
shift_left left right =
    let product = abs left * 2 ^ abs right in
    if is_shift right && (not (is_neg left) && ltb product (2 ^ 64))
    then push_num (to_s64 product)
    else undefined_behaviour

unfoldable pub shift_right_logical : ℤ → ℤ → M (Unit {0})
shift_right_logical left right =
    let to_push = to_u64 left / 2 ^ to_u64 right in
    if ltb (to_u64 right) 64 then push_num (to_s64 to_push) else undefined_behaviour

unfoldable pub shift_right_arithmetic : ℤ → ℤ → M (Unit {0})
shift_right_arithmetic left right =
    let to_push = shr_ℤ left (abs right) in
    if is_shift right then push_num to_push else undefined_behaviour

-- The operators of `visitExprAddSub`.
unfoldable pub apply_mul_div_etc : String → ℤ → ℤ → M (Unit {0})
apply_mul_div_etc op left right =
    if str_eq op "*"
    then push_checked (left *ℤ right)
    else if str_eq op "/"
    then divide left right
    else if str_eq op "%"
    then remainder left right
    else if str_eq op "&"
    then push_num (to_s64 (bit_and (to_u64 left) (to_u64 right)))
    else if str_eq op "|"
    then push_num (to_s64 (bit_or (to_u64 left) (to_u64 right)))
    else if str_eq op "^"
    then push_num (to_s64 (bit_xor (to_u64 left) (to_u64 right)))
    else if str_eq op "<<"
    then shift_left left right
    else if str_eq op ">>"
    then shift_right_logical left right
    else if str_eq op ">>>"
    then shift_right_arithmetic left right
    else err (eek "visitExprAddSub():  Eek!")
