-- ===== src/Prelude/Int.antt =====
-- Signed integers over the native numbers, under the library's names, and the 64-bit words
-- that a C++ program keeps them in.
use frost32_cpu.Prelude.{
  ℕ, suc, ◌+◌, ◌-◌, ◌*◌, ◌/◌, ◌%◌, ◌^◌, ◌≤◌, ◌<◌, ◌≡◌, Bool, true, false, arith, ltb, leb, ◌==◌,
  if◌then◌else◌,
}

-- `negsuc n` is -(n + 1).
pub data ℤ : Type 0 where
  pos : ℕ → ℤ
  negsuc : ℕ → ℤ

abbrev pub pos_part : ℤ → ℕ
pos_part (pos n) = n
pos_part (negsuc n) = 0

abbrev pub neg_part : ℤ → ℕ
neg_part (pos n) = 0
neg_part (negsuc n) = suc n

-- a - b, as an integer.
abbrev pub sub_ℕ : ℕ → ℕ → ℤ
sub_ℕ a b = if leb b a then pos (a - b) else negsuc (b - a - 1)

infixl 65 ◌+ℤ◌ ◌-ℤ◌
infixl 70 ◌*ℤ◌
infix 50 ◌≤ℤ◌
unfoldable pub ◌+ℤ◌ : ℤ → ℤ → ℤ
a +ℤ b = sub_ℕ (pos_part a + pos_part b) (neg_part a + neg_part b)

unfoldable pub ◌-ℤ◌ : ℤ → ℤ → ℤ
a -ℤ b = sub_ℕ (pos_part a + neg_part b) (neg_part a + pos_part b)

unfoldable pub ◌*ℤ◌ : ℤ → ℤ → ℤ
a *ℤ b =
    sub_ℕ (pos_part a * pos_part b + neg_part a * neg_part b)
      (pos_part a * neg_part b + neg_part a * pos_part b)

abbrev pub ◌≤ℤ◌ : ℤ → ℤ → Type 0
a ≤ℤ b = pos_part a + neg_part b ≤ pos_part b + neg_part a

abbrev pub ltb_ℤ : ℤ → ℤ → Bool
ltb_ℤ a b = ltb (pos_part a + neg_part b) (pos_part b + neg_part a)

abbrev pub eqb_ℤ : ℤ → ℤ → Bool
eqb_ℤ a b = (pos_part a + neg_part b) == (pos_part b + neg_part a)

abbrev pub abs : ℤ → ℕ
abs a = pos_part a + neg_part a

abbrev pub is_neg : ℤ → Bool
is_neg (pos n) = false
is_neg (negsuc n) = true

-- -n, as an integer.
abbrev pub minus : ℕ → ℤ
minus n = sub_ℕ 0 n

abbrev pub negate : ℤ → ℤ
negate a = sub_ℕ (neg_part a) (pos_part a)

-- Division as C++ rounds it, towards zero; the remainder has the dividend's sign.
abbrev pub quot : ℤ → ℤ → ℤ
quot (pos a) b = if is_neg b then minus (a / abs b) else pos (a / abs b)
quot (negsuc a) b = if is_neg b then pos (suc a / abs b) else minus (suc a / abs b)

abbrev pub rem : ℤ → ℤ → ℤ
rem (pos a) b = pos (a % abs b)
rem (negsuc a) b = minus (suc a % abs b)

-- All bits inverted: ~a is -a - 1.
abbrev pub bit_invert : ℤ → ℤ
bit_invert (pos n) = negsuc n
bit_invert (negsuc n) = pos n

-- The arithmetic right shift rounds down.
abbrev pub shr_ℤ : ℤ → ℕ → ℤ
shr_ℤ (pos n) k = pos (n / 2 ^ k)
shr_ℤ (negsuc n) k = negsuc (n / 2 ^ k)

-- The values that an s64 can hold.
abbrev pub fits_s64 : ℤ → Bool
fits_s64 (pos n) = ltb n (2 ^ 63)
fits_s64 (negsuc n) = ltb n (2 ^ 63)

abbrev pub IsS64 : ℤ → Type 0
IsS64 a = (pos_part a < 2 ^ 63) × (neg_part a ≤ 2 ^ 63)

-- The conversion of an s64 to a u64: the two's complement pattern.
abbrev pub to_u64 : ℤ → ℕ
to_u64 (pos n) = n % 2 ^ 64
to_u64 (negsuc n) = 2 ^ 64 - 1 - n % 2 ^ 64

-- The conversion of a w-bit pattern to the signed integer that it stands for.
abbrev pub to_s64 : ℕ → ℤ
to_s64 w = if ltb w (2 ^ 63) then pos w else negsuc (2 ^ 64 - 1 - w)

abbrev pub to_s16 : ℕ → ℤ
to_s16 w = if ltb w (2 ^ 15) then pos w else negsuc (2 ^ 16 - 1 - w)

abbrev pub to_s12 : ℕ → ℤ
to_s12 w = if ltb w (2 ^ 11) then pos w else negsuc (2 ^ 12 - 1 - w)

pub to_s64-IsS64 : (w : ℕ) → w < 2 ^ 64 → IsS64 (to_s64 w)
to_s64-IsS64 w h = ground arith

pub to_s64-to_u64 : (a : ℤ) → IsS64 a → to_s64 (to_u64 a) ≡ a
to_s64-to_u64 (pos n) h = ground arith
to_s64-to_u64 (negsuc n) h = ground arith

pub to_u64-to_s64 : (w : ℕ) → w < 2 ^ 64 → to_u64 (to_s64 w) ≡ w
to_u64-to_s64 w h = ground arith

pub to_u64-lt : (a : ℤ) → to_u64 a < 2 ^ 64
to_u64-lt (pos n) = omega arith
to_u64-lt (negsuc n) = omega arith

pub fits_s64-IsS64 : (a : ℤ) → fits_s64 a ≡ true → IsS64 a
fits_s64-IsS64 (pos n) h = ground arith
fits_s64-IsS64 (negsuc n) h = ground arith
