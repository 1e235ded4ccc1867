-- ===== src/Orange.antt =====
-- What the two programs call of liborangepower, a library of its own in the folder
-- liborangepower: the bit ranges of misc_bitwise_funcs.hpp, the pair of prev_curr_pair_class.hpp
-- and the joined texts of misc_output_classes.hpp. The operations are parameters of every
-- definition that calls them, and `Laws` is the behaviour that the callers rely on.
use frost32_cpu.Prelude.{
  ℕ, suc, ◌+◌, ◌-◌, ◌*◌, ◌/◌, ◌%◌, ◌^◌, ◌≤◌, ◌<◌, ◌≡◌, Bool, not, ◌==◌, List, String,
}

-- A pair of the library; its two members are public.
pub record PrevCurrPair : Type 0 where
  pub prev : ℕ
  pub curr : ℕ

pub record Orange : Type 0 where
  pub get_bits_with_range : ℕ → ℕ → ℕ → ℕ
  pub clear_and_set_bits_with_range : ℕ → ℕ → ℕ → ℕ → ℕ
  pub back_up : PrevCurrPair → PrevCurrPair
  pub has_changed : PrevCurrPair → Bool
  pub strappcom2 : List String → String

-- Reading the bits hi..lo of a word gives them as a number; writing them keeps all the others.
pub record Laws (o : Orange) : Type 0 where
  pub get_bits_lem :
      (w hi lo : ℕ)
      → lo ≤ hi
      → hi < 64
      → w < 2 ^ 64
      → o.get_bits_with_range w hi lo ≡ w / 2 ^ lo % 2 ^ (suc hi - lo)
  pub set_bits_lem :
      (w v hi lo : ℕ)
      → lo ≤ hi
      → hi < 64
      → w < 2 ^ 64
      → o.clear_and_set_bits_with_range w v hi lo
        ≡ w / 2 ^ suc hi * 2 ^ suc hi + v % 2 ^ (suc hi - lo) * 2 ^ lo + w % 2 ^ lo
  pub back_up_lem : (p : PrevCurrPair) → o.back_up p ≡ record { prev = p.curr; curr = p.curr }
  pub has_changed_lem : (p : PrevCurrPair) → o.has_changed p ≡ not (p.prev == p.curr)
