-- ===== src/Output.antt =====
-- What the two programs send to std::cout: the operands of `printout` in order, and the text that
-- an output stream makes of them.
pub mod Hex
use frost32_cpu.Prelude.{
  ℕ, zero, suc, ◌+◌, ◌-◌, ◌/◌, ◌%◌, List, [], ◌∷◌, ◌++◌, String, ltb, if◌then◌else◌,
}
use frost32_cpu.Prelude.Text.{codes}

pub data Item : Type 0 where
  hex dec : Item
  text : String → Item
  number : ℕ → Item

-- A digit of a base up to sixteen, in lower case.
abbrev pub digit : ℕ → ℕ
digit d = if ltb d 10 then b'0' + d else b'a' + (d - 10)

-- The digits of a number in a base, above a text that follows; the number of digits is bounded.
unfoldable pub digits_above : ℕ → ℕ → ℕ → List ℕ → List ℕ
digits_above zero base n after = after
digits_above (suc fuel) base n after =
    let rest = digits_above fuel base (n / base) (digit (n % base) ∷ after) in
    if ltb n base then digit n ∷ after else rest

-- Sixty-four digits are enough for a word of 64 bits in any base from two.
unfoldable pub digits : ℕ → ℕ → List ℕ
unfolding digits_above
digits base n = digits_above 64 base n []

-- The stream starts in decimal; `std::hex` and `std::dec` hold until the next of them.
unfoldable pub render : ℕ → List Item → List ℕ
unfolding digits
render base [] = []
render base (hex ∷ items) = render 16 items
render base (dec ∷ items) = render 10 items
render base (text s ∷ items) = codes s ++ render base items
render base (number n ∷ items) = digits base n ++ render base items

-- The base that the stream is left in.
unfoldable pub base_after : ℕ → List Item → ℕ
base_after base [] = base
base_after base (hex ∷ items) = base_after 16 items
base_after base (dec ∷ items) = base_after 10 items
base_after base (text s ∷ items) = base_after base items
base_after base (number n ∷ items) = base_after base items
