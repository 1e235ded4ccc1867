-- ===== src/Assembler/Emit/Lines.antt =====
-- The text of a line of output and the move of the program counter, as `gen_8`, `gen_16` and
-- `gen_32` of assembler_class.cpp make them.
use frost32_cpu.Prelude.{
  ℕ, ◌+◌, ◌%◌, ◌^◌, ◌==◌, Bool, true, false, List, [], ◌∷◌, ◌++◌, if◌then◌else◌, ltb,
}
use frost32_cpu.Orange.{Orange, PrevCurrPair}
use frost32_cpu.Output.{Item, hex, dec, text, number}
use frost32_cpu.Assembler.{Assembler, is_pass_one}

-- A program counter that is at an address and was output.
abbrev pub at_address : ℕ → PrevCurrPair
at_address n = record { prev = n; curr = n }

-- The state with a program counter moved by a number of bytes.
abbrev pub moved : ℕ → Assembler → Assembler
moved size s = record s { pc = at_address ((s.pc.curr + size) % 2 ^ 64) }

-- What is output before data: the address, where the program counter was moved by the program.
abbrev pub address_items : PrevCurrPair → List Item
address_items p = if p.prev == p.curr then [] else text "@" ∷ number p.curr ∷ text "\n" ∷ []

-- Two hexadecimal digits.
abbrev pub byte_items : ℕ → List Item
byte_items a = if ltb a 0x10 then number 0 ∷ number a ∷ [] else number a ∷ []

-- Output on the second pass only.
abbrev pub on : Bool → List Item → List Item
on test items = if test then items else []

abbrev pub on_pass_one : Assembler → List Item → List Item
on_pass_one s items = on (is_pass_one s) items

abbrev pub next : ℕ → PrevCurrPair → PrevCurrPair
next size p = at_address ((p.curr + size) % 2 ^ 64)

abbrev pub byte_line : ℕ → PrevCurrPair → List Item
byte_line word pc =
    (hex ∷ []) ++ address_items pc ++ byte_items word ++ (dec ∷ []) ++ (text "\n" ∷ [])

module _ (lib : Orange) where
  abbrev pub words_items : ℕ → PrevCurrPair → List Item
  words_items word pc =
      (hex ∷ [])
      ++ address_items pc
      ++ byte_items (lib.get_bits_with_range word 15 8)
      ++ byte_items (lib.get_bits_with_range word 7 0)
      ++ (dec ∷ [])

  -- A word of 32 bits in four bytes, on a line each, or in two halves on one line.
  abbrev pub word_lines : Bool → ℕ → PrevCurrPair → List Item
  word_lines true word pc =
      words_items (lib.get_bits_with_range word 31 16) pc
      ++ (text " " ∷ [])
      ++ words_items (lib.get_bits_with_range word 15 0) (next 2 pc)
      ++ (text "\n" ∷ [])
  word_lines false word pc =
      byte_line (lib.get_bits_with_range word 31 24) pc
      ++ byte_line (lib.get_bits_with_range word 23 16) (next 1 pc)
      ++ byte_line (lib.get_bits_with_range word 15 8) (next 2 pc)
      ++ byte_line (lib.get_bits_with_range word 7 0) (next 3 pc)

  abbrev pub half_lines : Bool → ℕ → PrevCurrPair → List Item
  half_lines true word pc = words_items word pc ++ (text "\n" ∷ [])
  half_lines false word pc =
      byte_line (lib.get_bits_with_range word 15 8) pc
      ++ byte_line (lib.get_bits_with_range word 7 0) (next 1 pc)
