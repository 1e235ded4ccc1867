-- ===== src/Assembler/Emit.antt =====
-- `gen_8`, `gen_16`, `gen_32` and `gen_words` of assembler_class.cpp: the output in Verilog VMEM
-- format, on the second pass only, and the program counter, on both.
pub mod Lines
pub mod Steps
pub mod Counter
use frost32_cpu.Prelude.{ℕ, ◌+◌, ◌%◌, ◌^◌, List, [], ◌∷◌, ◌++◌, Bool, ltb, if◌then◌else◌}
use frost32_cpu.Orange.{Orange}
use frost32_cpu.Output.{Item, hex, dec, text, number}
use frost32_cpu.Assembler.{Assembler, is_pass_one}

-- `printout(...)`
abbrev pub printout : List Item → Assembler → Assembler
printout items s = record s { out = s.out ++ items }

-- `if (test) { f }`
abbrev pub when : Bool → (Assembler → Assembler) → Assembler → Assembler
when test f s = if test then f s else s

-- A byte in two hexadecimal digits: `printout(0)` comes before one that has a single digit.
abbrev pub print_byte : ℕ → Assembler → Assembler
print_byte a s = printout (number a ∷ []) (when (ltb a 0x10) (printout (number 0 ∷ [])) s)

module _ (lib : Orange) where
  -- `printout("@", __pc.curr, "\n")`, where the program counter was moved.
  abbrev pub print_address : Assembler → Assembler
  print_address s =
      when (lib.has_changed s.pc) (printout (text "@" ∷ number s.pc.curr ∷ text "\n" ∷ [])) s

  -- `__pc.curr += sizeof(data); __pc.back_up();` on a u64.
  unfoldable pub advance : ℕ → Assembler → Assembler
  advance size s = record s {
    pc = lib.back_up (record s.pc { curr = (s.pc.curr + size) % 2 ^ 64 });
  }

  -- `data` is a u16.
  unfoldable pub gen_words : ℕ → Assembler → Assembler
  unfolding advance
  gen_words word s =
      let a = lib.get_bits_with_range word 15 8 in
      let b = lib.get_bits_with_range word 7 0 in
      let print = λ (t : Assembler).
        printout (dec ∷ []) (print_byte b (print_byte a (print_address (printout (hex ∷ []) t)))) in
      advance 2 (when (is_pass_one s) print s)

  -- `data` is a u8.
  unfoldable pub gen_8 : ℕ → Assembler → Assembler
  unfolding advance
  gen_8 word s =
      let print = λ (t : Assembler).
        printout (dec ∷ []) (print_byte word (print_address (printout (hex ∷ []) t))) in
      when (is_pass_one s) (printout (text "\n" ∷ [])) (advance 1 (when (is_pass_one s) print s))

  -- `data` is a u16.
  unfoldable pub gen_16 : ℕ → Assembler → Assembler
  unfolding gen_words gen_8
  gen_16 word s =
      if s.show_words
      then when (is_pass_one s) (printout (text "\n" ∷ [])) (gen_words word s)
      else gen_8 (lib.get_bits_with_range word 7 0) (gen_8 (lib.get_bits_with_range word 15 8) s)

  -- `data` is a u32.
  unfoldable pub gen_32 : ℕ → Assembler → Assembler
  unfolding gen_words gen_8
  gen_32 word s =
      let low = λ (t : Assembler). gen_words (lib.get_bits_with_range word 15 0) t in
      let space = λ (t : Assembler). when (is_pass_one t) (printout (text " " ∷ [])) t in
      if s.show_words
      then when (is_pass_one s) (printout (text "\n" ∷ []))
          (low (space (gen_words (lib.get_bits_with_range word 31 16) s)))
      else gen_8 (lib.get_bits_with_range word 7 0) (
          gen_8 (lib.get_bits_with_range word 15 8) (
            gen_8 (lib.get_bits_with_range word 23 16)
              (gen_8 (lib.get_bits_with_range word 31 24) s)))
