-- ===== src/Assembler/Emit/Counter.antt =====
-- `gen_16` and `gen_32` of assembler_class.cpp as one text that is output and one move of the
-- program counter.
use frost32_cpu.Prelude.{ℕ, ◌≡◌, refl, ap, true, false, [], ◌∷◌}
use frost32_cpu.Orange.{Orange, Laws}
use frost32_cpu.Output.{text}
use frost32_cpu.Assembler.{Assembler, is_pass_one}
use frost32_cpu.Assembler.Emit.{gen_words, gen_8, gen_16, gen_32, when, printout}
use frost32_cpu.Assembler.Emit.Lines.{
  moved, on_pass_one, words_items, byte_line, word_lines, half_lines,
}
use frost32_cpu.Assembler.Emit.Steps.{
  if-both, printout_step, step_after, gen_words-moved, gen_8-moved,
}

module _ (lib : Orange) (laws : Laws lib) where
  gen_32-words :
      (word : ℕ) (s : Assembler)
      → when (is_pass_one s) (printout (text "\n" ∷ [])) (
          gen_words lib (lib.get_bits_with_range word 15 0) (
            when
              (is_pass_one (gen_words lib (lib.get_bits_with_range word 31 16) s))
              (printout (text " " ∷ []))
              (gen_words lib (lib.get_bits_with_range word 31 16) s)))
        ≡ moved 4 (printout (on_pass_one s (word_lines lib true word s.pc)) s)
  gen_32-words word s =
      let hi = lib.get_bits_with_range word 31 16 in
      let lo = lib.get_bits_with_range word 15 0 in
      let e0 = gen_words-moved lib laws hi s in
      let e1 = printout_step lib laws _ 2 _ (text " " ∷ []) s _ (ap is_pass_one e0) e0 in
      let e2 =
        step_after lib laws (gen_words lib lo) 2 2 _ (words_items lib lo) s _
          (gen_words-moved lib laws lo) e1 in
      printout_step lib laws _ 4 _ (text "\n" ∷ []) s _ refl e2

  gen_32-bytes :
      (word : ℕ) (s : Assembler)
      → gen_8 lib (lib.get_bits_with_range word 7 0) (
          gen_8 lib (lib.get_bits_with_range word 15 8) (
            gen_8 lib
              (lib.get_bits_with_range word 23 16)
              (gen_8 lib (lib.get_bits_with_range word 31 24) s)))
        ≡ moved 4 (printout (on_pass_one s (word_lines lib false word s.pc)) s)
  gen_32-bytes word s =
      let b3 = lib.get_bits_with_range word 31 24 in
      let b2 = lib.get_bits_with_range word 23 16 in
      let b1 = lib.get_bits_with_range word 15 8 in
      let b0 = lib.get_bits_with_range word 7 0 in
      let e1 =
        step_after lib laws (gen_8 lib b2) 1 1 _ (byte_line b2) s _ (gen_8-moved lib laws b2)
          (gen_8-moved lib laws b3 s) in
      let e2 =
        step_after lib laws (gen_8 lib b1) 2 1 _ (byte_line b1) s _ (gen_8-moved lib laws b1) e1 in
      step_after lib laws (gen_8 lib b0) 3 1 _ (byte_line b0) s _ (gen_8-moved lib laws b0) e2

  -- On both passes and in both formats, `gen_32` moves the program counter by four, and it outputs
  -- the lines of the word on the second pass only, with the address in front where the program
  -- has moved the counter.
  pub gen_32-moved :
      (word : ℕ) (s : Assembler)
      → gen_32 lib word s
        ≡ moved 4 (printout (on_pass_one s (word_lines lib s.show_words word s.pc)) s)
  unfolding gen_32
  gen_32-moved word s =
      if-both s.show_words _ _
        (λ b. moved 4 (printout (on_pass_one s (word_lines lib b word s.pc)) s))
        (gen_32-words word s) (gen_32-bytes word s)

  -- On both passes and in both formats, `gen_16` moves the program counter by two, and it outputs
  -- the lines of its half word on the second pass only.
  pub gen_16-moved :
      (word : ℕ) (s : Assembler)
      → gen_16 lib word s
        ≡ moved 2 (printout (on_pass_one s (half_lines lib s.show_words word s.pc)) s)
  unfolding gen_16
  gen_16-moved word s =
      let hi = lib.get_bits_with_range word 15 8 in
      let lo = lib.get_bits_with_range word 7 0 in
      if-both s.show_words _ _
        (λ b. moved 2 (printout (on_pass_one s (half_lines lib b word s.pc)) s))
        (printout_step lib laws _ 2 _ (text "\n" ∷ []) s _ refl (gen_words-moved lib laws word s))
        (step_after lib laws (gen_8 lib lo) 1 1 _ (byte_line lo) s _ (gen_8-moved lib laws lo)
          (gen_8-moved lib laws hi s))
