-- ===== src/Disassembler/Listing.antt =====
-- A word that the assembler outputs, as text, and that text read by the disassembler.
use frost32_cpu.Prelude.{
  ℕ, ◌+◌, ◌/◌, ◌%◌, ◌^◌, ◌<◌, ◌≡◌, ◌∙◌, ltb, refl, ap, List, [], ◌∷◌, ◌++◌, map, true, arith,
  append_assoc, Bool-cases, inl, inr,
}
use frost32_cpu.Orange.{Orange, Laws}
use frost32_cpu.Outcome.{Outcome}
use frost32_cpu.Encoding.{encoding_stuff}
use frost32_cpu.Assembler.{Assembler, is_pass_one}
use frost32_cpu.Assembler.Emit.{gen_32}
use frost32_cpu.Assembler.Emit.Counter.{gen_32-moved}
use frost32_cpu.Disassembler.{
  visit_line, visit_hex_num, visit_word, tok_hex_num, show_unknown_instruction_as_dot_db,
}
use frost32_cpu.Output.{Item, dec, text, render, digit}
use frost32_cpu.Output.Hex.{digits-one, digits-two}
use frost32_cpu.Assembler.Emit.Lines.{
  at_address, address_items, on, byte_items, words_items, word_lines,
}
use frost32_cpu.Disassembler.Hex.{
  half_digits, word_text, convert_hex_string-word_text, is_hex_num, word_text-is_hex_num,
}

address_items-at_address : (n : ℕ) → address_items (at_address n) ≡ []
address_items-at_address n = ground arith

high : (a : ℕ) → a < 16 → a / 16 ≡ 0
high a h = omega arith

low : (a : ℕ) → a < 16 → a % 16 ≡ a
low a h = omega arith

-- A byte is written in two digits.
render-byte_items :
    (a : ℕ) (items : List Item)
    → a < 256
    → render 16 (byte_items a ++ items) ≡ digit (a / 16) ∷ digit (a % 16) ∷ render 16 items
unfolding render
render-byte_items a items h = elim (Bool-cases (ltb a 16)) [
  | inl e ↦ rw (e, digits-one a (ground arith), high a (ground arith), low a (ground arith)) refl
  | inr e ↦ rw (e, digits-two a (ground arith) h) refl
]

half_digits-mod : (v w : ℕ) → v ≡ w % 2 ^ 16 → half_digits v ≡ half_digits w
half_digits-mod v w e =
    let q3 : v / 2 ^ 12 % 16 ≡ w / 2 ^ 12 % 16 = omega arith in
    let q2 : v / 2 ^ 8 % 16 ≡ w / 2 ^ 8 % 16 = omega arith in
    let q1 : v / 2 ^ 4 % 16 ≡ w / 2 ^ 4 % 16 = omega arith in
    let q0 : v % 16 ≡ w % 16 = omega arith in rw (q3, q2, q1, q0) refl

-- A state outputs one line more than another, a number in hexadecimal, whatever is output next, and
-- the disassembler prints it as given; the program counter is four bytes on, and the address was
-- output.
abbrev pub AddsLine : Orange → Assembler → Assembler → Outcome (List Item) → Type 0
AddsLine lib s s' shown =
    (items : List Item) × ((str : List ℕ) × ((s'.out ≡ s.out ++ items)
        × ((rest : List Item) → render 10 (items ++ rest) ≡ str ++ b'\n' ∷ render 10 rest)
        × (visit_line lib encoding_stuff (tok_hex_num str) ≡ shown)
        × (s'.pc ≡ at_address ((s.pc.curr + 4) % 2 ^ 64))
        × (is_hex_num str ≡ true)))

module _ (lib : Orange) (laws : Laws lib) where
  render-words_items :
      (base word n : ℕ) (items : List Item)
      → word < 2 ^ 16
      → render base (words_items lib word (at_address n) ++ items)
        ≡ map digit (half_digits word) ++ render 10 items
  unfolding render
  render-words_items base word n items h =
      let a = lib.get_bits_with_range word 15 8 in
      let b = lib.get_bits_with_range word 7 0 in
      let ga = laws.get_bits_lem word 15 8 (omega arith) (omega arith) (omega arith) in
      let gb = laws.get_bits_lem word 7 0 (omega arith) (omega arith) (omega arith) in
      let q3 : a / 16 ≡ word / 2 ^ 12 % 16 = omega (arith, ga) in
      let q2 : a % 16 ≡ word / 2 ^ 8 % 16 = omega (arith, ga) in
      let q1 : b / 16 ≡ word / 2 ^ 4 % 16 = omega (arith, gb) in
      let q0 : b % 16 ≡ word % 16 = omega (arith, gb) in
      simp (append_assoc, address_items-at_address)
        (render-byte_items a (byte_items b ++ dec ∷ items) (omega (arith, ga))
          ∙ ap (λ cs. digit (a / 16) ∷ digit (a % 16) ∷ cs)
              (render-byte_items b (dec ∷ items) (omega (arith, gb)))
          ∙ rw (q3, q2, q1, q0) refl)

  -- The text of a word where the program counter was not moved: its eight digits, four and four,
  -- and the end of the line.
  pub render-word_lines :
      (base word n : ℕ) (rest : List Item)
      → word < 2 ^ 32
      → render base (word_lines lib true word (at_address n) ++ rest)
        ≡ word_text word ++ b'\n' ∷ render 10 rest
  unfolding render
  render-word_lines base word n rest h =
      let hi = lib.get_bits_with_range word 31 16 in
      let lo = lib.get_bits_with_range word 15 0 in
      let gh = laws.get_bits_lem word 31 16 (omega arith) (omega arith) (omega arith) in
      let gl = laws.get_bits_lem word 15 0 (omega arith) (omega arith) (omega arith) in
      let dh = half_digits-mod hi (word / 2 ^ 16) (omega (arith, gh)) in
      let dl = half_digits-mod lo word (omega (arith, gl)) in
      let m = (n + 2) % 2 ^ 64 in
      let first = words_items lib hi (at_address n) in
      let second = words_items lib lo (at_address m) in
      let space = text " " ∷ [] in
      let newline = text "\n" ∷ [] in
      ap (render base) (
        append_assoc ((first ++ space) ++ second) newline rest
        ∙ append_assoc (first ++ space) second (newline ++ rest)
        ∙ append_assoc first space (second ++ (newline ++ rest)))
      ∙ render-words_items base hi n (space ++ (second ++ (newline ++ rest))) (omega (arith, gh))
      ∙ ap (λ cs. map digit (half_digits hi) ++ b' ' ∷ cs)
          (render-words_items 10 lo m (newline ++ rest) (omega (arith, gl)))
      ∙ ap (λ ds. map digit ds ++ b' ' ∷ (map digit (half_digits lo) ++ b'\n' ∷ render 10 rest)) dh
      ∙ ap
          (λ ds.
            map digit (half_digits (word / 2 ^ 16))
            ++ b' ' ∷ (map digit ds ++ b'\n' ∷ render 10 rest))
          dl

  visit_line-word_text :
      (word : ℕ)
      → word < 2 ^ 32
      → visit_line lib encoding_stuff (tok_hex_num (word_text word))
        ≡ visit_word lib encoding_stuff word (show_unknown_instruction_as_dot_db word 8)
  unfolding visit_line visit_hex_num
  visit_line-word_text word h = rw (convert_hex_string-word_text word h) refl

  -- On the second pass and with words shown, where the address was output, `gen_32` adds one line
  -- of text, and the disassembler reads that line as the same word.
  pub gen_32-visit_line :
      (s : Assembler) (word n : ℕ)
      → is_pass_one s ≡ true
      → s.show_words ≡ true
      → s.pc ≡ at_address n
      → word < 2 ^ 32
      → AddsLine lib s
          (gen_32 lib word s)
          (visit_word lib encoding_stuff word (show_unknown_instruction_as_dot_db word 8))
  gen_32-visit_line s word n p w c h =
      let out =
        ap (λ r. r.out) (gen_32-moved lib laws word s)
        ∙ ap (λ b. s.out ++ on b (word_lines lib s.show_words word s.pc)) p
        ∙ ap (λ b. s.out ++ word_lines lib b word s.pc) w
        ∙ ap (λ q. s.out ++ word_lines lib true word q) c in
      (
        word_lines lib true word (at_address n),
        (
          word_text word,
          (
            out,
            (λ rest. render-word_lines 10 word n rest h),
            visit_line-word_text word h,
            ap (λ r. r.pc) (gen_32-moved lib laws word s),
            word_text-is_hex_num word,
          ),
        ),
      )
