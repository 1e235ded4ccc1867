-- ===== src/Disassembler/Hex.antt =====
-- Texts of hexadecimal digits: what `convert_hex_string` and `visitNumExpr` read in them.
use frost32_cpu.Prelude.{
  none, length, ℕ, ◌+◌, ◌*◌, ◌/◌, ◌%◌, ◌^◌, ◌<◌, ◌≤◌, ◌≡◌, ◌∙◌, refl, ap, List, [], ◌∷◌, ◌++◌, map,
  some, arith, Bool, true, false, ◌&&◌, ◌||◌, ◌==◌, leb, ltb, Bool-cases, inl, inr,
}
use native.Mathlib.Nat.{mod-eq_of_lt}
use frost32_cpu.Prelude.Bits.{bit_or-hex_digit}
use frost32_cpu.Outcome.{Outcome, ok, exits, eek}
use frost32_cpu.Disassembler.{good_chars, convert_hex_string}
use frost32_cpu.Output.{digit}
use frost32_cpu.Output.Hex.{hex_digit-digit}
use frost32_cpu.Assembler.Tokens.{read_hex}

-- The number that digits stand for, after those that a number stands for.
abbrev pub value : ℕ → List ℕ → ℕ
value n [] = n
value n (d ∷ ds) = value (n * 16 + d) ds

abbrev pub AreDigits : List ℕ → Type 0
AreDigits [] = Unit
AreDigits (d ∷ ds) = (d < 16) × AreDigits ds

value-ge : (n : ℕ) (ds : List ℕ) → n ≤ value n ds
value-ge n [] = omega arith
value-ge n (d ∷ ds) = omega (arith, value-ge (n * 16 + d) ds)

-- The digits of a number that fits the width are read as that number.
pub read_hex-value :
    (width n d : ℕ) (ds : List ℕ)
    → AreDigits (d ∷ ds)
    → value n (d ∷ ds) < 2 ^ width
    → read_hex width (map digit (d ∷ ds)) (n * 2 * 2 * 2 * 2) ≡ some (value n (d ∷ ds))
unfolding read_hex
read_hex-value width n d [] h l =
    rw (read_hex, hex_digit-digit d h.0) (ap (some) (bit_or-hex_digit n d h.0))
read_hex-value width n d (e ∷ ds) h l =
    rw (read_hex, hex_digit-digit d h.0)
      (ap (read_hex width (map digit (e ∷ ds))) (
          ap (λ x. x * 16 % 2 ^ width) (bit_or-hex_digit n d h.0)
          ∙ mod-eq_of_lt (omega (arith, l, value-ge ((n * 16 + d) * 16 + e) ds))
          ∙ omega arith)
        ∙ read_hex-value width (n * 16 + d) e ds h.1 l)

-- `convert_hex_string` past its loop over the characters.
abbrev hex_result : List ℕ → Outcome (ℕ × ℕ)
hex_result cs = elim (read_hex 32 cs 0) [
  | none ↦ exits (eek "convert_hex_string():  Eek!")
  | some temp ↦ ok (temp, length cs)
]

good_chars-digit :
    (d : ℕ) (cs : List ℕ) → d < 16 → good_chars (digit d ∷ cs) ≡ digit d ∷ good_chars cs
unfolding good_chars
good_chars-digit d cs h = ground arith

good_chars-digits : (ds : List ℕ) → AreDigits ds → good_chars (map digit ds) ≡ map digit ds
unfolding good_chars
good_chars-digits [] h = refl
good_chars-digits (d ∷ ds) h =
    good_chars-digit d (map digit ds) h.0 ∙ ap (λ cs. digit d ∷ cs) (good_chars-digits ds h.1)

-- A space between digits is dropped.
pub good_chars-space :
    (ds es : List ℕ)
    → AreDigits ds
    → AreDigits es
    → good_chars (map digit ds ++ b' ' ∷ map digit es) ≡ map digit (ds ++ es)
unfolding good_chars
good_chars-space [] es h k = good_chars-digits es k
good_chars-space (d ∷ ds) es h k =
    good_chars-digit d (map digit ds ++ b' ' ∷ map digit es) h.0
    ∙ ap (λ cs. digit d ∷ cs) (good_chars-space ds es h.1 k)

-- The four digits of a word of 16 bits, and the text of a line that holds two of them.
abbrev pub half_digits : ℕ → List ℕ
half_digits w = w / 2 ^ 12 % 16 ∷ w / 2 ^ 8 % 16 ∷ w / 2 ^ 4 % 16 ∷ w % 16 ∷ []

abbrev pub word_text : ℕ → List ℕ
word_text w = map digit (half_digits (w / 2 ^ 16)) ++ b' ' ∷ map digit (half_digits w)

half_digits-AreDigits : (w : ℕ) → AreDigits (half_digits w)
half_digits-AreDigits w = ground arith

word_digits-AreDigits : (w : ℕ) → AreDigits (half_digits (w / 2 ^ 16) ++ half_digits w)
word_digits-AreDigits w = ground arith

-- The text of a word is read as the word and as eight digits.
pub convert_hex_string-word_text :
    (w : ℕ) → w < 2 ^ 32 → convert_hex_string (word_text w) ≡ ok (w, 8)
unfolding convert_hex_string
convert_hex_string-word_text w h =
    let ds = half_digits (w / 2 ^ 16) ++ half_digits w in
    let v : value 0 ds ≡ w = omega arith in
    let chars =
      good_chars-space (half_digits (w / 2 ^ 16)) (half_digits w)
        (half_digits-AreDigits (w / 2 ^ 16)) (half_digits-AreDigits w) in
    let read : read_hex 32 (map digit ds) 0 ≡ some (value 0 ds) =
      read_hex-value 32 0 (w / 2 ^ 16 / 2 ^ 12 % 16)
        (w / 2 ^ 16 / 2 ^ 8 % 16 ∷ w / 2 ^ 16 / 2 ^ 4 % 16 ∷ w / 2 ^ 16 % 16 ∷ half_digits w)
        (word_digits-AreDigits w) (omega (arith, v)) in
    ap hex_result chars
    ∙ ap
        (λ r. elim r [
          | none ↦ exits (eek "convert_hex_string():  Eek!")
          | some temp ↦ ok (temp, 8)
        ])
        (read ∙ ap (some) v)

-- The characters of a TokHexNum of DisassemblerGrammar.g4.
abbrev pub is_hex_digit : ℕ → Bool
is_hex_digit c =
    (leb b'0' c && leb c b'9') || ((leb b'a' c && leb c b'f') || (leb b'A' c && leb c b'F'))

abbrev pub is_hex_text : List ℕ → Bool
is_hex_text [] = true
is_hex_text (c ∷ cs) = (is_hex_digit c || c == b' ') && is_hex_text cs

-- A digit, then digits and spaces, at least one.
abbrev pub is_hex_num : List ℕ → Bool
is_hex_num [] = false
is_hex_num (c ∷ []) = false
is_hex_num (c ∷ d ∷ cs) = is_hex_digit c && is_hex_text (d ∷ cs)

digit-is_hex_digit : (n : ℕ) → is_hex_digit (digit (n % 16)) ≡ true
digit-is_hex_digit n = elim (Bool-cases (ltb (n % 16) 10)) [
  | inl e ↦ ground (arith, e)
  | inr e ↦ ground (arith, e)
]

pub word_text-is_hex_num : (w : ℕ) → is_hex_num (word_text w) ≡ true
word_text-is_hex_num w = simp digit-is_hex_digit
