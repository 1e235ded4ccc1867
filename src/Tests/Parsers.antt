-- ===== src/Tests/Parsers.antt =====
-- A parser of DisassemblerGrammar.g4 without comments, and the programs of main.cpp over it.
use frost32_cpu.Prelude.{
  ◌≡◌, ◌∙◌, refl, ap, sym, ℕ, List, [], ◌∷◌, ◌++◌, append_assoc, append-nil, Bool, true, false, not,
  ◌&&◌, ◌==◌, Option, none, some, if◌then◌else◌, arith,
}
use frost32_cpu.Outcome.{ok}
use frost32_cpu.Assembler.Program.Total.Sound.{IsDistinct}
use frost32_cpu.Output.{Item, render}
use frost32_cpu.Disassembler.{Line, tok_org, tok_hex_num, tok_newline}
use frost32_cpu.Disassembler.Hex.{is_hex_text, is_hex_num}
use frost32_cpu.Disassembler.Source.Reads.{program_text, AreTokens}
use frost32_cpu.Main.{Parsers, main}
use frost32_cpu.Main.RoundTrip.{main-main}
use frost32_cpu.Tests.{concrete, concrete-Laws}
use frost32_cpu.Tests.Programs.{written, shown, written-AllShows}

abbrev line_of : List ℕ → Line
line_of [] = tok_newline
line_of (c ∷ cs) = if c == b'@' then tok_org (c ∷ cs) else tok_hex_num (c ∷ cs)

abbrev then_lines : Line → Option (List Line) → Option (List Line)
then_lines line none = none
then_lines line (some lines) = some (line ∷ lines)

-- Each line up to its end, after what was read of it.
abbrev read_lines : List ℕ → List ℕ → Option (List Line)
read_lines [] before = some []
read_lines (c ∷ cs) before =
    let next = then_lines (line_of before) (read_lines cs []) in
    let longer = read_lines cs (before ++ c ∷ []) in if c == b'\n' then next else longer

abbrev is_one_line : List ℕ → Bool
is_one_line [] = true
is_one_line (c ∷ cs) = not (c == b'\n') && is_one_line cs

is_hex_text-is_one_line : (str : List ℕ) → is_hex_text str ≡ true → is_one_line str ≡ true
is_hex_text-is_one_line [] h = refl
is_hex_text-is_one_line (c ∷ str) h = ground (arith, is_hex_text-is_one_line str, h)

read_lines-text :
    (str before rest : List ℕ)
    → is_one_line str ≡ true
    → read_lines (str ++ b'\n' ∷ rest) before
      ≡ then_lines (line_of (before ++ str)) (read_lines rest [])
read_lines-text [] before rest h =
    ap (λ l. then_lines (line_of l) (read_lines rest [])) (sym (append-nil before))
read_lines-text (c ∷ str) before rest h =
    let other : (c == b'\n') ≡ false = ground (arith, h) in
    rw other (
      read_lines-text str (before ++ c ∷ []) rest (ground (arith, h))
      ∙ ap (λ l. then_lines (line_of l) (read_lines rest [])) (append_assoc before (c ∷ []) str))

line_of-hex_num : (str : List ℕ) → is_hex_num str ≡ true → line_of str ≡ tok_hex_num str
line_of-hex_num [] h = cc
line_of-hex_num (c ∷ []) h = cc
line_of-hex_num (c ∷ d ∷ cs) h =
    let other : (c == b'@') ≡ false = ground (arith, h) in rw other refl

hex_num-is_one_line : (str : List ℕ) → is_hex_num str ≡ true → is_one_line str ≡ true
hex_num-is_one_line [] h = refl
hex_num-is_one_line (c ∷ []) h = cc
hex_num-is_one_line (c ∷ d ∷ cs) h = ground (arith, is_hex_text-is_one_line (d ∷ cs), h)

reads : (lines : List Line) → AreTokens lines → read_lines (program_text lines) [] ≡ some lines
reads [] h = refl
reads (tok_hex_num str ∷ lines) (h, hs) =
    ap (λ l. read_lines l []) (append_assoc str (b'\n' ∷ []) (program_text lines))
    ∙ read_lines-text str [] (program_text lines) (hex_num-is_one_line str h)
    ∙ ap (λ l. then_lines l (read_lines (program_text lines) [])) (line_of-hex_num str h)
    ∙ ap (then_lines (tok_hex_num str)) (reads lines hs)
reads (tok_org [] ∷ lines) (h, hs) = absurd h
reads (tok_org (c ∷ str) ∷ lines) ((at, h), hs) =
    let one = hex_num-is_one_line str h in
    ap (λ l. read_lines l []) (append_assoc (c ∷ str) (b'\n' ∷ []) (program_text lines))
    ∙ read_lines-text (c ∷ str) [] (program_text lines) (ground (arith, at, one))
    ∙ rw at (ap (then_lines (tok_org (b'@' ∷ str))) (reads lines hs))
reads (tok_newline ∷ lines) (h, hs) = ap (then_lines tok_newline) (reads lines hs)

-- The program of the text is always the same.
abbrev parsers : Parsers
parsers = record {
  assembler_program = λ input. some written;
  disassembler_program = λ input. read_lines input [];
}

main-main_example :
    (items : List Item) × ((main concrete parsers ("frost32" ∷ "-b" ∷ []) [] ≡ ok items)
      × (main concrete parsers ("frost32" ∷ "-d" ∷ []) (render 10 items) ≡ ok shown))
unfolding IsDistinct
main-main_example =
    main-main concrete concrete-Laws parsers reads "frost32" [] written shown refl
      (tt, (refl, ((tt, tt), (tt, (tt, (tt, tt)))))) written-AllShows
