-- ===== src/Main/RoundTrip.antt =====
-- main.cpp with the option -b, and then with the option -d on what it output.
use frost32_cpu.Prelude.{ℕ, ◌≡◌, ◌∙◌, refl, ap, List, [], ◌∷◌, String, true, some}
use frost32_cpu.Orange.{Orange, Laws}
use frost32_cpu.Outcome.{ok, bind}
use frost32_cpu.Output.{Item, render}
use frost32_cpu.Encoding.{encoding_stuff}
use frost32_cpu.Assembler.{assembler}
use frost32_cpu.Assembler.Syntax.{Lines}
use frost32_cpu.Assembler.Program.{run}
use frost32_cpu.Assembler.Program.Total.Sound.{IsDistinct}
use frost32_cpu.Disassembler
use frost32_cpu.Disassembler.{visit_program}
use frost32_cpu.Disassembler.Source.Lines.{AllShows}
use frost32_cpu.Disassembler.Source.Reads.{program_text, AreTokens}
use frost32_cpu.Disassembler.Source.Programs.{run-visit_program}
use frost32_cpu.Main.{Parsers, assemble, disassemble, main}

-- The parser of the disassembler's grammar reads the text of lines as these lines.
abbrev pub ReadsLines : Parsers → Type 0
ReadsLines parsers =
    (lines : List Disassembler.Line)
    → AreTokens lines
    → parsers.disassembler_program (program_text lines) ≡ some lines

module _ (lib : Orange) (parsers : Parsers) where
  main-run :
      (program : String) (input : List ℕ) (lines : Lines)
      → parsers.assembler_program input ≡ some lines
      → main lib parsers (program ∷ "-b" ∷ []) input
        ≡ bind (run lib lines (assembler true)) (λ (_, s). ok s.out)
  unfolding main assemble
  main-run program input lines e = rw e refl

  main-visit_program :
      (program : String) (input : List ℕ) (lines : List Disassembler.Line)
      → parsers.disassembler_program input ≡ some lines
      → main lib parsers (program ∷ "-d" ∷ []) input ≡ visit_program lib encoding_stuff lines
  unfolding main disassemble
  main-visit_program program input lines e = rw e refl

-- Where the parser of the disassembler reads lines as they are written, and the parser of the
-- assembler reads a text as a program of instructions of groups 0 to 5 with a name that the visitor
-- has a token for and the table an opcode (so not nor with three registers, which has no token
-- there, nor gltu and glts, which have no opcode), registers of the table and numbers, those of 12
-- bits where the offset of a load or store is one, of labels that are distinct within each block,
-- of blocks and of blank lines, the option -b turns the text into another, and the option -d turns
-- that into what the disassembler prints for each instruction, in their order: its name, its
-- registers, and what its field holds of its number, or of the offset from the following
-- instruction for a branch.
pub main-main :
    (lib : Orange) (laws : Laws lib) (parsers : Parsers)
    → ReadsLines parsers
    → (program : String) (input : List ℕ) (lines : Lines) (shown : List Item)
    → parsers.assembler_program input ≡ some lines
    → IsDistinct [] lines
    → AllShows lib 0 lines shown
    → (items : List Item) × ((main lib parsers (program ∷ "-b" ∷ []) input ≡ ok items)
        × (main lib parsers (program ∷ "-d" ∷ []) (render 10 items) ≡ ok shown))
main-main lib laws parsers reads program input lines shown e distinct h =
    let (s, output, (ends, written, tokens, printed)) =
      run-visit_program lib laws lines shown distinct h in
    (
      s.out,
      (
        main-run lib parsers program input lines e ∙ ap (λ r. bind r (λ (_, s). ok s.out)) ends,
        main-visit_program lib parsers program (render 10 s.out) output
              (ap parsers.disassembler_program written ∙ reads output tokens)
            ∙ printed,
      ),
    )
