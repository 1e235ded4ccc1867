-- ===== src/Main.antt =====
-- main.cpp and asm_disasm_error_listener_class.cpp of assembler_disassembler/src: the command line
-- picks the assembler, with its output in bytes or in words, or the disassembler. The generated
-- lexers and parsers are parameters.
pub mod RoundTrip
use frost32_cpu.Prelude.{
  ℕ, List, [], ◌∷◌, String, Bool, true, false, Option, none, some, if◌then◌else◌,
}
use frost32_cpu.Prelude.Text.{str_eq}
use frost32_cpu.Orange.{Orange}
use frost32_cpu.Outcome.{Outcome, ok, exits, usage, syntax_error, bind}
use frost32_cpu.Output.{Item}
use frost32_cpu.Assembler.{assembler}
use frost32_cpu.Assembler.Syntax.{Lines}
use frost32_cpu.Assembler.Program.{run}
use frost32_cpu.Disassembler
use frost32_cpu.Disassembler.{visit_program}
use frost32_cpu.Encoding.{encoding_stuff}

-- What the parsers make of a text, if they report no error.
pub record Parsers : Type 0 where
  pub assembler_program : List ℕ → Option Lines
  pub disassembler_program : List ℕ → Option (List Disassembler.Line)

-- `syntaxError` of the listener exits at the first error; the other reports do nothing.
abbrev pub listen {ℓ} : {A : Type ℓ} → Option A → Outcome A
listen none = exits syntax_error
listen (some program) = ok program

module _ (lib : Orange) (parsers : Parsers) where
  -- `Assembler visitor(parser, show_words); return visitor.run();`
  unfoldable pub assemble : Bool → List ℕ → Outcome (List Item)
  unfolding run
  assemble show_words from_stdin =
      bind (listen (parsers.assembler_program from_stdin))
        λ lines. bind (run lib lines (assembler show_words)) λ (_, s). ok s.out

  -- `Disassembler visitor(parser); return visitor.run();`
  unfoldable pub disassemble : List ℕ → Outcome (List Item)
  unfolding visit_program
  disassemble from_stdin =
      bind (listen (parsers.disassembler_program from_stdin))
        λ lines. visit_program lib encoding_stuff lines

  unfoldable pub main : List String → List ℕ → Outcome (List Item)
  unfolding assemble disassemble
  main (program ∷ option ∷ []) from_stdin =
      if str_eq option "-a"
      then assemble false from_stdin
      else if str_eq option "-b"
      then assemble true from_stdin
      else if str_eq option "-d"
      then disassemble from_stdin
      else exits usage
  main _ from_stdin = exits usage
