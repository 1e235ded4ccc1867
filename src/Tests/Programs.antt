-- ===== src/Tests/Programs.antt =====
-- Whole programs of the source text, through both passes of assembler_class.cpp and then through
-- disassembler_class.cpp.
use frost32_cpu.Prelude.{◌≡◌, refl, List, [], ◌∷◌, ◌++◌, true, false}
use frost32_cpu.Prelude.Int.{pos}
use frost32_cpu.Outcome.{ok}
use frost32_cpu.Output.{Item, hex, dec, text, number, render}
use frost32_cpu.Encoding.{encoding_stuff}
use frost32_cpu.Assembler.{Assembler, assembler}
use frost32_cpu.Assembler.Expr.Value.{eval_expr}
use frost32_cpu.Assembler.Tokens.{read_decimal}
use frost32_cpu.Assembler.Syntax.{
  Lines, no_lines, line_then, label, instruction, blank, scoped_lines, tok_ident, grp0_three_regs,
  grp1_two_regs_one_imm, grp2_branch, grp5_two_regs_one_simm12_ldst,
}
use frost32_cpu.Assembler.Program.{run}
use frost32_cpu.Assembler.Program.Runs.{Assembled}
use frost32_cpu.Assembler.Program.Total.{run-IsSound}
use frost32_cpu.Assembler.Program.Total.Sound.{IsSound, IsDistinct}
use frost32_cpu.Assembler.Program.Total.Names.{of_name, of_name-IsTotal}
use frost32_cpu.Disassembler
use frost32_cpu.Disassembler.{visit_program, print_instruction}
use frost32_cpu.Disassembler.RoundTrip.ThreeRegs.{alu}
use frost32_cpu.Disassembler.RoundTrip.Immediates.{imm, branch_offset}
use frost32_cpu.Disassembler.Source.Shows.{of_three_regs, of_imm16, of_simm12, IsNumber}
use frost32_cpu.Disassembler.Source.Lines.{AllShows, lines_end}
use frost32_cpu.Disassembler.Source.Reads.{program_text, AreTokens}
use frost32_cpu.Disassembler.Source.Programs.{run-visit_program}
use frost32_cpu.Tests.{concrete, concrete-Laws, value}

-- A branch forwards to a label of its block, and one backwards, out of a block inside.
abbrev pub looping : Lines
looping = line_then (label (tok_ident "start")) (
    line_then (instruction (grp2_branch "bne" "u0" "u1" (of_name (tok_ident "done")))) (
      line_then
        (scoped_lines (
          line_then (label (tok_ident "inside")) (
            line_then (instruction (grp2_branch "beq" "u0" "u1" (of_name (tok_ident "start"))))
              no_lines)))
        (line_then (label (tok_ident "done")) no_lines)))

run-IsSound_example :
    (s : Assembler) × ((run concrete looping (assembler false) ≡ ok (tt, s)) × Assembled looping s)
unfolding IsSound IsDistinct
run-IsSound_example =
    run-IsSound concrete concrete-Laws looping false (refl, (tt, ((refl, (tt, tt)), (refl, tt))))
      (
        refl,
        (
          (λ s r k. (
            refl,
            (1, refl),
            (2, refl),
            of_name-IsTotal (tok_ident "done") ("start" ∷ "done" ∷ []) refl refl s r k,
          )),
          (
            (
              refl,
              (
                (λ s r k. (
                  refl,
                  (1, refl),
                  (2, refl),
                  of_name-IsTotal (tok_ident "start") ("inside" ∷ "start" ∷ "done" ∷ []) refl refl s
                      r k,
                )),
                tt,
              ),
            ),
            (refl, tt),
          ),
        ),
      )

-- Four instructions, a label, a block and a blank line.
abbrev pub written : Lines
written = line_then (instruction (grp0_three_regs "sub" "u0" "u1" "sp")) (
    line_then (label (tok_ident "here")) (
      line_then
        (scoped_lines
          (line_then (instruction (grp1_two_regs_one_imm "addi" "u0" "u1" (value b'9'))) no_lines))
        (line_then blank (
          line_then (instruction (grp2_branch "bne" "u0" "u1" (value b'8'))) (
            line_then (instruction (grp5_two_regs_one_simm12_ldst "ldri" "u0" "sp" (value b'4')))
              no_lines)))))

four : IsNumber (value b'4') (pos 4)
unfolding eval_expr read_decimal
four env = refl

eight : IsNumber (value b'8') (pos 8)
unfolding eval_expr read_decimal
eight env = refl

nine : IsNumber (value b'9') (pos 9)
unfolding eval_expr read_decimal
nine env = refl

-- What is printed: the branch to address 8 from address 8 has the offset -4.
abbrev sub_line : List Item
sub_line = text "sub" ∷ text " " ∷ text "u0, u1, sp" ∷ text "\n" ∷ []

abbrev addi_line : List Item
addi_line =
    hex
    ∷ text "addi"
    ∷ text " "
    ∷ text "u0"
    ∷ text ", "
    ∷ text "u1"
    ∷ text ", 0x"
    ∷ number 9
    ∷ dec
    ∷ text "\n"
    ∷ []

abbrev bne_line : List Item
bne_line =
    hex
    ∷ text "bne"
    ∷ text " "
    ∷ text "u0"
    ∷ text ", "
    ∷ text "u1"
    ∷ text ", "
    ∷ text "0x"
    ∷ number 0xfffc
    ∷ dec
    ∷ text "\n"
    ∷ []

abbrev ldri_line : List Item
ldri_line =
    hex
    ∷ text "ldri"
    ∷ text " "
    ∷ text "u0"
    ∷ text ", "
    ∷ text "["
    ∷ text "sp"
    ∷ text ", "
    ∷ text "0x"
    ∷ number 4
    ∷ text "]"
    ∷ dec
    ∷ text "\n"
    ∷ []

abbrev pub shown : List Item
shown = sub_line ++ addi_line ++ bne_line ++ ldri_line

pub written-AllShows : AllShows concrete 0 written shown
unfolding AllShows lines_end print_instruction
written-AllShows = (
  sub_line,
  _,
  (
    refl,
    of_three_regs alu "sub" "u0" "u1" "sp" 1 1 2 15 sub_line refl refl refl refl refl (λ db. refl),
    (
      [],
      _,
      (
        refl,
        (refl, refl),
        (
          addi_line,
          _,
          (
            refl,
            (
              addi_line,
              [],
              (
                refl,
                of_imm16 imm "addi" "u0" "u1" (value b'9') 0 1 2 (pos 9) addi_line refl refl refl
                    refl nine (λ db. refl),
                refl,
              ),
            ),
            (
              [],
              _,
              (
                refl,
                refl,
                (
                  bne_line,
                  _,
                  (
                    refl,
                    of_imm16 branch_offset "bne" "u0" "u1" (value b'8') 0 1 2 (pos 8) bne_line refl
                        refl refl refl eight (λ db. refl),
                    (
                      ldri_line,
                      [],
                      (
                        refl,
                        of_simm12 "ldri" "u0" "sp" (value b'4') 8 1 15 (pos 4) ldri_line refl refl
                            refl refl four refl (λ db. refl),
                        refl,
                      ),
                    ),
                  ),
                ),
              ),
            ),
          ),
        ),
      ),
    ),
  ),
)

run-visit_program_example :
    (s : Assembler) × (output : List Disassembler.Line) × ((run concrete written (assembler true)
        ≡ ok (tt, s))
      × (render 10 s.out ≡ program_text output)
      × AreTokens output
      × (visit_program concrete encoding_stuff output ≡ ok shown))
unfolding IsDistinct
run-visit_program_example =
    run-visit_program concrete concrete-Laws written shown
      (tt, (refl, ((tt, tt), (tt, (tt, (tt, tt)))))) written-AllShows
