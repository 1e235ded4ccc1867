-- ===== src/Tests.antt =====
-- A library that meets the laws of `Orange`, and short programs that are run on it.
mod Texts
mod States
mod Visits
mod Scopes
mod Passes
mod Programs
mod Parsers
mod Labels
use Prim.Native.String.{◌++◌}
use frost32_cpu.Prelude.{
  ℕ, suc, ◌+◌, ◌-◌, ◌*◌, ◌/◌, ◌%◌, ◌^◌, ◌≡◌, refl, List, [], ◌∷◌, String, Bool, true, false, not,
  ◌==◌,
}
use frost32_cpu.Prelude.Text.{codes}
use frost32_cpu.Orange.{Orange, Laws}
use frost32_cpu.Outcome.{Outcome, ok, bind}
use frost32_cpu.Output.{render}
use frost32_cpu.Assembler.{Assembler, assembler}
use frost32_cpu.Assembler.Syntax.{
  Expr, expr_logical, expr_compare, expr_add_sub, expr_mul_div_mod_etc, num_expr, ident_name,
  dec_num, tok_ident, grp0_three_regs, Lines, no_lines, line_then, label, instruction, directive,
  dot_org, bra, cpya, pseudo_instruction,
}
use frost32_cpu.Assembler.Emit.Lines.{at_address}
use frost32_cpu.Assembler.Encode.{warn_if_simm16_out_of_range}
use frost32_cpu.Assembler.Groups.{
  encode_instr_opcode_group_0, encode_instr_opcode_group_1, encode_instr_opcode_group_2,
  word_group_0, word_imm16,
}
use frost32_cpu.Assembler.Program.{run}

abbrev pub join : List String → String
join [] = ""
join (s ∷ []) = s
join (s ∷ t ∷ r) = s ++ ", " ++ join (t ∷ r)

abbrev pub concrete : Orange
concrete = record {
  get_bits_with_range = λ w hi lo. w / 2 ^ lo % 2 ^ (suc hi - lo);
  clear_and_set_bits_with_range =
      λ w v hi lo. w / 2 ^ suc hi * 2 ^ suc hi + v % 2 ^ (suc hi - lo) * 2 ^ lo + w % 2 ^ lo;
  back_up = λ p. record { prev = p.curr; curr = p.curr };
  has_changed = λ p. not (p.prev == p.curr);
  strappcom2 = join;
}

pub concrete-Laws : Laws concrete
concrete-Laws = record {
  get_bits_lem = λ w hi lo p q r. refl;
  set_bits_lem = λ w v hi lo p q r. refl;
  back_up_lem = λ p. refl;
  has_changed_lem = λ p. refl;
}

abbrev pub value : ℕ → Expr
value n =
    expr_logical (expr_compare (expr_add_sub (expr_mul_div_mod_etc (num_expr (dec_num (n ∷ []))))))

abbrev name : String → Expr
name s =
    expr_logical (expr_compare (expr_add_sub (expr_mul_div_mod_etc (ident_name (tok_ident s)))))

abbrev pub program : Lines
program = line_then (directive (dot_org (value b'8'))) (
    line_then (label (tok_ident "a")) (
      line_then (instruction (grp0_three_regs "sub" "u0" "u1" "sp")) (
        line_then (pseudo_instruction (bra (name "a")))
          (line_then (pseudo_instruction (cpya "u2" (name "a"))) no_lines))))

outputs : Bool → Outcome (List ℕ)
unfolding run render encode_instr_opcode_group_0 encode_instr_opcode_group_1
    encode_instr_opcode_group_2 warn_if_simm16_out_of_range word_group_0 word_imm16
outputs words = bind (run concrete program (assembler words)) λ (_, s). ok (render 10 s.out)

-- The program in words, and in bytes.
words_text : outputs true ≡ ok (codes "@8\n012f 0001\n2001 fff8\n1300 0008\n130f 0000\n")
unfolding outputs
words_text = refl

bytes_text :
    outputs false
    ≡ ok (codes "@8\n01\n2f\n00\n01\n20\n01\nff\nf8\n13\n00\n00\n08\n13\n0f\n00\n00\n")
unfolding outputs
bytes_text = refl

-- The second pass, in words, at an address that was output.
abbrev pub second_pass : Assembler
second_pass = record (assembler true) { pass = 1; pc = at_address 0x40 }
