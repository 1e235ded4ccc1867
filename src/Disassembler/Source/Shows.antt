-- ===== src/Disassembler/Source/Shows.antt =====
-- The instructions of AssemblerGrammar.g4 that disassembler_class.cpp prints as they were written:
-- those of groups 0 to 5 with registers of the table and numbers.
use frost32_cpu.Prelude.{ℕ, ◌+◌, ◌%◌, ◌^◌, ◌≡◌, ◌∙◌, ap, List, String, true, some}
use frost32_cpu.Prelude.Int.{ℤ, to_u64}
use frost32_cpu.Prelude.Text.{lookup, elem}
use frost32_cpu.Orange.{Orange, Laws}
use frost32_cpu.Outcome.{Outcome, ok, at}
use frost32_cpu.Output.{Item}
use frost32_cpu.Encoding.RoundTrip.{entries, args_type, iog5_two_regs_one_simm_ldst}
use frost32_cpu.Assembler.{Assembler, is_pass_one}
use frost32_cpu.Assembler.Syntax.{Expr, Instruction, grp5_two_regs_one_simm12_ldst}
use frost32_cpu.Assembler.Emit.Lines.{at_address}
use frost32_cpu.Assembler.Emits.{InScope}
use frost32_cpu.Assembler.Encode.Ranges.{within}
use frost32_cpu.Assembler.Expr.Value.{Env, eval_expr}
use frost32_cpu.Assembler.Expr.Steps.{env_of}
use frost32_cpu.Assembler.Visit.{two_regs_one_simm12_ldst_tokens, visit_instruction}
use frost32_cpu.Assembler.Visit.Accepted.{IsAccepted}
use frost32_cpu.Assembler.Visit.Accepted.Tokens
use frost32_cpu.Assembler.Program.Total.Leaves.{Ended}
use frost32_cpu.Disassembler.{print_instruction}
use frost32_cpu.Disassembler.RoundTrip.{Reg, shows}
use frost32_cpu.Disassembler.RoundTrip.ThreeRegs.{
  ThreeRegs, alu, jump, call, ldst, three_regs_table,
}
use frost32_cpu.Disassembler.RoundTrip.Immediates.{
  Imm16, imm, simm, pc_simm, one_reg, branch_offset, imm16_table,
}
use frost32_cpu.Disassembler.Source.{
  three_regs_instruction, three_regs_names, visit_instruction-visit_line,
}
use frost32_cpu.Disassembler.Source.Offsets.{visit_instruction-visit_line-simm12}
use frost32_cpu.Disassembler.Source.Immediates.{
  imm16_instruction, imm16_tokens, imm16_value, second, visit_instruction-visit_line-imm16,
}
use frost32_cpu.Disassembler.Listing.{AddsLine}
use frost32_cpu.Disassembler.Source.Reads.{Reads, AddsLine-Reads}

-- An expression with the same value everywhere.
abbrev pub IsNumber : Expr → ℤ → Type 0
IsNumber e n = (env : Env) → eval_expr env e ≡ ok n

-- What is printed for an instruction at an address.
pub data Shows (lib : Orange) (address : ℕ) : Instruction → List Item → Type 0 where
  of_three_regs :
      (t : ThreeRegs) (tok a b c : String) (opcode i j k : ℕ) (shown : List Item)
      → elem tok (three_regs_names t) ≡ true
      → lookup tok (entries (three_regs_table t)) ≡ some opcode
      → Reg a i
      → Reg b j
      → Reg c k
      → ((db : Outcome (List Item))
          → print_instruction lib
              (args_type (three_regs_table t))
              tok
              a
              b
              c
              (shows i j k opcode 0 0)
              db
            ≡ ok shown)
      → Shows lib address (three_regs_instruction t tok a b c) shown
  of_imm16 :
      (t : Imm16) (tok a b : String) (e : Expr) (opcode i j : ℕ) (n : ℤ) (shown : List Item)
      → elem tok (imm16_tokens t) ≡ true
      → lookup tok (entries (imm16_table t)) ≡ some opcode
      → Reg a i
      → Reg (second t b) j
      → IsNumber e n
      → ((db : Outcome (List Item))
          → print_instruction lib
              (args_type (imm16_table t))
              tok
              a
              (second t b)
              "zero"
              (shows i j 0 opcode (imm16_value t n address % 2 ^ 16) 0)
              db
            ≡ ok shown)
      → Shows lib address (imm16_instruction t tok a b e) shown
  of_simm12 :
      (tok a b : String) (e : Expr) (opcode i j : ℕ) (n : ℤ) (shown : List Item)
      → elem tok two_regs_one_simm12_ldst_tokens ≡ true
      → lookup tok (entries iog5_two_regs_one_simm_ldst) ≡ some opcode
      → Reg a i
      → Reg b j
      → IsNumber e n
      → within (2 ^ 11) (2 ^ 11) n ≡ true
      → ((db : Outcome (List Item))
          → print_instruction lib
              (args_type iog5_two_regs_one_simm_ldst)
              tok
              a
              b
              "zero"
              (shows i j 0 opcode 0 (to_u64 n % 2 ^ 32))
              db
            ≡ ok shown)
      → Shows lib address (grp5_two_regs_one_simm12_ldst tok a b e) shown

found : (name : String) (i : ℕ) → Reg name i → Tokens.Reg name
found name i e = (i, ap at e)

-- Such an instruction is accepted.
pub Shows-IsAccepted :
    (lib : Orange) (address : ℕ) (i : Instruction) (shown : List Item) (s : Assembler)
    → Shows lib address i shown
    → IsAccepted s i
Shows-IsAccepted lib address _ shown s (of_three_regs alu tok a b c o i j k _ m h ha hb hc p) =
    (m, (o, ap at h), found a i ha, found b j hb, found c k hc)
Shows-IsAccepted lib address _ shown s (of_three_regs jump tok a b c o i j k _ m h ha hb hc p) =
    (m, found a i ha, found b j hb, found c k hc)
Shows-IsAccepted lib address _ shown s (of_three_regs call tok a b c o i j k _ m h ha hb hc p) =
    (m, found a i ha, found b j hb, found c k hc)
Shows-IsAccepted lib address _ shown s (of_three_regs ldst tok a b c o i j k _ m h ha hb hc p) =
    (m, found a i ha, found b j hb, found c k hc)
Shows-IsAccepted lib address _ shown s (of_imm16 imm tok a b e o i j n _ m h ha hb v p) =
    (m, found a i ha, found b j hb, (n, v (env_of s)))
Shows-IsAccepted lib address _ shown s (of_imm16 simm tok a b e o i j n _ m h ha hb v p) =
    (m, found a i ha, found b j hb, (n, v (env_of s)))
Shows-IsAccepted lib address _ shown s (of_imm16 pc_simm tok a b e o i j n _ m h ha hb v p) =
    (m, found a i ha, (n, v (env_of s)))
Shows-IsAccepted lib address _ shown s (of_imm16 one_reg tok a b e o i j n _ m h ha hb v p) =
    (m, found a i ha, (n, v (env_of s)))
Shows-IsAccepted lib address _ shown s (of_imm16 branch_offset tok a b e o i j n _ m h ha hb v p) =
    (m, found a i ha, found b j hb, (n, v (env_of s)))
Shows-IsAccepted lib address _ shown s (of_simm12 tok a b e o i j n _ m h ha hb v w p) =
    (m, found a i ha, found b j hb, (n, v (env_of s)))

module _ (lib : Orange) (laws : Laws lib) (address : ℕ) (s : Assembler)
    (second_pass : is_pass_one s ≡ true) (words : s.show_words ≡ true)
    (pc : s.pc ≡ at_address address) (scope : InScope s) where
  line_Ended :
      (i : Instruction) (t : Assembler) (r : Outcome (List Item)) (shown : List Item)
      → visit_instruction lib i s ≡ ok (tt, t)
      → AddsLine lib s t r
      → r ≡ ok shown
      → Ended
          (visit_instruction lib i)
          s
          (λ t. Reads lib shown s t × (t.pc ≡ at_address ((address + 4) % 2 ^ 64)))
  line_Ended i t r shown e l p =
      let (items, (str, (out, printed, read, moved, token))) = l in
      record {
        end = t;
        ends = e;
        at = (
          AddsLine-Reads lib s t r shown l p,
          moved ∙ ap (λ q. at_address ((q.curr + 4) % 2 ^ 64)) pc,
        );
      }

  -- On the second pass, it becomes a line of text, which is printed as given.
  pub Shows-Reads :
      (i : Instruction) (shown : List Item)
      → Shows lib address i shown
      → Ended
          (visit_instruction lib i)
          s
          (λ t. Reads lib shown s t × (t.pc ≡ at_address ((address + 4) % 2 ^ 64)))
  Shows-Reads i' shown (of_three_regs t tok a b c o i j k _ m h ha hb hc p) =
      let (u, (e, l)) =
        visit_instruction-visit_line lib laws t tok a b c o i j k address s m second_pass words pc h
          ha hb hc in
      line_Ended i' u _ shown e l (p _)
  Shows-Reads i' shown (of_imm16 t tok a b e o i j n _ m h ha hb v p) =
      let (u, (e, l)) =
        visit_instruction-visit_line-imm16 lib laws t tok a b e o i j address n s second_pass words
          pc m h ha hb scope (v (env_of s)) in
      line_Ended i' u _ shown e l (rw (ap (λ q. q.curr) pc) (p _))
  Shows-Reads i' shown (of_simm12 tok a b e o i j n _ m h ha hb v w p) =
      let (tree, inside, below) = scope in
      let (u, (e, quiet, l)) =
        visit_instruction-visit_line-simm12 lib laws tok a b e o i j address n s second_pass words
          pc h ha hb tree inside below (v (env_of s)) w in
      line_Ended i' u _ shown e l (p _)
