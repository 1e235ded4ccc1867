-- ===== src/Tests/States.antt =====
-- The tables, the symbols, the program counter and the values of instructions at concrete states.
use mathlib.Core.List.Perm
use frost32_cpu.Prelude.{
  none, zero, suc, ℕ, ◌+◌, ◌*◌, ◌<◌, ◌≡◌, ◌↔◌, ◌%◌, ◌^◌, [], ◌∷◌, String, Option, refl, arith,
  false, some,
}
use frost32_cpu.Prelude.Text.{lookup}
use frost32_cpu.Prelude.Int.{pos, negsuc}
use frost32_cpu.Outcome.{ok}
use frost32_cpu.Encoding.Order.{IsReordered, get_iog_order}
use frost32_cpu.Encoding.{
  EncodingStuff, get_iog0_instr_from_opcode, get_iog1_instr_from_opcode, get_iog2_instr_from_opcode,
  get_iog3_instr_from_opcode, get_iog4_instr_from_opcode, get_iog5_instr_from_opcode,
  get_iog6_instr_from_opcode, encoding_stuff, decode_reg_name,
}
use frost32_cpu.Encoding.RoundTrip.{
  decoder, args_type, iog5_two_regs_one_simm_ldst, decoder-lookup, decode_reg_name-lookup_iff,
}
use frost32_cpu.Intern.{cstm_strdup, cstm_strdup_iff, empty}
use frost32_cpu.SymbolTable.{SymbolTable, symbol_table, find, mkscope, rmscope}
use frost32_cpu.SymbolTable.Scopes.{IsTree, Visible, find_iff}
use frost32_cpu.SymbolTable.Labels.{IsPooled}
use frost32_cpu.SymbolTable.Blocks.{mkscope-rmscope}
use frost32_cpu.Assembler.{imm16}
use frost32_cpu.Assembler.Emit.{gen_32}
use frost32_cpu.Assembler.Groups.Layout.{imm16_sum}
use frost32_cpu.Assembler.Encode.{
  warn_if_imm16_out_of_range, warn_if_simm16_out_of_range, warn_if_simm12_out_of_range, warn_unless,
  encode_cpya,
}
use frost32_cpu.Assembler.Encode.Ranges.{warn_if-within}
use frost32_cpu.Assembler.Encode.Targets.{encode_cpya-halves}
use frost32_cpu.Tests.{concrete, concrete-Laws, second_pass}

warn_if-within_example :
    (warn_if_imm16_out_of_range (negsuc 4) second_pass
      ≡ warn_unless false (imm16 (negsuc 4)) second_pass)
    × (warn_if_simm16_out_of_range (negsuc 4) false second_pass ≡ second_pass)
    × (warn_if_simm12_out_of_range (negsuc 4) second_pass ≡ second_pass)
warn_if-within_example = warn_if-within (negsuc 4) false second_pass (omega arith, omega arith)

encode_cpya-halves_example :
    (low high : ℕ) × ((encode_cpya concrete 3 (pos 0x12345678) second_pass
        ≡ ok (
          tt,
          gen_32 concrete
              (imm16_sum 1 3 0 15 high)
              (gen_32 concrete (imm16_sum 1 3 0 0 low) second_pass),
        ))
      × (high % 2 ^ 16 * 2 ^ 16 + low % 2 ^ 16 ≡ 0x12345678))
encode_cpya-halves_example =
    encode_cpya-halves concrete concrete-Laws 3 (pos 0x12345678) second_pass

pub symbol_table-IsTree : IsTree symbol_table
symbol_table-IsTree zero node e = ground arith
symbol_table-IsTree (suc zero) node e = ground arith
symbol_table-IsTree (suc (suc i)) node e = cc

find_iff_example :
    ((r : Option ℕ) × (find symbol_table 1 "a" ≡ ok r))
    × ((find symbol_table 1 "a" ≡ ok (some 0)) ↔ Visible symbol_table "a" 0 1)
find_iff_example = find_iff symbol_table "a" 1 0 symbol_table-IsTree (omega arith)

pub symbol_table-IsPooled : IsPooled symbol_table 1 "gltu"
unfolding find
symbol_table-IsPooled i v =
    let seen : ok none ≡ ok (some i) =
      (find_iff symbol_table "gltu" 1 i symbol_table-IsTree (omega arith)).1.1 v in
    cc

mkscope-rmscope_example :
    (t' : SymbolTable) × (made : ℕ) × ((mkscope symbol_table 1 ≡ ok (t', made))
      × IsTree t'
      × (find t' made "a" ≡ find symbol_table 1 "a")
      × (rmscope t' made ≡ ok 1))
mkscope-rmscope_example =
    mkscope-rmscope symbol_table 1 0 "a" symbol_table-IsTree (omega arith) refl

decoder-lookup_example :
    (9 < 16)
    × (decoder iog5_two_regs_one_simm_ldst 9 ≡ ("ldhi", args_type iog5_two_regs_one_simm_ldst))
decoder-lookup_example = decoder-lookup iog5_two_regs_one_simm_ldst "ldhi" 9 refl

decode_reg_name-lookup_iff_example :
    (lookup "sp" encoding_stuff.reg_names_map ≡ some 15)
    ↔ (decode_reg_name encoding_stuff 15 ≡ ok "sp")
decode_reg_name-lookup_iff_example = decode_reg_name-lookup_iff "sp" 15

cstm_strdup_iff_example :
    let (q, i) = cstm_strdup "a" empty in (i ≡ (cstm_strdup "b" q).1) ↔ (◌≡◌ {A = String} "a" "b")
cstm_strdup_iff_example = cstm_strdup_iff "a" "b" empty tt

-- One of the tables in another order.
abbrev reordered : EncodingStuff
reordered = record encoding_stuff { iog6_no_args_map = ("di", 1) ∷ ("ei", 0) ∷ ("reti", 6) ∷ [] }

reordered-IsReordered : IsReordered reordered
reordered-IsReordered = record {
  iog0_three_regs = Perm.rfl;
  iog1_two_regs_one_imm = Perm.rfl;
  iog1_two_regs_one_simm = Perm.rfl;
  iog1_one_reg_one_pc_one_simm = Perm.rfl;
  iog1_one_reg_one_imm = Perm.rfl;
  iog2_branch = Perm.rfl;
  iog3_jump = Perm.rfl;
  iog4_call = Perm.rfl;
  iog5_three_regs_ldst = Perm.rfl;
  iog5_two_regs_one_simm_ldst = Perm.rfl;
  iog6_no_args = Perm.swap _ _ _;
  iog6_one_ireta_one_reg = Perm.rfl;
  iog6_one_reg_one_ireta = Perm.rfl;
  iog6_one_idsta_one_reg = Perm.rfl;
  iog6_one_reg_one_idsta = Perm.rfl;
}

get_iog_order_example :
    (get_iog0_instr_from_opcode encoding_stuff 1 ≡ get_iog0_instr_from_opcode reordered 1)
    × (get_iog1_instr_from_opcode encoding_stuff 1 ≡ get_iog1_instr_from_opcode reordered 1)
    × (get_iog2_instr_from_opcode encoding_stuff 1 ≡ get_iog2_instr_from_opcode reordered 1)
    × (get_iog3_instr_from_opcode encoding_stuff 1 ≡ get_iog3_instr_from_opcode reordered 1)
    × (get_iog4_instr_from_opcode encoding_stuff 1 ≡ get_iog4_instr_from_opcode reordered 1)
    × (get_iog5_instr_from_opcode encoding_stuff 1 ≡ get_iog5_instr_from_opcode reordered 1)
    × (get_iog6_instr_from_opcode encoding_stuff 1 ≡ get_iog6_instr_from_opcode reordered 1)
get_iog_order_example = get_iog_order reordered reordered-IsReordered 1
