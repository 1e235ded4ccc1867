-- ===== src/Disassembler/Source/Programs.antt =====
-- A whole program of the source text: both passes of assembler_class.cpp, their output as text, and
-- what disassembler_class.cpp prints of it.
use mathlib.Core.Path.{subst}
use frost32_cpu.Prelude.{ℕ, ◌+◌, ◌≡◌, ◌∙◌, refl, ap, sym, List, [], ◌∷◌, ◌++◌, append-nil, true}
use frost32_cpu.Orange.{Orange, Laws}
use frost32_cpu.Outcome.{ok}
use frost32_cpu.Output.{Item, render}
use frost32_cpu.Encoding.{encoding_stuff}
use frost32_cpu.Assembler.{Assembler, assembler, is_pass_one, ◌>>◌}
use frost32_cpu.Assembler.Emit.Lines.{at_address}
use frost32_cpu.Assembler.Emits.{exact_then}
use frost32_cpu.Assembler.Syntax.{
  Line, scoped_lines, label, instruction, pseudo_instruction, directive, blank, Lines, no_lines,
  line_then,
}
use frost32_cpu.Assembler.Program.{enter_scope, leave_scope, visit_line, visit_lines, run}
use frost32_cpu.SymbolTable.Shape.{scopes}
use frost32_cpu.Assembler.Program.Blocks.{block, blocks, LineFollows, Follows}
use frost32_cpu.Assembler.Program.Layout.{LinePlaced, Placed}
use frost32_cpu.Assembler.Program.Leaves.{IsReady, IsReady-InScope}
use frost32_cpu.Assembler.Program.Second.Steps.{
  Walked, Walked-IsReady, left, enter_scope-IsChild, left_block, IsChild-IsReady,
}
use frost32_cpu.Assembler.Program.Second.{visit_line-Walked, visit_lines-Walked}
use frost32_cpu.Assembler.Program.Total.Sound.{labels, IsDistinct}
use frost32_cpu.Assembler.Program.Runs.{started, started_again-IsReady}
use frost32_cpu.Assembler.Program.Total.{first_pass, first_pass-Done, run-first_pass}
use frost32_cpu.Assembler.Program.Total.Leaves.{Ended, Post-at}
use frost32_cpu.Assembler.Program.Total.Labels.{visit_label-second}
use frost32_cpu.Disassembler
use frost32_cpu.Disassembler.{visit_program}
use frost32_cpu.Disassembler.Source.Shows.{Shows-Reads}
use frost32_cpu.Disassembler.Source.Lines.{
  line_end, lines_end, LineShows, AllShows, AllShows-IsSound,
}
use frost32_cpu.Disassembler.Source.Reads.{Reads, Reads-same, Reads-trans, program_text, AreTokens}

-- A state outputs the lines that are printed as given, and the program counter is at an address that
-- was output.
abbrev Listed : Orange → List Item → ℕ → Assembler → Assembler → Type 0
Listed lib shown a s t = Reads lib shown s t × (t.pc ≡ at_address a)

Reads-left :
    (lib : Orange) (shown : List Item) (s t : Assembler) (p q : ℕ) (k l : List ℕ)
    → Reads lib shown (left p k s) t
    → Reads lib shown s (left q l t)
Reads-left lib shown s t p q k l x = record {
  items = x.items;
  lines = x.lines;
  out = x.out;
  as_text = x.as_text;
  read = x.read;
  tokens = x.tokens;
}

module _ (lib : Orange) (laws : Laws lib) where
  mutual
    unfolding visit_line LineFollows LineShows line_end

    visit_line-Reads :
        (line : Line) (s : Assembler) (k : ℕ) (rest : List ℕ) (a : ℕ) (shown : List Item)
        → is_pass_one s ≡ true
        → s.show_words ≡ true
        → IsReady s
        → s.scope_child_num_stack ≡ k ∷ rest
        → s.pc ≡ at_address a
        → LineFollows (scopes s.sym_tbl) s.curr_scope_node k line
        → LineShows lib a line shown
        → Ended (visit_line lib line) s (Listed lib shown (line_end a line) s)
    visit_line-Reads (scoped_lines lines) s k rest a shown second words r e pc (c, child, f) h =
        let stack = s.scope_child_num_stack in
        let into = left c (0 ∷ stack) s in
        let r' = IsChild-IsReady s k c (0 ∷ stack) r child in
        let b = visit_lines-Reads lines into 0 stack a shown second words r' refl pc f h in
        let w =
          Post-at (visit_lines lib lines) into b.end
            (Walked (Placed lines) ((0 + blocks lines) ∷ stack) into)
            (visit_lines-Walked lib laws lines into 0 stack second r' refl f) b.ends in
        let (reads, pc') = b.at in
        record {
          end = left s.curr_scope_node ((k + 1) ∷ rest) b.end;
          ends =
              exact_then enter_scope (λ _. visit_lines lib lines >> leave_scope) s into
                (enter_scope-IsChild s second k rest c e child)
              ∙ exact_then (visit_lines lib lines) (λ _. leave_scope) into b.end b.ends
              ∙ left_block (Placed lines) s b.end k c (0 + blocks lines) rest second e child w;
          at = (
            Reads-left lib shown s b.end c s.curr_scope_node (0 ∷ stack) ((k + 1) ∷ rest) reads,
            pc',
          );
        }
    visit_line-Reads (label i) s k rest a shown second words r e pc f (t, none) =
        let b = visit_label-second i s r t second in
        record {
          end = b.end;
          ends = b.ends;
          at = (
            subst (λ l. Reads lib l s b.end) (sym none)
                (Reads-same lib s b.end (ap (λ y. y.out) b.at.kept)),
            ap (λ y. y.pc) b.at.kept ∙ pc,
          );
        }
    visit_line-Reads (instruction i) s k rest a shown second words r e pc f h =
        Shows-Reads lib laws a s second words pc (IsReady-InScope s r) i shown h
    visit_line-Reads (pseudo_instruction p) s k rest a shown second words r e pc f h = absurd h
    visit_line-Reads (directive d) s k rest a shown second words r e pc f h = absurd h
    visit_line-Reads blank s k rest a shown second words r e pc f h = record {
      end = s;
      ends = refl;
      at = (subst (λ l. Reads lib l s s) (sym h) (Reads-same lib s s refl), pc);
    }

    visit_lines-Reads :
        (lines : Lines) (s : Assembler) (k : ℕ) (rest : List ℕ) (a : ℕ) (shown : List Item)
        → is_pass_one s ≡ true
        → s.show_words ≡ true
        → IsReady s
        → s.scope_child_num_stack ≡ k ∷ rest
        → s.pc ≡ at_address a
        → Follows (scopes s.sym_tbl) s.curr_scope_node k lines
        → AllShows lib a lines shown
        → Ended (visit_lines lib lines) s (Listed lib shown (lines_end a lines) s)
    visit_lines-Reads no_lines s k rest a shown second words r e pc f h = record {
      end = s;
      ends = refl;
      at = (subst (λ l. Reads lib l s s) (sym h) (Reads-same lib s s refl), pc);
    }
    visit_lines-Reads (line_then line lines) s k rest a shown second words r e pc (f, fs)
          (x, y, (q, h, hs)) =
        let k' = k + block line in
        let b = visit_line-Reads line s k rest a x second words r e pc f h in
        let t = b.end in
        let (reads, pc') = b.at in
        let w =
          Post-at (visit_line lib line) s t (Walked (LinePlaced line) (k' ∷ rest) s)
            (visit_line-Walked lib laws line s k rest second r e f) b.ends in
        let scope : t.curr_scope_node ≡ s.curr_scope_node = ap (λ y. y.curr_scope_node) w.kept in
        let fs' =
          subst (λ g. Follows g t.curr_scope_node k' lines) (sym w.shape)
            (subst (λ p. Follows (scopes s.sym_tbl) p k' lines) (sym scope) fs) in
        let c =
          visit_lines-Reads lines t k' rest (line_end a line) y (ap is_pass_one w.kept ∙ second)
            (ap (λ y. y.show_words) w.kept ∙ words)
            (Walked-IsReady (LinePlaced line) (k' ∷ rest) s t r w)
            (ap (λ y. y.scope_child_num_stack) w.kept) pc' fs' hs in
        let (reads', pc'') = c.at in
        record {
          end = c.end;
          ends = exact_then (visit_line lib line) (λ _. visit_lines lib lines) s t b.ends ∙ c.ends;
          at = (
            subst (λ l. Reads lib l s c.end) (sym q) (Reads-trans lib x y s t c.end reads reads'),
            pc'',
          );
        }

-- A program of instructions of groups 0 to 5 with a name that the visitor has a token for and the
-- table an opcode (so not nor with three registers, which has no token there, nor gltu and glts,
-- which have no opcode), registers of the table and numbers, those of 12 bits where the offset of a
-- load or store is one, of labels that are distinct within each block, of blocks and of blank lines
-- is assembled, with words shown, to lines of text, each a number in hexadecimal, and of these
-- lines the disassembler prints for each instruction, in their order, its name, its registers, and
-- what its field holds of its number, or of the offset from the following instruction for a branch.
pub run-visit_program :
    (lib : Orange) (laws : Laws lib) (lines : Lines) (shown : List Item)
    → IsDistinct [] lines
    → AllShows lib 0 lines shown
    → (s : Assembler) × (output : List Disassembler.Line) × ((run lib lines (assembler true)
          ≡ ok (tt, s))
        × (render 10 s.out ≡ program_text output)
        × AreTokens output
        × (visit_program lib encoding_stuff output ≡ ok shown))
unfolding render
run-visit_program lib laws lines shown distinct h =
    let sound = AllShows-IsSound lib lines (labels lines) 0 shown h in
    let t = (first_pass lib laws lines distinct sound true).end in
    let done = first_pass-Done lib laws lines distinct sound true in
    let again = started lib 1 1 t in
    let b =
      visit_lines-Reads lib laws lines again 0 [] 0 shown refl (ap (λ y. y.show_words) done.0.kept)
        (started_again-IsReady lib laws lines true t done)
        (ap (λ y. y.scope_child_num_stack) done.0.kept)
        (laws.back_up_lem (record t.pc { curr = 0 })) done.1 h in
    let (reads, pc) = b.at in
    (
      b.end,
      reads.lines,
      (
        run-first_pass lib laws lines distinct sound true ∙ b.ends,
        ap (render 10) (
              reads.out
              ∙ ap (λ o. o ++ reads.items) (ap (λ y. y.out) done.0.kept)
              ∙ sym (append-nil reads.items))
            ∙ reads.as_text []
            ∙ append-nil (program_text reads.lines),
        reads.tokens,
        reads.read,
      ),
    )
