-- ===== src/Disassembler/Source/Reads.antt =====
-- The output of assembler_class.cpp as lines of DisassemblerGrammar.g4, and what
-- disassembler_class.cpp prints of them.
use frost32_cpu.Prelude.{
  ℕ, ◌≡◌, ◌∙◌, refl, ap, sym, List, [], ◌∷◌, ◌++◌, append_assoc, append-nil, true,
}
use frost32_cpu.Orange.{Orange}
use frost32_cpu.Outcome.{Outcome, ok, exits, uncaught, undefined, bind}
use frost32_cpu.Output.{Item, render}
use frost32_cpu.Encoding.{encoding_stuff}
use frost32_cpu.Assembler.{Assembler}
use frost32_cpu.Disassembler.{Line, tok_org, tok_hex_num, tok_newline, visit_line, visit_program}
use frost32_cpu.Disassembler.Hex.{is_hex_num}
use frost32_cpu.Disassembler.Listing.{AddsLine}

-- A line as it stands in the text, up to the end of the line.
abbrev pub line_text : Line → List ℕ
line_text (tok_org str) = str ++ b'\n' ∷ []
line_text (tok_hex_num str) = str ++ b'\n' ∷ []
line_text tok_newline = b'\n' ∷ []

abbrev pub program_text : List Line → List ℕ
program_text [] = []
program_text (line ∷ lines) = line_text line ++ program_text lines

program_text-append :
    (ls ms : List Line) → program_text (ls ++ ms) ≡ program_text ls ++ program_text ms
program_text-append [] ms = refl
program_text-append (l ∷ ls) ms =
    ap (λ cs. line_text l ++ cs) (program_text-append ls ms)
    ∙ sym (append_assoc (line_text l) (program_text ls) (program_text ms))

-- A line of the grammar: an address or a number in hexadecimal, or nothing.
abbrev pub IsToken : Line → Type 0
IsToken (tok_org []) = ⊥
IsToken (tok_org (c ∷ str)) = (c ≡ b'@') × (is_hex_num str ≡ true)
IsToken (tok_hex_num str) = is_hex_num str ≡ true
IsToken tok_newline = Unit

abbrev pub AreTokens : List Line → Type 0
AreTokens [] = Unit
AreTokens (line ∷ lines) = IsToken line × AreTokens lines

AreTokens-append : (ls ms : List Line) → AreTokens ls → AreTokens ms → AreTokens (ls ++ ms)
AreTokens-append [] ms h k = k
AreTokens-append (l ∷ ls) ms (h, hs) k = (h, AreTokens-append ls ms hs k)

-- A state outputs some lines more than another, whatever is output next, and the disassembler
-- prints of them what is given.
pub record Reads (lib : Orange) (shown : List Item) (s s' : Assembler) : Type 0 where
  pub items : List Item
  pub lines : List Line
  pub out : s'.out ≡ s.out ++ items
  pub as_text :
      (rest : List Item) → render 10 (items ++ rest) ≡ program_text lines ++ render 10 rest
  pub read : visit_program lib encoding_stuff lines ≡ ok shown
  pub tokens : AreTokens lines

module _ (lib : Orange) where
  abbrev joined : Outcome (List Item) → Outcome (List Item) → Outcome (List Item)
  joined r q = bind r λ items. bind q λ rest. ok (items ++ rest)

  joined_assoc : (r q v : Outcome (List Item)) → joined r (joined q v) ≡ joined (joined r q) v
  joined_assoc (ok i) (ok a) (ok b) = ap (ok) (sym (append_assoc i a b))
  joined_assoc (ok i) (ok a) (exits e) = refl
  joined_assoc (ok i) (ok a) uncaught = refl
  joined_assoc (ok i) (ok a) undefined = refl
  joined_assoc (ok i) (exits e) v = refl
  joined_assoc (ok i) uncaught v = refl
  joined_assoc (ok i) undefined v = refl
  joined_assoc (exits e) q v = refl
  joined_assoc uncaught q v = refl
  joined_assoc undefined q v = refl

  joined_nil : (r : Outcome (List Item)) → joined (ok []) r ≡ r
  joined_nil (ok a) = refl
  joined_nil (exits e) = refl
  joined_nil uncaught = refl
  joined_nil undefined = refl

  visit_program-append :
      (ls ms : List Line)
      → visit_program lib encoding_stuff (ls ++ ms)
        ≡ joined (visit_program lib encoding_stuff ls) (visit_program lib encoding_stuff ms)
  unfolding visit_program
  visit_program-append [] ms = sym (joined_nil (visit_program lib encoding_stuff ms))
  visit_program-append (l ∷ ls) ms =
      let r = visit_line lib encoding_stuff l in
      ap (joined r) (visit_program-append ls ms)
      ∙ joined_assoc r (visit_program lib encoding_stuff ls) (visit_program lib encoding_stuff ms)

  pub Reads-same : (s t : Assembler) → t.out ≡ s.out → Reads lib [] s t
  unfolding visit_program
  Reads-same s t same = record {
    items = [];
    lines = [];
    out = same ∙ sym (append-nil s.out);
    as_text = λ rest. refl;
    read = refl;
    tokens = tt;
  }

  pub Reads-trans :
      (a b : List Item) (s t u : Assembler)
      → Reads lib a s t
      → Reads lib b t u
      → Reads lib (a ++ b) s u
  Reads-trans a b s t u p q = record {
    items = p.items ++ q.items;
    lines = p.lines ++ q.lines;
    out = q.out ∙ ap (λ o. o ++ q.items) p.out ∙ append_assoc s.out p.items q.items;
    as_text = λ rest.
        ap (render 10) (append_assoc p.items q.items rest)
        ∙ p.as_text (q.items ++ rest)
        ∙ ap (λ cs. program_text p.lines ++ cs) (q.as_text rest)
        ∙ sym (append_assoc (program_text p.lines) (program_text q.lines) (render 10 rest))
        ∙ ap (λ cs. cs ++ render 10 rest) (sym (program_text-append p.lines q.lines));
    read =
        visit_program-append p.lines q.lines
        ∙ ap (λ r. joined r (visit_program lib encoding_stuff q.lines)) p.read
        ∙ ap (joined (ok a)) q.read;
    tokens = AreTokens-append p.lines q.lines p.tokens q.tokens;
  }

  -- One line.
  pub AddsLine-Reads :
      (s s' : Assembler) (r : Outcome (List Item)) (shown : List Item)
      → AddsLine lib s s' r
      → r ≡ ok shown
      → Reads lib shown s s'
  unfolding visit_program
  AddsLine-Reads s s' r shown (items, (str, (out, printed, read, pc, token))) e = record {
    items = items;
    lines = tok_hex_num str ∷ [];
    out = out;
    as_text = λ rest. printed rest ∙ simp append_assoc;
    read = rw (read, e) (ap (ok) (append-nil shown));
    tokens = (token, tt);
  }
