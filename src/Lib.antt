-- ===== src/Lib.antt =====
-- The assembler and the disassembler of the FROST32 processor (assembler_disassembler/src), which
-- turn assembly text into Verilog VMEM text and back.
--
-- The parts. `Encoding` holds the tables of encoding_stuff_class.cpp, names to opcodes, and their
-- decoders. `Intern` is the pool of allocation_stuff.cpp, whose pointers key those tables.
-- `SymbolTable` is the tree of scopes of scoped_table_base_class.hpp with the tables of
-- ident_table_classes.hpp and the symbols of symbol_table_classes.hpp. `Assembler` is the state of
-- assembler_class.hpp, a record that each operation takes and returns: `Assembler/Emit` is gen_8
-- to gen_32, `Assembler/Groups` the words of encode_instr_opcode_group_*, `Assembler/Encode` the
-- functions __encode_* and __warn_if_*, `Assembler/Operators`, `Assembler/Tokens` and
-- `Assembler/Expr` the visitors of expressions, with `Assembler/Expr/Value` as their reference,
-- `Assembler/Visit` and `Assembler/Pseudo` those of instructions, and `Assembler/Program`
-- directives, labels, scopes and `run` of assembler_class.cpp. `Assembler/Emits` says what a step
-- that outputs does to the state, on either pass, and how a sequence of steps is taken apart;
-- `Assembler/Visit/Sizes`, `Assembler/Pseudo/Sizes`, their neighbours Accepted and
-- `Assembler/Program/Leaves` are about the visitors, `SymbolTable/Shape` and `SymbolTable/Forest`
-- about the scopes without their symbols, `Assembler/Program/Layout` about addresses,
-- `Assembler/Program/Blocks` about which scope a block stands for, and `Assembler/Program/First`,
-- `Assembler/Program/Second`, `Assembler/Program/Addresses` and `Assembler/Program/Runs` about the
-- first pass, the second and both. `Assembler/Program/Total` is about the programs that are
-- accepted, for which `SymbolTable/Names` and `SymbolTable/Sees` say where a name is in the tables
-- and from where it is seen. `Assembler/Program/Held`, over `SymbolTable/Addresses`, is about the
-- addresses of labels after the first pass, on the second, and in a branch. `Assembler/Formats` is
-- about what does not depend on the format, bytes or words. `Assembler/Syntax` is the parse trees
-- of AssemblerGrammar.g4, in which a token stands for its text: TokInstrNameSgtu for gltu, not
-- sgtu. `Disassembler` is disassembler_class.cpp and disassembler_class.hpp, and its modules
-- RoundTrip, Listing, Instructions and Source go from a word, a line, an encoded instruction and a
-- source instruction or program to what is printed. `Main` is main.cpp, which picks one of the
-- two, with the error listener of asm_disasm_error_listener_class.cpp; `Main/RoundTrip` runs it on
-- what it output. `Output` is what goes to the standard output and the text that a stream makes of
-- it.
--
-- A visitor is a function from the state to an `Outcome`: a result with the new state, `exits`
-- where the code calls err or exit(1), `uncaught` where std::map::at or std::vector::at throws,
-- and `undefined` where C++ leaves a step undefined, such as an overflow of a signed sum, a
-- remainder by zero, or a null pointer that is followed. An s64 is an integer, a u64, u32 or u16 a
-- natural number with its wrap-around written out. Pointers to scopes and to symbols are places in
-- lists, pointers to texts are the texts.
--
-- `Orange` is what is called of the library in liborangepower, as parameters, with the documented
-- behaviour of the bit ranges and of the pair as the hypotheses `Laws`; `Tests` has an instance.
--
-- The search of scopes runs on fuel, one more than the number of scopes, which is enough since
-- each parent is made before its children; get_all_children_tables runs on the number of scopes,
-- for its depth. The digits of a number run on fuel 64, one for each bit of the widest word. All
-- other recursion is structural.
--
-- Not modelled: the generated lexers and parsers, which are the parameters `Parsers`, the texts of
-- warnings and errors (a constructor each), what was output before an error, cstm_intdup and
-- IdentTable, which nothing calls, the destructors, and the processor in hdl.
pub mod Prelude
pub mod Outcome
pub mod Orange
pub mod Encoding
pub mod Intern
pub mod SymbolTable
pub mod Output
pub mod Assembler
pub mod Disassembler
mod Tests
pub mod Main
