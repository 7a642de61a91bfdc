-- ===== src/Lib.antt =====
-- A model of the Fermi compiler (fermi, C): the parts of the program, and what is shown of them.
--
-- The compiler reads a source file and passes it through the lexer (src/felexer), the parser
-- (src/feparser), the analyses (src/fesema, src/fetc, src/fehir), the generator of intermediate code
-- (src/fecodegen), the optimizer (src/feopt) and the printer of LLVM code (src/fellvm). All phases
-- take their memory from one arena (src/fearena). Compiled programs run on the library rt/fermi_rt.c.
--
-- Which file models which part:
--   Base            lists, bytes, decimal numbers, 64-bit integers, loops on fuel (no source)
--   Arena           src/fearena/arena.c and arena.h; Arena/Layout and Arena/Contents prove where
--                   blocks lie and what their bytes are
--   Token           src/felexer/token.h and token.c
--   Lexer           src/felexer/lexer.c: the state; its children Keyword, Utf8, Trivia, Literal,
--                   Number, Operator and Next hold one scanner each, with the source's function
--                   names; Moves, Gaps, Skipped, Progress, Tokens, Position and Bounds hold the
--                   proofs
--   Ast             src/feparser/ast.h: the syntax tree, and the appending to lists of parser.c
--   Parser          src/feparser/parser.c: the state and the basic steps; Parser/Types, Interp, Named,
--                   Primary, Postfix, Binary, Decl, Control, Match, Stmt and Program hold the functions
--                   that read one part of the language each, Parser/Calls what they call of each
--                   other; Parser/Measure, Parser/Ends, Parser/Types/Ends and
--                   Parser/Binary/Climb hold the proofs
--   Sema            src/fesema/sema.c: the state and the scopes; Sema/Check is the analysis, Sema/Env
--                   its specification without a stack; Sema/Stack, Sema/Agree and Sema/Scoping hold the
--                   proofs
--   Tc              src/fetc/tc.c: the state and the scopes; Tc/Infer and Tc/Stmt are the checker,
--                   Tc/Tree the tree it leaves, Tc/Kinds and Tc/Judge its specification; Tc/Checked,
--                   Tc/Typing, Tc/Fit, Tc/Verdicts and Tc/Unseen hold the proofs
--   Hir             src/fehir/hir.c, with the imports that lowering reaches in Hir/Paths; Hir/Noted and
--                   Hir/Imports hold the proofs
--   Driver          src/main.c: the phases in front of the generator, composed as main does; what
--                   they accept is in Driver/Accepts
--   Codegen         src/fecodegen/codegen.c: the state, and the steps that add blocks and
--                   instructions; its children Scope, Types, Nodes and Comptime hold what is looked
--                   up, Calls, Namespaces, Defers, Blocks, Loops, Match and Stmt the statements, Values,
--                   Operators, Objects, Assign, Native, FnCalls, Intrinsics, Aggregates, Lambda and
--                   Expr the expressions, Fns and Decls the functions and the program;
--                   Codegen/Grows with its children and Codegen/Defects hold the proofs
--   Fir             src/fecodegen/fir.h: the intermediate code as data; Fir/Print and Fir/Instr are
--                   its text, fir.c
--   Opt             src/feopt/opt.c: Const and Defs are its helpers, Fold the arithmetic of
--                   fold_block, Blocks the dead-block marking, Passes the rest up to mir_opt;
--                   Opt/Sound, Opt/Reach, Opt/Branches, Opt/Exits, Opt/Defs/Laws hold the
--                   proofs
--   Runtime         rt/fermi_rt.c: Map the hash map, Array the growing array, Region the regions,
--                   Text the string functions and the text of integers, Output what is printed, Number
--                   the functions on integers
--   IoError         handle/Error/IOError/IOError.c and IOError.h
--   Tests           the theorems at concrete inputs
--
-- How state is kept. A C string is the list of its bytes without the NUL. A function that changes
-- its argument returns the new one: a scanner gives a token and the next lexer. The arena is a list of
-- chunks, the newest first, whose bytes are a function of the offset, and a pointer is a chunk and an
-- offset. Linked lists are lists, and the flags dead are a function of the block's index while they
-- are computed. Machine integers wrap: size_t at 2^64, long long by its 64 bits. A
-- division of constants that the source leaves undefined, the least one by -1, wraps too.
--
-- Loops run on fuel. A scanner has one round for each character that is left and one more, and each
-- round advances; the marking of blocks has one round for each block and two more, and each but the
-- last revives a block. A list of the parser has a round for each token that may be left, and its
-- cycle of functions four calls for each. For skip_ws, the token loop and the marking it is proved
-- that the loop ends by its own test.
--
-- The generator calls itself with less fuel, which bounds how deep its calls of emit_expr and emit_stmt
-- are nested; the tree alone does not bound them, since a return emits the deferred statements.
--
-- The generator writes types into the tree, so that each of its functions gives the node back. A value
-- or a state is `none` where the source reads a null pointer, as without a current function, and in
-- the 65th nested scope, for which it has no room.
--
-- Parameters: strtoll, as the parser calls it, is a function of text and base. Doubles (strtod, the
-- arithmetic and "%.17g") are the record Doubles, of which nothing is assumed. The numbers of errno.h
-- are the record Errno. The texts that snprintf gives for the number of a literal ("%.9g" and "%.17g")
-- are the record FloatTexts. malloc succeeds, as the source takes it to, and the blocks that it gives to
-- regions are arguments.
--
-- A function that prints gives the text. Whether strtoll and strtod read a whole text is the record
-- Numerals of Fir/Print.
--
-- The analyses walk the tree by structural recursion. Their scopes are a stack of lists, the innermost
-- first; what they write into the tree and to the standard error is a list of writes and of
-- diagnostics. The tree with these writes, which the generator gets, is a function of its own.
--
-- Not modelled: the LLVM printer; file access; of the runtime library the calls of
-- the system and of the math library, the buffer of fe_replace and the functions that only free
-- memory; its assembly; the input above 2^31 - 1 bytes, where the source's int is too small.
pub mod Base
pub mod Arena
pub mod Token
pub mod Lexer
pub mod Ast
pub mod Parser
pub mod Sema
pub mod Tc
pub mod Hir
pub mod Driver
pub mod Codegen
pub mod Fir
pub mod Opt
pub mod Runtime
pub mod IoError
pub mod Tests
