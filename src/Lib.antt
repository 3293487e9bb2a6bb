-- ===== src/Lib.antt =====
-- The front end of the Crunch compiler: from tokens to the syntax tree of a file, and on to the HIR.
--
-- The program. `Parser` (crates/crunch-parser/src/parser/mod.rs) holds a stream of tokens, the token
-- that it pulled last and the one that it peeks at, and an error handler. Its utility functions pull
-- and eat tokens; utils.rs builds paths, literals and operators from them, with string_escapes.rs
-- for the text between quotes; types.rs climbs over types with these, expr.rs over expressions,
-- stmt.rs and patterns.rs parse statements and patterns, and item.rs items. Every function that
-- recurses takes a stack frame from `add_stack_frame` first. `parse` collects the items of a file;
-- behind an error it goes on at a token of one of eight kinds, until there are too many errors.
-- unnest_externs.rs then moves the items of external blocks to the top, and distance.rs of
-- crates/crunch-shared/src compares names for suggestions. `Ladder` (crates/ladder/src/lib.rs) lowers
-- the items to the HIR: it holds a counter, from which the variables of the compiler take their
-- numbers, and asks the query database for the numbers of types, which live in the arenas of
-- crates/crunch-shared/src/context.rs.
--
-- The files.
-- - Prelude and its children: names of the libraries, tests on numbers, lists measured by native
--   numbers. A text is the list of its characters' scalar values.
-- - Escapes: string_escapes.rs. `Chars` is a `CharStream` with the index beside it, `Outcome` the
--   result of a function, a panic included. `number` is the loop over digits of the five numeric
--   escapes, over integers that are checked to stay below the width of their type. Escapes/Post, Bounds and
--   Safety say what the functions leave and return; Escapes/Spelling says how a character may be
--   spelled, and Escapes/Digits, Numerals and RoundTrip that the decoder agrees.
-- - Token, with Token/Kind and Token/Stream: crates/crunch-parser/src/token.rs, and `Span` of
--   crates/crunch-shared/src/error.rs. `next_token` is the recursion of `TokenStream::next`.
-- - Ast, with Ast/Leaves and Ast/Nodes: the tree of crates/crunch-shared/src/trees/ast.rs. A list of
--   nodes inside of a node is a data type of its own in the block.
-- - Parser/Core and Parser/Tokens: the state of a `Parser`, `ParseResult` as a monad over it, and
--   `next`, `peek`, `eat`, `eat_of`, `stress_eat` and `eat_newlines`. An error leaves the state
--   where it arose.
-- - Parser/Literal and Parser/Operators: utils.rs. `item_path`, `parse_literal` (`literal`) with a
--   function for each kind of token, `assign_kind`, `comp_op`, `bin_op`, `unary_op`. The tables of
--   operators are compared with the spellings of tokens in Parser/Operators/Spelling.
-- - Parser/Types with Tables, Named and Prefix: types.rs. The closures of `type_prefix` have a
--   function each; `infix_loop` is the loop of `ascribed_type_internal`.
-- - Parser/Loop and Parser/Blocks: loops as rounds that go on or end, `block_returning`, and the
--   tests by `peek` that the source writes out.
-- - Parser/Calls: the guarded functions as a record, which the functions that call them take as a
--   parameter. Parser/Expr with Tables, Values, Control, Operations and Climb: expr.rs. Parser/Stmt:
--   stmt.rs and patterns.rs. Parser/Item with Parts, Functions, TypeDecls, Imports and Bodies:
--   item.rs. The arms of a match on a token's kind are a data type and a function by its clauses.
-- - Parser/Grammar: `calls` gives the functions for each number of frames, and `parse` the items.
-- - Parser/Ends and its children: calls that end, with the tokens that they pull; Parser/Ends/Good is
--   what the guarded functions promise each other. Parser/Grammar/Ending and Files draw the
--   conclusion, Parser/Grammar/Delimiters is about the blocks behind loops, and Rejections about what
--   cannot stand in front of an item.
-- - Unnest and Unnest/Levels: unnest_externs.rs. Distance, with Edits and Rows:
--   `levenshtein_distance` of distance.rs; the array is the list of its cells. Distance/Words and
--   Distance/Match: the rest of that file; a pointer to a word is its address and the word.
--   Distance/Answer describes the answers to a search, Distance/Folds and Best show that they are given.
-- - Hir, with Hir/Leaves and Hir/Nodes: the tree of crates/crunch-shared/src/trees/hir.rs. Hir/Tally
--   adds up what the variables of a tree weigh, and Hir/Scopes says which of them are in scope.
-- - Ladder, with State, Types, Conditions, Loops, Operators and Visit: the lowering. `Lower` is the
--   monad of operations on a `Ladder` that may panic; a `todo!()` of the source is `todo`.
--   Ladder/Visit has the visits of the nodes, which hand the visits of their parts to the functions
--   of the other files. `query` is `db.hir_type`, `hir_type` that of the context.
-- - Ladder/Runs is about the results of these operations, Ladder/Quiet about types. Ladder/Account is
--   an interface: a weight of variables that grows with the counter; Ladder/Weight with Parts and
--   Visit accounts for every visit, and Ladder/Fresh takes two such weights. Ladder/Closed with Parts
--   and Visit is about scopes. Ladder/Support describes what lowering can handle, and its Types,
--   Parts and Visit that it returns exactly there. Ladder/Resolves says what the
--   numbers of types denote, and Ladder/Order what becomes of the items of a flattened file.
-- - Parser/Runs, Parser/Progress and Parser/Keeps: postconditions on calls and how they compose.
--   Parser/Visible, Eaten, Stops, Newlines and Paths tell what the functions do by the
--   list of tokens that are in sight; Parser/Types/Lists, Forms, Progress, Ending and FunctionPointers are
--   about types.
-- - Parser/Sample, and the modules named Tests: a context, runs and instances of the theorems.
--
-- Bounds. A loop that pulls a token each round has the number of tokens left, and one, as its fuel;
-- the loop over a literal's characters has their number, and one. The recursion of the type parser
-- is on the frames that `add_stack_frame` still allows: `type_calls` gives the functions with some
-- number of frames, and with none each is the error of the recursion limit; `calls` does the same for
-- the rest of the parser. A round of `parse` pulls a token or counts an error, so that the tokens
-- left and the limit of errors, and one, are its fuel. `flatten` has the number of all items. Lowering
-- is by recursion on the tree. Its counters are not bounded; they are machine words in the source.
--
-- Parameters. The record `Context` holds the file's id and length, the limits on frames and on errors,
-- interning (with Unicode normalization), the number parsers of lexical_core, and `char::is_numeric`. The
-- tokens that the generated lexer gives are an argument of `new`, and `str::to_uppercase` is one of
-- `find_best_match`. `Recall` is the memory of the query database: what it answers to a type, from its
-- answers so far, or nothing, when it computes the query anew. A theorem that needs
-- this memory to be honest says so.
--
-- Not modelled: the lexer, which a derive generates; the translation to MIR, type checking, code
-- generation, diagnostics and the drivers; the query `lower_hir` around the lowering, which reads and
-- writes files. Capacities of vectors and tracing have no counterpart.
-- An assertion of debug builds is a panic: `eat`, `eat_of` and `merge_locations` have one.
-- Locations of errors keep the source's arithmetic; messages are represented by what is put in them.
pub mod Prelude
pub mod Escapes
pub mod Token
pub mod Ast
pub mod Parser
pub mod Unnest
pub mod Distance
pub mod Hir
pub mod Ladder
