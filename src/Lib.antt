-- ===== src/Lib.antt =====
-- tipc, a compiler from TIP (a tiny imperative language) to LLVM bitcode.
--
-- The parser builds a syntax tree; `genId` numbers its nodes; the type analysis walks the numbered
-- tree three times and adds constraints to a union-find solver, whose classes carry types; the
-- pretty printer writes a tree back as text, and the analysis calls it for its messages and to
-- find the return statement of a function.
-- The code generator walks the tree and makes calls of LLVM.
--
-- * ParseTree has the contexts of tipg4/TIP.g4, and Build models src/TIPtreeBuild.cpp, the visitor
--   that makes the syntax tree of them; Build/Reference is the same tree without the visitor's
--   globals, Build/Large says where a parse has a number beyond an int, and Build/Numerals is about
--   the numbers in the source.
-- * Types models src/TIPtypes.h and src/TIPtypes.cpp: the inferred types and their print.
-- * Unify and Solver model src/UnionFindSolver.h and src/UnionFindSolver.cpp. Unify is
--   `unifyTypes`; Solver has `addNode`, `findRoot`, `unifyNodes`, `setType`, `getType` and
--   `existNode`, over the two maps as dictionaries. `operator[]` inserts its default, as in C++.
-- * Tree models the node classes of src/TIPtree.h, Ast `genId` of src/TIPast.cpp, and TreePrint
--   src/TIPtreePrint.cpp.
-- * Typecheck models src/TIPtypecheck.cpp: expressions in Typecheck itself, statements, functions
--   and programs in Typecheck/Functions, `printTyped` in Typecheck/Printed; Typecheck/Driver is
--   the numbering and the typed print of src/tipc.cpp. What the constraints of a tree are, as a
--   predicate on the solver before and a solver after, is said in Typecheck/Typing and
--   Typecheck/StmtTyping; which references `genId` reaches in Ast/Reached, and the scope of a
--   function in Ast/Scope and Ast/FunctionScope.
-- * Codegen models src/TIPtreeGen.cpp: its globals and the expressions in Codegen itself,
--   statements in Codegen/Statements, functions and the program in Codegen/Functions. Llvm is the
--   vocabulary of the calls that it makes of LLVM. Codegen/Shape says which calls may follow each
--   other, Codegen/Typing which operands LLVM wants, Codegen/Inputs how many inputs a program has,
--   and Codegen/Supported for which code the names and constructs are there. Codegen/Source is the
--   run of src/tipc.cpp without options, from the parse to the module, and Codegen/Erased compares
--   the code of trees with and without ids.
-- * Meaning says what the calls of expressions, of assignments, outputs and errors and of blocks of
--   them do when they run, over a machine whose words, memory and instructions are a parameter;
--   Meaning/Evaluate has the meaning of the source, and Meaning/Exprs and Meaning/Stmts compare the
--   two.
-- * CommandLine models `main` of src/tipc.cpp after the parse, under every combination of options.
-- * Runtime models intrinsics/tip_intrinsics.c, the input and output of compiled programs;
--   Runtime/Arguments is about the loop of its `main`.
-- * Prelude has what they share: texts as lists of code points, dictionaries, and the outcome of
--   an operation that may throw.
--
-- An exception is the case `err` of a result. A TIPTypeError keeps its message; the use of a null
-- pointer, of an unset field or of an index beyond a vector is the case `undefined`. The loop of
-- `findRoot` takes as fuel the number of entries and one more; running out would be the case
-- `out_of_fuel`, and in a valid solver it does not occur, since a path passes an entry only once.
-- Ids are natural numbers without the upper bound of `int`. A tree owns its children through unique
-- pointers, and types are never changed once built, so trees and types are values.
--
-- LLVM is not modelled. The state of the code generator has the sequence of the calls that change
-- the module; a value that LLVM returns is the position of its call together with the documented
-- type of it, also where LLVM folds constants and adds no instruction. A null pointer that `codegen`
-- returns is `none`, one that it hands to LLVM is the case `undefined`. A second function of one
-- name is renamed by LLVM, and the formals of a function are taken to have different names, since
-- LLVM renames the second of two; where code runs, no function of the program has the name of one
-- of the runtime. Attributes, linkage and the names of values are not recorded.
--
-- Not modelled: the calls of LLVM's verifier, the lexer and the parser that ANTLR
-- generates, the parsing of the command line, the passes of LLVM (a parameter), and the messages
-- that the type analysis writes to the error stream before it throws again. What the code of while
-- and if statements and of whole functions does when it runs is not modelled.
pub mod Prelude
pub mod Types
pub mod Unify
pub mod Solver
pub mod Tree
pub mod TreePrint
pub mod Ast
pub mod Typecheck
pub mod ParseTree
pub mod Build
pub mod Llvm
pub mod Codegen
pub mod CommandLine
pub mod Runtime
pub mod Meaning
