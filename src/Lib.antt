-- ===== src/Lib.antt =====
-- A model of luapp, an interpreter of Lua written in C++, with theorems about it.
--
-- A file is parsed by antlr, then the listener `SyntacticAnalyzer` walks the parse tree and checks
-- its labels and gotos, then the visitor `Interpreter` runs it over the values of `Types`, and asks
-- the analyzer which blocks a name may be bound in. A call of a C++ function goes through
-- `FunctionAbstraction`.
--
-- Prelude: shared tests, lists, maps, integers, and the exceptions of exceptions.h (`Error`). What may
-- throw returns a `Result`; `undefined` stands for what C++ does not define. Exceptions: the texts that
-- exceptions.cpp gives them.
--
-- Analyzer (syntactic_analyzer.h, syntactic_analyzer.cpp):
--   Scope, Validate: `validate_gotos`, `validate_labels`, `explore_context` and `validate_goto`. A
--   BlockContext* is an address, 0 the null pointer; a pair of iterators is the list that is ahead.
--   State, Listener: the members of the class and its callbacks, from `enterChunk` to `enterLabel`.
--   Walk: the order in which antlr calls them for a parse tree.
--   Visible, Explore, Labels, Program, Walk.Balance: the theorems. Fuel bounds how deep blocks nest; a theorem
--   asks for more than the depth of the tree that the map of a scope stands for.
--
-- Types (types.h, types.cpp):
--   Platform: `double` and the conversions of the C++ library, as parameters.
--   Value, Coerce, Equal: the variant `LuaValue`, its conversions, and `Value::operator==`.
--   Table: the fields by type of key, `FieldSetter`, `FieldGetter` and, in Table.Border, `border`.
--   Gc: the map of reference counts, and the counts of `Value` objects.
--   Var: what an expression gives: a value, a pointer to a bound value, or a list; Var.Reading: how it
--   reads.
--   Halves: test data, a platform whose doubles are the multiples of one half.
--
-- CFunctions (function_abstraction.h, and `Converter` of types.h):
--   Convert: `perform_conversion` by the kind of a parameter's type, and `std::any_cast`, which asks for
--   the type of what a conversion gave. Curried: the chain of `CurriedFunction`, with `bind_next` and
--   `call` as FunctionAbstraction (function_abstraction.cpp) dispatches to them, and `call_c_function` of
--   interpreter.cpp up to the C++ function itself. Binding: the arguments that the function gets.
--   Meta (meta_types.h): the templates, as functions of types; a type without a definition is `none`.
--   Meta.Rebuilding: the list of a variant's types.
--
-- Interpreter (interpreter.h, interpreter.cpp):
--   Operators: the operators by their symbols. Arithmetic, Bitwise: what `visitExp` does with the
--   values of the operands. An int has 32 bits; signed overflow is undefined. The fuel of `negate`
--   bounds its calls of itself, of which there is at most one.
--   Environment: the state of the interpreter and `lookup_name`; in Environment.Closing
--   `clear_block`, `erase_block`, `stabilize_blocks` and `close_function`. A `Value` object, a table
--   and a function are addresses with what they hold. The fuel of `release` is above the number of
--   objects, of which each destructor inside another deletes one.
--   Syntax: the parse tree as far as the visitors read it, a parameter. Machine: how a visitor runs;
--   it changes the environment, and returns or throws (`Outcome`), and what it changed before a throw
--   stays. An exception of the control flow (`break`, `goto`, `return`) is a value of `Thrown`. The label
--   that the handler of a goto reads is destroyed by then, so `visitBlock` is undefined from there on.
--   Functions, Assign, Calls: the functions of interpreter.cpp that make functions, assign and call.
--   The C++ functions that a program registers are the parameter `Host`.
--   Operands, Expressions: `visitExp` and what it visits. Access: `subscript` and `dot` of values, which
--   no visitor calls. Loops, Control: `process_while` and the like.
--   Infrastructure: `funcall_test_infrastructure`. Statements: `visitStat`, `visitBlock` and the
--   visitors tied together (`visitor`), with `visitChunk`.
--   The fuel of `visitor` bounds how deep the calls of visitors nest, and the rounds of each loop: a
--   Lua program need not end. Control.Unrolling and Loops.Counting say how much a loop needs; Fuel
--   names the runs that lack it.
--   Storage, Binding, Unwinding, Keeping, Nesting, Cascade, Counting, Unrolling, Failing, Ending: theorems, in the
--   modules of what they are about. Runs: those at small environments.
--
--   Stacks and its children: every visitor again, for what is left on the stacks of blocks, functions and
--   locals however it ends. Stacks.Stores and Stacks.Actions have the steps, Stacks.Entering and
--   Stacks.Unwinding what is pushed and popped.
--
-- Program (environment.cpp, and of interpreter.cpp `launch` and the destructor): `run_file`, with the
-- file system, the parser and the printing of trees as the parameter `Frontend`. The one fuel is that of
-- the checks and of the visitors. Program.Analysis: a program that the checks reject.
--
-- Not modelled: the parser, which is generated code. `Value::init`, which sets constants to what they
-- are. What a walk of the listener that throws has changed, nor what a close that throws "Closing
-- function twice" has closed before. The copies of a `Value` in temporaries, which a compiler may leave
-- out, and in the fields of tables: of the counts only those are kept that the source asks the
-- collector for, so the destructor of a table releases nothing, where that of a function releases what
-- its closure holds. That the object being deleted has the count 0 until its destructor has run. The stores are lists
-- in the order of insertion where the source has std::map, which lists them by name.
pub mod Prelude
pub mod Exceptions
pub mod Analyzer
pub mod Types
pub mod CFunctions
pub mod Interpreter
pub mod Program
