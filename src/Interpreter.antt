-- ===== src/Interpreter.antt =====
-- interpreter.h and interpreter.cpp: the interpreter.
pub mod Operators
pub mod Arithmetic
pub mod Bitwise
pub mod Environment
pub mod Syntax
pub mod Machine
pub mod Functions
pub mod Assign
pub mod Calls
pub mod Operands
pub mod Access
pub mod Expressions
pub mod Loops
pub mod Control
pub mod Infrastructure
pub mod Statements
mod Tests
mod Runs
pub mod Fuel
pub mod Stacks
