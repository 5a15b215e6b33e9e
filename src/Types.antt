-- ===== src/Types.antt =====
-- types.h and types.cpp: the values of the interpreter.
pub mod Platform
pub mod Value
pub mod Coerce
pub mod Equal
pub mod Table
pub mod Gc
pub mod Var
pub mod Halves
mod Tests
