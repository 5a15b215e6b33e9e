-- ===== src/CFunctions.antt =====
-- function_abstraction.h, and the Converter of types.h: the calls of C++ functions from Lua.
pub mod Convert
pub mod Meta
pub mod Curried
pub mod Binding
mod Tests
