-- ===== src/Analyzer.antt =====
-- syntactic_analyzer.h and syntactic_analyzer.cpp: the pass over the parse tree before a file is
-- interpreted.
pub mod Scope
pub mod Validate
pub mod Visible
pub mod Explore
pub mod Labels
pub mod Program
pub mod State
pub mod Listener
pub mod Walk
mod Tests
