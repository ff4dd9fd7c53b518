-- ===== src/Program.antt =====
-- `cvk_program` of src/program.hpp and src/program.cpp: the options that its binaries preserve, the
-- format of the binaries, and the operations that build it.
mod Names
pub mod Options
pub mod State
pub mod Binary
pub mod PushConstants
pub mod Build
pub mod Entry
mod Tests
