-- ===== src/Units.antt =====
-- The unit tests of unittests, on the model.
pub mod Runner
pub mod Jumps
pub mod Loads
pub mod System
pub mod Arithmetic
pub mod Immediate
pub mod Same
pub mod Commands
pub mod Stages
pub mod Decoding
pub mod Emitting
pub mod Parsing
pub mod Checks
