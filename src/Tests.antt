-- ===== src/Tests.antt =====
-- Concrete inputs for the theorems of the other modules.
pub mod Words
pub mod Instructions
pub mod Machines
pub mod Options
mod Pipeline
pub mod Assembler
pub mod Refinement
pub mod Flow
pub mod Ranges
