-- ===== src/Rip/Flow.antt =====
-- Straight programs in the pipeline of lib/RIPSimulator/RIPSimulator.cpp: instructions that compute
-- a register, one fetched in each cycle.
pub mod Moves
pub mod Stages
pub mod Operands
pub mod Work
pub mod Rounds
pub mod Retire
pub mod Executes
pub mod Follows
pub mod Drain
pub mod Run
pub mod Programs
