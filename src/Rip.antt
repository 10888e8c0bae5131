-- ===== src/Rip.antt =====
-- lib/RIPSimulator/RIPSimulator.cpp: the five-stage pipelined simulator, one module for each stage.
pub mod State
pub mod WriteBack
pub mod MemoryAccess
pub mod Alu
pub mod Control
pub mod Exec
pub mod Decode
pub mod Trap
pub mod Cycle
pub mod Agree
pub mod Traps
pub mod Passing
pub mod Forwarding
pub mod Extension
pub mod Single
pub mod SingleStore
pub mod SingleLoad
pub mod SingleUpper
pub mod SingleJump
pub mod Branch
pub mod Start
pub mod Flow
pub mod Fuel
pub mod Interactive
pub mod Transparent
pub mod Hazard
pub mod SingleIndirect
pub mod SingleCsr
pub mod SingleImmediate
