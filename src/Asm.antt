-- ===== src/Asm.antt =====
-- lib/Assembler: the line parser and the emitter, with the constructors from tokens of
-- include/Instructions.h.
pub mod Kinds
pub mod Operands
pub mod Objects
pub mod Parser
pub mod Emitter
pub mod Rounds
pub mod Addresses
pub mod Offsets
pub mod Branches
