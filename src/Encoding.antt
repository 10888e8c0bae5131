-- ===== src/Encoding.antt =====
-- The instruction words of include/Instructions.h: the constructors against the getters.
pub mod Sums
pub mod Immediates
pub mod Reads
