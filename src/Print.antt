-- ===== src/Print.antt =====
-- What the print functions write: `mprint` and `pprint` of include/Instructions.h, and the two
-- functions of lib/Debug.cpp. Each returns its text.
pub mod Assembly
pub mod Binary
pub mod Lines
pub mod Assembled
pub mod Immediate
pub mod Listing
pub mod Loaded
pub mod Digits
