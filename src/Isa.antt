-- ===== src/Isa.antt =====
-- lib/Instructions.cpp: what `exec` of each instruction class does to the machine.
mod State
mod Alu
mod Immediate
mod Other
pub mod DivRem
pub mod Products
pub mod Zero
pub mod Words
pub mod Typed
pub mod MretRanges
pub mod Ranges
pub use State.{Machine, Out}
unfoldable pub use State.{write_next}
unfoldable pub use Alu.{r_result, r_exec}
unfoldable pub use Immediate.{i_step, i_exec}
unfoldable pub use Other.{store, condition, u_exec, s_effect, s_exec, b_exec, j_exec, exec}
