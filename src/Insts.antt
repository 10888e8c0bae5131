-- ===== src/Insts.antt =====
-- include/InstructionTypes.h and the classes of include/Instructions.h: the instruction set, the
-- objects that the decoder makes, and the fields that are read out of their 32-bit value.
mod Kinds
mod Objects
mod Getters
pub use Kinds.*
pub use Objects.{Instruction, Body, i_body, r_body, u_body, j_body, s_body, b_body}
unfoldable pub use Objects.{new_i, new_r, new_u, new_j, new_s, new_b}
pub use Getters.{has_rd, has_rs1, has_rs2, sign_extend}
unfoldable pub use Getters.{
  get_rd, get_rs1, get_rs2, get_i_imm, get_s_imm, get_j_imm, get_b_imm, get_u_imm,
}
