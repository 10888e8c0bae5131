-- ===== src/Decoder/Ranges.antt =====
-- The word and the fields of what lib/Decoder.cpp makes are in range.
use rip_sim.Base.{ℕ, ◌<◌, ◌≡◌, arith, some, bit_and_field}
use rip_sim.Insts.{
  Instruction, IMnemo, RMnemo, UMnemo, JMnemo, SMnemo, BMnemo, new_i, new_r, new_u, new_j, new_s,
  new_b,
}
use rip_sim.Encoding.Sums.{
  val-new_i, val-new_r, val-new_s, val-new_b, val-new_u, val-new_j, i_funct3-lt, i_opcode-lt,
  r_funct3-lt, r_funct7-lt, s_funct3-lt, b_funct3-lt, u_opcode-lt, j_opcode-eq,
}
use rip_sim.Isa.Ranges.{FieldsFit}
use rip_sim.Isa.Words.{IsWord}
use rip_sim.Decoder.{decode}
use rip_sim.Decoder.Classes.{decode-Form}
use rip_sim.Decoder.Fields.{
  Form, plain, jump_reg, shift_logical, shift_arithmetic, nop, extended, op, store, branch, upper,
  jump,
}

abbrev Ranged : Instruction → Type 0
Ranged i = FieldsFit i.body × IsWord i.val

new_i-Ranged : (m : IMnemo) (rd rs1 imm : ℕ) → Ranged (new_i m rd rs1 imm)
unfolding new_i
new_i-Ranged m rd rs1 imm = (
  (omega arith, omega arith),
  omega (arith, val-new_i m rd rs1 imm, i_funct3-lt m, i_opcode-lt m),
)

new_r-Ranged : (m : RMnemo) (rd rs1 rs2 : ℕ) → Ranged (new_r m rd rs1 rs2)
unfolding new_r
new_r-Ranged m rd rs1 rs2 =
    (tt, omega (arith, val-new_r m rd rs1 rs2, r_funct3-lt m, r_funct7-lt m))

new_u-Ranged : (m : UMnemo) (rd imm : ℕ) → Ranged (new_u m rd imm)
unfolding new_u
new_u-Ranged m rd imm = (tt, omega (arith, val-new_u m rd imm, u_opcode-lt m))

new_j-Ranged : (m : JMnemo) (rd imm : ℕ) → rd < 32 → Ranged (new_j m rd imm)
unfolding new_j
new_j-Ranged m rd imm h = (tt, omega (arith, val-new_j m rd imm h, j_opcode-eq m))

new_s-Ranged : (m : SMnemo) (rs1 rs2 imm : ℕ) → Ranged (new_s m rs1 rs2 imm)
unfolding new_s
new_s-Ranged m rs1 rs2 imm = (tt, omega (arith, val-new_s m rs1 rs2 imm, s_funct3-lt m))

new_b-Ranged : (m : BMnemo) (rs1 rs2 imm : ℕ) → Ranged (new_b m rs1 rs2 imm)
unfolding new_b
new_b-Ranged m rs1 rs2 imm = (tt, omega (arith, val-new_b m rs1 rs2 imm, b_funct3-lt m))

Form-Ranged : (w : ℕ) {i : Instruction} → Form w i → Ranged i
Form-Ranged w (plain m o f e) = rw e (new_i-Ranged _ _ _ _)
Form-Ranged w (jump_reg o e) = rw e (new_i-Ranged _ _ _ _)
Form-Ranged w (shift_logical o f g e) = rw e (new_i-Ranged _ _ _ _)
Form-Ranged w (shift_arithmetic o f g e) = rw e (new_i-Ranged _ _ _ _)
Form-Ranged w (nop o e) = rw e (new_i-Ranged _ _ _ _)
Form-Ranged w (extended m o e) = rw e (new_i-Ranged _ _ _ _)
Form-Ranged w (op m o f g e) = rw e (new_r-Ranged _ _ _ _)
Form-Ranged w (store m o f e) = rw e (new_s-Ranged _ _ _ _)
Form-Ranged w (branch m o f e) = rw e (new_b-Ranged _ _ _ _)
Form-Ranged w (upper m o e) = rw e (new_u-Ranged _ _ _)
Form-Ranged w (jump m o e) = rw e (new_j-Ranged _ _ _ (omega (arith, bit_and_field 5 7 w)))

pub decode-Ranged : (w : ℕ) {i : Instruction} → decode w ≡ some i → FieldsFit i.body × IsWord i.val
decode-Ranged w e = Form-Ranged w (decode-Form w e)
